-- ===== src/Remote.antt =====
-- The command language of containers/api/src/services/remote.service.js: `parseCommands` and
-- `validateCommandString`. A command string is a text of code
-- units; the loop over `remaining` runs on fuel, and `none` means that the fuel ran out.
pub mod Segments
pub mod Lookahead
pub mod Parsing
pub mod Valid
use linbo_docker.Base.{
  ℕ, zero, suc, ◌<◌, Bool, true, false, ◌||◌, Option, none, some, List, [], ◌∷◌, ◌++◌, map, ltb,
  ◌==◌, if◌then◌else◌, length, take, drop, Outcome, ok, err, ◌>>=◌,
}
use Prim.Native.Nat.{min}
use linbo_docker.Text.{
  Text, codes, text_eq, includes, index_of, index_of_text, last_index_of, to_lower, trim,
}
use linbo_docker.Text.Split.{split, join}
use linbo_docker.Text.Number.{parse_int, at_least_one}

pub known_commands : List Text
known_commands = map codes (
    "label" ∷ "partition" ∷ "format" ∷ "initcache" ∷ "new" ∷ "sync" ∷ "postsync" ∷ "start"
    ∷ "prestart" ∷ "create_image" ∷ "create_qdiff" ∷ "upload_image" ∷ "upload_qdiff" ∷ "reboot"
    ∷ "halt" ∷ [])

pub download_types : List Text
download_types = map codes ("multicast" ∷ "rsync" ∷ "torrent" ∷ [])

pub special_flags : List Text
special_flags = map codes ("noauto" ∷ "disablegui" ∷ [])

pub data Param : Type 0 where
  number : ℕ → Param
  word : Text → Param

pub record Command : Type 0 where
  pub command : Text
  pub params : List Param

pub data CommandError : Type 0 where
  invalid_string : CommandError
  unknown_command : Text → CommandError
  invalid_partition : Text → CommandError
  invalid_os_number : Text → Text → CommandError
  invalid_download_type : Text → CommandError

-- `isKnownCommand || isSpecialFlag`
unfoldable pub is_allowed : Text → Bool
unfolding includes known_commands special_flags
is_allowed cmd = includes known_commands cmd || includes special_flags cmd

-- `cmdEnd`, from the places of the first colon and the first comma
abbrev pub command_end : Option ℕ → Option ℕ → ℕ → ℕ
command_end none none len = len
command_end none (some comma) len = comma
command_end (some colon) none len = colon
command_end (some colon) (some comma) len = min colon comma

abbrev pub param_end : Option ℕ → ℕ → ℕ
param_end none len = len
param_end (some comma) len = comma

-- The search for a later command: `paramEnd` goes back to the comma before it.
abbrev pub move_to : Option ℕ → ℕ → ℕ
move_to none end = end
move_to (some comma) end = comma

abbrev pub move_for : Text → Option ℕ → ℕ → ℕ
move_for remaining none end = end
move_for remaining (some at) end =
    if ltb at end then move_to (last_index_of b',' remaining at) end else end

pub move_end : Text → ℕ → List Text → ℕ
unfolding index_of_text last_index_of
move_end remaining end [] = end
move_end remaining end (w ∷ ws) =
    move_end remaining (move_for remaining (index_of_text w remaining) end) ws

-- `if (isNaN(nr) || nr < 1) throw …`, else the number is pushed, with the rest behind it
abbrev pub numbered : Option ℕ → CommandError → List Param → Outcome CommandError (List Param)
numbered none e rest = err e
numbered (some n) e rest = ok (number n ∷ rest)

format_params : Text → Outcome CommandError (List Param)
format_params [] = ok []
format_params (c ∷ cs) =
    numbered (at_least_one (parse_int (c ∷ cs))) (invalid_partition (c ∷ cs)) []

os_params : Text → Text → Outcome CommandError (List Param)
os_params cmd param = numbered (at_least_one (parse_int param)) (invalid_os_number cmd param) []

initcache_params : Text → Outcome CommandError (List Param)
unfolding includes download_types
initcache_params [] = ok []
initcache_params (c ∷ cs) =
    if includes download_types (to_lower (c ∷ cs))
    then ok (word (to_lower (c ∷ cs)) ∷ [])
    else err (invalid_download_type (c ∷ cs))

abbrev is_quote : ℕ → Bool
is_quote c = c == b'"' || c == 0x27

drop_last_quote : Text → Text
drop_last_quote [] = []
drop_last_quote (c ∷ []) = if is_quote c then [] else c ∷ []
drop_last_quote (c ∷ d ∷ cs) = c ∷ drop_last_quote (d ∷ cs)

-- `replace(/^["']|["']$/g, '')`
strip_quotes : Text → Text
unfolding drop_last_quote
strip_quotes [] = []
strip_quotes (c ∷ cs) = drop_last_quote (if is_quote c then cs else c ∷ cs)

-- `parts[1]`, pushed if it is there and not empty
comment_params : List Text → List Param
unfolding strip_quotes
comment_params [] = []
comment_params ([] ∷ parts) = []
comment_params ((c ∷ cs) ∷ parts) = word (strip_quotes (c ∷ cs)) ∷ []

image_params : Text → List Text → Outcome CommandError (List Param)
unfolding comment_params
image_params cmd [] = ok []
image_params cmd (os ∷ parts) =
    numbered (at_least_one (parse_int os)) (invalid_os_number cmd os) (comment_params parts)

abbrev os_commands : List Text
os_commands =
    map codes
      ("new" ∷ "sync" ∷ "postsync" ∷ "start" ∷ "prestart" ∷ "upload_image" ∷ "upload_qdiff" ∷ [])

abbrev image_commands : List Text
image_commands = map codes ("create_image" ∷ "create_qdiff" ∷ [])

-- the `switch` on the command
unfoldable pub params_of : Text → Text → Outcome CommandError (List Param)
unfolding format_params os_params initcache_params image_params text_eq includes split parse_int
    at_least_one
params_of cmd param =
    if text_eq cmd (codes "format")
    then format_params param
    else if includes os_commands cmd
    then os_params cmd param
    else if text_eq cmd (codes "initcache")
    then initcache_params param
    else if includes image_commands cmd
    then image_params cmd (split b':' param)
    else ok []

abbrev pub skip_comma : Text → Text
skip_comma [] = []
skip_comma (c ∷ cs) = if c == b',' then cs else c ∷ cs

abbrev pub the_command : Text → List Param → Command
the_command cmd ps = record { command = cmd; params = ps }

-- one round of the loop behind the test of the command's name
pub with_params : Text → Text → Outcome CommandError (Command × Text)
unfolding params_of move_end known_commands special_flags index_of
with_params cmd [] = ok (the_command cmd [], [])
with_params cmd (c ∷ cs) =
    if c == b':'
    then (let end =
          move_end cs (param_end (index_of b',' cs) (length cs))
            (known_commands ++ special_flags) in
        do ps ← params_of cmd (take end cs); ok (the_command cmd ps, skip_comma (drop end cs)))
    else ok (the_command cmd [], skip_comma (c ∷ cs))

-- one round of the loop
pub parse_one : Text → Outcome CommandError (Command × Text)
unfolding with_params is_allowed index_of
parse_one remaining =
    let end = command_end (index_of b':' remaining) (index_of b',' remaining) (length remaining) in
    let cmd = to_lower (take end remaining) in
    if is_allowed cmd then with_params cmd (drop end remaining) else err (unknown_command cmd)

pub parse_loop : ℕ → Text → List Command → Option (Outcome CommandError (List Command))
unfolding parse_one
parse_loop fuel [] commands = some (ok commands)
parse_loop zero (c ∷ cs) commands = none
parse_loop (suc fuel) (c ∷ cs) commands = elim (parse_one (c ∷ cs)) [
  | err e ↦ some (err e)
  | ok (cmd, rest) ↦ parse_loop fuel rest (commands ++ cmd ∷ [])
]

-- The fuel is the length of the trimmed text: every round takes at least one code unit.
unfoldable pub parse_commands : Text → Option (Outcome CommandError (List Command))
unfolding parse_loop trim
parse_commands [] = some (err invalid_string)
parse_commands (c ∷ cs) = let text = trim (c ∷ cs) in parse_loop (length text) text []

-- `{ valid: true, commands }` or `{ valid: false, error }`
pub record Validation : Type 0 where
  pub valid : Bool
  pub error : Option CommandError
  pub commands : Option (List Command)

validation : Outcome CommandError (List Command) → Validation
validation (ok cs) = record { valid = true; error = none; commands = some cs }
validation (err e) = record { valid = false; error = some e; commands = none }

unfoldable pub validate_command_string : Text → Option Validation
unfolding validation parse_commands
validate_command_string s = elim (parse_commands s) [ none ↦ none | some r ↦ some (validation r) ]
