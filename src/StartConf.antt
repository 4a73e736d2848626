-- ===== src/StartConf.antt =====
-- containers/api/src/lib/startconf-rewrite.js: the server's address in the section [LINBO] of a
-- start.conf. The regular expressions are written out: `\s` and `\S` by `is_space`, the flag `i` by
-- `lower`. The new address is put in as it is; in JavaScript a `$` in it would be special.
pub mod Words
pub mod Replacing
pub mod Heads
pub mod Rewritten
pub mod Lines
use linbo_docker.Base.{
  ℕ, Bool, true, false, not, ◌&&◌, ◌||◌, List, [], ◌∷◌, ◌++◌, ◌==◌, if◌then◌else◌,
}
use linbo_docker.Text.{Text, codes, lower, is_space, trim_start}
use linbo_docker.Text.Split.{split, join}

-- a word in lower case stands here, letter case aside, and the rest fits
unfoldable pub word_at : Text → (Text → Bool) → Text → Bool
word_at [] p s = p s
word_at (c ∷ w) p [] = false
word_at (c ∷ w) p (x ∷ s) = if lower x == c then word_at w p s else false

abbrev pub any_rest : Text → Bool
any_rest s = true

-- `\s*=`
abbrev pub equals : Text → Bool
equals s = word_at (codes "=") any_rest (trim_start s)

-- /^\s*\[LINBO\]/i
abbrev pub is_linbo : Text → Bool
is_linbo line = word_at (codes "[linbo]") any_rest (trim_start line)

-- /^\s*\[/
abbrev pub is_header : Text → Bool
is_header line = word_at (codes "[") any_rest (trim_start line)

-- /^\s*Server\s*=/i
abbrev pub is_server : Text → Bool
is_server line = word_at (codes "server") equals (trim_start line)

-- /^\s*KernelOptions\s*=/i
abbrev pub is_kernel : Text → Bool
is_kernel line = word_at (codes "kerneloptions") equals (trim_start line)

-- the same word, with its letter case
unfoldable pub exact_at : Text → (Text → Bool) → Text → Bool
exact_at [] p s = p s
exact_at (c ∷ w) p [] = false
exact_at (c ∷ w) p (x ∷ s) = if x == c then exact_at w p s else false

-- `\S`
abbrev pub has_word : Text → Bool
has_word [] = false
has_word (x ∷ s) = not (is_space x)

-- /server=\S+/ at this place, and anywhere
abbrev pub server_here : Text → Bool
server_here s = exact_at (codes "server=") has_word s

unfoldable pub has_server : Text → Bool
unfolding exact_at is_space
has_server [] = false
has_server (x ∷ s) = server_here (x ∷ s) || has_server s

-- what comes behind white space, or behind a word that stands here, is changed
unfoldable pub past_space : (Text → Text) → Text → Text
unfolding is_space
past_space f [] = f []
past_space f (x ∷ s) = elim (is_space x) [ true ↦ x ∷ past_space f s | false ↦ f (x ∷ s) ]

unfoldable pub past_word : Text → (Text → Text) → Text → Text
past_word [] f s = f s
past_word (c ∷ w) f [] = []
past_word (c ∷ w) f (x ∷ s) = elim (lower x == c) [ true ↦ x ∷ past_word w f s | false ↦ x ∷ s ]

-- what is left behind `\S*`
unfoldable pub drop_word : Text → Text
unfolding is_space
drop_word [] = []
drop_word (x ∷ s) = elim (is_space x) [ true ↦ x ∷ s | false ↦ drop_word s ]

-- `\S+`, which stands here if there is anything
unfoldable pub put_word : Text → Text → Text
unfolding drop_word
put_word ip [] = []
put_word ip (x ∷ s) = ip ++ drop_word (x ∷ s)

-- line.replace(/^(\s*Server\s*=\s*)\S+/i, `$1${newServerIp}`)
abbrev pub replace_server : Text → Text → Text
replace_server ip =
    past_space
      (past_word (codes "server") (past_space (past_word (codes "=") (past_space (put_word ip)))))

-- line.replace(/server=\S+/g, `server=${newServerIp}`); `inside` is set in the text of a match,
-- which goes on to the next white space
unfoldable pub replace_all : Text → Bool → Text → Text
unfolding exact_at is_space
replace_all ip inside [] = []
replace_all ip true (x ∷ s) = elim (is_space x) [
  | true ↦ x ∷ replace_all ip false s
  | false ↦ replace_all ip true s
]
replace_all ip false (x ∷ s) = elim (server_here (x ∷ s)) [
  | true ↦ codes "server=" ++ (ip ++ replace_all ip true s)
  | false ↦ x ∷ replace_all ip false s
]

-- a line of the section
unfoldable pub rewrite_line : Text → Text → Text
unfolding word_at has_server past_space past_word put_word replace_all trim_start
rewrite_line ip line =
    if is_server line
    then replace_server ip line
    else if is_kernel line && has_server line
    then replace_all ip false line
    else line

-- `inLinboSection` at a line
abbrev pub in_section : Bool → Text → Bool
in_section b line = if is_linbo line then true else if is_header line then false else b

unfoldable pub rewrite_lines : Text → Bool → List Text → List Text
unfolding rewrite_line
rewrite_lines ip b [] = []
rewrite_lines ip b (line ∷ lines) =
    (if in_section b line then rewrite_line ip line else line)
    ∷ rewrite_lines ip (in_section b line) lines

unfoldable pub rewrite_server_field : Text → Text → Text
unfolding rewrite_lines split join
rewrite_server_field [] ip = []
rewrite_server_field (c ∷ cs) [] = c ∷ cs
rewrite_server_field (c ∷ cs) (d ∷ ds) = join 10 (rewrite_lines (d ∷ ds) false (split 10 (c ∷ cs)))
