-- ===== src/Remote/Segments.antt =====
-- A command string by its grammar: commands between commas, each a name and, behind a colon,
-- one parameter. No index is computed and nothing is looked ahead.
use linbo_docker.Base.{
  Bool, true, false, List, [], ◌∷◌, ◌==◌, if◌then◌else◌, ℕ, Outcome, ok, err, ◌>>=◌,
}
use linbo_docker.Text.{Text, has, to_lower}
use linbo_docker.Remote.{Command, CommandError, unknown_command, is_allowed, params_of, the_command}

-- What stands before the first `c`, and what stands behind it.
unfoldable pub before : ℕ → Text → Text
before c [] = []
before c (x ∷ xs) = if x == c then [] else x ∷ before c xs

unfoldable pub after : ℕ → Text → Text
after c [] = []
after c (x ∷ xs) = if x == c then xs else after c xs

abbrev pub params_behind : Bool → Text → Text → Outcome CommandError Command
params_behind false name param = ok (the_command name [])
params_behind true name param = do ps ← params_of name param; ok (the_command name ps)

unfoldable pub parse_segment : Text → Outcome CommandError Command
parse_segment s =
    let name = to_lower (before b':' s) in
    if is_allowed name
    then params_behind (has b':' s) name (after b':' s)
    else err (unknown_command name)

-- One comma at the end is allowed: the empty segment behind it is no command.
unfoldable pub parse_segments : List Text → Outcome CommandError (List Command)
parse_segments [] = ok []
parse_segments ([] ∷ []) = ok []
parse_segments (s ∷ ss) = do c ← parse_segment s; cs ← parse_segments ss; ok (c ∷ cs)
