-- ===== src/Tests/Commands.antt =====
-- Runs of the command language of Remote.
use linbo_docker.Base.{◌≡◌, refl, true, some, List, [], ◌∷◌, ok, err, All}
use linbo_docker.Text.{Text, codes, trim}
use linbo_docker.Text.Split.{split}
use linbo_docker.Remote.{
  Command, parse_commands, the_command, number, word, unknown_command, is_allowed,
}
use linbo_docker.Remote.Segments.{parse_segments}
use linbo_docker.Remote.Parsing.{parse_commands-segments}
use linbo_docker.Remote.Valid.{IsWellFormed, parse_commands-IsWellFormed}

abbrev script : Text
script = codes " sync:1,initcache:Rsync,create_image:2:\"hi\",reboot "

abbrev commands : List Command
commands =
    the_command (codes "sync") (number 1 ∷ [])
    ∷ the_command (codes "initcache") (word (codes "rsync") ∷ [])
    ∷ the_command (codes "create_image") (number 2 ∷ word (codes "hi") ∷ [])
    ∷ the_command (codes "reboot") []
    ∷ []

parse-script : parse_commands script ≡ some (ok commands)
unfolding parse_commands
parse-script = refl

parse_unknown : parse_commands (codes "sync:1,,start:1") ≡ some (err (unknown_command []))
unfolding parse_commands
parse_unknown = refl

parse_commands-segments_example :
    parse_commands script ≡ some (parse_segments (split b',' (trim script)))
parse_commands-segments_example = parse_commands-segments script (λ e. cc)

parse_commands-IsWellFormed_example : All IsWellFormed commands
parse_commands-IsWellFormed_example = parse_commands-IsWellFormed script parse-script

sync-is_allowed : is_allowed (codes "sync") ≡ true
unfolding is_allowed
sync-is_allowed = refl
