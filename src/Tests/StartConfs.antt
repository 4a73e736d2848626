-- ===== src/Tests/StartConfs.antt =====
-- Runs of StartConf, and its theorem at a concrete input.
use linbo_docker.Base.{◌≡◌, ◌≢◌, refl, [], ◌∷◌}
use linbo_docker.Text.{Text, codes, is_space, trim_start}
use linbo_docker.Text.Split.{split, join}
use linbo_docker.StartConf.{
  word_at, exact_at, has_server, past_space, past_word, drop_word, put_word, replace_all,
  rewrite_line, rewrite_lines, rewrite_server_field,
}
use linbo_docker.StartConf.Words.{IsWord}
use linbo_docker.StartConf.Rewritten.{rewrite_server_field-twice}

abbrev start_conf : Text
start_conf = join 10 (
    codes " [linbo]"
    ∷ codes "server =10.0.0.1 # old"
    ∷ codes "KernelOptions = quiet server=10.0.0.1 timeserver=10.0.0.9"
    ∷ codes "[OS]"
    ∷ codes "Server = 10.0.0.1"
    ∷ [])

-- The option `timeserver=` is changed too.
rewritten :
    rewrite_server_field start_conf (codes "10.0.0.2")
    ≡ join 10 (
        codes " [linbo]"
        ∷ codes "server =10.0.0.2 # old"
        ∷ codes "KernelOptions = quiet server=10.0.0.2 timeserver=10.0.0.2"
        ∷ codes "[OS]"
        ∷ codes "Server = 10.0.0.1"
        ∷ [])
unfolding rewrite_server_field rewrite_lines rewrite_line replace_all put_word drop_word past_word
    past_space has_server exact_at word_at split join is_space trim_start
rewritten = refl

is_word : IsWord (codes "10.0.0.2")
unfolding is_space
is_word = (refl, (refl, (refl, (refl, (refl, (refl, (refl, (refl, tt))))))))

first_given : codes "10.0.0.2" ≢ []
first_given h = cc

second_given : codes "10.0.0.3" ≢ []
second_given h = cc

rewrite_server_field-twice_example :
    rewrite_server_field (rewrite_server_field start_conf (codes "10.0.0.2")) (codes "10.0.0.3")
    ≡ rewrite_server_field start_conf (codes "10.0.0.3")
rewrite_server_field-twice_example =
    rewrite_server_field-twice start_conf (codes "10.0.0.2") (codes "10.0.0.3") is_word first_given
      second_given
