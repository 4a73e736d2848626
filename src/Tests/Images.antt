-- ===== src/Tests/Images.antt =====
-- Runs of Image.
use linbo_docker.Base.{◌≡◌, refl, List, [], ◌∷◌, ok, err, All, ◌>>=◌}
use linbo_docker.Text.{Text, codes, text_eq}
use linbo_docker.Text.Split.{join}
use linbo_docker.Text.Path.{IsPlain, is_idle, path_join, normalize}
use linbo_docker.Text.Path.Plain.{root_path}
use linbo_docker.Image.{
  MainFilename, parse_main_filename, to_relative_path, resolve_image_path, resolve_from_db_path,
  outside_linbo_dir,
}
use linbo_docker.Image.Names.{IsMain, parse_main_filename-IsMain}
use linbo_docker.Image.Paths.{
  Inside, resolve_from_db_path-Inside, resolve_from_db_path-to_relative_path,
}

abbrev ubuntu : MainFilename
ubuntu = record { base = codes "ubuntu22"; ext = codes ".qcow2"; filename = codes "ubuntu22.qcow2" }

parse-ubuntu : parse_main_filename (codes "ubuntu22.qcow2") ≡ ok ubuntu
unfolding parse_main_filename
parse-ubuntu = refl

abbrev srv_linbo : List Text
srv_linbo = codes "srv" ∷ codes "linbo" ∷ []

srv_linbo-IsPlain : All IsPlain srv_linbo
unfolding is_idle text_eq
srv_linbo-IsPlain = (
  record { no_slash = refl; not_idle = refl; not_up = refl },
  (record { no_slash = refl; not_idle = refl; not_up = refl }, tt),
)

resolve-ubuntu :
    resolve_from_db_path (codes "/srv/linbo") (codes "/srv/linbo/images/u/u.qcow2")
    ≡ ok (codes "/srv/linbo/images/u/u.qcow2")
unfolding resolve_from_db_path
resolve-ubuntu = refl

resolve-outside :
    resolve_from_db_path (codes "/srv/linbo") (codes "/etc/passwd") ≡ err outside_linbo_dir
unfolding resolve_from_db_path
resolve-outside = refl

normalize_dots : normalize (codes "/srv/./a//b/../c/") ≡ codes "/srv/a/c/"
unfolding normalize
normalize_dots = refl

join_empty : path_join ([] ∷ []) ≡ codes "."
unfolding path_join
join_empty = refl

parse_main_filename-IsMain_example : IsMain (codes "ubuntu22.qcow2") ubuntu
parse_main_filename-IsMain_example =
    parse_main_filename-IsMain (codes "ubuntu22.qcow2") parse-ubuntu

root-is : root_path srv_linbo ≡ codes "/srv/linbo"
unfolding join
root-is = refl

resolve-root :
    resolve_from_db_path (root_path srv_linbo) (codes "/srv/linbo/images/u/u.qcow2")
    ≡ ok (codes "/srv/linbo/images/u/u.qcow2")
unfolding resolve_from_db_path join
resolve-root = refl

resolve_from_db_path-Inside_example :
    Inside (codes "srv") (codes "linbo" ∷ []) (codes "/srv/linbo/images/u/u.qcow2")
resolve_from_db_path-Inside_example =
    resolve_from_db_path-Inside (codes "srv") (codes "linbo" ∷ [])
      (codes "/srv/linbo/images/u/u.qcow2") srv_linbo-IsPlain resolve-root

resolve_from_db_path-to_relative_path_example :
    (to_relative_path (codes "ubuntu22.qcow2") >>= resolve_from_db_path (root_path srv_linbo))
    ≡ resolve_image_path
        (path_join (root_path srv_linbo ∷ codes "images" ∷ []))
        (codes "ubuntu22.qcow2")
resolve_from_db_path-to_relative_path_example =
    resolve_from_db_path-to_relative_path (codes "srv") (codes "linbo" ∷ [])
      (codes "ubuntu22.qcow2") srv_linbo-IsPlain
