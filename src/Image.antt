-- ===== src/Image.antt =====
-- containers/api/src/lib/image-path.js: names of image files and the paths below the image
-- directory. The directories come from the environment and are arguments.
pub mod Names
pub mod Paths
use linbo_docker.Base.{
  ℕ, ◌+◌, Bool, true, false, ◌&&◌, ◌||◌, Option, none, some, List, [], ◌∷◌, ◌++◌, map, ◌==◌, ltb,
  if◌then◌else◌, length, drop, any, all, Outcome, ok, err, ◌>>=◌,
}
use linbo_docker.Text.{
  Text, codes, text_eq, includes, ends_with, starts_with, chop, has, is_alphanumeric,
}
use linbo_docker.Text.Split.{split}
use linbo_docker.Text.Path.{path_join}

unfoldable pub image_exts : List Text
image_exts = map codes (".qcow2" ∷ ".qdiff" ∷ ".cloop" ∷ [])

unfoldable pub image_sidecars : List Text
image_sidecars = map codes (".info" ∷ ".desc" ∷ ".torrent" ∷ ".macct" ∷ ".md5" ∷ [])

unfoldable pub image_supplements : List Text
image_supplements = map codes (".reg" ∷ ".prestart" ∷ ".postsync" ∷ [])

abbrev pub max_base_len : ℕ
max_base_len = 100

pub data ImageError : Type 0 where
  invalid_filename unsupported_extension unsafe_filename empty_base illegal_base base_too_long :
      ImageError
  invalid_suffix invalid_db_path outside_linbo_dir backslash unsafe_segment : ImageError

pub record MainFilename : Type 0 where
  pub base : Text
  pub ext : Text
  pub filename : Text

-- one character of FILENAME_RE
abbrev pub is_name_char : ℕ → Bool
is_name_char c = is_alphanumeric c || c == b'.' || c == b'_' || c == b'-'

-- `FILENAME_RE.test(s)`
unfoldable pub is_safe_name : Text → Bool
is_safe_name [] = false
is_safe_name (c ∷ cs) = all is_name_char (c ∷ cs)

-- `IMAGE_EXTS.find(e => filename.endsWith(e))`
unfoldable pub find_ext : List Text → Text → Option Text
unfolding ends_with
find_ext [] filename = none
find_ext (e ∷ es) filename = if ends_with filename e then some e else find_ext es filename

-- the tests on the base
unfoldable pub check_base : Text → Text → Text → Outcome ImageError MainFilename
unfolding text_eq
check_base [] ext filename = err empty_base
check_base (c ∷ cs) ext filename =
    if text_eq (c ∷ cs) (codes ".") || text_eq (c ∷ cs) (codes "..")
    then err illegal_base
    else if ltb max_base_len (length (c ∷ cs))
    then err base_too_long
    else ok (record { base = c ∷ cs; ext = ext; filename = filename })

abbrev with_ext : Option Text → Text → Outcome ImageError MainFilename
with_ext none filename = err unsupported_extension
with_ext (some ext) filename =
    if is_safe_name filename
    then check_base (chop (length ext) filename) ext filename
    else err unsafe_filename

unfoldable pub parse_main_filename : Text → Outcome ImageError MainFilename
unfolding find_ext image_exts is_safe_name check_base
parse_main_filename [] = err invalid_filename
parse_main_filename (c ∷ cs) = with_ext (find_ext image_exts (c ∷ cs)) (c ∷ cs)

-- The loop over the sidecar extensions: the first one behind a valid image name.
pub record Sidecar : Type 0 where
  pub image_filename : Text
  pub sidecar_ext : Text

abbrev is_ok : Outcome ImageError MainFilename → Bool
is_ok (ok m) = true
is_ok (err e) = false

unfoldable pub find_sidecar : List Text → Text → Option Sidecar
unfolding ends_with parse_main_filename
find_sidecar [] filename = none
find_sidecar (e ∷ es) filename =
    let image = chop (length e) filename in
    if ends_with filename e && is_ok (parse_main_filename image)
    then some (record { image_filename = image; sidecar_ext = e })
    else find_sidecar es filename

unfoldable pub parse_sidecar_filename : Text → Option Sidecar
unfolding find_sidecar is_safe_name image_sidecars
parse_sidecar_filename filename =
    if is_safe_name filename then find_sidecar image_sidecars filename else none

-- `images/${base}/${filename}`
unfoldable pub to_relative_path : Text → Outcome ImageError Text
unfolding parse_main_filename
to_relative_path main = do
  m ← parse_main_filename main
  ok (codes "images/" ++ (m.base ++ (b'/' ∷ m.filename)))

-- a segment that the database may not hold
abbrev pub is_unsafe_segment : Text → Bool
is_unsafe_segment s = text_eq s [] || text_eq s (codes ".") || text_eq s (codes "..")

module _ (images_dir : Text) where
  unfoldable pub resolve_image_dir : Text → Outcome ImageError Text
  unfolding parse_main_filename path_join
  resolve_image_dir main = do
    m ← parse_main_filename main
    ok (path_join (images_dir ∷ m.base ∷ []))

  unfoldable pub resolve_image_path : Text → Outcome ImageError Text
  unfolding parse_main_filename path_join
  resolve_image_path main = do
    m ← parse_main_filename main
    ok (path_join (images_dir ∷ m.base ∷ m.filename ∷ []))

  unfoldable pub resolve_sidecar_path : Text → Text → Outcome ImageError Text
  unfolding parse_main_filename path_join
  resolve_sidecar_path main suffix = do
    m ← parse_main_filename main
    ok (path_join (images_dir ∷ m.base ∷ (m.filename ++ suffix) ∷ []))

  unfoldable pub resolve_supplement_path : Text → Text → Outcome ImageError Text
  unfolding includes image_supplements parse_main_filename path_join
  resolve_supplement_path main suffix =
      if includes image_supplements suffix
      then (do
        m ← parse_main_filename main
        ok (path_join (images_dir ∷ m.base ∷ (m.base ++ suffix) ∷ [])))
      else err invalid_suffix

module _ (linbo_dir : Text) where
  -- what follows the treatment of absolute paths; both branches of its last test are the same
  unfoldable pub resolve_relative : Text → Outcome ImageError Text
  unfolding text_eq split path_join
  resolve_relative rel =
      if has 0x5c rel
      then err backslash
      else if any is_unsafe_segment (split b'/' rel)
      then err unsafe_segment
      else ok (path_join (linbo_dir ∷ rel ∷ []))

  unfoldable pub resolve_from_db_path : Text → Outcome ImageError Text
  unfolding starts_with resolve_relative
  resolve_from_db_path [] = err invalid_db_path
  resolve_from_db_path (c ∷ cs) =
      if c == b'/'
      then (if starts_with (c ∷ cs) (linbo_dir ++ codes "/")
          then resolve_relative (drop (length linbo_dir + 1) (c ∷ cs))
          else err outside_linbo_dir)
      else resolve_relative (c ∷ cs)
