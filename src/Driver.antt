-- ===== src/Driver.antt =====
-- containers/api/src/lib/driver-path.js: the tests on the names and paths of driver sets. An error
-- is a constructor for its message.
pub mod Segments
pub mod Accepted
use linbo_docker.Base.{
  ℕ, suc, ◌-◌, Bool, true, false, ◌&&◌, ◌||◌, List, [], ◌∷◌, leb, ◌==◌, if◌then◌else◌, length, all,
  any, Outcome, ok, err,
}
use linbo_docker.Text.{Text, codes, text_eq, has, trim, is_alphanumeric}
use linbo_docker.Text.Split.{split}

pub data PathError : Type 0 where
  empty_name bad_name empty_path absolute_path has_backslash has_nul traversal : PathError

-- `[a-zA-Z0-9._-]`
abbrev pub is_name_char : ℕ → Bool
is_name_char c = is_alphanumeric c || (c == b'.' || (c == b'_' || c == b'-'))

-- `/^[a-zA-Z0-9][a-zA-Z0-9._-]{0,99}$/`
unfoldable pub is_name : Text → Bool
is_name [] = false
is_name (c ∷ cs) = is_alphanumeric c && (all is_name_char cs && leb (length cs) 99)

unfoldable pub sanitize_name : Text → Outcome PathError Text
unfolding is_name trim
sanitize_name [] = err empty_name
sanitize_name (c ∷ cs) =
    let trimmed = trim (c ∷ cs) in if is_name trimmed then ok trimmed else err bad_name

abbrev pub is_absolute : Text → Bool
is_absolute [] = false
is_absolute (c ∷ cs) = c == b'/'

abbrev pub is_parent : Text → Bool
is_parent s = text_eq s (codes "..")

-- `replace(/\/+/g, '/')`
unfoldable pub collapse : Text → Text
collapse [] = []
collapse (c ∷ []) = c ∷ []
collapse (c ∷ d ∷ cs) =
    let rest = collapse (d ∷ cs) in if c == b'/' && d == b'/' then rest else c ∷ rest

-- `replace(/\/$/, '')`
unfoldable pub drop_slash : Text → Text
drop_slash [] = []
drop_slash (c ∷ []) = if c == b'/' then [] else c ∷ []
drop_slash (c ∷ d ∷ cs) = c ∷ drop_slash (d ∷ cs)

unfoldable pub sanitize_trimmed : Text → Outcome PathError Text
unfolding collapse drop_slash split text_eq
sanitize_trimmed trimmed =
    if is_absolute trimmed
    then err absolute_path
    else if has 0x5c trimmed
    then err has_backslash
    else if has 0 trimmed
    then err has_nul
    else if any is_parent (split b'/' trimmed)
    then err traversal
    else ok (drop_slash (collapse trimmed))

unfoldable pub sanitize_relative_path : Text → Outcome PathError Text
unfolding sanitize_trimmed trim
sanitize_relative_path [] = err empty_path
sanitize_relative_path (c ∷ cs) = sanitize_trimmed (trim (c ∷ cs))
