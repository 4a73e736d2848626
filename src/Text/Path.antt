-- ===== src/Text/Path.antt =====
-- `path.join` of Node's POSIX paths: parts that are not empty are joined by slashes, and the result
-- is normalised segment by segment.
pub mod Plain
use linbo_docker.Base.{
  ℕ, ◌≡◌, ◌≢◌, refl, sym, ap, ◌∙◌, Bool, true, false, not, ◌&&◌, ◌||◌, List, [], ◌∷◌, ◌++◌, inl,
  inr, arith, ◌==◌, if◌then◌else◌, All, All-append, any, keep, length, Bool-cases, map,
}
use mathlib.Core.List.{append-nil, append_assoc, reverse}
use linbo_docker.Text.{Text, codes, text_eq, text_eq_iff, has}
use linbo_docker.Text.Split.{split, join, split_whole, split-append}

abbrev pub dot : Text
dot = b'.' ∷ []

abbrev pub dot_dot : Text
dot_dot = b'.' ∷ b'.' ∷ []

-- a segment that normalisation drops
unfoldable pub is_idle : Text → Bool
is_idle [] = true
is_idle (c ∷ cs) = text_eq (c ∷ cs) dot

-- `..` takes the last segment away; above the root it is dropped, and in front of a relative
-- path it stays. The kept segments stand in reverse.
unfoldable pub go_up : Bool → List Text → List Text
unfolding text_eq
go_up absolute [] = if absolute then [] else dot_dot ∷ []
go_up absolute (s ∷ ss) = if text_eq s dot_dot then dot_dot ∷ s ∷ ss else ss

unfoldable pub resolve : Bool → List Text → List Text → List Text
unfolding is_idle go_up
resolve absolute kept [] = reverse kept
resolve absolute kept (s ∷ ss) =
    resolve absolute
      (if is_idle s then kept else if text_eq s dot_dot then go_up absolute kept else s ∷ kept) ss

abbrev pub is_absolute : Text → Bool
is_absolute [] = false
is_absolute (c ∷ cs) = c == b'/'

-- the path ends with a slash: its last segment is empty
abbrev pub last_is_empty : List Text → Bool
last_is_empty [] = false
last_is_empty ([] ∷ []) = true
last_is_empty ((c ∷ cs) ∷ []) = false
last_is_empty (s ∷ t ∷ ts) = last_is_empty (t ∷ ts)

abbrev rebuilt : Bool → Bool → List Text → Text
rebuilt absolute slash [] = if absolute then codes "/" else if slash then codes "./" else dot
rebuilt absolute slash (s ∷ ss) =
    let body = if slash then join b'/' (s ∷ ss) ++ codes "/" else join b'/' (s ∷ ss) in
    if absolute then b'/' ∷ body else body

unfoldable pub normalize : Text → Text
unfolding split join resolve
normalize p =
    let segments = split b'/' p in
    rebuilt (is_absolute p) (last_is_empty segments) (resolve (is_absolute p) [] segments)

abbrev is_filled : Text → Bool
is_filled [] = false
is_filled (c ∷ cs) = true

abbrev normalized_or_dot : Text → Text
normalized_or_dot [] = dot
normalized_or_dot (c ∷ cs) = normalize (c ∷ cs)

-- `path.join(...parts)`
unfoldable pub path_join : List Text → Text
unfolding normalize
path_join parts = normalized_or_dot (join b'/' (keep is_filled parts))

-- A segment that normalisation keeps, with no slash in it.
pub record IsPlain (s : Text) : Type 0 where
  pub no_slash : has b'/' s ≡ false
  pub not_idle : is_idle s ≡ false
  pub not_up : text_eq s dot_dot ≡ false
