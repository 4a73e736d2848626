-- ===== src/Remote/Lookahead.antt =====
-- The places that `parseCommands` computes, read as pieces of the text.
use linbo_docker.Base.{
  ℕ, zero, suc, ◌≤◌, ◌<◌, ◌≡◌, refl, true, Option, none, some, List, [], ◌∷◌, inl, inr, arith, ltb,
  ltb→lt, ◌==◌, if◌then◌else◌, length, take, drop, Bool-cases,
}
use linbo_docker.Text.{Text, has, index_of, index_of_text, last_index_of}
use linbo_docker.Text.Split.{split}
use linbo_docker.Remote.{command_end, param_end, move_for, move_end}
use linbo_docker.Remote.Segments.{before, after}

-- the end of a parameter is the first comma, or the end of the text
abbrev pub comma_end : Text → ℕ
comma_end s = param_end (index_of b',' s) (length s)

pub take-comma_end : (s : Text) → take (comma_end s) s ≡ before b',' s
unfolding index_of before
take-comma_end [] = refl
take-comma_end (x ∷ xs) = ground (arith, take-comma_end xs)

-- the comma and what follows it
abbrev pub from_comma : Text → Text
from_comma s = if has b',' s then b',' ∷ after b',' s else []

pub drop-comma_end : (s : Text) → drop (comma_end s) s ≡ from_comma s
unfolding index_of after
drop-comma_end [] = refl
drop-comma_end (x ∷ xs) = ground (arith, drop-comma_end xs)

-- No comma stands at or before a place in front of the first comma.
no_comma_before : (s : Text) (at : ℕ) → at < comma_end s → last_index_of b',' s at ≡ none
unfolding index_of last_index_of
no_comma_before [] at h = refl
no_comma_before (x ∷ xs) zero h = ground arith
no_comma_before (x ∷ xs) (suc at) h = ground (arith, no_comma_before xs at)

move_for-comma_end : (s : Text) (at : Option ℕ) → move_for s at (comma_end s) ≡ comma_end s
move_for-comma_end s none = refl
move_for-comma_end s (some at) = elim (Bool-cases (ltb at (comma_end s))) [
  | inl h ↦ rw (h, no_comma_before s at (ltb→lt at (comma_end s) h))
  | inr h ↦ rw h
]

-- The search for later commands never moves the end of a parameter.
pub move_end-comma_end :
    (s : Text) (words : List Text) → move_end s (comma_end s) words ≡ comma_end s
unfolding move_end
move_end-comma_end s [] = refl
move_end-comma_end s (w ∷ ws) =
    rw (move_for-comma_end s (index_of_text w s)) (move_end-comma_end s ws)

-- the end of a command's name is the first colon or comma, or the end of the text
abbrev pub name_end : Text → ℕ
name_end s = command_end (index_of b':' s) (index_of b',' s) (length s)

name_end-cons :
    (x : ℕ) (xs : Text)
    → name_end (x ∷ xs) ≡ (if x == b':' then 0 else if x == b',' then 0 else suc (name_end xs))
unfolding index_of
name_end-cons x xs = ground arith

pub take-name_end : (s : Text) → take (name_end s) s ≡ before b':' (before b',' s)
unfolding index_of before
take-name_end [] = refl
take-name_end (x ∷ xs) = rw (name_end-cons x xs) (ground (arith, take-name_end xs))

-- What stands behind the name: a colon with the parameter, a comma, or nothing.
abbrev pub from_name : Text → Text
from_name s = if has b':' (before b',' s) then b':' ∷ after b':' s else from_comma s

pub drop-name_end : (s : Text) → drop (name_end s) s ≡ from_name s
unfolding index_of before after
drop-name_end [] = refl
drop-name_end (x ∷ xs) = rw (name_end-cons x xs) (ground (arith, drop-name_end xs))

pub before-after :
    (s : Text)
    → has b':' (before b',' s) ≡ true
    → before b',' (after b':' s) ≡ after b':' (before b',' s)
unfolding before after
before-after [] h = refl
before-after (x ∷ xs) h = ground (arith, before-after xs)

pub from_comma-after :
    (s : Text) → has b':' (before b',' s) ≡ true → from_comma (after b':' s) ≡ from_comma s
unfolding before after
from_comma-after [] h = refl
from_comma-after (x ∷ xs) h = ground (arith, from_comma-after xs)

pub split-before :
    (s : Text)
    → split b',' s ≡ before b',' s ∷ (if has b',' s then split b',' (after b',' s) else [])
unfolding before after split
split-before [] = refl
split-before (x ∷ xs) = ground (arith, split-before xs)

pub length-after-le : (c : ℕ) (s : Text) → length (after c s) ≤ length s
unfolding after
length-after-le c [] = omega arith
length-after-le c (x ∷ xs) = ground (arith, length-after-le c xs)
