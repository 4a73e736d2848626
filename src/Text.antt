-- ===== src/Text.antt =====
-- The JavaScript string operations that the program uses, over lists of UTF-16 code units.
pub mod Split
pub mod Number
pub mod Path
use Prim.Native.Char.{code}
use mathlib.Core.Bool.{false≢true}
use mathlib.Core.Path.{subst}
use linbo_docker.Base.{
  ℕ, zero, suc, ◌+◌, ◌-◌, ◌≤◌, ◌<◌, String, ◌≡◌, refl, ap, ◌↔◌, Bool, true, false, not, ◌&&◌, ◌||◌,
  Option, none, some, List, [], ◌∷◌, ◌++◌, map, arith, leb, ◌==◌, if◌then◌else◌, length, take, drop,
  any, All, inl, inr, Bool-cases, length-append, drop-length-append,
}

abbrev pub Text : Type 0
Text = List ℕ

-- The code units of a literal; every literal of this development is ASCII.
abbrev pub codes : String → Text
codes String.[] = []
codes (String.◌∷◌ c s) = code c ∷ codes s

-- `a === b`
unfoldable pub text_eq : Text → Text → Bool
text_eq [] [] = true
text_eq (x ∷ xs) (y ∷ ys) = x == y && text_eq xs ys
text_eq _ _ = false

-- `list.includes(s)`
unfoldable pub includes : List Text → Text → Bool
unfolding text_eq
includes [] s = false
includes (w ∷ ws) s = text_eq w s || includes ws s

-- `s.includes(c)` for one code unit
abbrev pub has : ℕ → Text → Bool
has c = any (λ x. x == c)

-- `s.startsWith(p)`
unfoldable pub starts_with : Text → Text → Bool
starts_with s [] = true
starts_with [] (y ∷ ys) = false
starts_with (x ∷ xs) (y ∷ ys) = x == y && starts_with xs ys

-- `s.endsWith(e)`
unfoldable pub ends_with : Text → Text → Bool
unfolding text_eq
ends_with s e = leb (length e) (length s) && text_eq (drop (length s - length e) s) e

-- `s.slice(0, -n)` for 0 < n
abbrev pub chop : ℕ → Text → Text
chop n s = take (length s - n) s

-- `s.indexOf(c)`; `none` is -1
unfoldable pub index_of : ℕ → Text → Option ℕ
index_of c [] = none
index_of c (x ∷ xs) =
    if x == c then some 0 else elim (index_of c xs) [ none ↦ none | some i ↦ some (suc i) ]

-- `s.indexOf(w)`; `none` is -1
unfoldable pub index_of_text : Text → Text → Option ℕ
unfolding starts_with
index_of_text w [] = if starts_with [] w then some 0 else none
index_of_text w (x ∷ xs) =
    if starts_with (x ∷ xs) w
    then some 0
    else elim (index_of_text w xs) [ none ↦ none | some i ↦ some (suc i) ]

-- `s.lastIndexOf(c, from)`; `none` is -1
unfoldable pub last_index_of : ℕ → Text → ℕ → Option ℕ
last_index_of c [] from = none
last_index_of c (x ∷ xs) zero = if x == c then some 0 else none
last_index_of c (x ∷ xs) (suc from) = elim (last_index_of c xs from) [
  | some i ↦ some (suc i)
  | none ↦ if x == c then some 0 else none
]

abbrev pub within : ℕ → ℕ → ℕ → Bool
within lo hi c = leb lo c && leb c hi

abbrev pub is_upper : ℕ → Bool
is_upper c = within b'A' b'Z' c

abbrev pub is_digit : ℕ → Bool
is_digit c = within b'0' b'9' c

abbrev pub is_alphanumeric : ℕ → Bool
is_alphanumeric c = within b'a' b'z' c || is_upper c || is_digit c

-- White space and line ends, as `trim` and `\s` read them.
unfoldable pub is_space : ℕ → Bool
is_space c =
    within 9 13 c
    || c == 32
    || c == 0xa0
    || c == 0x1680
    || within 0x2000 0x200a c
    || within 0x2028 0x2029 c
    || c == 0x202f
    || c == 0x205f
    || c == 0x3000
    || c == 0xfeff

unfoldable pub trim_start : Text → Text
unfolding is_space
trim_start [] = []
trim_start (c ∷ cs) = if is_space c then trim_start cs else c ∷ cs

unfoldable pub trim_end : Text → Text
unfolding is_space
trim_end [] = []
trim_end (c ∷ cs) = elim (trim_end cs) [
  | [] ↦ if is_space c then [] else c ∷ []
  | d ∷ ds ↦ c ∷ d ∷ ds
]

-- `s.trim()`
unfoldable pub trim : Text → Text
unfolding trim_start trim_end
trim s = trim_end (trim_start s)

abbrev pub lower : ℕ → ℕ
lower c = if is_upper c then c + 32 else c

-- `s.toLowerCase()`, exact on ASCII; other letters stay as they are here. Commands and MAC
-- addresses are compared with ASCII words, host names are tested first; it is a room's name only
-- that can hold other letters.
abbrev pub to_lower : Text → Text
to_lower = map lower

pub text_eq_iff : (a b : Text) → (text_eq a b ≡ true) ↔ (a ≡ b)
unfolding text_eq
text_eq_iff (x ∷ a) (y ∷ b) = ground (arith, text_eq_iff a b)
text_eq_iff _ _ = ground arith

pub text_eq_refl : (a : Text) → text_eq a a ≡ true
text_eq_refl a = (text_eq_iff a a).1 refl

pub starts_with-append : (a b : Text) → starts_with (a ++ b) a ≡ true
unfolding starts_with
starts_with-append [] b = refl
starts_with-append (x ∷ a) b = ground (arith, starts_with-append a b)

pub ends_with-append : (a e : Text) → ends_with (a ++ e) e ≡ true
unfolding ends_with
ends_with-append a e = ground (arith, length-append a e, chopped)
  where
    shorter : length (a ++ e) - length e ≡ length a
    shorter = omega (arith, length-append a e)

    chopped : text_eq (drop (length (a ++ e) - length e) (a ++ e)) e ≡ true
    chopped = rw (shorter, drop-length-append a e) (text_eq_refl e)

-- What holds of each listed text holds of every text that is on the list.
pub includes-All {ℓ} :
    (P : Text → Type ℓ) (ws : List Text) (s : Text) → All P ws → includes ws s ≡ true → P s
unfolding includes
includes-All P [] s h e = absurd (false≢true e)
includes-All P (w ∷ ws) s h e = elim (Bool-cases (text_eq w s)) [
  | inl same ↦ subst P ((text_eq_iff w s).0 same) h.0
  | inr other ↦ includes-All P ws s h.1 (rw other at e)
]
