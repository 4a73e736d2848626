-- ===== src/StartConf/Replacing.antt =====
-- containers/api/src/lib/startconf-rewrite.js: replacing each `server=` of a line twice, and what
-- the tests say of the line afterwards.
use mathlib.Core.Bool.{false≢true}
use linbo_docker.Base.{
  ℕ, ◌≡◌, ◌≢◌, refl, sym, ap, ◌∙◌, Bool, true, false, not, [], ◌∷◌, ◌++◌, arith, ◌==◌,
  if◌then◌else◌, All, inl, inr, Bool-cases,
}
use linbo_docker.Text.{Text, codes, is_space}
use linbo_docker.StartConf.{exact_at, has_word, server_here, has_server, replace_all}
use linbo_docker.StartConf.Words.{
  IsWord, replace_all-space, replace_all-letter, replace_all-here, replace_all-next,
}

-- inside a match, a word is passed over
replace_all-append : (b w s : Text) → IsWord w → replace_all b true (w ++ s) ≡ replace_all b true s
replace_all-append b [] s h = refl
replace_all-append b (x ∷ w) s h =
    replace_all-letter x (w ++ s) b h.0 ∙ replace_all-append b w s h.1

server_here-own :
    (a rest : Text) → IsWord a → a ≢ [] → server_here (codes "server=" ++ (a ++ rest)) ≡ true
unfolding exact_at
server_here-own [] rest h n = absurd (n refl)
server_here-own (x ∷ a) rest h n = rw (h.0) refl

-- a match begins with an s
pub first_letter : (x : ℕ) (s : Text) → server_here (x ∷ s) ≡ true → x ≡ b's'
unfolding exact_at
first_letter x s h = ground arith

pub second_letter : (x y : ℕ) (s : Text) → server_here (x ∷ y ∷ s) ≡ true → y ≡ b'e'
unfolding exact_at
second_letter x y s h = ground arith

pub not_alone : (x : ℕ) → server_here (x ∷ []) ≡ false
unfolding exact_at
not_alone x = ground arith

-- no s among these
abbrev pub NoS : Text → Type 0
NoS w = All (λ (c : ℕ). (b's' == c) ≡ false) w

pub replace_all-nil : (a : Text) → replace_all a false [] ≡ []
unfolding replace_all
replace_all-nil a = refl

inside-nil : (a : Text) → replace_all a true [] ≡ []
unfolding replace_all
inside-nil a = refl

exact_at-other :
    (x c : ℕ) (w s : Text) → (x == c) ≡ false → exact_at (c ∷ w) has_word (x ∷ s) ≡ false
unfolding exact_at
exact_at-other x c w s e = rw e refl

erver-IsWord : IsWord (codes "erver=")
unfolding is_space
erver-IsWord = (refl, (refl, (refl, (refl, (refl, (refl, tt))))))

exact_at-replace_all :
    (a w s : Text) → NoS w → exact_at w has_word (replace_all a false s) ≡ exact_at w has_word s
unfolding exact_at
exact_at-replace_all a w [] h = ap (exact_at w has_word) (replace_all-nil a)
exact_at-replace_all a [] (x ∷ s) h = elim (Bool-cases (server_here (x ∷ s))) [
  | inl here ↦
      ap has_word (replace_all-here x s a here)
      ∙ ap (λ y. not (is_space y)) (sym (first_letter x s here))
  | inr next ↦ ap has_word (replace_all-next x s a next)
]
exact_at-replace_all a (c ∷ w) (x ∷ s) h = elim (Bool-cases (server_here (x ∷ s))) [
  | inl here ↦
      ap (exact_at (c ∷ w) has_word) (replace_all-here x s a here)
      ∙ exact_at-other b's' c w _ h.0
      ∙ sym (exact_at-other x c w s (ap (λ y. y == c) (first_letter x s here) ∙ h.0))
  | inr next ↦
      ap (exact_at (c ∷ w) has_word) (replace_all-next x s a next)
      ∙ ap (λ b. if x == c then b else false) (exact_at-replace_all a w s h.1)
]

server_here-replace_all :
    (a : Text) (x : ℕ) (s : Text) → server_here (x ∷ replace_all a false s) ≡ server_here (x ∷ s)
unfolding exact_at
server_here-replace_all a x s =
    ap (λ b. if x == b's' then b else false)
      (exact_at-replace_all a (codes "erver=") s (refl, (refl, (refl, (refl, (refl, (refl, tt)))))))

pub replace_all-twice :
    (a b : Text) (inside : Bool) (s : Text)
    → IsWord a
    → a ≢ []
    → replace_all b inside (replace_all a inside s) ≡ replace_all b inside s
replace_all-twice a b true [] h n = ap (replace_all b true) (inside-nil a)
replace_all-twice a b false [] h n = ap (replace_all b false) (replace_all-nil a)
replace_all-twice a b true (x ∷ s) h n = elim (Bool-cases (is_space x)) [
  | inl space ↦
      ap (replace_all b true) (replace_all-space x s a space)
      ∙ replace_all-space x _ b space
      ∙ ap (◌∷◌ x) (replace_all-twice a b false s h n)
      ∙ sym (replace_all-space x s b space)
  | inr letter ↦
      ap (replace_all b true) (replace_all-letter x s a letter)
      ∙ replace_all-twice a b true s h n
      ∙ sym (replace_all-letter x s b letter)
]
replace_all-twice a b false (x ∷ s) h n = elim (Bool-cases (server_here (x ∷ s))) [
  | inl here ↦
      ap (replace_all b false) (replace_all-here x s a here)
      ∙ replace_all-here b's' (codes "erver=" ++ (a ++ replace_all a true s)) b
          (server_here-own a (replace_all a true s) h n)
      ∙ ap (λ t. codes "server=" ++ (b ++ t))
          (replace_all-append b (codes "erver=") (a ++ replace_all a true s) erver-IsWord
            ∙ replace_all-append b a (replace_all a true s) h
            ∙ replace_all-twice a b true s h n)
      ∙ sym (replace_all-here x s b here)
  | inr next ↦
      ap (replace_all b false) (replace_all-next x s a next)
      ∙ replace_all-next x (replace_all a false s) b (server_here-replace_all a x s ∙ next)
      ∙ ap (◌∷◌ x) (replace_all-twice a b false s h n)
      ∙ sym (replace_all-next x s b next)
]

-- A line without a match stays as it is.
pub replace_all-none : (a s : Text) → has_server s ≡ false → replace_all a false s ≡ s
unfolding has_server
replace_all-none a [] e = replace_all-nil a
replace_all-none a (x ∷ s) e = elim (Bool-cases (server_here (x ∷ s))) [
  | inl here ↦ absurd (false≢true (sym e ∙ rw here refl))
  | inr next ↦ replace_all-next x s a next ∙ ap (◌∷◌ x) (replace_all-none a s (rw next at e))
]
