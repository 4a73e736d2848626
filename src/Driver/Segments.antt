-- ===== src/Driver/Segments.antt =====
-- containers/api/src/lib/driver-path.js: the segments of a path that `sanitizeRelativePath` cleans.
use linbo_docker.Base.{
  ℕ, ◌≡◌, refl, sym, ap, ◌∙◌, Bool, true, false, ◌&&◌, List, [], ◌∷◌, arith, ◌==◌, any, inl, inr,
  Bool-cases, &&-true,
}
use linbo_docker.Text.{Text}
use linbo_docker.Text.Split.{split, split-eq-cons}
use linbo_docker.Driver.{collapse, drop_slash}

-- The segments of `t` are segments of `s`, and both have the same first one.
pub Kept : (Text → Bool) → Text → Text → Type 0
Kept p s t =
    (first : Text) × (rest : List Text) × (kept : List Text) × (split b'/' s ≡ first ∷ rest)
    × (split b'/' t ≡ first ∷ kept)
    × (any p rest ≡ false → any p kept ≡ false)

Kept-refl : (p : Text → Bool) (s : Text) → Kept p s s
unfolding Kept
Kept-refl p s = let (f, r, e) = split-eq-cons b'/' s in (f, r, r, e, e, λ h. h)

Kept-cons : (p : Text → Bool) (c : ℕ) (s t : Text) → Kept p s t → Kept p (c ∷ s) (c ∷ t)
unfolding Kept split
Kept-cons p c s t (f, r, k, e, e', h) = elim (Bool-cases (c == b'/')) [
  | inl slash ↦ ([], f ∷ r, f ∷ k, rw (slash, e) refl, rw (slash, e') refl, λ g. ground (arith, h))
  | inr other ↦ (c ∷ f, r, k, rw (other, e) refl, rw (other, e') refl, h)
]

split-slash : (d : ℕ) (s : Text) → (d == b'/') ≡ true → split b'/' (d ∷ s) ≡ [] ∷ split b'/' s
unfolding split
split-slash d s h = rw h refl

cons-head : {a b : Text} {xs ys : List Text} → (a ∷ xs) ≡ (b ∷ ys) → a ≡ b
cons-head h = cc

cons-tail : {a b : Text} {xs ys : List Text} → (a ∷ xs) ≡ (b ∷ ys) → xs ≡ ys
cons-tail h = cc

behind : (p : Text → Bool) (f : Text) (r : List Text) → any p (f ∷ r) ≡ false → any p r ≡ false
behind p f r h = ground arith

any-kept :
    (p : Text → Bool) (f : Text) (r k : List Text)
    → (any p r ≡ false → any p k ≡ false)
    → any p (f ∷ r) ≡ false
    → any p (f ∷ k) ≡ false
any-kept p f r k h g = ground arith

-- A further slash in front of a slash can go.
Kept-slash :
    (p : Text → Bool) (c d : ℕ) (s t : Text)
    → (c == b'/') ≡ true
    → (d == b'/') ≡ true
    → Kept p (d ∷ s) t
    → Kept p (c ∷ d ∷ s) t
unfolding Kept
Kept-slash p c d s t hc hd (f, r, k, e, e', h) =
    let empty = cons-head (sym e ∙ split-slash d s hd) in
    (
      [],
      f ∷ r,
      k,
      split-slash c (d ∷ s) hc ∙ ap (◌∷◌ []) e,
      e' ∙ ap (λ (g : Text). g ∷ k) empty,
      λ g. h (behind p f r g),
    )

pub collapse-Kept : (p : Text → Bool) (s : Text) → Kept p s (collapse s)
unfolding collapse
collapse-Kept p [] = Kept-refl p []
collapse-Kept p (c ∷ []) = Kept-refl p (c ∷ [])
collapse-Kept p (c ∷ d ∷ cs) = elim (Bool-cases (c == b'/' && d == b'/')) [
  | inl both ↦
      let (hc, hd) = &&-true (c == b'/') (d == b'/') both in
      rw both (Kept-slash p c d cs (collapse (d ∷ cs)) hc hd (collapse-Kept p (d ∷ cs)))
  | inr other ↦ rw other (Kept-cons p c (d ∷ cs) (collapse (d ∷ cs)) (collapse-Kept p (d ∷ cs)))
]

Kept-one : (p : Text → Bool) (c : ℕ) → (c == b'/') ≡ true → Kept p (c ∷ []) []
unfolding Kept split
Kept-one p c h = ([], [] ∷ [], [], rw h refl, refl, λ g. refl)

pub drop_slash-Kept : (p : Text → Bool) (s : Text) → Kept p s (drop_slash s)
unfolding drop_slash
drop_slash-Kept p [] = Kept-refl p []
drop_slash-Kept p (c ∷ []) = elim (Bool-cases (c == b'/')) [
  | inl slash ↦ rw slash (Kept-one p c slash)
  | inr other ↦ rw other (Kept-refl p (c ∷ []))
]
drop_slash-Kept p (c ∷ d ∷ cs) =
    Kept-cons p c (d ∷ cs) (drop_slash (d ∷ cs)) (drop_slash-Kept p (d ∷ cs))

-- No segment fails the test afterwards if none did before.
pub any-Kept :
    (p : Text → Bool) (s t : Text)
    → Kept p s t
    → any p (split b'/' s) ≡ false
    → any p (split b'/' t) ≡ false
unfolding Kept
any-Kept p s t (f, r, k, e, e', h) g = rw e' (any-kept p f r k h (rw e at g))
