-- ===== src/Text/Split.antt =====
-- `s.split(c)` and `parts.join(c)` for one code unit.
use linbo_docker.Base.{
  ℕ, ◌≡◌, refl, ap, false, List, [], ◌∷◌, ◌++◌, inl, inr, arith, ◌==◌, if◌then◌else◌, Bool-cases,
  any, All, ◌∙◌,
}

abbrev Text : Type 0
Text = List ℕ

abbrev onto_first : ℕ → List Text → List Text
onto_first x [] = (x ∷ []) ∷ []
onto_first x (s ∷ ss) = (x ∷ s) ∷ ss

unfoldable pub split : ℕ → Text → List Text
split c [] = [] ∷ []
split c (x ∷ xs) = let rest = split c xs in if x == c then [] ∷ rest else onto_first x rest

unfoldable pub join : ℕ → List Text → Text
join c [] = []
join c (s ∷ []) = s
join c (s ∷ t ∷ ts) = s ++ (c ∷ join c (t ∷ ts))

join-onto_first : (c x : ℕ) (ss : List Text) → join c (onto_first x ss) ≡ x ∷ join c ss
unfolding join
join-onto_first c x [] = refl
join-onto_first c x (s ∷ []) = refl
join-onto_first c x (s ∷ t ∷ ts) = refl

pub split-eq-cons : (c : ℕ) (s : Text) → (t : Text) × (ts : List Text) × (split c s ≡ t ∷ ts)
unfolding split
split-eq-cons c [] = ([], [], refl)
split-eq-cons c (x ∷ xs) =
    let (t, ts, e) = split-eq-cons c xs in
    elim (Bool-cases (x == c)) [
      | inl same ↦ ([], split c xs, rw same)
      | inr other ↦ (x ∷ t, ts, rw (other, e))
    ]

pub join-cons_cons :
    (c : ℕ) (s t : Text) (ts : List Text) → join c (s ∷ t ∷ ts) ≡ s ++ (c ∷ join c (t ∷ ts))
unfolding join
join-cons_cons c s t ts = refl

pub join-one : (c : ℕ) (s : Text) → join c (s ∷ []) ≡ s
unfolding join
join-one c s = refl

join-nil : (c : ℕ) → join c ([] ∷ []) ≡ []
unfolding join
join-nil c = refl

join-cons : (c : ℕ) (t : Text) (ts : List Text) → join c ([] ∷ t ∷ ts) ≡ c ∷ join c (t ∷ ts)
unfolding join
join-cons c t ts = refl

pub join-split : (c : ℕ) (s : Text) → join c (split c s) ≡ s
unfolding split
join-split c [] = join-nil c
join-split c (x ∷ xs) = elim (Bool-cases (x == c)) [
  | inl same ↦
      let (t, ts, e) = split-eq-cons c xs in
      rw (same, e, join-cons) (ground (arith, rw e at (join-split c xs)))
  | inr other ↦ rw (other, join-onto_first) (ap (◌∷◌ x) (join-split c xs))
]

-- A text without the separator in front.
pub split-append :
    (c : ℕ) (s rest : Text)
    → any (λ x. x == c) s ≡ false
    → split c (s ++ (c ∷ rest)) ≡ s ∷ split c rest
unfolding split
split-append c [] rest h = ground arith
split-append c (x ∷ s) rest h = ground (arith, split-append c s rest)

pub split_whole : (c : ℕ) (s : Text) → any (λ x. x == c) s ≡ false → split c s ≡ s ∷ []
unfolding split
split_whole c [] h = refl
split_whole c (x ∷ s) h = ground (arith, split_whole c s)

abbrev pub Whole : ℕ → Text → Type 0
Whole c s = any (λ x. x == c) s ≡ false

-- Splitting undoes joining where no part holds the separator.
pub split-join :
    (c : ℕ) (s : Text) (ss : List Text)
    → All (Whole c) (s ∷ ss)
    → split c (join c (s ∷ ss)) ≡ s ∷ ss
split-join c s [] h = ap (split c) (join-one c s) ∙ split_whole c s h.0
split-join c s (t ∷ ts) h =
    ap (split c) (join-cons_cons c s t ts)
    ∙ split-append c s (join c (t ∷ ts)) h.0
    ∙ ap (◌∷◌ s) (split-join c t ts h.1)

onto_first-Whole :
    (c x : ℕ) (ss : List Text)
    → (x == c) ≡ false
    → All (Whole c) ss
    → All (Whole c) (onto_first x ss)
onto_first-Whole c x [] h k = (rw h, tt)
onto_first-Whole c x (s ∷ ss) h k = (rw (h, k.0), k.1)

-- No part holds the separator.
pub split-Whole : (c : ℕ) (s : Text) → All (Whole c) (split c s)
unfolding split
split-Whole c [] = (refl, tt)
split-Whole c (x ∷ xs) = elim (Bool-cases (x == c)) [
  | inl same ↦ rw same (refl, split-Whole c xs)
  | inr other ↦ rw other (onto_first-Whole c x (split c xs) other (split-Whole c xs))
]
