-- ===== src/Ops/Slices.antt =====
-- Lists cut into slices and chosen items, for the pages of Ops.Listing.
use text.Mathlib.Text.{◌==◌ as str_eq}
use text.Mathlib.TextEquality.{eq_iff}
use mathlib.Core.Bool.{false≢true}
use native.Mathlib.Nat.{div-add-mod', mod-lt, suc-mul}
use linbo_docker.Base.{
  ℕ, zero, suc, ◌+◌, ◌-◌, ◌*◌, ◌/◌, ◌≤◌, ◌<◌, String, ◌≡◌, refl, sym, ap, ◌∙◌, Bool, true, false,
  List, [], ◌∷◌, ◌++◌, map, arith, length, take, drop, keep, any, All, inl, inr, Bool-cases,
  take-append-drop,
}

module _ {ℓ} {A : Type ℓ} where
  pub All-take : (P : A → Type 0) (n : ℕ) (xs : List A) → All P xs → All P (take n xs)
  All-take P zero xs a = tt
  All-take P (suc n) [] a = tt
  All-take P (suc n) (x ∷ xs) a = (a.0, All-take P n xs a.1)

  pub All-drop : (P : A → Type 0) (n : ℕ) (xs : List A) → All P xs → All P (drop n xs)
  All-drop P zero xs a = a
  All-drop P (suc n) [] a = tt
  All-drop P (suc n) (x ∷ xs) a = All-drop P n xs a.1

  pub All-keep : (P : A → Type 0) (q : A → Bool) (xs : List A) → All P xs → All P (keep q xs)
  All-keep P q [] a = tt
  All-keep P q (x ∷ xs) a = elim (Bool-cases (q x)) [
    | inl kept ↦ rw kept (a.0, All-keep P q xs a.1)
    | inr other ↦ rw other (All-keep P q xs a.1)
  ]

  pub keep-holds : (p : A → Bool) (xs : List A) → All (λ (x : A). p x ≡ true) (keep p xs)
  keep-holds p [] = tt
  keep-holds p (x ∷ xs) = elim (Bool-cases (p x)) [
    | inl good ↦ rw good (good, keep-holds p xs)
    | inr bad ↦ rw bad (keep-holds p xs)
  ]

  -- a test that another one follows from
  pub keep-keep :
      (p q : A → Bool) (xs : List A)
      → ((x : A) → p x ≡ true → q x ≡ true)
      → keep p (keep q xs) ≡ keep p xs
  keep-keep p q [] h = refl
  keep-keep p q (x ∷ xs) h = elim (Bool-cases (p x)) [
    | inl good ↦ rw (h x good, good) (ap (◌∷◌ x) (keep-keep p q xs h))
    | inr bad ↦ elim (Bool-cases (q x)) [
      | inl kept ↦ rw (kept, bad) (keep-keep p q xs h)
      | inr left ↦ rw (left, bad) (keep-keep p q xs h)
    ]
  ]

  pub drop_nil : (n : ℕ) → drop {A = A} n [] ≡ []
  drop_nil zero = refl
  drop_nil (suc n) = refl

  pub take_nil : (n : ℕ) → take {A = A} n [] ≡ []
  take_nil zero = refl
  take_nil (suc n) = refl

  pub drop-drop : (n l m : ℕ) (xs : List A) → n + l ≡ m → drop l (drop n xs) ≡ drop m xs
  drop-drop zero l m xs e = ap (λ k. drop k xs) (omega arith)
  drop-drop (suc n) l m [] e = drop_nil l ∙ sym (drop_nil m)
  drop-drop (suc n) l zero (x ∷ xs) e = absurd (omega arith)
  drop-drop (suc n) l (suc m) (x ∷ xs) e = drop-drop n l m xs (omega arith)

  pub drop_all : (n : ℕ) (xs : List A) → length xs ≤ n → drop n xs ≡ []
  drop_all zero [] h = refl
  drop_all zero (x ∷ xs) h = absurd (omega arith)
  drop_all (suc n) [] h = refl
  drop_all (suc n) (x ∷ xs) h = drop_all n xs (omega arith)

pub keep-map_holds {ℓ κ} :
    {A : Type ℓ} {B : Type κ} (f : A → B) (p : B → Bool) (xs : List A)
    → All (λ (x : A). p (f x) ≡ true) xs
    → keep p (map f xs) ≡ map f xs
keep-map_holds f p [] a = refl
keep-map_holds f p (x ∷ xs) a = rw (a.0) (ap (◌∷◌ (f x)) (keep-map_holds f p xs a.1))

pub map-append {ℓ κ} :
    {A : Type ℓ} {B : Type κ} (f : A → B) (xs ys : List A) → map f (xs ++ ys) ≡ map f xs ++ map f ys
map-append f [] ys = refl
map-append f (x ∷ xs) ys = ap (◌∷◌ (f x)) (map-append f xs ys)

-- What the test refuses is not among what it keeps.
pub not_kept :
    (r : String → Bool) (ys : List String) (i : String)
    → r i ≡ false
    → any (λ g. str_eq g i) (keep r ys) ≡ false
not_kept r [] i e = refl
not_kept r (y ∷ ys) i e = elim (Bool-cases (r y)) [
  | inr out ↦ rw out (not_kept r ys i e)
  | inl kept ↦ elim (Bool-cases (str_eq y i)) [
    | inr other ↦ rw (kept, other) (not_kept r ys i e)
    | inl same ↦ absurd (false≢true (sym e ∙ ap r (sym ((eq_iff y i).0 same)) ∙ kept))
  ]
]

-- enough pages for all
pub enough_pages : (n l : ℕ) → 0 < l → n ≤ ((n + l - 1) / l) * l
enough_pages n l h = omega (arith, div-add-mod' (n + l - 1) l, mod-lt (n + l - 1) h)

module _ {ℓ} {A : Type ℓ} where
  -- k pages of l items, from the place n on
  abbrev pub slices : ℕ → ℕ → ℕ → List A → List A
  slices l zero n xs = []
  slices l (suc k) n xs = take l (drop n xs) ++ slices l k (n + l) xs

  pub slices_all : (l k n : ℕ) (xs : List A) → length xs ≤ n + k * l → slices l k n xs ≡ drop n xs
  slices_all l zero n xs h = sym (drop_all n xs (omega (arith, h)))
  slices_all l (suc k) n xs h =
      ap (λ ys. take l (drop n xs) ++ ys)
        (slices_all l k (n + l) xs (omega (arith, h, suc-mul k l))
          ∙ sym (drop-drop n l (n + l) xs refl))
      ∙ take-append-drop l (drop n xs)
