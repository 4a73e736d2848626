-- ===== src/Tables/Laws.antt =====
-- What a lookup finds after the updates of Tables.
use text.Mathlib.Text.{◌==◌ as str_eq}
use text.Mathlib.TextEquality.{eq_iff}
use text.Mathlib.TextPositions.{eq_refl}
use linbo_docker.Base.{
  String, ◌≡◌, refl, ◌∙◌, Bool, true, false, ◌&&◌, ◌||◌, Option, none, some, List, [], ◌∷◌, arith,
  if◌then◌else◌, any, keep, All, inl, inr, Bool-cases, Option-cases,
}
use linbo_docker.Tables.{Table, is_some, amend, read_all, find_many, amend_each, amend_many}

abbrev pub on {ℓ κ} : {A : Type ℓ} {B : Type κ} → (A → B) → Option A → Option B
on f none = none
on f (some a) = some (f a)

abbrev pub holds {ℓ} : {A : Type ℓ} → (A → Bool) → Option A → Bool
holds p none = false
holds p (some a) = p a

-- the key is listed
abbrev pub lists {ℓ} : {A : Type ℓ} → String → List (String × A) → Bool
lists j es = any (λ e. str_eq e.0 j) es

module _ {Row : Type 0} (T : Table Row) where
  open T use {Rows, find, put, keys, find-put, keys_iff}

  amend-none : (k : String) (f : Row → Row) (t : Rows) → find t k ≡ none → amend T k f t ≡ t
  unfolding amend
  amend-none k f t e = rw (e, amend) refl

  amend-some :
      (k : String) (f : Row → Row) (t : Rows) {r : Row}
      → find t k ≡ some r
      → amend T k f t ≡ put k (f r) t
  unfolding amend
  amend-some k f t e = rw (e, amend) refl

  pub find-amend_self :
      (k : String) (f : Row → Row) (t : Rows) → find (amend T k f t) k ≡ on f (find t k)
  find-amend_self k f t = elim (Option-cases (find t k)) [
    | inl e ↦ rw (amend-none k f t e, e) refl
    | inr (r, e) ↦ rw (amend-some k f t e, find-put, eq_refl k, e) refl
  ]

  pub find-amend_other :
      (k j : String) (f : Row → Row) (t : Rows)
      → str_eq k j ≡ false
      → find (amend T k f t) j ≡ find t j
  find-amend_other k j f t h = elim (Option-cases (find t k)) [
    | inl e ↦ rw (amend-none k f t e) refl
    | inr (r, e) ↦ rw (amend-some k f t e, find-put, h) refl
  ]

  pub find-amend :
      (k j : String) (f : Row → Row) (t : Rows)
      → find (amend T k f t) j ≡ (if str_eq k j then on f (find t j) else find t j)
  find-amend k j f t = elim (Bool-cases (str_eq k j)) [
    | inl same ↦ rw (same, ← (eq_iff k j).0 same) (find-amend_self k f t)
    | inr other ↦ rw other (find-amend_other k j f t other)
  ]

  -- An idempotent change of the listed rows.
  pub find-amend_each :
      (f : Row → Row)
      → ((r : Row) → f (f r) ≡ f r)
      → (es : List (String × Row)) (t : Rows) (j : String)
      → find (amend_each T es f t) j ≡ (if lists j es then on f (find t j) else find t j)
  unfolding amend_each
  find-amend_each f idem [] t j = refl
  find-amend_each f idem ((k, r) ∷ es) t j =
      find-amend_each f idem es (amend T k f t) j ∙ rw (find-amend k j f t) (merged (find t j))
    where
      merged :
          (o : Option Row)
          → (if lists j es
              then on f (if str_eq k j then on f o else o)
              else if str_eq k j
              then on f o
              else o)
            ≡ (if str_eq k j || lists j es then on f o else o)
      merged none = ground arith
      merged (some u) = ground (arith, idem u)

  lists-read_all_step :
      (p : Row → Bool) (k : String) (ks : List String) (t : Rows) (j : String)
      → lists j (keep (λ e. p e.1) (read_all T (k ∷ ks) t))
        ≡ (str_eq k j && holds p (find t k) || lists j (keep (λ e. p e.1) (read_all T ks t)))
  unfolding read_all
  lists-read_all_step p k ks t j = elim (Option-cases (find t k)) [
    | inl e ↦ rw (e, read_all) (none_chosen (str_eq k j) _)
    | inr (r, e) ↦ rw (e, read_all) (some_chosen (p r) k j r _)
  ]
    where
      none_chosen : (b c : Bool) → c ≡ (b && false || c)
      none_chosen b c = ground arith

      some_chosen :
          (b : Bool) (k j : String) (r : Row) (es : List (String × Row))
          → lists j (if b then (k, r) ∷ es else es) ≡ (str_eq k j && b || lists j es)
      some_chosen true k j r es = ground arith
      some_chosen false k j r es = ground arith

  lists-read_all :
      (p : Row → Bool) (ks : List String) (t : Rows) (j : String)
      → lists j (keep (λ e. p e.1) (read_all T ks t))
        ≡ (any (λ g. str_eq g j) ks && holds p (find t j))
  unfolding read_all
  lists-read_all p [] t j = refl
  lists-read_all p (k ∷ ks) t j =
      lists-read_all_step p k ks t j
      ∙ rw (lists-read_all p ks t j) (elim (Bool-cases (str_eq k j)) [
        | inl same ↦
            rw (same, (eq_iff k j).0 same)
              (absorbed (any (λ g. str_eq g j) ks) (holds p (find t j)))
        | inr other ↦ rw other refl
      ])
    where
      absorbed : (b c : Bool) → (c || b && c) ≡ c
      absorbed b c = ground arith

  pub lists-find_many :
      (p : Row → Bool) (t : Rows) (j : String) → lists j (find_many T p t) ≡ holds p (find t j)
  unfolding find_many
  lists-find_many p t j = lists-read_all p (keys t) t j ∙ rw (keys_iff t j) (both (find t j))
    where
      both : (o : Option Row) → (is_some o && holds p o) ≡ holds p o
      both none = refl
      both (some r) = refl

  -- `updateMany` with an idempotent change.
  pub find-amend_many :
      (p : Row → Bool) (f : Row → Row)
      → ((r : Row) → f (f r) ≡ f r)
      → (t : Rows) (j : String)
      → find (amend_many T p f t) j ≡ on (λ r. if p r then f r else r) (find t j)
  unfolding amend_many
  find-amend_many p f idem t j =
      find-amend_each f idem (find_many T p t) t j ∙ rw (lists-find_many p t j) (chosen (find t j))
    where
      chosen :
          (o : Option Row) → (if holds p o then on f o else o) ≡ on (λ r. if p r then f r else r) o
      chosen none = refl
      chosen (some r) = elim (Bool-cases (p r)) [ inl e ↦ rw e refl | inr e ↦ rw e refl ]

  -- A row that `findMany` lists is in the table, and fits.
  abbrev pub Listed : (Row → Bool) → Rows → String × Row → Type 0
  Listed p t (k, r) = (find t k ≡ some r) × (p r ≡ true)

  read_all-some :
      (k : String) (ks : List String) (t : Rows) {r : Row}
      → find t k ≡ some r
      → read_all T (k ∷ ks) t ≡ (k, r) ∷ read_all T ks t
  unfolding read_all
  read_all-some k ks t e = rw (e, read_all) refl

  read_all-none :
      (k : String) (ks : List String) (t : Rows)
      → find t k ≡ none
      → read_all T (k ∷ ks) t ≡ read_all T ks t
  unfolding read_all
  read_all-none k ks t e = rw (e, read_all) refl

  read_all-Listed :
      (p : Row → Bool) (ks : List String) (t : Rows)
      → All (Listed p t) (keep (λ e. p e.1) (read_all T ks t))
  unfolding read_all
  read_all-Listed p [] t = tt
  read_all-Listed p (k ∷ ks) t = elim (Option-cases (find t k)) [
    | inl e ↦ rw (read_all-none k ks t e) (read_all-Listed p ks t)
    | inr (r, e) ↦ elim (Bool-cases (p r)) [
      | inl y ↦ rw (read_all-some k ks t e, y) ((e, y), read_all-Listed p ks t)
      | inr n ↦ rw (read_all-some k ks t e, n) (read_all-Listed p ks t)
    ]
  ]

  pub find_many-Listed : (p : Row → Bool) (t : Rows) → All (Listed p t) (find_many T p t)
  unfolding find_many
  find_many-Listed p t = read_all-Listed p (keys t) t
