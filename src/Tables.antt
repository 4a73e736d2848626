-- ===== src/Tables.antt =====
-- A table of the database, which the program reaches through Prisma (a package, not part of the
-- repository): `findUnique` by the key, `create` and `update` as one write, and the keys in the
-- order in which `findMany` lists the rows. That order is left open. Prisma's `update` throws on a
-- missing row; the code modelled here updates rows that it has read or made just before.
pub mod Laws
use text.Mathlib.Text.{◌==◌ as str_eq}
use linbo_docker.Base.{
  String, ◌≡◌, Bool, true, false, Option, none, some, List, [], ◌∷◌, if◌then◌else◌, any, keep,
}

abbrev pub is_some {ℓ} : {A : Type ℓ} → Option A → Bool
is_some none = false
is_some (some a) = true

pub record Table (Row : Type 0) : Type 1 where
  pub Rows : Type 0
  pub find : Rows → String → Option Row
  pub put : String → Row → Rows → Rows
  pub keys : Rows → List String
  pub find-put :
      (k : String) (r : Row) (t : Rows) (j : String)
      → find (put k r t) j ≡ (if str_eq k j then some r else find t j)
  pub keys_iff : (t : Rows) (k : String) → any (λ g. str_eq g k) (keys t) ≡ is_some (find t k)

module _ {Row : Type 0} (T : Table Row) where
  open T use {Rows, find, put, keys}

  -- `update({ where: { id }, data })`
  unfoldable pub amend : String → (Row → Row) → Rows → Rows
  amend k f t = elim (find t k) [ none ↦ t | some r ↦ put k (f r) t ]

  -- the listed keys with their rows
  unfoldable pub read_all : List String → Rows → List (String × Row)
  read_all [] t = []
  read_all (k ∷ ks) t = elim (find t k) [ none ↦ read_all ks t | some r ↦ (k, r) ∷ read_all ks t ]

  -- `findMany({ where })`
  unfoldable pub find_many : (Row → Bool) → Rows → List (String × Row)
  unfolding read_all
  find_many p t = keep (λ e. p e.1) (read_all (keys t) t)

  -- `updateMany({ where, data })`
  unfoldable pub amend_each : List (String × Row) → (Row → Row) → Rows → Rows
  unfolding amend
  amend_each [] f t = t
  amend_each ((k, r) ∷ es) f t = amend_each es f (amend k f t)

  unfoldable pub amend_many : (Row → Bool) → (Row → Row) → Rows → Rows
  unfolding amend_each find_many
  amend_many p f t = amend_each (find_many p t) f t
