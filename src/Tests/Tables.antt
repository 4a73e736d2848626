-- ===== src/Tests/Tables.antt =====
-- A table in memory, as an association list.
use text.Mathlib.Text.{◌==◌ as str_eq}
use text.Mathlib.TextEquality.{eq_iff}
use linbo_docker.Base.{
  String, ◌≡◌, refl, Option, none, some, List, [], ◌∷◌, map, arith, if◌then◌else◌, any, inl, inr,
  Bool-cases,
}
use linbo_docker.Tables.{Table, is_some}

module _ {Row : Type 0} where
  unfoldable pub find_in : List (String × Row) → String → Option Row
  find_in [] k = none
  find_in ((j, r) ∷ rows) k = if str_eq j k then some r else find_in rows k

  unfoldable pub put_in : String → Row → List (String × Row) → List (String × Row)
  put_in k r [] = (k, r) ∷ []
  put_in k r ((j, q) ∷ rows) = if str_eq j k then (k, r) ∷ rows else (j, q) ∷ put_in k r rows

  pub find_in-put_in :
      (k : String) (r : Row) (rows : List (String × Row)) (other : String)
      → find_in (put_in k r rows) other ≡ (if str_eq k other then some r else find_in rows other)
  unfolding find_in put_in
  find_in-put_in k r [] other = refl
  find_in-put_in k r ((j, q) ∷ rows) other =
      ground (arith, find_in-put_in k r rows other, eq_iff j other, eq_iff j k, eq_iff k other)

  abbrev pub keys_of : List (String × Row) → List String
  keys_of rows = map (λ e. e.0) rows

  pub keys_of_iff :
      (rows : List (String × Row)) (k : String)
      → any (λ g. str_eq g k) (keys_of rows) ≡ is_some (find_in rows k)
  unfolding find_in
  keys_of_iff [] k = refl
  keys_of_iff ((j, r) ∷ rows) k = elim (Bool-cases (str_eq j k)) [
    | inl same ↦ rw same
    | inr other ↦ rw other (keys_of_iff rows k)
  ]

abbrev pub memory : (Row : Type 0) → Table Row
memory Row = record {
  Rows = List (String × Row);
  find = find_in;
  put = put_in;
  keys = keys_of;
  find-put = λ k r rows other. find_in-put_in k r rows other;
  keys_iff = keys_of_iff;
}
