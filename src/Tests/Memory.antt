-- ===== src/Tests/Memory.antt =====
-- A store in memory that answers the commands of Ops.Redis.
use text.Mathlib.Text.{◌==◌}
use text.Mathlib.TextEquality.{eq_iff}
use linbo_docker.Base.{
  String, ◌≡◌, refl, ap, ◌&&◌, Option, none, some, List, [], ◌∷◌, map, ◌∙◌, inl, inr, arith,
  if◌then◌else◌, take, any, Bool-cases, keep, not,
}
use linbo_docker.Ops.Data.{Session, OpHash, empty_op, merge, is_some}
use linbo_docker.Ops.Redis.{Redis}

pub record Store : Type 0 where
  pub ops : String → OpHash
  pub hashes : String → List (String × Session)
  pub ids : List String

unfoldable pub lookup : String → List (String × Session) → Option Session
lookup k [] = none
lookup k ((j, v) ∷ m) = if j == k then some v else lookup k m

unfoldable pub insert : String → Session → List (String × Session) → List (String × Session)
insert k v [] = (k, v) ∷ []
insert k v ((j, w) ∷ m) = if j == k then (k, v) ∷ m else (j, w) ∷ insert k v m

lookup-insert :
    (key other : String) (s : Session) (m : List (String × Session))
    → lookup other (insert key s m) ≡ (if key == other then some s else lookup other m)
unfolding lookup insert
lookup-insert key other s [] = refl
lookup-insert key other s ((first, held) ∷ m) =
    ground
      (arith, lookup-insert key other s m, eq_iff first other, eq_iff first key, eq_iff key other)

abbrev pub names : List (String × Session) → List String
names m = map (λ e. e.0) m

pub names_iff :
    (k : String) (m : List (String × Session)) → any (λ g. g == k) (names m) ≡ is_some (lookup k m)
unfolding lookup
names_iff k [] = refl
names_iff k ((j, v) ∷ m) = elim (Bool-cases (j == k)) [
  | inl same ↦ rw same
  | inr other ↦ rw other (names_iff k m)
]

abbrev pub put : Store → String → String → Session → Store
put d k f s = record d { hashes = λ j. if k == j then insert f s (d.hashes k) else d.hashes j }

pub lookup-put :
    (d : Store) (k f j g : String) (s : Session)
    → lookup g ((put d k f s).hashes j)
      ≡ (if k == j && f == g then some s else lookup g (d.hashes j))
lookup-put d k f j g s = elim (Bool-cases (k == j)) [
  | inl same ↦ rw same (
      lookup-insert f g s (d.hashes k)
      ∙ ap (λ n. if f == g then some s else lookup g (d.hashes n)) ((eq_iff k j).0 same))
  | inr other ↦ rw other
]

abbrev pub memory : Redis
memory = record {
  Db = Store;
  op = λ d k. d.ops k;
  hmset = λ d k u. record d { ops = λ j. if k == j then merge (d.ops k) u else d.ops j };
  hkeys = λ d k. names (d.hashes k);
  hget = λ d k f. lookup f (d.hashes k);
  hset = put;
  index = λ d. d.ids;
  zadd = λ d n k. record d { ids = k ∷ d.ids };
  trim_index = λ d n. record d { ids = take n d.ids };
  zrem = λ d gone. record d { ids = keep (λ i. not (any (λ g. g == i) gone)) d.ids };
  op-hmset = λ d k j u. refl;
  op-hset = λ d k f j s. refl;
  op-zadd = λ d n k j. refl;
  op-trim_index = λ d n j. refl;
  hget-hset = lookup-put;
  hget-hmset = λ d k j g u. refl;
  hget-zadd = λ d n k j g. refl;
  hget-trim_index = λ d n j g. refl;
  hkeys_iff = λ d k f. names_iff f (d.hashes k);
  index-trim_index = λ d n. refl;
  op-zrem = λ d gone j. refl;
  hget-zrem = λ d gone j g. refl;
  index-zrem = λ d gone. refl;
}

abbrev pub empty_store : Store
empty_store = record { ops = λ k. empty_op; hashes = λ k. []; ids = [] }
