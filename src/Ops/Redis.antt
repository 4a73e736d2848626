-- ===== src/Ops/Redis.antt =====
-- The Redis server, which is not part of the repository: the commands that
-- containers/api/src/services/sync-operations.service.js sends, with their documented effects.
-- The order in which HGETALL lists a hash is left open. Expiry (EXPIRE) is not modelled.
use linbo_docker.Base.{
  ℕ, String, ◌≡◌, ◌&&◌, Option, some, List, take, any, keep, not, if◌then◌else◌,
}
use linbo_docker.Ops.Data.{Session, OpHash, merge, is_some}
use text.Mathlib.Text.{◌==◌}

pub record Redis : Type 1 where
  pub Db : Type 0
  -- HGETALL ops:op:{id}
  pub op : Db → String → OpHash
  -- HMSET ops:op:{id}
  pub hmset : Db → String → OpHash → Db
  -- the fields of ops:op:{id}:sessions, in the order of HGETALL, and HGET of one of them
  pub hkeys : Db → String → List String
  pub hget : Db → String → String → Option Session
  -- HSET ops:op:{id}:sessions
  pub hset : Db → String → String → Session → Db
  -- ZREVRANGE ops:index 0 -1, ZADD and ZREMRANGEBYRANK 0 -(n + 1)
  pub index : Db → List String
  pub zadd : Db → ℕ → String → Db
  pub trim_index : Db → ℕ → Db
  -- ZREM ops:index
  pub zrem : Db → List String → Db
  pub op-hmset :
      (d : Db) (k j : String) (u : OpHash)
      → op (hmset d k u) j ≡ (if k == j then merge (op d k) u else op d j)
  pub op-hset : (d : Db) (k f j : String) (s : Session) → op (hset d k f s) j ≡ op d j
  pub op-zadd : (d : Db) (n : ℕ) (k j : String) → op (zadd d n k) j ≡ op d j
  pub op-trim_index : (d : Db) (n : ℕ) (j : String) → op (trim_index d n) j ≡ op d j
  pub hget-hset :
      (d : Db) (k f j g : String) (s : Session)
      → hget (hset d k f s) j g ≡ (if k == j && f == g then some s else hget d j g)
  pub hget-hmset : (d : Db) (k j g : String) (u : OpHash) → hget (hmset d k u) j g ≡ hget d j g
  pub hget-zadd : (d : Db) (n : ℕ) (k j g : String) → hget (zadd d n k) j g ≡ hget d j g
  pub hget-trim_index : (d : Db) (n : ℕ) (j g : String) → hget (trim_index d n) j g ≡ hget d j g
  pub hkeys_iff : (d : Db) (k f : String) → any (λ g. g == f) (hkeys d k) ≡ is_some (hget d k f)
  pub index-trim_index : (d : Db) (n : ℕ) → index (trim_index d n) ≡ take n (index d)
  pub op-zrem : (d : Db) (gone : List String) (j : String) → op (zrem d gone) j ≡ op d j
  pub hget-zrem : (d : Db) (gone : List String) (j g : String) → hget (zrem d gone) j g ≡ hget d j g
  pub index-zrem :
      (d : Db) (gone : List String)
      → index (zrem d gone) ≡ keep (λ i. not (any (λ g. g == i) gone)) (index d)
