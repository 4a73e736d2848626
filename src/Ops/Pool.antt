-- ===== src/Ops/Pool.antt =====
-- `runWithConcurrency` of containers/api/src/services/sync-operations.service.js: the workers, the
-- shared `idx` and `results`. A worker runs from one `await` to the next without a break, so a step
-- is the end of one call: its result is stored, and its worker goes round its `while` loop. Between
-- two steps any other code may run. `fn x i` is what the call for item `x` at place `i` resolves to;
-- a call that rejects is left out.
pub mod Counts
pub mod Invariant
pub mod Results
pub mod Runs
use Prim.Native.Nat.{min}
use linbo_docker.Base.{
  ℕ, zero, suc, ◌+◌, ◌≡◌, Bool, true, false, Option, none, some, List, [], ◌∷◌, ◌++◌, ltb,
  if◌then◌else◌, all, length, get_elem?, set, replicate,
}

-- a worker that awaits the call for the item at a place, or that has left its loop
pub data Worker : Type 0 where
  awaits : ℕ → Worker
  quit : Worker

abbrev pub has_quit : Worker → Bool
has_quit quit = true
has_quit (awaits i) = false

module _ {ℓ κ} {A : Type ℓ} {B : Type κ} (items : List A) (fn : A → ℕ → B) (limit : ℕ) where
  -- a hole of `results` is `none`
  pub record Pool : Type κ where
    pub idx : ℕ
    pub workers : List Worker
    pub results : List (Option B)

  -- the test of the loop, `idx++` and the call: where a worker stands then, and `idx`
  abbrev pub go_round : ℕ → Worker × ℕ
  go_round idx = if ltb idx (length items) then (awaits idx, idx + 1) else (quit, idx)

  -- `workers.push(worker())`
  abbrev pub push_worker : Pool → Pool
  push_worker p = record p {
    idx = (go_round p.idx).1;
    workers = p.workers ++ (go_round p.idx).0 ∷ [];
  }

  unfoldable pub launch : ℕ → Pool → Pool
  launch zero p = p
  launch (suc n) p = launch n (push_worker p)

  -- the pool when its workers have been started
  unfoldable pub start_workers : Pool
  unfolding launch
  start_workers =
      launch (min limit (length items))
        (record { idx = 0; workers = []; results = replicate (length items) none })

  -- The call of worker `w` for the item `x` at place `i` ends.
  abbrev pub resume : Pool → ℕ → ℕ → A → Pool
  resume p w i x = record {
    idx = (go_round p.idx).1;
    workers = set p.workers w (go_round p.idx).0;
    results = set p.results i (some (fn x i));
  }

  pub data Step : Pool → Pool → Type (ℓ ⊔ κ) where
    ends :
        (p : Pool) (w i : ℕ) (x : A)
        → get_elem? p.workers w ≡ some (awaits i)
        → get_elem? items i ≡ some x
        → Step p (resume p w i x)

  -- reached after this many steps
  pub data Reach : ℕ → Pool → Type (ℓ ⊔ κ) where
    here : Reach zero start_workers
    next : {n : ℕ} {p q : Pool} → Reach n p → Step p q → Reach (suc n) q

  -- `Promise.all(workers)` is resolved
  abbrev pub all_quit : Pool → Bool
  all_quit p = all has_quit p.workers
