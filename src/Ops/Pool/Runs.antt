-- ===== src/Ops/Pool/Runs.antt =====
-- `runWithConcurrency` of containers/api/src/services/sync-operations.service.js: how many calls run
-- at once, that the workers come to an end, and what `results` holds then.
use Prim.Native.Nat.{min}
use native.Mathlib.Nat.{min-le_left}
use native.Mathlib.Decide.{dec_lt}
use linbo_docker.Base.{
  ℕ, ◌≤◌, ◌<◌, ◌≡◌, ap, ◌∙◌, true, ◌&&◌, some, List, [], ◌∷◌, arith, ltb, ◌==◌, length, get_elem?,
  get_elem?-lt, get_elem?-below, map_places, eq-map_places, ◌↔◌, ◌⊎◌, inl, inr,
}
use linbo_docker.Ops.Pool.{Worker, awaits, Pool, resume, Step, ends, Reach, all_quit}
use linbo_docker.Ops.Pool.Counts.{
  total, on_place, own_place, is_calling, is_calling-length, on_place-is_calling, quit-calling,
  calling-quit, total-get, one_calling,
}
use linbo_docker.Ops.Pool.Invariant.{is_settled, AreSound}
use linbo_docker.Ops.Pool.Results.{Reach-IsSound, Reach-length}

min_zero : (a b : ℕ) → 0 < a → min a b ≡ 0 → b ≡ 0
min_zero a b h e = ground (arith, h, e)

over_at : (i idx t len : ℕ) → i < len → idx ≡ len → t ≡ 0 → (ltb i idx && t == 0) ≡ true
over_at i idx t len h e f = ground arith

-- Where all workers have quit, `idx` stands behind the last item.
idx_at_end :
    (limit len n idx : ℕ) (ws : List Worker)
    → 0 < limit
    → AreSound len n idx ws
    → length ws ≡ min limit len
    → total is_calling ws ≡ 0
    → idx ≡ len
idx_at_end limit len n idx [] h s e c =
    omega (arith, s.within, min_zero limit len h (omega (arith, e)))
idx_at_end limit len n idx (w ∷ ws) h s e c = s.quitting (omega (arith, c))

module _ {ℓ κ} {A : Type ℓ} {B : Type κ} (items : List A) (fn : A → ℕ → B) (limit : ℕ) where
  -- In every state that the pool reaches, at most `limit` calls run, and no item is awaited by two
  -- workers.
  pub Reach-few :
      {n : ℕ} {p : Pool items fn limit}
      → Reach items fn limit n p
      → (total is_calling p.workers ≤ limit) × ((j : ℕ) → total (on_place j) p.workers ≤ 1)
  Reach-few {n} {p} r = (
    omega (
      arith,
      is_calling-length p.workers,
      Reach-length items fn limit r,
      min-le_left limit (length items),
    ),
    (Reach-IsSound items fn limit r).sound.once,
  )

  all_over :
      (n : ℕ) (p : Pool items fn limit)
      → 0 < limit
      → Reach items fn limit n p
      → all_quit items fn limit p ≡ true
      → (i : ℕ) → i < length items
      → is_settled p.idx p.workers i ≡ true
  all_over n p h r q i lt =
      let s = Reach-IsSound items fn limit r in
      let none_calls = quit-calling p.workers q in
      over_at i p.idx (total (on_place i) p.workers) (length items) lt
        (idx_at_end limit (length items) n p.idx p.workers h s.sound (Reach-length items fn limit r)
          none_calls)
        (omega (arith, none_calls, on_place-is_calling i p.workers))

  -- Where `limit` is not 0, whatever the order in which the calls end: once all workers have quit,
  -- `results` holds for every item, at its place, what its own call resolved to.
  pub Reach-results :
      {n : ℕ} {p : Pool items fn limit}
      → 0 < limit
      → Reach items fn limit n p
      → all_quit items fn limit p ≡ true
      → p.results ≡ map_places (λ x i. some (fn x i)) 0 items
  Reach-results {n} {p} h r q =
      let s = Reach-IsSound items fn limit r in
      eq-map_places (λ x i. some (fn x i)) 0 items p.results s.size
        (λ i x at.
          s.each i x at
          ∙ rw (all_over n p h r q i (get_elem?-lt items i at))
              (ap (λ k. some (some (fn x k))) (omega arith)))

  -- Where `limit` is not 0, after n calls have ended, in whatever order: n is at most the number of
  -- the items, all workers have quit exactly where n is that number, and where it is not, a worker
  -- awaits the call for an item, so that a further call can end.
  pub Reach-ends :
      {n : ℕ} {p : Pool items fn limit}
      → 0 < limit
      → Reach items fn limit n p
      → (n ≤ length items)
        × ((all_quit items fn limit p ≡ true) ↔ (n ≡ length items))
        × ((n ≡ length items)
            ⊎ ((w : ℕ) × (i : ℕ) × (x : A) × (get_elem? p.workers w ≡ some (awaits i))
                × (get_elem? items i ≡ some x)
                × Step items fn limit p (resume items fn limit p w i x)))
  Reach-ends {n} {p} h r = (
    omega (arith, s.counted, s.within),
    (
      λ q. ended (quit-calling p.workers q),
      λ e. calling-quit p.workers (omega (arith, e, s.counted, s.within)),
    ),
    elim (dec_lt n (length items)) [
      | yes more ↦ inr (runs more)
      | no over ↦ inl (omega (arith, s.counted, s.within))
    ],
  )
    where
      s : AreSound (length items) n p.idx p.workers
      s = (Reach-IsSound items fn limit r).sound

      ended : total is_calling p.workers ≡ 0 → n ≡ length items
      ended c = omega (
        arith,
        c,
        s.counted,
        idx_at_end limit (length items) n p.idx p.workers h s (Reach-length items fn limit r) c,
      )

      runs :
          n < length items
          → (w : ℕ) × (i : ℕ) × (x : A) × (get_elem? p.workers w ≡ some (awaits i))
            × (get_elem? items i ≡ some x)
            × Step items fn limit p (resume items fn limit p w i x)
      runs more =
          let (w, i, e) = one_calling p.workers (calls more) in
          let taken =
            s.taken i
              (omega (arith, own_place i, total-get (on_place i) p.workers w (awaits i) e)) in
          let (x, at) = get_elem?-below items i (omega (arith, taken, s.within)) in
          (w, i, x, e, at, ends p w i x e at)
        where
          calls : n < length items → 0 < total is_calling p.workers
          calls less = elim (dec_lt 0 (total is_calling p.workers)) [
            | yes some_call ↦ some_call
            | no none_call ↦
                let silent : total is_calling p.workers ≡ 0 = omega arith in
                absurd (omega (arith, less, ended silent))
          ]
