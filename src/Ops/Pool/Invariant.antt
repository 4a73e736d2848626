-- ===== src/Ops/Pool/Invariant.antt =====
-- `runWithConcurrency` of containers/api/src/services/sync-operations.service.js: what holds of the
-- workers, of `idx` and of `results` at every `await`.
use linbo_docker.Base.{
  ℕ, suc, ◌+◌, ◌≤◌, ◌<◌, ◌≡◌, Bool, ◌&&◌, some, List, [], ◌∷◌, ◌++◌, inl, inr, arith, ltb, ◌==◌,
  if◌then◌else◌, length, get_elem?, set, length-set, length-append, Bool-cases, ltb→lt,
}
use linbo_docker.Ops.Pool.{Worker, awaits, quit}
use linbo_docker.Ops.Pool.Counts.{total, on_place, is_calling, total-append, total-set}

-- the place has been taken, and no worker awaits its call
abbrev pub is_settled : ℕ → List Worker → ℕ → Bool
is_settled idx ws j = ltb j idx && total (on_place j) ws == 0

-- the workers and `idx` of a pool over `len` items, after n calls have ended
pub record AreSound (len n idx : ℕ) (ws : List Worker) : Type 0 where
  pub within : idx ≤ len
  pub taken : (j : ℕ) → 0 < total (on_place j) ws → j < idx
  pub once : (j : ℕ) → total (on_place j) ws ≤ 1
  pub counted : n + total is_calling ws ≡ idx
  pub quitting : total is_calling ws < length ws → idx ≡ len

abbrev pub next_worker : ℕ → ℕ → Worker
next_worker len idx = if ltb idx len then awaits idx else quit

abbrev pub next_idx : ℕ → ℕ → ℕ
next_idx len idx = if ltb idx len then idx + 1 else idx

-- A worker is started.
pub AreSound-push :
    (len n idx : ℕ) (ws : List Worker)
    → AreSound len n idx ws
    → AreSound len n (next_idx len idx) (ws ++ next_worker len idx ∷ [])
AreSound-push len n idx ws s = elim (Bool-cases (ltb idx len)) [
  | inl more ↦ rw more (record {
    within = ground (arith, ltb→lt idx len more);
    taken = λ j h. ground (arith, s.taken j, h, total-append (on_place j) ws (awaits idx));
    once = λ j. ground (arith, s.taken j, s.once j, total-append (on_place j) ws (awaits idx));
    counted = omega (arith, s.counted, total-append is_calling ws (awaits idx));
    quitting = λ h. omega (
      arith,
      ltb→lt idx len more,
      s.quitting (
          omega (
            arith,
            h,
            total-append is_calling ws (awaits idx),
            length-append ws (awaits idx ∷ []),
          )),
    );
  })
  | inr over ↦ rw over (record {
    within = s.within;
    taken = λ j h. s.taken j (omega (arith, h, total-append (on_place j) ws quit));
    once = λ j. omega (arith, s.once j, total-append (on_place j) ws quit);
    counted = omega (arith, s.counted, total-append is_calling ws quit);
    quitting = λ h. ground (arith, s.within);
  })
]

-- A call ends, and its worker goes round.
pub AreSound-resume :
    (len n idx : ℕ) (ws : List Worker) (w i : ℕ)
    → get_elem? ws w ≡ some (awaits i)
    → AreSound len n idx ws
    → AreSound len (suc n) (next_idx len idx) (set ws w (next_worker len idx))
AreSound-resume len n idx ws w i e s = elim (Bool-cases (ltb idx len)) [
  | inl more ↦ rw more (record {
    within = ground (arith, ltb→lt idx len more);
    taken =
        λ j h. ground (arith, s.taken j, h, total-set (on_place j) ws w (awaits i) (awaits idx) e);
    once = λ j.
        ground (arith, s.taken j, s.once j, total-set (on_place j) ws w (awaits i) (awaits idx) e);
    counted = omega (arith, s.counted, total-set is_calling ws w (awaits i) (awaits idx) e);
    quitting = λ h. omega (
      arith,
      ltb→lt idx len more,
      s.quitting (
          omega (
            arith,
            h,
            total-set is_calling ws w (awaits i) (awaits idx) e,
            length-set ws w (awaits idx),
          )),
    );
  })
  | inr over ↦ rw over (record {
    within = s.within;
    taken = λ j h. s.taken j (omega (arith, h, total-set (on_place j) ws w (awaits i) quit e));
    once = λ j. omega (arith, s.once j, total-set (on_place j) ws w (awaits i) quit e);
    counted = omega (arith, s.counted, total-set is_calling ws w (awaits i) quit e);
    quitting = λ h. ground (arith, s.within);
  })
]
