-- ===== src/Tests/Pools.antt =====
-- A run of the pool of Ops.Pool: three items and two workers, of which the second goes round first.
use linbo_docker.Base.{
  ℕ, ◌+◌, ◌≤◌, ◌≡◌, refl, ◌⊎◌, ◌↔◌, Option, List, [], ◌∷◌, some, true, length, arith, map_places,
  get_elem?,
}
use linbo_docker.Ops.Pool.{Pool, awaits, quit, start_workers, resume, Step, ends, Reach, all_quit}
use linbo_docker.Ops.Pool.Counts.{total, on_place, is_calling}
use linbo_docker.Ops.Pool.Runs.{Reach-few, Reach-results, Reach-ends}

abbrev items : List ℕ
items = 10 ∷ 20 ∷ 30 ∷ []

abbrev call : ℕ → ℕ → ℕ
call x i = x + i

abbrev P : Type 0
P = Pool items call 2

abbrev one_done : P
one_done = record {
  idx = 3;
  workers = awaits 0 ∷ awaits 2 ∷ [];
  results = Option.none ∷ some 21 ∷ Option.none ∷ [];
}

reach_one : Reach items call 2 1 one_done
unfolding start_workers
reach_one = Reach.next Reach.here (ends (start_workers items call 2) 1 1 20 refl refl)

abbrev first_quit : P
first_quit = record {
  idx = 3;
  workers = quit ∷ awaits 2 ∷ [];
  results = some 10 ∷ some 21 ∷ Option.none ∷ [];
}

abbrev at_end : P
at_end = record { idx = 3; workers = quit ∷ quit ∷ []; results = some 10 ∷ some 21 ∷ some 32 ∷ [] }

reach_end : Reach items call 2 3 at_end
reach_end =
    Reach.next (Reach.next reach_one (ends one_done 0 0 10 refl refl))
      (ends first_quit 1 2 30 refl refl)

Reach-few_example :
    (total is_calling one_done.workers ≤ 2) × ((j : ℕ) → total (on_place j) one_done.workers ≤ 1)
Reach-few_example = Reach-few items call 2 reach_one

Reach-results_example : at_end.results ≡ map_places (λ x i. some (call x i)) 0 items
Reach-results_example = Reach-results items call 2 (omega arith) reach_end refl

Reach-ends_example :
    (1 ≤ length items)
    × ((all_quit items call 2 one_done ≡ true) ↔ (1 ≡ length items))
    × ((1 ≡ length items)
        ⊎ ((w : ℕ) × (i : ℕ) × (x : ℕ) × (get_elem? one_done.workers w ≡ some (awaits i))
            × (get_elem? items i ≡ some x)
            × Step items call 2 one_done (resume items call 2 one_done w i x)))
Reach-ends_example = Reach-ends items call 2 (omega arith) reach_one
