-- ===== src/Ops/Pool/Results.antt =====
-- `runWithConcurrency` of containers/api/src/services/sync-operations.service.js: the workers,
-- `idx` and `results` in every state that the pool reaches.
use Prim.Native.Nat.{min}
use native.Mathlib.Decide.{ℕ_discrete}
use mathlib.Core.Path.{subst}
use linbo_docker.Base.{
  ℕ, zero, suc, ◌+◌, ◌≤◌, ◌<◌, ◌≡◌, ◌≢◌, refl, ap, ◌∙◌, true, false, ◌&&◌, none, some, List, [],
  ◌∷◌, ◌++◌, inl, inr, arith, ltb, ◌==◌, if◌then◌else◌, length, get_elem?, set, replicate,
  length-set, length-append, get_elem?-set_self, get_elem?-set_ne, length-replicate,
  get_elem?-replicate, get_elem?-lt, Bool-cases,
}
use linbo_docker.Ops.Pool.{
  Worker, awaits, Pool, go_round, push_worker, launch, start_workers, resume, Step, ends, Reach,
  here, next,
}
use linbo_docker.Ops.Pool.Counts.{total, on_place, own_place, total-append, total-set, total-get}
use linbo_docker.Ops.Pool.Invariant.{
  is_settled, AreSound, next_worker, next_idx, AreSound-push, AreSound-resume,
}

not_over : (a b : ℕ) → b ≡ 0 → (ltb a 0 && b == 0) ≡ false
not_over a b h = ground arith

over_now : (i idx t : ℕ) → i < idx → t ≡ 0 → (ltb i idx && t == 0) ≡ true
over_now i idx t h e = ground arith

over_pushed :
    (len idx t u j : ℕ)
    → u ≡ t + on_place j (next_worker len idx)
    → (ltb j idx && t == 0) ≡ (ltb j (next_idx len idx) && u == 0)
over_pushed len idx t u j e = elim (Bool-cases (ltb idx len)) [
  | inl more ↦ ground arith
  | inr over ↦ ground arith
]

new_worker : (len idx j : ℕ) → j < idx → on_place j (next_worker len idx) ≡ 0
new_worker len idx j h = elim (Bool-cases (ltb idx len)) [
  | inl more ↦ ground arith
  | inr over ↦ rw over refl
]

next_idx-le : (len idx : ℕ) → idx ≤ next_idx len idx
next_idx-le len idx = ground arith

still_over :
    (len idx : ℕ) (ws : List Worker) (w i j : ℕ)
    → get_elem? ws w ≡ some (awaits i)
    → i ≢ j
    → is_settled idx ws j ≡ is_settled (next_idx len idx) (set ws w (next_worker len idx)) j
still_over len idx ws w i j e ne =
    over_pushed len idx (total (on_place j) ws)
      (total (on_place j) (set ws w (next_worker len idx))) j
      (ground (arith, ne, total-set (on_place j) ws w (awaits i) (next_worker len idx) e))

own_over :
    (len n idx : ℕ) (ws : List Worker) (w i : ℕ)
    → get_elem? ws w ≡ some (awaits i)
    → AreSound len n idx ws
    → is_settled (next_idx len idx) (set ws w (next_worker len idx)) i ≡ true
own_over len n idx ws w i e s =
    let mine = own_place i in
    let busy = s.taken i (omega (arith, mine, total-get (on_place i) ws w (awaits i) e)) in
    over_now i (next_idx len idx) (total (on_place i) (set ws w (next_worker len idx)))
      (omega (arith, busy, next_idx-le len idx))
      (omega (
        arith,
        mine,
        s.once i,
        new_worker len idx i busy,
        total-set (on_place i) ws w (awaits i) (next_worker len idx) e,
      ))

module _ {ℓ κ} {A : Type ℓ} {B : Type κ} (items : List A) (fn : A → ℕ → B) (limit : ℕ) where
  -- after n calls have ended
  pub record IsSound (n : ℕ) (p : Pool items fn limit) : Type (ℓ ⊔ κ) where
    pub sound : AreSound (length items) n p.idx p.workers
    pub size : length p.results ≡ length items
    pub each :
        (i : ℕ) (x : A)
        → get_elem? items i ≡ some x
        → get_elem? p.results i
          ≡ some (if is_settled p.idx p.workers i then some (fn x i) else none)

  rounds :
      (idx : ℕ)
      → (next_worker (length items) idx, next_idx (length items) idx) ≡ go_round items fn limit idx
  rounds idx = elim (Bool-cases (ltb idx (length items))) [
    | inl more ↦ rw more refl
    | inr over ↦ rw over refl
  ]

  push_worker-IsSound :
      (n : ℕ) (p : Pool items fn limit) → IsSound n p → IsSound n (push_worker items fn limit p)
  push_worker-IsSound n p s =
      subst (λ r. IsSound n (record p { idx = r.1; workers = p.workers ++ r.0 ∷ [] }))
        (rounds p.idx)
        (record {
          sound = AreSound-push (length items) n p.idx p.workers s.sound;
          size = s.size;
          each =
              λ i x h. s.each i x h ∙ ap (λ b. some (if b then some (fn x i) else none)) (still i);
        })
    where
      still :
          (i : ℕ)
          → is_settled p.idx p.workers i
            ≡ is_settled
                (next_idx (length items) p.idx)
                (p.workers ++ next_worker (length items) p.idx ∷ [])
                i
      still i =
          over_pushed (length items) p.idx (total (on_place i) p.workers)
            (total (on_place i) (p.workers ++ next_worker (length items) p.idx ∷ [])) i
            (total-append (on_place i) p.workers (next_worker (length items) p.idx))

  launch-IsSound :
      (k n : ℕ) (p : Pool items fn limit) → IsSound n p → IsSound n (launch items fn limit k p)
  unfolding launch
  launch-IsSound zero n p s = s
  launch-IsSound (suc k) n p s =
      launch-IsSound k n (push_worker items fn limit p) (push_worker-IsSound n p s)

  launch-length :
      (k : ℕ) (p : Pool items fn limit)
      → length (launch items fn limit k p).workers ≡ k + length p.workers
  unfolding launch
  launch-length zero p = omega arith
  launch-length (suc k) p = omega (
    arith,
    launch-length k (push_worker items fn limit p),
    length-append p.workers ((go_round items fn limit p.idx).0 ∷ []),
  )

  start_workers-IsSound : IsSound 0 (start_workers items fn limit)
  unfolding start_workers
  start_workers-IsSound = launch-IsSound (min limit (length items)) 0 _ (record {
    sound = record {
      within = omega arith;
      taken = λ j h. absurd (omega arith);
      once = λ j. omega arith;
      counted = refl;
      quitting = λ h. absurd (omega arith);
    };
    size = length-replicate (length items) none;
    each = λ i x h.
        get_elem?-replicate (length items) none i (get_elem?-lt items i h)
        ∙ rw (not_over i 0 refl) refl;
  })

  resume-IsSound :
      (n w i : ℕ) (x : A) (p : Pool items fn limit)
      → get_elem? p.workers w ≡ some (awaits i)
      → get_elem? items i ≡ some x
      → IsSound n p
      → IsSound (suc n) (resume items fn limit p w i x)
  resume-IsSound n w i x p e at s =
      subst
        (λ r. IsSound (suc n) (record {
          idx = r.1;
          workers = set p.workers w r.0;
          results = set p.results i (some (fn x i));
        }))
        (rounds p.idx)
        (record {
          sound = AreSound-resume (length items) n p.idx p.workers w i e s.sound;
          size = length-set p.results i _ ∙ s.size;
          each = λ j y h. elim (ℕ_discrete i j) [
            | yes q ↦ subst IsStored q own y h
            | no ne ↦
                get_elem?-set_ne p.results i j _ ne
                ∙ s.each j y h
                ∙ ap (λ b. some (if b then some (fn y j) else none))
                    (still_over (length items) p.idx p.workers w i j e ne)
          ];
        })
    where
      IsStored : ℕ → Type (ℓ ⊔ κ)
      IsStored k =
          (y : A)
          → get_elem? items k ≡ some y
          → get_elem? (set p.results i (some (fn x i))) k
            ≡ some (
                if is_settled (next_idx (length items) p.idx)
                  (set p.workers w (next_worker (length items) p.idx)) k
                then some (fn y k)
                else none)

      own : IsStored i
      own y h =
          get_elem?-set_self p.results i _ (omega (arith, get_elem?-lt items i at, s.size))
          ∙ rw (own_over (length items) n p.idx p.workers w i e s.sound)
              (ap (λ z. some (some (fn z i))) (cc (at, h)))

  Step-IsSound :
      (n : ℕ) {p q : Pool items fn limit}
      → Step items fn limit p q
      → IsSound n p
      → IsSound (suc n) q
  Step-IsSound n (ends p w i x e at) s = resume-IsSound n w i x p e at s

  pub Reach-IsSound : {n : ℕ} {p : Pool items fn limit} → Reach items fn limit n p → IsSound n p
  Reach-IsSound here = start_workers-IsSound
  Reach-IsSound (next {n} r s) = Step-IsSound n s (Reach-IsSound r)

  Step-length :
      {p q : Pool items fn limit} → Step items fn limit p q → length q.workers ≡ length p.workers
  Step-length (ends p w i x e at) = length-set p.workers w _

  start_workers-length : length (start_workers items fn limit).workers ≡ min limit (length items)
  unfolding start_workers
  start_workers-length = omega (
    arith,
    launch-length (min limit (length items))
        (record { idx = 0; workers = []; results = replicate (length items) none }),
  )

  pub Reach-length :
      {n : ℕ} {p : Pool items fn limit}
      → Reach items fn limit n p
      → length p.workers ≡ min limit (length items)
  Reach-length here = start_workers-length
  Reach-length (next r s) = Step-length s ∙ Reach-length r
