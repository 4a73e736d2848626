-- ===== src/Ops/Cancelling.antt =====
-- What `cancelOperation` does to the sessions and to the operation.
use text.Mathlib.Text.{◌==◌ as str_eq}
use text.Mathlib.TextEquality.{eq_iff}
use linbo_docker.Base.{
  ℕ, String, ◌≡◌, refl, ap, ◌∙◌, Bool, true, false, ◌&&◌, ◌||◌, ◌⊎◌, Option, none, some, List, [],
  ◌∷◌, inl, inr, if◌then◌else◌, any, ltb, if-both, Bool-cases, map, ok, err,
}
use linbo_docker.Ops.Data.{
  SessionStatus, OpStatus, cancelling, Session, OpHash, empty_op, merge, exists, is_some,
}
use linbo_docker.Ops.Redis.{Redis}
use linbo_docker.Ops.Sessions.{
  is_queued, is_over, cancelled_session, get_session, session_or_empty, cancel_queued,
  cancel_sessions, request_cancel, listed, check_operation_completion, cancel_operation,
  operation_not_found, already, tally, sessions, completion,
}
use linbo_docker.Ops.Results.{status_of, status_of-hset, status_of-hmset, op-hmset_own}

module _ {ℓ} {A : Type ℓ} where
  cancelled_here :
      (here later waits : Bool) (new old : A)
      → (here ≡ true → waits ≡ true)
      → (if later && waits then new else if here then new else old)
        ≡ (if (here || later) && waits then new else old)
  cancelled_here true true waits new old h = rw (h refl)
  cancelled_here true false waits new old h = rw (h refl)
  cancelled_here false later waits new old h = refl

  kept_here :
      (here later waits : Bool) (new old : A)
      → (here ≡ true → waits ≡ false)
      → (if later && waits then new else old) ≡ (if (here || later) && waits then new else old)
  kept_here true true waits new old h = refl
  kept_here true false waits new old h = rw (h refl)
  kept_here false later waits new old h = refl

-- a queued session becomes cancelled
abbrev pub after_cancel : Option SessionStatus → Option SessionStatus
after_cancel s = if is_queued s then some SessionStatus.cancelled else s

module _ (R : Redis) where
  open R use {Db, op, hmset, hget, hset, hkeys}

  abbrev with_session : Db → String → List String → List (String × Session)
  with_session d id names = map (λ name. (name, get_session R d id name)) names

  cancel_queued-statuses :
      (now : ℕ) (id : String) (d0 : Db) (names : List String) (d : Db) (m : String)
      → status_of R (cancel_queued R now id (with_session d0 id names) d) id m ≡ (
          if any (λ n. str_eq n m) names && is_queued (status_of R d0 id m)
          then some SessionStatus.cancelled
          else status_of R d id m)
  unfolding cancel_queued
  cancel_queued-statuses now id d0 [] d m = refl
  cancel_queued-statuses now id d0 (n ∷ ns) d m =
      cancel_queued-statuses now id d0 ns _ m ∙ first (Bool-cases (is_queued (status_of R d0 id n)))
    where
      rest : Bool
      rest = any (λ k. str_eq k m) ns

      first :
          (is_queued (status_of R d0 id n) ≡ true) ⊎ (is_queued (status_of R d0 id n) ≡ false)
          → (if rest && is_queued (status_of R d0 id m)
              then some SessionStatus.cancelled
              else status_of R
                  (if is_queued (status_of R d0 id n)
                    then hset d id n (cancelled_session now (get_session R d0 id n))
                    else d)
                  id
                  m)
            ≡ (if (str_eq n m || rest) && is_queued (status_of R d0 id m)
                then some SessionStatus.cancelled
                else status_of R d id m)
      first (inl q) =
          rw (q, status_of-hset R d id n m)
            (cancelled_here (str_eq n m) rest _ _ _ (λ e. rw ((eq_iff n m).0 e) at q))
      first (inr q) = rw q (kept_here (str_eq n m) rest _ _ _ (λ e. rw ((eq_iff n m).0 e) at q))

  op-cancel_queued :
      (now : ℕ) (id : String) (ls : List (String × Session)) (d : Db)
      → op (cancel_queued R now id ls d) id ≡ op d id
  unfolding cancel_queued
  op-cancel_queued now id [] d = refl
  op-cancel_queued now id ((n, s) ∷ rest) d = elim (Bool-cases (is_queued s.status)) [
    | inl q ↦ rw q (op-cancel_queued now id rest _ ∙ R.op-hset d id n id _)
    | inr q ↦ rw q (op-cancel_queued now id rest d)
  ]

  -- only a session that is there is queued
  queued-listed :
      (d : Db) (id m : String)
      → (any (λ n. str_eq n m) (hkeys d id) && is_queued (status_of R d id m))
        ≡ is_queued (status_of R d id m)
  queued-listed d id m = rw (R.hkeys_iff d id m) (there (hget d id m))
    where
      there :
          (o : Option Session)
          → (is_some o && is_queued (session_or_empty o).status)
            ≡ is_queued (session_or_empty o).status
      there none = refl
      there (some s) = refl

  pub cancel_sessions-statuses :
      (now : ℕ) (id : String) (d : Db) (m : String)
      → status_of R (cancel_sessions R now id d) id m ≡ after_cancel (status_of R d id m)
  unfolding cancel_sessions
  cancel_sessions-statuses now id d m =
      let d1 : Db = request_cancel R id d in
      cancel_queued-statuses now id d1 (hkeys d1 id) d1 m
      ∙ rw (queued-listed d1 id m) (ap after_cancel (status_of-hmset R d id id m _))

  pub op-cancel_sessions :
      (now : ℕ) (id : String) (d : Db)
      → op (cancel_sessions R now id d) id
        ≡ merge
            (op d id)
            (record empty_op { cancel_requested = some true; status = some cancelling })
  unfolding cancel_sessions
  op-cancel_sessions now id d =
      op-cancel_queued now id (listed R (request_cancel R id d) id) (request_cancel R id d)
      ∙ op-hmset_own R d id _

  pub check-statuses :
      (now : ℕ) (id : String) (d : Db) (m : String)
      → status_of R (check_operation_completion R now id d) id m ≡ status_of R d id m
  unfolding check_operation_completion
  check-statuses now id d m =
      let t = tally (sessions R d id) in
      if-both (λ d'. status_of R d' id m ≡ status_of R d id m) (t.all_done && ltb 0 t.stats.total)
        (status_of-hmset R d id id m (completion R now t)) refl

  pub check-cancel_requested :
      (now : ℕ) (id : String) (d : Db)
      → (op (check_operation_completion R now id d) id).cancel_requested
        ≡ (op d id).cancel_requested
  unfolding check_operation_completion
  check-cancel_requested now id d =
      let t = tally (sessions R d id) in
      if-both (λ d'. (op d' id).cancel_requested ≡ (op d id).cancel_requested)
        (t.all_done && ltb 0 t.stats.total)
        (ap (λ (h : OpHash). h.cancel_requested) (op-hmset_own R d id (completion R now t))) refl

  cancel_operation_lem :
      (now : ℕ) (id : String) (d : Db)
      → exists (op d id) ≡ true
      → is_over (op d id).status ≡ false
      → cancel_operation R now id d
        ≡ (ok cancelling, check_operation_completion R now id (cancel_sessions R now id d))
  unfolding cancel_operation
  cancel_operation_lem now id d e o = rw (e, o)

  -- `cancelOperation` on an operation that exists and is not completed, failed or cancelled:
  -- it succeeds, the cancellation is requested, every queued session becomes cancelled, and
  -- every other session keeps its status.
  pub cancel_operation-statuses :
      (now : ℕ) (id : String) (d : Db)
      → exists (op d id) ≡ true
      → is_over (op d id).status ≡ false
      → ((cancel_operation R now id d).0 ≡ ok cancelling)
        × ((op (cancel_operation R now id d).1 id).cancel_requested ≡ some true)
        × ((m : String)
            → status_of R (cancel_operation R now id d).1 id m ≡ after_cancel (status_of R d id m))
  cancel_operation-statuses now id d e o =
      let d1 : Db = cancel_sessions R now id d in
      rw (cancel_operation_lem now id d e o) (
        refl,
        check-cancel_requested now id d1
            ∙ ap (λ (h : OpHash). h.cancel_requested) (op-cancel_sessions now id d),
        λ m. check-statuses now id d1 m ∙ cancel_sessions-statuses now id d m,
      )

  -- `cancelOperation` throws on a missing operation and on one that is completed, failed or
  -- cancelled, and then writes nothing.
  cancel_operation_refuses :
      (now : ℕ) (id : String) (d : Db)
      → (exists (op d id) ≡ false → cancel_operation R now id d ≡ (err operation_not_found, d))
        × ((s : OpStatus)
            → exists (op d id) ≡ true
            → (op d id).status ≡ some s
            → is_over (some s) ≡ true
            → cancel_operation R now id d ≡ (err (already s), d))
  unfolding cancel_operation
  cancel_operation_refuses now id d = (λ e. rw e, λ s e st o. rw (e, st, o))
