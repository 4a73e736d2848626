-- ===== src/Ops/Reopened.antt =====
-- `cancelOperation` on an operation that has ended with errors.
use text.Mathlib.Text.{◌==◌ as str_eq}
use text.Mathlib.TextPositions.{eq_refl}
use linbo_docker.Base.{
  ℕ, String, ◌≡◌, refl, sym, ap, ◌∙◌, Bool, true, false, Option, some, List, [], ◌∷◌, arith, any,
  all, ltb, length, map, ok,
}
use linbo_docker.Ops.Data.{
  SessionStatus, OpStatus, completed_with_errors, cancelling, exists, is_some,
}
use linbo_docker.Ops.Redis.{Redis}
use linbo_docker.Ops.Sessions.{
  is_queued, get_session, cancel_operation, cancel_sessions, cancel_queued, request_cancel,
}
use linbo_docker.Ops.Results.{status_of, status_of-hmset}
use linbo_docker.Ops.Completion.{is_ended, is_cancelled, check_operation_completion_lem}

abbrev pub is_result : Option SessionStatus → Bool
is_result (some SessionStatus.success) = true
is_result (some SessionStatus.failed) = true
is_result _ = false

module _ (R : Redis) where
  open R use {Db, op, hget, hkeys}

  -- every session that is there has a result
  abbrev pub HasResults : Db → String → Type 0
  HasResults d id =
      (m : String) → is_some (hget d id m) ≡ true → is_result (status_of R d id m) ≡ true

  abbrev Named : List String → Db → String → Type 0
  Named names d id =
      (m : String) → any (λ n. str_eq n m) names ≡ true → is_result (status_of R d id m) ≡ true

  Named-tail :
      (n : String) (ns : List String) (d : Db) (id : String) → Named (n ∷ ns) d id → Named ns d id
  Named-tail n ns d id h m e = h m (ground (arith, e))

  Named-head :
      (n : String) (ns : List String) (d : Db) (id : String)
      → Named (n ∷ ns) d id
      → is_result (status_of R d id n) ≡ true
  Named-head n ns d id h = h n (rw (eq_refl n))

  result-not_queued :
      (s : Option SessionStatus)
      → is_result s ≡ true
      → (is_queued s ≡ false) × (is_ended s ≡ true) × (is_cancelled s ≡ false)
  result-not_queued s h = ground arith

  -- there is nothing to cancel
  cancel_queued-Named :
      (now : ℕ) (id : String) (names : List String) (d0 d : Db)
      → Named names d0 id
      → cancel_queued R now id (map (λ n. (n, get_session R d0 id n)) names) d ≡ d
  unfolding cancel_queued
  cancel_queued-Named now id [] d0 d h = refl
  cancel_queued-Named now id (n ∷ ns) d0 d h =
      rw ((result-not_queued _ (Named-head n ns d0 id h)).0, cancel_queued)
        (cancel_queued-Named now id ns d0 d (Named-tail n ns d0 id h))

  all-Named :
      (id : String) (names : List String) (d : Db)
      → Named names d id
      → (all (λ s. is_ended s.status) (map (get_session R d id) names) ≡ true)
        × (any (λ s. is_cancelled s.status) (map (get_session R d id) names) ≡ false)
  all-Named id [] d h = (refl, refl)
  all-Named id (n ∷ ns) d h =
      let one = result-not_queued _ (Named-head n ns d id h) in
      let rest = all-Named id ns d (Named-tail n ns d id h) in
      (rw (one.1, rest.0), rw (one.2, rest.1))

  length-any :
      (m : String) (names : List String) (d : Db) (id : String)
      → any (λ n. str_eq n m) names ≡ true
      → ltb 0 (length (map (get_session R d id) names)) ≡ true
  length-any m [] d id e = ground (arith, e)
  length-any m (n ∷ ns) d id e = ground arith

  -- what `cancelOperation` writes is on the operation alone
  module _ (now : ℕ) (id : String) (d : Db) (results : HasResults d id) where
    requested : Db
    requested = request_cancel R id d

    requested-Named : Named (hkeys requested id) requested id
    unfolding requested
    requested-Named m e = rw (status_of-hmset R d id id m _) (
        results m
          (ap is_some (sym (R.hget-hmset d id id m _)) ∙ sym (R.hkeys_iff requested id m) ∙ e))

    cancel_sessions-requested : cancel_sessions R now id d ≡ requested
    unfolding cancel_sessions requested
    cancel_sessions-requested =
        cancel_queued-Named now id (hkeys requested id) requested requested requested-Named

    -- An operation that ended as `completed_with_errors`, with at least one session and a result
    -- in every session, can be cancelled: `cancelOperation` succeeds and leaves it `completed`.
    pub cancel_operation_reopens :
        (m : String)
        → exists (op d id) ≡ true
        → (op d id).status ≡ some completed_with_errors
        → is_some (hget d id m) ≡ true
        → ((cancel_operation R now id d).0 ≡ ok cancelling)
          × ((op (cancel_operation R now id d).1 id).status ≡ some OpStatus.completed)
    unfolding cancel_operation requested
    cancel_operation_reopens m e st one =
        let listed = R.hkeys_iff requested id m ∙ ap is_some (R.hget-hmset d id id m _) ∙ one in
        let named = all-Named id (hkeys requested id) requested requested-Named in
        let closed =
          (check_operation_completion_lem R now id requested).0
            (rw (named.0, length-any m (hkeys requested id) requested id listed)) in
        rw (e, st, cancel_sessions-requested) (refl, closed.0 ∙ rw (named.1))
