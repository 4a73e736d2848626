-- ===== src/Worker/Cancel.antt =====
-- containers/api/src/workers/operation.worker.js: cancelling and retrying.
use mathlib.Core.Path.{subst}
use linbo_docker.Base.{
  ℕ, String, ◌≡◌, refl, sym, ◌∙◌, Option, none, some, if◌then◌else◌, inl, inr, Bool-cases,
  Option-cases, Outcome, ok, err,
}
use linbo_docker.Tables.{Table}
use linbo_docker.Tables.Laws.{on, find-amend_self, find-amend_many}
use linbo_docker.Worker.Rows.{WorkStatus, Operation, SessionState, Session, Host}
use linbo_docker.Worker.{
  WorkerError, operation_not_found, already_finished, World, is_finished, is_pending_of,
  cancel_found, cancel_operation,
}

module _ (O : Table Operation) (S : Table Session) (H : Table Host) where
  abbrev pub cancelled_session : ℕ → String → Session → Session
  cancelled_session now id s =
      if is_pending_of O S H id s
      then record s { status = SessionState.cancelled; completed_at = some now }
      else s

  -- what a cancellation leaves
  pub record Cancelled (now : ℕ) (id : String) (w w' : World O S H) : Type 0 where
    pub row : Operation
    pub found : O.find w'.operations id ≡ some row
    pub status_is : row.status ≡ WorkStatus.cancelled
    pub sessions_are :
        (j : String) → S.find w'.sessions j ≡ on (cancelled_session now id) (S.find w.sessions j)
    pub hosts_stay : w'.hosts ≡ w.hosts

  cancel_found-Cancelled :
      (now : ℕ) (id : String) (o : Operation) (w : World O S H)
      → O.find w.operations id ≡ some o
      → Cancelled now id w (cancel_found O S H now id w)
  unfolding cancel_found
  cancel_found-Cancelled now id o w e = record {
    row = record o { status = WorkStatus.cancelled; completed_at = some now };
    found = find-amend_self O id _ w.operations ∙ rw e refl;
    status_is = refl;
    sessions_are = λ j. find-amend_many S (is_pending_of O S H id) _ (λ r. refl) w.sessions j;
    hosts_stay = refl;
  }

  abbrev pub CancelAnswer :
      ℕ → String → World O S H → Option Operation → Outcome WorkerError (World O S H) → Type 0
  CancelAnswer now id w none r = r ≡ err operation_not_found
  CancelAnswer now id w (some o) r =
      if is_finished O S H o.status
      then r ≡ err already_finished
      else ((w' : World O S H) × (r ≡ ok w') × Cancelled now id w w')

  cancel-none :
      (now : ℕ) (id : String) (w : World O S H)
      → O.find w.operations id ≡ none
      → cancel_operation O S H now id w ≡ err operation_not_found
  unfolding cancel_operation
  cancel-none now id w e = rw (e, cancel_operation) refl

  cancel-some :
      (now : ℕ) (id : String) (w : World O S H) {o : Operation}
      → O.find w.operations id ≡ some o
      → cancel_operation O S H now id w ≡ (
          if is_finished O S H o.status
          then err already_finished
          else ok (cancel_found O S H now id w))
  unfolding cancel_operation
  cancel-some now id w e = rw (e, cancel_operation) refl

  -- Cancelling throws on a missing operation and on one that is completed or cancelled. On any
  -- other it sets the operation to cancelled and exactly its pending sessions too, and leaves all
  -- other sessions and the hosts as they are.
  pub cancel_operation-CancelAnswer :
      (now : ℕ) (id : String) (w : World O S H)
      → CancelAnswer now id w (O.find w.operations id) (cancel_operation O S H now id w)
  cancel_operation-CancelAnswer now id w = elim (Option-cases (O.find w.operations id)) [
    | inl e ↦ rw e (cancel-none now id w e)
    | inr (o, e) ↦ elim (Bool-cases (is_finished O S H o.status)) [
      | inl f ↦ rw (e, f) (cancel-some now id w e ∙ rw f refl)
      | inr f ↦
          rw (e, f)
            (
              cancel_found O S H now id w,
              cancel-some now id w e ∙ rw f refl,
              cancel_found-Cancelled now id o w e,
            )
    ]
  ]

  ok-eq : {u v : World O S H} → ◌≡◌ {A = Outcome WorkerError (World O S H)} (ok u) (ok v) → u ≡ v
  ok-eq h = cc

  Cancelled-of_answer :
      (now : ℕ) (id : String) (w w' : World O S H) (p : Option Operation)
      (r : Outcome WorkerError (World O S H))
      → CancelAnswer now id w p r
      → r ≡ ok w'
      → Cancelled now id w w'
  Cancelled-of_answer now id w w' none r a h = cc
  Cancelled-of_answer now id w w' (some o) r a h = elim (Bool-cases (is_finished O S H o.status)) [
    | inl f ↦ cc (rw f at a)
    | inr f ↦ let (v, e, c) = rw f at a in subst (Cancelled now id w) (ok-eq (sym e ∙ h)) c
  ]

  pub ok-Cancelled :
      (now : ℕ) (id : String) (w w' : World O S H)
      → cancel_operation O S H now id w ≡ ok w'
      → Cancelled now id w w'
  ok-Cancelled now id w w' h =
      Cancelled-of_answer now id w w' (O.find w.operations id) (cancel_operation O S H now id w)
        (cancel_operation-CancelAnswer now id w) h
