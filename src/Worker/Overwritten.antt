-- ===== src/Worker/Overwritten.antt =====
-- containers/api/src/workers/operation.worker.js: `cancelOperation` while the sessions of the
-- operation wait for the worker.
use text.Mathlib.Text.{◌==◌ as str_eq}
use linbo_docker.Base.{
  ℕ, ◌<◌, ◌==◌, String, ◌≡◌, refl, sym, ap, ◌∙◌, Bool, true, Option, none, some, List, [], ◌∷◌,
  if◌then◌else◌, inl, inr, ◌⊎◌, Bool-cases, if-both, ok,
}
use mathlib.Core.Bool.{false≢true}
use linbo_docker.Tables.{Table}
use linbo_docker.Tables.Laws.{on, lists}
use linbo_docker.Worker.Rows.{
  WorkStatus, Operation, SessionState, SessionError, Session, Host, Reply,
}
use linbo_docker.Worker.{session_error, World, is_pending_of, run_sessions, cancel_operation}
use linbo_docker.Worker.Batches.{no_count}
use linbo_docker.Worker.Cancel.{cancelled_session, ok-Cancelled}
use linbo_docker.Worker.Sessions.{Entry, session_status, ended, after, results}
use linbo_docker.Worker.Runs.{run_sessions-Finished}

-- a session that has run to its end, and an operation that has
abbrev pub HasRun : Option SessionState → Type 0
HasRun s = (s ≡ some SessionState.completed) ⊎ (s ≡ some SessionState.failed)

abbrev pub IsClosed : WorkStatus → Type 0
IsClosed s = (s ≡ WorkStatus.completed) ⊎ (s ≡ WorkStatus.completed_with_errors)

ended-HasRun : (r : Option SessionError) → HasRun (some (ended r))
ended-HasRun none = inl refl
ended-HasRun (some e) = inr refl

HasRun-if :
    (b : Bool) (r : Option SessionError) (old : Option SessionState)
    → HasRun old
    → HasRun (if b then on (λ _. ended r) old else old)
HasRun-if b r none h = if-both HasRun b h h
HasRun-if b r (some s) h = if-both HasRun b (ended-HasRun r) h

module _ (O : Table Operation) (S : Table Session) (H : Table Host)
    (ssh : String → String → ℕ → String → Reply) where
  after-HasRun :
      (o : Operation) (es : List Entry) (j : String) (old : Option SessionState)
      → HasRun old
      → HasRun (after O S H ssh o es j old)
  after-HasRun o [] j old h = h
  after-HasRun o ((sid, (k, x)) ∷ es) j old h =
      after-HasRun o es j _ (HasRun-if (str_eq sid j) (session_error ssh o x) old h)

  -- A listed session runs, whatever its status was.
  listed-HasRun :
      (o : Operation) (es : List Entry) (j : String) (s : SessionState)
      → lists j es ≡ true
      → HasRun (after O S H ssh o es j (some s))
  listed-HasRun o [] j s h = absurd (false≢true h)
  listed-HasRun o ((sid, (k, x)) ∷ es) j s h = elim (Bool-cases (str_eq sid j)) [
    | inl same ↦ rw same (after-HasRun o es j _ (ended-HasRun (session_error ssh o x)))
    | inr other ↦ rw other (listed-HasRun o es j s (sym (rw other refl) ∙ h))
  ]

  cancelled_row :
      (now : ℕ) (id : String) (s : Session)
      → is_pending_of O S H id s ≡ true
      → (cancelled_session O S H now id s).status ≡ SessionState.cancelled
  cancelled_row now id s p = rw p refl

  closed :
      (n : ℕ) → IsClosed (if n == 0 then WorkStatus.completed else WorkStatus.completed_with_errors)
  closed n = if-both IsClosed (n == 0) (inl refl) (inr refl)

  module _ (percent : ℕ → ℕ → ℕ) where
    -- the operation and the session j in the tables u, and behind the run in the tables v
    pub record Overwritten (id j : String) (u v : World O S H) : Type 0 where
      pub before : Operation
      pub found_before : O.find u.operations id ≡ some before
      pub was_cancelled : before.status ≡ WorkStatus.cancelled
      pub session_before : session_status O S H u j ≡ some SessionState.cancelled
      pub row : Operation
      pub found : O.find v.operations id ≡ some row
      pub is_closed : IsClosed row.status
      pub has_run : HasRun (session_status O S H v j)

    -- The worker, with a positive number of sessions at once, does not look at the status again: if
    -- an operation is cancelled while one of the worker's sessions for it is pending, both are
    -- cancelled then; the worker runs the session nevertheless, which ends as completed or failed,
    -- and sets the operation to completed or to completed with errors.
    pub run_sessions-cancelled :
        (max now later : ℕ) (id : String) (o : Operation) (es : List Entry) (w w' : World O S H)
        (j : String) (s : Session)
        → 0 < max
        → S.find w.sessions j ≡ some s
        → is_pending_of O S H id s ≡ true
        → lists j es ≡ true
        → cancel_operation O S H now id w ≡ ok w'
        → Overwritten id j w' (run_sessions O S H ssh percent max later id o es w')
    run_sessions-cancelled max now later id o es w w' j s m e p l h =
        let c = ok-Cancelled O S H now id w w' h in
        let f = run_sessions-Finished O S H ssh percent max later id o es w' m (c.row, c.found) in
        let cancelled : session_status O S H w' j ≡ some SessionState.cancelled =
          ap (on (λ (t : Session). t.status))
            (c.sessions_are j ∙ ap (on (cancelled_session O S H now id)) e)
          ∙ ap some (cancelled_row now id s p) in
        record {
          before = c.row;
          found_before = c.found;
          was_cancelled = c.status_is;
          session_before = cancelled;
          row = f.row;
          found = f.found;
          is_closed = rw f.status_is (closed (no_count (results O S H ssh o es)));
          has_run =
              rw (f.sessions_are j, cancelled) (listed-HasRun o es j SessionState.cancelled l);
        }
