-- ===== src/Worker/Owners.antt =====
-- containers/api/src/workers/operation.worker.js: a run changes the status of the sessions, not the
-- operation and the host that they are for.
use text.Mathlib.Text.{◌==◌ as str_eq}
use linbo_docker.Base.{
  ℕ, ◌+◌, String, ◌≡◌, refl, ap, ◌∙◌, Bool, true, false, Option, none, some, List, [], ◌∷◌, length,
  if◌then◌else◌, inl, inr, Option-cases,
}
use linbo_docker.Tables.{Table, amend}
use linbo_docker.Tables.Laws.{on, find-amend}
use linbo_docker.Worker.Rows.{Operation, SessionError, Session, Host, Reply, no_ip_address}
use linbo_docker.Worker.{
  run_commands, World, fail_session, begin_session, set_host, complete_session, end_session,
  process_session, process_batch, process_batches, count_results, report_progress, batches,
  complete_operation, run_sessions,
}
use linbo_docker.Worker.Sessions.{Entry, process-none, process-some}

-- the operation, the identifier of the host and its name
abbrev pub owner_of : Session → String × (Option String × String)
owner_of s = (s.operation_id, (s.host_id, s.hostname))

module _ (O : Table Operation) (S : Table Session) (H : Table Host) where
  abbrev pub session_owner : World O S H → String → Option (String × (Option String × String))
  session_owner w j = on owner_of (S.find w.sessions j)

  owner-amend :
      (sid j : String) (f : Session → Session) (t : S.Rows)
      → ((s : Session) → owner_of (f s) ≡ owner_of s)
      → on owner_of (S.find (amend S sid f t) j) ≡ on owner_of (S.find t j)
  owner-amend sid j f t h = rw (find-amend S sid j f t) (chosen (str_eq sid j) (S.find t j))
    where
      chosen :
          (b : Bool) (o : Option Session) → on owner_of (if b then on f o else o) ≡ on owner_of o
      chosen true none = refl
      chosen true (some s) = ap some (h s)
      chosen false o = refl

  fail_session-owner :
      (now : ℕ) (sid : String) (e : SessionError) (w : World O S H) (j : String)
      → session_owner (fail_session O S H now sid e w) j ≡ session_owner w j
  unfolding fail_session
  fail_session-owner now sid e w j = owner-amend sid j _ w.sessions (λ s. refl)

  begin_session-owner :
      (now : ℕ) (sid k : String) (w : World O S H) (j : String)
      → session_owner (begin_session O S H now sid k w) j ≡ session_owner w j
  unfolding begin_session
  begin_session-owner now sid k w j = owner-amend sid j _ w.sessions (λ s. refl)

  end_session-owner :
      (now : ℕ) (o : Operation) (sid k : String) (r : Option SessionError) (w : World O S H)
      (j : String)
      → session_owner (end_session O S H now o sid k r w).1 j ≡ session_owner w j
  unfolding end_session set_host complete_session
  end_session-owner now o sid k none w j = owner-amend sid j _ w.sessions (λ s. refl)
  end_session-owner now o sid k (some e) w j = fail_session-owner now sid e w j

  module _ (ssh : String → String → ℕ → String → Reply) where
    process_session-owner :
        (now : ℕ) (o : Operation) (sid k : String) (h : Host) (w : World O S H) (j : String)
        → session_owner (process_session O S H ssh now o sid (k, h) w).1 j ≡ session_owner w j
    process_session-owner now o sid k h w j = elim (Option-cases h.ip_address) [
      | inl e ↦
          rw (process-none O S H ssh now o sid k h w e)
            (fail_session-owner now sid no_ip_address w j)
      | inr (ip, e) ↦
          let r = run_commands ssh o.options ip 0 o.commands in
          let v = begin_session O S H now sid k w in
          rw (process-some O S H ssh now o sid k h w e)
            (end_session-owner now o sid k r v j ∙ begin_session-owner now sid k w j)
    ]

    process_batch-owner :
        (now : ℕ) (o : Operation) (es : List Entry) (w : World O S H) (j : String)
        → session_owner (process_batch O S H ssh now o es w).1 j ≡ session_owner w j
    unfolding process_batch
    process_batch-owner now o [] w j = refl
    process_batch-owner now o ((sid, (k, h)) ∷ es) w j =
        process_batch-owner now o es (process_session O S H ssh now o sid (k, h) w).1 j
        ∙ process_session-owner now o sid k h w j

    module _ (percent : ℕ → ℕ → ℕ) where
      process_batches-owner :
          (now : ℕ) (id : String) (o : Operation) (total : ℕ) (bs : List (List Entry)) (c : ℕ × ℕ)
          (w : World O S H) (j : String)
          → session_owner (process_batches O S H ssh percent now id o total bs c w).1 j
            ≡ session_owner w j
      unfolding process_batches report_progress
      process_batches-owner now id o total [] c w j = refl
      process_batches-owner now id o total (b ∷ bs) c w j =
          let r = process_batch O S H ssh now o b w in
          let d = count_results r.0 c in
          process_batches-owner now id o total bs d
            (report_progress O S H ssh percent id (d.0 + d.1) total r.1) j
          ∙ process_batch-owner now o b w j

      pub run_sessions-owner :
          (max now : ℕ) (id : String) (o : Operation) (es : List Entry) (w : World O S H)
          (j : String)
          → session_owner (run_sessions O S H ssh percent max now id o es w) j ≡ session_owner w j
      unfolding run_sessions complete_operation
      run_sessions-owner max now id o es w j =
          process_batches-owner now id o (length es) (batches (length es) max es) (0, 0) w j
