-- ===== src/Worker/Sessions.antt =====
-- containers/api/src/workers/operation.worker.js: what the rows of the sessions come to, and that
-- the results agree with them.
use mathlib.Core.Path.{ap₂}
use text.Mathlib.Text.{◌==◌ as str_eq}
use linbo_docker.Base.{
  ℕ, String, ◌≡◌, refl, ap, ◌∙◌, Bool, true, false, Option, none, some, List, [], ◌∷◌, ◌++◌, map,
  arith, if◌then◌else◌, inl, inr, Option-cases,
}
use linbo_docker.Tables.{Table, amend}
use linbo_docker.Tables.Laws.{on, find-amend}
use linbo_docker.Worker.Rows.{
  Operation, SessionState, SessionError, Session, Host, Reply, no_ip_address,
}
use linbo_docker.Worker.{
  run_commands, session_error, succeeds, World, fail_session, begin_session, set_host,
  complete_session, end_session, process_session, process_batch,
}

abbrev pub ended : Option SessionError → SessionState
ended none = SessionState.completed
ended (some e) = SessionState.failed

abbrev pub Entry : Type 0
Entry = String × (String × Host)

module _ (O : Table Operation) (S : Table Session) (H : Table Host) where
  abbrev pub session_status : World O S H → String → Option SessionState
  session_status w j = on (λ s. s.status) (S.find w.sessions j)

  abbrev pub changed : String → SessionState → String → Option SessionState → Option SessionState
  changed sid st j old = if str_eq sid j then on (λ _. st) old else old

  status-amend :
      (sid j : String) (f : Session → Session) (st : SessionState) (t : S.Rows)
      → ((s : Session) → (f s).status ≡ st)
      → on (λ s. s.status) (S.find (amend S sid f t) j)
        ≡ changed sid st j (on (λ s. s.status) (S.find t j))
  status-amend sid j f st t h = rw (find-amend S sid j f t) (chosen (str_eq sid j) (S.find t j))
    where
      chosen :
          (b : Bool) (o : Option Session)
          → on (λ s. s.status) (if b then on f o else o)
            ≡ (if b then on (λ _. st) (on (λ s. s.status) o) else on (λ s. s.status) o)
      chosen true none = refl
      chosen true (some s) = ap some (h s)
      chosen false o = refl

  changed_twice :
      (sid : String) (a b : SessionState) (j : String) (old : Option SessionState)
      → changed sid a j (changed sid b j old) ≡ changed sid a j old
  changed_twice sid a b j none = ground arith
  changed_twice sid a b j (some s) = ground arith

  -- A step that sets the session to `st` and leaves the operations alone.
  record Sets (sid : String) (st : SessionState) (w w' : World O S H) : Type 0 where
    status : (j : String) → session_status w' j ≡ changed sid st j (session_status w j)
    kept : w'.operations ≡ w.operations

  fail_session-Sets :
      (now : ℕ) (sid : String) (e : SessionError) (w : World O S H)
      → Sets sid SessionState.failed w (fail_session O S H now sid e w)
  unfolding fail_session
  fail_session-Sets now sid e w = record {
    status = λ j. status-amend sid j _ SessionState.failed w.sessions (λ s. refl);
    kept = refl;
  }

  begin_session-Sets :
      (now : ℕ) (sid k : String) (w : World O S H)
      → Sets sid SessionState.running w (begin_session O S H now sid k w)
  unfolding begin_session
  begin_session-Sets now sid k w = record {
    status = λ j. status-amend sid j _ SessionState.running w.sessions (λ s. refl);
    kept = refl;
  }

  end_session-Sets :
      (now : ℕ) (o : Operation) (sid k : String) (r : Option SessionError) (w : World O S H)
      → Sets sid (ended r) w (end_session O S H now o sid k r w).1
  unfolding end_session set_host complete_session
  end_session-Sets now o sid k none w = record {
    status = λ j. status-amend sid j _ SessionState.completed w.sessions (λ s. refl);
    kept = refl;
  }
  end_session-Sets now o sid k (some e) w =
      let f = fail_session-Sets now sid e w in record { status = f.status; kept = f.kept }

  end_session-result :
      (now : ℕ) (o : Operation) (sid k : String) (r : Option SessionError) (w : World O S H)
      → (end_session O S H now o sid k r w).0 ≡ succeeds r
  unfolding end_session
  end_session-result now o sid k none w = refl
  end_session-result now o sid k (some e) w = refl

  Sets-trans :
      (sid : String) (a b : SessionState) (u v w : World O S H)
      → Sets sid a u v
      → Sets sid b v w
      → Sets sid b u w
  Sets-trans sid a b u v w f g = record {
    status = λ j.
        g.status j
        ∙ ap (changed sid b j) (f.status j)
        ∙ changed_twice sid b a j (session_status u j);
    kept = g.kept ∙ f.kept;
  }

  module _ (ssh : String → String → ℕ → String → Reply) where
    -- what the sessions of the entries are set to, the last one of an identifier at the end
    abbrev pub after : Operation → List Entry → String → Option SessionState → Option SessionState
    after o [] j old = old
    after o ((sid, (k, h)) ∷ es) j old =
        after o es j (changed sid (ended (session_error ssh o h)) j old)

    pub after-append :
        (o : Operation) (es fs : List Entry) (j : String) (old : Option SessionState)
        → after o (es ++ fs) j old ≡ after o fs j (after o es j old)
    after-append o [] fs j old = refl
    after-append o ((sid, (k, h)) ∷ es) fs j old =
        after-append o es fs j (changed sid (ended (session_error ssh o h)) j old)

    pub process-none :
        (now : ℕ) (o : Operation) (sid k : String) (h : Host) (w : World O S H)
        → h.ip_address ≡ none
        → process_session O S H ssh now o sid (k, h) w
          ≡ (false, fail_session O S H now sid no_ip_address w)
    unfolding process_session
    process-none now o sid k h w e = rw (e, process_session) refl

    pub process-some :
        (now : ℕ) (o : Operation) (sid k : String) (h : Host) (w : World O S H) {ip : String}
        → h.ip_address ≡ some ip
        → process_session O S H ssh now o sid (k, h) w
          ≡ end_session O S H now o sid k
              (run_commands ssh o.options ip 0 o.commands)
              (begin_session O S H now sid k w)
    unfolding process_session
    process-some now o sid k h w e = rw (e, process_session) refl

    error-none :
        (o : Operation) (h : Host)
        → h.ip_address ≡ none
        → session_error ssh o h ≡ some no_ip_address
    unfolding session_error
    error-none o h e = rw (e, session_error) refl

    error-some :
        (o : Operation) (h : Host) {ip : String}
        → h.ip_address ≡ some ip
        → session_error ssh o h ≡ run_commands ssh o.options ip 0 o.commands
    unfolding session_error
    error-some o h e = rw (e, session_error) refl

    process_session-Sets :
        (now : ℕ) (o : Operation) (sid k : String) (h : Host) (w : World O S H)
        → Sets sid
            (ended (session_error ssh o h))
            w
            (process_session O S H ssh now o sid (k, h) w).1
    process_session-Sets now o sid k h w = elim (Option-cases h.ip_address) [
      | inl e ↦
          rw (process-none now o sid k h w e, error-none o h e)
            (fail_session-Sets now sid no_ip_address w)
      | inr (ip, e) ↦
          let r = run_commands ssh o.options ip 0 o.commands in
          let v = begin_session O S H now sid k w in
          rw (process-some now o sid k h w e, error-some o h e)
            (Sets-trans sid SessionState.running (ended r) w v (end_session O S H now o sid k r v).1
              (begin_session-Sets now sid k w) (end_session-Sets now o sid k r v))
    ]

    process_session-result :
        (now : ℕ) (o : Operation) (sid k : String) (h : Host) (w : World O S H)
        → (process_session O S H ssh now o sid (k, h) w).0 ≡ succeeds (session_error ssh o h)
    process_session-result now o sid k h w = elim (Option-cases h.ip_address) [
      | inl e ↦ rw (process-none now o sid k h w e, error-none o h e) refl
      | inr (ip, e) ↦
          rw (process-some now o sid k h w e, error-some o h e)
            (end_session-result now o sid k (run_commands ssh o.options ip 0 o.commands)
              (begin_session O S H now sid k w))
    ]

    -- the results of the entries
    abbrev pub results : Operation → List Entry → List Bool
    results o es = map (λ e. succeeds (session_error ssh o e.1.1)) es

    -- A run over the entries: what the sessions come to, and that the operations stay.
    pub record Ran (o : Operation) (es : List Entry) (w w' : World O S H) : Type 0 where
      pub status : (j : String) → session_status w' j ≡ after o es j (session_status w j)
      pub kept : w'.operations ≡ w.operations

    pub process_batch-Ran :
        (now : ℕ) (o : Operation) (es : List Entry) (w : World O S H)
        → Ran o es w (process_batch O S H ssh now o es w).1
    unfolding process_batch
    process_batch-Ran now o [] w = record { status = λ j. refl; kept = refl }
    process_batch-Ran now o ((sid, (k, h)) ∷ es) w =
        let first = process_session-Sets now o sid k h w in
        let v = (process_session O S H ssh now o sid (k, h) w).1 in
        let rest = process_batch-Ran now o es v in
        record {
          status = λ j. rest.status j ∙ ap (after o es j) (first.status j);
          kept = rest.kept ∙ first.kept;
        }

    pub process_batch-results :
        (now : ℕ) (o : Operation) (es : List Entry) (w : World O S H)
        → (process_batch O S H ssh now o es w).0 ≡ results o es
    unfolding process_batch
    process_batch-results now o [] w = refl
    process_batch-results now o ((sid, (k, h)) ∷ es) w =
        ap₂ ◌∷◌ (process_session-result now o sid k h w)
          (process_batch-results now o es (process_session O S H ssh now o sid (k, h) w).1)
