-- ===== src/Worker/Next.antt =====
-- containers/api/src/workers/operation.worker.js: `processNextOperation` from the choice of the
-- operation to its end.
use text.Mathlib.Text.{◌==◌ as str_eq}
use linbo_docker.Base.{
  ℕ, suc, ◌<◌, String, ◌≡◌, refl, ap, ◌∙◌, true, Option, none, some, List, [], ◌∷◌, map, inl, inr,
  Bool-cases, any, keep, All, All-map, ◌⊎◌,
}
use linbo_docker.Tables.{Table, amend, find_many}
use linbo_docker.Tables.Laws.{on, lists, find-amend_self, Listed, find_many-Listed}
use linbo_docker.Worker.Rows.{WorkStatus, Operation, SessionState, Session, Host, Reply}
use linbo_docker.Worker.{
  session_error, run_sessions, is_next, oldest, World, create_sessions, process_operation,
  process_next_operation,
}
use linbo_docker.Worker.Oldest.{NotOlder, Oldest, oldest-Oldest}
use linbo_docker.Worker.Sessions.{Entry, ended, session_status}
use linbo_docker.Worker.Owners.{owner_of, session_owner, run_sessions-owner}
use linbo_docker.Worker.Made.{
  IsApart, new_session, stored, stored-unlisted, stored-listed, create_sessions-IsApart,
  create_sessions-stored, after-unlisted, after-listed,
}
use linbo_docker.Worker.Runs.{Finished, run_sessions-Finished}

module _ (O : Table Operation) (S : Table Session) (H : Table Host) where
  create_sessions-operations :
      (fresh : ℕ → String) (n : ℕ) (id : String) (hs : List (String × Host)) (w : World O S H)
      → (create_sessions O S H fresh n id hs w).1.operations ≡ w.operations
  unfolding create_sessions
  create_sessions-operations fresh n id [] w = refl
  create_sessions-operations fresh n id ((k, h) ∷ hs) w =
      create_sessions-operations fresh (suc n) id hs _

  create_sessions-entries :
      (fresh : ℕ → String) (n : ℕ) (id : String) (hs : List (String × Host)) (w : World O S H)
      → map (λ (e : Entry). e.1) (create_sessions O S H fresh n id hs w).0 ≡ hs
  unfolding create_sessions
  create_sessions-entries fresh n id [] w = refl
  create_sessions-entries fresh n id ((k, h) ∷ hs) w =
      ap (◌∷◌ (k, h)) (create_sessions-entries fresh (suc n) id hs _)

  module _ (ssh : String → String → ℕ → String → Reply) (percent : ℕ → ℕ → ℕ) (max : ℕ) where
    abbrev pub targets : Operation → World O S H → List (String × Host)
    targets o w =
        keep (λ (e : String × Host). any (λ t. str_eq t e.0) o.target_hosts)
          (find_many H (λ h. true) w.hosts)

    -- The operation is processed: each of its hosts has a session of its own, which is stored for
    -- the operation and the host and ends as the host's commands say; all other sessions stay.
    pub record Processed (now : ℕ) (id : String) (o : Operation) (w w' : World O S H) : Type 0 where
      pub entries : List Entry
      pub one_each : map (λ (e : Entry). e.1) entries ≡ targets o w
      pub apart : IsApart entries
      pub owners :
          All
            (λ (e : Entry). session_owner O S H w' e.0 ≡ some (id, (some e.1.0, e.1.1.hostname)))
            entries
      pub statuses :
          All
            (λ (e : Entry). session_status O S H w' e.0 ≡ some (ended (session_error ssh o e.1.1)))
            entries
      pub others :
          (j : String)
          → (lists j entries ≡ true)
            ⊎ ((session_owner O S H w' j ≡ session_owner O S H w j)
                × (session_status O S H w' j ≡ session_status O S H w j))
      pub start : World O S H
      pub finished : Finished O S H ssh percent now id o entries start w'

    module _ (now : ℕ) (fresh : ℕ → String) (id : String) (o : Operation) (w : World O S H) where
      -- the entries, and the tables when their sessions have been made
      abbrev made : List Entry × World O S H
      made = create_sessions O S H fresh 0 id (targets o w) (record w {
        operations =
            amend O id (λ p. record p { status = WorkStatus.running; started_at = some now })
              w.operations;
      })

      abbrev final : World O S H
      final = run_sessions O S H ssh percent max now id o made.0 made.1

      made-find : (j : String) → S.find made.1.sessions j ≡ stored id made.0 j (S.find w.sessions j)
      made-find j = create_sessions-stored O S H fresh 0 id (targets o w) _ j

      made-listed :
          IsApart made.0
          → All (λ (e : Entry). S.find made.1.sessions e.0 ≡ some (new_session id e.1)) made.0
      made-listed a =
          All-map _ _ made.0 (λ e h. made-find e.0 ∙ h)
            (stored-listed id made.0 (S.find w.sessions) a)

      made-finished :
          0 < max
          → O.find w.operations id ≡ some o
          → Finished O S H ssh percent now id o made.0 made.1 final
      made-finished m e =
          let kept = create_sessions-operations fresh 0 id (targets o w) _ in
          let there : O.find made.1.operations id
              ≡ some (record o { status = WorkStatus.running; started_at = some now }) =
            ap (λ t. O.find t id) kept ∙ find-amend_self O id _ w.operations ∙ rw e refl in
          run_sessions-Finished O S H ssh percent max now id o made.0 made.1 m
            (record o { status = WorkStatus.running; started_at = some now }, there)

      made-others :
          Finished O S H ssh percent now id o made.0 made.1 final
          → (j : String)
          → (lists j made.0 ≡ true)
            ⊎ ((session_owner O S H final j ≡ session_owner O S H w j)
                × (session_status O S H final j ≡ session_status O S H w j))
      made-others f j = elim (Bool-cases (lists j made.0)) [
        | inl listed ↦ inl listed
        | inr other ↦
            let kept = made-find j ∙ stored-unlisted id made.0 j (S.find w.sessions j) other in
            inr (
              run_sessions-owner O S H ssh percent max now id o made.0 made.1 j
                  ∙ ap (on owner_of) kept,
              f.sessions_are j
                  ∙ after-unlisted O S H ssh o made.0 j _ other
                  ∙ ap (on (λ (s : Session). s.status)) kept,
            )
      ]

    process_operation-Processed :
        (now : ℕ) (fresh : ℕ → String) (id : String) (o : Operation) (w : World O S H)
        → 0 < max
        → ((i k : ℕ) → fresh i ≡ fresh k → i ≡ k)
        → O.find w.operations id ≡ some o
        → Processed now id o w (process_operation O S H ssh percent max now fresh id o w)
    unfolding process_operation
    process_operation-Processed now fresh id o w m inj e =
        let (es, w1) = made now fresh id o w in
        let apart = create_sessions-IsApart O S H fresh id (targets o w) _ inj in
        let rows = made-listed now fresh id o w apart in
        let f = made-finished now fresh id o w m e in
        record {
          entries = es;
          one_each = create_sessions-entries fresh 0 id (targets o w) _;
          apart = apart;
          owners =
              All-map _ _ es
                (λ d h.
                  run_sessions-owner O S H ssh percent max now id o es w1 d.0 ∙ ap (on owner_of) h)
                rows;
          statuses =
              All-map _ _ es (λ d h. f.sessions_are d.0 ∙ h)
                (after-listed O S H ssh o es (session_status O S H w1) apart (
                  All-map _ _ es
                    (λ d h. (SessionState.pending, ap (on (λ (s : Session). s.status)) h)) rows));
          others = made-others now fresh id o w f;
          start = w1;
          finished = f;
        }

    abbrev pub NextAnswer : ℕ → World O S H → World O S H → Option (String × Operation) → Type 0
    NextAnswer now w w' none = w' ≡ w
    NextAnswer now w w' (some (id, o)) =
        Listed O is_next w.operations (id, o)
        × All (NotOlder o) (find_many O is_next w.operations)
        × Processed now id o w w'

    -- With a positive number of sessions at once and a database that makes no two identifiers alike:
    -- `processNextOperation` does nothing where no operation is pending. Otherwise it takes a pending
    -- operation that is not for provisioning and that no other such one is older than, makes one
    -- session for each of its hosts that exist, and finishes it: each of these sessions is stored for
    -- its host and is completed or failed as the host's commands say, and all other sessions stay.
    pub process_next_operation-NextAnswer :
        (now : ℕ) (fresh : ℕ → String) (w : World O S H)
        → 0 < max
        → ((i k : ℕ) → fresh i ≡ fresh k → i ≡ k)
        → NextAnswer now w
            (process_next_operation O S H ssh percent max now fresh w)
            (oldest (find_many O is_next w.operations))
    unfolding process_next_operation
    process_next_operation-NextAnswer now fresh w m inj =
        answer (oldest (find_many O is_next w.operations)) (
          oldest-Oldest (Listed O is_next w.operations) (find_many O is_next w.operations)
            (find_many-Listed O is_next w.operations))
      where
        answer :
            (r : Option (String × Operation))
            → Oldest (Listed O is_next w.operations) (find_many O is_next w.operations) r
            → NextAnswer now w
                (elim r [
                  | none ↦ w
                  | some (id, o) ↦ process_operation O S H ssh percent max now fresh id o w
                ])
                r
        answer none t = refl
        answer (some (id, o)) ((e, y), t) =
            ((e, y), t, process_operation-Processed now fresh id o w m inj e)
