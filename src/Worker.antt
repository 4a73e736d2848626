-- ===== src/Worker.antt =====
-- containers/api/src/workers/operation.worker.js in standalone mode: the operation that is next, its
-- sessions, batch by batch, and cancelling and retrying. The tables are Tables.Table; SSH is a
-- parameter. The sessions of a batch write to rows of their own, and are processed in their order.
-- WebSocket messages and log output are left out.
pub mod Rows
pub mod Batches
pub mod Sessions
pub mod Owners
pub mod Made
pub mod Cancel
pub mod Runs
pub mod Overwritten
pub mod Retry
pub mod Oldest
pub mod Next
use text.Mathlib.Text.{◌==◌ as str_eq}
use linbo_docker.Base.{
  ℕ, zero, suc, ◌+◌, ◌*◌, String, Bool, true, false, not, ◌&&◌, ◌||◌, Option, none, some, List, [],
  ◌∷◌, ◌++◌, map, ltb, ◌==◌, if◌then◌else◌, length, take, drop, any, keep, Outcome, ok, err,
}
use linbo_docker.Tables.{Table, amend, find_many, amend_many}
use linbo_docker.Worker.Rows.{
  WorkStatus, WorkStats, Operation, SessionState, SessionError, Session, HostStatus, Host, Reply,
  exited, thrown, no_ip_address, command_failed, ssh_threw,
}

pub data WorkerError : Type 0 where
  operation_not_found already_finished no_failed_sessions : WorkerError

-- the rows of a batch
unfoldable pub batches {ℓ} : {A : Type ℓ} → ℕ → ℕ → List A → List (List A)
batches zero n xs = []
batches (suc fuel) n [] = []
batches (suc fuel) n (x ∷ xs) = take n (x ∷ xs) ∷ batches fuel n (drop n (x ∷ xs))

-- `results` counted: how many are fulfilled with `success`, and how many are not
unfoldable pub count_results : List Bool → ℕ × ℕ → ℕ × ℕ
count_results [] c = c
count_results (true ∷ rs) (completed, failed) = count_results rs (completed + 1, failed)
count_results (false ∷ rs) (completed, failed) = count_results rs (completed, failed + 1)

-- `{ status: 'pending', type: { not: 'provision_host' } }`
abbrev pub is_pending : WorkStatus → Bool
is_pending WorkStatus.pending = true
is_pending _ = false

abbrev pub is_next : Operation → Bool
is_next o = is_pending o.status && not (str_eq o.kind "provision_host")

abbrev pub is_waiting : SessionState → Bool
is_waiting SessionState.pending = true
is_waiting _ = false

abbrev pub has_failed : SessionState → Bool
has_failed SessionState.failed = true
has_failed _ = false

-- `orderBy: { createdAt: 'asc' }`, and the first of it
abbrev pub older : String → Operation → Option (String × Operation) → Option (String × Operation)
older k o none = some (k, o)
older k o (some (j, p)) = if ltb p.created_at o.created_at then some (j, p) else some (k, o)

unfoldable pub oldest : List (String × Operation) → Option (String × Operation)
oldest [] = none
oldest ((k, o) ∷ es) = older k o (oldest es)

-- `operation.commands[operation.commands.length - 1]`
unfoldable pub last_command : List String → Option String
last_command [] = none
last_command (c ∷ []) = some c
last_command (c ∷ d ∷ cs) = last_command (d ∷ cs)

abbrev pub status_after : Option String → HostStatus
status_after none = HostStatus.online
status_after (some c) =
    if str_eq c "sync" || str_eq c "initcache"
    then HostStatus.syncing
    else if str_eq c "start"
    then HostStatus.booting
    else if str_eq c "shutdown" || str_eq c "halt"
    then HostStatus.offline
    else HostStatus.online

abbrev pub final_status : ℕ → WorkStatus
final_status zero = WorkStatus.completed
final_status (suc n) = WorkStatus.completed_with_errors

-- `ssh options ip n command` answers the command at place n of an operation.
module _ (ssh : String → String → ℕ → String → Reply) where
  -- The loop over the commands: the error that ends it, or none.
  unfoldable pub run_commands : String → String → ℕ → List String → Option SessionError
  run_commands options ip n [] = none
  run_commands options ip n (c ∷ cs) = elim (ssh options ip n c) [
    | exited zero ↦ run_commands options ip (suc n) cs
    | exited (suc code) ↦ some (command_failed c)
    | thrown m ↦ some (ssh_threw m)
  ]

  -- what a session of this host comes to
  unfoldable pub session_error : Operation → Host → Option SessionError
  unfolding run_commands
  session_error o h = elim h.ip_address [
    | none ↦ some no_ip_address
    | some ip ↦ run_commands o.options ip 0 o.commands
  ]

abbrev pub succeeds : Option SessionError → Bool
succeeds none = true
succeeds (some e) = false

module _ (O : Table Operation) (S : Table Session) (H : Table Host) where
  pub record World : Type 0 where
    pub operations : O.Rows
    pub sessions : S.Rows
    pub hosts : H.Rows

  -- `failSession`
  unfoldable pub fail_session : ℕ → String → SessionError → World → World
  unfolding amend
  fail_session now sid e w = record w {
    sessions =
        amend S sid
          (λ s. record s {
            status = SessionState.failed;
            completed_at = some now;
            log_file = some e;
          })
          w.sessions;
  }

  unfoldable pub begin_session : ℕ → String → String → World → World
  unfolding amend
  begin_session now sid host w = record w {
    sessions =
        amend S sid (λ s. record s { status = SessionState.running; started_at = some now })
          w.sessions;
    hosts = amend H host (λ h. record h { status = HostStatus.busy }) w.hosts;
  }

  unfoldable pub set_host : ℕ → String → HostStatus → World → World
  unfolding amend
  set_host now host status w = record w {
    hosts = amend H host (λ h. record h { status = status; last_seen = some now }) w.hosts;
  }

  unfoldable pub complete_session : ℕ → String → World → World
  unfolding amend
  complete_session now sid w = record w {
    sessions =
        amend S sid
          (λ s. record s {
            status = SessionState.completed;
            completed_at = some now;
            progress = 100;
          })
          w.sessions;
  }

  -- the end of `processSession`, its `catch` included
  unfoldable pub end_session :
      ℕ → Operation → String → String → Option SessionError → World → Bool × World
  unfolding fail_session set_host complete_session last_command
  end_session now o sid host none w = (
    true,
    set_host now host (status_after (last_command o.commands)) (complete_session now sid w),
  )
  end_session now o sid host (some e) w =
      (false, set_host now host HostStatus.error (fail_session now sid e w))

  module _ (ssh : String → String → ℕ → String → Reply) where
    unfoldable pub process_session : ℕ → Operation → String → String × Host → World → Bool × World
    unfolding fail_session begin_session end_session run_commands
    process_session now o sid (host, row) w = elim row.ip_address [
      | none ↦ (false, fail_session now sid no_ip_address w)
      | some ip ↦
          end_session now o sid host (run_commands ssh o.options ip 0 o.commands)
            (begin_session now sid host w)
    ]

    -- `Promise.allSettled` over a batch
    unfoldable pub process_batch :
        ℕ → Operation → List (String × (String × Host)) → World → List Bool × World
    unfolding process_session
    process_batch now o [] w = ([], w)
    process_batch now o ((sid, h) ∷ rest) w =
        let first = process_session now o sid h w in
        let others = process_batch now o rest first.1 in (first.0 ∷ others.0, others.1)

    module _ (percent : ℕ → ℕ → ℕ) where
      unfoldable pub report_progress : String → ℕ → ℕ → World → World
      unfolding amend
      report_progress id done total w = record w {
        operations = amend O id (λ o. record o { progress = percent done total }) w.operations;
      }

      -- the loop over the batches
      unfoldable pub process_batches :
          ℕ
          → String
          → Operation
          → ℕ
          → List (List (String × (String × Host)))
          → ℕ × ℕ
          → World
          → (ℕ × ℕ) × World
      unfolding process_batch count_results report_progress
      process_batches now id o total [] c w = (c, w)
      process_batches now id o total (b ∷ bs) c w =
          let r = process_batch now o b w in
          let d = count_results r.0 c in
          process_batches now id o total bs d (report_progress id (d.0 + d.1) total r.1)

  unfoldable pub complete_operation : ℕ → String → ℕ → ℕ × ℕ → World → World
  unfolding amend
  complete_operation now id total (completed, failed) w = record w {
    operations =
        amend O id
          (λ o. record o {
            status = final_status failed;
            completed_at = some now;
            progress = 100;
            stats = some (record { total = total; completed = completed; failed = failed });
          })
          w.operations;
  }

  -- the loop that creates the sessions; `fresh n` is the identifier that the n-th gets
  unfoldable pub create_sessions :
      (ℕ → String)
      → ℕ
      → String
      → List (String × Host)
      → World
      → List (String × (String × Host)) × World
  create_sessions fresh n id [] w = ([], w)
  create_sessions fresh n id ((k, h) ∷ hs) w =
      let row : Session = record {
        operation_id = id;
        host_id = some k;
        hostname = h.hostname;
        status = SessionState.pending;
        progress = 0;
        started_at = none;
        completed_at = none;
        log_file = none;
      } in
      let rest =
        create_sessions fresh (suc n) id hs
          (record w { sessions = S.put (fresh n) row w.sessions }) in
      ((fresh n, (k, h)) ∷ rest.0, rest.1)

  module _ (ssh : String → String → ℕ → String → Reply) (percent : ℕ → ℕ → ℕ) (max : ℕ) where
    -- what stands behind the creation of the sessions; every round takes a session at least
    unfoldable pub run_sessions :
        ℕ → String → Operation → List (String × (String × Host)) → World → World
    unfolding batches process_batches complete_operation
    run_sessions now id o entries w =
        let r =
          process_batches ssh percent now id o (length entries)
            (batches (length entries) max entries) (0, 0) w in
        complete_operation now id (length entries) r.0 r.1

    -- `processNextOperation` on the operation that it found
    unfoldable pub process_operation : ℕ → (ℕ → String) → String → Operation → World → World
    unfolding amend find_many create_sessions run_sessions
    process_operation now fresh id o w =
        let w1 : World = record w {
          operations =
              amend O id (λ p. record p { status = WorkStatus.running; started_at = some now })
                w.operations;
        } in
        let is_target = λ (e : String × Host). any (λ t. str_eq t e.0) o.target_hosts in
        let targets = keep is_target (find_many H (λ h. true) w1.hosts) in
        let made = create_sessions fresh 0 id targets w1 in run_sessions now id o made.0 made.1

    unfoldable pub process_next_operation : ℕ → (ℕ → String) → World → World
    unfolding process_operation oldest find_many
    process_next_operation now fresh w = elim (oldest (find_many O is_next w.operations)) [
      | none ↦ w
      | some (id, o) ↦ process_operation now fresh id o w
    ]

  abbrev pub is_finished : WorkStatus → Bool
  is_finished WorkStatus.completed = true
  is_finished WorkStatus.cancelled = true
  is_finished _ = false

  abbrev pub is_pending_of : String → Session → Bool
  is_pending_of id s = str_eq s.operation_id id && is_waiting s.status

  unfoldable pub cancel_found : ℕ → String → World → World
  unfolding amend amend_many
  cancel_found now id w = record w {
    operations =
        amend O id (λ o. record o { status = WorkStatus.cancelled; completed_at = some now })
          w.operations;
    sessions =
        amend_many S (is_pending_of id)
          (λ s. record s { status = SessionState.cancelled; completed_at = some now }) w.sessions;
  }

  unfoldable pub cancel_operation : ℕ → String → World → Outcome WorkerError World
  unfolding cancel_found
  cancel_operation now id w = elim (O.find w.operations id) [
    | none ↦ err operation_not_found
    | some o ↦ if is_finished o.status then err already_finished else ok (cancel_found now id w)
  ]

  abbrev pub is_failed_of : String → Session → Bool
  is_failed_of id s = str_eq s.operation_id id && has_failed s.status

  -- `sessions.map(s => s.hostId).filter(Boolean)`
  unfoldable pub host_ids : List (String × Session) → List String
  host_ids [] = []
  host_ids ((k, s) ∷ es) = elim s.host_id [ none ↦ host_ids es | some h ↦ h ∷ host_ids es ]

  -- The table's default for the type is `sync`.
  abbrev pub again : ℕ → Operation → List String → Operation
  again now o failed = record {
    kind = "sync";
    options = o.options;
    status = WorkStatus.pending;
    target_hosts = failed;
    commands = o.commands;
    created_at = now;
    started_at = none;
    completed_at = none;
    progress = 0;
    stats = none;
  }

  unfoldable pub retry_found :
      ℕ → String → Operation → List (String × Session) → World → Outcome WorkerError World
  unfolding host_ids
  retry_found now new_id o [] w = err no_failed_sessions
  retry_found now new_id o (e ∷ es) w =
      ok (record w { operations = O.put new_id (again now o (host_ids (e ∷ es))) w.operations })

  -- `new_id` is the identifier that the database makes
  unfoldable pub retry_operation : ℕ → String → String → World → Outcome WorkerError World
  unfolding retry_found find_many
  retry_operation now new_id id w = elim (O.find w.operations id) [
    | none ↦ err operation_not_found
    | some o ↦ retry_found now new_id o (find_many S (is_failed_of id) w.sessions) w
  ]
