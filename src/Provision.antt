-- ===== src/Provision.antt =====
-- containers/api/src/services/provisioning.service.js: the jobs that bring hosts to the domain
-- controller, and the status of the hosts. The tables of operations of the type `provision_host`
-- and of hosts are interfaces; the two Redis streams are lists; WebSocket messages and log output
-- are left out. The words of the status and the answers are those of the jobs for machine accounts.
pub mod Reports
pub mod Once
use text.Mathlib.Text.{◌==◌ as ◌=s◌}
use linbo_docker.Base.{
  ℕ, ◌+◌, String, Bool, true, false, ◌&&◌, Option, none, some, List, [], ◌∷◌, ◌++◌, leb,
  if◌then◌else◌, Outcome, ok, err,
}
use linbo_docker.Macct.{
  JobStatus, JobError, retries_exceeded, is_active, given, starts, ends, school_of, max_retries,
  RetryAnswer, retried, moved_to_dlq,
}
use linbo_docker.Tables.{Table, find_many, amend}

-- `hostData`; a missing text is the empty one
pub record HostData : Type 0 where
  pub hostname : String
  pub mac_address : String
  pub ip_address : String
  pub csv_col0 : String
  pub config_name : String
  pub host_id : Option String

-- `extraOptions` with the keys that the callers in containers/api/src/routes give: `oldHostname`
-- of `hosts.js`, `triggeredBy` and `requestedBy` of `operations.js`. A key that is not given is none.
pub record ExtraOptions : Type 0 where
  pub old_hostname : Option String
  pub triggered_by : Option String
  pub requested_by : Option String

pub record Options : Type 0 where
  pub action : String
  pub host : HostData
  pub pxe_flag : Bool
  pub dry_run : Bool
  pub extra : ExtraOptions

-- the result that a worker reports: `dryRun === true`, and the rest as a text
pub record Result : Type 0 where
  pub was_dry_run : Bool
  pub details : String

pub record Operation : Type 0 where
  pub target_host : String
  pub school : String
  pub options : Options
  pub status : JobStatus
  pub attempt : ℕ
  pub result : Option Result
  pub error : Option JobError
  pub created_at : ℕ
  pub started_at : Option ℕ
  pub completed_at : Option ℕ

pub data ProvisionStatus : Type 0 where
  pending running synced failed : ProvisionStatus

-- the two fields of a host that the service writes
pub record Host : Type 0 where
  pub provision_status : Option ProvisionStatus
  pub provision_op_id : Option String

pub record Message : Type 0 where
  pub operation_id : String
  pub action : String
  pub school_name : String
  pub attempt_no : ℕ
  pub created : ℕ

-- `dlqData`; `last_error` is none for the words 'Unknown error'
pub record DeadLetter : Type 0 where
  pub operation_id : String
  pub dead_host : String
  pub school_name : String
  pub attempt_no : ℕ
  pub last_error : Option JobError

-- a report of the worker; a field that is none is not in the report
pub record Report : Type 0 where
  pub new_status : Option JobStatus
  pub new_result : Option (Option Result)
  pub new_error : Option (Option JobError)
  pub new_attempt : Option ℕ

pub data ProvisionError : Type 0 where
  operation_not_found : ProvisionError

pub data Creation : Type 0 where
  already_queued : String → Operation → Creation
  queued : String → Operation → Creation

abbrev same_id : Option String → Option String → Bool
same_id none b = false
same_id (some a) none = false
same_id (some a) (some b) = a =s b

abbrev pub for_host : String → String → Operation → Bool
for_host action hostname o = o.target_host =s hostname && o.options.action =s action

abbrev pub by_host_id : String → Option String → String → Operation → Bool
by_host_id action none hostname o = for_host action hostname o
by_host_id action (some id) hostname o =
    o.options.action =s action && same_id o.options.host.host_id (some id)

-- `_buildDedupWhere`
unfoldable pub dedup_where : String → HostData → Operation → Bool
dedup_where action h o =
    is_active o.status
    && (if action =s "delete"
        then for_host action h.hostname o
        else by_host_id action h.host_id h.hostname o)

abbrev pub options_of : HostData → String → ExtraOptions → Bool → Options
options_of h action extra dry = record {
  action = action;
  host = h;
  pxe_flag = if h.config_name =s "" then false else true;
  dry_run = dry;
  extra = extra;
}

abbrev pub new_operation : ℕ → HostData → String → ExtraOptions → Bool → Operation
new_operation now h action extra dry = record {
  target_host = h.hostname;
  school = "default-school";
  options = options_of h action extra dry;
  status = JobStatus.pending;
  attempt = 0;
  result = none;
  error = none;
  created_at = now;
  started_at = none;
  completed_at = none;
}

-- `_publishToStream`
abbrev pub message_of : String → Operation → Message
message_of id o = record {
  operation_id = id;
  action = o.options.action;
  school_name = school_of o.school;
  attempt_no = o.attempt;
  created = o.created_at;
}

abbrev pub letter_of : String → Operation → DeadLetter
letter_of id o = record {
  operation_id = id;
  dead_host = o.target_host;
  school_name = school_of o.school;
  attempt_no = o.attempt;
  last_error = o.error;
}

abbrev pub reported_operation : ℕ → Report → Operation → Operation
reported_operation now r o = record o {
  status = given r.new_status o.status;
  result = given r.new_result o.result;
  error = given r.new_error o.error;
  attempt = given r.new_attempt o.attempt;
  started_at = if starts r.new_status then some now else o.started_at;
  completed_at = if ends r.new_status then some now else o.completed_at;
}

-- `result?.dryRun === true`
abbrev pub is_dry : Option (Option Result) → Bool
is_dry (some (some r)) = r.was_dry_run
is_dry _ = false

-- `hostStatus`
unfoldable pub host_status : Report → Option ProvisionStatus
host_status r = elim r.new_status [
  | some JobStatus.running ↦ some ProvisionStatus.running
  | some JobStatus.completed ↦
      some (if is_dry r.new_result then ProvisionStatus.pending else ProvisionStatus.synced)
  | some JobStatus.failed ↦ some ProvisionStatus.failed
  | _ ↦ none
]

abbrev pub first {ℓ} : {A : Type ℓ} → List A → Option A
first [] = none
first (x ∷ xs) = some x

module _ (O : Table Operation) (H : Table Host) where
  pub record State : Type 0 where
    pub operations : O.Rows
    pub hosts : H.Rows
    pub jobs : List Message
    pub dead_letters : List DeadLetter

  -- `findFirst`, without an order
  abbrev pub find_first : (Operation → Bool) → O.Rows → Option (String × Operation)
  find_first p t = first (find_many O p t)

  abbrev pub publish : String → Operation → State → State
  publish id o s = record s {
    operations = O.put id o s.operations;
    jobs = s.jobs ++ message_of id o ∷ [];
  }

  -- `id` is the identifier that the database makes
  unfoldable pub create_provision_job :
      ℕ → String → Bool → HostData → String → ExtraOptions → State → Creation × State
  unfolding find_many dedup_where
  create_provision_job now id dry h action extra s =
      elim (find_first (dedup_where action h) s.operations) [
        | some (k, o) ↦ (already_queued k o, s)
        | none ↦ let o = new_operation now h action extra dry in (queued id o, publish id o s)
      ]

  abbrev pub provisioned : ProvisionStatus → String → Host → Host
  provisioned status id h = record { provision_status = some status; provision_op_id = some id }

  -- a missing host (P2025) is passed over
  unfoldable pub sync_host_provision_status :
      Option String → String → Option ProvisionStatus → H.Rows → H.Rows
  unfolding amend
  sync_host_provision_status none id status t = t
  sync_host_provision_status (some host) id none t = t
  sync_host_provision_status (some host) id (some status) t = amend H host (provisioned status id) t

  unfoldable pub update_provision_status :
      ℕ → String → Report → State → Outcome ProvisionError Operation × State
  unfolding sync_host_provision_status host_status
  update_provision_status now id r s = elim (O.find s.operations id) [
    | none ↦ (err operation_not_found, s)
    | some o ↦ (
      ok (reported_operation now r o),
      record s {
        operations = O.put id (reported_operation now r o) s.operations;
        hosts = sync_host_provision_status o.options.host.host_id id (host_status r) s.hosts;
      },
    )
  ]

  abbrev pub dead_operation : Operation → Operation
  dead_operation o = record o { status = JobStatus.failed; error = some retries_exceeded }

  abbrev pub retried_operation : Operation → Operation
  retried_operation o = record o {
    status = JobStatus.retrying;
    attempt = o.attempt + 1;
    error = none;
  }

  -- `_moveToDLQ`
  unfoldable pub move_to_dlq : String → Operation → State → State
  move_to_dlq id o s = record s {
    operations = O.put id (dead_operation o) s.operations;
    dead_letters = s.dead_letters ++ letter_of id o ∷ [];
  }

  unfoldable pub retry_provision_job : String → State → Outcome ProvisionError RetryAnswer × State
  unfolding move_to_dlq
  retry_provision_job id s = elim (O.find s.operations id) [
    | none ↦ (err operation_not_found, s)
    | some o ↦
        if leb max_retries o.attempt
        then (ok moved_to_dlq, move_to_dlq id o s)
        else (ok (retried (o.attempt + 1)), publish id (retried_operation o) s)
  ]
