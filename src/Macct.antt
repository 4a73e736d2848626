-- ===== src/Macct.antt =====
-- containers/api/src/services/macct.service.js: jobs that repair machine accounts. The table of
-- operations (Prisma) and the two Redis streams are an interface; WebSocket messages are left out.
pub mod Retries
pub mod Once
use text.Mathlib.Text.{◌==◌ as ◌=s◌}
use linbo_docker.Base.{
  ℕ, suc, ◌+◌, String, ◌≡◌, Bool, true, false, Option, none, some, List, [], ◌∷◌, ◌++◌, leb,
  if◌then◌else◌, Outcome, ok, err,
}

-- The worker on the domain controller reports its own words too.
pub data JobStatus : Type 0 where
  pending running retrying completed failed : JobStatus
  other : String → JobStatus

pub data JobError : Type 0 where
  reported : String → JobError
  retries_exceeded : JobError

-- an operation of the type `macct_repair`
pub record Job : Type 0 where
  pub id : String
  pub target_host : String
  pub school : String
  pub status : JobStatus
  pub attempt : ℕ
  pub result_text : Option String
  pub error : Option JobError
  pub created_at : ℕ
  pub started_at : Option ℕ
  pub completed_at : Option ℕ

-- `status: { in: ['pending', 'running', 'retrying'] }`
abbrev pub is_active : JobStatus → Bool
is_active JobStatus.pending = true
is_active JobStatus.running = true
is_active JobStatus.retrying = true
is_active _ = false

-- what is written to the streams
pub record Message : Type 0 where
  pub operation_id : String
  pub host : String
  pub school_name : String
  pub attempt_no : ℕ
  pub last_error : Option JobError

-- The database and the streams. `put` writes a row, a new one or one that is there already;
-- `find_active` is the `findFirst` of `createMacctRepairJob`.
pub record Jobs : Type 1 where
  pub Db : Type 0
  pub find : Db → String → Option Job
  pub find_active : Db → String → Option Job
  pub put : Job → Db → Db
  pub jobs_stream : Db → List Message
  pub dead_stream : Db → List Message
  pub publish : Message → Db → Db
  pub bury : Message → Db → Db
  pub find-put :
      (j : Job) (d : Db) (i : String) → find (put j d) i ≡ (if j.id =s i then some j else find d i)
  pub find-publish : (m : Message) (d : Db) (i : String) → find (publish m d) i ≡ find d i
  pub find-bury : (m : Message) (d : Db) (i : String) → find (bury m d) i ≡ find d i
  pub find-id : (d : Db) (i : String) (j : Job) → find d i ≡ some j → j.id ≡ i
  pub find_active-some :
      (d : Db) (h : String) (j : Job)
      → find_active d h ≡ some j
      → (j.target_host ≡ h) × (is_active j.status ≡ true)
  pub find_active-none :
      (d : Db) (h i : String) (j : Job)
      → find_active d h ≡ none
      → find d i ≡ some j
      → j.target_host ≡ h
      → is_active j.status ≡ false
  pub jobs-put : (j : Job) (d : Db) → jobs_stream (put j d) ≡ jobs_stream d
  pub jobs-publish : (m : Message) (d : Db) → jobs_stream (publish m d) ≡ jobs_stream d ++ m ∷ []
  pub jobs-bury : (m : Message) (d : Db) → jobs_stream (bury m d) ≡ jobs_stream d
  pub dead-put : (j : Job) (d : Db) → dead_stream (put j d) ≡ dead_stream d
  pub dead-publish : (m : Message) (d : Db) → dead_stream (publish m d) ≡ dead_stream d
  pub dead-bury : (m : Message) (d : Db) → dead_stream (bury m d) ≡ dead_stream d ++ m ∷ []

abbrev pub max_retries : ℕ
max_retries = 3

-- `operation.school || 'default-school'`
abbrev pub school_of : String → String
school_of s = if s =s "" then "default-school" else s

-- `jobData` and `dlqData`; `last_error` is none for the words 'Unknown error'
abbrev pub message_of : Job → Option JobError → Message
message_of j e = record {
  operation_id = j.id;
  host = j.target_host;
  school_name = school_of j.school;
  attempt_no = j.attempt;
  last_error = e;
}

-- `already queued` with the job found, or the new job
pub data Creation : Type 0 where
  already_queued : Job → Creation
  queued : Job → Creation

-- Prisma's `update` throws on a missing row; `retryJob` throws `Operation not found` itself.
pub data MacctError : Type 0 where
  operation_not_found : MacctError

-- the two answers of `retryJob`
pub data RetryAnswer : Type 0 where
  retried : ℕ → RetryAnswer
  moved_to_dlq : RetryAnswer

-- a report of the worker; a field that is none is not in the report
pub record Report : Type 0 where
  pub new_status : Option JobStatus
  pub new_result : Option (Option String)
  pub new_error : Option (Option JobError)
  pub new_attempt : Option ℕ

abbrev pub given {ℓ} : {A : Type ℓ} → Option A → A → A
given none old = old
given (some new) old = new

abbrev pub starts : Option JobStatus → Bool
starts (some JobStatus.running) = true
starts _ = false

abbrev pub ends : Option JobStatus → Bool
ends (some JobStatus.completed) = true
ends (some JobStatus.failed) = true
ends _ = false

abbrev pub reported_job : ℕ → Report → Job → Job
reported_job now r j = record j {
  status = given r.new_status j.status;
  result_text = given r.new_result j.result_text;
  error = given r.new_error j.error;
  attempt = given r.new_attempt j.attempt;
  started_at = if starts r.new_status then some now else j.started_at;
  completed_at = if ends r.new_status then some now else j.completed_at;
}

module _ (J : Jobs) where
  open J use {Db, find, find_active, put, publish, bury}

  abbrev pub new_job : ℕ → String → String → String → Job
  new_job now id host school = record {
    id = id;
    target_host = host;
    school = school;
    status = JobStatus.pending;
    attempt = 0;
    result_text = none;
    error = none;
    created_at = now;
    started_at = none;
    completed_at = none;
  }

  -- `id` is the identifier that the database makes
  unfoldable pub create_macct_repair_job : ℕ → String → String → String → Db → Creation × Db
  create_macct_repair_job now id host school d = elim (find_active d host) [
    | some j ↦ (already_queued j, d)
    | none ↦ let j = new_job now id host school in (queued j, publish (message_of j none) (put j d))
  ]

  unfoldable pub update_operation_status : ℕ → String → Report → Db → Outcome MacctError Job × Db
  update_operation_status now id r d = elim (find d id) [
    | none ↦ (err operation_not_found, d)
    | some j ↦ (ok (reported_job now r j), put (reported_job now r j) d)
  ]

  abbrev pub dead_job : Job → Job
  dead_job j = record j { status = JobStatus.failed; error = some retries_exceeded }

  abbrev pub retried_job : Job → Job
  retried_job j = record j { status = JobStatus.retrying; attempt = j.attempt + 1; error = none }

  unfoldable pub move_to_dlq : Job → Db → Db
  move_to_dlq j d = put (dead_job j) (bury (message_of j j.error) d)

  unfoldable pub retry_found : Job → Db → RetryAnswer × Db
  unfolding move_to_dlq
  retry_found j d = if leb max_retries j.attempt then (moved_to_dlq, move_to_dlq j d) else (
    retried (j.attempt + 1),
    publish (message_of (retried_job j) none) (put (retried_job j) d),
  )

  unfoldable pub retry_job : String → Db → Outcome MacctError RetryAnswer × Db
  unfolding retry_found
  retry_job id d = elim (find d id) [
    | none ↦ (err operation_not_found, d)
    | some j ↦ (ok (retry_found j d).0, (retry_found j d).1)
  ]
