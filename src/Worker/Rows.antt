-- ===== src/Worker/Rows.antt =====
-- The rows that containers/api/src/workers/operation.worker.js reads and writes. A null is `none`.
use linbo_docker.Base.{ℕ, String, Option, List}

pub data WorkStatus : Type 0 where
  pending running completed completed_with_errors failed cancelled : WorkStatus

pub record WorkStats : Type 0 where
  pub total : ℕ
  pub completed : ℕ
  pub failed : ℕ

-- `options` is the JSON object that is handed on to SSH.
pub record Operation : Type 0 where
  pub kind : String
  pub options : String
  pub status : WorkStatus
  pub target_hosts : List String
  pub commands : List String
  pub created_at : ℕ
  pub started_at : Option ℕ
  pub completed_at : Option ℕ
  pub progress : ℕ
  pub stats : Option WorkStats

pub data SessionState : Type 0 where
  pending running completed failed cancelled : SessionState

-- the texts that are kept in `logFile`
pub data SessionError : Type 0 where
  no_ip_address : SessionError
  command_failed ssh_threw : String → SessionError

pub record Session : Type 0 where
  pub operation_id : String
  pub host_id : Option String
  pub hostname : String
  pub status : SessionState
  pub progress : ℕ
  pub started_at : Option ℕ
  pub completed_at : Option ℕ
  pub log_file : Option SessionError

pub data HostStatus : Type 0 where
  online offline busy syncing booting error : HostStatus

-- an empty address is `none` too
pub record Host : Type 0 where
  pub hostname : String
  pub ip_address : Option String
  pub status : HostStatus
  pub last_seen : Option ℕ

-- the answer of `executeLinboCommand`: an exit code, or an exception with its message
pub data Reply : Type 0 where
  exited : ℕ → Reply
  thrown : String → Reply
