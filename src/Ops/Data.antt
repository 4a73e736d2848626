-- ===== src/Ops/Data.antt =====
-- The values that containers/api/src/services/sync-operations.service.js keeps in Redis. A JSON
-- text is modelled by the value that it holds, and a time stamp by its milliseconds.
use linbo_docker.Base.{ℕ, String, Bool, true, false, ◌||◌, Option, none, some, List}

pub data SessionStatus : Type 0 where
  queued running success failed cancelled : SessionStatus

-- the texts that a session's `error` can hold
pub data SessionError : Type 0 where
  no_ip_address not_online : SessionError
  stderr thrown : String → SessionError
  exit_code : Option ℕ → SessionError

-- One field of the hash `ops:op:{id}:sessions`. A field is `none` where the object lacks it.
pub record Session : Type 0 where
  pub mac : Option String
  pub ip : Option String
  pub status : Option SessionStatus
  pub error : Option SessionError
  pub started_at : Option ℕ
  pub completed_at : Option ℕ

-- the fallback `{}` of `safeJsonParse`
abbrev pub empty_session : Session
empty_session = record {
  mac = none;
  ip = none;
  status = none;
  error = none;
  started_at = none;
  completed_at = none;
}

pub data OpStatus : Type 0 where
  pending running cancelling completed failed cancelled completed_with_errors : OpStatus

pub record Stats : Type 0 where
  pub total : ℕ
  pub success : ℕ
  pub failed : ℕ
  pub cancelled : ℕ

-- The hash `ops:op:{id}`. A field is `none` where the hash lacks it; a hash that lacks all of
-- them is a missing key. The empty text of `startedAt` and `completedAt` is `some none`.
pub record OpHash : Type 0 where
  pub kind : Option String
  pub commands : Option (List String)
  pub target_hosts : Option (List String)
  pub status : Option OpStatus
  pub cancel_requested : Option Bool
  pub progress : Option ℕ
  pub stats : Option Stats
  pub created_at : Option ℕ
  pub started_at : Option (Option ℕ)
  pub completed_at : Option (Option ℕ)

abbrev pub empty_op : OpHash
empty_op = record {
  kind = none;
  commands = none;
  target_hosts = none;
  status = none;
  cancel_requested = none;
  progress = none;
  stats = none;
  created_at = none;
  started_at = none;
  completed_at = none;
}

abbrev pub over {ℓ} : {A : Type ℓ} → Option A → Option A → Option A
over old none = old
over old (some a) = some a

-- HMSET: the fields given are written, the others stay.
abbrev pub merge : OpHash → OpHash → OpHash
merge h u = record {
  kind = over h.kind u.kind;
  commands = over h.commands u.commands;
  target_hosts = over h.target_hosts u.target_hosts;
  status = over h.status u.status;
  cancel_requested = over h.cancel_requested u.cancel_requested;
  progress = over h.progress u.progress;
  stats = over h.stats u.stats;
  created_at = over h.created_at u.created_at;
  started_at = over h.started_at u.started_at;
  completed_at = over h.completed_at u.completed_at;
}

-- `Object.keys(opData).length === 0`; every hash that the service creates has a status.
abbrev pub is_some {ℓ} : {A : Type ℓ} → Option A → Bool
is_some none = false
is_some (some a) = true

unfoldable pub exists : OpHash → Bool
exists h =
    is_some h.kind
    || is_some h.commands
    || is_some h.target_hosts
    || is_some h.status
    || is_some h.cancel_requested
    || is_some h.progress
    || is_some h.stats
    || is_some h.created_at
    || is_some h.started_at
    || is_some h.completed_at

-- A host of the sync cache; `ip` is `none` where the code's test `!ip` passes.
pub record Host : Type 0 where
  pub mac : String
  pub hostname : String
  pub ip : Option String
  pub hostgroup : Option String
  pub room : Option String
