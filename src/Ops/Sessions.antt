-- ===== src/Ops/Sessions.antt =====
-- `updateSession`, `checkOperationCompletion`, `createOperation` and `cancelOperation`.
use linbo_docker.Base.{
  ℕ, ◌+◌, String, Bool, true, false, ◌&&◌, Option, none, some, List, [], ◌∷◌, map, ltb,
  if◌then◌else◌, length, Outcome, ok, err,
}
use linbo_docker.Ops.Data.{
  SessionStatus, queued, SessionError, Session, empty_session, OpStatus, pending, cancelling, Stats,
  OpHash, empty_op, over, exists, Host,
}
use linbo_docker.Ops.Redis.{Redis}

abbrev pub max_index_size : ℕ
max_index_size = 200

abbrev pub session_or_empty : Option Session → Session
session_or_empty none = empty_session
session_or_empty (some s) = s

abbrev pub is_running : SessionStatus → Bool
is_running SessionStatus.running = true
is_running _ = false

-- `['success', 'failed', 'cancelled'].includes(status)`
abbrev pub is_finished : SessionStatus → Bool
is_finished SessionStatus.success = true
is_finished SessionStatus.failed = true
is_finished SessionStatus.cancelled = true
is_finished _ = false

-- the object that `updateSession` writes back
unfoldable pub updated : ℕ → Session → SessionStatus → Option SessionError → Session
updated now s status error = record s {
  status = some status;
  started_at = if is_running status then some now else s.started_at;
  completed_at = if is_finished status then some now else s.completed_at;
  error = over s.error error;
}

abbrev pub is_queued : Option SessionStatus → Bool
is_queued (some SessionStatus.queued) = true
is_queued _ = false

abbrev pub cancelled_session : ℕ → Session → Session
cancelled_session now s = record s {
  status = some SessionStatus.cancelled;
  completed_at = some now;
}

-- The loop of `checkOperationCompletion`: the statistics, and `allDone`.
pub record Tally : Type 0 where
  pub all_done : Bool
  pub stats : Stats

abbrev pub count_session : Option SessionStatus → Tally → Tally
count_session (some SessionStatus.success) t = record t {
  stats = record (t.stats) { total = t.stats.total + 1; success = t.stats.success + 1 };
}
count_session (some SessionStatus.failed) t = record t {
  stats = record (t.stats) { total = t.stats.total + 1; failed = t.stats.failed + 1 };
}
count_session (some SessionStatus.cancelled) t = record t {
  stats = record (t.stats) { total = t.stats.total + 1; cancelled = t.stats.cancelled + 1 };
}
count_session other t = record t {
  all_done = false;
  stats = record (t.stats) { total = t.stats.total + 1 };
}

unfoldable pub tally_from : Tally → List Session → Tally
tally_from t [] = t
tally_from t (s ∷ ss) = tally_from (count_session s.status t) ss

abbrev pub no_stats : ℕ → Stats
no_stats n = record { total = n; success = 0; failed = 0; cancelled = 0 }

unfoldable pub tally : List Session → Tally
unfolding tally_from
tally = tally_from (record { all_done = true; stats = no_stats 0 })

pub data OpsError : Type 0 where
  operation_not_found : OpsError
  already : OpStatus → OpsError

-- `['completed', 'failed', 'cancelled'].includes(opData.status)`
abbrev pub is_over : Option OpStatus → Bool
is_over (some OpStatus.completed) = true
is_over (some OpStatus.failed) = true
is_over (some OpStatus.cancelled) = true
is_over _ = false

module _ (R : Redis) where
  open R use {Db, op, hmset, hkeys, hget, hset, zadd, trim_index}

  abbrev pub get_session : Db → String → String → Session
  get_session d id name = session_or_empty (hget d id name)

  unfoldable pub update_session :
      ℕ → String → String → SessionStatus → Option SessionError → Db → Db
  unfolding updated
  update_session now id name status error d =
      hset d id name (updated now (get_session d id name) status error)

  abbrev pub sessions : Db → String → List Session
  sessions d id = map (get_session d id) (hkeys d id)

  abbrev pub completion : ℕ → Tally → OpHash
  completion now t = record empty_op {
    status = some (if ltb 0 t.stats.cancelled then OpStatus.cancelled else OpStatus.completed);
    completed_at = some (some now);
    progress = some 100;
    stats = some t.stats;
  }

  unfoldable pub check_operation_completion : ℕ → String → Db → Db
  unfolding tally
  check_operation_completion now id d =
      let t = tally (sessions d id) in
      if t.all_done && ltb 0 t.stats.total then hmset d id (completion now t) else d

  -- `sessionsData`, written field by field
  unfoldable pub write_sessions : String → List Host → Db → Db
  write_sessions id [] d = d
  write_sessions id (h ∷ hs) d = write_sessions id hs (
      hset d id h.hostname (record {
        mac = some h.mac;
        ip = h.ip;
        status = some queued;
        error = none;
        started_at = none;
        completed_at = none;
      }))

  -- `id` is the fresh UUID
  unfoldable pub create_operation : ℕ → String → List Host → List String → String → Db → Db
  unfolding write_sessions
  create_operation now id hosts commands kind d =
      let d1 = hmset d id (record {
        kind = some kind;
        commands = some commands;
        target_hosts = some (map (λ h. h.hostname) hosts);
        status = some pending;
        cancel_requested = some false;
        progress = some 0;
        stats = some (no_stats (length hosts));
        created_at = some now;
        started_at = some none;
        completed_at = some none;
      }) in
      trim_index (zadd (write_sessions id hosts d1) now id) max_index_size

  -- the queued ones of the listed sessions, as `cancelOperation` finds them
  unfoldable pub cancel_queued : ℕ → String → List (String × Session) → Db → Db
  cancel_queued now id [] d = d
  cancel_queued now id ((name, s) ∷ rest) d =
      cancel_queued now id rest
        (if is_queued s.status then hset d id name (cancelled_session now s) else d)

  abbrev pub listed : Db → String → List (String × Session)
  listed d id = map (λ name. (name, get_session d id name)) (hkeys d id)

  abbrev pub request_cancel : String → Db → Db
  request_cancel id d =
      hmset d id (record empty_op { cancel_requested = some true; status = some cancelling })

  -- the part of `cancelOperation` behind its guards
  unfoldable pub cancel_sessions : ℕ → String → Db → Db
  unfolding cancel_queued
  cancel_sessions now id d = let d1 = request_cancel id d in cancel_queued now id (listed d1 id) d1

  abbrev already_over : Option OpStatus → Db → Outcome OpsError OpStatus × Db
  already_over none d = (err operation_not_found, d)
  already_over (some status) d = (err (already status), d)

  unfoldable pub cancel_operation : ℕ → String → Db → Outcome OpsError OpStatus × Db
  unfolding exists cancel_sessions check_operation_completion
  cancel_operation now id d =
      if exists (op d id)
      then (if is_over (op d id).status
          then already_over (op d id).status d
          else (ok cancelling, check_operation_completion now id (cancel_sessions now id d)))
      else (err operation_not_found, d)
