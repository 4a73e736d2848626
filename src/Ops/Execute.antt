-- ===== src/Ops/Execute.antt =====
-- `executeDirectCommands` of containers/api/src/services/sync-operations.service.js: the handler
-- of one host, the hosts in turn, and the final status. What the SSH service answers for an
-- address is the argument `ssh`; `percent done total` is `Math.round((done / total) * 100)`, an
-- operation on floats. Each host runs to its end before the next one starts.
use linbo_docker.Base.{
  ℕ, ◌+◌, String, Bool, true, false, ◌&&◌, Option, none, some, List, [], ◌∷◌, ◌==◌, ltb,
  if◌then◌else◌, length,
}
use linbo_docker.Ops.Data.{
  SessionStatus, SessionError, no_ip_address, not_online, stderr, thrown, exit_code, OpStatus,
  Stats, empty_op, Host,
}
use linbo_docker.Ops.Redis.{Redis}
use linbo_docker.Ops.Sessions.{
  no_stats, is_queued, cancelled_session, get_session, update_session, create_operation,
}

-- How `testConnection` and `executeCommand` end: no connection, an exception with its message,
-- or an exit code with the text on the error stream. A text is `none` if it is empty, and a code
-- is `none` if it is null.
pub data Ssh : Type 0 where
  offline : Ssh
  throws : Option String → Ssh
  exits : Option ℕ → Option String → Ssh

-- the status and the error that the host's session ends with
abbrev pub exit_error : Option ℕ → Option String → SessionError
exit_error code none = exit_code code
exit_error code (some text) = stderr text

abbrev pub is_zero : Option ℕ → Bool
is_zero none = false
is_zero (some n) = n == 0

unfoldable pub ssh_status : Ssh → SessionStatus
ssh_status offline = SessionStatus.failed
ssh_status (throws message) = SessionStatus.failed
ssh_status (exits code text) = if is_zero code then SessionStatus.success else SessionStatus.failed

unfoldable pub ssh_error : Ssh → Option SessionError
ssh_error offline = some not_online
ssh_error (throws none) = none
ssh_error (throws (some message)) = some (thrown message)
ssh_error (exits code text) = if is_zero code then none else some (exit_error code text)

abbrev pub count_status : SessionStatus → Stats → Stats
count_status SessionStatus.success t = record t { success = t.success + 1 }
count_status SessionStatus.failed t = record t { failed = t.failed + 1 }
count_status SessionStatus.cancelled t = record t { cancelled = t.cancelled + 1 }
count_status _ t = t

abbrev pub is_set : Option Bool → Bool
is_set (some true) = true
is_set _ = false

abbrev pub done_of : Stats → ℕ
done_of t = t.success + t.failed + t.cancelled

unfoldable pub final_status : Stats → OpStatus
final_status t =
    if t.failed == 0 && t.cancelled == 0
    then OpStatus.completed
    else if t.success == 0 && t.cancelled == 0
    then OpStatus.failed
    else if ltb 0 t.cancelled
    then OpStatus.cancelled
    else OpStatus.completed_with_errors

module _ (R : Redis) (percent : ℕ → ℕ → ℕ) (ssh : String → Ssh) where
  open R use {Db, op, hmset, hset}

  -- the operation's hash and its sessions, with the statistics that the handlers share
  pub record Run : Type 0 where
    pub db : Db
    pub stats : Stats

  abbrev pub report : String → Stats → Db → Db
  report id t d =
      hmset d id (record empty_op { progress = some (percent (done_of t) t.total); stats = some t })

  -- the `try` and `catch`, and the progress behind them
  unfoldable pub connect : ℕ → String → String → String → Run → Run
  unfolding update_session ssh_status ssh_error
  connect now id name ip r =
      let answer = ssh ip in
      let t = count_status (ssh_status answer) r.stats in
      let d1 = update_session R now id name SessionStatus.running none r.db in
      record {
        db = report id t (update_session R now id name (ssh_status answer) (ssh_error answer) d1);
        stats = t;
      }

  unfoldable pub with_ip : ℕ → String → String → Option String → Run → Run
  unfolding connect update_session
  with_ip now id name none r = record {
    db = update_session R now id name SessionStatus.failed (some no_ip_address) r.db;
    stats = count_status SessionStatus.failed r.stats;
  }
  with_ip now id name (some ip) r = connect now id name ip r

  -- the handler of one host
  unfoldable pub run_host : ℕ → String → Host → Run → Run
  unfolding with_ip
  run_host now id h r =
      let s = get_session R r.db id h.hostname in
      if is_set (op r.db id).cancel_requested && is_queued s.status
      then record {
        db = hset r.db id h.hostname (cancelled_session now s);
        stats = count_status SessionStatus.cancelled r.stats;
      }
      else with_ip now id h.hostname h.ip r

  unfoldable pub run_hosts : ℕ → String → List Host → Run → Run
  unfolding run_host
  run_hosts now id [] r = r
  run_hosts now id (h ∷ hs) r = run_hosts now id hs (run_host now id h r)

  abbrev pub mark_running : ℕ → String → Db → Db
  mark_running now id d =
      hmset d id (record empty_op { status = some OpStatus.running; started_at = some (some now) })

  -- the writes under `// Finalize`
  abbrev pub finalize : ℕ → String → Run → Db
  finalize now id r = hmset r.db id (record empty_op {
    status = some (final_status r.stats);
    completed_at = some (some now);
    progress = some 100;
    stats = some r.stats;
  })

  -- `executeDirectCommands` behind the validation of the commands and the choice of the hosts
  unfoldable pub execute_on : ℕ → String → List Host → String → Db → Db
  unfolding create_operation run_hosts final_status
  execute_on now id hosts commands d =
      let d1 = create_operation R now id hosts (commands ∷ []) "direct" d in
      finalize now id (
        run_hosts now id hosts
          (record { db = mark_running now id d1; stats = no_stats (length hosts) }))
