-- ===== src/Tests/Works.antt =====
-- Runs of the operation worker on tables in memory.
use Prim.Native.String.{count}
use Prim.Native.String.count as counts
use Prim.Native.String as Text
use linbo_docker.Base.{
  ℕ, zero, suc, ◌*◌, ◌/◌, String, ◌≡◌, refl, ap, Option, none, some, List, [], ◌∷◌, arith, ok,
}
use linbo_docker.Tables.{find_many}
use linbo_docker.Tests.Tables.{memory, find_in, put_in}
use linbo_docker.Worker.Rows.{
  WorkStatus, Operation, SessionState, Session, HostStatus, Host, Reply, exited,
}
use linbo_docker.Worker.{
  World, oldest, is_next, process_next_operation, run_sessions, cancel_operation, retry_operation,
}
use linbo_docker.Worker.Sessions.{Entry, session_status}
use linbo_docker.Worker.Runs.{Finished, run_sessions-Finished}
use linbo_docker.Worker.Overwritten.{Overwritten, run_sessions-cancelled}
use linbo_docker.Worker.Cancel.{CancelAnswer, cancel_operation-CancelAnswer}
use linbo_docker.Worker.Retry.{Retried, retry_operation-Retried}
use linbo_docker.Worker.Next.{NextAnswer, process_next_operation-NextAnswer}

abbrev TablesWorld : Type 0
TablesWorld = World (memory Operation) (memory Session) (memory Host)

abbrev reboot : Operation
reboot = record {
  kind = "sync";
  options = "{}";
  status = WorkStatus.pending;
  target_hosts = "h1" ∷ "h2" ∷ "h3" ∷ [];
  commands = "sync" ∷ "reboot" ∷ [];
  created_at = 3;
  started_at = none;
  completed_at = none;
  progress = 0;
  stats = none;
}

abbrev host_at : String → Option String → Host
host_at name ip = record {
  hostname = name;
  ip_address = ip;
  status = HostStatus.offline;
  last_seen = none;
}

abbrev start : TablesWorld
start = record {
  operations = ("op1", reboot) ∷ [];
  sessions = [];
  hosts =
      ("h1", host_at "pc01" (some "10.0.0.1"))
      ∷ ("h2", host_at "pc02" none)
      ∷ ("h3", host_at "pc03" (some "10.0.0.3"))
      ∷ [];
}

-- the second command fails where the options or the address say so: here, nowhere
abbrev all_well : String → String → ℕ → String → Reply
all_well options ip n command = exited 0

-- the identifiers are "", "x", "xx" and so on
abbrev fresh : ℕ → String
fresh zero = ""
fresh (suc n) = Text.◌∷◌ "x" (fresh n)

count-fresh : (n : ℕ) → count (fresh n) ≡ n
count-fresh zero = refl
count-fresh (suc n) = omega (arith, counts.cons "x" (fresh n), count-fresh n)

fresh-injective : (i k : ℕ) → fresh i ≡ fresh k → i ≡ k
fresh-injective i k h = omega (arith, count-fresh i, count-fresh k, ap count h)

abbrev percent_of : ℕ → ℕ → ℕ
percent_of a b = a * 100 / b

abbrev done : TablesWorld
done =
    process_next_operation (memory Operation) (memory Session) (memory Host) all_well percent_of 2 9
      fresh start

-- the second host has no address, so its session fails
second_session :
    session_status (memory Operation) (memory Session) (memory Host) done "x"
    ≡ some SessionState.failed
unfolding process_next_operation find_in put_in
second_session = refl

third_session :
    session_status (memory Operation) (memory Session) (memory Host) done "xx"
    ≡ some SessionState.completed
unfolding process_next_operation find_in put_in
third_session = refl

process_next_operation-NextAnswer_example :
    NextAnswer
      (memory Operation)
      (memory Session)
      (memory Host)
      all_well
      percent_of
      2
      9
      start
      done
      (oldest (find_many (memory Operation) is_next start.operations))
process_next_operation-NextAnswer_example =
    process_next_operation-NextAnswer (memory Operation) (memory Session) (memory Host) all_well
      percent_of 2 9 fresh start (omega arith) fresh-injective

cancel_operation-CancelAnswer_example :
    CancelAnswer
      (memory Operation)
      (memory Session)
      (memory Host)
      7
      "op1"
      start
      (some reboot)
      (cancel_operation (memory Operation) (memory Session) (memory Host) 7 "op1" start)
unfolding find_in
cancel_operation-CancelAnswer_example =
    cancel_operation-CancelAnswer (memory Operation) (memory Session) (memory Host) 7 "op1" start

abbrev waiting_session : Session
waiting_session = record {
  operation_id = "op1";
  host_id = some "h1";
  hostname = "pc01";
  status = SessionState.pending;
  progress = 0;
  started_at = none;
  completed_at = none;
  log_file = none;
}

abbrev waiting : TablesWorld
waiting = record start { sessions = ("s0", waiting_session) ∷ [] }

abbrev was_cancelled : TablesWorld
was_cancelled = record {
  operations = ("op1", record reboot { status = WorkStatus.cancelled; completed_at = some 7 }) ∷ [];
  sessions =
      ("s0", record waiting_session { status = SessionState.cancelled; completed_at = some 7 })
      ∷ [];
  hosts = start.hosts;
}

abbrev entries : List Entry
entries = ("s0", ("h1", host_at "pc01" (some "10.0.0.1"))) ∷ []

waiting-cancelled :
    cancel_operation (memory Operation) (memory Session) (memory Host) 7 "op1" waiting
    ≡ ok was_cancelled
unfolding cancel_operation find_in put_in
waiting-cancelled = refl

abbrev ran_cancelled : TablesWorld
ran_cancelled =
    run_sessions (memory Operation) (memory Session) (memory Host) all_well percent_of 2 9 "op1"
      reboot entries was_cancelled

session_waits : find_in waiting.sessions "s0" ≡ some waiting_session
unfolding find_in
session_waits = refl

run_sessions-cancelled_example :
    Overwritten
      (memory Operation)
      (memory Session)
      (memory Host)
      all_well
      percent_of
      "op1"
      "s0"
      was_cancelled
      ran_cancelled
run_sessions-cancelled_example =
    run_sessions-cancelled (memory Operation) (memory Session) (memory Host) all_well percent_of 2 7
      9 "op1" reboot entries waiting was_cancelled "s0" waiting_session (omega arith) session_waits
      refl refl waiting-cancelled

there : find_in start.operations "op1" ≡ some reboot
unfolding find_in
there = refl

run_sessions-Finished_example :
    Finished
      (memory Operation)
      (memory Session)
      (memory Host)
      all_well
      percent_of
      9
      "op1"
      reboot
      entries
      start
      (run_sessions
        (memory Operation)
        (memory Session)
        (memory Host)
        all_well
        percent_of
        2
        9
        "op1"
        reboot
        entries
        start)
run_sessions-Finished_example =
    run_sessions-Finished (memory Operation) (memory Session) (memory Host) all_well percent_of 2 9
      "op1" reboot entries start (omega arith) (reboot, there)

abbrev failed_before : TablesWorld
failed_before = record start {
  sessions = ("s0", record waiting_session { status = SessionState.failed }) ∷ [];
}

abbrev retried : TablesWorld
retried = record failed_before {
  operations =
      ("op1", reboot) ∷ ("op2", record reboot { target_hosts = "h1" ∷ []; created_at = 8 }) ∷ [];
}

failed-retried :
    retry_operation (memory Operation) (memory Session) (memory Host) 8 "op2" "op1" failed_before
    ≡ ok retried
unfolding retry_operation find_in put_in
failed-retried = refl

retry_operation-Retried_example :
    Retried (memory Operation) (memory Session) (memory Host) 8 "op2" "op1" failed_before retried
retry_operation-Retried_example =
    retry_operation-Retried (memory Operation) (memory Session) (memory Host) 8 "op2" "op1"
      failed_before retried failed-retried
