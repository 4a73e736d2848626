-- ===== src/Tests/Operations.antt =====
-- Runs of Ops over the store in memory.
use linbo_docker.Base.{
  ℕ, ◌*◌, ◌/◌, ◌≡◌, ◌↔◌, refl, Bool, true, false, String, Option, none, some, List, [], ◌∷◌, ok,
  any, all, length, ltb, arith, ◌&&◌, if◌then◌else◌,
}
use text.Mathlib.Text.{◌==◌ as str_eq}
use linbo_docker.Ops.Data.{
  SessionStatus, OpStatus, cancelling, completed_with_errors, Stats, Host, exists, is_some,
}
use linbo_docker.Ops.Sessions.{
  is_queued, is_over, create_operation, cancel_operation, no_stats, sessions,
  check_operation_completion, tally,
}
use linbo_docker.Ops.Execute.{
  Ssh, offline, exits, ssh_status, count_status, done_of, final_status, Run, execute_on, run_host,
  mark_running,
}
use linbo_docker.Ops.Results.{status_of}
use linbo_docker.Ops.Finished.{execute_on-results, execute_on-counts, count_results, last_result}
use linbo_docker.Ops.Cancelling.{after_cancel, cancel_operation-statuses}
use linbo_docker.Ops.CancelThenRun.{run_host-cancelled, cancelled_run}
use linbo_docker.Ops.Completion.{check_operation_completion_lem, is_ended, closing_status}
use linbo_docker.Ops.Reopened.{cancel_operation_reopens, HasResults}
use linbo_docker.Tests.Memory.{Store, lookup, insert, memory, empty_store}

abbrev percent : ℕ → ℕ → ℕ
percent done total = done * 100 / total

abbrev host : String → Option String → Host
host name ip = record { mac = "aa"; hostname = name; ip = ip; hostgroup = none; room = none }

abbrev hosts : List Host
hosts = host "pc1" (some "10.0.0.1") ∷ host "pc2" (some "10.0.0.2") ∷ host "pc3" none ∷ []

abbrev ssh : String → Ssh
ssh ip = if str_eq ip "10.0.0.1" then exits (some 0) none else offline

-- one success, one host that is not online, one without an address
abbrev mixed : Store
mixed = execute_on memory percent ssh 7 "op" hosts "sync:1" empty_store

mixed_stats :
    (memory.op mixed "op").stats
    ≡ some (record { total = 3; success = 1; failed = 2; cancelled = 0 })
unfolding execute_on lookup insert
mixed_stats = refl

mixed_status : (memory.op mixed "op").status ≡ some completed_with_errors
unfolding execute_on lookup insert
mixed_status = refl

abbrev outcomes : Stats
outcomes = count_results memory percent ssh hosts (no_stats 3)

execute_on-results_example :
    ((memory.op mixed "op").stats ≡ some outcomes)
    × ((memory.op mixed "op").status ≡ some (final_status outcomes))
    × ((memory.op mixed "op").progress ≡ some 100)
    × ((name : String)
        → any (λ h. str_eq h.hostname name) hosts ≡ true
        → status_of memory mixed "op" name ≡ last_result memory percent ssh hosts name none)
execute_on-results_example = execute_on-results memory percent ssh 7 "op" hosts "sync:1" empty_store

execute_on-counts_example :
    (t : Stats) × ((memory.op mixed "op").stats ≡ some t)
    × (done_of t ≡ 3)
    × (t.total ≡ 3)
    × (((memory.op mixed "op").status ≡ some OpStatus.completed) ↔ (t.success ≡ 3))
execute_on-counts_example = execute_on-counts memory percent ssh 7 "op" hosts "sync:1" empty_store

-- a new operation, before any host is contacted
abbrev waiting : Store
waiting =
    mark_running memory percent ssh 2 "op"
      (create_operation memory 1 "op" hosts ("sync:1" ∷ []) "direct" empty_store)

abbrev cancelled : Store
cancelled = (cancel_operation memory 3 "op" waiting).1

waiting-exists : exists (memory.op waiting "op") ≡ true
unfolding create_operation exists
waiting-exists = refl

waiting-not_over : is_over (memory.op waiting "op").status ≡ false
unfolding create_operation
waiting-not_over = refl

cancelled_pc2 : status_of memory cancelled "op" "pc2" ≡ some SessionStatus.cancelled
unfolding create_operation cancel_operation lookup insert
cancelled_pc2 = refl

cancelled_status : (memory.op cancelled "op").status ≡ some OpStatus.cancelled
unfolding create_operation cancel_operation lookup insert
cancelled_status = refl

cancel_operation-statuses_example :
    ((cancel_operation memory 3 "op" waiting).0 ≡ ok cancelling)
    × ((memory.op cancelled "op").cancel_requested ≡ some true)
    × ((m : String)
        → status_of memory cancelled "op" m ≡ after_cancel (status_of memory waiting "op" m))
cancel_operation-statuses_example =
    cancel_operation-statuses memory 3 "op" waiting waiting-exists waiting-not_over

waiting_pc1 : is_queued (status_of memory waiting "op" "pc1") ≡ true
unfolding create_operation lookup insert
waiting_pc1 = refl

abbrev waiting_run : Run memory percent ssh
waiting_run = record { db = waiting; stats = no_stats 3 }

abbrev pc1 : Host
pc1 = host "pc1" (some "10.0.0.1")

run_host-cancelled_example :
    (status_of memory (cancelled_run memory percent ssh 3 "op" waiting_run).db "op" "pc1"
      ≡ some SessionStatus.cancelled)
    × (status_of memory
          (run_host memory percent ssh 4 "op" pc1
            (cancelled_run memory percent ssh 3 "op" waiting_run)).db
          "op"
          "pc1"
        ≡ some (ssh_status (ssh "10.0.0.1")))
    × ((run_host memory percent ssh 4 "op" pc1
          (cancelled_run memory percent ssh 3 "op" waiting_run)).stats
        ≡ count_status (ssh_status (ssh "10.0.0.1")) (no_stats 3))
run_host-cancelled_example =
    run_host-cancelled memory percent ssh 3 4 "op" pc1 "10.0.0.1" waiting_run waiting-exists
      waiting-not_over waiting_pc1 refl

mixed-exists : exists (memory.op mixed "op") ≡ true
unfolding execute_on exists
mixed-exists = refl

mixed-HasResults : HasResults memory mixed "op"
unfolding execute_on lookup insert
mixed-HasResults m h = ground (arith, h)

mixed_pc1 : is_some (memory.hget mixed "op" "pc1") ≡ true
unfolding execute_on lookup insert
mixed_pc1 = refl

cancel_operation_reopens_example :
    ((cancel_operation memory 9 "op" mixed).0 ≡ ok cancelling)
    × ((memory.op (cancel_operation memory 9 "op" mixed).1 "op").status ≡ some OpStatus.completed)
cancel_operation_reopens_example =
    cancel_operation_reopens memory 9 "op" mixed mixed-HasResults "pc1" mixed-exists mixed_status
      mixed_pc1

abbrev all_ended : Store → Bool
all_ended d =
    all (λ s. is_ended s.status) (sessions memory d "op") && ltb 0 (length (sessions memory d "op"))

check_operation_completion_lem_example :
    (all_ended mixed ≡ true
      → ((memory.op (check_operation_completion memory 9 "op" mixed) "op").status
          ≡ some (closing_status memory (sessions memory mixed "op")))
        × ((memory.op (check_operation_completion memory 9 "op" mixed) "op").stats
            ≡ some (tally (sessions memory mixed "op")).stats)
        × (done_of (tally (sessions memory mixed "op")).stats
            ≡ length (sessions memory mixed "op")))
    × (all_ended mixed ≡ false → check_operation_completion memory 9 "op" mixed ≡ mixed)
check_operation_completion_lem_example = check_operation_completion_lem memory 9 "op" mixed
