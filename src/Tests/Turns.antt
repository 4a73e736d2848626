-- ===== src/Tests/Turns.antt =====
-- Runs of Ops.Handlers over the store in memory: three handlers whose steps take turns.
use native.Mathlib.Decide.{ℕ_discrete}
use linbo_docker.Base.{
  ℕ, ◌*◌, ◌/◌, ◌≤◌, ◌<◌, length, arith, ◌≡◌, refl, true, String, Option, none, some, List, [], ◌∷◌,
  ◌++◌, any, if◌then◌else◌,
}
use text.Mathlib.Text.{◌==◌ as str_eq}
use linbo_docker.Ops.Data.{Host, completed_with_errors}
use linbo_docker.Ops.Execute.{Ssh, offline, exits, execute_on, finalize, final_status}
use linbo_docker.Ops.Results.{status_of}
use linbo_docker.Ops.Handlers.{Turns, turns, started, all_ended}
use linbo_docker.Ops.Turns.{IsApart}
use linbo_docker.Ops.Interleaved.{interleaved, turns-execute_on}
use linbo_docker.Ops.Progress.{turns_of, turns-ends}
use linbo_docker.Tests.Memory.{Store, lookup, insert, memory, empty_store}

abbrev percent : ℕ → ℕ → ℕ
percent done total = done * 100 / total

abbrev host : String → Option String → Host
host name ip = record { mac = "aa"; hostname = name; ip = ip; hostgroup = none; room = none }

abbrev hosts : List Host
hosts = host "pc1" (some "10.0.0.1") ∷ host "pc2" (some "10.0.0.2") ∷ host "pc3" none ∷ []

abbrev ssh : String → Ssh
ssh ip = if str_eq ip "10.0.0.1" then exits (some 0) none else offline

-- one step of each handler, the last one first
abbrev round : List (ℕ × ℕ)
round = (4, 2) ∷ (5, 0) ∷ (6, 1) ∷ []

abbrev schedule : List (ℕ × ℕ)
schedule = round ++ round ++ round ++ round ++ round ++ round ++ round ++ round

abbrev at_end : Turns memory percent ssh
at_end = interleaved memory percent ssh 3 9 "op" hosts "sync:1" empty_store schedule

abbrev finished : Store
finished = finalize memory percent ssh 9 "op" at_end.run

all_over : all_ended memory percent ssh at_end.handlers ≡ true
unfolding started turns lookup insert
all_over = refl

finished_status : (memory.op finished "op").status ≡ some completed_with_errors
unfolding started turns lookup insert final_status
finished_status = refl

hosts-IsApart : IsApart hosts
hosts-IsApart = ((refl, (refl, tt)), ((refl, tt), (tt, tt)))

abbrev in_sequence : Store
in_sequence = execute_on memory percent ssh 3 "op" hosts "sync:1" empty_store

turns-execute_on_example :
    ((memory.op finished "op").stats ≡ (memory.op in_sequence "op").stats)
    × ((memory.op finished "op").status ≡ (memory.op in_sequence "op").status)
    × ((memory.op finished "op").progress ≡ (memory.op in_sequence "op").progress)
    × ((name : String)
        → any (λ (h : Host). str_eq h.hostname name) hosts ≡ true
        → status_of memory finished "op" name ≡ status_of memory in_sequence "op" name)
turns-execute_on_example =
    turns-execute_on memory percent ssh 3 9 "op" hosts "sync:1" empty_store schedule hosts-IsApart
      all_over

three_places : (i : ℕ) → i < length hosts → 8 ≤ turns_of i schedule
three_places i h = elim (ℕ_discrete i 0) [
  | yes e ↦ rw e (omega arith)
  | no n ↦ elim (ℕ_discrete i 1) [
    | yes e ↦ rw e (omega arith)
    | no m ↦ let third : i ≡ 2 = omega arith in rw third (omega arith)
  ]
]

turns-ends_example :
    all_ended memory percent ssh
      (turns memory percent ssh "op" schedule
        (started memory percent ssh 3 "op" hosts "sync:1" empty_store)).handlers
    ≡ true
turns-ends_example =
    turns-ends memory percent ssh 3 "op" hosts "sync:1" empty_store schedule three_places
