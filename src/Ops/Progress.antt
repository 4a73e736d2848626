-- ===== src/Ops/Progress.antt =====
-- The handlers of `executeDirectCommands` come to an end, whatever the order of their steps.
use native.Mathlib.Decide.{dec_lt}
use linbo_docker.Base.{
  ℕ, zero, suc, ◌+◌, ◌-◌, ◌≤◌, ◌<◌, String, ◌≡◌, refl, true, false, Option, none, some, List, [],
  ◌∷◌, map, if◌then◌else◌, ◌==◌, length, arith, if-both,
}
use linbo_docker.Ops.Data.{Host}
use linbo_docker.Ops.Redis.{Redis}
use linbo_docker.Ops.Sessions.{is_queued, get_session}
use linbo_docker.Ops.Execute.{Ssh, is_set, Run}
use linbo_docker.Ops.Handlers.{
  no_address, mark, outcome, Phase, waiting, checking, ended, cancels, reads, writes, contacts,
  reports, is_ended, enter, advance, Turns, turn, turns, started, all_ended,
}

-- the most steps that are left
abbrev work : Phase → ℕ
work waiting = 8
work checking = 7
work (cancels s) = 1
work (reads no_address) = 2
work (reads (mark ip)) = 6
work (reads (outcome a)) = 3
work (writes no_address s) = 1
work (writes (mark ip) s) = 5
work (writes (outcome a) s) = 2
work (contacts ip) = 4
work (reports t) = 1
work ended = 0

-- the most steps that are left to the handler at this place
abbrev work_at : ℕ → List (Host × Phase) → ℕ
work_at i [] = 0
work_at zero ((h, p) ∷ hs) = work p
work_at (suc i) (x ∷ hs) = work_at i hs

-- how many entries of the schedule name this place
abbrev pub turns_of : ℕ → List (ℕ × ℕ) → ℕ
turns_of i [] = 0
turns_of i ((now, j) ∷ schedule) = (if i == j then 1 else 0) + turns_of i schedule

other_place : (j : ℕ) → (0 == suc j) ≡ false
other_place j = ground arith

first_place : (i : ℕ) → (suc i == 0) ≡ false
first_place i = ground arith

work-enter : (o : Option String) → work (enter o) ≤ 6
work-enter none = omega arith
work-enter (some ip) = omega arith

module _ (R : Redis) (percent : ℕ → ℕ → ℕ) (ssh : String → Ssh) where
  open R use {Db, op}

  advance-work :
      (now : ℕ) (id : String) (h : Host) (p : Phase) (r : Run R percent ssh)
      → work (advance R percent ssh now id h p r).0 ≤ work p - 1
  unfolding advance
  advance-work now id h waiting r =
      if-both (λ (q : Phase). work q ≤ 7) (is_set (op r.db id).cancel_requested) (omega arith)
        (omega (arith, work-enter h.ip))
  advance-work now id h checking r =
      if-both (λ (q : Phase). work q ≤ 6) (is_queued (get_session R r.db id h.hostname).status)
        (omega arith) (omega (arith, work-enter h.ip))
  advance-work now id h (cancels s) r = omega arith
  advance-work now id h (reads no_address) r = omega arith
  advance-work now id h (reads (mark ip)) r = omega arith
  advance-work now id h (reads (outcome a)) r = omega arith
  advance-work now id h (writes no_address s) r = omega arith
  advance-work now id h (writes (mark ip) s) r = omega arith
  advance-work now id h (writes (outcome a) s) r = omega arith
  advance-work now id h (contacts ip) r = omega arith
  advance-work now id h (reports t) r = omega arith
  advance-work now id h ended r = omega arith

  turn-work_at :
      (now : ℕ) (id : String) (i j : ℕ) (hs : List (Host × Phase)) (r : Run R percent ssh)
      → work_at i (turn R percent ssh now id j hs r).handlers
        ≤ work_at i hs - (if i == j then 1 else 0)
  unfolding turn
  turn-work_at now id i j [] r = omega arith
  turn-work_at now id zero zero ((h, p) ∷ hs) r = advance-work now id h p r
  turn-work_at now id zero (suc j) ((h, p) ∷ hs) r = rw (other_place j) (omega arith)
  turn-work_at now id (suc i) zero ((h, p) ∷ hs) r = rw (first_place i) (omega arith)
  turn-work_at now id (suc i) (suc j) ((h, p) ∷ hs) r = ground (arith, turn-work_at now id i j hs r)

  turns-work_at :
      (id : String) (i : ℕ) (schedule : List (ℕ × ℕ)) (s : Turns R percent ssh)
      → work_at i (turns R percent ssh id schedule s).handlers
        ≤ work_at i s.handlers - turns_of i schedule
  unfolding turns
  turns-work_at id i [] s = omega arith
  turns-work_at id i ((now, j) ∷ schedule) s = omega (
    arith,
    turn-work_at now id i j s.handlers s.run,
    turns-work_at id i schedule (turn R percent ssh now id j s.handlers s.run),
  )

  work_at-waiting : (hosts : List Host) (i : ℕ) → work_at i (map (λ h. (h, waiting)) hosts) ≤ 8
  work_at-waiting [] i = omega arith
  work_at-waiting (h ∷ hs) zero = omega arith
  work_at-waiting (h ∷ hs) (suc i) = work_at-waiting hs i

  work_at-behind :
      (hosts : List Host) (i : ℕ) → length hosts ≤ i → work_at i (map (λ h. (h, waiting)) hosts) ≡ 0
  work_at-behind [] i h = refl
  work_at-behind (x ∷ hs) zero h = absurd (omega arith)
  work_at-behind (x ∷ hs) (suc i) h = work_at-behind hs i (omega arith)

  work-is_ended : (p : Phase) → work p ≡ 0 → is_ended p ≡ true
  work-is_ended waiting h = absurd (omega arith)
  work-is_ended checking h = absurd (omega arith)
  work-is_ended (cancels s) h = absurd (omega arith)
  work-is_ended (reads no_address) h = absurd (omega arith)
  work-is_ended (reads (mark ip)) h = absurd (omega arith)
  work-is_ended (reads (outcome a)) h = absurd (omega arith)
  work-is_ended (writes no_address s) h = absurd (omega arith)
  work-is_ended (writes (mark ip) s) h = absurd (omega arith)
  work-is_ended (writes (outcome a) s) h = absurd (omega arith)
  work-is_ended (contacts ip) h = absurd (omega arith)
  work-is_ended (reports t) h = absurd (omega arith)
  work-is_ended ended h = refl

  no_work-all_ended :
      (hs : List (Host × Phase)) → ((i : ℕ) → work_at i hs ≡ 0) → all_ended R percent ssh hs ≡ true
  no_work-all_ended [] z = refl
  no_work-all_ended ((h, p) ∷ hs) z =
      rw (work-is_ended p (z 0)) (no_work-all_ended hs (λ i. z (suc i)))

  -- In a schedule that names the place of each host at least eight times, whatever the order, all
  -- handlers of `executeDirectCommands` end.
  pub turns-ends :
      (now : ℕ) (id : String) (hosts : List Host) (commands : String) (d : Db)
      (schedule : List (ℕ × ℕ))
      → ((i : ℕ) → i < length hosts → 8 ≤ turns_of i schedule)
      → all_ended R percent ssh
          (turns R percent ssh id schedule (started R percent ssh now id hosts commands d)).handlers
        ≡ true
  unfolding started
  turns-ends now id hosts commands d schedule fair =
      no_work-all_ended (turns R percent ssh id schedule s).handlers no_work
    where
      s : Turns R percent ssh
      s = started R percent ssh now id hosts commands d

      no_work : (i : ℕ) → work_at i (turns R percent ssh id schedule s).handlers ≡ 0
      no_work i = elim (dec_lt i (length hosts)) [
        | yes within ↦
            omega (arith, fair i within, work_at-waiting hosts i, turns-work_at id i schedule s)
        | no beyond ↦
            omega (arith, work_at-behind hosts i (omega arith), turns-work_at id i schedule s)
      ]
