-- ===== src/Ops/Interleaved.antt =====
-- The handlers of `executeDirectCommands` in any order of their steps, when no cancellation is
-- requested, and the run of the hosts one after the other.
use text.Mathlib.Text.{◌==◌ as str_eq}
use text.Mathlib.TextEquality.{eq_iff}
use mathlib.Core.Bool.{false≢true}
use mathlib.Core.Path.{subst}
use linbo_docker.Base.{
  ℕ, String, ◌≡◌, refl, sym, ap, ◌∙◌, true, false, Option, none, some, List, [], ◌∷◌, map, any,
  length, All, &&-true, inl, inr, Bool-cases,
}
use linbo_docker.Ops.Data.{SessionStatus, OpHash, Stats, Host}
use linbo_docker.Ops.Redis.{Redis}
use linbo_docker.Ops.Sessions.{no_stats}
use linbo_docker.Ops.Execute.{Ssh, execute_on, finalize, final_status}
use linbo_docker.Ops.Results.{status_of, status_of-hmset, op-hmset_own}
use linbo_docker.Ops.Handlers.{Phase, waiting, ended, is_ended, Turns, turns, started, all_ended}
use linbo_docker.Ops.HandlerSteps.{IsSound}
use linbo_docker.Ops.Turns.{
  IsApart, hosts_of, All-flip, result, settled, AreSound, IsGood, turns-IsGood,
}
use linbo_docker.Ops.Finished.{last_result, count_results, begun-Going, execute_on-results}

module _ (R : Redis) (percent : ℕ → ℕ → ℕ) (ssh : String → Ssh) where
  open R use {Db, op}

  hosts_of-waiting : (hosts : List Host) → hosts_of (map (λ h. (h, waiting)) hosts) ≡ hosts
  hosts_of-waiting [] = refl
  hosts_of-waiting (h ∷ hs) = ap (◌∷◌ h) (hosts_of-waiting hs)

  waiting-AreSound :
      (id : String) (d : Db) (hosts : List Host)
      → AreSound R percent ssh id d (map (λ h. (h, waiting)) hosts)
  waiting-AreSound id d [] = tt
  waiting-AreSound id d (h ∷ hs) = (tt, waiting-AreSound id d hs)

  settled-waiting :
      (hosts : List Host) (t : Stats) → settled R percent ssh (map (λ h. (h, waiting)) hosts) t ≡ t
  settled-waiting [] t = refl
  settled-waiting (h ∷ hs) t = settled-waiting hs t

  started-IsGood :
      (now : ℕ) (id : String) (hosts : List Host) (commands : String) (d : Db)
      → IsGood R percent ssh id hosts
          (no_stats (length hosts))
          (started R percent ssh now id hosts commands d)
  unfolding started
  started-IsGood now id hosts commands d = record {
    same_hosts = hosts_of-waiting hosts;
    going = begun-Going R percent ssh now id hosts commands d;
    sound = waiting-AreSound id _ hosts;
    counted = sym (settled-waiting hosts (no_stats (length hosts)));
  }

  ended-settled : (p : Phase) → is_ended p ≡ true → p ≡ ended
  ended-settled ended e = refl
  ended-settled p e = absurd (false≢true e)

  settled-ended :
      (hs : List (Host × Phase)) (t : Stats)
      → all_ended R percent ssh hs ≡ true
      → settled R percent ssh hs t ≡ count_results R percent ssh (hosts_of hs) t
  settled-ended [] t e = refl
  settled-ended ((h, p) ∷ hs) t e =
      let (here, rest) = &&-true (is_ended p) _ e in
      rw (ended-settled p here) (settled-ended hs _ rest)

  -- the last result R percent ssh of a name that is not listed
  last_result-old :
      (hs : List Host) (name : String) (old : Option SessionStatus)
      → All (λ (h : Host). str_eq h.hostname name ≡ false) hs
      → last_result R percent ssh hs name old ≡ old
  last_result-old [] name old a = refl
  last_result-old (h ∷ hs) name old (e, a) = rw e (last_result-old hs name old a)

  status-ended :
      (id name : String) (d : Db) (hs : List (Host × Phase)) (old : Option SessionStatus)
      → IsApart (hosts_of hs)
      → AreSound R percent ssh id d hs
      → all_ended R percent ssh hs ≡ true
      → any (λ (h : Host). str_eq h.hostname name) (hosts_of hs) ≡ true
      → status_of R d id name ≡ last_result R percent ssh (hosts_of hs) name old
  status-ended id name d [] old a s e l = absurd (false≢true l)
  status-ended id name d ((h, p) ∷ hs) old a s e l =
      let (here, rest) = &&-true (is_ended p) _ e in
      elim (Bool-cases (str_eq h.hostname name)) [
        | inr other ↦
            rw (other, last_result) (status-ended id name d hs old a.1 s.1 rest (rw other at l))
        | inl same ↦
            let named = (eq_iff h.hostname name).0 same in
            let apart =
              subst (λ (n : String). All (λ (g : Host). str_eq g.hostname n ≡ false) (hosts_of hs))
                named (All-flip h.hostname (hosts_of hs) a.0) in
            rw (same, last_result)
              (subst (λ (n : String). status_of R d id n ≡ some (result R percent ssh h)) named
                  (subst (IsSound R percent ssh id d h) (ended-settled p here) s.0)
                ∙ sym (last_result-old (hosts_of hs) name (some (result R percent ssh h)) apart))
      ]

  module _ (now later : ℕ) (id : String) (hosts : List Host) (commands : String) (d : Db)
      (schedule : List (ℕ × ℕ)) where
    abbrev pub interleaved : Turns R percent ssh
    interleaved = turns R percent ssh id schedule (started R percent ssh now id hosts commands d)

    good : IsApart hosts → IsGood R percent ssh id hosts (no_stats (length hosts)) interleaved
    good a =
        turns-IsGood R percent ssh id hosts _ schedule
          (started R percent ssh now id hosts commands d) a (started-IsGood now id hosts commands d)

    end_stats :
        IsApart hosts
        → all_ended R percent ssh interleaved.handlers ≡ true
        → interleaved.run.stats ≡ count_results R percent ssh hosts (no_stats (length hosts))
    end_stats a e =
        (good a).counted
        ∙ settled-ended interleaved.handlers _ e
        ∙ ap (λ (hs : List Host). count_results R percent ssh hs (no_stats (length hosts)))
            (good a).same_hosts

    end_status :
        (name : String)
        → IsApart hosts
        → all_ended R percent ssh interleaved.handlers ≡ true
        → any (λ (h : Host). str_eq h.hostname name) hosts ≡ true
        → status_of R interleaved.run.db id name ≡ last_result R percent ssh hosts name none
    end_status name a e l =
        let g = good a in
        status-ended id name interleaved.run.db interleaved.handlers none
          (subst IsApart (sym g.same_hosts) a) g.sound e
          (ap (any (λ (h : Host). str_eq h.hostname name)) g.same_hosts ∙ l)
        ∙ ap (λ (hs : List Host). last_result R percent ssh hs name none) g.same_hosts

    -- Whatever the order in which the handlers of hosts with different names take their steps,
    -- when no cancellation is requested: once all of them have ended, the operation gets the
    -- statistics, the status and the progress, and every host's session gets the status, that
    -- they get when each host runs to its end before the next one starts.
    pub turns-execute_on :
        IsApart hosts
        → all_ended R percent ssh interleaved.handlers ≡ true
        → ((op (finalize R percent ssh later id interleaved.run) id).stats
            ≡ (op (execute_on R percent ssh now id hosts commands d) id).stats)
          × ((op (finalize R percent ssh later id interleaved.run) id).status
              ≡ (op (execute_on R percent ssh now id hosts commands d) id).status)
          × ((op (finalize R percent ssh later id interleaved.run) id).progress
              ≡ (op (execute_on R percent ssh now id hosts commands d) id).progress)
          × ((name : String)
              → any (λ (h : Host). str_eq h.hostname name) hosts ≡ true
              → status_of R (finalize R percent ssh later id interleaved.run) id name
                ≡ status_of R (execute_on R percent ssh now id hosts commands d) id name)
    turns-execute_on a e =
        let (stats, status, progress, statuses) =
          execute_on-results R percent ssh now id hosts commands d in
        let written = op-hmset_own R interleaved.run.db id _ in
        let t = end_stats a e in
        (
          ap (λ (h : OpHash). h.stats) written ∙ ap some t ∙ sym stats,
          ap (λ (h : OpHash). h.status) written
              ∙ ap (λ (u : Stats). some (final_status u)) t
              ∙ sym status,
          ap (λ (h : OpHash). h.progress) written ∙ sym progress,
          λ name l.
              status_of-hmset R interleaved.run.db id id name _
              ∙ end_status name a e l
              ∙ sym (statuses name l),
        )
