-- ===== src/Ops/Counting.antt =====
-- The statistics of `executeDirectCommands`: every host counts once.
use linbo_docker.Base.{
  ℕ, ◌+◌, String, ◌≡◌, refl, ◌∙◌, true, ◌&&◌, Option, none, some, List, [], ◌∷◌, inl, inr, arith,
  length, Bool-cases,
}
use linbo_docker.Ops.Data.{SessionStatus, Stats, Host}
use linbo_docker.Ops.Redis.{Redis}
use linbo_docker.Ops.Sessions.{is_finished, is_queued, get_session}
use linbo_docker.Ops.Execute.{
  Ssh, ssh_status, count_status, done_of, is_set, Run, with_ip, run_host, run_hosts,
}

pub ssh_status-is_finished : (a : Ssh) → is_finished (ssh_status a) ≡ true
unfolding ssh_status
ssh_status-is_finished a = ground arith

pub done_of-count_status :
    (s : SessionStatus) (t : Stats)
    → is_finished s ≡ true
    → (done_of (count_status s t) ≡ done_of t + 1) × ((count_status s t).total ≡ t.total)
done_of-count_status SessionStatus.queued t h = absurd (ground (arith, h))
done_of-count_status s t h = ground (arith, h)

module _ (R : Redis) (percent : ℕ → ℕ → ℕ) (ssh : String → Ssh) where
  abbrev Counted : Run R percent ssh → Run R percent ssh → ℕ → Type 0
  Counted r r' n = (done_of r'.stats ≡ done_of r.stats + n) × (r'.stats.total ≡ r.stats.total)

  with_ip-Counted :
      (now : ℕ) (id name : String) (ip : Option String) (r : Run R percent ssh)
      → Counted r (with_ip R percent ssh now id name ip r) 1
  unfolding with_ip
  with_ip-Counted now id name none r = (omega arith, refl)
  with_ip-Counted now id name (some ip) r =
      done_of-count_status (ssh_status (ssh ip)) r.stats (ssh_status-is_finished (ssh ip))

  run_host-Counted :
      (now : ℕ) (id : String) (h : Host) (r : Run R percent ssh)
      → Counted r (run_host R percent ssh now id h r) 1
  unfolding run_host
  run_host-Counted now id h r =
      elim (Bool-cases (
        is_set (R.op r.db id).cancel_requested
        && is_queued (get_session R r.db id h.hostname).status)) [
          | inl e ↦ rw e (omega arith, refl)
          | inr e ↦ rw e (with_ip-Counted now id h.hostname h.ip r)
        ]

  pub run_hosts-Counted :
      (now : ℕ) (id : String) (hs : List Host) (r : Run R percent ssh)
      → Counted r (run_hosts R percent ssh now id hs r) (length hs)
  unfolding run_hosts
  run_hosts-Counted now id [] r = (omega arith, refl)
  run_hosts-Counted now id (h ∷ hs) r =
      let one = run_host-Counted now id h r in
      let rest = run_hosts-Counted now id hs (run_host R percent ssh now id h r) in
      (omega (arith, one.0, rest.0), rest.1 ∙ one.1)
