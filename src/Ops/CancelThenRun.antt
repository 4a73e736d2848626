-- ===== src/Ops/CancelThenRun.antt =====
-- A cancellation that comes while hosts still wait in `executeDirectCommands`.
use linbo_docker.Base.{ℕ, String, ◌≡◌, refl, ap, ◌∙◌, Bool, true, false, some, ◌&&◌}
use text.Mathlib.TextPositions.{eq_refl}
use linbo_docker.Ops.Data.{SessionStatus, Host, exists}
use linbo_docker.Ops.Redis.{Redis}
use linbo_docker.Ops.Sessions.{is_queued, is_over, cancel_operation}
use linbo_docker.Ops.Execute.{Ssh, ssh_status, count_status, is_set, Run, with_ip, run_host}
use linbo_docker.Ops.Results.{status_of, with_ip-AfterHost}
use linbo_docker.Ops.Cancelling.{cancel_operation-statuses}

and_false : (b : Bool) → (b && false) ≡ false
and_false true = refl
and_false false = refl

module _ (R : Redis) (percent : ℕ → ℕ → ℕ) (ssh : String → Ssh) where
  open R use {Db, op}

  -- the run as it stands when `cancelOperation` has returned
  abbrev pub cancelled_run : ℕ → String → Run R percent ssh → Run R percent ssh
  cancelled_run now id r = record r { db = (cancel_operation R now id r.db).1 }

  run_host-not_queued :
      (now : ℕ) (id : String) (h : Host) (r : Run R percent ssh)
      → is_queued (status_of R r.db id h.hostname) ≡ false
      → run_host R percent ssh now id h r ≡ with_ip R percent ssh now id h.hostname h.ip r
  unfolding run_host
  run_host-not_queued now id h r q = rw (q, and_false (is_set (op r.db id).cancel_requested))

  -- A host that still waits when `cancelOperation` returns is contacted all the same: its session
  -- was queued and is cancelled by then, so the handler's test for a queued session fails, and
  -- the session and the statistics get the outcome of the command instead of a cancellation.
  pub run_host-cancelled :
      (now later : ℕ) (id : String) (h : Host) (ip : String) (r : Run R percent ssh)
      → exists (op r.db id) ≡ true
      → is_over (op r.db id).status ≡ false
      → is_queued (status_of R r.db id h.hostname) ≡ true
      → h.ip ≡ some ip
      → (status_of R (cancelled_run now id r).db id h.hostname ≡ some SessionStatus.cancelled)
        × (status_of R (run_host R percent ssh later id h (cancelled_run now id r)).db id h.hostname
            ≡ some (ssh_status (ssh ip)))
        × ((run_host R percent ssh later id h (cancelled_run now id r)).stats
            ≡ count_status (ssh_status (ssh ip)) r.stats)
  run_host-cancelled now later id h ip r e o q i =
      let after = (cancel_operation-statuses R now id r.db e o).2 h.hostname in
      let r' : Run R percent ssh = cancelled_run now id r in
      let contacted = with_ip-AfterHost R percent ssh later id h.hostname (some ip) r' in
      let same =
        run_host-not_queued later id h r' (rw (after, q))
        ∙ ap (λ o. with_ip R percent ssh later id h.hostname o r') i in
      (
        after ∙ rw q,
        ap (λ (u : Run R percent ssh). status_of R u.db id h.hostname) same
            ∙ contacted.statuses h.hostname
            ∙ rw (eq_refl h.hostname),
        ap (λ (u : Run R percent ssh). u.stats) same ∙ contacted.stats,
      )
