-- ===== src/Ops/Finished.antt =====
-- `executeDirectCommands` from its first write to its last, when nothing is cancelled meanwhile.
use text.Mathlib.Text.{◌==◌ as str_eq}
use linbo_docker.Base.{
  ℕ, String, ◌≡◌, ◌↔◌, refl, sym, ap, ◌∙◌, true, false, Option, none, some, List, [], ◌∷◌, inl, inr,
  arith, if◌then◌else◌, any, length, Bool-cases,
}
use linbo_docker.Ops.Data.{SessionStatus, OpStatus, Stats, OpHash, Host}
use linbo_docker.Ops.Redis.{Redis}
use linbo_docker.Ops.Sessions.{no_stats, write_sessions, create_operation, max_index_size}
use linbo_docker.Ops.Execute.{
  Ssh, count_status, done_of, is_set, final_status, Run, run_host, run_hosts, mark_running,
  execute_on,
}
use linbo_docker.Ops.Counting.{run_hosts-Counted}
use linbo_docker.Ops.Results.{
  status_of, op-hmset_own, host_result, Going, run_host-AfterHost, status_of-hmset,
}

status_of_some : (a b : OpStatus) → some a ≡ some b → a ≡ b
status_of_some a b e = cc

final_status_completed :
    (t : Stats) → (final_status t ≡ OpStatus.completed) ↔ (t.success ≡ done_of t)
unfolding final_status
final_status_completed t = ground arith

module _ (R : Redis) (percent : ℕ → ℕ → ℕ) (ssh : String → Ssh) where
  open R use {Db, op, hmset}

  abbrev result : Host → SessionStatus
  result = host_result R percent ssh

  -- the outcome of the last listed host of that name, else the status from before
  abbrev pub last_result : List Host → String → Option SessionStatus → Option SessionStatus
  last_result [] name old = old
  last_result (h ∷ hs) name old =
      last_result hs name (if str_eq h.hostname name then some (result h) else old)

  abbrev pub count_results : List Host → Stats → Stats
  count_results [] t = t
  count_results (h ∷ hs) t = count_results hs (count_status (result h) t)

  record AfterHosts (r r' : Run R percent ssh) (id : String) (hs : List Host) : Type 0 where
    statuses : (m : String) → status_of R r'.db id m ≡ last_result hs m (status_of R r.db id m)
    stats : r'.stats ≡ count_results hs r.stats

  run_hosts-AfterHosts :
      (now : ℕ) (id : String) (hs : List Host) (r : Run R percent ssh)
      → Going R percent ssh r.db id
      → AfterHosts r (run_hosts R percent ssh now id hs r) id hs
  unfolding run_hosts
  run_hosts-AfterHosts now id [] r g = record { statuses = λ m. refl; stats = refl }
  run_hosts-AfterHosts now id (h ∷ hs) r g =
      let one = run_host-AfterHost R percent ssh now id h r g in
      let rest =
        run_hosts-AfterHosts now id hs (run_host R percent ssh now id h r)
          (ap is_set one.kept ∙ g) in
      record {
        statuses = λ m. rest.statuses m ∙ ap (last_result hs m) (one.statuses m);
        stats = rest.stats ∙ ap (count_results hs) one.stats;
      }

  op-write_sessions :
      (id : String) (hs : List Host) (d : Db) → op (write_sessions R id hs d) id ≡ op d id
  unfolding write_sessions
  op-write_sessions id [] d = refl
  op-write_sessions id (h ∷ hs) d = op-write_sessions id hs _ ∙ R.op-hset d id h.hostname id _

  -- A new operation is pending, and no cancellation is requested.
  cancel-create_operation :
      (now : ℕ) (id : String) (hs : List Host) (commands : List String) (kind : String) (d : Db)
      → (op (create_operation R now id hs commands kind d) id).cancel_requested ≡ some false
  unfolding create_operation
  cancel-create_operation now id hs commands kind d =
      ap (λ (h : OpHash). h.cancel_requested)
        (R.op-trim_index _ max_index_size id
          ∙ R.op-zadd _ now id id
          ∙ op-write_sessions id hs _
          ∙ op-hmset_own R d id _)

  -- a listed name has a result whatever stood there before
  last_result-any :
      (hs : List Host) (name : String) (a b : Option SessionStatus)
      → any (λ h. str_eq h.hostname name) hs ≡ true
      → last_result hs name a ≡ last_result hs name b
  last_result-any [] name a b e = ground (arith, e)
  last_result-any (h ∷ hs) name a b e = elim (Bool-cases (str_eq h.hostname name)) [
    | inl same ↦ rw same
    | inr other ↦ rw other (last_result-any hs name a b (rw other at e))
  ]

  abbrev begun : ℕ → String → List Host → String → Db → Run R percent ssh
  begun now id hosts commands d = record {
    db =
        mark_running R percent ssh now id
          (create_operation R now id hosts (commands ∷ []) "direct" d);
    stats = no_stats (length hosts);
  }

  abbrev ended : ℕ → String → List Host → String → Db → Run R percent ssh
  ended now id hosts commands d =
      run_hosts R percent ssh now id hosts (begun now id hosts commands d)

  pub begun-Going :
      (now : ℕ) (id : String) (hosts : List Host) (commands : String) (d : Db)
      → Going R percent ssh (begun now id hosts commands d).db id
  begun-Going now id hosts commands d =
      ap (λ (h : OpHash). is_set h.cancel_requested) (op-hmset_own R _ id _)
      ∙ ap is_set (cancel-create_operation now id hosts (commands ∷ []) "direct" d)

  abbrev final_stats : List Host → Stats
  final_stats hosts = count_results hosts (no_stats (length hosts))

  ended-stats :
      (now : ℕ) (id : String) (hosts : List Host) (commands : String) (d : Db)
      → (ended now id hosts commands d).stats ≡ final_stats hosts
  ended-stats now id hosts commands d =
      (run_hosts-AfterHosts now id hosts _ (begun-Going now id hosts commands d)).stats

  -- When nothing is cancelled meanwhile, `executeDirectCommands` leaves the statistics of the
  -- hosts' outcomes, the final status that they give and the progress 100; and the session of
  -- every listed host name has the outcome of the last listed host of that name.
  pub execute_on-results :
      (now : ℕ) (id : String) (hosts : List Host) (commands : String) (d : Db)
      → ((op (execute_on R percent ssh now id hosts commands d) id).stats
          ≡ some (count_results hosts (no_stats (length hosts))))
        × ((op (execute_on R percent ssh now id hosts commands d) id).status
            ≡ some (final_status (count_results hosts (no_stats (length hosts)))))
        × ((op (execute_on R percent ssh now id hosts commands d) id).progress ≡ some 100)
        × ((name : String)
            → any (λ h. str_eq h.hostname name) hosts ≡ true
            → status_of R (execute_on R percent ssh now id hosts commands d) id name
              ≡ last_result hosts name none)
  unfolding execute_on
  execute_on-results now id hosts commands d =
      let r = ended now id hosts commands d in
      let t = ended-stats now id hosts commands d in
      let written = op-hmset_own R r.db id _ in
      let after = run_hosts-AfterHosts now id hosts _ (begun-Going now id hosts commands d) in
      (
        ap (λ (h : OpHash). h.stats) written ∙ ap some t,
        ap (λ (h : OpHash). h.status) written ∙ ap (λ u. some (final_status u)) t,
        ap (λ (h : OpHash). h.progress) written,
        λ name listed.
            status_of-hmset R r.db id id name _
            ∙ after.statuses name
            ∙ last_result-any hosts name _ none listed,
      )

  -- The statistics that `executeDirectCommands` leaves count every host once, as a success, a
  -- failure or a cancellation; their total is the number of hosts; and the operation ends as
  -- `completed` exactly when every host was a success.
  pub execute_on-counts :
      (now : ℕ) (id : String) (hosts : List Host) (commands : String) (d : Db)
      → (t : Stats) × ((op (execute_on R percent ssh now id hosts commands d) id).stats ≡ some t)
        × (done_of t ≡ length hosts)
        × (t.total ≡ length hosts)
        × (((op (execute_on R percent ssh now id hosts commands d) id).status
              ≡ some OpStatus.completed)
            ↔ (t.success ≡ length hosts))
  unfolding execute_on
  execute_on-counts now id hosts commands d =
      let r = ended now id hosts commands d in
      let written = op-hmset_own R r.db id _ in
      let counted = run_hosts-Counted R percent ssh now id hosts (begun now id hosts commands d) in
      let all = final_status_completed r.stats in
      let ends = ap (λ (h : OpHash). h.status) written in
      (
        r.stats,
        ap (λ (h : OpHash). h.stats) written,
        omega (arith, counted.0),
        counted.1,
        (
          λ e. omega (arith, all.0 (status_of_some _ _ (sym ends ∙ e)), counted.0),
          λ e. ends ∙ ap some (all.1 (omega (arith, e, counted.0))),
        ),
      )
