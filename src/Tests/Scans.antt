-- ===== src/Tests/Scans.antt =====
-- Runs of the host status worker on a table in memory.
use text.Mathlib.Text.{◌==◌ as str_eq}
use linbo_docker.Base.{
  ℕ, ◌-◌, ◌*◌, String, ◌≡◌, refl, Bool, false, none, some, List, [], ◌∷◌, arith, ◌==◌,
  if◌then◌else◌, length,
}
use linbo_docker.Tables.{find_many, is_some}
use linbo_docker.Tables.Laws.{on}
use linbo_docker.Tests.Tables.{memory, find_in, put_in}
use linbo_docker.Scan.{
  Host, Scanner, no_counts, hit, is_stale, update_host_scan_result, run_scan_cycle,
  mark_stale_hosts_offline,
}
use linbo_docker.Scan.Online.{KeepsOnline, run_scan_cycle-KeepsOnline}
use linbo_docker.Scan.Stale.{Swept, mark_stale_hosts_offline_lem, update_host_scan_result-is_stale}
use linbo_docker.Scan.Counting.{AddsUp, run_scan_cycle-AddsUp}

-- two hosts answer: one as Linux, one as Windows
abbrev ports : String → ℕ → Bool
ports ip port =
    if str_eq ip "10.0.0.1" then port == 22 else if str_eq ip "10.0.0.2" then port == 445 else false

abbrev pc01 : Host
pc01 = record {
  hostname = "pc01";
  ip_address = some "10.0.0.1";
  status = "offline";
  detected_os = some "linbo";
  last_seen = some 1_000;
  last_online_at = none;
}

abbrev pc03 : Host
pc03 = record {
  hostname = "pc03";
  ip_address = some "10.0.0.3";
  status = "online";
  detected_os = some "linux";
  last_seen = some 2_000;
  last_online_at = some 2_000;
}

abbrev rows : List (String × Host)
rows =
    ("h1", pc01)
    ∷ ("h2", record pc01 { hostname = "pc02"; ip_address = some "10.0.0.2" })
    ∷ ("h3", pc03)
    ∷ []

-- the third host has failed four scans
abbrev scanner : Scanner (memory Host)
scanner = record { hosts = rows; fails = λ j. if str_eq j "h3" then 4 else 0; counters = no_counts }

abbrev scanned : Scanner (memory Host)
scanned = run_scan_cycle (memory Host) ports 300 5 900_000 false scanner

third_cleared : on (λ (h : Host). h.detected_os) (find_in scanned.hosts "h3") ≡ some none
unfolding run_scan_cycle find_in put_in
third_cleared = refl

hits_counted : scanned.counters.online_hits ≡ 2
unfolding run_scan_cycle find_in
hits_counted = refl

run_scan_cycle-KeepsOnline_example : KeepsOnline (memory Host) rows scanned.hosts
run_scan_cycle-KeepsOnline_example =
    run_scan_cycle-KeepsOnline (memory Host) ports 300 5 900_000 false scanner

run_scan_cycle-AddsUp_example :
    AddsUp (length (find_many (memory Host) (λ h. is_some h.ip_address) rows)) scanned.counters
run_scan_cycle-AddsUp_example = run_scan_cycle-AddsUp (memory Host) ports 300 5 900_000 scanner

-- the third host was last seen long ago
third_offline :
    on
      (λ (h : Host). h.status)
      (find_in (mark_stale_hosts_offline (memory Host) 900_000 300 rows) "h3")
    ≡ some "offline"
unfolding mark_stale_hosts_offline find_in put_in
third_offline = refl

mark_stale_hosts_offline_lem_example :
    Swept
      (memory Host)
      900_000
      600_000
      (find_in rows "h3")
      (find_in (mark_stale_hosts_offline (memory Host) 900_000 300 rows) "h3")
mark_stale_hosts_offline_lem_example =
    mark_stale_hosts_offline_lem (memory Host) 900_000 300 rows "h3"

first_found : find_in rows "h1" ≡ some pc01
unfolding find_in
first_found = refl

update_host_scan_result-is_stale_example :
    (g : Host) × (find_in
        (update_host_scan_result (memory Host) 300 900_000 "h1" pc01 (hit "linux") rows)
        "h1"
      ≡ some g)
    × (is_stale (memory Host) (1_050_000 - 300 * 1000) g ≡ false)
update_host_scan_result-is_stale_example =
    update_host_scan_result-is_stale (memory Host) 300 900_000 1_050_000 "h1" (hit "linux") rows
      pc01 first_found refl (omega arith)
