-- ===== src/Scan/Counting.antt =====
-- containers/api/src/workers/host-status.worker.js: how the counters of a scan cycle add up.
use linbo_docker.Base.{
  ℕ, suc, ◌+◌, ◌≤◌, String, ◌≡◌, Bool, true, false, ◌&&◌, not, List, [], ◌∷◌, arith, length,
  if-both,
}
use linbo_docker.Tables.{Table, find_many, is_some}
use linbo_docker.Scan.{
  Host, ScanResult, Counters, no_counts, count_online, count_no_hit, is_written, comes_online,
  os_differs, one_if, Scanner, scan_host, process_online, process_no_hit, process_host,
  process_hosts, run_scan_cycle,
}

-- After n hosts: each is a hit or none, a hit that is written has a reason, and a pure bump has no
-- other reason.
pub record AddsUp (n : ℕ) (c : Counters) : Type 0 where
  pub every_host : c.online_hits + c.no_hits ≡ n
  pub has_reason :
      c.db_writes ≤ c.status_changes + c.os_changes + c.throttled_bumps + c.os_stale_clear
  pub one_reason : c.status_changes + c.throttled_bumps + c.os_stale_clear ≤ c.db_writes
  pub os_reason : c.os_changes + c.throttled_bumps + c.os_stale_clear ≤ c.db_writes
  pub hits_written : c.db_writes ≤ c.online_hits + c.os_stale_clear
  pub clears : c.os_stale_clear ≤ c.no_hits

one_if-and : (a b : Bool) → one_if (a && b) ≤ one_if a
one_if-and a b = ground arith

reasons :
    (u s o : Bool)
    → (one_if (u && s) + one_if (u && (not s && not o)) ≤ one_if u)
      × (one_if (u && o) + one_if (u && (not s && not o)) ≤ one_if u)
      × (one_if u ≤ one_if (u && s) + one_if (u && o) + one_if (u && (not s && not o)))
      × (one_if u ≤ 1)
reasons u s o = ground arith

count_online-AddsUp :
    (timeout now n : ℕ) (h : Host) (r : ScanResult) (c : Counters)
    → AddsUp n c
    → AddsUp (suc n) (count_online timeout now h r c)
unfolding count_online
count_online-AddsUp timeout now n h r c a =
    let u = is_written timeout now h r in
    let s = comes_online h in
    let o = os_differs r.detected_os_is h.detected_os in
    let (sb, ob, ub, one) = reasons u s o in
    record {
      every_host = omega (arith, a.every_host);
      has_reason = omega (arith, a.has_reason);
      one_reason = omega (arith, a.one_reason);
      os_reason = omega (arith, a.os_reason);
      hits_written = omega (arith, a.hits_written);
      clears = a.clears;
    }

count_no_hit-AddsUp :
    (n : ℕ) (cleared : Bool) (c : Counters) → AddsUp n c → AddsUp (suc n) (count_no_hit cleared c)
unfolding count_no_hit
count_no_hit-AddsUp n true c a = record {
  every_host = omega (arith, a.every_host);
  has_reason = omega (arith, a.has_reason);
  one_reason = omega (arith, a.one_reason);
  os_reason = omega (arith, a.os_reason);
  hits_written = omega (arith, a.hits_written);
  clears = omega (arith, a.clears);
}
count_no_hit-AddsUp n false c a = record {
  every_host = omega (arith, a.every_host);
  has_reason = omega (arith, a.has_reason);
  one_reason = omega (arith, a.one_reason);
  os_reason = omega (arith, a.os_reason);
  hits_written = omega (arith, a.hits_written);
  clears = omega (arith, a.clears);
}

module _ (H : Table Host) (is_open : String → ℕ → Bool) (timeout stale_after now : ℕ) where
  process_host-AddsUp :
      (n : ℕ) (id : String) (h : Host) (s : Scanner H)
      → AddsUp n s.counters
      → AddsUp (suc n) (process_host H is_open timeout stale_after now id h s).counters
  unfolding process_host process_online process_no_hit
  process_host-AddsUp n id h s a =
      let r = scan_host is_open h.ip_address in
      if-both (λ (u : Scanner H). AddsUp (suc n) u.counters) r.is_online
        (count_online-AddsUp timeout now n h r s.counters a) (count_no_hit-AddsUp n _ s.counters a)

  process_hosts-AddsUp :
      (n m : ℕ) (hs : List (String × Host)) (s : Scanner H)
      → n + length hs ≡ m
      → AddsUp n s.counters
      → AddsUp m (process_hosts H is_open timeout stale_after now hs s).counters
  unfolding process_hosts
  process_hosts-AddsUp n m [] s e a = let e' : n ≡ m = omega arith in rw (← e') a
  process_hosts-AddsUp n m ((id, h) ∷ hs) s e a =
      process_hosts-AddsUp (suc n) m hs (process_host H is_open timeout stale_after now id h s)
        (omega arith) (process_host-AddsUp n id h s a)

  -- The counters that a cycle logs add up: hits and misses are the hosts that have an address; what
  -- is written for a hit has a reason that is counted, and a pure bump is counted for no other.
  pub run_scan_cycle-AddsUp :
      (s : Scanner H)
      → AddsUp
          (length (find_many H (λ h. is_some h.ip_address) s.hosts))
          (run_scan_cycle H is_open timeout stale_after now false s).counters
  unfolding run_scan_cycle
  run_scan_cycle-AddsUp s =
      let hs = find_many H (λ h. is_some h.ip_address) s.hosts in
      let none_yet : AddsUp 0 no_counts = omega arith in
      process_hosts-AddsUp 0 (length hs) hs (record s { counters = no_counts }) (omega arith)
        none_yet
