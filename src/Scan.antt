-- ===== src/Scan.antt =====
-- containers/api/src/workers/host-status.worker.js and the functions of
-- containers/api/src/services/host.service.js that it calls: the port scan of the hosts, and the
-- hosts that are set offline. The ports' answers are a parameter, times are in milliseconds and one
-- for a cycle, and the Redis counters of failed scans are a function of the host. Caches, WebSocket
-- messages and timers are left out.
pub mod Online
pub mod Stale
pub mod Counting
use text.Mathlib.Text.{◌==◌ as str_eq}
use linbo_docker.Base.{
  ℕ, zero, suc, ◌+◌, ◌-◌, ◌*◌, String, Bool, true, false, not, ◌&&◌, ◌||◌, Option, none, some, List,
  [], ◌∷◌, ltb, leb, ◌==◌, if◌then◌else◌, any,
}
use linbo_docker.Tables.{Table, amend, find_many, amend_many, is_some}

pub record Host : Type 0 where
  pub hostname : String
  pub ip_address : Option String
  pub status : String
  pub detected_os : Option String
  pub last_seen : Option ℕ
  pub last_online_at : Option ℕ

pub record ScanResult : Type 0 where
  pub is_online : Bool
  pub detected_os_is : Option String

abbrev pub no_hit : ScanResult
no_hit = record { is_online = false; detected_os_is = none }

abbrev pub hit : String → ScanResult
hit os = record { is_online = true; detected_os_is = some os }

-- `isOpen ip port` is `checkPort` with the time-out of the scan.
module _ (is_open : String → ℕ → Bool) where
  -- the loop over the Windows ports
  unfoldable pub scan_windows : String → List ℕ → ScanResult
  scan_windows ip [] = no_hit
  scan_windows ip (port ∷ ports) = if is_open ip port then hit "windows" else scan_windows ip ports

  unfoldable pub scan_host : Option String → ScanResult
  unfolding scan_windows
  scan_host none = no_hit
  scan_host (some ip) =
      if is_open ip 2222
      then hit "linbo"
      else if is_open ip 22
      then hit "linux"
      else scan_windows ip (135 ∷ 445 ∷ 3389 ∷ [])

-- `detectedOs !== undefined && detectedOs !== current.detectedOs`
abbrev pub os_differs : Option String → Option String → Bool
os_differs none old = false
os_differs (some os) none = true
os_differs (some os) (some old) = not (str_eq os old)

-- `timeout` is OFFLINE_TIMEOUT_SEC, so `timeout * 500` is half of it in milliseconds.
abbrev pub needs_bump : ℕ → ℕ → Option ℕ → Bool
needs_bump timeout now none = true
needs_bump timeout now (some seen) = ltb (timeout * 500) (now - seen)

abbrev pub comes_online : Host → Bool
comes_online h = not (str_eq h.status "online")

-- the data that `updateHostScanResult` writes
unfoldable pub scanned_host : ℕ → ℕ → Host → ScanResult → Host → Host
scanned_host timeout now current r h =
    let bump = needs_bump timeout now current.last_online_at in
    record h {
      status = if comes_online current then "online" else h.status;
      detected_os =
          if os_differs r.detected_os_is current.detected_os
          then r.detected_os_is
          else h.detected_os;
      last_online_at = if bump then some now else h.last_online_at;
      last_seen = if comes_online current || bump then some now else h.last_seen;
    }

unfoldable pub is_written : ℕ → ℕ → Host → ScanResult → Bool
is_written timeout now current r =
    r.is_online
    && (comes_online current
        || (os_differs r.detected_os_is current.detected_os
            || needs_bump timeout now current.last_online_at))

pub record Counters : Type 0 where
  pub online_hits : ℕ
  pub status_changes : ℕ
  pub os_changes : ℕ
  pub throttled_bumps : ℕ
  pub os_stale_clear : ℕ
  pub db_writes : ℕ
  pub no_hits : ℕ

abbrev pub no_counts : Counters
no_counts = record {
  online_hits = 0;
  status_changes = 0;
  os_changes = 0;
  throttled_bumps = 0;
  os_stale_clear = 0;
  db_writes = 0;
  no_hits = 0;
}

abbrev pub one_if : Bool → ℕ
one_if true = 1
one_if false = 0

-- the counters behind one host that is online
unfoldable pub count_online : ℕ → ℕ → Host → ScanResult → Counters → Counters
unfolding is_written
count_online timeout now current r c =
    let updated = is_written timeout now current r in
    let os = os_differs r.detected_os_is current.detected_os in
    record c {
      online_hits = c.online_hits + 1;
      db_writes = c.db_writes + one_if updated;
      status_changes = c.status_changes + one_if (updated && comes_online current);
      os_changes = c.os_changes + one_if (updated && os);
      throttled_bumps =
          c.throttled_bumps + one_if (updated && (not (comes_online current) && not os));
    }

-- behind one that is not, by whether its operating system is cleared
unfoldable pub count_no_hit : Bool → Counters → Counters
count_no_hit cleared c = record c {
  no_hits = c.no_hits + 1;
  os_stale_clear = c.os_stale_clear + one_if cleared;
  db_writes = c.db_writes + one_if cleared;
}

module _ (H : Table Host) where
  -- the hosts and the counters `host:scan:fails:{id}`, 0 for a key that is missing
  pub record Scanner : Type 0 where
    pub hosts : H.Rows
    pub fails : String → ℕ
    pub counters : Counters

  abbrev pub set_fails : String → ℕ → (String → ℕ) → String → ℕ
  set_fails k n fails j = if str_eq k j then n else fails j

  unfoldable pub update_host_scan_result : ℕ → ℕ → String → Host → ScanResult → H.Rows → H.Rows
  unfolding scanned_host is_written amend
  update_host_scan_result timeout now id current r t =
      if is_written timeout now current r
      then amend H id (scanned_host timeout now current r) t
      else t

  unfoldable pub process_online : ℕ → ℕ → String → Host → ScanResult → Scanner → Scanner
  unfolding update_host_scan_result count_online
  process_online timeout now id current r s = record {
    hosts = update_host_scan_result timeout now id current r s.hosts;
    fails = set_fails id 0 s.fails;
    counters = count_online timeout now current r s.counters;
  }

  -- `stale_after` is SCAN_STALE_AFTER.
  abbrev pub is_cleared : ℕ → String → Host → Scanner → Bool
  is_cleared stale_after id current s =
      leb stale_after (s.fails id + 1) && is_some current.detected_os

  unfoldable pub process_no_hit : ℕ → String → Host → Scanner → Scanner
  unfolding amend count_no_hit
  process_no_hit stale_after id current s =
      let cleared = is_cleared stale_after id current s in
      record {
        hosts =
            if cleared then amend H id (λ h. record h { detected_os = none }) s.hosts else s.hosts;
        fails = set_fails id (if cleared then 0 else s.fails id + 1) s.fails;
        counters = count_no_hit cleared s.counters;
      }

  module _ (is_open : String → ℕ → Bool) (timeout stale_after now : ℕ) where
    unfoldable pub process_host : String → Host → Scanner → Scanner
    unfolding scan_host process_online process_no_hit
    process_host id current s =
        let r = scan_host is_open current.ip_address in
        if r.is_online
        then process_online timeout now id current r s
        else process_no_hit stale_after id current s

    -- the loop over the hosts that were read at the start of the cycle
    unfoldable pub process_hosts : List (String × Host) → Scanner → Scanner
    unfolding process_host
    process_hosts [] s = s
    process_hosts ((id, h) ∷ hs) s = process_hosts hs (process_host id h s)

    -- `running` is `isScanRunning`: a cycle is skipped while another one runs.
    unfoldable pub run_scan_cycle : Bool → Scanner → Scanner
    unfolding process_hosts find_many
    run_scan_cycle running s =
        if running
        then s
        else process_hosts (find_many H (λ h. is_some h.ip_address) s.hosts)
            (record s { counters = no_counts })

  -- `lt: threshold`, which holds of no null
  abbrev pub before : ℕ → Option ℕ → Bool
  before threshold none = false
  before threshold (some t) = ltb t threshold

  -- the query of `getStaleHosts`
  unfoldable pub is_stale : ℕ → Host → Bool
  is_stale threshold h =
      str_eq h.status "online"
      && (not (is_some h.last_online_at) && before threshold h.last_seen
          || before threshold h.last_online_at && before threshold h.last_seen)

  -- `bulkUpdateStatus(hostIds, 'offline', { detectedOs: null })`
  abbrev pub offline_host : ℕ → Host → Host
  offline_host now h = record h { status = "offline"; last_seen = some now; detected_os = none }

  unfoldable pub mark_stale_hosts_offline : ℕ → ℕ → H.Rows → H.Rows
  unfolding is_stale amend_many
  mark_stale_hosts_offline now seconds t =
      amend_many H (is_stale (now - seconds * 1000)) (offline_host now) t
