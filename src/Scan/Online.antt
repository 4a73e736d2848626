-- ===== src/Scan/Online.antt =====
-- containers/api/src/workers/host-status.worker.js: what a port scan finds, and that a scan cycle
-- sets no host offline.
use text.Mathlib.Text.{◌==◌ as str_eq}
use linbo_docker.Base.{
  ℕ, String, ◌≡◌, refl, ◌∙◌, ◌⊎◌, Bool, true, false, Option, none, some, List, [], ◌∷◌, arith,
  if◌then◌else◌, inl, inr, Bool-cases, if-both, any,
}
use linbo_docker.Tables.{Table, amend, find_many, is_some}
use linbo_docker.Tables.Laws.{on, find-amend}
use linbo_docker.Scan.{
  Host, ScanResult, scan_host, Scanner, scanned_host, is_written, is_cleared, no_counts,
  update_host_scan_result, process_online, process_no_hit, process_host, process_hosts,
  run_scan_cycle,
}

-- The host is online if one of the five ports is open, and the first open one in the order of the
-- list tells the operating system.
record Scanned (is_open : String → ℕ → Bool) (ip : String) (r : ScanResult) : Type 0 where
  pub online_iff : r.is_online ≡ any (is_open ip) (2222 ∷ 22 ∷ 135 ∷ 445 ∷ 3389 ∷ [])
  pub linbo_first : is_open ip 2222 ≡ true → r.detected_os_is ≡ some "linbo"
  pub linux_next : is_open ip 2222 ≡ false → is_open ip 22 ≡ true → r.detected_os_is ≡ some "linux"
  pub windows_last :
      is_open ip 2222 ≡ false
      → is_open ip 22 ≡ false
      → r.is_online ≡ true
      → r.detected_os_is ≡ some "windows"

-- A scan finds a host online just if one of its five ports is open; it is LINBO if port 2222 is
-- open, else Linux if port 22 is, else Windows.
scan_host-Scanned :
    (is_open : String → ℕ → Bool) (ip : String) → Scanned is_open ip (scan_host is_open (some ip))
unfolding scan_host
scan_host-Scanned is_open ip = record {
  online_iff = ground arith;
  linbo_first = λ h. ground arith;
  linux_next = λ h k. ground arith;
  windows_last = λ h k o. ground arith;
}

-- the same row, or one that is online now
abbrev pub StaysOrOnline : Option Host → Option Host → Type 0
StaysOrOnline none none = Unit
StaysOrOnline none (some h) = ⊥
StaysOrOnline (some h) none = ⊥
StaysOrOnline (some h) (some g) = (g.status ≡ h.status) ⊎ (g.status ≡ "online")

StaysOrOnline-refl : (a : Option Host) → StaysOrOnline a a
StaysOrOnline-refl none = tt
StaysOrOnline-refl (some h) = inl refl

StaysOrOnline-trans :
    (a b c : Option Host) → StaysOrOnline a b → StaysOrOnline b c → StaysOrOnline a c
StaysOrOnline-trans none none none h k = tt
StaysOrOnline-trans (some a) (some b) (some c) (inl h) (inl k) = inl (k ∙ h)
StaysOrOnline-trans (some a) (some b) (some c) (inr h) (inl k) = inr (k ∙ h)
StaysOrOnline-trans (some a) (some b) (some c) h (inr k) = inr k
StaysOrOnline-trans none none (some c) h k = absurd k
StaysOrOnline-trans none (some b) c h k = absurd h
StaysOrOnline-trans (some a) none c h k = absurd h
StaysOrOnline-trans (some a) (some b) none h k = absurd k

module _ (H : Table Host) where
  -- From one state of the scanner to another, host by host.
  abbrev pub KeepsOnline : H.Rows → H.Rows → Type 0
  KeepsOnline t u = (j : String) → StaysOrOnline (H.find t j) (H.find u j)

  amend-KeepsOnline :
      (id : String) (f : Host → Host) (t : H.Rows)
      → ((h : Host) → StaysOrOnline (some h) (some (f h)))
      → KeepsOnline t (amend H id f t)
  amend-KeepsOnline id f t keep j = rw (find-amend H id j f t) (chosen (str_eq id j) (H.find t j))
    where
      chosen : (b : Bool) (o : Option Host) → StaysOrOnline o (if b then on f o else o)
      chosen true none = tt
      chosen true (some h) = keep h
      chosen false o = StaysOrOnline-refl o

  scanned_host-StaysOrOnline :
      (timeout now : ℕ) (current : Host) (r : ScanResult) (h : Host)
      → StaysOrOnline (some h) (some (scanned_host timeout now current r h))
  unfolding scanned_host
  scanned_host-StaysOrOnline timeout now current r h =
      elim (Bool-cases (str_eq current.status "online")) [
        | inl e ↦ inl (rw e refl)
        | inr e ↦ inr (rw e refl)
      ]

  process_online-KeepsOnline :
      (timeout now : ℕ) (id : String) (current : Host) (r : ScanResult) (s : Scanner H)
      → KeepsOnline s.hosts (process_online H timeout now id current r s).hosts
  unfolding process_online update_host_scan_result
  process_online-KeepsOnline timeout now id current r s =
      elim (Bool-cases (is_written timeout now current r)) [
        | inl e ↦ rw e (
            amend-KeepsOnline id (scanned_host timeout now current r) s.hosts
              (scanned_host-StaysOrOnline timeout now current r))
        | inr e ↦ rw e (λ j. StaysOrOnline-refl (H.find s.hosts j))
      ]

  process_no_hit-KeepsOnline :
      (stale_after : ℕ) (id : String) (current : Host) (s : Scanner H)
      → KeepsOnline s.hosts (process_no_hit H stale_after id current s).hosts
  unfolding process_no_hit
  process_no_hit-KeepsOnline stale_after id current s =
      elim (Bool-cases (is_cleared H stale_after id current s)) [
        | inl e ↦ rw e (amend-KeepsOnline id _ s.hosts (λ h. inl refl))
        | inr e ↦ rw e (λ j. StaysOrOnline-refl (H.find s.hosts j))
      ]

  module _ (is_open : String → ℕ → Bool) (timeout stale_after now : ℕ) where
    process_host-KeepsOnline :
        (id : String) (current : Host) (s : Scanner H)
        → KeepsOnline s.hosts (process_host H is_open timeout stale_after now id current s).hosts
    unfolding process_host
    process_host-KeepsOnline id current s =
        let r = scan_host is_open current.ip_address in
        if-both (λ (u : Scanner H). KeepsOnline s.hosts u.hosts) r.is_online
          (process_online-KeepsOnline timeout now id current r s)
          (process_no_hit-KeepsOnline stale_after id current s)

    process_hosts-KeepsOnline :
        (hs : List (String × Host)) (s : Scanner H)
        → KeepsOnline s.hosts (process_hosts H is_open timeout stale_after now hs s).hosts
    unfolding process_hosts
    process_hosts-KeepsOnline [] s j = StaysOrOnline-refl (H.find s.hosts j)
    process_hosts-KeepsOnline ((id, h) ∷ hs) s j =
        let v = process_host H is_open timeout stale_after now id h s in
        StaysOrOnline-trans (H.find s.hosts j) (H.find v.hosts j)
          (H.find (process_hosts H is_open timeout stale_after now hs v).hosts j)
          (process_host-KeepsOnline id h s j) (process_hosts-KeepsOnline hs v j)

    -- Whatever the ports answer, a scan cycle neither adds nor removes a host, and every host has
    -- the status that it had, or is online: the scanner sets no host offline.
    pub run_scan_cycle-KeepsOnline :
        (running : Bool) (s : Scanner H)
        → KeepsOnline s.hosts (run_scan_cycle H is_open timeout stale_after now running s).hosts
    unfolding run_scan_cycle
    run_scan_cycle-KeepsOnline true s j = StaysOrOnline-refl (H.find s.hosts j)
    run_scan_cycle-KeepsOnline false s j =
        process_hosts-KeepsOnline (find_many H (λ h. is_some h.ip_address) s.hosts)
          (record s { counters = no_counts }) j
