-- ===== src/Scan/Stale.antt =====
-- containers/api/src/services/host.service.js: which hosts are set offline, and that a host which a
-- scan has just found is not one of them.
use text.Mathlib.Text.{◌==◌ as str_eq}
use text.Mathlib.TextEquality.{eq_iff}
use mathlib.Core.Bool.{false≢true}
use linbo_docker.Tables.{is_some}
use linbo_docker.Base.{
  ℕ, ◌+◌, ◌-◌, ◌*◌, ◌≤◌, ◌<◌, String, ◌≡◌, refl, sym, ◌∙◌, Bool, true, false, not, ◌&&◌, ◌||◌,
  &&-true, lt→ltb, Option, none, some, arith, if◌then◌else◌, inl, inr, Bool-cases, if-both,
}
use linbo_docker.Tables.{Table}
use linbo_docker.Tables.Laws.{on, find-amend_self, find-amend_many}
use linbo_docker.Scan.{
  comes_online, os_differs, Host, ScanResult, needs_bump, scanned_host, is_written,
  update_host_scan_result, is_stale, offline_host, before, mark_stale_hosts_offline,
}

and_false : (b : Bool) → (b && false) ≡ false
and_false b = ground arith

or_true : (a b : Bool) → (a || (b || true)) ≡ true
or_true a b = ground arith

module _ (H : Table Host) where
  -- The host is shown online, was last seen before the threshold, and was not found online since
  -- the threshold.
  pub record IsStale (threshold : ℕ) (h : Host) : Type 0 where
    pub is_online : h.status ≡ "online"
    pub seen_before : (t : ℕ) × (h.last_seen ≡ some t) × (t < threshold)
    pub not_since : (t : ℕ) → h.last_online_at ≡ some t → t < threshold

  before-lt :
      (threshold : ℕ) (o : Option ℕ)
      → before H threshold o ≡ true
      → (t : ℕ) × (o ≡ some t) × (t < threshold)
  before-lt threshold none h = cc
  before-lt threshold (some t) h = (t, refl, ground arith)

  the_time : {t u : ℕ} → some t ≡ some u → t ≡ u
  the_time h = cc

  -- the two branches of the query, for each `lastOnlineAt`
  abbrev branches : Option ℕ → ℕ → Bool → Bool
  branches o threshold seen = not (is_some o) && seen || before H threshold o && seen

  branches-not_since :
      (threshold : ℕ) (o : Option ℕ) (seen : Bool)
      → branches o threshold seen ≡ true
      → (seen ≡ true) × ((t : ℕ) → o ≡ some t → t < threshold)
  branches-not_since threshold none seen h = (ground (arith, h), λ t e. cc)
  branches-not_since threshold (some u) seen h =
      (ground (arith, h), λ t e. rw (← the_time e) (ground (arith, h)))

  since-branches :
      (threshold : ℕ) (o : Option ℕ)
      → ((t : ℕ) → o ≡ some t → t < threshold)
      → branches o threshold true ≡ true
  since-branches threshold none h = refl
  since-branches threshold (some u) h = ground (arith, h u refl)

  is_stale-IsStale :
      (threshold : ℕ) (h : Host) → is_stale H threshold h ≡ true → IsStale threshold h
  unfolding is_stale
  is_stale-IsStale threshold h e =
      let (shown, rest) = &&-true (str_eq h.status "online") _ e in
      let (seen, since) =
        branches-not_since threshold h.last_online_at (before H threshold h.last_seen) rest in
      record {
        is_online = (eq_iff h.status "online").0 shown;
        seen_before = before-lt threshold h.last_seen seen;
        not_since = since;
      }

  IsStale-is_stale :
      (threshold : ℕ) (h : Host) → IsStale threshold h → is_stale H threshold h ≡ true
  unfolding is_stale
  IsStale-is_stale threshold h s =
      let (t, e, lt) = s.seen_before in
      rw (s.is_online, e, lt→ltb t threshold lt)
        (since-branches threshold h.last_online_at s.not_since)

  -- what becomes of a row, or of none
  pub data Swept (now threshold : ℕ) : Option Host → Option Host → Type 0 where
    stays_missing : Swept now threshold none none
    set_offline :
        (h : Host)
        → IsStale threshold h
        → Swept now threshold (some h) (
            some (record {
              hostname = h.hostname;
              ip_address = h.ip_address;
              status = "offline";
              last_seen = some now;
              last_online_at = h.last_online_at;
              detected_os = none;
            }))
    left_alone : (h : Host) → ¬ IsStale threshold h → Swept now threshold (some h) (some h)

  swept :
      (now threshold : ℕ) (o : Option Host)
      → Swept now threshold o
          (on (λ h. if is_stale H threshold h then offline_host H now h else h) o)
  swept now threshold none = stays_missing
  swept now threshold (some h) = elim (Bool-cases (is_stale H threshold h)) [
    | inl yes' ↦ rw yes' (set_offline h (is_stale-IsStale threshold h yes'))
    | inr no' ↦ rw no' (left_alone h (λ s. false≢true (sym no' ∙ IsStale-is_stale threshold h s)))
  ]

  -- Every row of the table after the sweep: a missing row stays missing; a stale host, that is one
  -- which is shown online, was last seen before the threshold and was not found online by a scan
  -- since, is written as offline, as seen now, and with no operating system, its other fields kept;
  -- and any other host is left as it is.
  pub mark_stale_hosts_offline_lem :
      (now seconds : ℕ) (t : H.Rows) (j : String)
      → Swept now
          (now - seconds * 1000)
          (H.find t j)
          (H.find (mark_stale_hosts_offline H now seconds t) j)
  unfolding mark_stale_hosts_offline
  mark_stale_hosts_offline_lem now seconds t j =
      rw
        (find-amend_many H (is_stale H (now - seconds * 1000)) (offline_host H now) (λ h. refl) t j)
        (swept now (now - seconds * 1000) (H.find t j))

  not_before : (threshold seen : ℕ) → threshold ≤ seen → before H threshold (some seen) ≡ false
  not_before threshold seen h = ground arith

  recent-is_stale :
      (threshold seen : ℕ) (h : Host)
      → h.last_online_at ≡ some seen
      → threshold ≤ seen
      → is_stale H threshold h ≡ false
  unfolding is_stale
  recent-is_stale threshold seen h e le =
      rw (e, not_before threshold seen le) (and_false (str_eq h.status "online"))

  not_bumped :
      (timeout now : ℕ) (o : Option ℕ)
      → needs_bump timeout now o ≡ false
      → (seen : ℕ) × (o ≡ some seen) × (now ≤ seen + timeout * 500)
  not_bumped timeout now none h = cc
  not_bumped timeout now (some seen) h = (seen, refl, ground arith)

  scanned-bumped :
      (timeout now : ℕ) (h : Host) (r : ScanResult)
      → needs_bump timeout now h.last_online_at ≡ true
      → (scanned_host timeout now h r h).last_online_at ≡ some now
  unfolding scanned_host
  scanned-bumped timeout now h r e = rw e refl

  scanned-kept :
      (timeout now : ℕ) (h : Host) (r : ScanResult)
      → needs_bump timeout now h.last_online_at ≡ false
      → (scanned_host timeout now h r h).last_online_at ≡ h.last_online_at
  unfolding scanned_host
  scanned-kept timeout now h r e = rw e refl

  -- the row as the scan leaves it, written or not
  abbrev pub left_host : ℕ → ℕ → Host → ScanResult → Host
  left_host timeout now h r =
      if is_written timeout now h r then scanned_host timeout now h r h else h

  bumped-is_written :
      (timeout now : ℕ) (h : Host) (r : ScanResult)
      → r.is_online ≡ true
      → needs_bump timeout now h.last_online_at ≡ true
      → is_written timeout now h r ≡ true
  unfolding is_written
  bumped-is_written timeout now h r o e =
      rw (o, e) (or_true (comes_online h) (os_differs r.detected_os_is h.detected_os))

  left_host-recent :
      (timeout now : ℕ) (h : Host) (r : ScanResult)
      → r.is_online ≡ true
      → (seen : ℕ) × ((left_host timeout now h r).last_online_at ≡ some seen)
        × (now ≤ seen + timeout * 500)
  left_host-recent timeout now h r o = elim (Bool-cases (needs_bump timeout now h.last_online_at)) [
    | inl e ↦ (
      now,
      rw (bumped-is_written timeout now h r o e) (scanned-bumped timeout now h r e),
      omega arith,
    )
    | inr e ↦
        let (seen, f, le) = not_bumped timeout now h.last_online_at e in
        (
          seen,
          if-both (λ (u : Host). u.last_online_at ≡ some seen) (is_written timeout now h r)
              (scanned-kept timeout now h r e ∙ f) f,
          le,
        )
  ]

  find-update :
      (timeout now : ℕ) (id : String) (r : ScanResult) (t : H.Rows) (h : Host)
      → H.find t id ≡ some h
      → H.find (update_host_scan_result H timeout now id h r t) id
        ≡ some (left_host timeout now h r)
  unfolding update_host_scan_result
  find-update timeout now id r t h e = elim (Bool-cases (is_written timeout now h r)) [
    | inl w ↦ rw w (find-amend_self H id (scanned_host timeout now h r) t ∙ rw e refl)
    | inr w ↦ rw w e
  ]

  -- A host that a scan finds online is not stale for half of the time-out after the scan, whether
  -- or not the scan writes to its row: the throttled writes keep it from being set offline.
  pub update_host_scan_result-is_stale :
      (timeout now later : ℕ) (id : String) (r : ScanResult) (t : H.Rows) (h : Host)
      → H.find t id ≡ some h
      → r.is_online ≡ true
      → later ≤ now + timeout * 500
      → (g : Host) × (H.find (update_host_scan_result H timeout now id h r t) id ≡ some g)
        × (is_stale H (later - timeout * 1000) g ≡ false)
  update_host_scan_result-is_stale timeout now later id r t h e o le =
      let (seen, f, near) = left_host-recent timeout now h r o in
      (
        left_host timeout now h r,
        find-update timeout now id r t h e,
        recent-is_stale (later - timeout * 1000) seen (left_host timeout now h r) f (omega arith),
      )
