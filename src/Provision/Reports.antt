-- ===== src/Provision/Reports.antt =====
-- containers/api/src/services/provisioning.service.js: what the reports of the worker do to the
-- operations and to the hosts.
use text.Mathlib.Text.{◌==◌ as str_eq}
use linbo_docker.Base.{
  ℕ, String, ◌≡◌, refl, ap, ◌∙◌, Bool, true, false, Option, none, some, List, [], ◌∷◌, All,
  if◌then◌else◌, inl, inr, Option-cases, Bool-cases, if-both,
}
use linbo_docker.Macct.{JobStatus}
use linbo_docker.Tables.{Table}
use linbo_docker.Tables.Laws.{on, holds, find-amend}
use linbo_docker.Provision.{
  Operation, ProvisionStatus, Host, Report, is_dry, host_status, State, provisioned,
  sync_host_provision_status, update_provision_status,
}

abbrev pub is_synced_status : Option ProvisionStatus → Bool
is_synced_status (some ProvisionStatus.synced) = true
is_synced_status _ = false

abbrev pub is_synced : Host → Bool
is_synced h = is_synced_status h.provision_status

-- a report of a completed job is one of a dry run
abbrev pub IsDryReport : Report → Type 0
IsDryReport r = r.new_status ≡ some JobStatus.completed → is_dry r.new_result ≡ true

host_status-dry : (r : Report) → IsDryReport r → is_synced_status (host_status r) ≡ false
unfolding host_status
host_status-dry r h = by_status r.new_status refl
  where
    by_status : (o : Option JobStatus) → r.new_status ≡ o → is_synced_status (host_status r) ≡ false
    by_status (some JobStatus.completed) e = rw (e, host_status, h e) refl
    by_status none e = rw (e, host_status) refl
    by_status (some JobStatus.pending) e = rw (e, host_status) refl
    by_status (some JobStatus.running) e = rw (e, host_status) refl
    by_status (some JobStatus.retrying) e = rw (e, host_status) refl
    by_status (some JobStatus.failed) e = rw (e, host_status) refl
    by_status (some (JobStatus.other w)) e = rw (e, host_status) refl

module _ (O : Table Operation) (H : Table Host) where
  -- what the host gets of the report of this operation
  abbrev pub report_host : String → Option String → Option ProvisionStatus → String → Host → Host
  report_host id none status j h = h
  report_host id (some host) none j h = h
  report_host id (some host) (some status) j h =
      if str_eq host j then provisioned O H status id h else h

  find-sync :
      (o : Option String) (id : String) (status : Option ProvisionStatus) (t : H.Rows) (j : String)
      → H.find (sync_host_provision_status O H o id status t) j
        ≡ on (report_host id o status j) (H.find t j)
  unfolding sync_host_provision_status
  find-sync none id status t j = same (H.find t j)
    where
      same : (u : Option Host) → u ≡ on (λ (h : Host). h) u
      same none = refl
      same (some h) = refl
  find-sync (some host) id none t j = same (H.find t j)
    where
      same : (u : Option Host) → u ≡ on (λ (h : Host). h) u
      same none = refl
      same (some h) = refl
  find-sync (some host) id (some status) t j =
      find-amend H host j (provisioned O H status id) t ∙ chosen (H.find t j)
    where
      chosen :
          (u : Option Host)
          → (if str_eq host j then on (provisioned O H status id) u else u)
            ≡ on (λ h. if str_eq host j then provisioned O H status id h else h) u
      chosen none = elim (Bool-cases (str_eq host j)) [ inl e ↦ rw e refl | inr e ↦ rw e refl ]
      chosen (some h) = elim (Bool-cases (str_eq host j)) [ inl e ↦ rw e refl | inr e ↦ rw e refl ]

  -- the reports of the worker, in their order
  unfoldable pub reports : List (ℕ × String × Report) → State O H → State O H
  unfolding update_provision_status
  reports [] s = s
  reports ((now, id, r) ∷ rs) s = reports rs (update_provision_status O H now id r s).1

  report_host-is_synced :
      (id : String) (o : Option String) (status : Option ProvisionStatus) (j : String)
      (u : Option Host)
      → is_synced_status status ≡ false
      → holds is_synced u ≡ false
      → holds is_synced (on (report_host id o status j) u) ≡ false
  report_host-is_synced id o status j none e k = refl
  report_host-is_synced id none status j (some h) e k = k
  report_host-is_synced id (some host) none j (some h) e k = k
  report_host-is_synced id (some host) (some status) j (some h) e k =
      if-both (λ (g : Host). is_synced g ≡ false) (str_eq host j) e k

  -- One report: the operation's row, and the hosts.
  update-found :
      (now : ℕ) (id : String) (r : Report) (s : State O H) {o : Operation}
      → O.find s.operations id ≡ some o
      → (update_provision_status O H now id r s).1.hosts
        ≡ sync_host_provision_status O H o.options.host.host_id id (host_status r) s.hosts
  unfolding update_provision_status
  update-found now id r s e = rw (e, update_provision_status) refl

  update-missing :
      (now : ℕ) (id : String) (r : Report) (s : State O H)
      → O.find s.operations id ≡ none
      → (update_provision_status O H now id r s).1 ≡ s
  unfolding update_provision_status
  update-missing now id r s e = rw (e, update_provision_status) refl

  update-is_synced :
      (now : ℕ) (id : String) (r : Report) (s : State O H) (j : String)
      → IsDryReport r
      → holds is_synced (H.find s.hosts j) ≡ false
      → holds is_synced (H.find (update_provision_status O H now id r s).1.hosts j) ≡ false
  update-is_synced now id r s j d k = elim (Option-cases (O.find s.operations id)) [
    | inl e ↦
        ap (λ (u : State O H). holds is_synced (H.find u.hosts j)) (update-missing now id r s e) ∙ k
    | inr (o, e) ↦
        let host = o.options.host.host_id in
        ap (λ (t : H.Rows). holds is_synced (H.find t j)) (update-found now id r s e)
        ∙ ap (holds is_synced) (find-sync host id (host_status r) s.hosts j)
        ∙ report_host-is_synced id host (host_status r) j (H.find s.hosts j) (host_status-dry r d) k
  ]

  -- Where every report of a completed job is one of a dry run, no report of the worker marks a
  -- host as synced: a host that was not synced before is not synced after any list of them,
  -- whatever operations they name.
  pub reports-is_synced :
      (rs : List (ℕ × String × Report)) (s : State O H) (j : String)
      → All (λ (e : ℕ × String × Report). IsDryReport e.2) rs
      → holds is_synced (H.find s.hosts j) ≡ false
      → holds is_synced (H.find (reports rs s).hosts j) ≡ false
  unfolding reports
  reports-is_synced [] s j a k = k
  reports-is_synced ((now, id, r) ∷ rs) s j a k =
      reports-is_synced rs (update_provision_status O H now id r s).1 j a.1
        (update-is_synced now id r s j a.0 k)
