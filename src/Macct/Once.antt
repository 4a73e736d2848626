-- ===== src/Macct/Once.antt =====
-- containers/api/src/services/macct.service.js: a host that has an open job gets no second one.
use text.Mathlib.TextPositions.{eq_refl}
use mathlib.Core.Bool.{false≢true}
use linbo_docker.Base.{ℕ, String, ◌≡◌, refl, sym, ◌∙◌, true, none, some, inl, inr, Option-cases}
use linbo_docker.Macct.{
  Job, Jobs, already_queued, is_active, message_of, new_job, create_macct_repair_job,
}

module _ (J : Jobs) where
  open J use {
    Db, find, find_active, put, publish, find-put, find-publish, find_active-some, find_active-none,
  }

  again :
      (now : ℕ) (id host school : String) (d : Db) {j : Job}
      → find_active d host ≡ some j
      → create_macct_repair_job J now id host school d ≡ (already_queued j, d)
  unfolding create_macct_repair_job
  again now id host school d e = rw (e, create_macct_repair_job) refl

  created :
      (now : ℕ) (id host school : String) (d : Db)
      → find_active d host ≡ none
      → (create_macct_repair_job J now id host school d).1
        ≡ publish
            (message_of (new_job J now id host school) none)
            (put (new_job J now id host school) d)
  unfolding create_macct_repair_job
  created now id host school d e = rw (e, create_macct_repair_job) refl

  -- After a job is created, or found, for a host there is an open job for it.
  has_active :
      (now : ℕ) (id host school : String) (d : Db)
      → (j : Job) × (find_active (create_macct_repair_job J now id host school d).1 host ≡ some j)
  has_active now id host school d = elim (Option-cases (find_active d host)) [
    | inr (j, e) ↦ (j, rw (again now id host school d e) e)
    | inl e ↦
        let j = new_job J now id host school in
        let m = message_of j none in
        rw (created now id host school d e)
          (elim (Option-cases (find_active (publish m (put j d)) host)) [
            | inr found ↦ found
            | inl none_found ↦
                let stored = find-publish m (put j d) id ∙ find-put j d id ∙ rw (eq_refl id) refl in
                absurd (
                  false≢true
                    (sym (find_active-none (publish m (put j d)) host id j none_found stored refl)))
          ])
  ]

  -- A second call for the same host, whatever its school, finds an open job of this host and
  -- writes nothing.
  pub create_macct_repair_job-once :
      (now later : ℕ) (id second host school school' : String) (d : Db)
      → (j : Job) × (j.target_host ≡ host)
        × (is_active j.status ≡ true)
        × (create_macct_repair_job J later second host school'
              (create_macct_repair_job J now id host school d).1
            ≡ (already_queued j, (create_macct_repair_job J now id host school d).1))
  create_macct_repair_job-once now later id second host school school' d =
      let d1 = (create_macct_repair_job J now id host school d).1 in
      let (j, e) = has_active now id host school d in
      let (h, a) = find_active-some d1 host j e in (j, h, a, again later second host school' d1 e)
