-- ===== src/Macct/Retries.antt =====
-- containers/api/src/services/macct.service.js: how often `retryJob` publishes a job.
use text.Mathlib.TextPositions.{eq_refl}
use linbo_docker.Base.{
  ℕ, zero, suc, ◌+◌, ◌≤◌, String, ◌≡◌, refl, ◌∙◌, false, none, some, [], ◌∷◌, arith, leb, length,
  length-append, inl, inr, Bool-cases,
}
use linbo_docker.Macct.{
  Job, Jobs, max_retries, message_of, retried_job, dead_job, move_to_dlq, retry_found, retry_job,
}

module _ (J : Jobs) where
  open J use {
    Db, find, put, publish, bury, jobs_stream, dead_stream, find-put, find-publish, find-bury,
    find-id, jobs-put, jobs-publish, jobs-bury, dead-put, dead-publish, dead-bury,
  }

  -- `retryJob` is called n times
  unfoldable pub retries : ℕ → String → Db → Db
  unfolding retry_job
  retries zero id d = d
  retries (suc n) id d = retries n id (retry_job J id d).1

  abbrev pub jobs_count : Db → ℕ
  jobs_count d = length (jobs_stream d)

  abbrev pub dead_count : Db → ℕ
  dead_count d = length (dead_stream d)

  -- the job of `id` after the calls that lead from `d` to `d'`, n of them
  pub record Retried (n : ℕ) (id : String) (j : Job) (d d' : Db) : Type 0 where
    pub job : Job
    pub found : find d' id ≡ some job
    pub bounded : job.attempt ≤ max_retries
    pub counted : jobs_count d' + j.attempt ≡ jobs_count d + job.attempt
    pub all_counted : jobs_count d' + dead_count d' ≡ jobs_count d + dead_count d + n

  dead-Retried :
      (id : String) (j : Job) (d : Db)
      → j.id ≡ id
      → j.attempt ≤ max_retries
      → Retried 1 id j d (move_to_dlq J j d)
  unfolding move_to_dlq
  dead-Retried id j d e h =
      let m = message_of j j.error in
      let b = bury m d in
      record {
        job = dead_job J j;
        found = find-put (dead_job J j) b id ∙ rw (e, eq_refl id) refl;
        bounded = h;
        counted = rw (jobs-put (dead_job J j) b, jobs-bury m d) refl;
        all_counted =
            rw (jobs-put (dead_job J j) b, jobs-bury m d, dead-put (dead_job J j) b, dead-bury m d)
              (omega (arith, length-append (dead_stream d) (m ∷ [])));
      }

  again-Retried :
      (id : String) (j : Job) (d : Db)
      → j.id ≡ id
      → leb max_retries j.attempt ≡ false
      → Retried 1 id j d (publish (message_of (retried_job J j) none) (put (retried_job J j) d))
  again-Retried id j d e h =
      let r = retried_job J j in
      let m = message_of r none in
      record {
        job = r;
        found = find-publish m (put r d) id ∙ find-put r d id ∙ rw (e, eq_refl id) refl;
        bounded = ground arith;
        counted =
            rw (jobs-publish m (put r d), jobs-put r d)
              (omega (arith, length-append (jobs_stream d) (m ∷ [])));
        all_counted =
            rw (jobs-publish m (put r d), jobs-put r d, dead-publish m (put r d), dead-put r d)
              (omega (arith, length-append (jobs_stream d) (m ∷ [])));
      }

  retry_found-Retried :
      (id : String) (j : Job) (d : Db)
      → j.id ≡ id
      → j.attempt ≤ max_retries
      → Retried 1 id j d (retry_found J j d).1
  unfolding retry_found
  retry_found-Retried id j d e h = elim (Bool-cases (leb max_retries j.attempt)) [
    | inl many ↦ rw many (dead-Retried id j d e h)
    | inr few ↦ rw few (again-Retried id j d e few)
  ]

  retry_job-Retried :
      (id : String) (j : Job) (d : Db)
      → find d id ≡ some j
      → j.attempt ≤ max_retries
      → Retried 1 id j d (retry_job J id d).1
  unfolding retry_job
  retry_job-Retried id j d e h = rw (e, retry_job) (retry_found-Retried id j d (find-id d id j e) h)

  -- Of n calls of `retryJob` for one job whose attempt is at most three, each writes one message,
  -- to the jobs' stream or to the dead letters; the attempt stays at most three, and it rises by
  -- one for each message to the jobs' stream, so that there are three of these at most.
  pub retries-Retried :
      (n : ℕ) (id : String) (j : Job) (d : Db)
      → find d id ≡ some j
      → j.attempt ≤ max_retries
      → Retried n id j d (retries n id d)
  unfolding retries
  retries-Retried zero id j d e h = record {
    job = j;
    found = e;
    bounded = h;
    counted = refl;
    all_counted = omega arith;
  }
  retries-Retried (suc n) id j d e h =
      let one = retry_job-Retried id j d e h in
      let rest = retries-Retried n id one.job (retry_job J id d).1 one.found one.bounded in
      record {
        job = rest.job;
        found = rest.found;
        bounded = rest.bounded;
        counted = omega (arith, one.counted, rest.counted);
        all_counted = omega (arith, one.all_counted, rest.all_counted);
      }
