-- ===== src/Worker/Runs.antt =====
-- containers/api/src/workers/operation.worker.js: what an operation and its sessions come to when
-- the worker has run them.
use mathlib.Core.Path.{subst}
use linbo_docker.Base.{
  ℕ, zero, suc, ◌+◌, ◌<◌, String, ◌≡◌, refl, sym, ap, ◌∙◌, false, ◌==◌, if◌then◌else◌, some, List,
  [], ◌∷◌, ◌++◌, arith, length,
}
use linbo_docker.Tables.{Table}
use linbo_docker.Tables.Laws.{find-amend_self}
use linbo_docker.Worker.Rows.{WorkStatus, Operation, Session, Host, Reply}
use linbo_docker.Worker.{
  succeeds, session_error, World, batches, process_batch, process_batches, report_progress,
  count_results, final_status, complete_operation, run_sessions,
}
use linbo_docker.Worker.Batches.{
  concat, concat-batches, yes_count, no_count, count_results_lem, yes_count-append, no_count-append,
  yes_count-no_count,
}
use linbo_docker.Worker.Sessions.{
  Entry, session_status, after, after-append, results, process_batch-Ran, process_batch-results,
}

not_zero : (n : ℕ) → (suc n == 0) ≡ false
not_zero n = ground arith

module _ (O : Table Operation) (S : Table Session) (H : Table Host)
    (ssh : String → String → ℕ → String → Reply) (percent : ℕ → ℕ → ℕ) where
  -- The operation is in the table.
  abbrev pub IsThere : String → World O S H → Type 0
  IsThere id w = (p : Operation) × (O.find w.operations id ≡ some p)

  report_progress-IsThere :
      (id : String) (done total : ℕ) (w : World O S H)
      → IsThere id w
      → IsThere id (report_progress O S H ssh percent id done total w)
  unfolding report_progress
  report_progress-IsThere id done total w (p, e) =
      (record p { progress = percent done total }, find-amend_self O id _ w.operations ∙ rw e refl)

  report_progress-sessions :
      (id : String) (done total : ℕ) (w : World O S H) (j : String)
      → session_status O S H (report_progress O S H ssh percent id done total w) j
        ≡ session_status O S H w j
  unfolding report_progress
  report_progress-sessions id done total w j = refl

  -- the state behind the loop over the batches
  record Batched (id : String) (o : Operation) (es : List Entry) (c : ℕ × ℕ) (w : World O S H)
      (r : (ℕ × ℕ) × World O S H) : Type 0 where
    completed : r.0.0 ≡ c.0 + yes_count (results O S H ssh o es)
    failed : r.0.1 ≡ c.1 + no_count (results O S H ssh o es)
    status :
        (j : String)
        → session_status O S H r.1 j ≡ after O S H ssh o es j (session_status O S H w j)
    there : IsThere id r.1

  results-append :
      (o : Operation) (es fs : List Entry)
      → results O S H ssh o (es ++ fs) ≡ results O S H ssh o es ++ results O S H ssh o fs
  results-append o [] fs = refl
  results-append o (e ∷ es) fs =
      ap (◌∷◌ (succeeds (session_error ssh o e.1.1))) (results-append o es fs)

  process_batches-Batched :
      (now : ℕ) (id : String) (o : Operation) (total : ℕ) (bs : List (List Entry)) (c : ℕ × ℕ)
      (w : World O S H)
      → IsThere id w
      → Batched id o (concat bs) c w (process_batches O S H ssh percent now id o total bs c w)
  unfolding process_batches
  process_batches-Batched now id o total [] c w h = record {
    completed = omega arith;
    failed = omega arith;
    status = λ j. refl;
    there = h;
  }
  process_batches-Batched now id o total (b ∷ bs) c w (p, h) =
      let ran = process_batch-Ran O S H ssh now o b w in
      let r = process_batch O S H ssh now o b w in
      let d = count_results r.0 c in
      let v = report_progress O S H ssh percent id (d.0 + d.1) total r.1 in
      let there =
        report_progress-IsThere id (d.0 + d.1) total r.1 (p, ap (λ t. O.find t id) ran.kept ∙ h) in
      let rest = process_batches-Batched now id o total bs d v there in
      let counted : d
          ≡ (c.0 + yes_count (results O S H ssh o b), c.1 + no_count (results O S H ssh o b)) =
        count_results_lem r.0 c ∙ rw (process_batch-results O S H ssh now o b w) refl in
      let yes = ap (λ (u : ℕ × ℕ). u.0) counted in
      let no' = ap (λ (u : ℕ × ℕ). u.1) counted in
      record {
        completed = rw (results-append o b (concat bs)) (
            omega (
              arith,
              rest.completed,
              yes,
              yes_count-append (results O S H ssh o b) (results O S H ssh o (concat bs)),
            ));
        failed = rw (results-append o b (concat bs)) (
            omega (
              arith,
              rest.failed,
              no',
              no_count-append (results O S H ssh o b) (results O S H ssh o (concat bs)),
            ));
        status = λ j.
            rest.status j
            ∙ ap (after O S H ssh o (concat bs) j) (ran.status j)
            ∙ sym (after-append O S H ssh o b (concat bs) j (session_status O S H w j));
        there = rest.there;
      }

  -- The operation and its sessions when the worker is done with them.
  pub record Finished (now : ℕ) (id : String) (o : Operation) (es : List Entry) (w w' : World O S H)
      : Type 0 where
    pub row : Operation
    pub found : O.find w'.operations id ≡ some row
    pub status_is : row.status ≡ (
        if no_count (results O S H ssh o es) == 0
        then WorkStatus.completed
        else WorkStatus.completed_with_errors)
    pub ended_at : row.completed_at ≡ some now
    pub progress_is : row.progress ≡ 100
    pub stats_are :
        row.stats
        ≡ some (record {
          total = length es;
          completed = yes_count (results O S H ssh o es);
          failed = no_count (results O S H ssh o es);
        })
    pub adds_up : yes_count (results O S H ssh o es) + no_count (results O S H ssh o es) ≡ length es
    pub sessions_are :
        (j : String) → session_status O S H w' j ≡ after O S H ssh o es j (session_status O S H w j)

  final_status_lem :
      (n : ℕ)
      → final_status n ≡ (if n == 0 then WorkStatus.completed else WorkStatus.completed_with_errors)
  final_status_lem zero = refl
  final_status_lem (suc n) = rw (not_zero n) refl

  length-results : (o : Operation) (es : List Entry) → length (results O S H ssh o es) ≡ length es
  length-results o [] = refl
  length-results o (e ∷ es) = ap suc (length-results o es)

  complete-Finished :
      (now : ℕ) (id : String) (o : Operation) (es : List Entry) (w : World O S H)
      (r : (ℕ × ℕ) × World O S H)
      → Batched id o es (0, 0) w r
      → Finished now id o es w (complete_operation O S H now id (length es) r.0 r.1)
  unfolding complete_operation
  complete-Finished now id o es w ((c, f), v) b =
      let (p, there) = b.there in
      let c' : c ≡ yes_count (results O S H ssh o es) = omega (arith, b.completed) in
      let f' : f ≡ no_count (results O S H ssh o es) = omega (arith, b.failed) in
      record {
        row = record p {
          status = final_status f;
          completed_at = some now;
          progress = 100;
          stats = some (record { total = length es; completed = c; failed = f });
        };
        found = find-amend_self O id _ v.operations ∙ rw there refl;
        status_is = ap final_status f' ∙ final_status_lem (no_count (results O S H ssh o es));
        ended_at = refl;
        progress_is = refl;
        stats_are = rw (c', f') refl;
        adds_up = omega (arith, yes_count-no_count (results O S H ssh o es), length-results o es);
        sessions_are = b.status;
      }

  -- With a positive number of sessions at once, an operation that is in the table is finished by
  -- the worker: its status is completed, or completed with errors if a session fails; its
  -- progress is 100; its statistics count the sessions that succeed and those that fail, and they
  -- add up; and every session is completed or failed as its host's commands say.
  pub run_sessions-Finished :
      (max now : ℕ) (id : String) (o : Operation) (es : List Entry) (w : World O S H)
      → 0 < max
      → IsThere id w
      → Finished now id o es w (run_sessions O S H ssh percent max now id o es w)
  unfolding run_sessions
  run_sessions-Finished max now id o es w m h =
      let all_of = concat-batches (length es) max es m (omega arith) in
      let b =
        process_batches-Batched now id o (length es) (batches (length es) max es) (0, 0) w h in
      complete-Finished now id o es w
        (process_batches O S H ssh percent now id o (length es) (batches (length es) max es) (0, 0)
          w)
        (subst
          (λ (fs : List Entry).
            Batched id o fs (0, 0) w
              (process_batches O S H ssh percent now id o (length es) (batches (length es) max es)
                (0, 0) w))
          all_of b)
