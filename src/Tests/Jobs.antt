-- ===== src/Tests/Jobs.antt =====
-- A table and two streams in memory for the interface of Macct, and its theorems on them.
use text.Mathlib.Text.{◌==◌}
use text.Mathlib.TextEquality.{eq_iff}
use mathlib.Core.Path.{subst}
use linbo_docker.Base.{
  String, ◌≡◌, refl, true, false, ◌&&◌, Option, none, some, List, [], ◌∷◌, ◌++◌, arith,
  if◌then◌else◌, inl, inr, Bool-cases, &&-true,
}
use linbo_docker.Macct.{
  Job, Message, Jobs, is_active, already_queued, new_job, create_macct_repair_job,
}
use linbo_docker.Macct.Once.{create_macct_repair_job-once}
use linbo_docker.Macct.Retries.{retries, Retried, jobs_count, dead_count, retries-Retried}

pub record Desk : Type 0 where
  pub rows : List Job
  pub sent : List Message
  pub dead : List Message

unfoldable find_row : List Job → String → Option Job
find_row [] i = none
find_row (k ∷ ks) i = if k.id == i then some k else find_row ks i

unfoldable put_row : Job → List Job → List Job
put_row j [] = j ∷ []
put_row j (k ∷ ks) = if k.id == j.id then j ∷ ks else k ∷ put_row j ks

unfoldable active_row : List Job → String → Option Job
active_row [] h = none
active_row (k ∷ ks) h = if k.target_host == h && is_active k.status then some k else active_row ks h

find-put_row :
    (j : Job) (ks : List Job) (i : String)
    → find_row (put_row j ks) i ≡ (if j.id == i then some j else find_row ks i)
unfolding find_row put_row
find-put_row j [] i = refl
find-put_row j (k ∷ ks) i =
    ground (arith, find-put_row j ks i, eq_iff k.id j.id, eq_iff k.id i, eq_iff j.id i)

find_row-id : (ks : List Job) (i : String) (j : Job) → find_row ks i ≡ some j → j.id ≡ i
unfolding find_row
find_row-id [] i j h = cc
find_row-id (k ∷ ks) i j h = elim (Bool-cases (k.id == i)) [
  | inl e ↦ cc (rw e at h, (eq_iff k.id i).0 e)
  | inr e ↦ find_row-id ks i j (rw e at h)
]

some-eq : {j k : Job} → some j ≡ some k → j ≡ k
some-eq h = cc

active_row-some :
    (ks : List Job) (h : String) (j : Job)
    → active_row ks h ≡ some j
    → (j.target_host ≡ h) × (is_active j.status ≡ true)
unfolding active_row
active_row-some [] h j e = cc
active_row-some (k ∷ ks) h j e = elim (Bool-cases (k.target_host == h && is_active k.status)) [
  | inl good ↦
      let (a, b) = &&-true (k.target_host == h) (is_active k.status) good in
      subst (λ (u : Job). (u.target_host ≡ h) × (is_active u.status ≡ true))
        (some-eq (rw good at e)) ((eq_iff k.target_host h).0 a, b)
  | inr bad ↦ active_row-some ks h j (rw bad at e)
]

active_row-none :
    (ks : List Job) (h i : String) (j : Job)
    → active_row ks h ≡ none
    → find_row ks i ≡ some j
    → j.target_host ≡ h
    → is_active j.status ≡ false
unfolding active_row find_row
active_row-none [] h i j e f g = cc
active_row-none (k ∷ ks) h i j e f g =
    elim (Bool-cases (k.target_host == h && is_active k.status)) [
      | inl good ↦ cc (rw good at e)
      | inr bad ↦ elim (Bool-cases (k.id == i)) [
        | inl same ↦
            subst (λ (u : Job). u.target_host ≡ h → is_active u.status ≡ false)
              (some-eq (rw same at f)) (λ t. ground (arith, bad, (eq_iff k.target_host h).1 t)) g
        | inr other ↦ active_row-none ks h i j (rw bad at e) (rw other at f) g
      ]
    ]

abbrev desk : Jobs
desk = record {
  Db = Desk;
  find = λ d i. find_row d.rows i;
  find_active = λ d h. active_row d.rows h;
  put = λ j d. record d { rows = put_row j d.rows };
  jobs_stream = λ d. d.sent;
  dead_stream = λ d. d.dead;
  publish = λ m d. record d { sent = d.sent ++ m ∷ [] };
  bury = λ m d. record d { dead = d.dead ++ m ∷ [] };
  find-put = λ j d i. find-put_row j d.rows i;
  find-publish = λ m d i. refl;
  find-bury = λ m d i. refl;
  find-id = λ d i j. find_row-id d.rows i j;
  find_active-some = λ d h j. active_row-some d.rows h j;
  find_active-none = λ d h i j. active_row-none d.rows h i j;
  jobs-put = λ j d. refl;
  jobs-publish = λ m d. refl;
  jobs-bury = λ m d. refl;
  dead-put = λ j d. refl;
  dead-publish = λ m d. refl;
  dead-bury = λ m d. refl;
}

abbrev pc01_job : Job
pc01_job = new_job desk 5 "job-1" "pc01" ""

abbrev one_job : Desk
one_job = record { rows = pc01_job ∷ []; sent = []; dead = [] }

five_retries :
    (jobs_count desk (retries desk 5 "job-1" one_job) ≡ 3)
    × (dead_count desk (retries desk 5 "job-1" one_job) ≡ 2)
unfolding retries find_row put_row
five_retries = (refl, refl)

found_job : find_row one_job.rows "job-1" ≡ some pc01_job
unfolding find_row
found_job = refl

retries-Retried_example : Retried desk 5 "job-1" pc01_job one_job (retries desk 5 "job-1" one_job)
retries-Retried_example = retries-Retried desk 5 "job-1" pc01_job one_job found_job (omega arith)

create_macct_repair_job-once_example :
    (j : Job) × (j.target_host ≡ "pc02")
    × (is_active j.status ≡ true)
    × (create_macct_repair_job desk 9 "job-3" "pc02" "s"
          (create_macct_repair_job desk 8 "job-2" "pc02" "s" one_job).1
        ≡ (already_queued j, (create_macct_repair_job desk 8 "job-2" "pc02" "s" one_job).1))
create_macct_repair_job-once_example =
    create_macct_repair_job-once desk 8 9 "job-2" "job-3" "pc02" "s" "s" one_job
