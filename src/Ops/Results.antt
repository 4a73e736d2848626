-- ===== src/Ops/Results.antt =====
-- What `executeDirectCommands` leaves behind when nothing is cancelled meanwhile: every session has
-- the outcome of its host, and the operation has the statistics of these outcomes.
use text.Mathlib.Text.{◌==◌ as str_eq}
use text.Mathlib.TextPositions.{eq_refl}
use linbo_docker.Base.{
  ℕ, String, ◌≡◌, refl, ap, ◌∙◌, Bool, true, false, Option, none, some, if◌then◌else◌,
}
use linbo_docker.Ops.Data.{
  SessionStatus, SessionError, no_ip_address, empty_op, Session, Stats, OpHash, over, Host, merge,
}
use linbo_docker.Ops.Redis.{Redis}
use linbo_docker.Ops.Sessions.{session_or_empty, get_session, update_session}
use linbo_docker.Ops.Execute.{
  Ssh, ssh_status, ssh_error, count_status, done_of, is_set, Run, with_ip, run_host,
}

abbrev progress_of : (ℕ → ℕ → ℕ) → Stats → OpHash
progress_of percent t = record empty_op {
  progress = some (percent (done_of t) t.total);
  stats = some t;
}

if_twice {ℓ} :
    {A : Type ℓ} (b : Bool) (x y z : A)
    → (if b then x else if b then y else z) ≡ (if b then x else z)
if_twice true x y z = refl
if_twice false x y z = refl

module _ (R : Redis) where
  open R use {Db, op, hmset, hset, op-hmset, op-hset, hget-hset, hget-hmset}

  abbrev pub status_of : Db → String → String → Option SessionStatus
  status_of d id name = (get_session R d id name).status

  pub status_of-hmset :
      (d : Db) (id j name : String) (u : OpHash)
      → status_of (hmset d j u) id name ≡ status_of d id name
  status_of-hmset d id j name u = ap (λ o. (session_or_empty o).status) (hget-hmset d j id name u)

  hget-hset_own :
      (d : Db) (id n m : String) (s : Session)
      → R.hget (hset d id n s) id m ≡ (if str_eq n m then some s else R.hget d id m)
  hget-hset_own d id n m s = hget-hset d id n id m s ∙ rw (eq_refl id)

  pub status_of-hset :
      (d : Db) (id n m : String) (s : Session)
      → status_of (hset d id n s) id m ≡ (if str_eq n m then s.status else status_of d id m)
  status_of-hset d id n m s =
      ap (λ o. (session_or_empty o).status) (hget-hset_own d id n m s) ∙ by_name (str_eq n m)
    where
      by_name :
          (b : Bool)
          → (session_or_empty (if b then some s else R.hget d id m)).status
            ≡ (if b then s.status else status_of d id m)
      by_name true = refl
      by_name false = refl

  pub op-hmset_own : (d : Db) (id : String) (u : OpHash) → op (hmset d id u) id ≡ merge (op d id) u
  op-hmset_own d id u = op-hmset d id id u ∙ rw (eq_refl id)

  status_of-update_session :
      (now : ℕ) (d : Db) (id n m : String) (st : SessionStatus) (e : Option SessionError)
      → status_of (update_session R now id n st e d) id m
        ≡ (if str_eq n m then some st else status_of d id m)
  unfolding update_session
  status_of-update_session now d id n m st e = status_of-hset d id n m _

  op-update_session :
      (now : ℕ) (d : Db) (id n j : String) (st : SessionStatus) (e : Option SessionError)
      → op (update_session R now id n st e d) j ≡ op d j
  unfolding update_session
  op-update_session now d id n j st e = op-hset d id n j _

  module _ (percent : ℕ → ℕ → ℕ) (ssh : String → Ssh) where
    -- the outcome of a host that is not cancelled
    abbrev pub result_at : Option String → SessionStatus
    result_at none = SessionStatus.failed
    result_at (some ip) = ssh_status (ssh ip)

    unfoldable pub host_result : Host → SessionStatus
    host_result h = result_at h.ip

    -- no cancellation is requested for the operation
    abbrev pub Going : Db → String → Type 0
    Going d id = is_set (op d id).cancel_requested ≡ false

    abbrev pub Kept : Db → Db → String → Type 0
    Kept d d' id = (op d' id).cancel_requested ≡ (op d id).cancel_requested

    pub record AfterHost (r r' : Run R percent ssh) (id name : String) (st : SessionStatus)
        : Type 0 where
      pub statuses :
          (m : String)
          → status_of r'.db id m ≡ (if str_eq name m then some st else status_of r.db id m)
      pub stats : r'.stats ≡ count_status st r.stats
      pub kept : Kept r.db r'.db id

    pub with_ip-AfterHost :
        (now : ℕ) (id name : String) (ip : Option String) (r : Run R percent ssh)
        → AfterHost r (with_ip R percent ssh now id name ip r) id name (result_at ip)
    unfolding with_ip
    with_ip-AfterHost now id name none r = record {
      statuses = λ m.
          status_of-update_session now r.db id name m SessionStatus.failed (some no_ip_address);
      stats = refl;
      kept =
          ap (λ (h : OpHash). h.cancel_requested)
            (op-update_session now r.db id name id SessionStatus.failed (some no_ip_address));
    }
    with_ip-AfterHost now id name (some ip) r =
        let answer = ssh ip in
        let t = count_status (ssh_status answer) r.stats in
        let d1 : Db = update_session R now id name SessionStatus.running none r.db in
        let d2 : Db = update_session R now id name (ssh_status answer) (ssh_error answer) d1 in
        record {
          statuses = λ m.
              status_of-hmset d2 id id m (progress_of percent t)
              ∙ status_of-update_session now d1 id name m (ssh_status answer) (ssh_error answer)
              ∙ rw (status_of-update_session now r.db id name m SessionStatus.running none)
                  (if_twice (str_eq name m) _ _ _);
          stats = refl;
          kept =
              ap (λ (h : OpHash). h.cancel_requested) (op-hmset_own d2 id (progress_of percent t))
              ∙ ap (λ (h : OpHash). over h.cancel_requested none)
                  (op-update_session now d1 id name id (ssh_status answer) (ssh_error answer)
                    ∙ op-update_session now r.db id name id SessionStatus.running none);
        }

    -- One host, when no cancellation is requested.
    pub run_host-AfterHost :
        (now : ℕ) (id : String) (h : Host) (r : Run R percent ssh)
        → Going r.db id
        → AfterHost r (run_host R percent ssh now id h r) id h.hostname (host_result h)
    unfolding run_host host_result
    run_host-AfterHost now id h r g = rw g (with_ip-AfterHost now id h.hostname h.ip r)
