-- ===== src/Worker/Retry.antt =====
-- containers/api/src/workers/operation.worker.js: what `retryOperation` makes.
use mathlib.Core.Bool.{false≢true}
use mathlib.Core.Path.{subst}
use text.Mathlib.Text.{◌==◌ as str_eq}
use text.Mathlib.TextEquality.{eq_iff}
use text.Mathlib.TextPositions.{eq_refl}
use linbo_docker.Base.{
  ℕ, String, ◌≡◌, refl, sym, ap, ◌∙◌, Bool, true, ◌||◌, none, some, List, [], ◌∷◌, inl, inr,
  Option-cases, Bool-cases, arith, All, any, &&-true, Outcome, ok, err, ◌↔◌,
}
use linbo_docker.Tables.{Table, find_many}
use linbo_docker.Tables.Laws.{lists, holds, Listed, lists-find_many, find_many-Listed}
use linbo_docker.Worker.Rows.{WorkStatus, Operation, SessionState, Session, Host}
use linbo_docker.Worker.{
  WorkerError, operation_not_found, World, has_failed, is_failed_of, host_ids, again, retry_found,
  retry_operation,
}

or_true : (b : Bool) → (b || true) ≡ true
or_true b = ground arith

has_failed-eq : (s : SessionState) → has_failed s ≡ true → s ≡ SessionState.failed
has_failed-eq SessionState.failed h = refl
has_failed-eq SessionState.pending h = cc
has_failed-eq SessionState.running h = cc
has_failed-eq SessionState.completed h = cc
has_failed-eq SessionState.cancelled h = cc

module _ (O : Table Operation) (S : Table Session) (H : Table Host) where
  -- the host of a failed session of the operation
  abbrev pub HasFailed : String → World O S H → String → Type 0
  HasFailed id w host =
      (sid : String) × (s : Session) × (S.find w.sessions sid ≡ some s)
      × (s.operation_id ≡ id)
      × (s.status ≡ SessionState.failed)
      × (s.host_id ≡ some host)

  host_ids-HasFailed :
      (id : String) (w : World O S H) (es : List (String × Session))
      → All (Listed S (is_failed_of O S H id) w.sessions) es
      → All (HasFailed id w) (host_ids O S H es)
  unfolding host_ids
  host_ids-HasFailed id w [] h = tt
  host_ids-HasFailed id w ((k, s) ∷ es) ((e, y), h) = elim (Option-cases s.host_id) [
    | inl n ↦ rw (n, host_ids) (host_ids-HasFailed id w es h)
    | inr (host, n) ↦
        let (mine, bad) = &&-true (str_eq s.operation_id id) (has_failed s.status) y in
        rw (n, host_ids)
          (
            (k, s, e, (eq_iff s.operation_id id).0 mine, has_failed-eq s.status bad, n),
            host_ids-HasFailed id w es h,
          )
  ]

  All-any :
      (P : String → Type 0) (l : List String) (host : String)
      → All P l
      → any (λ t. str_eq t host) l ≡ true
      → P host
  All-any P [] host a h = absurd (false≢true h)
  All-any P (t ∷ l) host (p, a) h = elim (Bool-cases (str_eq t host)) [
    | inl same ↦ subst P ((eq_iff t host).0 same) p
    | inr other ↦ All-any P l host a (sym (rw other refl) ∙ h)
  ]

  the_session : {s u : Session} → some s ≡ some u → s ≡ u
  the_session h = cc

  -- The host of a listed session is one of the hosts.
  any-host_ids :
      (id : String) (w : World O S H) (sid host : String) (s : Session)
      (es : List (String × Session))
      → All (Listed S (is_failed_of O S H id) w.sessions) es
      → S.find w.sessions sid ≡ some s
      → s.host_id ≡ some host
      → lists sid es ≡ true
      → any (λ t. str_eq t host) (host_ids O S H es) ≡ true
  unfolding host_ids
  any-host_ids id w sid host s [] a e n h = absurd (false≢true h)
  any-host_ids id w sid host s ((k, u) ∷ es) ((f, y), a) e n h = elim (Bool-cases (str_eq k sid)) [
    | inl same ↦
        let its : S.find w.sessions sid ≡ some u =
          subst (λ j. S.find w.sessions j ≡ some u) ((eq_iff k sid).0 same) f in
        let mine : u.host_id ≡ some host =
          ap (λ (v : Session). v.host_id) (the_session (sym its ∙ e)) ∙ n in
        rw (mine, host_ids, eq_refl host) refl
    | inr other ↦
        let rest = any-host_ids id w sid host s es a e n (sym (rw other refl) ∙ h) in
        elim (Option-cases u.host_id) [
          | inl none_here ↦ rw (none_here, host_ids) rest
          | inr (there, some_here) ↦ rw (some_here, host_ids, rest) (or_true (str_eq there host))
        ]
  ]

  HasFailed-is_failed_of :
      (id : String) (w : World O S H) (s : Session)
      → s.operation_id ≡ id
      → s.status ≡ SessionState.failed
      → is_failed_of O S H id s ≡ true
  HasFailed-is_failed_of id w s m f = rw (m, f, eq_refl id) refl

  -- The hosts of the failed sessions that a query finds are those that have failed.
  host_ids_iff :
      (id : String) (w : World O S H) (host : String)
      → (any (λ t. str_eq t host) (host_ids O S H (find_many S (is_failed_of O S H id) w.sessions))
          ≡ true)
        ↔ HasFailed id w host
  host_ids_iff id w host =
      let es = find_many S (is_failed_of O S H id) w.sessions in
      let found = find_many-Listed S (is_failed_of O S H id) w.sessions in
      (
        All-any (HasFailed id w) (host_ids O S H es) host (host_ids-HasFailed id w es found),
        λ (sid, s, e, m, f, n). any-host_ids id w sid host s es found e n (
            lists-find_many S (is_failed_of O S H id) w.sessions sid
            ∙ ap (holds (is_failed_of O S H id)) e
            ∙ HasFailed-is_failed_of id w s m f),
      )

  -- what a successful retry leaves
  pub record Retried (now : ℕ) (new_id id : String) (w w' : World O S H) : Type 0 where
    pub old : Operation
    pub was_there : O.find w.operations id ≡ some old
    pub row : Operation
    pub found : O.find w'.operations new_id ≡ some row
    pub is_pending : row.status ≡ WorkStatus.pending
    pub same_commands : row.commands ≡ old.commands
    pub hosts_failed :
        (host : String) → (any (λ t. str_eq t host) row.target_hosts ≡ true) ↔ HasFailed id w host
    pub sessions_stay : w'.sessions ≡ w.sessions

  ok-eq : {u v : World O S H} → ◌≡◌ {A = Outcome WorkerError (World O S H)} (ok u) (ok v) → u ≡ v
  ok-eq h = cc

  retry_found-Retried :
      (now : ℕ) (new_id id : String) (o : Operation) (es : List (String × Session))
      (w w' : World O S H)
      → O.find w.operations id ≡ some o
      → ((host : String)
          → (any (λ t. str_eq t host) (host_ids O S H es) ≡ true) ↔ HasFailed id w host)
      → retry_found O S H now new_id o es w ≡ ok w'
      → Retried now new_id id w w'
  unfolding retry_found
  retry_found-Retried now new_id id o [] w w' e h r = cc
  retry_found-Retried now new_id id o (x ∷ es) w w' e h r =
      subst (Retried now new_id id w) (ok-eq r) (record {
        old = o;
        was_there = e;
        row = again O S H now o (host_ids O S H (x ∷ es));
        found = O.find-put new_id _ w.operations new_id ∙ rw (eq_refl new_id) refl;
        is_pending = refl;
        same_commands = refl;
        hosts_failed = h;
        sessions_stay = refl;
      })

  retry-some :
      (now : ℕ) (new_id id : String) (w : World O S H) {o : Operation}
      → O.find w.operations id ≡ some o
      → retry_operation O S H now new_id id w
        ≡ retry_found O S H now new_id o (find_many S (is_failed_of O S H id) w.sessions) w
  unfolding retry_operation
  retry-some now new_id id w e = rw (e, retry_operation) refl

  retry-none :
      (now : ℕ) (new_id id : String) (w : World O S H)
      → O.find w.operations id ≡ none
      → retry_operation O S H now new_id id w ≡ err operation_not_found
  unfolding retry_operation
  retry-none now new_id id w e = rw (e, retry_operation) refl

  -- A retry that does not throw makes a new pending operation with the commands of the old one. Its
  -- target hosts are exactly the hosts of the failed sessions of the old one, and the sessions stay
  -- as they are.
  pub retry_operation-Retried :
      (now : ℕ) (new_id id : String) (w w' : World O S H)
      → retry_operation O S H now new_id id w ≡ ok w'
      → Retried now new_id id w w'
  retry_operation-Retried now new_id id w w' h = elim (Option-cases (O.find w.operations id)) [
    | inl e ↦ cc (sym (retry-none now new_id id w e) ∙ h)
    | inr (o, e) ↦
        retry_found-Retried now new_id id o (find_many S (is_failed_of O S H id) w.sessions) w w' e
          (host_ids_iff id w) (sym (retry-some now new_id id w e) ∙ h)
  ]
