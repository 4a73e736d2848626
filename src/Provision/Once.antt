-- ===== src/Provision/Once.antt =====
-- containers/api/src/services/provisioning.service.js: no second open job for a host and an action.
use text.Mathlib.Text.{◌==◌ as str_eq}
use text.Mathlib.TextPositions.{eq_refl}
use mathlib.Core.Bool.{false≢true}
use mathlib.Core.Path.{subst}
use linbo_docker.Base.{
  ℕ, String, ◌≡◌, refl, sym, ap, ◌∙◌, Bool, true, Option, none, some, List, [], ◌∷◌, All, inl, inr,
  Option-cases, if-both, ◌≢◌,
}
use linbo_docker.Tables.{Table, find_many}
use linbo_docker.Tables.Laws.{lists, holds, Listed, lists-find_many, find_many-Listed}
use linbo_docker.Provision.{
  HostData, ExtraOptions, Operation, Host, already_queued, by_host_id, dedup_where, new_operation,
  first, State, publish, find_first, create_provision_job,
}

the_item : {x y : String × Operation} → some x ≡ some y → x ≡ y
the_item h = cc

no_item : {x : String × Operation} → none ≢ some x
no_item h = cc

own_by_host_id :
    (action name : String) (i : Option String) (o : Operation)
    → o.options.host.host_id ≡ i
    → o.target_host ≡ name
    → o.options.action ≡ action
    → by_host_id action i name o ≡ true
own_by_host_id action name none o e t a = rw (t, a, eq_refl name, eq_refl action) refl
own_by_host_id action name (some id) o e t a = rw (e, a, eq_refl id, eq_refl action) refl

new_operation-dedup_where :
    (now : ℕ) (h h' : HostData) (action : String) (extra : ExtraOptions) (dry : Bool)
    → h'.hostname ≡ h.hostname
    → h'.host_id ≡ h.host_id
    → dedup_where action h' (new_operation now h action extra dry) ≡ true
unfolding dedup_where
new_operation-dedup_where now h h' action extra dry n i =
    if-both (λ (b : Bool). b ≡ true) (str_eq action "delete")
      (rw (n, eq_refl h.hostname, eq_refl action) refl)
      (own_by_host_id action h'.hostname h'.host_id (new_operation now h action extra dry) (sym i)
        (sym n) refl)

same_host-dedup_where :
    (h h' : HostData) (action : String) (o : Operation)
    → h'.hostname ≡ h.hostname
    → h'.host_id ≡ h.host_id
    → dedup_where action h' o ≡ dedup_where action h o
unfolding dedup_where
same_host-dedup_where h h' action o n i = rw (n, i) refl

module _ (O : Table Operation) (H : Table Host) where
  first-Listed :
      (p : Operation → Bool) (t : O.Rows) (k : String) (es : List (String × Operation))
      → lists k es ≡ true
      → All (Listed O p t) es
      → (e : String × Operation) × (first es ≡ some e) × Listed O p t e
  first-Listed p t k [] l a = absurd (false≢true l)
  first-Listed p t k (e ∷ es) l a = (e, refl, a.0)

  -- A row that fits makes `findFirst` find one.
  find_first-Listed :
      (p : Operation → Bool) (t : O.Rows) (k : String) {o : Operation}
      → O.find t k ≡ some o
      → p o ≡ true
      → (e : String × Operation) × (find_first O H p t ≡ some e) × Listed O p t e
  find_first-Listed p t k e fits =
      first-Listed p t k (find_many O p t) (lists-find_many O p t k ∙ ap (holds p) e ∙ fits)
        (find_many-Listed O p t)

  found-Listed :
      (p : Operation → Bool) (t : O.Rows) {e : String × Operation}
      → find_first O H p t ≡ some e
      → Listed O p t e
  found-Listed p t {e} h = by_rows (find_many O p t) (find_many-Listed O p t) h
    where
      by_rows :
          (es : List (String × Operation))
          → All (Listed O p t) es
          → first es ≡ some e
          → Listed O p t e
      by_rows [] a h = absurd (no_item h)
      by_rows (x ∷ es) a h = subst (Listed O p t) (the_item h) a.0

  module _ (now : ℕ) (id : String) (dry : Bool) (h : HostData) (action : String)
      (extra : ExtraOptions) (s : State O H) where
    queued_before :
        (e : String × Operation)
        → find_first O H (dedup_where action h) s.operations ≡ some e
        → create_provision_job O H now id dry h action extra s ≡ (already_queued e.0 e.1, s)
    unfolding create_provision_job
    queued_before e f = rw (f, create_provision_job) refl

    newly_queued :
        find_first O H (dedup_where action h) s.operations ≡ none
        → (create_provision_job O H now id dry h action extra s).1
          ≡ publish O H id (new_operation now h action extra dry) s
    unfolding create_provision_job
    newly_queued f = rw (f, create_provision_job) refl

    -- After the call there is an open job for the host and the action.
    open_after :
        (h' : HostData)
        → h'.hostname ≡ h.hostname
        → h'.host_id ≡ h.host_id
        → (k : String) × (o : Operation) × (O.find
              (create_provision_job O H now id dry h action extra s).1.operations
              k
            ≡ some o)
          × (dedup_where action h' o ≡ true)
    open_after h' n i = elim (Option-cases (find_first O H (dedup_where action h) s.operations)) [
      | inr (e, f) ↦
          let (stored, fits) = found-Listed (dedup_where action h) s.operations f in
          (
            e.0,
            e.1,
            ap (λ (c : _ × State O H). O.find c.1.operations e.0) (queued_before e f) ∙ stored,
            same_host-dedup_where h h' action e.1 n i ∙ fits,
          )
      | inl f ↦ (
        id,
        new_operation now h action extra dry,
        ap (λ (u : State O H). O.find u.operations id) (newly_queued f)
            ∙ O.find-put id _ s.operations id
            ∙ rw (eq_refl id) refl,
        new_operation-dedup_where now h h' action extra dry n i,
      )
    ]

  -- After a call for a host and an action, a second call for the action with the same name and
  -- identifier of the host, whatever its other data, finds an open job for them, writes nothing,
  -- and answers with that job as it is.
  pub create_provision_job-once :
      (now later : ℕ) (id second : String) (dry dry' : Bool) (h h' : HostData) (action : String)
      (extra extra' : ExtraOptions) (s : State O H)
      → h'.hostname ≡ h.hostname
      → h'.host_id ≡ h.host_id
      → (k : String) × (o : Operation) × (O.find
            (create_provision_job O H now id dry h action extra s).1.operations
            k
          ≡ some o)
        × (dedup_where action h' o ≡ true)
        × (create_provision_job O H later second dry' h' action extra'
              (create_provision_job O H now id dry h action extra s).1
            ≡ (already_queued k o, (create_provision_job O H now id dry h action extra s).1))
  create_provision_job-once now later id second dry dry' h h' action extra extra' s n i =
      let s1 = (create_provision_job O H now id dry h action extra s).1 in
      let (k, o, stored, fits) = open_after now id dry h action extra s h' n i in
      let (e, f, (stored', fits')) =
        find_first-Listed (dedup_where action h') s1.operations k stored fits in
      (e.0, e.1, stored', fits', queued_before later second dry' h' action extra' s1 e f)
