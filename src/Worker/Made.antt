-- ===== src/Worker/Made.antt =====
-- containers/api/src/workers/operation.worker.js: the sessions that `processNextOperation` makes,
-- and what becomes of each in a run.
use text.Mathlib.Text.{◌==◌ as str_eq}
use text.Mathlib.TextEquality.{eq_iff}
use text.Mathlib.TextPositions.{eq_refl}
use linbo_docker.Base.{
  ℕ, suc, ◌<◌, String, ◌≡◌, refl, ap, ◌∙◌, Bool, false, ◌||◌, Option, none, some, List, [], ◌∷◌,
  arith, if◌then◌else◌, inl, inr, Bool-cases, All,
}
use linbo_docker.Tables.{Table}
use linbo_docker.Tables.Laws.{lists}
use linbo_docker.Worker.Rows.{Operation, SessionState, Session, Host, Reply}
use linbo_docker.Worker.{session_error, World, create_sessions}
use linbo_docker.Worker.Sessions.{Entry, ended, changed, after}

-- the identifiers of the sessions are pairwise different
abbrev pub IsApart : List Entry → Type 0
IsApart [] = Unit
IsApart ((sid, t) ∷ es) = (lists sid es ≡ false) × IsApart es

-- the identifiers are those that the database makes, in their order
abbrev Numbered : (ℕ → String) → ℕ → List Entry → Type 0
Numbered fresh n [] = Unit
Numbered fresh n ((sid, t) ∷ es) = (sid ≡ fresh n) × Numbered fresh (suc n) es

abbrev pub new_session : String → String × Host → Session
new_session id (k, h) = record {
  operation_id = id;
  host_id = some k;
  hostname = h.hostname;
  status = SessionState.pending;
  progress = 0;
  started_at = none;
  completed_at = none;
  log_file = none;
}

-- the row at an identifier when the sessions of the entries have been stored
abbrev pub stored : String → List Entry → String → Option Session → Option Session
stored id [] j old = old
stored id ((sid, t) ∷ es) j old =
    stored id es j (if str_eq sid j then some (new_session id t) else old)

or_false : (a b : Bool) → (a || b) ≡ false → (a ≡ false) × (b ≡ false)
or_false a b h = ground (arith, h)

pub stored-unlisted :
    (id : String) (es : List Entry) (j : String) (old : Option Session)
    → lists j es ≡ false
    → stored id es j old ≡ old
stored-unlisted id [] j old h = refl
stored-unlisted id ((sid, t) ∷ es) j old h =
    let (other, rest) = or_false (str_eq sid j) (lists j es) h in
    stored-unlisted id es j _ rest ∙ rw other refl

pub stored-listed :
    (id : String) (es : List Entry) (base : String → Option Session)
    → IsApart es
    → All (λ (e : Entry). stored id es e.0 (base e.0) ≡ some (new_session id e.1)) es
stored-listed id [] base a = tt
stored-listed id ((sid, t) ∷ es) base (apart, a) = (
  stored-unlisted id es sid _ apart ∙ rw (eq_refl sid) refl,
  stored-listed id es (λ j. if str_eq sid j then some (new_session id t) else base j) a,
)

unlisted_later :
    (fresh : ℕ → String) (m n : ℕ) (es : List Entry)
    → ((i k : ℕ) → fresh i ≡ fresh k → i ≡ k)
    → m < n
    → Numbered fresh n es
    → lists (fresh m) es ≡ false
unlisted_later fresh m n [] inj h a = refl
unlisted_later fresh m n ((sid, t) ∷ es) inj h (e, a) = elim (Bool-cases (str_eq sid (fresh m))) [
  | inl same ↦ absurd (omega (arith, h, inj n m (cc (e, (eq_iff sid (fresh m)).0 same))))
  | inr other ↦ rw (other, unlisted_later fresh m (suc n) es inj (omega (arith, h)) a) refl
]

pub Numbered-IsApart :
    (fresh : ℕ → String) (n : ℕ) (es : List Entry)
    → ((i k : ℕ) → fresh i ≡ fresh k → i ≡ k)
    → Numbered fresh n es
    → IsApart es
Numbered-IsApart fresh n [] inj a = tt
Numbered-IsApart fresh n ((sid, t) ∷ es) inj (e, a) = (
  rw e (unlisted_later fresh n (suc n) es inj (omega arith) a),
  Numbered-IsApart fresh (suc n) es inj a,
)

module _ (O : Table Operation) (S : Table Session) (H : Table Host) where
  create_sessions-Numbered :
      (fresh : ℕ → String) (n : ℕ) (id : String) (hs : List (String × Host)) (w : World O S H)
      → Numbered fresh n (create_sessions O S H fresh n id hs w).0
  unfolding create_sessions
  create_sessions-Numbered fresh n id [] w = tt
  create_sessions-Numbered fresh n id ((k, h) ∷ hs) w =
      (refl, create_sessions-Numbered fresh (suc n) id hs _)

  pub create_sessions-IsApart :
      (fresh : ℕ → String) (id : String) (hs : List (String × Host)) (w : World O S H)
      → ((i k : ℕ) → fresh i ≡ fresh k → i ≡ k)
      → IsApart (create_sessions O S H fresh 0 id hs w).0
  create_sessions-IsApart fresh id hs w inj =
      Numbered-IsApart fresh 0 (create_sessions O S H fresh 0 id hs w).0 inj
        (create_sessions-Numbered fresh 0 id hs w)

  pub create_sessions-stored :
      (fresh : ℕ → String) (n : ℕ) (id : String) (hs : List (String × Host)) (w : World O S H)
      (j : String)
      → S.find (create_sessions O S H fresh n id hs w).1.sessions j
        ≡ stored id (create_sessions O S H fresh n id hs w).0 j (S.find w.sessions j)
  unfolding create_sessions
  create_sessions-stored fresh n id [] w j = refl
  create_sessions-stored fresh n id ((k, h) ∷ hs) w j =
      create_sessions-stored fresh (suc n) id hs _ j
      ∙ ap (stored id (create_sessions O S H fresh (suc n) id hs _).0 j)
          (S.find-put (fresh n) (new_session id (k, h)) w.sessions j)

  module _ (ssh : String → String → ℕ → String → Reply) where
    pub after-unlisted :
        (o : Operation) (es : List Entry) (j : String) (old : Option SessionState)
        → lists j es ≡ false
        → after O S H ssh o es j old ≡ old
    after-unlisted o [] j old h = refl
    after-unlisted o ((sid, (k, x)) ∷ es) j old h =
        let (other, rest) = or_false (str_eq sid j) (lists j es) h in
        after-unlisted o es j _ rest ∙ rw other refl

    changed-some :
        (sid : String) (st : SessionState) (j : String) (a : SessionState)
        → (b : SessionState) × (changed O S H sid st j (some a) ≡ some b)
    changed-some sid st j a = elim (Bool-cases (str_eq sid j)) [
      | inl same ↦ (st, rw same refl)
      | inr other ↦ (a, rw other refl)
    ]

    abbrev pub HasState : (String → Option SessionState) → Entry → Type 0
    HasState base e = (a : SessionState) × (base e.0 ≡ some a)

    changed-HasState :
        (sid : String) (st : SessionState) (base : String → Option SessionState) (es : List Entry)
        → All (HasState base) es
        → All (HasState (λ j. changed O S H sid st j (base j))) es
    changed-HasState sid st base [] a = tt
    changed-HasState sid st base (e ∷ es) ((s, h), a) = (
      let (b, f) = changed-some sid st e.0 s in (b, ap (changed O S H sid st e.0) h ∙ f),
      changed-HasState sid st base es a,
    )

    pub after-listed :
        (o : Operation) (es : List Entry) (base : String → Option SessionState)
        → IsApart es
        → All (λ (e : Entry). (a : SessionState) × (base e.0 ≡ some a)) es
        → All
            (λ (e : Entry).
              after O S H ssh o es e.0 (base e.0) ≡ some (ended (session_error ssh o e.1.1)))
            es
    after-listed o [] base a t = tt
    after-listed o ((sid, (k, h)) ∷ es) base (apart, a) ((s, e), t) = (
      after-unlisted o es sid _ apart ∙ rw (eq_refl sid, e) refl,
      after-listed o es (λ j. changed O S H sid (ended (session_error ssh o h)) j (base j)) a
          (changed-HasState sid (ended (session_error ssh o h)) base es t),
    )
