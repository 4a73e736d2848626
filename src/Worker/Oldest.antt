-- ===== src/Worker/Oldest.antt =====
-- containers/api/src/workers/operation.worker.js: the oldest of the operations that wait.
use linbo_docker.Base.{
  ◌≤◌, String, ◌≡◌, ◌≢◌, refl, Option, none, some, List, [], ◌∷◌, arith, ltb, inl, inr, Bool-cases,
  All,
}
use linbo_docker.Worker.Rows.{Operation}
use linbo_docker.Worker.{older, oldest}

abbrev pub NotOlder : Operation → String × Operation → Type 0
NotOlder o e = o.created_at ≤ e.1.created_at

NotOlder-trans :
    (o p : Operation) (es : List (String × Operation))
    → o.created_at ≤ p.created_at
    → All (NotOlder p) es
    → All (NotOlder o) es
NotOlder-trans o p [] h k = tt
NotOlder-trans o p (e ∷ es) h k = (omega (arith, k.0), NotOlder-trans o p es h k.1)

-- The chosen one has every property of the listed ones, and none of them is older.
abbrev pub Oldest :
    (String × Operation → Type 0) → List (String × Operation) → Option (String × Operation) → Type 0
Oldest P es none = Unit
Oldest P es (some e) = P e × All (NotOlder e.1) es

Oldest-cons :
    (P : String × Operation → Type 0) (k : String) (o : Operation) (es : List (String × Operation))
    (r : Option (String × Operation))
    → P (k, o)
    → Oldest P es r
    → (r ≡ none → es ≡ [])
    → Oldest P ((k, o) ∷ es) (older k o r)
Oldest-cons P k o es none h t e = rw (e refl) (h, (omega arith, tt))
Oldest-cons P k o es (some (j, p)) h t e = elim (Bool-cases (ltb p.created_at o.created_at)) [
  | inl y ↦ rw y (t.0, (ground arith, t.1))
  | inr n ↦ rw n (h, (omega arith, NotOlder-trans o p es (ground arith) t.1))
]

older-some : (k : String) (o : Operation) (r : Option (String × Operation)) → older k o r ≢ none
older-some k o none e = cc
older-some k o (some (j, p)) e = ground arith

oldest-none : (es : List (String × Operation)) → oldest es ≡ none → es ≡ []
unfolding oldest
oldest-none [] h = refl
oldest-none ((k, o) ∷ es) h = absurd (older-some k o (oldest es) h)

pub oldest-Oldest :
    (P : String × Operation → Type 0) (es : List (String × Operation))
    → All P es
    → Oldest P es (oldest es)
unfolding oldest
oldest-Oldest P [] h = tt
oldest-Oldest P ((k, o) ∷ es) (h, hs) =
    Oldest-cons P k o es (oldest es) h (oldest-Oldest P es hs) (oldest-none es)
