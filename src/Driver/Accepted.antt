-- ===== src/Driver/Accepted.antt =====
-- containers/api/src/lib/driver-path.js: what the accepted names and paths look like.
use mathlib.Core.Path.{subst}
use linbo_docker.Base.{
  ℕ, ◌≤◌, ◌≡◌, refl, ap, ◌∙◌, Bool, true, false, [], ◌∷◌, arith, ◌==◌, length, all, any, inl, inr,
  Bool-cases, &&-true, Outcome, ok,
}
use linbo_docker.Text.{text_eq, Text, has, is_space, trim, trim_start, trim_end}
use linbo_docker.Text.Split.{split}
use linbo_docker.Driver.{
  PathError, is_name_char, is_name, sanitize_name, is_absolute, is_parent, collapse, drop_slash,
  sanitize_trimmed, sanitize_relative_path,
}
use linbo_docker.Driver.Segments.{collapse-Kept, drop_slash-Kept, any-Kept}

any-collapse : (q : ℕ → Bool) (s : Text) → any q s ≡ false → any q (collapse s) ≡ false
unfolding collapse
any-collapse q [] h = refl
any-collapse q (c ∷ []) h = h
any-collapse q (c ∷ d ∷ cs) h = ground (arith, any-collapse q (d ∷ cs))

any-drop_slash : (q : ℕ → Bool) (s : Text) → any q s ≡ false → any q (drop_slash s) ≡ false
unfolding drop_slash
any-drop_slash q [] h = refl
any-drop_slash q (c ∷ []) h = ground arith
any-drop_slash q (c ∷ d ∷ cs) h = ground (arith, any-drop_slash q (d ∷ cs))

is_absolute-collapse : (s : Text) → is_absolute s ≡ false → is_absolute (collapse s) ≡ false
unfolding collapse
is_absolute-collapse [] h = refl
is_absolute-collapse (c ∷ []) h = h
is_absolute-collapse (c ∷ d ∷ cs) h = ground arith

is_absolute-drop_slash : (s : Text) → is_absolute s ≡ false → is_absolute (drop_slash s) ≡ false
unfolding drop_slash
is_absolute-drop_slash [] h = refl
is_absolute-drop_slash (c ∷ []) h = ground arith
is_absolute-drop_slash (c ∷ d ∷ cs) h = h

-- a path that stays below the directory that it is joined to
pub record IsBelow (path : Text) : Type 0 where
  pub not_absolute : is_absolute path ≡ false
  pub no_backslash : has 0x5c path ≡ false
  pub no_nul : has 0 path ≡ false
  pub no_parent : any is_parent (split b'/' path) ≡ false

cleaned-IsBelow : (s : Text) → IsBelow s → IsBelow (drop_slash (collapse s))
cleaned-IsBelow s h = record {
  not_absolute = is_absolute-drop_slash (collapse s) (is_absolute-collapse s h.not_absolute);
  no_backslash =
      any-drop_slash (λ x. x == 0x5c) (collapse s) (any-collapse (λ x. x == 0x5c) s h.no_backslash);
  no_nul = any-drop_slash (λ x. x == 0) (collapse s) (any-collapse (λ x. x == 0) s h.no_nul);
  no_parent =
      any-Kept is_parent (collapse s) (drop_slash (collapse s))
        (drop_slash-Kept is_parent (collapse s))
        (any-Kept is_parent s (collapse s) (collapse-Kept is_parent s) h.no_parent);
}

ok-eq : {r t : Text} → ◌≡◌ {A = Outcome PathError Text} (ok t) (ok r) → t ≡ r
ok-eq e = cc

ok-IsBelow : {r t : Text} → ◌≡◌ {A = Outcome PathError Text} (ok t) (ok r) → IsBelow t → IsBelow r
ok-IsBelow e h = subst IsBelow (ok-eq e) h

trimmed-IsBelow : (s : Text) {r : Text} → sanitize_trimmed s ≡ ok r → IsBelow r
unfolding sanitize_trimmed
trimmed-IsBelow s h = elim (Bool-cases (is_absolute s)) [
  | inl a ↦ cc (rw a at h)
  | inr a ↦ elim (Bool-cases (has 0x5c s)) [
    | inl b ↦ cc (rw (a, b) at h)
    | inr b ↦ elim (Bool-cases (has 0 s)) [
      | inl n ↦ cc (rw (a, b, n) at h)
      | inr n ↦ elim (Bool-cases (any is_parent (split b'/' s))) [
        | inl t ↦ cc (rw (a, b, n, t) at h)
        | inr t ↦ ok-IsBelow (rw (a, b, n, t) at h) (
            cleaned-IsBelow s
              (record { not_absolute = a; no_backslash = b; no_nul = n; no_parent = t }))
      ]
    ]
  ]
]

-- An accepted path is relative, has neither a backslash nor a NUL, and none of its segments is `..`.
pub sanitize_relative_path-IsBelow :
    (s : Text) {r : Text} → sanitize_relative_path s ≡ ok r → IsBelow r
unfolding sanitize_relative_path
sanitize_relative_path-IsBelow [] h = cc
sanitize_relative_path-IsBelow (c ∷ cs) h = trimmed-IsBelow (trim (c ∷ cs)) h

-- The characters of a name are no white space.
name_char-space : (c : ℕ) → is_name_char c ≡ true → is_space c ≡ false
unfolding is_space
name_char-space c h = ground arith

trim_end-cons :
    (c : ℕ) (cs : Text) → is_space c ≡ false → trim_end cs ≡ cs → trim_end (c ∷ cs) ≡ c ∷ cs
unfolding trim_end
trim_end-cons c [] h e = rw h refl
trim_end-cons c (d ∷ ds) h e = rw e refl

trim_end-plain : (s : Text) → all is_name_char s ≡ true → trim_end s ≡ s
unfolding trim_end
trim_end-plain [] h = refl
trim_end-plain (c ∷ cs) h =
    let (hc, hs) = &&-true (is_name_char c) (all is_name_char cs) h in
    trim_end-cons c cs (name_char-space c hc) (trim_end-plain cs hs)

trim_start-plain : (c : ℕ) (cs : Text) → is_space c ≡ false → trim_start (c ∷ cs) ≡ c ∷ cs
unfolding trim_start
trim_start-plain c cs h = rw h refl

is_name-chars : (s : Text) → is_name s ≡ true → all is_name_char s ≡ true
unfolding is_name
is_name-chars [] h = refl
is_name-chars (c ∷ cs) h = ground arith

is_name-trim : (s : Text) → is_name s ≡ true → trim s ≡ s
unfolding trim
is_name-trim [] h = cc
is_name-trim (c ∷ cs) h =
    let chars = is_name-chars (c ∷ cs) h in
    let (hc, hs) = &&-true (is_name_char c) (all is_name_char cs) chars in
    ap trim_end (trim_start-plain c cs (name_char-space c hc)) ∙ trim_end-plain (c ∷ cs) chars

name-slash : (s : Text) → all is_name_char s ≡ true → has b'/' s ≡ false
name-slash [] h = refl
name-slash (c ∷ cs) h = ground (arith, name-slash cs)

name-length : (s : Text) → is_name s ≡ true → length s ≤ 100
unfolding is_name
name-length [] h = omega arith
name-length (c ∷ cs) h = ground arith

name-parent : (s : Text) → is_name s ≡ true → is_parent s ≡ false
unfolding is_name text_eq
name-parent [] h = refl
name-parent (c ∷ cs) h = ground arith

sanitize_name_fixed : (s : Text) → is_name s ≡ true → sanitize_name s ≡ ok s
unfolding sanitize_name
sanitize_name_fixed [] h = cc
sanitize_name_fixed (c ∷ cs) h = rw (is_name-trim (c ∷ cs) h, h) refl

-- one directory's name, and already clean
pub record IsClean (name : Text) : Type 0 where
  pub unchanged : sanitize_name name ≡ ok name
  pub not_parent : is_parent name ≡ false
  pub no_slash : has b'/' name ≡ false
  pub short : length name ≤ 100

-- An accepted name is accepted again and unchanged, is not `..`, has no slash and at most 100
-- characters.
sanitize_name-IsClean : (s : Text) {n : Text} → sanitize_name s ≡ ok n → IsClean n
unfolding sanitize_name
sanitize_name-IsClean [] h = cc
sanitize_name-IsClean (c ∷ cs) h = elim (Bool-cases (is_name (trim (c ∷ cs)))) [
  | inl good ↦
      let n : Text = trim (c ∷ cs) in
      subst IsClean (ok-eq (rw good at h)) (record {
        unchanged = sanitize_name_fixed n good;
        not_parent = name-parent n good;
        no_slash = name-slash n (is_name-chars n good);
        short = name-length n good;
      })
  | inr bad ↦ cc (rw bad at h)
]
