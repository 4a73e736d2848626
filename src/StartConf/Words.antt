-- ===== src/StartConf/Words.antt =====
-- containers/api/src/lib/startconf-rewrite.js: replacing a word twice.
use mathlib.Core.Path.{subst}
use linbo_docker.Base.{
  ℕ, ◌≡◌, refl, sym, ap, ◌∙◌, true, false, [], ◌∷◌, ◌++◌, ◌==◌, All, inl, inr, Bool-cases, ◌≢◌,
}
use linbo_docker.Text.{Text, codes, lower, is_space}
use linbo_docker.StartConf.{
  server_here, past_space, past_word, drop_word, put_word, replace_server, replace_all,
}

-- no white space
abbrev pub IsWord : Text → Type 0
IsWord w = All (λ (x : ℕ). is_space x ≡ false) w

-- the text does not begin with white space
abbrev pub IsBlunt : Text → Type 0
IsBlunt [] = Unit
IsBlunt (x ∷ s) = is_space x ≡ false

module _ (x : ℕ) (s : Text) where
  pub drop_word-space : is_space x ≡ true → drop_word (x ∷ s) ≡ x ∷ s
  unfolding drop_word
  drop_word-space e = rw (e, drop_word) refl

  pub drop_word-letter : is_space x ≡ false → drop_word (x ∷ s) ≡ drop_word s
  unfolding drop_word
  drop_word-letter e = rw (e, drop_word) refl

  pub past_space-space :
      (f : Text → Text) → is_space x ≡ true → past_space f (x ∷ s) ≡ x ∷ past_space f s
  unfolding past_space
  past_space-space f e = rw (e, past_space) refl

  pub past_space-letter : (f : Text → Text) → is_space x ≡ false → past_space f (x ∷ s) ≡ f (x ∷ s)
  unfolding past_space
  past_space-letter f e = rw (e, past_space) refl

  module _ (c : ℕ) (w : Text) (f : Text → Text) where
    pub past_word-same : (lower x == c) ≡ true → past_word (c ∷ w) f (x ∷ s) ≡ x ∷ past_word w f s
    unfolding past_word
    past_word-same e = rw (e, past_word) refl

    pub past_word-other : (lower x == c) ≡ false → past_word (c ∷ w) f (x ∷ s) ≡ x ∷ s
    unfolding past_word
    past_word-other e = rw (e, past_word) refl

  module _ (ip : Text) where
    pub replace_all-space :
        is_space x ≡ true → replace_all ip true (x ∷ s) ≡ x ∷ replace_all ip false s
    unfolding replace_all
    replace_all-space e = rw (e, replace_all) refl

    pub replace_all-letter :
        is_space x ≡ false → replace_all ip true (x ∷ s) ≡ replace_all ip true s
    unfolding replace_all
    replace_all-letter e = rw (e, replace_all) refl

    pub replace_all-here :
        server_here (x ∷ s) ≡ true
        → replace_all ip false (x ∷ s) ≡ codes "server=" ++ (ip ++ replace_all ip true s)
    unfolding replace_all
    replace_all-here e = rw (e, replace_all) refl

    pub replace_all-next :
        server_here (x ∷ s) ≡ false → replace_all ip false (x ∷ s) ≡ x ∷ replace_all ip false s
    unfolding replace_all
    replace_all-next e = rw (e, replace_all) refl

drop_word-append : (w s : Text) → IsWord w → drop_word (w ++ s) ≡ drop_word s
drop_word-append [] s h = refl
drop_word-append (x ∷ w) s h = drop_word-letter x (w ++ s) h.0 ∙ drop_word-append w s h.1

drop_word-drop_word : (s : Text) → drop_word (drop_word s) ≡ drop_word s
unfolding drop_word
drop_word-drop_word [] = refl
drop_word-drop_word (x ∷ s) = elim (Bool-cases (is_space x)) [
  | inl space ↦ ap drop_word (drop_word-space x s space)
  | inr letter ↦
      ap drop_word (drop_word-letter x s letter)
      ∙ drop_word-drop_word s
      ∙ sym (drop_word-letter x s letter)
]

put_word-twice : (a b s : Text) → IsWord a → a ≢ [] → put_word b (put_word a s) ≡ put_word b s
unfolding put_word
put_word-twice a b [] h n = refl
put_word-twice [] b (x ∷ s) h n = absurd (n refl)
put_word-twice (y ∷ a) b (x ∷ s) h n =
    ap (λ t. b ++ t) (drop_word-append (y ∷ a) (drop_word (x ∷ s)) h ∙ drop_word-drop_word (x ∷ s))

pub past_space-blunt : (f : Text → Text) (t : Text) → IsBlunt t → past_space f t ≡ f t
unfolding past_space
past_space-blunt f [] h = refl
past_space-blunt f (x ∷ t) h = past_space-letter x t f h

past_space-twice :
    (f g k : Text → Text) (s : Text)
    → ((t : Text) → IsBlunt t → IsBlunt (g t))
    → ((t : Text) → IsBlunt t → f (g t) ≡ k t)
    → past_space f (past_space g s) ≡ past_space k s
unfolding past_space
past_space-twice f g k [] b e = past_space-blunt f (g []) (b [] tt) ∙ e [] tt
past_space-twice f g k (x ∷ s) b e = elim (Bool-cases (is_space x)) [
  | inl space ↦
      ap (past_space f) (past_space-space x s g space)
      ∙ past_space-space x (past_space g s) f space
      ∙ ap (◌∷◌ x) (past_space-twice f g k s b e)
      ∙ sym (past_space-space x s k space)
  | inr letter ↦
      ap (past_space f) (past_space-letter x s g letter)
      ∙ past_space-blunt f (g (x ∷ s)) (b (x ∷ s) letter)
      ∙ e (x ∷ s) letter
      ∙ sym (past_space-letter x s k letter)
]

past_word-twice :
    (w : Text) (f g k : Text → Text) (s : Text)
    → ((t : Text) → f (g t) ≡ k t)
    → past_word w f (past_word w g s) ≡ past_word w k s
unfolding past_word
past_word-twice [] f g k s e = e s
past_word-twice (c ∷ w) f g k [] e = refl
past_word-twice (c ∷ w) f g k (x ∷ s) e = elim (Bool-cases (lower x == c)) [
  | inl same ↦
      ap (past_word (c ∷ w) f) (past_word-same x s c w g same)
      ∙ past_word-same x (past_word w g s) c w f same
      ∙ ap (◌∷◌ x) (past_word-twice w f g k s e)
      ∙ sym (past_word-same x s c w k same)
  | inr other ↦
      ap (past_word (c ∷ w) f) (past_word-other x s c w g other)
      ∙ past_word-other x s c w f other
      ∙ sym (past_word-other x s c w k other)
]

-- A word keeps its first letter.
pub past_word-IsBlunt :
    (c : ℕ) (w : Text) (f : Text → Text) (t : Text) → IsBlunt t → IsBlunt (past_word (c ∷ w) f t)
unfolding past_word
past_word-IsBlunt c w f [] h = tt
past_word-IsBlunt c w f (x ∷ t) h = elim (Bool-cases (lower x == c)) [
  | inl same ↦ subst IsBlunt (sym (past_word-same x t c w f same)) h
  | inr other ↦ subst IsBlunt (sym (past_word-other x t c w f other)) h
]

pub put_word-IsBlunt :
    (a : Text) → IsWord a → a ≢ [] → (t : Text) → IsBlunt t → IsBlunt (put_word a t)
unfolding put_word
put_word-IsBlunt a h n [] k = tt
put_word-IsBlunt [] h n (x ∷ t) k = absurd (n refl)
put_word-IsBlunt (y ∷ a) h n (x ∷ t) k = h.0

pub replace_server-twice :
    (a b line : Text)
    → IsWord a
    → a ≢ []
    → replace_server b (replace_server a line) ≡ replace_server b line
replace_server-twice a b line h n = past_space-twice _ _ _ line (past_word-IsBlunt b's' _ _) (λ t k.
    past_word-twice (codes "server") _ _ _ t (λ u.
      past_space-twice _ _ _ u (past_word-IsBlunt b'=' [] _) (λ v l.
        past_word-twice (codes "=") _ _ _ v (λ y.
          past_space-twice _ _ _ y (put_word-IsBlunt a h n) (λ z m. put_word-twice a b z h n)))))
