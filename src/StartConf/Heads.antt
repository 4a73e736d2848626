-- ===== src/StartConf/Heads.antt =====
-- containers/api/src/lib/startconf-rewrite.js: a rewritten line begins as it did.
use mathlib.Core.Bool.{false≢true}
use linbo_docker.Base.{
  ℕ, ◌≡◌, refl, sym, ap, ◌∙◌, Bool, true, false, [], ◌∷◌, ◌++◌, arith, ◌==◌, if◌then◌else◌, inl,
  inr, Bool-cases, if-both,
}
use linbo_docker.Text.{Text, codes, lower, is_space, trim_start}
use linbo_docker.StartConf.{
  word_at, any_rest, equals, server_here, past_space, past_word, put_word, replace_server,
  replace_all, is_server, is_kernel, is_header, is_linbo,
}
use linbo_docker.StartConf.Words.{
  IsBlunt, replace_all-here, replace_all-next, past_space-space, past_space-letter, past_word-same,
  past_word-other, past_word-IsBlunt,
}
use linbo_docker.StartConf.Replacing.{NoS, first_letter, second_letter, not_alone, replace_all-nil}

word_at-append :
    (w v : Text) (p : Text → Bool) (s : Text) → word_at (w ++ v) p s ≡ word_at w (word_at v p) s
unfolding word_at
word_at-append [] v p s = refl
word_at-append (c ∷ w) v p [] = refl
word_at-append (c ∷ w) v p (x ∷ s) =
    ap (λ b. if lower x == c then b else false) (word_at-append w v p s)

word_at-other :
    (c : ℕ) (w : Text) (p : Text → Bool) (x : ℕ) (s : Text)
    → (lower x == c) ≡ false
    → word_at (c ∷ w) p (x ∷ s) ≡ false
unfolding word_at
word_at-other c w p x s e = rw e refl

-- Words with different first letters do not stand at the same place.
word_at-apart :
    (c d : ℕ) (w v : Text) (p q : Text → Bool) (s : Text)
    → (c == d) ≡ false
    → word_at (c ∷ w) p s ≡ true
    → word_at (d ∷ v) q s ≡ false
unfolding word_at
word_at-apart c d w v p q [] e h = refl
word_at-apart c d w v p q (x ∷ s) e h = ground arith

word_at-ext :
    (w : Text) (p q : Text → Bool) (s : Text)
    → ((t : Text) → p t ≡ q t)
    → word_at w p s ≡ word_at w q s
unfolding word_at
word_at-ext [] p q s e = e s
word_at-ext (c ∷ w) p q [] e = refl
word_at-ext (c ∷ w) p q (x ∷ s) e =
    ap (λ b. if lower x == c then b else false) (word_at-ext w p q s e)

word_at-replace_all :
    (a w : Text) (p : Text → Bool) (s : Text)
    → NoS w
    → ((t : Text) → p (replace_all a false t) ≡ p t)
    → word_at w p (replace_all a false s) ≡ word_at w p s
unfolding word_at
word_at-replace_all a w p [] h e = ap (word_at w p) (replace_all-nil a)
word_at-replace_all a [] p (x ∷ s) h e = e (x ∷ s)
word_at-replace_all a (c ∷ w) p (x ∷ s) h e = elim (Bool-cases (server_here (x ∷ s))) [
  | inl here ↦
      ap (word_at (c ∷ w) p) (replace_all-here x s a here)
      ∙ word_at-other c w p b's' _ h.0
      ∙ sym (word_at-other c w p x s (ap (λ y. lower y == c) (first_letter x s here) ∙ h.0))
  | inr next ↦
      ap (word_at (c ∷ w) p) (replace_all-next x s a next)
      ∙ ap (λ b. if lower x == c then b else false) (word_at-replace_all a w p s h.1 e)
]

trim_start-space : (x : ℕ) (s : Text) → is_space x ≡ true → trim_start (x ∷ s) ≡ trim_start s
unfolding trim_start
trim_start-space x s e = rw e refl

trim_start-letter : (x : ℕ) (s : Text) → is_space x ≡ false → trim_start (x ∷ s) ≡ x ∷ s
unfolding trim_start
trim_start-letter x s e = rw e refl

s_letter : is_space b's' ≡ false
unfolding is_space
s_letter = refl

blunt_stays : (s : Text) → IsBlunt s → trim_start s ≡ s
unfolding trim_start
blunt_stays [] h = refl
blunt_stays (x ∷ s) h = trim_start-letter x s h

trim_start-replace_all :
    (a s : Text) → trim_start (replace_all a false s) ≡ replace_all a false (trim_start s)
unfolding trim_start
trim_start-replace_all a [] = ap trim_start (replace_all-nil a) ∙ sym (replace_all-nil a)
trim_start-replace_all a (x ∷ s) = elim (Bool-cases (server_here (x ∷ s))) [
  | inl here ↦
      let letter = ap is_space (first_letter x s here) ∙ s_letter in
      ap trim_start (replace_all-here x s a here)
      ∙ trim_start-letter b's' _ s_letter
      ∙ sym (replace_all-here x s a here)
      ∙ ap (replace_all a false) (sym (trim_start-letter x s letter))
  | inr next ↦ elim (Bool-cases (is_space x)) [
    | inl space ↦
        ap trim_start (replace_all-next x s a next)
        ∙ trim_start-space x (replace_all a false s) space
        ∙ trim_start-replace_all a s
        ∙ ap (replace_all a false) (sym (trim_start-space x s space))
    | inr letter ↦
        ap trim_start (replace_all-next x s a next)
        ∙ trim_start-letter x (replace_all a false s) letter
        ∙ sym (replace_all-next x s a next)
        ∙ ap (replace_all a false) (sym (trim_start-letter x s letter))
  ]
]

-- a test behind white space, for a word without an s
spaced-replace_all :
    (a w : Text) (p : Text → Bool) (s : Text)
    → NoS w
    → ((t : Text) → p (replace_all a false t) ≡ p t)
    → word_at w p (trim_start (replace_all a false s)) ≡ word_at w p (trim_start s)
spaced-replace_all a w p s h e =
    ap (word_at w p) (trim_start-replace_all a s) ∙ word_at-replace_all a w p (trim_start s) h e

equals-replace_all : (a s : Text) → equals (replace_all a false s) ≡ equals s
equals-replace_all a s = spaced-replace_all a (codes "=") any_rest s (refl, tt) (λ t. refl)

pub is_header-replace_all : (a s : Text) → is_header (replace_all a false s) ≡ is_header s
is_header-replace_all a s = spaced-replace_all a (codes "[") any_rest s (refl, tt) (λ t. refl)

pub is_linbo-replace_all : (a s : Text) → is_linbo (replace_all a false s) ≡ is_linbo s
is_linbo-replace_all a s =
    spaced-replace_all a (codes "[linbo]") any_rest s
      (refl, (refl, (refl, (refl, (refl, (refl, (refl, tt))))))) (λ t. refl)

no_equals : (u : Text) → equals (b'e' ∷ u) ≡ false
unfolding trim_start is_space word_at
no_equals u = refl

-- the last letter of `KernelOptions`
last_letter :
    (a t : Text) → word_at (codes "s") equals (replace_all a false t) ≡ word_at (codes "s") equals t
unfolding word_at
last_letter a [] = ap (word_at (codes "s") equals) (replace_all-nil a)
last_letter a (x ∷ t) = elim (Bool-cases (server_here (x ∷ t))) [
  | inr next ↦
      ap (word_at (codes "s") equals) (replace_all-next x t a next)
      ∙ ap (λ b. if lower x == b's' then b else false) (equals-replace_all a t)
  | inl here ↦
      ap (word_at (codes "s") equals) (replace_all-here x t a here)
      ∙ no_equals (codes "rver=" ++ (a ++ replace_all a true t))
      ∙ sym (behind t here)
]
  where
    behind : (u : Text) → server_here (x ∷ u) ≡ true → word_at (codes "s") equals (x ∷ u) ≡ false
    behind [] here = absurd (false≢true (sym (not_alone x) ∙ here))
    behind (y ∷ u) here =
        if-both (λ (b : Bool). b ≡ false) (lower x == b's')
          (ap (λ z. equals (z ∷ u)) (second_letter x y u here) ∙ no_equals u) refl

pub is_kernel-replace_all : (a s : Text) → is_kernel (replace_all a false s) ≡ is_kernel s
is_kernel-replace_all a s =
    let w = codes "kerneloption" in
    word_at-append w (codes "s") equals (trim_start (replace_all a false s))
    ∙ spaced-replace_all a w (word_at (codes "s") equals) s
        (
          refl,
          (
            refl,
            (refl, (refl, (refl, (refl, (refl, (refl, (refl, (refl, (refl, (refl, tt)))))))))),
          ),
        )
        (last_letter a)
    ∙ sym (word_at-append w (codes "s") equals (trim_start s))

pub is_kernel-is_server : (s : Text) → is_kernel s ≡ true → is_server s ≡ false
is_kernel-is_server s e =
    word_at-apart b'k' b's' (codes "erneloptions") (codes "erver") equals equals (trim_start s) refl
      e

pub is_server-is_header : (s : Text) → is_server s ≡ true → is_header s ≡ false
is_server-is_header s e =
    word_at-apart b's' b'[' (codes "erver") [] equals any_rest (trim_start s) refl e

pub is_server-is_linbo : (s : Text) → is_server s ≡ true → is_linbo s ≡ false
is_server-is_linbo s e =
    word_at-apart b's' b'[' (codes "erver") (codes "linbo]") equals any_rest (trim_start s) refl e

-- what stands behind white space
trim_start-past_space :
    (f : Text → Text) (s : Text)
    → ((t : Text) → IsBlunt t → IsBlunt (f t))
    → trim_start (past_space f s) ≡ f (trim_start s)
unfolding trim_start past_space
trim_start-past_space f [] h = blunt_stays (f []) (h [] tt)
trim_start-past_space f (x ∷ s) h = elim (Bool-cases (is_space x)) [
  | inl space ↦
      ap trim_start (past_space-space x s f space)
      ∙ trim_start-space x (past_space f s) space
      ∙ trim_start-past_space f s h
      ∙ ap f (sym (trim_start-space x s space))
  | inr letter ↦
      ap trim_start (past_space-letter x s f letter)
      ∙ blunt_stays (f (x ∷ s)) (h (x ∷ s) letter)
      ∙ ap f (sym (trim_start-letter x s letter))
]

word_at-past_word :
    (w : Text) (p : Text → Bool) (f : Text → Text) (s : Text)
    → word_at w p (past_word w f s) ≡ word_at w (λ t. p (f t)) s
unfolding word_at past_word
word_at-past_word [] p f s = refl
word_at-past_word (c ∷ w) p f [] = refl
word_at-past_word (c ∷ w) p f (x ∷ s) = elim (Bool-cases (lower x == c)) [
  | inl same ↦
      ap (word_at (c ∷ w) p) (past_word-same x s c w f same)
      ∙ ap (λ b. if lower x == c then b else false) (word_at-past_word w p f s)
  | inr other ↦
      ap (word_at (c ∷ w) p) (past_word-other x s c w f other)
      ∙ word_at-other c w p x s other
      ∙ sym (word_at-other c w (λ t. p (f t)) x s other)
]

equals-past_space :
    (g : Text → Text) (t : Text) → equals (past_space (past_word (codes "=") g) t) ≡ equals t
equals-past_space g t =
    ap (word_at (codes "=") any_rest)
      (trim_start-past_space (past_word (codes "=") g) t (past_word-IsBlunt b'=' [] g))
    ∙ word_at-past_word (codes "=") any_rest g (trim_start t)

pub is_server-replace_server : (a s : Text) → is_server (replace_server a s) ≡ is_server s
is_server-replace_server a s =
    let g = past_space (past_word (codes "=") (past_space (put_word a))) in
    ap (word_at (codes "server") equals) (
      trim_start-past_space (past_word (codes "server") g) s
        (past_word-IsBlunt b's' (codes "erver") g))
    ∙ word_at-past_word (codes "server") equals g (trim_start s)
    ∙ word_at-ext (codes "server") (λ t. equals (g t)) equals (trim_start s)
        (equals-past_space (past_space (put_word a)))
