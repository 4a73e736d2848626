-- ===== src/StartConf/Rewritten.antt =====
-- containers/api/src/lib/startconf-rewrite.js: a file rewritten twice.
use mathlib.Core.Path.{subst}
use linbo_docker.Base.{
  ℕ, ◌≡◌, ◌≢◌, refl, sym, ap, ◌∙◌, Bool, true, false, List, [], ◌∷◌, ◌++◌, arith, ◌==◌, ◌&&◌, All,
  inl, inr, Bool-cases, if-both,
}
use linbo_docker.Text.{Text, codes, lower, is_space, trim_start}
use linbo_docker.Text.Split.{split, join, split-join, split-eq-cons, split-Whole, Whole}
use linbo_docker.StartConf.{
  word_at, server_here, past_space, past_word, drop_word, put_word, replace_server, replace_all,
  is_server, is_kernel, has_server, rewrite_line, in_section, rewrite_lines, rewrite_server_field,
}
use linbo_docker.StartConf.Words.{
  IsWord, drop_word-space, drop_word-letter, replace_all-space, replace_all-letter,
  replace_all-here, replace_all-next, past_space-space, past_space-letter, past_word-same,
  past_word-other,
}
use linbo_docker.StartConf.Lines.{rewrite_lines-twice}

-- no line feed
abbrev Flat : Text → Type 0
Flat s = Whole 10 s

Flat-cons : (x : ℕ) (s t : Text) → Flat (x ∷ s) → Flat t → Flat (x ∷ t)
Flat-cons x s t h k = ground arith

Flat-tail : (x : ℕ) (s : Text) → Flat (x ∷ s) → Flat s
Flat-tail x s h = ground arith

Flat-append : (s t : Text) → Flat s → Flat t → Flat (s ++ t)
Flat-append [] t h k = k
Flat-append (x ∷ s) t h k = Flat-cons x s (s ++ t) h (Flat-append s t (Flat-tail x s h) k)

letter-Flat : (x : ℕ) (s : Text) → is_space x ≡ false → Flat s → Flat (x ∷ s)
unfolding is_space
letter-Flat x s e h = ground arith

IsWord-Flat : (a : Text) → IsWord a → Flat a
IsWord-Flat [] h = refl
IsWord-Flat (x ∷ a) h = letter-Flat x a h.0 (IsWord-Flat a h.1)

drop_word-Flat : (s : Text) → Flat s → Flat (drop_word s)
unfolding drop_word
drop_word-Flat [] h = refl
drop_word-Flat (x ∷ s) h = elim (Bool-cases (is_space x)) [
  | inl space ↦ subst Flat (sym (drop_word-space x s space)) h
  | inr letter ↦ subst Flat (sym (drop_word-letter x s letter)) (drop_word-Flat s (Flat-tail x s h))
]

put_word-Flat : (a : Text) → Flat a → (s : Text) → Flat s → Flat (put_word a s)
unfolding put_word
put_word-Flat a k [] h = refl
put_word-Flat a k (x ∷ s) h = Flat-append a (drop_word (x ∷ s)) k (drop_word-Flat (x ∷ s) h)

past_space-Flat :
    (f : Text → Text)
    → ((t : Text) → Flat t → Flat (f t))
    → (s : Text) → Flat s
    → Flat (past_space f s)
unfolding past_space
past_space-Flat f e [] h = e [] refl
past_space-Flat f e (x ∷ s) h = elim (Bool-cases (is_space x)) [
  | inl space ↦
      subst Flat (sym (past_space-space x s f space))
        (Flat-cons x s (past_space f s) h (past_space-Flat f e s (Flat-tail x s h)))
  | inr letter ↦ subst Flat (sym (past_space-letter x s f letter)) (e (x ∷ s) h)
]

past_word-Flat :
    (w : Text) (f : Text → Text)
    → ((t : Text) → Flat t → Flat (f t))
    → (s : Text) → Flat s
    → Flat (past_word w f s)
unfolding past_word
past_word-Flat [] f e s h = e s h
past_word-Flat (c ∷ w) f e [] h = refl
past_word-Flat (c ∷ w) f e (x ∷ s) h = elim (Bool-cases (lower x == c)) [
  | inl same ↦
      subst Flat (sym (past_word-same x s c w f same))
        (Flat-cons x s (past_word w f s) h (past_word-Flat w f e s (Flat-tail x s h)))
  | inr other ↦ subst Flat (sym (past_word-other x s c w f other)) h
]

replace_server-Flat : (a : Text) → Flat a → (s : Text) → Flat s → Flat (replace_server a s)
replace_server-Flat a k = past_space-Flat _ (
    past_word-Flat (codes "server") _
      (past_space-Flat _ (past_word-Flat (codes "=") _ (past_space-Flat _ (put_word-Flat a k)))))

replace_all-Flat :
    (a : Text) → Flat a → (inside : Bool) (s : Text) → Flat s → Flat (replace_all a inside s)
unfolding replace_all
replace_all-Flat a k true [] h = refl
replace_all-Flat a k false [] h = refl
replace_all-Flat a k true (x ∷ s) h = elim (Bool-cases (is_space x)) [
  | inl space ↦
      subst Flat (sym (replace_all-space x s a space))
        (Flat-cons x s (replace_all a false s) h (replace_all-Flat a k false s (Flat-tail x s h)))
  | inr letter ↦
      subst Flat (sym (replace_all-letter x s a letter))
        (replace_all-Flat a k true s (Flat-tail x s h))
]
replace_all-Flat a k false (x ∷ s) h = elim (Bool-cases (server_here (x ∷ s))) [
  | inl here ↦ subst Flat (sym (replace_all-here x s a here)) (
      Flat-append (codes "server=") (a ++ replace_all a true s) refl
        (Flat-append a (replace_all a true s) k (replace_all-Flat a k true s (Flat-tail x s h))))
  | inr next ↦
      subst Flat (sym (replace_all-next x s a next))
        (Flat-cons x s (replace_all a false s) h (replace_all-Flat a k false s (Flat-tail x s h)))
]

rewrite_line-Flat : (a line : Text) → Flat a → Flat line → Flat (rewrite_line a line)
unfolding rewrite_line
rewrite_line-Flat a line k h =
    if-both Flat (is_server line) (replace_server-Flat a k line h)
      (if-both Flat (is_kernel line && has_server line) (replace_all-Flat a k false line h) h)

rewrite_lines-Flat :
    (a : Text) (section : Bool) (ls : List Text)
    → Flat a
    → All Flat ls
    → All Flat (rewrite_lines a section ls)
unfolding rewrite_lines
rewrite_lines-Flat a section [] k h = tt
rewrite_lines-Flat a section (l ∷ ls) k h = (
  if-both Flat (in_section section l) (rewrite_line-Flat a l k h.0) h.0,
  rewrite_lines-Flat a (in_section section l) ls k h.1,
)

-- the test for empty arguments makes no difference where the address is not empty
field-join :
    (content ip : Text)
    → ip ≢ []
    → rewrite_server_field content ip ≡ join 10 (rewrite_lines ip false (split 10 content))
unfolding rewrite_server_field split join rewrite_lines word_at trim_start
field-join content [] n = absurd (n refl)
field-join [] (d ∷ ds) n = refl
field-join (c ∷ cs) (d ∷ ds) n = refl

split-rewritten :
    (a l : Text) (ls : List Text)
    → All Flat (rewrite_lines a false (l ∷ ls))
    → split 10 (join 10 (rewrite_lines a false (l ∷ ls))) ≡ rewrite_lines a false (l ∷ ls)
unfolding rewrite_lines
split-rewritten a l ls h = split-join 10 _ _ h

-- The lines of a rewritten file are the rewritten lines.
lines_of_rewritten :
    (content a : Text)
    → IsWord a
    → split 10 (join 10 (rewrite_lines a false (split 10 content)))
      ≡ rewrite_lines a false (split 10 content)
lines_of_rewritten content a h =
    let flat =
      rewrite_lines-Flat a false (split 10 content) (IsWord-Flat a h) (split-Whole 10 content) in
    let (l, ls, e) = split-eq-cons 10 content in
    subst
      (λ (ts : List Text).
        All Flat (rewrite_lines a false ts)
        → split 10 (join 10 (rewrite_lines a false ts)) ≡ rewrite_lines a false ts)
      (sym e) (split-rewritten a l ls) flat

-- Whatever the file holds, the last address wins: rewriting it for a first address, a word without
-- white space, and then for a second one gives what rewriting it for the second one gives.
pub rewrite_server_field-twice :
    (content a b : Text)
    → IsWord a
    → a ≢ []
    → b ≢ []
    → rewrite_server_field (rewrite_server_field content a) b ≡ rewrite_server_field content b
rewrite_server_field-twice content a b h n m =
    ap (λ (t : Text). rewrite_server_field t b) (field-join content a n)
    ∙ field-join (join 10 (rewrite_lines a false (split 10 content))) b m
    ∙ ap (λ (ls : List Text). join 10 (rewrite_lines b false ls)) (lines_of_rewritten content a h)
    ∙ ap (join 10) (rewrite_lines-twice a b false (split 10 content) h n)
    ∙ sym (field-join content b m)
