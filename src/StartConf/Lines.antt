-- ===== src/StartConf/Lines.antt =====
-- containers/api/src/lib/startconf-rewrite.js: the lines of a file rewritten twice.
use mathlib.Core.Path.{ap₂}
use linbo_docker.Base.{
  ◌≡◌, ◌≢◌, refl, sym, ap, ◌∙◌, Bool, true, false, List, [], ◌∷◌, if◌then◌else◌, inl, inr,
  Bool-cases,
}
use linbo_docker.Text.{Text}
use linbo_docker.StartConf.{
  is_linbo, is_header, is_server, is_kernel, has_server, replace_server, replace_all, rewrite_line,
  in_section, rewrite_lines,
}
use linbo_docker.StartConf.Words.{IsWord, replace_server-twice}
use linbo_docker.StartConf.Replacing.{replace_all-twice, replace_all-none}
use linbo_docker.StartConf.Heads.{
  is_header-replace_all, is_linbo-replace_all, is_kernel-replace_all, is_kernel-is_server,
  is_server-is_header, is_server-is_linbo, is_server-replace_server,
}

module _ (ip line : Text) where
  server_line : is_server line ≡ true → rewrite_line ip line ≡ replace_server ip line
  unfolding rewrite_line
  server_line s = rw s refl

  -- where nothing matches, replacing all changes nothing
  kernel_line :
      is_server line ≡ false
      → is_kernel line ≡ true
      → rewrite_line ip line ≡ replace_all ip false line
  unfolding rewrite_line
  kernel_line s k = elim (Bool-cases (has_server line)) [
    | inl has ↦ rw (s, k, has) refl
    | inr none_there ↦ rw (s, k, none_there) (sym (replace_all-none ip line none_there))
  ]

  other_line : is_server line ≡ false → is_kernel line ≡ false → rewrite_line ip line ≡ line
  unfolding rewrite_line
  other_line s k = rw (s, k) refl

module _ (ip : Text) (section : Bool) (l : Text) (ls : List Text) where
  line_inside :
      in_section section l ≡ true
      → rewrite_lines ip section (l ∷ ls) ≡ rewrite_line ip l ∷ rewrite_lines ip true ls
  unfolding rewrite_lines
  line_inside e = rw e refl

  line_outside :
      in_section section l ≡ false
      → rewrite_lines ip section (l ∷ ls) ≡ l ∷ rewrite_lines ip false ls
  unfolding rewrite_lines
  line_outside e = rw e refl

module _ (a b : Text) where
  rewrite_line-twice :
      (line : Text) → IsWord a → a ≢ [] → rewrite_line b (rewrite_line a line) ≡ rewrite_line b line
  rewrite_line-twice line h n = elim (Bool-cases (is_server line)) [
    | inl s ↦
        ap (rewrite_line b) (server_line a line s)
        ∙ server_line b (replace_server a line) (is_server-replace_server a line ∙ s)
        ∙ replace_server-twice a b line h n
        ∙ sym (server_line b line s)
    | inr s ↦ elim (Bool-cases (is_kernel line)) [
      | inl k ↦
          let still = is_kernel-replace_all a line ∙ k in
          ap (rewrite_line b) (kernel_line a line s k)
          ∙ kernel_line b (replace_all a false line)
              (is_kernel-is_server (replace_all a false line) still) still
          ∙ replace_all-twice a b false line h n
          ∙ sym (kernel_line b line s k)
      | inr k ↦ ap (rewrite_line b) (other_line a line s k)
    ]
  ]

  -- A rewritten line opens and closes sections as before.
  in_section-rewrite_line :
      (section : Bool) (line : Text)
      → in_section section (rewrite_line a line) ≡ in_section section line
  in_section-rewrite_line section line = elim (Bool-cases (is_server line)) [
    | inl s ↦
        let still = is_server-replace_server a line ∙ s in
        ap (in_section section) (server_line a line s)
        ∙ no_header (replace_server a line) still
        ∙ sym (no_header line s)
    | inr s ↦ elim (Bool-cases (is_kernel line)) [
      | inl k ↦
          ap (in_section section) (kernel_line a line s k)
          ∙ ap
              (λ c.
                if c then true else if is_header (replace_all a false line) then false else section)
              (is_linbo-replace_all a line)
          ∙ ap (λ c. if is_linbo line then true else if c then false else section)
              (is_header-replace_all a line)
      | inr k ↦ ap (in_section section) (other_line a line s k)
    ]
  ]
    where
      no_header : (l : Text) → is_server l ≡ true → in_section section l ≡ section
      no_header l s = rw (is_server-is_linbo l s, is_server-is_header l s) refl

  pub rewrite_lines-twice :
      (section : Bool) (lines : List Text)
      → IsWord a
      → a ≢ []
      → rewrite_lines b section (rewrite_lines a section lines) ≡ rewrite_lines b section lines
  unfolding rewrite_lines
  rewrite_lines-twice section [] h n = refl
  rewrite_lines-twice section (l ∷ ls) h n = elim (Bool-cases (in_section section l)) [
    | inl here ↦
        ap (rewrite_lines b section) (line_inside a section l ls here)
        ∙ line_inside b section (rewrite_line a l) (rewrite_lines a true ls)
            (in_section-rewrite_line section l ∙ here)
        ∙ ap₂ ◌∷◌ (rewrite_line-twice l h n) (rewrite_lines-twice true ls h n)
        ∙ sym (line_inside b section l ls here)
    | inr out ↦
        ap (rewrite_lines b section) (line_outside a section l ls out)
        ∙ line_outside b section l (rewrite_lines a false ls) out
        ∙ ap (◌∷◌ l) (rewrite_lines-twice false ls h n)
        ∙ sym (line_outside b section l ls out)
  ]
