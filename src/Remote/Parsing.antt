-- ===== src/Remote/Parsing.antt =====
-- `parseCommands` agrees with the grammar of Segments, and its fuel is enough.
use mathlib.Core.List.{append-nil, append_assoc}
use linbo_docker.Base.{
  ℕ, zero, suc, ◌≤◌, ◌≡◌, ◌≢◌, refl, ap, ◌∙◌, Bool, true, false, Option, some, List, [], ◌∷◌, ◌++◌,
  inl, inr, arith, if◌then◌else◌, length, take, drop, Bool-cases, Outcome, ok, err, ◌>>=◌,
}
use linbo_docker.Text.{Text, has, to_lower, trim}
use linbo_docker.Text.Split.{split}
use linbo_docker.Remote.{
  Command, CommandError, Param, unknown_command, is_allowed, params_of, the_command, skip_comma,
  with_params, parse_one, parse_loop, parse_commands, move_end, known_commands, special_flags,
}
use linbo_docker.Remote.Segments.{before, after, params_behind, parse_segment, parse_segments}
use linbo_docker.Remote.Lookahead.{
  comma_end, take-comma_end, from_comma, drop-comma_end, move_end-comma_end, name_end,
  take-name_end, from_name, drop-name_end, before-after, from_comma-after, split-before,
  length-after-le,
}

-- the text that is left behind the first segment and its comma
abbrev tail_text : Text → Text
tail_text s = skip_comma (from_comma s)

-- one command, and the text that is left
abbrev with_rest : Text → Outcome CommandError Command → Outcome CommandError (Command × Text)
with_rest rest m = m >>= λ c. ok (c, rest)

words : List Text
words = known_commands ++ special_flags

abbrev param_at : Text → Text → ℕ → Outcome CommandError (Command × Text)
param_at cmd p end =
    params_of cmd (take end p) >>= λ ps. ok (the_command cmd ps, skip_comma (drop end p))

with_params_lem :
    (cmd p : Text) → with_params cmd (b':' ∷ p) ≡ param_at cmd p (move_end p (comma_end p) words)
unfolding with_params words
with_params_lem cmd p = refl

bind_rest :
    (cmd rest : Text) (m : Outcome CommandError (List Param))
    → (m >>= λ ps. ok (the_command cmd ps, rest))
      ≡ with_rest rest (m >>= λ ps. ok (the_command cmd ps))
bind_rest cmd rest (ok ps) = refl
bind_rest cmd rest (err e) = refl

with_params-colon :
    (cmd p : Text)
    → with_params cmd (b':' ∷ p) ≡ with_rest (tail_text p) (params_behind true cmd (before b',' p))
with_params-colon cmd p =
    with_params_lem cmd p
    ∙ rw (move_end-comma_end p words, take-comma_end p, drop-comma_end p)
        (bind_rest cmd (tail_text p) (params_of cmd (before b',' p)))

with_params-from_comma :
    (cmd s : Text) → with_params cmd (from_comma s) ≡ ok (the_command cmd [], tail_text s)
with_params-from_comma cmd s = elim (Bool-cases (has b',' s)) [
  | inl h ↦ rw h (unfold with_params in refl)
  | inr h ↦ rw h (unfold with_params in refl)
]

with_params-from_name :
    (cmd s : Text)
    → with_params cmd (from_name s)
      ≡ with_rest
          (tail_text s)
          (params_behind (has b':' (before b',' s)) cmd (after b':' (before b',' s)))
with_params-from_name cmd s = elim (Bool-cases (has b':' (before b',' s))) [
  | inl h ↦
      rw h (with_params-colon cmd (after b':' s) ∙ rw (before-after s h, from_comma-after s h))
  | inr h ↦ rw h (with_params-from_comma cmd s)
]

parse_one_lem :
    (s : Text)
    → parse_one s ≡ (
        let cmd = to_lower (take (name_end s) s) in
        if is_allowed cmd then with_params cmd (drop (name_end s) s) else err (unknown_command cmd))
unfolding parse_one
parse_one_lem s = refl

-- One round reads the first segment, by the grammar, and leaves what stands behind its comma.
parse_one-segment :
    (s : Text) → parse_one s ≡ with_rest (tail_text s) (parse_segment (before b',' s))
unfolding parse_segment
parse_one-segment s = parse_one_lem s ∙ rw (take-name_end s, drop-name_end s) (allowed _ refl)
  where
    allowed :
        (b : Bool)
        → is_allowed (to_lower (before b':' (before b',' s))) ≡ b
        → (if is_allowed (to_lower (before b':' (before b',' s)))
            then with_params (to_lower (before b':' (before b',' s))) (from_name s)
            else err (unknown_command (to_lower (before b':' (before b',' s)))))
          ≡ with_rest (tail_text s) (parse_segment (before b',' s))
    allowed true e = rw (e, parse_segment) (with_params-from_name _ s)
    allowed false e = rw (e, parse_segment)

-- The next segments, read in turn.
abbrev segments_from : Text → Text → Outcome CommandError (List Command)
segments_from first rest = do
  c ← parse_segment first
  cs ← parse_segments (split b',' rest)
  ok (c ∷ cs)

abbrev first_of_all : Text → List Text → Outcome CommandError (List Command)
first_of_all s ss = do c ← parse_segment s; cs ← parse_segments ss; ok (c ∷ cs)

parse_segments-two :
    (s t : Text) (ts : List Text) → parse_segments (s ∷ t ∷ ts) ≡ first_of_all s (t ∷ ts)
unfolding parse_segments
parse_segments-two [] t ts = refl
parse_segments-two (x ∷ s) t ts = refl

parse_segments-one :
    (x : ℕ) (s : Text) → parse_segments ((x ∷ s) ∷ []) ≡ first_of_all (x ∷ s) ([] ∷ [])
unfolding parse_segments
parse_segments-one x s = refl

before-eq-cons :
    (x : ℕ) (xs : Text) → has b',' (x ∷ xs) ≡ false → before b',' (x ∷ xs) ≡ x ∷ before b',' xs
unfolding before
before-eq-cons x xs h = ground arith

parse_segments-split :
    (x : ℕ) (xs : Text)
    → parse_segments (split b',' (x ∷ xs))
      ≡ segments_from (before b',' (x ∷ xs)) (tail_text (x ∷ xs))
parse_segments-split x xs = rw (split-before (x ∷ xs)) (by_comma (has b',' (x ∷ xs)) refl)
  where
    rest : Text
    rest = after b',' (x ∷ xs)

    by_comma :
        (b : Bool)
        → has b',' (x ∷ xs) ≡ b
        → parse_segments (before b',' (x ∷ xs) ∷ (if b then split b',' rest else []))
          ≡ segments_from (before b',' (x ∷ xs)) (skip_comma (if b then b',' ∷ rest else []))
    by_comma true e = rw (split-before rest) (parse_segments-two _ _ _)
    by_comma false e =
        rw (before-eq-cons x xs e) (unfold split in parse_segments-one x (before b',' xs))

length-tail_text : (x : ℕ) (xs : Text) → length (tail_text (x ∷ xs)) ≤ length xs
unfolding after
length-tail_text x xs = ground (arith, length-after-le b',' xs)

abbrev appended :
    List Command → Outcome CommandError (List Command) → Outcome CommandError (List Command)
appended done m = m >>= λ cs. ok (done ++ cs)

next :
    ℕ
    → List Command
    → Outcome CommandError (Command × Text)
    → Option (Outcome CommandError (List Command))
next fuel done (err e) = some (err e)
next fuel done (ok (c, rest)) = parse_loop fuel rest (done ++ c ∷ [])

parse_loop-suc :
    (fuel x : ℕ) (xs : Text) (done : List Command)
    → parse_loop (suc fuel) (x ∷ xs) done ≡ next fuel done (parse_one (x ∷ xs))
unfolding parse_loop next
parse_loop-suc fuel x xs done = by_result (parse_one (x ∷ xs))
  where
    by_result :
        (m : Outcome CommandError (Command × Text))
        → (elim m [
          | err e ↦ some (err e)
          | ok (cmd, rest) ↦ parse_loop fuel rest (done ++ cmd ∷ [])
        ])
          ≡ next fuel done m
    by_result (err e) = refl
    by_result (ok (c, rest)) = refl

parse_loop-nil : (fuel : ℕ) (done : List Command) → parse_loop fuel [] done ≡ some (ok done)
unfolding parse_loop
parse_loop-nil zero done = refl
parse_loop-nil (suc fuel) done = refl

parse_segments-nil : parse_segments (split b',' []) ≡ ok []
unfolding parse_segments split
parse_segments-nil = refl

appended-cons :
    (done : List Command) (c : Command) (m : Outcome CommandError (List Command))
    → appended (done ++ c ∷ []) m ≡ appended done (m >>= λ cs. ok (c ∷ cs))
appended-cons done c (ok cs) = ap ok (append_assoc done (c ∷ []) cs)
appended-cons done c (err e) = refl

-- what is left to read after a segment, for the induction
next-segment :
    (fuel : ℕ) (done : List Command) (rest : Text) (m : Outcome CommandError Command)
    → ((c : Command)
        → parse_loop fuel rest (done ++ c ∷ [])
          ≡ some (appended (done ++ c ∷ []) (parse_segments (split b',' rest))))
    → next fuel done (with_rest rest m)
      ≡ some (appended done (m >>= λ c. parse_segments (split b',' rest) >>= λ cs. ok (c ∷ cs)))
unfolding next
next-segment fuel done rest (err e) ih = refl
next-segment fuel done rest (ok c) ih = ih c ∙ ap some (appended-cons done c _)

parse_loop-segments :
    (fuel : ℕ) (s : Text) (done : List Command)
    → length s ≤ fuel
    → parse_loop fuel s done ≡ some (appended done (parse_segments (split b',' s)))
parse_loop-segments fuel [] done h = parse_loop-nil fuel done ∙ rw (parse_segments-nil, append-nil)
parse_loop-segments zero (x ∷ xs) done h = absurd (omega arith)
parse_loop-segments (suc fuel) (x ∷ xs) done h =
    parse_loop-suc fuel x xs done
    ∙ rw (parse_one-segment (x ∷ xs), parse_segments-split x xs)
        (next-segment fuel done (tail_text (x ∷ xs)) (parse_segment (before b',' (x ∷ xs))) λ c.
          parse_loop-segments fuel (tail_text (x ∷ xs)) (done ++ c ∷ [])
            (omega (arith, length-tail_text x xs)))

appended-nil : (m : Outcome CommandError (List Command)) → appended [] m ≡ m
appended-nil (ok cs) = refl
appended-nil (err e) = refl

parse_commands_lem :
    (x : ℕ) (xs : Text)
    → parse_commands (x ∷ xs) ≡ parse_loop (length (trim (x ∷ xs))) (trim (x ∷ xs)) []
unfolding parse_commands
parse_commands_lem x xs = refl

-- On every text that is not empty, `parseCommands` returns, and what it returns or throws is
-- what the grammar of Segments gives on the segments between the commas of the trimmed text.
pub parse_commands-segments :
    (s : Text) → s ≢ [] → parse_commands s ≡ some (parse_segments (split b',' (trim s)))
parse_commands-segments [] h = absurd (h refl)
parse_commands-segments (x ∷ xs) h =
    parse_commands_lem x xs
    ∙ parse_loop-segments (length (trim (x ∷ xs))) (trim (x ∷ xs)) [] (omega arith)
    ∙ ap some (appended-nil _)
