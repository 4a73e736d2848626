-- ===== src/Remote/Valid.antt =====
-- What a command list that `parseCommands` returns is good for.
use mathlib.Core.Path.{subst}
use linbo_docker.Base.{
  ℕ, ◌≤◌, ◌≡◌, refl, Bool, true, false, none, some, Option, List, [], ◌∷◌, inl, inr, arith, length,
  All, Bool-cases, if-both, Outcome, ok, err, ◌>>=◌,
}
use linbo_docker.Text.{Text, codes, has, text_eq, includes, includes-All, to_lower}
use linbo_docker.Text.Split.{split}
use linbo_docker.Text.Number.{ℤ, at_least_one, at_least_one-le}
use linbo_docker.Remote.{
  Command, CommandError, Param, number, word, the_command, is_allowed, known_commands,
  special_flags, download_types, format_params, os_params, initcache_params, image_params,
  comment_params, numbered, os_commands, image_commands, params_of, parse_commands,
}
use linbo_docker.Remote.Parsing.{parse_commands-segments}
use linbo_docker.Remote.Segments.{before, after, params_behind, parse_segment, parse_segments}

abbrev pub IsPositive : Param → Type 0
IsPositive (number n) = 1 ≤ n
IsPositive (word w) = Unit

abbrev pub IsDownload : Param → Type 0
IsDownload (number n) = ⊥
IsDownload (word w) = includes download_types w ≡ true

-- A known name, at most two parameters, no number below 1, and download types that are known.
pub record IsWellFormed (c : Command) : Type 0 where
  pub allowed : is_allowed c.command ≡ true
  pub few : length c.params ≤ 2
  pub positive : All IsPositive c.params
  pub download : c.command ≡ codes "initcache" → All IsDownload c.params

abbrev GoodParams : Outcome CommandError (List Param) → Type 0
GoodParams (ok ps) = (length ps ≤ 2) × All IsPositive ps
GoodParams (err e) = Unit

comment_params-good :
    (parts : List Text)
    → (length (comment_params parts) ≤ 1) × All IsPositive (comment_params parts)
unfolding comment_params
comment_params-good [] = (omega arith, tt)
comment_params-good ([] ∷ parts) = (omega arith, tt)
comment_params-good ((c ∷ cs) ∷ parts) = (omega arith, (tt, tt))

numbered-good :
    (o : Option ℤ) (e : CommandError) (rest : List Param)
    → length rest ≤ 1
    → All IsPositive rest
    → GoodParams (numbered (at_least_one o) e rest)
numbered-good o e rest few good = by_number (at_least_one o) (λ n. at_least_one-le o)
  where
    by_number : (m : Option ℕ) → ((n : ℕ) → m ≡ some n → 1 ≤ n) → GoodParams (numbered m e rest)
    by_number none h = tt
    by_number (some n) h = (omega arith, (h n refl, good))

format_params-good : (p : Text) → GoodParams (format_params p)
unfolding format_params
format_params-good [] = (omega arith, tt)
format_params-good (c ∷ cs) = numbered-good _ _ [] (omega arith) tt

os_params-good : (cmd p : Text) → GoodParams (os_params cmd p)
unfolding os_params
os_params-good cmd p = numbered-good _ _ [] (omega arith) tt

-- `initcache` takes a known download type, or nothing.
initcache_params-good : (p : Text) → GoodParams (initcache_params p)
unfolding initcache_params
initcache_params-good [] = (omega arith, tt)
initcache_params-good (c ∷ cs) = elim (Bool-cases (includes download_types (to_lower (c ∷ cs)))) [
  | inl h ↦ rw h (omega arith, (tt, tt))
  | inr h ↦ rw h tt
]

image_params-good : (cmd : Text) (parts : List Text) → GoodParams (image_params cmd parts)
unfolding image_params
image_params-good cmd [] = (omega arith, tt)
image_params-good cmd (os ∷ parts) =
    let good = comment_params-good parts in numbered-good _ _ (comment_params parts) good.0 good.1

params_of-good : (cmd p : Text) → GoodParams (params_of cmd p)
unfolding params_of
params_of-good cmd p = if-both GoodParams (text_eq cmd (codes "format")) (format_params-good p) (
    if-both GoodParams (includes os_commands cmd) (os_params-good cmd p) (
      if-both GoodParams (text_eq cmd (codes "initcache")) (initcache_params-good p) (
        if-both GoodParams (includes image_commands cmd) (image_params-good cmd (split b':' p))
          (omega arith, tt))))

abbrev GoodDownload : Outcome CommandError (List Param) → Type 0
GoodDownload (ok ps) = All IsDownload ps
GoodDownload (err e) = Unit

initcache_params-download : (p : Text) → GoodDownload (initcache_params p)
unfolding initcache_params
initcache_params-download [] = tt
initcache_params-download (c ∷ cs) =
    elim (Bool-cases (includes download_types (to_lower (c ∷ cs)))) [
      | inl h ↦ rw h (h, tt)
      | inr h ↦ rw h tt
    ]

params_of-initcache : (p : Text) → params_of (codes "initcache") p ≡ initcache_params p
unfolding params_of
params_of-initcache p = refl

params_of-download : (cmd p : Text) → cmd ≡ codes "initcache" → GoodDownload (params_of cmd p)
params_of-download cmd p e = rw (e, params_of-initcache) (initcache_params-download p)

abbrev WellFormed : Outcome CommandError Command → Type 0
WellFormed (ok c) = IsWellFormed c
WellFormed (err e) = Unit

params_behind-WellFormed :
    (b : Bool) (name p : Text) → is_allowed name ≡ true → WellFormed (params_behind b name p)
params_behind-WellFormed false name p h = record {
  allowed = h;
  few = omega arith;
  positive = tt;
  download = λ e. tt;
}
params_behind-WellFormed true name p h =
    by_params (params_of name p) (params_of-good name p) (params_of-download name p)
  where
    by_params :
        (m : Outcome CommandError (List Param))
        → GoodParams m
        → (name ≡ codes "initcache" → GoodDownload m)
        → WellFormed (m >>= λ ps. ok (the_command name ps))
    by_params (ok ps) g d = record { allowed = h; few = g.0; positive = g.1; download = d }
    by_params (err e) g d = tt

parse_segment-WellFormed : (s : Text) → WellFormed (parse_segment s)
unfolding parse_segment
parse_segment-WellFormed s = elim (Bool-cases (is_allowed (to_lower (before b':' s)))) [
  | inl h ↦ rw h (params_behind-WellFormed (has b':' s) _ (after b':' s) h)
  | inr h ↦ rw h tt
]

abbrev AllWellFormed : Outcome CommandError (List Command) → Type 0
AllWellFormed (ok cs) = All IsWellFormed cs
AllWellFormed (err e) = Unit

cons-AllWellFormed :
    (m : Outcome CommandError Command) (n : Outcome CommandError (List Command))
    → WellFormed m
    → AllWellFormed n
    → AllWellFormed (m >>= λ c. n >>= λ cs. ok (c ∷ cs))
cons-AllWellFormed (ok c) (ok cs) h k = (h, k)
cons-AllWellFormed (ok c) (err e) h k = tt
cons-AllWellFormed (err e) n h k = tt

parse_segments-AllWellFormed : (ss : List Text) → AllWellFormed (parse_segments ss)
unfolding parse_segments
parse_segments-AllWellFormed [] = tt
parse_segments-AllWellFormed ([] ∷ []) = tt
parse_segments-AllWellFormed ([] ∷ t ∷ ts) =
    cons-AllWellFormed _ _ (parse_segment-WellFormed []) (parse_segments-AllWellFormed (t ∷ ts))
parse_segments-AllWellFormed ((x ∷ s) ∷ ts) =
    cons-AllWellFormed _ _ (parse_segment-WellFormed (x ∷ s)) (parse_segments-AllWellFormed ts)

of_some :
    (o : Option (Outcome CommandError (List Command))) (m : Outcome CommandError (List Command))
    → AllWellFormed m
    → o ≡ some m
    → {cs : List Command} → o ≡ some (ok cs)
    → All IsWellFormed cs
of_some o (ok ds) h e k = subst (All IsWellFormed) (ground (arith, e, k)) h
of_some o (err f) h e k = absurd (ground (arith, e, k))

-- Whatever command list `parseCommands` returns: every name in it is a known command or flag, no
-- command has more than two parameters, every number is at least 1, and the parameter of
-- `initcache` is a known download type.
pub parse_commands-IsWellFormed :
    (s : Text) {cs : List Command} → parse_commands s ≡ some (ok cs) → All IsWellFormed cs
parse_commands-IsWellFormed [] e = absurd (unfold parse_commands in ground (arith, e))
parse_commands-IsWellFormed (x ∷ xs) e =
    of_some _ _ (parse_segments-AllWellFormed _) (parse_commands-segments (x ∷ xs) (λ n. cc)) e

abbrev ParsesBare : Text → Type 0
ParsesBare name = parse_commands name ≡ some (ok (the_command name [] ∷ []))

known-ParsesBare : All ParsesBare known_commands
unfolding known_commands parse_commands
known-ParsesBare = (
  refl,
  (
    refl,
    (
      refl,
      (
        refl,
        (refl, (refl, (refl, (refl, (refl, (refl, (refl, (refl, (refl, (refl, (refl, tt))))))))))),
      ),
    ),
  ),
)

flags-ParsesBare : All ParsesBare special_flags
unfolding special_flags parse_commands
flags-ParsesBare = (refl, (refl, tt))

-- A known command or flag that stands alone, with no colon, is accepted with no parameter: also
-- `sync`, `start` and the others that need the number of an operating system.
parse_commands_bare :
    (name : Text)
    → is_allowed name ≡ true
    → parse_commands name ≡ some (ok (the_command name [] ∷ []))
unfolding is_allowed
parse_commands_bare name h = elim (Bool-cases (includes known_commands name)) [
  | inl k ↦ includes-All ParsesBare known_commands name known-ParsesBare k
  | inr k ↦ includes-All ParsesBare special_flags name flags-ParsesBare (rw k at h)
]
