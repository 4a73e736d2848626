-- ===== src/Image/Names.antt =====
-- What a name that `parseMainFilename` accepts looks like.
use mathlib.Core.Bool.{false≢true}
use linbo_docker.Base.{
  ℕ, zero, suc, ◌-◌, ◌≤◌, ◌≡◌, refl, sym, ap, ◌∙◌, Bool, true, false, ◌||◌, Option, none, some,
  List, [], ◌∷◌, ◌++◌, ltb, if◌then◌else◌, length, take, drop, all, inl, inr, ◌⊎◌, arith,
  Bool-cases, &&-true, take-append-drop, Outcome, ok, err,
}
use linbo_docker.Text.{Text, codes, text_eq, text_eq_iff, includes, ends_with, chop, has}
use linbo_docker.Text.Path.{IsPlain, is_idle, dot, dot_dot}
use linbo_docker.Image.{
  MainFilename, ImageError, illegal_base, base_too_long, find_ext, image_exts, is_safe_name,
  is_name_char, check_base, max_base_len, parse_main_filename, with_ext,
}

-- a text that ends with `e` is what is left without it, and `e`
chop-append : (s e : Text) → ends_with s e ≡ true → chop (length e) s ++ e ≡ s
unfolding ends_with
chop-append s e h =
    let parts = &&-true _ _ h in
    ap (λ t. chop (length e) s ++ t)
      (sym ((text_eq_iff (drop (length s - length e) s) e).0 parts.1))
    ∙ take-append-drop (length s - length e) s

-- what `parseMainFilename` promises of its result
pub record IsMain (filename : Text) (m : MainFilename) : Type 0 where
  pub same_name : m.filename ≡ filename
  pub parts : m.base ++ m.ext ≡ filename
  pub known_ext : includes image_exts m.ext ≡ true
  pub safe : is_safe_name filename ≡ true
  pub plain_base : IsPlain m.base
  pub plain_name : IsPlain filename
  pub short : length m.base ≤ max_base_len

some-eq : {x e : Text} → some x ≡ some e → x ≡ e
some-eq h = cc

or_true : (b : Bool) → (b || true) ≡ true
or_true true = refl
or_true false = refl

safe-no_slash : (s : Text) → all is_name_char s ≡ true → has b'/' s ≡ false
safe-no_slash [] h = refl
safe-no_slash (c ∷ cs) h = ground (arith, safe-no_slash cs)

all-take : (p : ℕ → Bool) (n : ℕ) (s : Text) → all p s ≡ true → all p (take n s) ≡ true
all-take p zero s h = refl
all-take p (suc n) [] h = refl
all-take p (suc n) (c ∷ cs) h = ground (arith, all-take p n cs)

pub is_safe_name-all : (s : Text) → is_safe_name s ≡ true → all is_name_char s ≡ true
unfolding is_safe_name
is_safe_name-all [] h = refl
is_safe_name-all (c ∷ cs) h = h

find_ext-eq-some :
    (es : List Text) (f : Text) {e : Text}
    → find_ext es f ≡ some e
    → (includes es e ≡ true) × (ends_with f e ≡ true)
unfolding find_ext includes
find_ext-eq-some [] f h = absurd (ground (arith, h))
find_ext-eq-some (x ∷ es) f {e} h = elim (Bool-cases (ends_with f x)) [
  | inl good ↦
      let same : x ≡ e = some-eq (rw good at h) in (rw ((text_eq_iff x e).1 same), rw (← same) good)
  | inr bad ↦
      let rest = find_ext-eq-some es f {e = e} (rw bad at h) in
      (rw (rest.0, or_true (text_eq x e)), rest.1)
]

record IsBase (base ext filename : Text) (m : MainFilename) : Type 0 where
  base_is : m.base ≡ base
  ext_is : m.ext ≡ ext
  name_is : m.filename ≡ filename
  not_idle : is_idle base ≡ false
  not_up : text_eq base dot_dot ≡ false
  short : length base ≤ max_base_len

check_base-IsBase :
    (base ext filename : Text) {m : MainFilename}
    → check_base base ext filename ≡ ok m
    → IsBase base ext filename m
unfolding check_base is_idle
check_base-IsBase [] ext filename h = absurd (ground (arith, h))
check_base-IsBase (c ∷ cs) ext filename {m} h =
    by_tests (text_eq (c ∷ cs) (codes ".")) (text_eq (c ∷ cs) (codes ".."))
      (ltb max_base_len (length (c ∷ cs))) refl refl refl h
  where
    tests : Bool → Bool → Bool → Outcome ImageError MainFilename
    tests one two long =
        if one || two
        then err illegal_base
        else if long
        then err base_too_long
        else ok (record { base = c ∷ cs; ext = ext; filename = filename })

    by_tests :
        (one two long : Bool)
        → text_eq (c ∷ cs) (codes ".") ≡ one
        → text_eq (c ∷ cs) (codes "..") ≡ two
        → ltb max_base_len (length (c ∷ cs)) ≡ long
        → tests one two long ≡ ok m
        → IsBase (c ∷ cs) ext filename m
    by_tests true two long a b l e = cc
    by_tests false true long a b l e = cc
    by_tests false false true a b l e = cc
    by_tests false false false a b l e = record {
      base_is = ground (arith, e);
      ext_is = ground (arith, e);
      name_is = ground (arith, e);
      not_idle = a;
      not_up = b;
      short = ground (arith, l);
    }

abbrev is_failed : Outcome ImageError MainFilename → Bool
is_failed (ok m) = false
is_failed (err e) = true

is_failed-ok : {m : MainFilename} {e : ImageError} → err e ≡ ok m → ⊥
is_failed-ok h = cc

is_idle-cases : (f : Text) → is_idle f ≡ true → (f ≡ []) ⊎ (f ≡ dot)
unfolding is_idle
is_idle-cases [] h = inl refl
is_idle-cases (c ∷ cs) h = inr ((text_eq_iff (c ∷ cs) dot).0 h)

not_dots :
    (f : Text) {m : MainFilename}
    → parse_main_filename f ≡ ok m
    → (is_idle f ≡ false) × (text_eq f dot_dot ≡ false)
unfolding parse_main_filename is_idle
not_dots f {m} h = (by_dot (Bool-cases (is_idle f)), by_dots (Bool-cases (text_eq f dot_dot)))
  where
    bad : (s : Text) → f ≡ s → is_failed (parse_main_filename s) ≡ true → ⊥
    bad s e z = false≢true (ap is_failed (sym h ∙ ap parse_main_filename e) ∙ z)

    by_dot : (is_idle f ≡ true) ⊎ (is_idle f ≡ false) → is_idle f ≡ false
    by_dot (inl i) = elim (is_idle-cases f i) [
      | inl e ↦ absurd (bad [] e refl)
      | inr e ↦ absurd (bad dot e refl)
    ]
    by_dot (inr i) = i

    by_dots : (text_eq f dot_dot ≡ true) ⊎ (text_eq f dot_dot ≡ false) → text_eq f dot_dot ≡ false
    by_dots (inl i) = absurd (bad dot_dot ((text_eq_iff f dot_dot).0 i) refl)
    by_dots (inr i) = i

IsMain-of_parts :
    (f ext : Text) {m : MainFilename}
    → find_ext image_exts f ≡ some ext
    → is_safe_name f ≡ true
    → check_base (chop (length ext) f) ext f ≡ ok m
    → (is_idle f ≡ false) × (text_eq f dot_dot ≡ false)
    → IsMain f m
IsMain-of_parts f ext {m} found safe checked dots =
    let ends = find_ext-eq-some image_exts f found in
    let base = check_base-IsBase (chop (length ext) f) ext f checked in
    let chars = is_safe_name-all f safe in
    record {
      same_name = base.name_is;
      parts = rw (base.base_is, base.ext_is) (chop-append f ext ends.1);
      known_ext = rw base.ext_is ends.0;
      safe = safe;
      plain_base = rw base.base_is (record {
        no_slash =
            safe-no_slash (chop (length ext) f)
              (all-take is_name_char (length f - length ext) f chars);
        not_idle = base.not_idle;
        not_up = base.not_up;
      });
      plain_name = record { no_slash = safe-no_slash f chars; not_idle = dots.0; not_up = dots.1 };
      short = rw base.base_is base.short;
    }

parse_main_filename_lem :
    (c : ℕ) (cs : Text)
    → parse_main_filename (c ∷ cs) ≡ with_ext (find_ext image_exts (c ∷ cs)) (c ∷ cs)
unfolding parse_main_filename
parse_main_filename_lem c cs = refl

-- A name that `parseMainFilename` accepts is the returned base followed by the returned
-- extension, which is one of the image extensions; it holds the allowed characters only; base
-- and name are plain path segments (not empty, no slash, not `.` or `..`); and the base has at
-- most 100 characters.
pub parse_main_filename-IsMain :
    (f : Text) {m : MainFilename} → parse_main_filename f ≡ ok m → IsMain f m
parse_main_filename-IsMain [] h = absurd (unfold parse_main_filename in ground (arith, h))
parse_main_filename-IsMain (c ∷ cs) {m} h =
    by_ext (find_ext image_exts (c ∷ cs)) refl (is_safe_name (c ∷ cs)) refl
      (sym (parse_main_filename_lem c cs) ∙ h)
  where
    f : Text
    f = c ∷ cs

    by_ext :
        (o : Option Text)
        → find_ext image_exts f ≡ o
        → (b : Bool) → is_safe_name f ≡ b
        → with_ext o f ≡ ok m
        → IsMain f m
    by_ext none e b s w = cc
    by_ext (some ext) e true s w = IsMain-of_parts f ext e s (rw s at w) (not_dots f h)
    by_ext (some ext) e false s w = absurd (is_failed-ok (rw s at w))
