-- ===== src/Image/Paths.antt =====
-- Where the paths of image-path.js lead.
use mathlib.Core.List.{append_assoc}
use linbo_docker.Base.{
  ℕ, ◌+◌, ◌≡◌, refl, sym, ap, ◌∙◌, Bool, true, false, ◌||◌, List, [], ◌∷◌, ◌++◌, ◌==◌,
  if◌then◌else◌, length, drop, all, any, All, All-append, arith, if-both, Outcome, ok, err, ◌>>=◌,
}
use linbo_docker.Text.{Text, codes, text_eq, starts_with, has}
use linbo_docker.Text.Split.{split, join, Whole, split-Whole, split-join, split-eq-cons, join-split}
use linbo_docker.Text.Path.{IsPlain, is_idle, dot_dot, path_join}
use linbo_docker.Text.Path.Plain.{root_path, path_join_plain, path_join_relative}
use linbo_docker.Image.{
  MainFilename, ImageError, is_name_char, parse_main_filename, to_relative_path, resolve_image_path,
  resolve_relative, resolve_from_db_path, is_unsafe_segment, backslash, unsafe_segment,
}
use linbo_docker.Image.Names.{IsMain, parse_main_filename-IsMain, is_safe_name-all}

images : Text
images = codes "images"

images-IsPlain : IsPlain images
unfolding images is_idle text_eq
images-IsPlain = record { no_slash = refl; not_idle = refl; not_up = refl }

safe-no_backslash : (s : Text) → all is_name_char s ≡ true → has 0x5c s ≡ false
safe-no_backslash [] h = refl
safe-no_backslash (c ∷ cs) h = ground (arith, safe-no_backslash cs)

any-append :
    (p : ℕ → Bool) (a b : Text) → any p a ≡ false → any p b ≡ false → any p (a ++ b) ≡ false
any-append p [] b h k = k
any-append p (x ∷ a) b h k = ground (arith, any-append p a b)

or-false : (a b : Bool) → (a || b) ≡ false → (a ≡ false) × (b ≡ false)
or-false a b h = ground arith

any-left : (p : ℕ → Bool) (a b : Text) → any p (a ++ b) ≡ false → any p a ≡ false
any-left p [] b h = refl
any-left p (x ∷ a) b h = ground (arith, any-left p a b)

-- a segment passes the test for unsafe ones exactly when normalisation keeps it
unsafe-idle : (s : Text) → is_unsafe_segment s ≡ (is_idle s || text_eq s dot_dot)
unfolding is_idle text_eq
unsafe-idle [] = refl
unsafe-idle (c ∷ cs) = refl

IsPlain-safe : (s : Text) → IsPlain s → is_unsafe_segment s ≡ false
IsPlain-safe s p = rw (unsafe-idle, p.not_idle) (p.not_up)

safe-IsPlain : (s : Text) → has b'/' s ≡ false → is_unsafe_segment s ≡ false → IsPlain s
safe-IsPlain s n h =
    let both : (is_idle s || text_eq s dot_dot) ≡ false = sym (unsafe-idle s) ∙ h in
    record { no_slash = n; not_idle = ground (arith, both); not_up = ground (arith, both) }

All-IsPlain :
    (ss : List Text) → All (Whole b'/') ss → any is_unsafe_segment ss ≡ false → All IsPlain ss
All-IsPlain [] w h = tt
All-IsPlain (s ∷ ss) w h =
    let both = or-false (is_unsafe_segment s) (any is_unsafe_segment ss) h in
    (safe-IsPlain s w.0 both.0, All-IsPlain ss w.1 both.1)

IsPlain-All :
    (ss : List Text) → All IsPlain ss → (any is_unsafe_segment ss ≡ false) × All (Whole b'/') ss
IsPlain-All [] h = (refl, tt)
IsPlain-All (s ∷ ss) h =
    let rest = IsPlain-All ss h.1 in (rw (IsPlain-safe s h.0) rest.0, (h.0.no_slash, rest.1))

-- the guards of `resolveFromDbPath` on the text of plain segments
resolve_relative-plain :
    (dir s : Text) (ss : List Text)
    → All IsPlain (s ∷ ss)
    → has 0x5c (join b'/' (s ∷ ss)) ≡ false
    → resolve_relative dir (join b'/' (s ∷ ss)) ≡ ok (path_join (dir ∷ join b'/' (s ∷ ss) ∷ []))
unfolding resolve_relative
resolve_relative-plain dir s ss h b =
    let plain = IsPlain-All (s ∷ ss) h in rw (b, split-join b'/' s ss plain.1, plain.0)

-- Below the directory of the segments `d ∷ ds`: one plain segment or more.
pub record Inside (d : Text) (ds : List Text) (r : Text) : Type 0 where
  pub first : Text
  pub others : List Text
  pub plain : All IsPlain (first ∷ others)
  pub path_is : r ≡ root_path (d ∷ (ds ++ (first ∷ others)))

abbrev GoesInside : Text → List Text → Outcome ImageError Text → Type 0
GoesInside d ds (ok r) = Inside d ds r
GoesInside d ds (err e) = Unit

-- every path that passes the guards
resolve_relative-inside :
    (d : Text) (ds : List Text) (rel : Text)
    → All IsPlain (d ∷ ds)
    → GoesInside d ds (resolve_relative (root_path (d ∷ ds)) rel)
unfolding resolve_relative
resolve_relative-inside d ds rel hd =
    by_guards (has 0x5c rel) (any is_unsafe_segment (split b'/' rel)) refl
  where
    joined :
        any is_unsafe_segment (split b'/' rel) ≡ false
        → Inside d ds (path_join (root_path (d ∷ ds) ∷ rel ∷ []))
    joined safe =
        let (s, ss, e) = split-eq-cons b'/' rel in
        let plain = All-IsPlain (s ∷ ss) (rw e at (split-Whole b'/' rel)) (rw e at safe) in
        let whole : rel ≡ join b'/' (s ∷ ss) = sym (join-split b'/' rel) ∙ ap (join b'/') e in
        record {
          first = s;
          others = ss;
          plain = plain;
          path_is =
              ap (λ t. path_join (root_path (d ∷ ds) ∷ t ∷ [])) whole
              ∙ path_join_relative d ds s ss hd plain;
        }

    by_guards :
        (slash unsafe : Bool)
        → any is_unsafe_segment (split b'/' rel) ≡ unsafe
        → GoesInside d ds (
            if slash
            then err backslash
            else if unsafe
            then err unsafe_segment
            else ok (path_join (root_path (d ∷ ds) ∷ rel ∷ [])))
    by_guards true unsafe e = tt
    by_guards false true e = tt
    by_guards false false e = joined e

resolve_from_db_path-GoesInside :
    (d : Text) (ds : List Text) (rel : Text)
    → All IsPlain (d ∷ ds)
    → GoesInside d ds (resolve_from_db_path (root_path (d ∷ ds)) rel)
unfolding resolve_from_db_path
resolve_from_db_path-GoesInside d ds [] hd = tt
resolve_from_db_path-GoesInside d ds (c ∷ cs) hd =
    if-both (GoesInside d ds) (c == b'/')
      (if-both (GoesInside d ds) (starts_with (c ∷ cs) (root_path (d ∷ ds) ++ codes "/"))
        (resolve_relative-inside d ds (drop (length (root_path (d ∷ ds)) + 1) (c ∷ cs)) hd) tt)
      (resolve_relative-inside d ds (c ∷ cs) hd)

-- With LINBO_DIR an absolute path of plain segments: whatever path `resolveFromDbPath` returns
-- is LINBO_DIR followed by at least one more plain segment, so it stays below LINBO_DIR.
pub resolve_from_db_path-Inside :
    (d : Text) (ds : List Text) (rel : Text) {r : Text}
    → All IsPlain (d ∷ ds)
    → resolve_from_db_path (root_path (d ∷ ds)) rel ≡ ok r
    → Inside d ds r
resolve_from_db_path-Inside d ds rel hd h = rw h at (resolve_from_db_path-GoesInside d ds rel hd)

-- the relative path of an accepted name, and where it leads
relative_text :
    (m : MainFilename)
    → codes "images/" ++ (m.base ++ (b'/' ∷ m.filename))
      ≡ join b'/' (images ∷ m.base ∷ m.filename ∷ [])
unfolding images join
relative_text m = refl

no_backslashes :
    (f : Text) (m : MainFilename)
    → IsMain f m
    → has 0x5c (codes "images/" ++ (m.base ++ (b'/' ∷ m.filename))) ≡ false
no_backslashes f m i =
    let chars = is_safe_name-all f i.safe in
    let name = rw (← i.same_name) at (safe-no_backslash f chars) in
    let base = any-left (λ x. x == 0x5c) m.base m.ext (rw i.parts (safe-no_backslash f chars)) in
    any-append (λ x. x == 0x5c) m.base (b'/' ∷ m.filename) base name

resolve_from_db_path-images :
    (dir t : Text)
    → resolve_from_db_path dir (codes "images/" ++ t) ≡ resolve_relative dir (codes "images/" ++ t)
unfolding resolve_from_db_path
resolve_from_db_path-images dir t = refl

-- the image path of an accepted name, by its segments
image_path :
    (d : Text) (ds : List Text) (m : MainFilename)
    → All IsPlain (d ∷ ds)
    → IsPlain m.base
    → IsPlain m.filename
    → path_join (path_join (root_path (d ∷ ds) ∷ images ∷ []) ∷ m.base ∷ m.filename ∷ [])
      ≡ root_path (d ∷ (ds ++ (images ∷ m.base ∷ m.filename ∷ [])))
image_path d ds m hd base name =
    ap (λ t. path_join (t ∷ m.base ∷ m.filename ∷ []))
      (path_join_plain d ds images [] hd (images-IsPlain, tt))
    ∙ path_join_plain d (ds ++ (images ∷ [])) m.base (m.filename ∷ [])
        (hd.0, All-append IsPlain ds (images ∷ []) hd.1 (images-IsPlain, tt)) (base, (name, tt))
    ∙ ap (λ l. root_path (d ∷ l)) (append_assoc ds (images ∷ []) (m.base ∷ m.filename ∷ []))

accepted_path :
    (d : Text) (ds : List Text) (f : Text) (m : MainFilename)
    → All IsPlain (d ∷ ds)
    → IsMain f m
    → resolve_from_db_path (root_path (d ∷ ds)) (codes "images/" ++ (m.base ++ (b'/' ∷ m.filename)))
      ≡ ok (path_join (path_join (root_path (d ∷ ds) ∷ images ∷ []) ∷ m.base ∷ m.filename ∷ []))
accepted_path d ds f m hd i =
    let name : IsPlain m.filename = rw i.same_name i.plain_name in
    let plain : All IsPlain (images ∷ m.base ∷ m.filename ∷ []) =
      (images-IsPlain, (i.plain_base, (name, tt))) in
    resolve_from_db_path-images (root_path (d ∷ ds)) (m.base ++ (b'/' ∷ m.filename))
    ∙ ap (resolve_relative (root_path (d ∷ ds))) (relative_text m)
    ∙ resolve_relative-plain (root_path (d ∷ ds)) images (m.base ∷ m.filename ∷ []) plain
        (ap (has 0x5c) (sym (relative_text m)) ∙ no_backslashes f m i)
    ∙ ap ok (
        path_join_relative d ds images (m.base ∷ m.filename ∷ []) hd plain
        ∙ sym (image_path d ds m hd i.plain_base name))

-- With LINBO_DIR an absolute path of plain segments and IMAGES_DIR its subdirectory `images`:
-- resolving the path that the database stores for a name gives the name's image path, for every
-- name; a name that is refused is refused with the same error.
pub resolve_from_db_path-to_relative_path :
    (d : Text) (ds : List Text) (name : Text)
    → All IsPlain (d ∷ ds)
    → (to_relative_path name >>= resolve_from_db_path (root_path (d ∷ ds)))
      ≡ resolve_image_path (path_join (root_path (d ∷ ds) ∷ codes "images" ∷ [])) name
unfolding to_relative_path resolve_image_path images
resolve_from_db_path-to_relative_path d ds name hd = by_name (parse_main_filename name) refl
  where
    by_name :
        (o : Outcome ImageError MainFilename)
        → parse_main_filename name ≡ o
        → ((o >>= λ m. ok (codes "images/" ++ (m.base ++ (b'/' ∷ m.filename))))
            >>= resolve_from_db_path (root_path (d ∷ ds)))
          ≡ (o >>= λ m.
              ok (
                path_join
                  (path_join (root_path (d ∷ ds) ∷ images ∷ []) ∷ m.base ∷ m.filename ∷ [])))
    by_name (ok m) e = accepted_path d ds name m hd (parse_main_filename-IsMain name e)
    by_name (err e) p = refl
