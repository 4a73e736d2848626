-- ===== src/Text/Path/Plain.antt =====
-- Absolute paths of plain segments: `path.join` only puts their segments together.
use mathlib.Core.List.{append-nil, append_assoc, reverse, reverse-append}
use mathlib.Core.Bool.{false≢true}
use linbo_docker.Base.{
  ◌≡◌, refl, sym, ap, ◌∙◌, Bool, true, false, List, [], ◌∷◌, ◌++◌, arith, ◌==◌, All, All-append,
  any, keep,
}
use linbo_docker.Text.{Text}
use linbo_docker.Text.Split.{split, join, split-join, split-append, join-cons_cons, join-one}
use linbo_docker.Text.Path.{
  IsPlain, is_idle, resolve, last_is_empty, normalize, path_join, is_filled, is_absolute,
  normalized_or_dot, rebuilt,
}

-- `/` and the segments
abbrev pub root_path : List Text → Text
root_path segments = b'/' ∷ join b'/' segments

pub plain-filled : (s : Text) → IsPlain s → is_filled s ≡ true
unfolding is_idle
plain-filled [] p = ground (arith, p.not_idle)
plain-filled (c ∷ cs) p = refl

resolve_plain :
    (absolute : Bool) (kept ss : List Text)
    → All IsPlain ss
    → resolve absolute kept ss ≡ reverse kept ++ ss
unfolding resolve
resolve_plain absolute kept [] h = sym (append-nil (reverse kept))
resolve_plain absolute kept (s ∷ ss) h =
    rw (h.0.not_idle, h.0.not_up)
      (resolve_plain absolute (s ∷ kept) ss h.1
        ∙ ap (λ l. l ++ ss) (reverse-append (s ∷ []) kept)
        ∙ append_assoc (reverse kept) (s ∷ []) ss)

last_is_empty_plain :
    (s : Text) (ss : List Text) → All IsPlain (s ∷ ss) → last_is_empty (s ∷ ss) ≡ false
last_is_empty_plain [] ss h = absurd (false≢true (plain-filled [] h.0))
last_is_empty_plain (c ∷ cs) [] h = refl
last_is_empty_plain (c ∷ cs) (t ∷ ts) h = last_is_empty_plain t ts h.1

no_slashes : (ss : List Text) → All IsPlain ss → All (λ s. any (λ x. x == b'/') s ≡ false) ss
no_slashes [] h = tt
no_slashes (s ∷ ss) h = (h.0.no_slash, no_slashes ss h.1)

split_root :
    (s : Text) (ss : List Text)
    → All IsPlain (s ∷ ss)
    → split b'/' (root_path (s ∷ ss)) ≡ [] ∷ s ∷ ss
split_root s ss h =
    split-append b'/' [] (join b'/' (s ∷ ss)) refl
    ∙ ap (◌∷◌ []) (split-join b'/' s ss (no_slashes (s ∷ ss) h))

normalize_lem :
    (p : Text)
    → normalize p
      ≡ rebuilt
          (is_absolute p)
          (last_is_empty (split b'/' p))
          (resolve (is_absolute p) [] (split b'/' p))
unfolding normalize
normalize_lem p = refl

resolve-nil : (kept ss : List Text) → resolve true kept ([] ∷ ss) ≡ resolve true kept ss
unfolding resolve
resolve-nil kept ss = refl

rebuilt_root :
    (slash : Bool) (s : Text) (ss : List Text)
    → slash ≡ false
    → rebuilt true slash (s ∷ ss) ≡ root_path (s ∷ ss)
rebuilt_root slash s ss e = rw e

normalize_plain :
    (s : Text) (ss : List Text)
    → All IsPlain (s ∷ ss)
    → normalize (root_path (s ∷ ss)) ≡ root_path (s ∷ ss)
normalize_plain s ss h =
    normalize_lem (root_path (s ∷ ss))
    ∙ rw (split_root s ss h, resolve-nil, resolve_plain true [] (s ∷ ss) h)
        (rebuilt_root _ s ss (last_is_empty_plain s ss h))

filled_plain : (ps : List Text) → All IsPlain ps → keep is_filled ps ≡ ps
filled_plain [] h = refl
filled_plain (p ∷ ps) h = rw (plain-filled p h.0) (ap (◌∷◌ p) (filled_plain ps h.1))

join-append :
    (d : Text) (ds : List Text) (p : Text) (ps : List Text)
    → join b'/' (join b'/' (d ∷ ds) ∷ p ∷ ps) ≡ join b'/' (d ∷ (ds ++ (p ∷ ps)))
join-append d [] p ps = rw (join-one)
join-append d (e ∷ ds) p ps =
    join-cons_cons b'/' (join b'/' (d ∷ e ∷ ds)) p ps
    ∙ ap (λ t. t ++ (b'/' ∷ join b'/' (p ∷ ps))) (join-cons_cons b'/' d e ds)
    ∙ append_assoc d (b'/' ∷ join b'/' (e ∷ ds)) (b'/' ∷ join b'/' (p ∷ ps))
    ∙ ap (λ t. d ++ (b'/' ∷ t))
        (sym (join-cons_cons b'/' (join b'/' (e ∷ ds)) p ps) ∙ join-append e ds p ps)
    ∙ sym (join-cons_cons b'/' d e (ds ++ (p ∷ ps)))

join-root :
    (t : Text) (p : Text) (ps : List Text)
    → join b'/' ((b'/' ∷ t) ∷ p ∷ ps) ≡ b'/' ∷ join b'/' (t ∷ p ∷ ps)
unfolding join
join-root t p ps = refl

rooted :
    (t : Text) (l : List Text)
    → normalized_or_dot (join b'/' ((b'/' ∷ t) ∷ l)) ≡ normalize (join b'/' ((b'/' ∷ t) ∷ l))
unfolding join
rooted t [] = refl
rooted t (x ∷ l) = refl

path_join_lem :
    (parts : List Text) → path_join parts ≡ normalized_or_dot (join b'/' (keep is_filled parts))
unfolding path_join
path_join_lem parts = refl

path_join_root :
    (t : Text) (ps : List Text)
    → path_join ((b'/' ∷ t) ∷ ps) ≡ normalize (join b'/' ((b'/' ∷ t) ∷ keep is_filled ps))
path_join_root t ps = path_join_lem ((b'/' ∷ t) ∷ ps) ∙ rooted t (keep is_filled ps)

-- Plain parts below an absolute path.
pub path_join_plain :
    (d : Text) (ds : List Text) (p : Text) (ps : List Text)
    → All IsPlain (d ∷ ds)
    → All IsPlain (p ∷ ps)
    → path_join (root_path (d ∷ ds) ∷ p ∷ ps) ≡ root_path (d ∷ (ds ++ (p ∷ ps)))
path_join_plain d ds p ps hd hp =
    path_join_root (join b'/' (d ∷ ds)) (p ∷ ps)
    ∙ rw (filled_plain (p ∷ ps) hp, join-root, join-append)
        (normalize_plain d (ds ++ (p ∷ ps)) (hd.0, All-append IsPlain ds (p ∷ ps) hd.1 hp))

filled_join : (p : Text) (ps : List Text) → IsPlain p → is_filled (join b'/' (p ∷ ps)) ≡ true
filled_join [] ps h = absurd (false≢true (plain-filled [] h))
filled_join (c ∷ cs) [] h = rw (join-one)
filled_join (c ∷ cs) (q ∷ qs) h = rw (join-cons_cons)

join-joined :
    (a p : Text) (ps : List Text) → join b'/' (a ∷ join b'/' (p ∷ ps) ∷ []) ≡ join b'/' (a ∷ p ∷ ps)
unfolding join
join-joined a p ps = refl

-- One part that holds several plain segments.
pub path_join_relative :
    (d : Text) (ds : List Text) (p : Text) (ps : List Text)
    → All IsPlain (d ∷ ds)
    → All IsPlain (p ∷ ps)
    → path_join (root_path (d ∷ ds) ∷ join b'/' (p ∷ ps) ∷ []) ≡ root_path (d ∷ (ds ++ (p ∷ ps)))
path_join_relative d ds p ps hd hp =
    path_join_root (join b'/' (d ∷ ds)) (join b'/' (p ∷ ps) ∷ [])
    ∙ rw (filled_join p ps hp.0, join-root, join-joined (join b'/' (d ∷ ds)) p ps, join-append)
        (normalize_plain d (ds ++ (p ∷ ps)) (hd.0, All-append IsPlain ds (p ∷ ps) hd.1 hp))
