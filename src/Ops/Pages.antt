-- ===== src/Ops/Pages.antt =====
-- The pages of `listOperations` in containers/api/src/services/sync-operations.service.js, read one
-- after the other.
use text.Mathlib.Text.{◌==◌ as str_eq}
use mathlib.Core.Path.{subst, fun_ext}
use native.Mathlib.Nat.{suc-mul}
use linbo_docker.Base.{
  ℕ, zero, suc, ◌-◌, ◌*◌, ◌≤◌, ◌<◌, String, ◌≡◌, refl, sym, ap, ◌∙◌, true, false, not, Option, none,
  some, List, [], ◌∷◌, ◌++◌, map, arith, length, take, drop, keep, any, All,
}
use linbo_docker.Ops.Data.{OpStatus, OpHash, exists}
use linbo_docker.Ops.Redis.{Redis}
use linbo_docker.Ops.Listing.{
  shown, has_status, Listing, filtered_ids, clean, page_data, live_ids, dead_ids, list_ids,
  list_operations,
}
use linbo_docker.Ops.Slices.{
  All-take, All-drop, All-keep, keep-holds, keep-keep, drop_nil, take_nil, keep-map_holds,
  map-append, not_kept, enough_pages, slices, slices_all,
}

module _ (R : Redis) where
  open R use {Db, op, index, zrem, op-zrem, index-zrem}

  -- the identifiers that all pages together show
  abbrev pub wanted : Option OpStatus → Db → List String
  wanted status d = filtered_ids R status d (live_ids R d (index d))

  op-clean : (gone : List String) (d : Db) → op (clean R gone d) ≡ op d
  op-clean [] d = refl
  op-clean (i ∷ is) d = fun_ext (λ j. op-zrem d (i ∷ is) j)

  live_ids-clean :
      (d : Db)
      → live_ids R (clean R (dead_ids R d (index d)) d) (index (clean R (dead_ids R d (index d)) d))
        ≡ live_ids R d (index d)
  live_ids-clean d =
      ap (λ (f : String → OpHash). keep (λ i. exists (f i)) (index (clean R dead d)))
        (op-clean dead d)
      ∙ still dead refl
    where
      dead : List String
      dead = dead_ids R d (index d)

      not_dead : (i : String) → exists (op d i) ≡ true → any (λ g. str_eq g i) dead ≡ false
      not_dead i e = not_kept (λ j. not (exists (op d j))) (index d) i (rw e refl)

      still :
          (gone : List String)
          → dead ≡ gone
          → keep (λ i. exists (op d i)) (index (clean R gone d)) ≡ live_ids R d (index d)
      still [] e = refl
      still (i ∷ is) e =
          ap (keep (λ j. exists (op d j))) (index-zrem d (i ∷ is))
          ∙ keep-keep (λ j. exists (op d j)) (λ j. not (any (λ g. str_eq g j) (i ∷ is))) (index d)
              (λ j h.
                rw (subst (λ (xs : List String). any (λ g. str_eq g j) xs ≡ false) e (not_dead j h))
                  refl)

  abbrev cleaned : Db → Db
  cleaned d = clean R (dead_ids R d (index d)) d

  abbrev IsLive : Db → String → Type 0
  IsLive d i = exists (op d i) ≡ true

  wanted-IsLive : (status : Option OpStatus) (d : Db) → All (IsLive d) (wanted status d)
  wanted-IsLive none d = keep-holds (λ i. exists (op d i)) (index d)
  wanted-IsLive (some s) d =
      All-keep (IsLive d) (λ i. has_status s (op d i).status) (live_ids R d (index d))
        (keep-holds (λ i. exists (op d i)) (index d))

  filtered_ids-clean :
      (status : Option OpStatus) (gone : List String) (d : Db) (ids : List String)
      → filtered_ids R status (clean R gone d) ids ≡ filtered_ids R status d ids
  filtered_ids-clean none gone d ids = refl
  filtered_ids-clean (some s) gone d ids =
      ap (λ (f : String → OpHash). keep (λ i. has_status s (f i).status) ids) (op-clean gone d)

  wanted-clean : (status : Option OpStatus) (d : Db) → wanted status (cleaned d) ≡ wanted status d
  wanted-clean status d =
      filtered_ids-clean status (dead_ids R d (index d)) d _
      ∙ ap (filtered_ids R status d) (live_ids-clean d)

  -- what a page shows
  abbrev pub shown_ops : Db → List String → List OpHash
  shown_ops d ids = map shown (map (op d) ids)

  page_data-shown :
      (gone : List String) (d : Db) (ids : List String)
      → All (IsLive d) ids
      → page_data R (clean R gone d) ids ≡ shown_ops d ids
  page_data-shown gone d ids a =
      ap (λ (f : String → OpHash). map shown (keep exists (map f ids))) (op-clean gone d)
      ∙ ap (map shown) (keep-map_holds (op d) exists ids a)

  -- the listing of one page, and the database behind it
  record IsPage (page limit : ℕ) (status : Option OpStatus) (d : Db) (r : Listing × Db)
      : Type 0 where
    shows : r.0.data_of ≡ shown_ops d (take limit (drop ((page - 1) * limit) (wanted status d)))
    counts : r.0.total ≡ length (wanted status d)
    enough : length (wanted status d) ≤ r.0.pages * limit
    same_db : r.1 ≡ cleaned d

  filtered_ids-nil : (status : Option OpStatus) (d : Db) → filtered_ids R status d [] ≡ []
  filtered_ids-nil none d = refl
  filtered_ids-nil (some s) d = refl

  list_ids-IsPage :
      (page limit : ℕ) (status : Option OpStatus) (d : Db) (ids : List String)
      → 0 < limit
      → index d ≡ ids
      → IsPage page limit status d (list_ids R page limit status d ids)
  list_ids-IsPage page limit status d [] h e =
      let none_wanted : wanted status d ≡ [] =
        ap (λ (is : List String). filtered_ids R status d (live_ids R d is)) e
        ∙ filtered_ids-nil status d in
      record {
        shows = sym (
            ap (λ (js : List String). shown_ops d (take limit (drop ((page - 1) * limit) js)))
              none_wanted
            ∙ ap (λ (js : List String). shown_ops d (take limit js)) (drop_nil ((page - 1) * limit))
            ∙ ap (shown_ops d) (take_nil limit));
        counts = ap length (sym none_wanted);
        enough = omega (arith, ap length none_wanted);
        same_db = ap (λ (is : List String). clean R (dead_ids R d is) d) (sym e);
      }
  list_ids-IsPage page limit status d (i ∷ is) h e =
      let ids : List String = i ∷ is in
      let d1 = clean R (dead_ids R d ids) d in
      let same : filtered_ids R status d1 (live_ids R d ids) ≡ wanted status d =
        filtered_ids-clean status (dead_ids R d ids) d (live_ids R d ids)
        ∙ ap (λ (js : List String). filtered_ids R status d (live_ids R d js)) (sym e) in
      record {
        shows =
            ap (λ (js : List String). page_data R d1 (take limit (drop ((page - 1) * limit) js)))
              same
            ∙ page_data-shown (dead_ids R d ids) d _ (
                All-take (IsLive d) limit _
                  (All-drop (IsLive d) ((page - 1) * limit) _ (wanted-IsLive status d)));
        counts = ap length same;
        enough = omega (
          arith,
          ap length same,
          enough_pages (length (filtered_ids R status d1 (live_ids R d ids))) limit h,
        );
        same_db = ap (λ (js : List String). clean R (dead_ids R d js) d) (sym e);
      }

  list_operations-IsPage :
      (page limit : ℕ) (status : Option OpStatus) (d : Db)
      → 0 < limit
      → IsPage page limit status d (list_operations R page limit status d)
  unfolding list_operations
  list_operations-IsPage page limit status d h =
      list_ids-IsPage page limit status d (index d) h refl

  -- this many pages, one after the other, each on the database that the one before left
  unfoldable pub read_pages : ℕ → ℕ → ℕ → Option OpStatus → Db → List OpHash × Db
  unfolding list_operations
  read_pages zero page limit status d = ([], d)
  read_pages (suc k) page limit status d =
      let r = list_operations R page limit status d in
      let rest = read_pages k (suc page) limit status r.1 in (r.0.data_of ++ rest.0, rest.1)

  shown_ops-append :
      (d : Db) (is js : List String) → shown_ops d (is ++ js) ≡ shown_ops d is ++ shown_ops d js
  shown_ops-append d is js =
      ap (map shown) (map-append (op d) is js) ∙ map-append shown (map (op d) is) (map (op d) js)

  read_pages-slices :
      (k p limit : ℕ) (status : Option OpStatus) (d : Db)
      → 0 < limit
      → (read_pages k (suc p) limit status d).0
        ≡ shown_ops d (slices limit k (p * limit) (wanted status d))
  unfolding read_pages
  read_pages-slices zero p limit status d h = refl
  read_pages-slices (suc k) p limit status d h =
      let one = list_operations-IsPage (suc p) limit status d h in
      ap
        (λ (xs : List OpHash).
          xs
          ++ (read_pages k (suc (suc p)) limit status
              (list_operations R (suc p) limit status d).1).0)
        (one.shows
          ∙ ap (λ (n : ℕ). shown_ops d (take limit (drop (n * limit) (wanted status d))))
              (omega arith))
      ∙ ap
          (λ (xs : List OpHash).
            shown_ops d (take limit (drop (p * limit) (wanted status d))) ++ xs)
          (ap (λ (e : Db). (read_pages k (suc (suc p)) limit status e).0) one.same_db
            ∙ read_pages-slices k (suc p) limit status (cleaned d) h
            ∙ ap
                (λ (f : String → OpHash).
                  map shown (map f (slices limit k (suc p * limit) (wanted status (cleaned d)))))
                (op-clean (dead_ids R d (index d)) d)
            ∙ ap (λ (js : List String). shown_ops d (slices limit k (suc p * limit) js))
                (wanted-clean status d)
            ∙ ap (λ (n : ℕ). shown_ops d (slices limit k n (wanted status d))) (suc-mul p limit))
      ∙ sym (shown_ops-append d (take limit (drop (p * limit) (wanted status d))) _)

  -- With a positive limit: reading as many pages as the first one announces, each on the database
  -- that the one before has cleaned up, shows, in the order of the index, just the operations of the
  -- index that still exist and have the wanted status, and the total that is announced is their
  -- number.
  pub read_pages-wanted :
      (limit : ℕ) (status : Option OpStatus) (d : Db)
      → 0 < limit
      → ((read_pages (list_operations R 1 limit status d).0.pages 1 limit status d).0
          ≡ shown_ops d (wanted status d))
        × ((list_operations R 1 limit status d).0.total ≡ length (wanted status d))
  read_pages-wanted limit status d h =
      let first = list_operations-IsPage 1 limit status d h in
      let n = (list_operations R 1 limit status d).0.pages in
      (
        read_pages-slices n 0 limit status d h
            ∙ ap (λ (m : ℕ). shown_ops d (slices limit n m (wanted status d))) (omega arith)
            ∙ ap (shown_ops d)
                (slices_all limit n 0 (wanted status d) (omega (arith, first.enough))),
        first.counts,
      )
