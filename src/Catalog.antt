-- ===== src/Catalog.antt =====
-- containers/api/src/lib/driver-catalog.js: the built-in catalogue of devices, the overlay of an
-- environment, and the lookups. The overlay's vendors are merged into the objects of the built-in
-- catalogue, so the state holds that catalogue beside the cache. The file of the overlay is an
-- argument: none if it is missing or no valid JSON. The lookups take the catalogue that `getCatalog`
-- returns.
pub mod Merging
pub mod Lookup
use linbo_docker.Base.{
  ℕ, Bool, true, false, not, ◌&&◌, Option, none, some, List, [], ◌∷◌, ◌++◌, map, ltb, if◌then◌else◌,
  length, take, any, keep,
}
use linbo_docker.Text.{Text, text_eq, includes, to_lower, trim, index_of_text}

pub record Category : Type 0 where
  pub id : Text
  pub name : Text
  pub icon : Text

-- a missing `suggestedSet` is the empty text
pub record Device : Type 0 where
  pub vendor_id : Text
  pub device_id : Text
  pub name : Text
  pub suggested_set : Text

pub record Vendor : Type 0 where
  pub id : Text
  pub name : Text
  pub category : Text
  pub devices : List Device

pub record Catalog : Type 0 where
  pub version : Text
  pub categories : List Category
  pub vendors : List Vendor

-- `${d.vendor}:${d.device}`
abbrev pub device_key : Device → Text
device_key d = d.vendor_id ++ (b':' ∷ d.device_id)

-- the loop over the categories of the overlay: `ids` is `existingIds`
unfoldable pub new_categories : List Text → List Category → List Category
unfolding includes
new_categories ids [] = []
new_categories ids (c ∷ cs) =
    let seen = new_categories ids cs in
    let added = c ∷ new_categories (c.id ∷ ids) cs in if includes ids c.id then seen else added

-- the devices that the vendor has not yet; the set is not brought up to date in the loop
unfoldable pub new_devices : List Device → List Device → List Device
unfolding includes
new_devices old ds = keep (λ d. not (includes (map device_key old) (device_key d))) ds

-- The vendor that the map holds for an identifier is the last one; none if there is no such vendor.
unfoldable pub extend_vendor : Text → List Device → List Vendor → Option (List Vendor)
unfolding new_devices text_eq
extend_vendor id ds [] = none
extend_vendor id ds (v ∷ vs) = elim (extend_vendor id ds vs) [
  | some ws ↦ some (v ∷ ws)
  | none ↦
      if text_eq v.id id
      then some ((record v { devices = v.devices ++ new_devices v.devices ds }) ∷ vs)
      else none
]

-- one vendor of the overlay
unfoldable pub merge_vendor : Vendor → List Vendor → List Vendor
unfolding extend_vendor
merge_vendor v vs = elim (extend_vendor v.id v.devices vs) [ some ws ↦ ws | none ↦ vs ++ v ∷ [] ]

unfoldable pub merge_vendors : List Vendor → List Vendor → List Vendor
unfolding merge_vendor
merge_vendors vs [] = vs
merge_vendors vs (w ∷ ws) = merge_vendors (merge_vendor w vs) ws

abbrev pub or_else : Text → Text → Text
or_else [] other = other
or_else (c ∷ cs) other = c ∷ cs

unfoldable pub merge_catalogs : Catalog → Catalog → Catalog
unfolding new_categories merge_vendors
merge_catalogs base custom = record {
  version = or_else custom.version base.version;
  categories =
      base.categories ++ new_categories (map (λ c. c.id) base.categories) custom.categories;
  vendors = merge_vendors base.vendors custom.vendors;
}

-- the built-in catalogue as it stands in memory, and `_mergedCatalog`
pub record Catalogs : Type 0 where
  pub builtin : Catalog
  pub cached : Option Catalog

-- The vendors of the built-in catalogue come first in the merged one and are the same objects.
abbrev pub touched : Catalog → Catalog → Catalog
touched base merged = record base { vendors = take (length base.vendors) merged.vendors }

unfoldable pub load_catalog : Option Catalog → Catalog → Catalog × Catalogs
unfolding merge_catalogs
load_catalog none base = (base, record { builtin = base; cached = some base })
load_catalog (some custom) base =
    let merged = merge_catalogs base custom in
    (merged, record { builtin = touched base merged; cached = some merged })

unfoldable pub get_catalog : Option Catalog → Catalogs → Catalog × Catalogs
unfolding load_catalog
get_catalog file s = elim s.cached [ some c ↦ (c, s) | none ↦ load_catalog file s.builtin ]

abbrev pub invalidate_cache : Catalogs → Catalogs
invalidate_cache s = record s { cached = none }

pub record Found : Type 0 where
  pub vendor : Vendor
  pub device : Device
  pub category_of : Option Category

abbrev pub find_category : Text → List Category → Option Category
find_category id [] = none
find_category id (c ∷ cs) = if text_eq c.id id then some c else find_category id cs

abbrev pub same_ids : Text → Text → Device → Bool
same_ids v d dev = text_eq (to_lower dev.vendor_id) v && text_eq (to_lower dev.device_id) d

unfoldable pub find_device : Text → Text → List Device → Option Device
unfolding text_eq
find_device v d [] = none
find_device v d (x ∷ xs) = if same_ids v d x then some x else find_device v d xs

unfoldable pub find_in_vendors : Catalog → Text → Text → List Vendor → Option Found
unfolding find_device text_eq
find_in_vendors c v d [] = none
find_in_vendors c v d (w ∷ ws) = elim (find_device v d w.devices) [
  | some x ↦
      some (record { vendor = w; device = x; category_of = find_category w.category c.categories })
  | none ↦ find_in_vendors c v d ws
]

unfoldable pub find_by_vendor_device : Catalog → Text → Text → Option Found
unfolding find_in_vendors
find_by_vendor_device c vendor_id device_id =
    find_in_vendors c (to_lower vendor_id) (to_lower device_id) c.vendors

abbrev pub resolve_category : Catalog → Text → Text → Option Text
resolve_category c v d = elim (find_by_vendor_device c v d) [
  | none ↦ none
  | some f ↦ some f.vendor.category
]

-- `text.includes(word)`
abbrev pub contains : Text → Text → Bool
contains word text = elim (index_of_text word text) [ none ↦ false | some i ↦ true ]

abbrev pub match_fields : Vendor → Device → Text
match_fields v d =
    to_lower (d.name ++ (b' ' ∷ (v.name ++ (b' ' ∷ (device_key d ++ (b' ' ∷ d.suggested_set))))))

unfoldable pub search_vendors : Catalog → Text → List Vendor → List Found
unfolding index_of_text text_eq
search_vendors c q [] = []
search_vendors c q (v ∷ vs) =
    map
      (λ d. record { vendor = v; device = d; category_of = find_category v.category c.categories })
      (keep (λ d. contains q (match_fields v d)) v.devices)
    ++ search_vendors c q vs

unfoldable pub search_catalog : Catalog → Text → List Found
unfolding search_vendors trim
search_catalog c [] = []
search_catalog c (x ∷ xs) =
    let q = trim (to_lower (x ∷ xs)) in
    if ltb (length q) 2 then [] else search_vendors c q c.vendors
