-- ===== src/Catalog/Lookup.antt =====
-- containers/api/src/lib/driver-catalog.js: what `findByVendorDevice` finds.
use mathlib.Core.Path.{subst}
use linbo_docker.Base.{
  ℕ, zero, suc, ◌≡◌, refl, ap, true, false, Option, none, some, List, [], ◌∷◌, arith, get_elem?,
  inl, inr, Bool-cases, Option-cases,
}
use linbo_docker.Text.{Text, to_lower}
use linbo_docker.Catalog.{
  Device, Vendor, Catalog, Found, find_category, same_ids, find_device, find_in_vendors,
  find_by_vendor_device,
}

-- no device among these has the identifiers
abbrev pub NoDevice : Text → Text → List Device → Type 0
NoDevice v d ds = (j : ℕ) (x : Device) → get_elem? ds j ≡ some x → same_ids v d x ≡ false

abbrev DeviceAnswer : Text → Text → List Device → Option Device → Type 0
DeviceAnswer v d ds none = NoDevice v d ds
DeviceAnswer v d ds (some x) = (j : ℕ) × (get_elem? ds j ≡ some x) × (same_ids v d x ≡ true)

the_item {ℓ} : {A : Type ℓ} {x y : A} → some x ≡ some y → x ≡ y
the_item {A = A} {x} {y} h = ap (λ (o : Option A). elim o [ none ↦ x | some z ↦ z ]) h

NoDevice-cons :
    (v d : Text) (x : Device) (xs : List Device)
    → same_ids v d x ≡ false
    → NoDevice v d xs
    → NoDevice v d (x ∷ xs)
NoDevice-cons v d x xs e h zero y at =
    subst (λ (z : Device). same_ids v d z ≡ false) (the_item at) e
NoDevice-cons v d x xs e h (suc j) y at = h j y at

DeviceAnswer-cons :
    (v d : Text) (x : Device) (xs : List Device) (o : Option Device)
    → same_ids v d x ≡ false
    → DeviceAnswer v d xs o
    → DeviceAnswer v d (x ∷ xs) o
DeviceAnswer-cons v d x xs none e h = NoDevice-cons v d x xs e h
DeviceAnswer-cons v d x xs (some y) e (j, at, same) = (suc j, at, same)

find_device-Answer : (v d : Text) (ds : List Device) → DeviceAnswer v d ds (find_device v d ds)
unfolding find_device
find_device-Answer v d [] = λ j x at. absurd (ground (arith, at))
find_device-Answer v d (x ∷ xs) = elim (Bool-cases (same_ids v d x)) [
  | inl same ↦ rw same (zero, refl, same)
  | inr other ↦
      rw other (DeviceAnswer-cons v d x xs (find_device v d xs) other (find_device-Answer v d xs))
]

-- a device with the identifiers, its vendor and the vendor's category; or no vendor has one
abbrev pub LookupAnswer : Catalog → Text → Text → List Vendor → Option Found → Type 0
LookupAnswer c v d vs none = (i : ℕ) (w : Vendor) → get_elem? vs i ≡ some w → NoDevice v d w.devices
LookupAnswer c v d vs (some f) =
    ((i : ℕ) × (get_elem? vs i ≡ some f.vendor))
    × ((j : ℕ) × (get_elem? f.vendor.devices j ≡ some f.device))
    × (same_ids v d f.device ≡ true)
    × (f.category_of ≡ find_category f.vendor.category c.categories)

LookupAnswer-cons :
    (c : Catalog) (v d : Text) (w : Vendor) (ws : List Vendor) (o : Option Found)
    → NoDevice v d w.devices
    → LookupAnswer c v d ws o
    → LookupAnswer c v d (w ∷ ws) o
LookupAnswer-cons c v d w ws none n h = further
  where
    further : (i : ℕ) (u : Vendor) → get_elem? (w ∷ ws) i ≡ some u → NoDevice v d u.devices
    further zero u at = subst (λ (z : Vendor). NoDevice v d z.devices) (the_item at) n
    further (suc i) u at = h i u at
LookupAnswer-cons c v d w ws (some f) n ((i, at), found, same, cat) =
    ((suc i, at), found, same, cat)

find_in_vendors-Answer :
    (c : Catalog) (v d : Text) (vs : List Vendor) → LookupAnswer c v d vs (find_in_vendors c v d vs)
unfolding find_in_vendors
find_in_vendors-Answer c v d [] = λ i w at. absurd (ground (arith, at))
find_in_vendors-Answer c v d (w ∷ ws) = elim (Option-cases (find_device v d w.devices)) [
  | inl e ↦
      rw (e, LookupAnswer)
        (LookupAnswer-cons c v d w ws (find_in_vendors c v d ws)
          (subst (DeviceAnswer v d w.devices) e (find_device-Answer v d w.devices))
          (find_in_vendors-Answer c v d ws))
  | inr (x, e) ↦
      let (j, at, same) = subst (DeviceAnswer v d w.devices) e (find_device-Answer v d w.devices) in
      rw (e, LookupAnswer) ((zero, refl), (j, at), same, refl)
]

-- Whatever `findByVendorDevice` returns is a device of a vendor of the catalogue that has the two
-- identifiers, letter case aside, with the category that the vendor names; it returns null only
-- if no device of the catalogue has them.
pub find_by_vendor_device-LookupAnswer :
    (c : Catalog) (vendor_id device_id : Text)
    → LookupAnswer c
        (to_lower vendor_id)
        (to_lower device_id)
        c.vendors
        (find_by_vendor_device c vendor_id device_id)
unfolding find_by_vendor_device
find_by_vendor_device-LookupAnswer c vendor_id device_id =
    find_in_vendors-Answer c (to_lower vendor_id) (to_lower device_id) c.vendors
