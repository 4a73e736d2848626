-- ===== src/Catalog/Merging.antt =====
-- containers/api/src/lib/driver-catalog.js: what `mergeCatalogs` keeps of the built-in catalogue and
-- takes from the overlay.
use mathlib.Core.Path.{subst}
use mathlib.Core.List.{append-nil, append_assoc}
use linbo_docker.Base.{
  ℕ, zero, suc, ◌≡◌, refl, sym, ap, ◌∙◌, true, false, ◌||◌, Option, none, some, List, [], ◌∷◌, ◌++◌,
  map, arith, get_elem?, inl, inr, Bool-cases, Option-cases, if-both,
}
use linbo_docker.Text.{Text, text_eq, text_eq_iff, text_eq_refl, includes}
use linbo_docker.Catalog.{
  Category, Device, Vendor, Catalog, device_key, new_categories, new_devices, extend_vendor,
  merge_vendor, merge_vendors, merge_catalogs,
}

-- the same vendor with more devices behind its own
abbrev pub Grows : Vendor → Vendor → Type 0
Grows v w = (ds : List Device) × (w ≡ record v { devices = v.devices ++ ds })

-- each vendor stays at its place, with more devices perhaps
abbrev pub Grown : List Vendor → List Vendor → Type 0
Grown vs ws =
    (i : ℕ) (v : Vendor)
    → get_elem? vs i ≡ some v
    → (w : Vendor) × (get_elem? ws i ≡ some w) × Grows v w

Grows-refl : (v : Vendor) → Grows v v
Grows-refl v =
    ([], ap (λ (ds : List Device). record v { devices = ds }) (sym (append-nil v.devices)))

Grows-trans : (v w u : Vendor) → Grows v w → Grows w u → Grows v u
Grows-trans v w u (ds, e) (es, f) = (
  ds ++ es,
  f ∙ (rw e (ap (λ (xs : List Device). record v { devices = xs }) (append_assoc v.devices ds es))),
)

the_same : {v u : Vendor} → some v ≡ some u → v ≡ u
the_same h = cc

Grown-refl : (vs : List Vendor) → Grown vs vs
Grown-refl vs i v at = (v, at, Grows-refl v)

Grown-trans : (us vs ws : List Vendor) → Grown us vs → Grown vs ws → Grown us ws
Grown-trans us vs ws g h i u at =
    let (v, at_v, k) = g i u at in let (w, at_w, l) = h i v at_v in (w, at_w, Grows-trans u v w k l)

Grown-append : (vs ws : List Vendor) → Grown vs (vs ++ ws)
Grown-append [] ws i v at = absurd (ground (arith, at))
Grown-append (u ∷ vs) ws zero v at = (v, at, Grows-refl v)
Grown-append (u ∷ vs) ws (suc i) v at = Grown-append vs ws i v at

Grown-cons :
    (v w : Vendor) (vs ws : List Vendor) → Grows v w → Grown vs ws → Grown (v ∷ vs) (w ∷ ws)
Grown-cons v w vs ws g h zero u at = (w, refl, subst (λ (x : Vendor). Grows x w) (the_same at) g)
Grown-cons v w vs ws g h (suc i) u at = h i u at

abbrev GrownIf : List Vendor → Option (List Vendor) → Type 0
GrownIf vs none = Unit
GrownIf vs (some ws) = Grown vs ws

extend_vendor-GrownIf :
    (id : Text) (ds : List Device) (vs : List Vendor) → GrownIf vs (extend_vendor id ds vs)
unfolding extend_vendor
extend_vendor-GrownIf id ds [] = tt
extend_vendor-GrownIf id ds (v ∷ vs) = elim (Option-cases (extend_vendor id ds vs)) [
  | inl e ↦ rw e (
      if-both (GrownIf (v ∷ vs)) (text_eq v.id id)
        (Grown-cons v (record v { devices = v.devices ++ new_devices v.devices ds }) vs vs
          (new_devices v.devices ds, refl) (Grown-refl vs))
        tt)
  | inr (ws, e) ↦
      rw e (
        Grown-cons v v vs ws (Grows-refl v) (subst (GrownIf vs) e (extend_vendor-GrownIf id ds vs)))
]

merge_vendor-Grown : (w : Vendor) (vs : List Vendor) → Grown vs (merge_vendor w vs)
unfolding merge_vendor
merge_vendor-Grown w vs = elim (Option-cases (extend_vendor w.id w.devices vs)) [
  | inl e ↦ rw (e, merge_vendor) (Grown-append vs (w ∷ []))
  | inr (ws, e) ↦
      rw (e, merge_vendor) (subst (GrownIf vs) e (extend_vendor-GrownIf w.id w.devices vs))
]

merge_vendors-Grown : (vs ws : List Vendor) → Grown vs (merge_vendors vs ws)
unfolding merge_vendors
merge_vendors-Grown vs [] = Grown-refl vs
merge_vendors-Grown vs (w ∷ ws) =
    Grown-trans vs (merge_vendor w vs) (merge_vendors (merge_vendor w vs) ws)
      (merge_vendor-Grown w vs) (merge_vendors-Grown (merge_vendor w vs) ws)

-- a device with this key under a vendor with this identifier
abbrev pub Carries : Text → Text → List Vendor → Type 0
Carries id key vs =
    (i : ℕ) × (v : Vendor) × (get_elem? vs i ≡ some v)
    × (v.id ≡ id)
    × (includes (map device_key v.devices) key ≡ true)

includes-append :
    (ds es : List Device) (key : Text)
    → includes (map device_key (ds ++ es)) key
      ≡ (includes (map device_key ds) key || includes (map device_key es) key)
unfolding includes
includes-append [] es key = refl
includes-append (d ∷ ds) es key = ground (arith, includes-append ds es key)

Carries-Grown :
    (id key : Text) (vs ws : List Vendor) → Grown vs ws → Carries id key vs → Carries id key ws
Carries-Grown id key vs ws g (i, v, at, same, h) =
    let (w, at_w, (ds, e)) = g i v at in
    (i, w, at_w, rw e same, rw (e, includes-append v.devices ds key, h) refl)

Carries-cons :
    (id key : Text) (v : Vendor) (vs : List Vendor) → Carries id key vs → Carries id key (v ∷ vs)
Carries-cons id key v vs (i, w, at, same, h) = (suc i, w, at, same, h)

Carries-append :
    (w : Vendor) (key : Text) (vs : List Vendor)
    → includes (map device_key w.devices) key ≡ true
    → Carries w.id key (vs ++ w ∷ [])
Carries-append w key [] h = (zero, w, refl, refl, h)
Carries-append w key (v ∷ vs) h = Carries-cons w.id key v (vs ++ w ∷ []) (Carries-append w key vs h)

-- The devices of the overlay are kept unless the vendor has them.
includes-new_devices :
    (old ds : List Device) (key : Text)
    → includes (map device_key ds) key ≡ true
    → (includes (map device_key old) key || includes (map device_key (new_devices old ds)) key)
      ≡ true
unfolding new_devices includes
includes-new_devices old [] key h = ground arith
includes-new_devices old (d ∷ ds) key h = elim (Bool-cases (text_eq (device_key d) key)) [
  | inl same ↦ here ((text_eq_iff (device_key d) key).0 same)
  | inr other ↦ there other (includes-new_devices old ds key (rw other at h))
]
  where
    here :
        device_key d ≡ key
        → (includes (map device_key old) key
            || includes (map device_key (new_devices old (d ∷ ds))) key)
          ≡ true
    here e = elim (Bool-cases (includes (map device_key old) key)) [
      | inl seen ↦ rw seen refl
      | inr unseen ↦ rw (unseen, e, unseen, ← e, text_eq_refl (device_key d)) refl
    ]

    there :
        text_eq (device_key d) key ≡ false
        → (includes (map device_key old) key || includes (map device_key (new_devices old ds)) key)
          ≡ true
        → (includes (map device_key old) key
            || includes (map device_key (new_devices old (d ∷ ds))) key)
          ≡ true
    there other k = elim (Bool-cases (includes (map device_key old) (device_key d))) [
      | inl seen ↦ rw seen k
      | inr unseen ↦ rw (unseen, other) k
    ]

abbrev CarriesIf : Text → Text → Option (List Vendor) → Type 0
CarriesIf id key none = Unit
CarriesIf id key (some ws) = Carries id key ws

extend_vendor-CarriesIf :
    (id key : Text) (ds : List Device) (vs : List Vendor)
    → includes (map device_key ds) key ≡ true
    → CarriesIf id key (extend_vendor id ds vs)
unfolding extend_vendor
extend_vendor-CarriesIf id key ds [] h = tt
extend_vendor-CarriesIf id key ds (v ∷ vs) h = elim (Option-cases (extend_vendor id ds vs)) [
  | inr (ws, e) ↦ rw e (
      Carries-cons id key v ws
        (subst (CarriesIf id key) e (extend_vendor-CarriesIf id key ds vs h)))
  | inl e ↦ elim (Bool-cases (text_eq v.id id)) [
    | inr other ↦ rw (e, other) tt
    | inl same ↦
        rw (e, same)
          (
            zero,
            record v { devices = v.devices ++ new_devices v.devices ds },
            refl,
            (text_eq_iff v.id id).0 same,
            includes-append v.devices (new_devices v.devices ds) key
                ∙ includes-new_devices v.devices ds key h,
          )
  ]
]

merge_vendor-Carries :
    (w : Vendor) (key : Text) (vs : List Vendor)
    → includes (map device_key w.devices) key ≡ true
    → Carries w.id key (merge_vendor w vs)
unfolding merge_vendor
merge_vendor-Carries w key vs h = elim (Option-cases (extend_vendor w.id w.devices vs)) [
  | inl e ↦ rw (e, merge_vendor) (Carries-append w key vs h)
  | inr (ws, e) ↦
      rw (e, merge_vendor)
        (subst (CarriesIf w.id key) e (extend_vendor-CarriesIf w.id key w.devices vs h))
]

merge_vendors-Carries :
    (vs ws : List Vendor) (i : ℕ) (w : Vendor) (key : Text)
    → get_elem? ws i ≡ some w
    → includes (map device_key w.devices) key ≡ true
    → Carries w.id key (merge_vendors vs ws)
unfolding merge_vendors
merge_vendors-Carries vs [] i w key at h = absurd (ground (arith, at))
merge_vendors-Carries vs (u ∷ ws) zero w key at h =
    subst (λ (x : Vendor). Carries x.id key (merge_vendors vs (u ∷ ws))) (the_same at)
      (Carries-Grown u.id key (merge_vendor u vs) (merge_vendors (merge_vendor u vs) ws)
        (merge_vendors-Grown (merge_vendor u vs) ws)
        (merge_vendor-Carries u key vs (
          subst (λ (x : Vendor). includes (map device_key x.devices) key ≡ true) (sym (the_same at))
            h)))
merge_vendors-Carries vs (u ∷ ws) (suc i) w key at h =
    merge_vendors-Carries (merge_vendor u vs) ws i w key at h

-- each item's identifier is new among these and the items before it
abbrev pub Fresh : List Text → List Category → Type 0
Fresh ids [] = Unit
Fresh ids (c ∷ cs) = (includes ids c.id ≡ false) × Fresh (c.id ∷ ids) cs

new_categories-Fresh : (ids : List Text) (cs : List Category) → Fresh ids (new_categories ids cs)
unfolding new_categories
new_categories-Fresh ids [] = tt
new_categories-Fresh ids (c ∷ cs) = elim (Bool-cases (includes ids c.id)) [
  | inl seen ↦ rw seen (new_categories-Fresh ids cs)
  | inr unseen ↦ rw unseen (unseen, new_categories-Fresh (c.id ∷ ids) cs)
]

-- The merged catalogue is the built-in one with more: its categories come first, in order, and
-- those behind them have new identifiers, each once; each of its vendors keeps its place and its
-- fields, and its devices come first among the vendor's.
pub merge_catalogs-Grown :
    (base custom : Catalog)
    → Grown base.vendors (merge_catalogs base custom).vendors
      × ((added : List Category) × ((merge_catalogs base custom).categories
            ≡ base.categories ++ added)
          × Fresh (map (λ (c : Category). c.id) base.categories) added)
unfolding merge_catalogs
merge_catalogs-Grown base custom =
    let ids = map (λ (c : Category). c.id) base.categories in
    (
      merge_vendors-Grown base.vendors custom.vendors,
      (new_categories ids custom.categories, refl, new_categories-Fresh ids custom.categories),
    )

-- Nothing of the overlay is lost: for each device of a vendor of the overlay the merged catalogue
-- has a device with the same key under a vendor with the same identifier.
pub merge_catalogs-Carries :
    (base custom : Catalog) (i : ℕ) (w : Vendor) (key : Text)
    → get_elem? custom.vendors i ≡ some w
    → includes (map device_key w.devices) key ≡ true
    → Carries w.id key (merge_catalogs base custom).vendors
unfolding merge_catalogs
merge_catalogs-Carries base custom i w key at h =
    merge_vendors-Carries base.vendors custom.vendors i w key at h
