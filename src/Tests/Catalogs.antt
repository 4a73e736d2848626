-- ===== src/Tests/Catalogs.antt =====
-- Runs of Catalog, and its theorems at concrete inputs.
use linbo_docker.Base.{◌≡◌, refl, true, none, some, List, [], ◌∷◌, map}
use linbo_docker.Text.{Text, codes, text_eq, includes}
use linbo_docker.Catalog.{
  Category, Device, Vendor, Catalog, Catalogs, device_key, new_categories, extend_vendor,
  new_devices, merge_vendor, merge_vendors, merge_catalogs, load_catalog, get_catalog,
  invalidate_cache, find_device, find_in_vendors, find_by_vendor_device, resolve_category,
}
use linbo_docker.Catalog.Merging.{
  Grown, Carries, Fresh, merge_catalogs-Grown, merge_catalogs-Carries,
}
use linbo_docker.Catalog.Lookup.{LookupAnswer, find_by_vendor_device-LookupAnswer}

abbrev device : Text → Text → Device
device v d = record { vendor_id = v; device_id = d; name = codes "NIC"; suggested_set = [] }

abbrev nic : Device
nic = device (codes "8086") (codes "15b7")

abbrev new_nic : Device
new_nic = device (codes "8086") (codes "A0F0")

abbrev intel : List Device → Vendor
intel ds = record { id = codes "intel"; name = codes "Intel"; category = codes "net"; devices = ds }

abbrev network : Category
network = record { id = codes "net"; name = codes "Network"; icon = [] }

abbrev built_in : Catalog
built_in = record {
  version = codes "1";
  categories = network ∷ [];
  vendors = intel (nic ∷ []) ∷ [];
}

abbrev overlay : Catalog
overlay = record {
  version = [];
  categories = network ∷ [];
  vendors = intel (nic ∷ new_nic ∷ []) ∷ [];
}

abbrev loaded : Catalogs
loaded = record { builtin = built_in; cached = none }

-- The overlay is loaded, its file is removed and the cache is dropped: its device is still there.
overlay_stays :
    (get_catalog none (invalidate_cache (get_catalog (some overlay) loaded).1)).0.vendors
    ≡ intel (nic ∷ new_nic ∷ []) ∷ []
unfolding get_catalog load_catalog merge_catalogs merge_vendors merge_vendor extend_vendor
    new_devices includes text_eq
overlay_stays = refl

resolved :
    resolve_category (merge_catalogs built_in overlay) (codes "8086") (codes "a0f0")
    ≡ some (codes "net")
unfolding merge_catalogs merge_vendors merge_vendor extend_vendor new_devices includes text_eq
    find_by_vendor_device find_in_vendors find_device new_categories
resolved = refl

merge_catalogs-Grown_example :
    Grown (intel (nic ∷ []) ∷ []) (merge_catalogs built_in overlay).vendors
    × ((added : List Category) × ((merge_catalogs built_in overlay).categories ≡ network ∷ added)
        × Fresh (codes "net" ∷ []) added)
merge_catalogs-Grown_example = merge_catalogs-Grown built_in overlay

has_new_nic : includes (map device_key (nic ∷ new_nic ∷ [])) (codes "8086:A0F0") ≡ true
unfolding includes text_eq
has_new_nic = refl

merge_catalogs-Carries_example :
    Carries (codes "intel") (codes "8086:A0F0") (merge_catalogs built_in overlay).vendors
merge_catalogs-Carries_example =
    merge_catalogs-Carries built_in overlay 0 (intel (nic ∷ new_nic ∷ [])) (codes "8086:A0F0") refl
      has_new_nic

find_by_vendor_device-LookupAnswer_example :
    LookupAnswer overlay
      (codes "8086")
      (codes "a0f0")
      (intel (nic ∷ new_nic ∷ []) ∷ [])
      (find_by_vendor_device overlay (codes "8086") (codes "A0F0"))
find_by_vendor_device-LookupAnswer_example =
    find_by_vendor_device-LookupAnswer overlay (codes "8086") (codes "A0F0")
