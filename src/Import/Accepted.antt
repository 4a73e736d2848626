-- ===== src/Import/Accepted.antt =====
-- containers/api/src/services/deviceImport.service.js: what `validateCsvRow` lets through, and how
-- the errors, the rows and the counts of `validateCsv` go together.
use linbo_docker.Base.{
  ℕ, ◌≡◌, refl, ◌∙◌, Bool, true, false, not, ◌&&◌, Option, none, some, List, [], ◌∷◌, ◌++◌, map,
  inl, inr, arith, if◌then◌else◌, all, Bool-cases,
}
use linbo_docker.Text.{Text, lower, to_lower}
use linbo_docker.Import.{
  hex_pairs, normalize_mac, is_valid_mac, is_valid_ip, is_valid_hostname, is_host_char,
  ends_alphanumeric,
}
use linbo_docker.Import.Rows.{
  Device, CsvError, room_errors, hostname_errors, config_errors, mac_errors, ip_errors, is_bad_ip,
  room_required, hostname_required, mac_required, invalid_hostname, invalid_mac, invalid_ip,
  row_errors, device_of, is_empty, required, any_text, is_dhcp, field, when,
}

-- a usable address, or none: DHCP
abbrev pub IsIp : Option Text → Type 0
IsIp none = Unit
IsIp (some ip) = is_valid_ip ip ≡ true

pub record IsDevice (d : Device) : Type 0 where
  pub room_given : is_empty d.room ≡ false
  pub hostname_valid : is_valid_hostname d.hostname ≡ true
  pub mac_valid : hex_pairs 5 d.mac_address ≡ true
  pub ip_valid : IsIp d.ip_address

all-lower : (cs : Text) → all is_host_char cs ≡ true → all is_host_char (map lower cs) ≡ true
all-lower [] h = refl
all-lower (c ∷ cs) h = ground (arith, all-lower cs)

ends-lower : (cs : Text) → ends_alphanumeric cs ≡ true → ends_alphanumeric (map lower cs) ≡ true
ends-lower [] h = h
ends-lower (c ∷ []) h = ground arith
ends-lower (c ∷ d ∷ cs) h = ends-lower (d ∷ cs) h

is_valid_hostname-lower :
    (s : Text) → is_valid_hostname s ≡ true → is_valid_hostname (to_lower s) ≡ true
unfolding is_valid_hostname
is_valid_hostname-lower [] h = h
is_valid_hostname-lower (c ∷ cs) h = ground (arith, all-lower cs, ends-lower (c ∷ cs))

-- a list without items is built from two without items
nil-append {ℓ} : {A : Type ℓ} (xs ys : List A) → (xs ++ ys) ≡ [] → (xs ≡ []) × (ys ≡ [])
nil-append [] ys h = (refl, h)
nil-append (x ∷ xs) ys h = cc

nil-five {ℓ} :
    {A : Type ℓ} (a b c d e : List A)
    → (a ++ b ++ c ++ d ++ e) ≡ []
    → (a ≡ []) × (b ≡ []) × (c ≡ []) × (d ≡ []) × (e ≡ [])
nil-five a b c d e h =
    let (h4, he) = nil-append (a ++ b ++ c ++ d) e h in
    let (h3, hd) = nil-append (a ++ b ++ c) d h4 in
    let (h2, hc) = nil-append (a ++ b) c h3 in
    let (ha, hb) = nil-append a b h2 in (ha, hb, hc, hd, he)

nil-required :
    (missing : CsvError) (is_ok : Text → Bool) (wrong : Text → CsvError) (s : Text)
    → required missing is_ok wrong s ≡ []
    → (is_empty s ≡ false) × (is_ok s ≡ true)
nil-required missing is_ok wrong [] h = cc
nil-required missing is_ok wrong (c ∷ cs) h = elim (Bool-cases (is_ok (c ∷ cs))) [
  | inl ok ↦ (refl, ok)
  | inr bad ↦ cc (rw bad at h)
]

nil-when {ℓ} : {A : Type ℓ} (b : Bool) (a : A) → when b a ≡ [] → b ≡ false
nil-when true a h = cc
nil-when false a h = refl

module _ (n : ℕ) (fs : List Text) where
  -- What the errors' absence says of the fields.
  abbrev FieldsOk : Type 0
  FieldsOk =
      (is_empty (field fs 0) ≡ false)
      × (is_valid_hostname (field fs 1) ≡ true)
      × (is_valid_mac (field fs 3) ≡ true)
      × ((not (is_empty (field fs 4))
            && not (is_dhcp (field fs 4))
            && not (is_valid_ip (field fs 4)))
          ≡ false)

  row_errors-FieldsOk : row_errors n fs ≡ [] → FieldsOk
  unfolding row_errors
  row_errors-FieldsOk h =
      let (r, m, c, a, i) =
        nil-five (room_errors n fs) (hostname_errors n fs) (config_errors n fs) (mac_errors n fs)
          (ip_errors n fs) h in
      (
        (nil-required (room_required n) any_text (invalid_hostname n) (field fs 0) r).0,
        (nil-required (hostname_required n) is_valid_hostname (invalid_hostname n) (field fs 1)
            m).1,
        (nil-required (mac_required n) is_valid_mac (invalid_mac n) (field fs 3) a).1,
        nil-when (is_bad_ip (field fs 4)) (invalid_ip n (field fs 4)) i,
      )

is_valid_mac-hex_pairs : (s : Text) → is_valid_mac s ≡ true → hex_pairs 5 (normalize_mac s) ≡ true
unfolding is_valid_mac
is_valid_mac-hex_pairs [] h = cc
is_valid_mac-hex_pairs (c ∷ cs) h = h

-- no address is a valid address
accepted-IsIp : (ip : Text) → is_bad_ip ip ≡ false → IsIp (if is_dhcp ip then none else some ip)
unfolding is_valid_ip
accepted-IsIp ip h = ground (arith)

is_empty-lower : (s : Text) → is_empty (to_lower s) ≡ is_empty s
is_empty-lower [] = refl
is_empty-lower (c ∷ cs) = refl

pub device_of-IsDevice : (n : ℕ) (fs : List Text) → row_errors n fs ≡ [] → IsDevice (device_of fs)
unfolding device_of
device_of-IsDevice n fs h =
    let (r, m, a, i) = row_errors-FieldsOk n fs h in
    record {
      room_given = is_empty-lower (field fs 0) ∙ r;
      hostname_valid = is_valid_hostname-lower (field fs 1) m;
      mac_valid = is_valid_mac-hex_pairs (field fs 3) a;
      ip_valid = accepted-IsIp (field fs 4) i;
    }
