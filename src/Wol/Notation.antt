-- ===== src/Wol/Notation.antt =====
-- containers/api/src/services/wol.service.js: a magic packet does not depend on how its MAC address
-- is written.
use linbo_docker.Base.{
  ℕ, zero, suc, ◌*◌, ◌≡◌, refl, sym, ap, ◌∙◌, true, ◌&&◌, some, List, [], ◌∷◌, ◌++◌, arith, ◌==◌,
  length, all, All, replicate, inl, inr, Bool-cases, ==_iff, &&-true, Outcome, ok,
}
use linbo_docker.Text.{Text, to_lower}
use linbo_docker.Text.Split.{join}
use linbo_docker.Wol.{
  WolError, is_hex_digit, is_separator, strip, mac_bytes, packet_of, create_magic_packet,
  mac_pattern, is_valid_mac, pairs, normalize_mac,
}
use linbo_docker.Wol.Packet.{
  hex_even, hex_even-all, hex_even-lower, mac_bytes-lower, strip-cons, pairs-cons, repeat, IsByte,
  packet_of-length, length-mac_bytes, mac_bytes-IsByte,
}

strip-separator : (c : ℕ) (s : Text) → is_separator c ≡ true → strip (c ∷ s) ≡ strip s
strip-separator c s h = rw h refl

strip-two :
    (c d : ℕ) (s : Text)
    → is_hex_digit c ≡ true
    → is_hex_digit d ≡ true
    → strip (c ∷ d ∷ s) ≡ c ∷ d ∷ strip s
strip-two c d s h k = strip-cons c (d ∷ s) h ∙ ap (◌∷◌ c) (strip-cons d s k)

-- the digits of two at the front
hex_even-two :
    (c d : ℕ) (cs : Text)
    → hex_even (c ∷ d ∷ cs) ≡ true
    → (is_hex_digit c ≡ true) × (is_hex_digit d ≡ true) × (hex_even cs ≡ true)
unfolding hex_even
hex_even-two c d cs h = ground arith

strip-join_nil : strip (join b':' (pairs [])) ≡ []
unfolding pairs join
strip-join_nil = refl

strip-joined :
    (c d : ℕ) (ps : List Text)
    → is_hex_digit c ≡ true
    → is_hex_digit d ≡ true
    → strip (join b':' ((c ∷ d ∷ []) ∷ ps)) ≡ c ∷ d ∷ strip (join b':' ps)
unfolding join
strip-joined c d [] h k = strip-two c d [] h k
strip-joined c d (p ∷ ps) h k = strip-two c d (b':' ∷ join b':' (p ∷ ps)) h k

-- Stripping undoes the joining of the pairs.
strip-join : (s : Text) → hex_even s ≡ true → strip (join b':' (pairs s)) ≡ s
unfolding hex_even
strip-join [] h = strip-join_nil
strip-join (c ∷ []) h = cc
strip-join (c ∷ d ∷ cs) h =
    let (hc, hd, hs) = hex_even-two c d cs h in
    ap (λ (ps : List Text). strip (join b':' ps)) (pairs-cons c d cs hc hd)
    ∙ strip-joined c d (pairs cs) hc hd
    ∙ ap (λ (t : Text). c ∷ d ∷ t) (strip-join cs hs)

-- A valid address strips to twelve digits.
mac_pattern-strip :
    (n : ℕ) (m : Text)
    → mac_pattern n m ≡ true
    → (hex_even (strip m) ≡ true) × (length (strip m) ≡ suc n * 2)
unfolding mac_pattern hex_even
mac_pattern-strip zero (a ∷ b ∷ []) h =
    let (ha, hb) = &&-true (is_hex_digit a) (is_hex_digit b) h in
    rw (strip-two a b [] ha hb, ha, hb) (refl, refl)
mac_pattern-strip (suc n) (a ∷ b ∷ c ∷ rest) h =
    let (ha, h1) =
      &&-true (is_hex_digit a) (is_hex_digit b && (is_separator c && mac_pattern n rest)) h in
    let (hb, h2) = &&-true (is_hex_digit b) (is_separator c && mac_pattern n rest) h1 in
    let (hc, hr) = &&-true (is_separator c) (mac_pattern n rest) h2 in
    let (even, size) = mac_pattern-strip n rest hr in
    rw (strip-two a b (c ∷ rest) ha hb, strip-separator c rest hc, ha, hb)
      (even, omega (arith, size))
mac_pattern-strip zero [] h = cc
mac_pattern-strip zero (a ∷ []) h = cc
mac_pattern-strip zero (a ∷ b ∷ c ∷ m) h = cc
mac_pattern-strip (suc n) [] h = cc
mac_pattern-strip (suc n) (a ∷ []) h = cc
mac_pattern-strip (suc n) (a ∷ b ∷ []) h = cc

-- An address that strips to twelve digits gives the packet of its bytes.
create-digits :
    (m : Text)
    → all is_hex_digit (strip m) ≡ true
    → length (strip m) ≡ 12
    → create_magic_packet m ≡ ok (packet_of (mac_bytes (strip m)))
unfolding create_magic_packet
create-digits m h k = rw (h, k) refl

joined_pairs :
    (s : Text)
    → length s ≡ 12
    → hex_even s ≡ true
    → (p : Text) × (ps : List Text) × (pairs s ≡ p ∷ ps)
unfolding hex_even
joined_pairs [] h k = ground arith
joined_pairs (c ∷ []) h k = ground arith
joined_pairs (c ∷ d ∷ cs) h k =
    let (hc, hd, hs) = hex_even-two c d cs k in (c ∷ d ∷ [], pairs cs, pairs-cons c d cs hc hd)

length-map_lower : (s : Text) → length (to_lower s) ≡ length s
length-map_lower [] = refl
length-map_lower (c ∷ s) = ap suc (length-map_lower s)

normalize_mac-some :
    (m p : Text) (ps : List Text)
    → pairs (to_lower (strip m)) ≡ p ∷ ps
    → normalize_mac m ≡ some (join b':' (p ∷ ps))
unfolding normalize_mac
normalize_mac-some m p ps e = rw (e, normalize_mac) refl

-- A valid MAC address is normalized, and both spellings give one and the same magic packet.
pub create_magic_packet-normalize_mac :
    (m : Text)
    → is_valid_mac m ≡ true
    → (t : Text) × (packet : List ℕ) × (normalize_mac m ≡ some t)
      × (create_magic_packet t ≡ ok packet)
      × (create_magic_packet m ≡ ok packet)
create_magic_packet-normalize_mac m h =
    let (even, size) = mac_pattern-strip 5 m h in
    let s : Text = strip m in
    let even' = hex_even-lower s even in
    let size' = length-map_lower s ∙ size in
    let (p, ps, e) = joined_pairs (to_lower s) size' even' in
    let t : Text = join b':' (p ∷ ps) in
    let back =
      ap (λ (qs : List Text). strip (join b':' qs)) (sym e) ∙ strip-join (to_lower s) even' in
    (
      t,
      packet_of (mac_bytes s),
      normalize_mac-some m p ps e,
      create-digits t (rw back (hex_even-all (to_lower s) even')) (rw back size')
          ∙ ap (λ (u : Text). ok (packet_of (mac_bytes u))) back
          ∙ ap (λ (bs : List ℕ). ok (packet_of bs)) (mac_bytes-lower s even),
      create-digits m (hex_even-all s even) size,
    )

ok-eq : {p q : List ℕ} → ◌≡◌ {A = Outcome WolError (List ℕ)} (ok p) (ok q) → q ≡ p
ok-eq h = cc

accepted :
    (m : Text) {packet : List ℕ}
    → create_magic_packet m ≡ ok packet
    → (length (strip m) ≡ 12)
      × (all is_hex_digit (strip m) ≡ true)
      × (packet ≡ packet_of (mac_bytes (strip m)))
unfolding create_magic_packet
accepted m h = elim (Bool-cases (length (strip m) == 12 && all is_hex_digit (strip m))) [
  | inl good ↦
      let (size, digits) = &&-true (length (strip m) == 12) (all is_hex_digit (strip m)) good in
      ((==_iff (length (strip m)) 12).0 size, digits, ok-eq (rw good at h))
  | inr bad ↦ cc (rw bad at h)
]

-- An accepted MAC address has six bytes, and its packet is six times 255 and then sixteen times
-- these bytes.
pub create_magic_packet-ok :
    (m : Text) {packet : List ℕ}
    → create_magic_packet m ≡ ok packet
    → (packet ≡ replicate 6 255 ++ repeat 16 (mac_bytes (strip m)))
      × (length (mac_bytes (strip m)) ≡ 6)
      × All IsByte (mac_bytes (strip m))
create_magic_packet-ok m h =
    let (size, digits, e) = accepted m h in
    let six = length-mac_bytes 6 (strip m) size in
    (e ∙ packet_of-length (mac_bytes (strip m)) six, six, mac_bytes-IsByte (strip m) digits)
