-- ===== src/Wol/Packet.antt =====
-- containers/api/src/services/wol.service.js: the layout of a magic packet, and that it does not
-- depend on how the MAC address is written.
use linbo_docker.Base.{
  ℕ, zero, suc, ◌*◌, ◌<◌, ◌≡◌, refl, ap, Bool, true, false, ◌&&◌, List, [], ◌∷◌, ◌++◌, arith,
  length, all, All, replicate, &&-true,
}
use linbo_docker.Text.{Text, lower, to_lower}
use linbo_docker.Wol.{is_hex_digit, is_separator, strip, hex_value, mac_bytes, packet_of, pairs}

-- the list after itself, n times
abbrev pub repeat : ℕ → List ℕ → List ℕ
repeat zero bytes = []
repeat (suc n) bytes = bytes ++ repeat n bytes

packet_of_six :
    (a b c d e f : ℕ)
    → packet_of (a ∷ b ∷ c ∷ d ∷ e ∷ f ∷ [])
      ≡ replicate 6 255 ++ repeat 16 (a ∷ b ∷ c ∷ d ∷ e ∷ f ∷ [])
unfolding packet_of
packet_of_six a b c d e f = refl

pub packet_of-length :
    (bs : List ℕ) → length bs ≡ 6 → packet_of bs ≡ replicate 6 255 ++ repeat 16 bs
packet_of-length (a ∷ b ∷ c ∷ d ∷ e ∷ f ∷ []) h = packet_of_six a b c d e f
packet_of-length [] h = ground arith
packet_of-length (a ∷ []) h = ground arith
packet_of-length (a ∷ b ∷ []) h = ground arith
packet_of-length (a ∷ b ∷ c ∷ []) h = ground arith
packet_of-length (a ∷ b ∷ c ∷ d ∷ []) h = ground arith
packet_of-length (a ∷ b ∷ c ∷ d ∷ e ∷ []) h = ground arith
packet_of-length (a ∷ b ∷ c ∷ d ∷ e ∷ f ∷ g ∷ bs) h = ground arith

pub length-mac_bytes : (n : ℕ) (s : Text) → length s ≡ n * 2 → length (mac_bytes s) ≡ n
unfolding mac_bytes
length-mac_bytes zero [] h = refl
length-mac_bytes zero (c ∷ s) h = omega arith
length-mac_bytes (suc n) [] h = omega arith
length-mac_bytes (suc n) (c ∷ []) h = omega arith
length-mac_bytes (suc n) (c ∷ d ∷ s) h = ap suc (length-mac_bytes n s (omega arith))

abbrev pub IsByte : ℕ → Type 0
IsByte b = b < 256

hex_value-lt : (c : ℕ) → is_hex_digit c ≡ true → hex_value c < 16
hex_value-lt c h = ground arith

pub mac_bytes-IsByte : (s : Text) → all is_hex_digit s ≡ true → All IsByte (mac_bytes s)
unfolding mac_bytes
mac_bytes-IsByte [] h = tt
mac_bytes-IsByte (c ∷ []) h = tt
mac_bytes-IsByte (c ∷ d ∷ s) h =
    let (hc, h1) = &&-true (is_hex_digit c) (all is_hex_digit (d ∷ s)) h in
    let (hd, hs) = &&-true (is_hex_digit d) (all is_hex_digit s) h1 in
    (omega (arith, hex_value-lt c hc, hex_value-lt d hd), mac_bytes-IsByte s hs)

-- hexadecimal digits, an even number of them
unfoldable pub hex_even : Text → Bool
hex_even [] = true
hex_even (c ∷ []) = false
hex_even (c ∷ d ∷ cs) = is_hex_digit c && (is_hex_digit d && hex_even cs)

pub hex_even-all : (s : Text) → hex_even s ≡ true → all is_hex_digit s ≡ true
unfolding hex_even
hex_even-all [] h = refl
hex_even-all (c ∷ []) h = cc
hex_even-all (c ∷ d ∷ cs) h = ground (arith, hex_even-all cs)

hex-lower : (c : ℕ) → is_hex_digit c ≡ true → is_hex_digit (lower c) ≡ true
hex-lower c h = ground arith

pub hex_even-lower : (s : Text) → hex_even s ≡ true → hex_even (to_lower s) ≡ true
unfolding hex_even
hex_even-lower [] h = refl
hex_even-lower (c ∷ []) h = h
hex_even-lower (c ∷ d ∷ cs) h = ground (arith, hex_even-lower cs, hex-lower c, hex-lower d)

hex_value-lower : (c : ℕ) → is_hex_digit c ≡ true → hex_value (lower c) ≡ hex_value c
hex_value-lower c h = ground arith

pub mac_bytes-lower : (s : Text) → hex_even s ≡ true → mac_bytes (to_lower s) ≡ mac_bytes s
unfolding mac_bytes hex_even
mac_bytes-lower [] h = refl
mac_bytes-lower (c ∷ []) h = refl
mac_bytes-lower (c ∷ d ∷ cs) h =
    let (hc, h1) = &&-true (is_hex_digit c) (is_hex_digit d && hex_even cs) h in
    let (hd, hs) = &&-true (is_hex_digit d) (hex_even cs) h1 in
    rw (hex_value-lower c hc, hex_value-lower d hd, mac_bytes-lower cs hs) refl

hex-separator : (c : ℕ) → is_hex_digit c ≡ true → is_separator c ≡ false
hex-separator c h = ground arith

pub strip-cons : (c : ℕ) (s : Text) → is_hex_digit c ≡ true → strip (c ∷ s) ≡ c ∷ strip s
strip-cons c s h = rw (hex-separator c h) refl

pub pairs-cons :
    (c d : ℕ) (cs : Text)
    → is_hex_digit c ≡ true
    → is_hex_digit d ≡ true
    → pairs (c ∷ d ∷ cs) ≡ (c ∷ d ∷ []) ∷ pairs cs
unfolding pairs
pairs-cons c d cs h k = ground arith
