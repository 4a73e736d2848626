-- ===== src/Wol.antt =====
-- containers/api/src/services/wol.service.js: magic packets, MAC formats and the bulk sender. The
-- UDP socket is a parameter: its answer to the n-th packet of a call, an error or none.
pub mod Packet
pub mod Notation
pub mod Bulk
use linbo_docker.Base.{
  ℕ, zero, suc, ◌+◌, ◌-◌, ◌*◌, Bool, true, false, not, ◌&&◌, ◌||◌, Option, none, some, List, [],
  ◌∷◌, ◌++◌, map, ltb, ◌==◌, if◌then◌else◌, length, keep, all, set, replicate, Outcome, ok, err,
  ◌>>=◌,
}
use linbo_docker.Text.{Text, to_lower, is_digit, within}
use linbo_docker.Text.Split.{join}

-- `[0-9a-fA-F]`
abbrev pub is_hex_digit : ℕ → Bool
is_hex_digit c = is_digit c || within b'a' b'f' c || within b'A' b'F' c

abbrev pub is_separator : ℕ → Bool
is_separator c = c == b':' || c == b'-'

-- `replace(/[:-]/g, '')`
abbrev pub strip : Text → Text
strip s = keep (λ c. not (is_separator c)) s

abbrev pub hex_value : ℕ → ℕ
hex_value c =
    if is_digit c then c - b'0' else if within b'a' b'f' c then c - b'a' + 10 else c - b'A' + 10

-- `parseInt(mac.substr(i * 2, 2), 16)` for each i; the caller has tested the digits
unfoldable pub mac_bytes : Text → List ℕ
mac_bytes (c ∷ d ∷ cs) = (hex_value c * 16 + hex_value d) ∷ mac_bytes cs
mac_bytes _ = []

-- `source.copy(target, at)`
unfoldable pub copy_to : List ℕ → ℕ → List ℕ → List ℕ
copy_to [] at target = target
copy_to (b ∷ bs) at target = copy_to bs (suc at) (set target at b)

-- the loop `for (let i = 0; i < 6; i++)`: `left` rounds are left
unfoldable pub fill_header : ℕ → ℕ → List ℕ → List ℕ
fill_header zero i packet = packet
fill_header (suc left) i packet = fill_header left (suc i) (set packet i 0xff)

-- the loop `for (let i = 0; i < 16; i++)`: `left` rounds are left
unfoldable pub copy_rounds : ℕ → ℕ → List ℕ → List ℕ → List ℕ
unfolding copy_to
copy_rounds zero i bytes packet = packet
copy_rounds (suc left) i bytes packet =
    copy_rounds left (suc i) bytes (copy_to bytes (6 + i * 6) packet)

unfoldable pub packet_of : List ℕ → List ℕ
unfolding fill_header copy_rounds
packet_of bytes = copy_rounds 16 0 bytes (fill_header 6 0 (replicate 102 0))

pub data WolError : Type 0 where
  invalid_mac_address : Text → WolError
  socket_error : ℕ → WolError

unfoldable pub create_magic_packet : Text → Outcome WolError (List ℕ)
unfolding packet_of mac_bytes
create_magic_packet address =
    let mac = strip address in
    if length mac == 12 && all is_hex_digit mac
    then ok (packet_of (mac_bytes mac))
    else err (invalid_mac_address address)

-- `/^([0-9A-Fa-f]{2}[:-]){n}([0-9A-Fa-f]{2})$/`
unfoldable pub mac_pattern : ℕ → Text → Bool
mac_pattern zero (a ∷ b ∷ []) = is_hex_digit a && is_hex_digit b
mac_pattern (suc n) (a ∷ b ∷ c ∷ rest) =
    is_hex_digit a && (is_hex_digit b && (is_separator c && mac_pattern n rest))
mac_pattern _ _ = false

abbrev pub is_valid_mac : Text → Bool
is_valid_mac address = mac_pattern 5 address

-- what `.` does not match
abbrev pub is_line_end : ℕ → Bool
is_line_end c = c == b'\n' || c == b'\r' || c == 0x2028 || c == 0x2029

-- `match(/.{2}/g)`, the list of the matches
unfoldable pub pairs : Text → List Text
pairs (c ∷ d ∷ cs) =
    let taken = (c ∷ d ∷ []) ∷ pairs cs in
    let later = pairs (d ∷ cs) in if is_line_end c || is_line_end d then later else taken
pairs _ = []

-- no match is null, and `join` of null throws: `none`
unfoldable pub normalize_mac : Text → Option Text
unfolding pairs join
normalize_mac address = elim (pairs (to_lower (strip address))) [
  | [] ↦ none
  | p ∷ ps ↦ some (join b':' (p ∷ ps))
]

module _ (send : Text → List ℕ → ℕ → Option WolError) where
  -- `sendPacket`: it sends once more while fewer than `count` packets are sent
  unfoldable pub send_packets : ℕ → ℕ → Text → List ℕ → Option WolError
  send_packets zero sent address packet = send address packet sent
  send_packets (suc more) sent address packet =
      let rest = send_packets more (suc sent) address packet in
      elim (send address packet sent) [ some e ↦ some e | none ↦ rest ]

  -- the number of packets, once they are sent
  unfoldable pub send_wake_on_lan : ℕ → Text → Outcome WolError ℕ
  unfolding create_magic_packet send_packets
  send_wake_on_lan count address = do
    packet ← create_magic_packet address
    elim (send_packets (count - 1) 0 address packet) [ none ↦ ok count | some e ↦ err e ]

  pub record Waking : Type 0 where
    pub address : Text
    pub outcome : Outcome WolError ℕ

  abbrev pub is_fulfilled : Waking → Bool
  is_fulfilled w = elim w.outcome [ ok n ↦ true | err e ↦ false ]

  pub record BulkResult : Type 0 where
    pub total : ℕ
    pub successful : ℕ
    pub failed : ℕ
    pub results : List Waking

  abbrev pub wakings : ℕ → List Text → List Waking
  wakings count addresses =
      map (λ a. record { address = a; outcome = send_wake_on_lan count a }) addresses

  unfoldable pub send_wake_on_lan_bulk : ℕ → List Text → BulkResult
  unfolding send_wake_on_lan
  send_wake_on_lan_bulk count addresses =
      let results = wakings count addresses in
      record {
        total = length addresses;
        successful = length (keep is_fulfilled results);
        failed = length (keep (λ w. not (is_fulfilled w)) results);
        results = results;
      }
