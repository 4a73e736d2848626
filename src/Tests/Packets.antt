-- ===== src/Tests/Packets.antt =====
-- Runs of the Wake-on-LAN service.
use linbo_docker.Base.{
  true, ◌==◌, if◌then◌else◌, ℕ, ◌≡◌, refl, Option, none, some, List, [], ◌∷◌, ◌++◌, length, All,
  replicate, ok,
}
use linbo_docker.Text.{Text, codes}
use linbo_docker.Wol.{
  WolError, socket_error, strip, mac_bytes, packet_of, create_magic_packet, mac_pattern,
  is_valid_mac, normalize_mac, send_wake_on_lan_bulk,
}
use linbo_docker.Wol.Packet.{repeat, IsByte}
use linbo_docker.Wol.Notation.{create_magic_packet-normalize_mac, create_magic_packet-ok}

abbrev address : Text
address = codes "AA-bb:0C-00-11-fF"

address_valid : is_valid_mac address ≡ true
unfolding mac_pattern
address_valid = refl

address_normalized : normalize_mac address ≡ some (codes "aa:bb:0c:00:11:ff")
unfolding normalize_mac
address_normalized = refl

address_packet : create_magic_packet address ≡ ok (packet_of (0xaa ∷ 0xbb ∷ 12 ∷ 0 ∷ 17 ∷ 255 ∷ []))
unfolding create_magic_packet
address_packet = refl

create_magic_packet-normalize_mac_example :
    (t : Text) × (packet : List ℕ) × (normalize_mac address ≡ some t)
    × (create_magic_packet t ≡ ok packet)
    × (create_magic_packet address ≡ ok packet)
create_magic_packet-normalize_mac_example = create_magic_packet-normalize_mac address address_valid

create_magic_packet-ok_example :
    (packet_of (0xaa ∷ 0xbb ∷ 12 ∷ 0 ∷ 17 ∷ 255 ∷ [])
      ≡ replicate 6 255 ++ repeat 16 (mac_bytes (strip address)))
    × (length (mac_bytes (strip address)) ≡ 6)
    × All IsByte (mac_bytes (strip address))
create_magic_packet-ok_example = create_magic_packet-ok address address_packet

-- a socket that refuses the second packet
abbrev second_fails : Text → List ℕ → ℕ → Option WolError
second_fails a packet n = if n == 1 then some (socket_error 1) else none

abbrev addresses : List Text
addresses = address ∷ codes "xx" ∷ []

bulk-failed : (send_wake_on_lan_bulk second_fails 3 addresses).failed ≡ 2
unfolding send_wake_on_lan_bulk
bulk-failed = refl
