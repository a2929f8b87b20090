-- ===== src/Uplink/Allocation.antt =====
-- uplink_message.h and .cpp: how many topologies and stream management elements go into each packet
-- of a message, as the sender plans it (computePacketAllocation), as it fills the packets
-- (serializeTopologiesAndSMEs), and as the receiver works it out from the header
-- (checkTopologiesAndSMEs).
pub mod Splits
pub mod Sent
pub mod Received
use tdmh.Base.{
  ℕ, zero, suc, ◌+◌, ◌-◌, ◌*◌, ◌/◌, ◌%◌, List, [], ◌∷◌, Option, none, some, Bool, true, false, not,
  ◌&&◌, ◌==◌, ltb, min, if◌then◌else◌,
}
use tdmh.Packet.{max_pkt_size, pan_header_size, tag_size}

-- What the messages depend on of the configuration.
pub record UplinkConfig : Type 0 where
  pub neighbor_bitmask_size : ℕ
  pub max_nodes : ℕ
  pub use_weak_topologies : Bool
  pub authenticate : Bool
  pub num_uplink_packets : ℕ
  pub guaranteed_topologies : ℕ

abbrev pub bitmasks : UplinkConfig → ℕ
bitmasks c = if c.use_weak_topologies then 2 * c.neighbor_bitmask_size else c.neighbor_bitmask_size

-- TopologyElement::maxSize and StreamManagementElement::maxSize.
unfoldable pub topology_size : UplinkConfig → ℕ
topology_size c = 1 + bitmasks c

abbrev pub sme_size : ℕ
sme_size = 8

abbrev pub uplink_header_size : ℕ
uplink_header_size = 4

abbrev pub tag_room : UplinkConfig → ℕ
tag_room c = if c.authenticate then tag_size else 0

unfoldable pub first_capacity : UplinkConfig → ℕ
first_capacity c = max_pkt_size - (pan_header_size + uplink_header_size + bitmasks c) - tag_room c

unfoldable pub other_capacity : UplinkConfig → ℕ
other_capacity c = max_pkt_size - pan_header_size - tag_room c

-- One of the two loops of computePacketAllocation, with as many packets after this one as `rounds`:
-- how many elements remain, the bytes left in the last packet, and the number of that.
abbrev pub fitting : ℕ → ℕ → ℕ → ℕ
fitting size remaining bytes = min remaining (bytes / size)

unfoldable pub fit : ℕ → ℕ → ℕ → ℕ → ℕ → ℕ → ℕ × ℕ × ℕ
fit zero size other remaining bytes packets =
    let n = fitting size remaining bytes in (remaining - n, bytes - n * size, packets)
fit (suc rounds) size other remaining bytes packets =
    let n = fitting size remaining bytes in
    elim (remaining - n == 0) [
      | true ↦ (remaining - n, bytes - n * size, packets)
      | false ↦ fit rounds size other (remaining - n) other (suc packets)
    ]

-- The two counts are `unsigned char`. The differences are ints in the source; those here stop at
-- 0, which makes no difference where the first packet and the guaranteed topologies fit, as the
-- configuration's validation asks.
unfoldable pub wanted : UplinkConfig → ℕ → ℕ → ℕ × ℕ
wanted c available_topologies available_smes =
    let total = first_capacity c + (c.num_uplink_packets - 1) * other_capacity c in
    let guaranteed = min c.guaranteed_topologies available_topologies in
    let topology_bytes = guaranteed * topology_size c in
    let smes = min available_smes ((total - topology_bytes) / sme_size) % 256 in
    let unused = total - topology_bytes - smes * sme_size in
    ((guaranteed + min (unused / topology_size c) (available_topologies - guaranteed)) % 256, smes)

pub record PacketAllocation : Type 0 where
  pub tot_packets : ℕ
  pub num_topologies : ℕ
  pub num_smes : ℕ

abbrev pub allocate : UplinkConfig → ℕ × ℕ → PacketAllocation
allocate c (topologies, smes) =
    let max_packets = c.num_uplink_packets in
    let (topologies_left, bytes, packets) =
      fit (max_packets - 1) (topology_size c) (other_capacity c) topologies (first_capacity c) 1 in
    let (smes_left, _, packets') =
      fit (max_packets - packets) sme_size (other_capacity c) smes bytes packets in
    record {
      tot_packets = packets';
      num_topologies = topologies - topologies_left;
      num_smes = smes - smes_left;
    }

unfoldable pub compute_packet_allocation : UplinkConfig → ℕ → ℕ → PacketAllocation
compute_packet_allocation c available_topologies available_smes =
    allocate c (wanted c available_topologies available_smes)

-- What one call of serializeTopologiesAndSMEs puts into a packet with `available` bytes, and how
-- many are left for the next ones.
unfoldable pub packet_counts : UplinkConfig → ℕ → ℕ → ℕ → (ℕ × ℕ) × ℕ × ℕ
packet_counts c available topologies smes =
    let n = min topologies (available / topology_size c) in
    if ltb 0 (topologies - n)
    then ((n, 0), topologies - n, smes)
    else let k = min smes ((available - n * topology_size c) / sme_size) in
      ((n, k), topologies - n, smes - k)

-- The packets of a message, `count` of them; all but the first have the same room.
pub sent_counts : UplinkConfig → ℕ → ℕ → ℕ → ℕ → List (ℕ × ℕ)
sent_counts c zero available topologies smes = []
sent_counts c (suc count) available topologies smes =
    let (packet, topologies', smes') = packet_counts c available topologies smes in
    packet ∷ sent_counts c count (other_capacity c) topologies' smes'

-- One of the two loops of checkTopologiesAndSMEs, with as many packets after this one as `rounds`:
-- the bytes left in the last packet, its number, and how many elements are in the packet with the
-- number `target`, which `valid` looks at.
pub check_loop : (ℕ → Bool) → ℕ → ℕ → ℕ → ℕ → ℕ → ℕ → ℕ → ℕ → Option (ℕ × ℕ × ℕ)
check_loop valid zero size other target remaining bytes packets found =
    let n = fitting size remaining bytes in
    if packets == target && not (valid n)
    then none
    else if remaining - n == 0
    then some (bytes - n * size, packets, if packets == target then n else found)
    else none
check_loop valid (suc rounds) size other target remaining bytes packets found =
    let n = fitting size remaining bytes in
    let found' = if packets == target then n else found in
    if packets == target && not (valid n) then none else elim (remaining - n == 0) [
      | true ↦ some (bytes - n * size, packets, found')
      | false ↦ check_loop valid rounds size other target (remaining - n) other (suc packets) found'
    ]

-- The loops are skipped where there is nothing to check.
abbrev pub check_section : (ℕ → Bool) → ℕ → ℕ → ℕ → ℕ → ℕ → ℕ → ℕ → Option (ℕ × ℕ × ℕ)
check_section valid rounds size other target remaining bytes packets =
    if remaining == 0
    then some (bytes, packets, 0)
    else check_loop valid rounds size other target remaining bytes packets 0

abbrev pub check_smes :
    (ℕ → ℕ → Bool) → UplinkConfig → ℕ → ℕ → Option (ℕ × ℕ × ℕ) → Option (ℕ × ℕ × ℕ)
check_smes valid c target smes none = none
check_smes valid c target smes (some (bytes, packets, topologies)) =
    elim (check_section (valid topologies) (c.num_uplink_packets - packets) sme_size
      (other_capacity c) target smes bytes packets) [
        | none ↦ none
        | some (_, packets', found) ↦ some (packets', topologies, found)
      ]

-- The bytes of the packet have to be those of what it is found to hold.
abbrev pub check_size : UplinkConfig → ℕ → Option (ℕ × ℕ × ℕ) → Option (ℕ × ℕ × ℕ)
check_size c size none = none
check_size c size (some (packets, topologies, smes)) =
    if topologies * topology_size c + smes * sme_size == size
    then some (packets, topologies, smes)
    else none

-- checkTopologiesAndSMEs: the number of packets, and the topologies and elements of the packet
-- after `received` others, which has `size` bytes. checkFirstPacket calls it for the first packet
-- only where one of the two counts is not 0.
unfoldable pub packet_contents :
    (ℕ → Bool) → (ℕ → ℕ → Bool) → UplinkConfig → ℕ → ℕ → ℕ → ℕ → Option (ℕ × ℕ × ℕ)
packet_contents valid_topologies valid_smes c received topologies smes size = check_size c size (
    check_smes valid_smes c (received + 1) smes (
      check_section valid_topologies (c.num_uplink_packets - 1) (topology_size c) (other_capacity c)
        (received + 1) topologies (first_capacity c) 1))
