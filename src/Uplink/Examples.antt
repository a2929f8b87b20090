-- ===== src/Uplink/Examples.antt =====
-- A message of two packets.
use tdmh.Base.{◌<◌, ◌≡◌, refl, ap, true, arith}
use tdmh.Uplink.Allocation.{
  UplinkConfig, wanted, fit, topology_size, first_capacity, other_capacity,
  compute_packet_allocation,
}
use tdmh.Uplink.Allocation.Received.{IsUsable, Agree, packet_contents-sent_counts}

abbrev config : UplinkConfig
config = record {
  neighbor_bitmask_size = 4;
  max_nodes = 32;
  use_weak_topologies = true;
  authenticate = true;
  num_uplink_packets = 2;
  guaranteed_topologies = 2;
}

config-IsUsable : IsUsable config
config-IsUsable = record { masks_fit = omega arith; some_packet = omega arith }

-- Twenty topologies and five elements are waiting.
planned :
    compute_packet_allocation config 20 5
    ≡ record { tot_packets = 2; num_topologies = 17; num_smes = 5 }
unfolding compute_packet_allocation wanted topology_size first_capacity other_capacity fit
planned = refl

two_packets : 1 < (compute_packet_allocation config 20 5).tot_packets
two_packets = omega (arith, ap (λ a. a.tot_packets) planned)

packet_contents-sent_counts_example :
    Agree (λ _. true) (λ _ _. true) config 1 (compute_packet_allocation config 20 5)
packet_contents-sent_counts_example =
    packet_contents-sent_counts config 20 5 1 (λ _. true) (λ _ _. true) config-IsUsable
      (λ n k found. (refl, refl)) two_packets
