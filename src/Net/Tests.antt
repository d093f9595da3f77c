-- ===== src/Net/Tests.antt =====
-- Runs of the network stack, and its theorems at concrete states.
use micro_os.Base.{◌≡◌, ◌⊎◌, refl, true, false, none, some, [], ◌∷◌, drop, replicate, arith}
use micro_os.Net.State.{
  Bytes, Net, empty_entry, arp_lookup, arp_insert, same_bytes, ethertype_arp, ethertype_ipv4,
}
use micro_os.Net.Sums.{fold, has_carry, ntohs}
use micro_os.Net.Defs.{net_rx, net_ping}
use micro_os.Net.Checksum.{fold-ones_sum}
use micro_os.Net.Arp.{Inserted, arp_insert-Inserted}
use micro_os.Net.Accept.{IsAddress}
use micro_os.Net.Ping.{Knows, net_ping-net_rx}
use micro_os.Net.Verify.{Verified, net_rx-Verified}

abbrev ip_a : Bytes
ip_a = 10 ∷ 0 ∷ 0 ∷ 1 ∷ []

abbrev ip_b : Bytes
ip_b = 10 ∷ 0 ∷ 0 ∷ 2 ∷ []

abbrev mac_a : Bytes
mac_a = 2 ∷ 0 ∷ 0 ∷ 0 ∷ 0 ∷ 1 ∷ []

abbrev mac_b : Bytes
mac_b = 2 ∷ 0 ∷ 0 ∷ 0 ∷ 0 ∷ 2 ∷ []

-- A host with one other host in its cache.
abbrev host : Bytes → Bytes → Bytes → Bytes → Net
host ip mac other_ip other_mac = record {
  our_mac = mac;
  our_ip = ip;
  net_up = true;
  arp_cache = record { ip = other_ip; mac = other_mac; valid = true } ∷ replicate 15 empty_entry;
  ping_pending = false;
  ping_sent_tick = 0;
  ping_seq = 0;
  ping_result = none;
  sent = [];
}

abbrev host_a : Net
host_a = host ip_a mac_a ip_b mac_b

abbrev host_b : Net
host_b = host ip_b mac_b ip_a mac_a

ip_a-IsAddress : IsAddress 4 ip_a
ip_a-IsAddress = record {
  size = refl;
  bytes = (omega arith, (omega arith, (omega arith, (omega arith, tt))));
}

ip_b-IsAddress : IsAddress 4 ip_b
ip_b-IsAddress = record {
  size = refl;
  bytes = (omega arith, (omega arith, (omega arith, (omega arith, tt))));
}

a-Knows : Knows host_a ip_b mac_b
unfolding same_bytes arp_lookup
a-Knows = record {
  our_ip = ip_a-IsAddress;
  our_mac = refl;
  their_ip = ip_b-IsAddress;
  their_mac = refl;
  single = refl;
  known = refl;
}

b-Knows : Knows host_b ip_a mac_a
unfolding same_bytes arp_lookup
b-Knows = record {
  our_ip = ip_b-IsAddress;
  our_mac = refl;
  their_ip = ip_a-IsAddress;
  their_mac = refl;
  single = refl;
  known = refl;
}

-- No frame arrives during a poll.
abbrev quiet : Net → Net
quiet n = n

net_ping-net_rx_example :
    (request : Bytes) × (reply : Bytes) × (let a1 = (net_ping quiet 0 host_a 100 ip_b).1 in
      let b1 = net_rx quiet 0 host_b 7 request in
      let a2 = net_rx quiet 0 a1 103 reply in
      (a1.sent ≡ request ∷ [])
      × (b1.sent ≡ reply ∷ [])
      × (a2.ping_pending ≡ false)
      × (a2.ping_result ≡ some 3))
net_ping-net_rx_example = net_ping-net_rx quiet 0 host_a host_b 100 7 103 refl a-Knows b-Knows

net_rx-Verified_example :
    (net_rx quiet 0 host_a 1 (replicate 60 0) ≡ host_a)
    ⊎ ((ntohs (replicate 60 0) 12 ≡ ethertype_arp)
        ⊎ ((ntohs (replicate 60 0) 12 ≡ ethertype_ipv4)
            × Verified host_a (drop 14 (replicate 60 0))))
net_rx-Verified_example = net_rx-Verified quiet 0 host_a 1 (replicate 60 0)

arp_insert-Inserted_example :
    Inserted host_a.arp_cache ip_a mac_a (arp_insert host_a.arp_cache ip_a mac_a)
arp_insert-Inserted_example = arp_insert-Inserted host_a.arp_cache ip_a mac_a (omega arith)

fold-ones_sum_example : (has_carry (fold 0x2FFFE) ≡ false) × (fold 0x2FFFE ≡ 1)
fold-ones_sum_example = fold-ones_sum 0x2FFFE (omega arith)
