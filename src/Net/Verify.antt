-- ===== src/Net/Verify.antt =====
-- A frame that is no ARP packet has an effect only if it passes the checks.
use micro_os.Base.{
  ℕ, ◌≡◌, ◌≤◌, ◌⊎◌, inl, inr, refl, true, not, ◌&&◌, ◌||◌, ◌==◌, ltb, length, take, drop, get_or,
  Bool-cases, arith,
}
use micro_os.Net.State.{Bytes, Net, same_bytes, ethertype_arp, ethertype_ipv4}
use micro_os.Net.Sums.{ip_checksum, ntohs, field}
use micro_os.Net.Defs.{broadcast_ip, handle_icmp, handle_ipv4, net_rx}

-- The packet is an ICMP message for us or for everyone, with both checksums right.
pub record Verified (n : Net) (pkt : Bytes) : Type 0 where
  pub for_us :
      (same_bytes (field pkt 16 4) n.our_ip || same_bytes (field pkt 16 4) broadcast_ip) ≡ true
  pub header : ip_checksum (take 20 pkt) ≡ 0
  pub protocol : get_or pkt 9 0 ≡ 1
  pub whole : 28 ≤ length (take (ntohs pkt 2) pkt)
  pub message : ip_checksum (drop 20 (take (ntohs pkt 2) pkt)) ≡ 0

module _ (poll : Net → Net) (rounds : ℕ) (n : Net) (now : ℕ) where
  handle_icmp-checked :
      (packet src : Bytes)
      → (handle_icmp poll rounds n now packet src ≡ n)
        ⊎ ((28 ≤ length packet) × (ip_checksum (drop 20 packet) ≡ 0))
  unfolding handle_icmp
  handle_icmp-checked packet src = elim (Bool-cases (ltb (length packet) 28)) [
    | inl short ↦ inl (rw short refl)
    | inr long ↦ elim (Bool-cases (ip_checksum (drop 20 packet) == 0)) [
      | inl good ↦ inr (ground (arith, long), ground (arith, good))
      | inr bad ↦ inl (rw (long, bad) refl)
    ]
  ]

  handle_ipv4-Verified : (pkt : Bytes) → (handle_ipv4 poll rounds n now pkt ≡ n) ⊎ Verified n pkt
  unfolding handle_ipv4
  handle_ipv4-Verified pkt = elim (Bool-cases (ltb (length pkt) 20)) [
    | inl short ↦ inl (rw short refl)
    | inr long ↦
        elim (Bool-cases (
          not (same_bytes (field pkt 16 4) n.our_ip)
          && not (same_bytes (field pkt 16 4) broadcast_ip))) [
            | inl other ↦ inl (rw (long, other) refl)
            | inr ours ↦ elim (Bool-cases (ip_checksum (take 20 pkt) == 0)) [
              | inr bad ↦ inl (rw (long, ours, bad) refl)
              | inl good ↦ elim (Bool-cases (get_or pkt 9 0 == 1)) [
                | inr other ↦ inl (rw (long, ours, good, other) refl)
                | inl icmp ↦ elim (handle_icmp-checked (take (ntohs pkt 2) pkt) (field pkt 12 4)) [
                  | inl same ↦ inl (rw (long, ours, good, icmp) same)
                  | inr (whole, message) ↦ inr (record {
                    for_us = ground (arith, ours);
                    header = ground (arith, good);
                    protocol = ground (arith, icmp);
                    whole = whole;
                    message = message;
                  })
                ]
              ]
            ]
          ]
  ]

  -- A frame leaves the state as it is, or has the Ethernet type of ARP, or has the type of IPv4 and
  -- carries an ICMP message for this host or for everyone, whose IP header and whole message have
  -- right checksums.
  pub net_rx-Verified :
      (frame : Bytes)
      → (net_rx poll rounds n now frame ≡ n)
        ⊎ ((ntohs frame 12 ≡ ethertype_arp)
            ⊎ ((ntohs frame 12 ≡ ethertype_ipv4) × Verified n (drop 14 frame)))
  unfolding net_rx
  net_rx-Verified frame = elim (Bool-cases (ltb (length frame) 14)) [
    | inl short ↦ inl (rw short refl)
    | inr long ↦ elim (Bool-cases (ntohs frame 12 == ethertype_arp)) [
      | inl arp ↦ inr (inl (ground (arith, arp)))
      | inr other ↦ elim (Bool-cases (ntohs frame 12 == ethertype_ipv4)) [
        | inr unknown ↦ inl (rw (long, other, unknown) refl)
        | inl ipv4 ↦ elim (handle_ipv4-Verified (drop 14 frame)) [
          | inl same ↦ inl (rw (long, other, ipv4) same)
          | inr checked ↦ inr (inr (ground (arith, ipv4), checked))
        ]
      ]
    ]
  ]
