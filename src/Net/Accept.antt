-- ===== src/Net/Accept.antt =====
-- What the receiving side of kernel/net/net.c makes of a packet that the sending side builds.
use micro_os.Base.{
  append_assoc, All-append, ℕ, zero, suc, ◌+◌, ◌-◌, ◌%◌, ◌^◌, ◌<◌, ◌≤◌, ◌≡◌, refl, ap, ◌∙◌, true,
  false, some, [], ◌∷◌, ◌++◌, ◌==◌, ltb, length, length-append, take, drop, get_or, arith,
}
use micro_os.Net.State.{Bytes, Net, same_bytes, ethertype_ipv4, ip_proto_icmp}
use micro_os.Net.Defs.{
  cached, ipv4_hdr, ipv4_pkt, echo_reply, arp_resolve, send_frame, send_ipv4, send_to, transmit,
  handle_icmp, handle_ipv4, net_rx, broadcast_ip,
}
use micro_os.Net.Sums.{ip_checksum, htons, ntohs, field}
use micro_os.Net.Checksum.{IsBytes, ip_checksum-word}
use micro_os.Net.Arp.{same_bytes_refl}

-- An address of `n` bytes.
pub record IsAddress (n : ℕ) (b : Bytes) : Type 0 where
  pub size : length b ≡ n
  pub bytes : IsBytes b

take_all : (n : ℕ) (b : Bytes) → length b ≤ n → take n b ≡ b
take_all zero [] h = refl
take_all zero (x ∷ b) h = absurd (omega (arith, h))
take_all (suc n) [] h = refl
take_all (suc n) (x ∷ b) h = rw (take_all n b (omega (arith, h))) refl

-- The parts of a list that starts with one of known length.
take_left : (a b : Bytes) (n : ℕ) → length a ≡ n → take n (a ++ b) ≡ a
take_left [] b zero h = refl
take_left [] b (suc n) h = absurd (omega (arith, h))
take_left (x ∷ a) b zero h = absurd (omega (arith, h))
take_left (x ∷ a) b (suc n) h = rw (take_left a b n (omega (arith, h))) refl

drop_left : (a b : Bytes) (n : ℕ) → length a ≡ n → drop n (a ++ b) ≡ b
drop_left [] b zero h = refl
drop_left [] b (suc n) h = absurd (omega (arith, h))
drop_left (x ∷ a) b zero h = absurd (omega (arith, h))
drop_left (x ∷ a) b (suc n) h = drop_left a b n (omega (arith, h))

-- The first and the second of three parts.
part_1 : (a b c : Bytes) (n : ℕ) → length a ≡ n → take n ((a ++ b) ++ c) ≡ a
part_1 a b c n h = ap (take n) (append_assoc a b c) ∙ take_left a (b ++ c) n h

part_2 :
    (a b c : Bytes) (n m : ℕ) → length a ≡ n → length b ≡ m → take m (drop n ((a ++ b) ++ c)) ≡ b
part_2 a b c n m h k =
    ap (λ l. take m (drop n l)) (append_assoc a b c)
    ∙ (ap (take m) (drop_left a (b ++ c) n h) ∙ take_left b c m k)

-- The checks of `handle_ipv4` and `handle_icmp` on a packet that passes them.
handle_ipv4_accepts :
    (poll : Net → Net) (rounds : ℕ) (n : Net) (now : ℕ) (pkt src : Bytes)
    → 20 ≤ length pkt
    → field pkt 16 4 ≡ n.our_ip
    → ip_checksum (take 20 pkt) ≡ 0
    → get_or pkt 9 0 ≡ 1
    → take (ntohs pkt 2) pkt ≡ pkt
    → field pkt 12 4 ≡ src
    → handle_ipv4 poll rounds n now pkt ≡ handle_icmp poll rounds n now pkt src
unfolding handle_ipv4
handle_ipv4_accepts poll rounds n now pkt src long for_us check proto all from =
    let enough : ltb (length pkt) 20 ≡ false = ground arith in
    rw (enough, for_us, same_bytes_refl n.our_ip, check, proto, all, from) refl

pub handle_icmp_request :
    (poll : Net → Net) (rounds : ℕ) (n : Net) (now : ℕ) (packet icmp src : Bytes)
    → 28 ≤ length packet
    → drop 20 packet ≡ icmp
    → ip_checksum icmp ≡ 0
    → get_or icmp 0 0 ≡ 8
    → get_or icmp 1 0 ≡ 0
    → length icmp ≤ 1480
    → handle_icmp poll rounds n now packet src
      ≡ (send_ipv4 poll rounds n src ip_proto_icmp (echo_reply icmp)).1
unfolding handle_icmp
handle_icmp_request poll rounds n now packet icmp src long body check type code fits =
    let enough : ltb (length packet) 28 ≡ false = ground arith in
    let small : ltb 1480 (length icmp) ≡ false = ground arith in
    rw (enough, body, check, type, code, small) refl

pub handle_icmp_reply :
    (poll : Net → Net) (rounds : ℕ) (n : Net) (now : ℕ) (packet icmp src : Bytes)
    → 28 ≤ length packet
    → drop 20 packet ≡ icmp
    → ip_checksum icmp ≡ 0
    → get_or icmp 0 0 ≡ 0
    → n.ping_pending ≡ true
    → ntohs icmp 6 ≡ n.ping_seq
    → handle_icmp poll rounds n now packet src ≡ record n {
      ping_result = some ((now + 2 ^ 64 - n.ping_sent_tick) % 2 ^ 32);
      ping_pending = false;
    }
unfolding handle_icmp
handle_icmp_reply poll rounds n now packet icmp src long body check type pending seq =
    let enough : ltb (length packet) 28 ≡ false = ground arith in
    let ours : ntohs icmp 6 == n.ping_seq ≡ true = ground (arith, seq) in
    rw (enough, body, check, type, pending, ours) refl

module _ (src dst : Bytes) (protocol : ℕ) (payload : Bytes) (s : IsAddress 4 src)
    (d : IsAddress 4 dst) (p : protocol < 256) (short : length payload < 65500) where
  header_checksum :
      ip_checksum (
        ipv4_hdr src dst protocol
          (20 + length payload)
          (ip_checksum (ipv4_hdr src dst protocol (20 + length payload) 0)))
      ≡ 0
  header_checksum =
      ip_checksum-word
        (0x45 ∷ 0 ∷ (htons (20 + length payload) ++ (0 ∷ 0 ∷ 0 ∷ 0 ∷ 64 ∷ protocol ∷ [])))
        (src ++ dst)
        (
          omega arith,
          (
            omega arith,
            (
              omega arith,
              (
                omega arith,
                (omega arith, (omega arith, (omega arith, (omega arith, (omega arith, (p, tt)))))),
              ),
            ),
          ),
        )
        (All-append (λ (x : ℕ). x < 256) src dst s.bytes d.bytes) refl
        (omega (arith, length-append src dst, s.size, d.size))

  pub pkt_length : length (ipv4_pkt src dst protocol payload) ≡ 20 + length payload
  unfolding ipv4_pkt
  pkt_length =
      omega (arith, length-append (src ++ dst) payload, length-append src dst, s.size, d.size)

  -- A packet for us with an ICMP message reaches `handle_icmp` as it was sent.
  pub handle_ipv4-ipv4_pkt :
      (poll : Net → Net) (rounds : ℕ) (n : Net) (now : ℕ)
      → dst ≡ n.our_ip
      → protocol ≡ 1
      → handle_ipv4 poll rounds n now (ipv4_pkt src dst protocol payload)
        ≡ handle_icmp poll rounds n now (ipv4_pkt src dst protocol payload) src
  unfolding ipv4_pkt
  handle_ipv4-ipv4_pkt poll rounds n now to_us icmp =
      let both : length (src ++ dst) ≡ 8 = omega (arith, length-append src dst, s.size, d.size) in
      handle_ipv4_accepts poll rounds n now (ipv4_pkt src dst protocol payload) src
        (omega (arith, pkt_length)) (part_2 src dst payload 4 4 s.size d.size ∙ to_us)
        (ap ip_checksum (rw (take_left (src ++ dst) payload 8 both) refl) ∙ header_checksum) icmp
        (take_all (ntohs (ipv4_pkt src dst protocol payload) 2) (ipv4_pkt src dst protocol payload)
          (omega (arith, pkt_length)))
        (part_1 src dst payload 4 s.size)

  pub drop-ipv4_pkt : drop 20 (ipv4_pkt src dst protocol payload) ≡ payload
  unfolding ipv4_pkt
  drop-ipv4_pkt =
      drop_left (src ++ dst) payload 8 (omega (arith, length-append src dst, s.size, d.size))

-- The frame that carries a packet.
abbrev pub eth_frame : Bytes → Bytes → Bytes → Bytes
eth_frame dst_mac src_mac pkt = dst_mac ++ (src_mac ++ (htons ethertype_ipv4 ++ pkt))

get_or_after : (a b : Bytes) (k i : ℕ) → k ≡ length a + i → get_or (a ++ b) k 0 ≡ get_or b i 0
get_or_after [] b k i h = ap (λ j. get_or b j 0) (omega (arith, h))
get_or_after (x ∷ a) b zero i h = absurd (omega (arith, h))
get_or_after (x ∷ a) b (suc k) i h = get_or_after a b k i (omega (arith, h))

drop_after : (a b : Bytes) (k i : ℕ) → k ≡ length a + i → drop k (a ++ b) ≡ drop i b
drop_after [] b k i h = ap (λ j. drop j b) (omega (arith, h))
drop_after (x ∷ a) b zero i h = absurd (omega (arith, h))
drop_after (x ∷ a) b (suc k) i h = drop_after a b k i (omega (arith, h))

net_rx_accepts :
    (poll : Net → Net) (rounds : ℕ) (n : Net) (now : ℕ) (frame pkt : Bytes)
    → 14 ≤ length frame
    → get_or frame 12 0 ≡ 8
    → get_or frame 13 0 ≡ 0
    → drop 14 frame ≡ pkt
    → net_rx poll rounds n now frame ≡ handle_ipv4 poll rounds n now pkt
unfolding net_rx
net_rx_accepts poll rounds n now frame pkt long high low body =
    let enough : ltb (length frame) 14 ≡ false = ground arith in rw (enough, high, low, body) refl

pub net_rx-eth_frame :
    (poll : Net → Net) (rounds : ℕ) (n : Net) (now : ℕ) (dst_mac src_mac pkt : Bytes)
    → length dst_mac ≡ 6
    → length src_mac ≡ 6
    → net_rx poll rounds n now (eth_frame dst_mac src_mac pkt) ≡ handle_ipv4 poll rounds n now pkt
net_rx-eth_frame poll rounds n now dst_mac src_mac pkt d s =
    net_rx_accepts poll rounds n now (eth_frame dst_mac src_mac pkt) pkt
      (omega (
        arith,
        length-append dst_mac (src_mac ++ (htons ethertype_ipv4 ++ pkt)),
        length-append src_mac (htons ethertype_ipv4 ++ pkt),
      ))
      (get_or_after dst_mac _ 12 6 (omega (arith, d))
        ∙ get_or_after src_mac _ 6 0 (omega (arith, s)))
      (get_or_after dst_mac _ 13 7 (omega (arith, d))
        ∙ get_or_after src_mac _ 7 1 (omega (arith, s)))
      (drop_after dst_mac _ 14 8 (omega (arith, d)) ∙ drop_after src_mac _ 8 2 (omega (arith, s)))

resolved :
    (poll : Net → Net) (rounds : ℕ) (n : Net) (dst mac : Bytes)
    → same_bytes dst broadcast_ip ≡ false
    → cached n.arp_cache dst ≡ some mac
    → arp_resolve poll rounds n dst ≡ (some mac, n)
unfolding arp_resolve
resolved poll rounds n dst mac single known = rw (single, known, arp_resolve) refl

-- Sending to an address in the cache hands one frame to the driver.
pub send_ipv4-transmit :
    (poll : Net → Net) (rounds : ℕ) (n : Net) (dst mac payload : Bytes)
    → same_bytes dst broadcast_ip ≡ false
    → cached n.arp_cache dst ≡ some mac
    → IsAddress 4 n.our_ip
    → IsAddress 4 dst
    → length payload ≤ 1480
    → send_ipv4 poll rounds n dst ip_proto_icmp payload ≡ (
      some true,
      transmit n (eth_frame mac n.our_mac (ipv4_pkt n.our_ip dst ip_proto_icmp payload)),
    )
unfolding send_frame send_ipv4
send_ipv4-transmit poll rounds n dst mac payload single known s d fits =
    let size : length (ipv4_pkt n.our_ip dst ip_proto_icmp payload) ≡ 20 + length payload =
      pkt_length n.our_ip dst 1 payload s d (omega arith) (omega arith) in
    let room : ltb 1518 ((14 + length (ipv4_pkt n.our_ip dst ip_proto_icmp payload)) % 2 ^ 16)
        ≡ false =
      ground (arith, size) in
    ap (λ r. send_to r dst ip_proto_icmp payload) (resolved poll rounds n dst mac single known)
    ∙ rw room refl
