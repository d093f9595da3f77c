-- ===== src/Net/Ping.antt =====
-- A ping between two hosts that run kernel/net/net.c.
use micro_os.Base.{
  ℕ, ◌+◌, ◌-◌, ◌%◌, ◌^◌, ◌<◌, ◌≤◌, ◌≡◌, refl, ap, ◌∙◌, Bool, true, false, not, Option, none, some,
  [], ◌∷◌, ◌++◌, if◌then◌else◌, length, arith,
}
use micro_os.Net.State.{Bytes, Net, same_bytes, ip_proto_icmp}
use micro_os.Net.Defs.{
  cached, ipv4_pkt, with_checksum, echo_reply, echo_request, transmit, handle_icmp, net_rx,
  net_ping, broadcast_ip,
}
use micro_os.Net.Sums.{ip_checksum, htons}
use micro_os.Net.Checksum.{IsBytes, ip_checksum-word}
use micro_os.Net.Accept.{
  IsAddress, handle_ipv4-ipv4_pkt, handle_icmp_request, handle_icmp_reply, drop-ipv4_pkt,
  pkt_length, eth_frame, net_rx-eth_frame, send_ipv4-transmit,
}

-- An ICMP message verifies.
with_checksum_lem :
    (type code : ℕ) (rest : Bytes)
    → type < 256
    → code < 256
    → IsBytes rest
    → length rest < 65500
    → ip_checksum (with_checksum type code rest) ≡ 0
unfolding with_checksum
with_checksum_lem type code rest ht hc hr short =
    ip_checksum-word (type ∷ code ∷ []) rest (ht, (hc, tt)) hr refl (omega (arith, short))

length-with_checksum :
    (type code : ℕ) (rest : Bytes) → length (with_checksum type code rest) ≡ 4 + length rest
unfolding with_checksum
length-with_checksum type code rest = omega arith

-- What a host needs to exchange packets with the host at `ip` and `mac`.
pub record Knows (n : Net) (ip mac : Bytes) : Type 0 where
  pub our_ip : IsAddress 4 n.our_ip
  pub our_mac : length n.our_mac ≡ 6
  pub their_ip : IsAddress 4 ip
  pub their_mac : length mac ≡ 6
  pub single : same_bytes ip broadcast_ip ≡ false
  pub known : cached n.arp_cache ip ≡ some mac

-- The frame with an ICMP message.
abbrev pub icmp_frame : Bytes → Bytes → Bytes → Bytes → Bytes → Bytes
icmp_frame dst_mac src_mac src dst message =
    eth_frame dst_mac src_mac (ipv4_pkt src dst ip_proto_icmp message)

-- A message that arrives in a frame for us goes to `handle_icmp`.
arrives :
    (poll : Net → Net) (rounds : ℕ) (n : Net) (now : ℕ) (ip mac message : Bytes)
    → Knows n ip mac
    → length message ≤ 1480
    → net_rx poll rounds n now (icmp_frame n.our_mac mac ip n.our_ip message)
      ≡ handle_icmp poll rounds n now (ipv4_pkt ip n.our_ip ip_proto_icmp message) ip
arrives poll rounds n now ip mac message k fits =
    net_rx-eth_frame poll rounds n now n.our_mac mac _ k.our_mac k.their_mac
    ∙ handle_ipv4-ipv4_pkt ip n.our_ip ip_proto_icmp message k.their_ip k.our_ip (omega arith)
        (omega (arith, fits)) poll rounds n now refl refl

pub net_rx-echo :
    (poll : Net → Net) (rounds : ℕ) (n : Net) (now : ℕ) (ip mac rest : Bytes)
    → Knows n ip mac
    → IsBytes rest
    → 4 ≤ length rest
    → length rest ≤ 1476
    → net_rx poll rounds n now (icmp_frame n.our_mac mac ip n.our_ip (with_checksum 8 0 rest))
      ≡ transmit n (icmp_frame mac n.our_mac n.our_ip ip (with_checksum 0 0 rest))
unfolding with_checksum echo_reply
net_rx-echo poll rounds n now ip mac rest k bytes long short =
    let message = with_checksum 8 0 rest in
    let size = length-with_checksum 8 0 rest in
    arrives poll rounds n now ip mac message k (omega (arith, size, short))
    ∙ handle_icmp_request poll rounds n now (ipv4_pkt ip n.our_ip ip_proto_icmp message) message ip
        (omega (
          arith,
          size,
          long,
          pkt_length ip n.our_ip ip_proto_icmp message k.their_ip k.our_ip (omega arith)
              (omega (arith, size, short)),
        ))
        (drop-ipv4_pkt ip n.our_ip ip_proto_icmp message k.their_ip k.our_ip (omega arith)
          (omega (arith, size, short)))
        (with_checksum_lem 8 0 rest (omega arith) (omega arith) bytes (omega (arith, short))) refl
        refl (omega (arith, size, short))
    ∙ ap (λ (r : Option Bool × Net). r.1)
        (send_ipv4-transmit poll rounds n ip mac (with_checksum 0 0 rest) k.single k.known k.our_ip
          k.their_ip (omega (arith, length-with_checksum 0 0 rest, short)))

-- The body of an echo request: identifier and number.
abbrev pub ping_body : ℕ → Bytes
ping_body seq = htons 0x1234 ++ htons seq

abbrev pub asking : Net → ℕ → Net
asking n now = record n {
  ping_seq = (n.ping_seq + 1) % 2 ^ 16;
  ping_pending = true;
  ping_result = none;
  ping_sent_tick = now;
}

-- A ping hands one frame to the driver.
net_ping-transmit :
    (poll : Net → Net) (rounds : ℕ) (n : Net) (now : ℕ) (ip mac : Bytes)
    → n.net_up ≡ true
    → Knows n ip mac
    → net_ping poll rounds n now ip ≡ (
      some true,
      transmit (asking n now) (
          icmp_frame mac n.our_mac n.our_ip ip
            (with_checksum 8 0 (ping_body ((n.ping_seq + 1) % 2 ^ 16)))),
    )
unfolding net_ping echo_request
net_ping-transmit poll rounds n now ip mac up k =
    when_up _ _ n.net_up up
    ∙ (send_ipv4-transmit poll rounds (asking n now) ip mac
        (with_checksum 8 0 (ping_body ((n.ping_seq + 1) % 2 ^ 16))) k.single k.known k.our_ip
        k.their_ip
        (omega (arith, length-with_checksum 8 0 (ping_body ((n.ping_seq + 1) % 2 ^ 16)))))
  where
    when_up : (r q : Option Bool × Net) (up : Bool) → up ≡ true → (if not up then r else q) ≡ q
    when_up r q true h = refl
    when_up r q false h = absurd (cc h)

-- The reply that a host gets to the number it waits for ends the ping with the ticks in between.
reply_ends :
    (poll : Net → Net) (rounds : ℕ) (n : Net) (now : ℕ) (ip mac : Bytes)
    → Knows n ip mac
    → n.ping_pending ≡ true
    → n.ping_seq < 2 ^ 16
    → net_rx poll rounds n now
        (icmp_frame n.our_mac mac ip n.our_ip (with_checksum 0 0 (ping_body n.ping_seq)))
      ≡ record n {
        ping_result = some ((now + 2 ^ 64 - n.ping_sent_tick) % 2 ^ 32);
        ping_pending = false;
      }
unfolding with_checksum
reply_ends poll rounds n now ip mac k pending seq =
    let message = with_checksum 0 0 (ping_body n.ping_seq) in
    let size = length-with_checksum 0 0 (ping_body n.ping_seq) in
    arrives poll rounds n now ip mac message k (omega (arith, size))
    ∙ handle_icmp_reply poll rounds n now (ipv4_pkt ip n.our_ip ip_proto_icmp message) message ip
        (omega (
          arith,
          size,
          pkt_length ip n.our_ip ip_proto_icmp message k.their_ip k.our_ip (omega arith)
              (omega (arith, size)),
        ))
        (drop-ipv4_pkt ip n.our_ip ip_proto_icmp message k.their_ip k.our_ip (omega arith)
          (omega (arith, size)))
        (with_checksum_lem 0 0 (ping_body n.ping_seq) (omega arith) (omega arith)
          (omega arith, (omega arith, (omega arith, (omega arith, tt)))) (omega arith))
        refl pending (omega (arith, seq))

-- Two hosts have each other in the cache. The first pings at `t0`, the second handles the frame at
-- `t1`, and the first handles the answer at `t2`: the second host sends one frame for the first one's, and with it the first ends
-- its ping with the ticks between sending and receiving.
pub net_ping-net_rx :
    (poll : Net → Net) (rounds : ℕ) (a b : Net) (t0 t1 t2 : ℕ)
    → a.net_up ≡ true
    → Knows a b.our_ip b.our_mac
    → Knows b a.our_ip a.our_mac
    → (request : Bytes) × (reply : Bytes) × (let a1 = (net_ping poll rounds a t0 b.our_ip).1 in
        let b1 = net_rx poll rounds b t1 request in
        let a2 = net_rx poll rounds a1 t2 reply in
        (a1.sent ≡ a.sent ++ (request ∷ []))
        × (b1.sent ≡ b.sent ++ (reply ∷ []))
        × (a2.ping_pending ≡ false)
        × (a2.ping_result ≡ some ((t2 + 2 ^ 64 - t0) % 2 ^ 32)))
net_ping-net_rx poll rounds a b t0 t1 t2 up ka kb =
    let seq = (a.ping_seq + 1) % 2 ^ 16 in
    let request =
      icmp_frame b.our_mac a.our_mac a.our_ip b.our_ip (with_checksum 8 0 (ping_body seq)) in
    let reply =
      icmp_frame a.our_mac b.our_mac b.our_ip a.our_ip (with_checksum 0 0 (ping_body seq)) in
    let a1 = transmit (asking a t0) request in
    let sent = net_ping-transmit poll rounds a t0 b.our_ip b.our_mac up ka in
    let echo =
      net_rx-echo poll rounds b t1 a.our_ip a.our_mac (ping_body seq) kb
        (omega arith, (omega arith, (omega arith, (omega arith, tt)))) (omega arith)
        (omega arith) in
    let k1 : Knows a1 b.our_ip b.our_mac = record {
      our_ip = ka.our_ip;
      our_mac = ka.our_mac;
      their_ip = ka.their_ip;
      their_mac = ka.their_mac;
      single = ka.single;
      known = ka.known;
    } in
    let done = reply_ends poll rounds a1 t2 b.our_ip b.our_mac k1 refl (omega arith) in
    let after : net_rx poll rounds (net_ping poll rounds a t0 b.our_ip).1 t2 reply
        ≡ net_rx poll rounds a1 t2 reply =
      ap (λ (r : Option Bool × Net). net_rx poll rounds r.1 t2 reply) sent in
    (
      request,
      reply,
      (
        ap (λ (r : Option Bool × Net). r.1.sent) sent,
        ap (λ (n : Net). n.sent) echo,
        ap (λ (n : Net). n.ping_pending) (after ∙ done),
        ap (λ (n : Net). n.ping_result) (after ∙ done),
      ),
    )
