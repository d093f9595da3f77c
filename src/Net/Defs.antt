-- ===== src/Net/Defs.antt =====
-- Sending and handling packets in kernel/net/net.c: ARP, IPv4 and ICMP echo.
use micro_os.Base.{
  ℕ, zero, suc, ◌+◌, ◌-◌, ◌%◌, ◌^◌, Bool, true, false, not, ◌&&◌, Option, none, some, List, [], ◌∷◌,
  ◌++◌, ◌==◌, ltb, if◌then◌else◌, length, get_or, take, drop, replicate,
}
use micro_os.Net.State.{
  Bytes, ethertype_ipv4, ethertype_arp, ip_proto_icmp, icmp_echo_reply, icmp_echo_request,
  arp_cache_size, ArpEntry, Net, same_bytes, arp_lookup, empty_entry, entry_at, arp_insert,
}
use micro_os.Net.Sums.{ip_checksum, htons, ntohs, word, field}

abbrev pub transmit : Net → Bytes → Net
transmit n frame = record n { sent = n.sent ++ (frame ∷ []) }

-- `false` is the return of -1; otherwise the result is the driver's.
unfoldable pub send_frame : Net → Bytes → ℕ → Bytes → Bool × Net
send_frame n dst_mac ethertype payload =
    if ltb 1518 ((14 + length payload) % 2 ^ 16)
    then (false, n)
    else (true, transmit n (dst_mac ++ (n.our_mac ++ (htons ethertype ++ payload))))

abbrev pub arp_pkt : ℕ → Bytes → Bytes → Bytes → Bytes → Bytes
arp_pkt op sender_mac sender_ip target_mac target_ip =
    htons 1
    ++ (htons 0x0800
        ++ (6 ∷ 4 ∷ (htons op ++ (sender_mac ++ (sender_ip ++ (target_mac ++ target_ip))))))

unfoldable pub arp_send_reply : Net → Bytes → Bytes → Net
arp_send_reply n dst_mac dst_ip =
    (send_frame n dst_mac ethertype_arp (arp_pkt 2 n.our_mac n.our_ip dst_mac dst_ip)).1

unfoldable pub arp_send_request : Net → Bytes → Net
arp_send_request n target_ip =
    (send_frame n (replicate 6 0xFF) ethertype_arp
      (arp_pkt 1 n.our_mac n.our_ip (replicate 6 0xFF) target_ip)).1

unfoldable pub handle_arp : Net → Bytes → Net
handle_arp n pkt =
    if ltb (length pkt) 28
    then n
    else (let n1 = record n {
      arp_cache = arp_insert n.arp_cache (field pkt 14 4) (field pkt 8 6);
    } in
        if (ntohs pkt 6 == 1) && same_bytes (field pkt 24 4) n.our_ip
        then arp_send_reply n1 (field pkt 8 6) (field pkt 14 4)
        else n1)

-- The address for `ip` in the cache.
abbrev pub mac_at : List ArpEntry → Option ℕ → Option Bytes
mac_at es none = none
mac_at es (some i) = some (entry_at es i).mac

abbrev pub cached : List ArpEntry → Bytes → Option Bytes
cached es ip = mac_at es (arp_lookup es ip)

abbrev pub broadcast_ip : Bytes
broadcast_ip = replicate 4 255

-- The loop of one attempt: `poll` is what the driver's poll does to the state, with the frames it
-- hands to `net_rx`, and `rounds` the number of polls before the deadline.
unfoldable pub poll_for : (Net → Net) → Net → Bytes → ℕ → Option Bytes × Net
poll_for poll n ip zero = (none, n)
poll_for poll n ip (suc rounds) =
    let n1 = poll n in
    let rest = poll_for poll n1 ip rounds in
    elim (cached n1.arp_cache ip) [ some mac ↦ (some mac, n1) | none ↦ rest ]

-- The attempts: one for each number of rounds.
unfoldable pub attempts : (Net → Net) → Net → Bytes → List ℕ → Option Bytes × Net
attempts poll n ip [] = (none, n)
attempts poll n ip (rounds ∷ more) =
    let (found, n1) = poll_for poll (arp_send_request n ip) ip rounds in
    let rest = attempts poll n1 ip more in elim found [ some mac ↦ (some mac, n1) | none ↦ rest ]

unfoldable pub arp_resolve : (Net → Net) → ℕ → Net → Bytes → Option Bytes × Net
arp_resolve poll rounds n ip =
    if same_bytes ip broadcast_ip
    then (some (replicate 6 0xFF), n)
    else elim (cached n.arp_cache ip) [
      | some mac ↦ (some mac, n)
      | none ↦ attempts poll n ip (rounds ∷ rounds ∷ rounds ∷ [])
    ]

-- The header with the given checksum.
abbrev pub ipv4_hdr : Bytes → Bytes → ℕ → ℕ → ℕ → Bytes
ipv4_hdr src dst protocol total_len checksum =
    0x45
    ∷ 0
    ∷ (htons total_len ++ (0 ∷ 0 ∷ 0 ∷ 0 ∷ 64 ∷ protocol ∷ (word checksum ++ (src ++ dst))))

unfoldable pub ipv4_pkt : Bytes → Bytes → ℕ → Bytes → Bytes
ipv4_pkt src dst protocol payload =
    let total_len = 20 + length payload in
    ipv4_hdr src dst protocol total_len (ip_checksum (ipv4_hdr src dst protocol total_len 0))
    ++ payload

-- The frame for a resolved address. `none` is the return of -1 where it is not, `some false` where
-- the frame is too long. A payload above 1480 bytes would overrun the local buffer; no caller has one.
abbrev pub send_to : Option Bytes × Net → Bytes → ℕ → Bytes → Option Bool × Net
send_to (none, n) dst_ip protocol payload = (none, n)
send_to (some mac, n) dst_ip protocol payload =
    let (ok, n1) = send_frame n mac ethertype_ipv4 (ipv4_pkt n.our_ip dst_ip protocol payload) in
    (some ok, n1)

unfoldable pub send_ipv4 : (Net → Net) → ℕ → Net → Bytes → ℕ → Bytes → Option Bool × Net
send_ipv4 poll rounds n dst_ip protocol payload =
    send_to (arp_resolve poll rounds n dst_ip) dst_ip protocol payload

-- The ICMP header and its data with the given checksum.
abbrev pub icmp_msg : ℕ → ℕ → ℕ → Bytes → Bytes
icmp_msg type code checksum rest = type ∷ code ∷ (word checksum ++ rest)

unfoldable pub with_checksum : ℕ → ℕ → Bytes → Bytes
with_checksum type code rest = icmp_msg type code (ip_checksum (icmp_msg type code 0 rest)) rest

-- The reply to an echo request: its identifier, number and data with the type changed.
unfoldable pub echo_reply : Bytes → Bytes
echo_reply icmp = with_checksum icmp_echo_reply (get_or icmp 1 0) (drop 4 icmp)

-- `src` is the source of the packet, `now` the tick. The result is the low 32 bits of the difference,
-- which the code reads as an `int`.
unfoldable pub handle_icmp : (Net → Net) → ℕ → Net → ℕ → Bytes → Bytes → Net
handle_icmp poll rounds n now packet src =
    if ltb (length packet) 28
    then n
    else (let icmp = drop 20 packet in
        let reply = (send_ipv4 poll rounds n src ip_proto_icmp (echo_reply icmp)).1 in
        if not (ip_checksum icmp == 0)
        then n
        else if (get_or icmp 0 0 == icmp_echo_request) && (get_or icmp 1 0 == 0)
        then (if ltb 1480 (length icmp) then n else reply)
        else if (get_or icmp 0 0 == icmp_echo_reply)
            && (n.ping_pending && (ntohs icmp 6 == n.ping_seq))
        then record n {
          ping_result = some ((now + 2 ^ 64 - n.ping_sent_tick) % 2 ^ 32);
          ping_pending = false;
        }
        else n)

unfoldable pub handle_ipv4 : (Net → Net) → ℕ → Net → ℕ → Bytes → Net
handle_ipv4 poll rounds n now pkt =
    if ltb (length pkt) 20
    then n
    else if not (same_bytes (field pkt 16 4) n.our_ip)
        && not (same_bytes (field pkt 16 4) broadcast_ip)
    then n
    else if not (ip_checksum (take 20 pkt) == 0)
    then n
    else if get_or pkt 9 0 == ip_proto_icmp
    then handle_icmp poll rounds n now (take (ntohs pkt 2) pkt) (field pkt 12 4)
    else n

unfoldable pub net_rx : (Net → Net) → ℕ → Net → ℕ → Bytes → Net
net_rx poll rounds n now frame =
    if ltb (length frame) 14
    then n
    else (let payload = drop 14 frame in
        if ntohs frame 12 == ethertype_arp
        then handle_arp n payload
        else if ntohs frame 12 == ethertype_ipv4
        then handle_ipv4 poll rounds n now payload
        else n)

-- `mac` is the address of the driver.
unfoldable pub net_init : Net → Bytes → Bytes → Net
net_init n ip mac = record n {
  our_ip = ip;
  our_mac = mac;
  arp_cache = replicate arp_cache_size empty_entry;
  ping_pending = false;
  ping_seq = 0;
  net_up = true;
}

-- The request with its number.
unfoldable pub echo_request : ℕ → Bytes
echo_request seq = with_checksum icmp_echo_request 0 (htons 0x1234 ++ htons seq)

unfoldable pub net_ping : (Net → Net) → ℕ → Net → ℕ → Bytes → Option Bool × Net
net_ping poll rounds n now dst_ip =
    let seq = (n.ping_seq + 1) % 2 ^ 16 in
    let n1 = record n {
      ping_seq = seq;
      ping_pending = true;
      ping_result = none;
      ping_sent_tick = now;
    } in
    let asked = send_ipv4 poll rounds n1 dst_ip ip_proto_icmp (echo_request seq) in
    if not n.net_up then (none, n) else asked

-- The loop of `net_ping_check`, for at most `rounds` polls before the deadline.
unfoldable pub await_reply : (Net → Net) → Net → ℕ → Net
await_reply poll n zero = n
await_reply poll n (suc rounds) =
    let rest = await_reply poll (poll n) rounds in if n.ping_pending then rest else n

unfoldable pub net_ping_check : (Net → Net) → ℕ → Net → Option ℕ × Net
net_ping_check poll rounds n =
    let n1 = await_reply poll n rounds in if not n.net_up then (none, n) else (n1.ping_result, n1)
