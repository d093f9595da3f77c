-- ===== src/Net/State.antt =====
-- The state of kernel/net/net.c and its ARP cache.
-- A frame is the list of its bytes; an address is a list of 4 or 6 bytes. The frames given to the
-- driver are kept in `sent`, the last one at the end.
use micro_os.Base.{
  ℕ, suc, Bool, true, false, not, ◌&&◌, Option, none, some, List, [], ◌∷◌, ◌==◌, if◌then◌else◌,
  get_or, set, replicate,
}

abbrev pub Bytes : Type 0
Bytes = List ℕ

abbrev pub ethertype_ipv4 : ℕ
ethertype_ipv4 = 0x0800

abbrev pub ethertype_arp : ℕ
ethertype_arp = 0x0806

abbrev pub ip_proto_icmp : ℕ
ip_proto_icmp = 1

abbrev pub icmp_echo_reply : ℕ
icmp_echo_reply = 0

abbrev pub icmp_echo_request : ℕ
icmp_echo_request = 8

abbrev pub arp_cache_size : ℕ
arp_cache_size = 16

pub record ArpEntry : Type 0 where
  pub ip : Bytes
  pub mac : Bytes
  pub valid : Bool

-- `ping_result` is `none` for -1.
pub record Net : Type 0 where
  pub our_mac : Bytes
  pub our_ip : Bytes
  pub net_up : Bool
  pub arp_cache : List ArpEntry
  pub ping_pending : Bool
  pub ping_sent_tick : ℕ
  pub ping_seq : ℕ
  pub ping_result : Option ℕ
  pub sent : List Bytes

-- `memcmp(a, b, n) == 0` for arrays of the same length.
unfoldable pub same_bytes : Bytes → Bytes → Bool
same_bytes [] [] = true
same_bytes [] (y ∷ b) = false
same_bytes (x ∷ a) [] = false
same_bytes (x ∷ a) (y ∷ b) = (x == y) && same_bytes a b

abbrev pub next_index : Option ℕ → Option ℕ
next_index none = none
next_index (some i) = some (suc i)

-- The index of the entry for `ip`.
unfoldable pub arp_lookup : List ArpEntry → Bytes → Option ℕ
arp_lookup [] ip = none
arp_lookup (e ∷ es) ip =
    let rest = arp_lookup es ip in if e.valid && same_bytes e.ip ip then some 0 else next_index rest

-- The index of the first free entry.
unfoldable pub free_entry : List ArpEntry → Option ℕ
free_entry [] = none
free_entry (e ∷ es) = let rest = free_entry es in if not e.valid then some 0 else next_index rest

abbrev pub empty_entry : ArpEntry
empty_entry = record { ip = replicate 4 0; mac = replicate 6 0; valid = false }

abbrev pub entry_at : List ArpEntry → ℕ → ArpEntry
entry_at es i = get_or es i empty_entry

unfoldable pub arp_insert : List ArpEntry → Bytes → Bytes → List ArpEntry
arp_insert es ip mac = elim (arp_lookup es ip) [
  | some i ↦ set es i (record (entry_at es i) { mac = mac })
  | none ↦ elim (free_entry es) [
    | some i ↦ set es i (record { ip = ip; mac = mac; valid = true })
    | none ↦ set es 0 (record (entry_at es 0) { ip = ip; mac = mac })
  ]
]
