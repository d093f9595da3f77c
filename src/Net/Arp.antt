-- ===== src/Net/Arp.antt =====
-- The ARP cache of kernel/net/net.c as a map from addresses.
use micro_os.Base.{
  ℕ, suc, ◌<◌, ◌≡◌, ◌⊎◌, refl, sym, ap, ◌∙◌, Bool, true, false, not, ◌&&◌, Option, none, some, List,
  [], ◌∷◌, if◌then◌else◌, length, length-set, set, Bool-cases, Option-cases, inl, inr, arith,
}
use micro_os.Net.State.{
  Bytes, ArpEntry, same_bytes, next_index, arp_lookup, free_entry, entry_at, arp_insert,
}
use micro_os.Net.Defs.{mac_at, cached}

pub same_bytes_sound : (a b : Bytes) → same_bytes a b ≡ true → a ≡ b
unfolding same_bytes
same_bytes_sound [] [] h = refl
same_bytes_sound [] (y ∷ b) h = absurd (cc h)
same_bytes_sound (x ∷ a) [] h = absurd (cc h)
same_bytes_sound (x ∷ a) (y ∷ b) h =
    let first : x ≡ y = ground (arith, h) in
    let rest : same_bytes a b ≡ true = ground (arith, h) in
    rw (first, same_bytes_sound a b rest) refl

pub same_bytes_refl : (a : Bytes) → same_bytes a a ≡ true
unfolding same_bytes
same_bytes_refl [] = refl
same_bytes_refl (x ∷ a) = ground (arith, same_bytes_refl a)

abbrev holds : ArpEntry → Bytes → Bool
holds e q = e.valid && same_bytes e.ip q

-- The first entry decides, or the rest does.
cached_first :
    (e : ArpEntry) (es : List ArpEntry) (q : Bytes)
    → holds e q ≡ true
    → cached (e ∷ es) q ≡ some e.mac
unfolding arp_lookup
cached_first e es q h =
    let first : arp_lookup (e ∷ es) q ≡ some 0 = rw h refl in ap (mac_at (e ∷ es)) first

cached_rest :
    (e : ArpEntry) (es : List ArpEntry) (q : Bytes)
    → holds e q ≡ false
    → cached (e ∷ es) q ≡ cached es q
unfolding arp_lookup
cached_rest e es q h =
    let later : arp_lookup (e ∷ es) q ≡ next_index (arp_lookup es q) = rw h refl in
    ap (mac_at (e ∷ es)) later ∙ shifted (arp_lookup es q)
  where
    shifted : (o : Option ℕ) → mac_at (e ∷ es) (next_index o) ≡ mac_at es o
    shifted none = refl
    shifted (some i) = refl

-- The map with `mac` at `ip`.
abbrev updated : List ArpEntry → Bytes → Bytes → Bytes → Option Bytes
updated es ip mac q = if same_bytes ip q then some mac else cached es q

-- The first entry becomes one for `ip`, where it held nothing but `ip`.
replaced :
    (e e' : ArpEntry) (es : List ArpEntry) (ip mac q : Bytes)
    → e'.valid ≡ true
    → e'.ip ≡ ip
    → e'.mac ≡ mac
    → (holds e q ≡ true → same_bytes ip q ≡ true)
    → cached (e' ∷ es) q ≡ updated (e ∷ es) ip mac q
replaced e e' es ip mac q valid same_ip same_mac only = elim (Bool-cases (same_bytes ip q)) [
  | inl it ↦ rw it (cached_first e' es q (rw (valid, same_ip) it) ∙ ap some same_mac)
  | inr other ↦
      let not_e : holds e q ≡ false = elim (Bool-cases (holds e q)) [
        | inl is ↦ absurd (cc (other, only is))
        | inr is ↦ is
      ] in
      rw other (cached_rest e' es q (rw (valid, same_ip) other) ∙ sym (cached_rest e es q not_e))
]

other_address :
    (e : ArpEntry) (ip q : Bytes) → holds e ip ≡ false → holds e q ≡ true → same_bytes ip q ≡ false
other_address e ip q miss here = elim (Bool-cases (same_bytes ip q)) [
  | inl it ↦ absurd (cc (miss, here, ap (holds e) (same_bytes_sound ip q it)))
  | inr other ↦ other
]

-- Below an entry that does not hold `ip`.
below :
    (e : ArpEntry) (es es' : List ArpEntry) (ip mac q : Bytes)
    → holds e ip ≡ false
    → cached es' q ≡ updated es ip mac q
    → cached (e ∷ es') q ≡ updated (e ∷ es) ip mac q
below e es es' ip mac q miss h = elim (Bool-cases (holds e q)) [
  | inl here ↦
      rw (other_address e ip q miss here)
        (cached_first e es' q here ∙ sym (cached_first e es q here))
  | inr there ↦
      cached_rest e es' q there
      ∙ h
      ∙ ap (λ o. if same_bytes ip q then some mac else o) (sym (cached_rest e es q there))
]

index_of : Option ℕ → ℕ
index_of none = 0
index_of (some i) = i

some_injective : (i j : ℕ) → some i ≡ some j → i ≡ j
unfolding index_of
some_injective i j h = ap index_of h

-- The index that a search returns: that of the first entry, or one further on.
at_some :
    (b : Bool) (o : Option ℕ) (i : ℕ)
    → (if b then some 0 else next_index o) ≡ some i
    → ((b ≡ true) × (i ≡ 0)) ⊎ ((b ≡ false) × (j : ℕ) × (i ≡ suc j) × (o ≡ some j))
at_some true o i h = inl (refl, sym (some_injective 0 i h))
at_some false none i h = absurd (cc h)
at_some false (some j) i h = inr (refl, j, sym (some_injective (suc j) i h), refl)

at_none :
    (b : Bool) (o : Option ℕ)
    → (if b then some 0 else next_index o) ≡ none
    → (b ≡ false) × (o ≡ none)
at_none true o h = absurd (cc h)
at_none false none h = (refl, refl)
at_none false (some j) h = absurd (cc h)

-- Writing the address into the entry that the search finds.
set_found :
    (es : List ArpEntry) (ip mac : Bytes) (i : ℕ)
    → arp_lookup es ip ≡ some i
    → (q : Bytes) → cached (set es i (record (entry_at es i) { mac = mac })) q ≡ updated es ip mac q
unfolding arp_lookup
set_found [] ip mac i h q = absurd (cc h)
set_found (e ∷ es) ip mac i h q = elim (at_some (holds e ip) (arp_lookup es ip) i h) [
  | inl (is, at) ↦ rw at (
      replaced e (record e { mac = mac }) es ip mac q (ground (arith, is))
        (same_bytes_sound e.ip ip (ground (arith, is))) refl
        (λ held. rw (sym (same_bytes_sound e.ip ip (ground (arith, is)))) (ground (arith, held))))
  | inr (miss, j, at, rest) ↦ rw at (
      below e es (set es j (record (entry_at es j) { mac = mac })) ip mac q miss
        (set_found es ip mac j rest q))
]

-- Taking a free entry.
set_free :
    (es : List ArpEntry) (ip mac : Bytes) (i : ℕ)
    → arp_lookup es ip ≡ none
    → free_entry es ≡ some i
    → (q : Bytes)
    → cached (set es i (record { ip = ip; mac = mac; valid = true })) q ≡ updated es ip mac q
unfolding arp_lookup free_entry
set_free [] ip mac i none_found h q = absurd (cc h)
set_free (e ∷ es) ip mac i none_found h q =
    let (miss, rest_none) = at_none (holds e ip) (arp_lookup es ip) none_found in
    elim (at_some (not e.valid) (free_entry es) i h) [
      | inl (is, at) ↦ rw at (
          replaced e (record { ip = ip; mac = mac; valid = true }) es ip mac q refl refl refl
            (λ held. absurd (ground (arith, is, held))))
      | inr (_, j, at, rest) ↦ rw at (
          below e es (set es j (record { ip = ip; mac = mac; valid = true })) ip mac q miss
            (set_free es ip mac j rest_none rest q))
    ]

-- With no free entry, the first is overwritten.
set_first :
    (e : ArpEntry) (es : List ArpEntry) (ip mac : Bytes)
    → free_entry (e ∷ es) ≡ none
    → (q : Bytes)
    → let after = cached (set (e ∷ es) 0 (record e { ip = ip; mac = mac })) q in
      (after ≡ updated (e ∷ es) ip mac q) ⊎ ((same_bytes ip q ≡ false) × (same_bytes e.ip q ≡ true))
unfolding free_entry
set_first e es ip mac none_free q =
    let (used, _) = at_none (not e.valid) (free_entry es) none_free in
    elim (Bool-cases (same_bytes e.ip q)) [
      | inl held ↦ elim (Bool-cases (same_bytes ip q)) [
        | inl it ↦ inl (
            replaced e (record e { ip = ip; mac = mac }) es ip mac q (ground (arith, used)) refl
              refl (λ _. it))
        | inr other ↦ inr (other, held)
      ]
      | inr other ↦ inl (
          replaced e (record e { ip = ip; mac = mac }) es ip mac q (ground (arith, used)) refl refl
            (λ held. absurd (ground (arith, held, other))))
    ]

-- The cache as a map, after an insertion: `mac` is at `ip`; every other address is as before, unless
-- the cache was full without `ip` and the address stood in its first entry.
pub record Inserted (es : List ArpEntry) (ip mac : Bytes) (es' : List ArpEntry) : Type 0 where
  pub size : length es' ≡ length es
  pub here : cached es' ip ≡ some mac
  pub others :
      (q : Bytes)
      → same_bytes ip q ≡ false
      → (cached es' q ≡ cached es q)
        ⊎ ((free_entry es ≡ none)
            × (arp_lookup es ip ≡ none)
            × (same_bytes (entry_at es 0).ip q ≡ true))

from_map :
    (es es' : List ArpEntry) (ip mac : Bytes)
    → length es' ≡ length es
    → ((q : Bytes) → cached es' q ≡ updated es ip mac q)
    → Inserted es ip mac es'
from_map es es' ip mac size h = record {
  size = size;
  here = h ip ∙ rw (same_bytes_refl ip) refl;
  others = λ q other. inl (h q ∙ rw other refl);
}

-- `arp_insert` on a cache that has an entry.
pub arp_insert-Inserted :
    (es : List ArpEntry) (ip mac : Bytes)
    → 0 < length es
    → Inserted es ip mac (arp_insert es ip mac)
unfolding arp_insert
arp_insert-Inserted [] ip mac h = absurd (omega (arith, h))
arp_insert-Inserted (e ∷ es) ip mac h = elim (Option-cases (arp_lookup (e ∷ es) ip)) [
  | inr (i, found) ↦
      rw (found, arp_insert)
        (from_map (e ∷ es) _ ip mac (length-set (e ∷ es) i _) (set_found (e ∷ es) ip mac i found))
  | inl missing ↦ elim (Option-cases (free_entry (e ∷ es))) [
    | inr (i, free) ↦
        rw (missing, free, arp_insert)
          (from_map (e ∷ es) _ ip mac (length-set (e ∷ es) i _)
            (set_free (e ∷ es) ip mac i missing free))
    | inl full ↦
        rw (missing, full, arp_insert)
          (record {
            size = refl;
            here = elim (set_first e es ip mac full ip) [
              | inl it ↦ it ∙ rw (same_bytes_refl ip) refl
              | inr (not_it, _) ↦ absurd (cc (not_it, same_bytes_refl ip))
            ];
            others = λ q other. elim (set_first e es ip mac full q) [
              | inl it ↦ inl (it ∙ rw other refl)
              | inr (_, held) ↦ inr (full, missing, held)
            ];
          })
  ]
]
