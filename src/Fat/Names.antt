-- ===== src/Fat/Names.antt =====
-- The buffer of a long name.
use micro_os.Base.{
  ℕ, ◌+◌, ◌-◌, ◌*◌, ◌%◌, ◌<◌, ◌≡◌, refl, true, false, inl, inr, ◌∙◌, ◌||◌, if◌then◌else◌, List, [],
  ◌∷◌, ◌==◌, ltb, leb, length, length-set, length-replicate, get_or, max, Bool-cases, arith,
}
use micro_os.Fat.Volume.{Bytes, fat32_max_name}
use micro_os.Fat.Entries.{
  Lfn, ℤ, pos, negsuc, seq_of, base_of, at_least, grow_len, put_char, lfn_reset, append_chars,
  lfn_chars, lfn_append,
}

-- The name with its final NUL fits in the buffer, and no write has missed the buffer.
pub record IsValid (l : Lfn) : Type 0 where
  pub size : length l.lfn_buf ≡ fat32_max_name
  pub fits : l.lfn_len < fat32_max_name
  pub kept : l.stray ≡ false

pub lfn_reset-IsValid : IsValid lfn_reset
lfn_reset-IsValid = record {
  size = length-replicate {A = ℕ} fat32_max_name 0;
  fits = omega arith;
  kept = refl;
}

put_char-IsValid :
    (l : Lfn) (n c : ℕ)
    → IsValid l
    → n < fat32_max_name - 1
    → let s = put_char l (pos n) c in
      IsValid (record s { lfn_len = grow_len s.lfn_len (pos (n + 1)) })
put_char-IsValid l n c v h =
    let inside : ltb n fat32_max_name ≡ true = ground arith in
    rw inside (record {
      size = length-set l.lfn_buf n c ∙ v.size;
      fits = ground (arith, v.fits);
      kept = v.kept;
    })

append_chars-IsValid :
    (cs : List ℕ) (l : Lfn) (n : ℕ) → IsValid l → IsValid (append_chars l cs (pos n))
unfolding append_chars
append_chars-IsValid [] l n v = v
append_chars-IsValid (c ∷ cs) l n v = elim (Bool-cases (leb (fat32_max_name - 1) n)) [
  | inl past ↦ rw past v
  | inr inside ↦ elim (Bool-cases ((c == 0) || (c == 0xFFFF))) [
    | inl fill ↦
        rw (inside, fill)
          (append_chars-IsValid cs (record l { lfn_len = max l.lfn_len n }) (n + 1)
            (record { size = v.size; fits = ground (arith, inside, v.fits); kept = v.kept }))
    | inr char ↦
        rw (inside, char)
          (append_chars-IsValid cs _ (n + 1)
            (put_char-IsValid l n (if ltb c 128 then c else b'?') v (ground (arith, inside))))
  ]
]

-- The calls for the long-name entries of a directory, in any order.
unfoldable pub append_all : Lfn → List Bytes → Lfn
append_all l [] = l
append_all l (e ∷ es) = append_all (lfn_append l e) es

IsValid-name : (l : Lfn) → IsValid l → IsValid (record l { lfn_valid = true })
IsValid-name l v = record { size = v.size; fits = v.fits; kept = v.kept }

appended :
    (l : Lfn) (cs : List ℕ) (seq : ℤ)
    → IsValid l
    → at_least 0 seq ≡ true
    → IsValid (append_chars l cs (base_of seq))
appended l cs (pos n) v h = append_chars-IsValid cs l (n * 13) v
appended l cs (negsuc n) v h = absurd (cc h)

lfn_append-IsValid : (l : Lfn) (e : Bytes) → IsValid l → IsValid (lfn_append l e)
unfolding lfn_append
lfn_append-IsValid l e v =
    let seq = seq_of (get_or e 0 0 % 64) in
    elim (Bool-cases (at_least 0 seq)) [
      | inr negative ↦ rw negative v
      | inl zero_on ↦ elim (Bool-cases (at_least (fat32_max_name - 13 + 1) (base_of seq))) [
        | inl past ↦ rw (zero_on, past) v
        | inr inside ↦
            rw (zero_on, inside) (IsValid-name _ (appended l (lfn_chars e) seq v zero_on))
      ]
    ]

-- Whatever the long-name entries on the disk hold, their sequence numbers included: every character
-- is written inside the buffer, and the name collected and its final NUL fit in it.
pub append_all-IsValid : (es : List Bytes) (l : Lfn) → IsValid l → IsValid (append_all l es)
unfolding append_all
append_all-IsValid [] l v = v
append_all-IsValid (e ∷ es) l v = append_all-IsValid es (lfn_append l e) (lfn_append-IsValid l e v)
