-- ===== src/Fat/Entries.antt =====
-- The directories of kernel/fs/fat32.c: long and short names, and the walk over the entries.
use micro_os.Base.{
  ℕ, zero, suc, ◌+◌, ◌-◌, ◌*◌, ◌/◌, ◌%◌, Bool, true, false, not, ◌&&◌, ◌||◌, Option, none, some,
  List, [], ◌∷◌, ◌++◌, ◌==◌, ltb, leb, if◌then◌else◌, get_or, set, take, drop, replicate, max,
}
use micro_os.Fat.Volume.{
  Bytes, Disk, Alloc, fat32_max_name, attr_volume_id, attr_directory, attr_lfn, Mount, word_at,
  next_cluster, read_cluster, max_clusters, in_chain,
}

-- The name that the long-name entries have given so far. `stray` tells whether a write has missed
-- `lfn_buf` since the last `lfn_reset`, which is undefined; it is no variable of the code.
pub record Lfn : Type 0 where
  pub lfn_buf : Bytes
  pub lfn_len : ℕ
  pub lfn_valid : Bool
  pub stray : Bool

-- An `int`; `negsuc n` is -(n + 1).
pub data ℤ : Type 0 where
  pos : ℕ → ℤ
  negsuc : ℕ → ℤ

-- `seq`, one less than the entry's order.
abbrev pub seq_of : ℕ → ℤ
seq_of zero = negsuc 0
seq_of (suc n) = pos n

abbrev pub next_pos : ℤ → ℤ
next_pos (pos n) = pos (n + 1)
next_pos (negsuc zero) = pos 0
next_pos (negsuc (suc n)) = negsuc n

-- `base`, which is `seq * 13`.
abbrev pub base_of : ℤ → ℤ
base_of (pos n) = pos (n * 13)
base_of (negsuc n) = negsuc (n * 13 + 12)

-- `limit <= i`
abbrev pub at_least : ℕ → ℤ → Bool
at_least limit (pos n) = leb limit n
at_least limit (negsuc n) = false

-- `if (i > len) len = i;`
abbrev pub grow_len : ℕ → ℤ → ℕ
grow_len len (pos n) = max len n
grow_len len (negsuc n) = len

-- `lfn_buf[i] = c`
abbrev pub put_char : Lfn → ℤ → ℕ → Lfn
put_char l (pos n) c =
    if ltb n fat32_max_name
    then record l { lfn_buf = set l.lfn_buf n c }
    else record l { stray = true }
put_char l (negsuc n) c = record l { stray = true }

abbrev pub lfn_reset : Lfn
lfn_reset = record {
  lfn_buf = replicate fat32_max_name 0;
  lfn_len = 0;
  lfn_valid = false;
  stray = false;
}

-- The characters of an entry from position `i` on.
unfoldable pub append_chars : Lfn → List ℕ → ℤ → Lfn
append_chars l [] i = l
append_chars l (c ∷ cs) i =
    let after_end = append_chars (record l { lfn_len = grow_len l.lfn_len i }) cs (next_pos i) in
    let stored = put_char l i (if ltb c 128 then c else b'?') in
    let after_char =
      append_chars (record stored { lfn_len = grow_len stored.lfn_len (next_pos i) }) cs
        (next_pos i) in
    if at_least (fat32_max_name - 1) i
    then l
    else if (c == 0) || (c == 0xFFFF)
    then after_end
    else after_char

-- The 13 characters of a long-name entry.
unfoldable pub lfn_chars : Bytes → List ℕ
lfn_chars e =
    word_at e 1
    ∷ word_at e 3
    ∷ word_at e 5
    ∷ word_at e 7
    ∷ word_at e 9
    ∷ word_at e 14
    ∷ word_at e 16
    ∷ word_at e 18
    ∷ word_at e 20
    ∷ word_at e 22
    ∷ word_at e 24
    ∷ word_at e 28
    ∷ word_at e 30
    ∷ []

-- The second test is `seq * 13 + 13 > FAT32_MAX_NAME`.
unfoldable pub lfn_append : Lfn → Bytes → Lfn
lfn_append l e =
    let seq = seq_of (get_or e 0 0 % 64) in
    if not (at_least 0 seq) || at_least (fat32_max_name - 13 + 1) (base_of seq)
    then l
    else record (append_chars l (lfn_chars e) (base_of seq)) { lfn_valid = true }

abbrev pub lower : ℕ → ℕ
lower c = if leb b'A' c && leb c b'Z' then c + 32 else c

-- The characters before the first space, in lower case.
unfoldable pub until_space : Bytes → Bytes
until_space [] = []
until_space (c ∷ cs) = let rest = until_space cs in if c == b' ' then [] else lower c ∷ rest

unfoldable pub short_name_to_str : Bytes → Bytes
short_name_to_str name83 =
    until_space (take 8 name83)
    ++ (if get_or name83 8 0 == b' ' then [] else b'.' ∷ until_space (take 3 (drop 8 name83)))

-- A buffer read as a string.
unfoldable pub to_text : Bytes → Bytes
to_text [] = []
to_text (c ∷ cs) = let rest = to_text cs in if c == 0 then [] else c ∷ rest

abbrev pub entry_name : Lfn → Bytes → Bytes
entry_name l e =
    to_text (if l.lfn_valid then take l.lfn_len l.lfn_buf else short_name_to_str (take 11 e))

abbrev pub attr_of : Bytes → ℕ
attr_of e = get_or e 11 0

abbrev pub is_volume_id : Bytes → Bool
is_volume_id e = attr_of e / attr_volume_id % 2 == 1

abbrev pub is_directory : Bytes → Bool
is_directory e = attr_of e / attr_directory % 2 == 1

-- An entry with its name: one call of the callback.
abbrev pub Visit : Type 0
Visit = Bytes × Bytes

-- What the entries of a cluster give: the calls, and the name so far or `none` at the end of the
-- directory.
unfoldable pub scan_entries : Lfn → Bytes → ℕ → List Visit × Option Lfn
scan_entries l b zero = ([], some l)
scan_entries l b (suc left) =
    let e = take 32 b in
    let deleted = get_or e 0 0 == 0xE5 in
    let part = attr_of e == attr_lfn in
    let l1 = (if deleted then l else if part then lfn_append l e else lfn_reset) in
    let (calls, last) = scan_entries l1 (drop 32 b) left in
    if get_or e 0 0 == 0
    then ([], none)
    else if deleted || (part || is_volume_id e)
    then (calls, last)
    else ((e, entry_name l e) ∷ calls, last)

-- The clusters of a directory, at most `steps` of them: whether it returns 0, and the calls.
unfoldable pub iterate_from : Disk → Mount → ℕ → Lfn → ℕ → Bool × List Visit
iterate_from disk m zero l cluster = (not (in_chain cluster), [])
iterate_from disk m (suc steps) l cluster =
    let next = next_cluster disk m cluster in
    if not (in_chain cluster) then (true, []) else elim (read_cluster disk m cluster) [
      | none ↦ (false, [])
      | some b ↦
          let (calls, last) = scan_entries l b (m.sectors_per_cluster * m.bytes_per_sector / 32) in
          elim last [
            | none ↦ (true, calls)
            | some l' ↦ let (ok, more) = iterate_from disk m steps l' next in (ok, calls ++ more)
          ]
    ]

unfoldable pub iterate_dir : Disk → Alloc → Mount → ℕ → Bool × List Visit
iterate_dir disk alloc m cluster =
    if not (alloc (m.sectors_per_cluster * m.bytes_per_sector))
    then (false, [])
    else iterate_from disk m (max_clusters m) lfn_reset cluster
