-- ===== src/Fat/Defs.antt =====
-- Paths and the public operations of kernel/fs/fat32.c.
use micro_os.Base.{
  ℕ, zero, suc, ◌+◌, ◌-◌, ◌*◌, ◌/◌, ◌%◌, ◌^◌, Bool, true, false, not, ◌&&◌, ◌||◌, Option, none,
  some, List, [], ◌∷◌, ◌++◌, ◌==◌, ltb, if◌then◌else◌, length, take, replicate, min,
}
use micro_os.Fat.Volume.{
  Bytes, Disk, Alloc, fat32_max_name, attr_directory, Mount, word_at, long_at, next_cluster,
  append_to, read_cluster, max_clusters, in_chain,
}
use micro_os.Fat.Entries.{lower, short_name_to_str, to_text, is_directory, Visit, iterate_dir}

unfoldable pub same_name : Bytes → Bytes → Bool
same_name [] [] = true
same_name [] (y ∷ b) = false
same_name (x ∷ a) [] = false
same_name (x ∷ a) (y ∷ b) = (lower x == lower y) && same_name a b

-- `find_cb` over the calls: the last entry of that name.
unfoldable pub find_entry : Bytes → List Visit → Option Bytes → Option Bytes
find_entry target [] found = found
find_entry target ((e, name) ∷ calls) found =
    find_entry target calls (if same_name name target then some e else found)

unfoldable pub entry_cluster : Bytes → ℕ
entry_cluster e = word_at e 20 * 65536 + word_at e 26

abbrev pub root_entry : Mount → Bytes
root_entry m =
    replicate 11 0
    ++ (attr_directory
        ∷ (replicate 8 0
            ++ (m.root_cluster / 2 ^ 16 % 256
                ∷ m.root_cluster / 2 ^ 24 % 256
                ∷ (replicate 4 0
                    ++ (m.root_cluster % 256 ∷ m.root_cluster / 2 ^ 8 % 256 ∷ replicate 4 0)))))

-- The next component, of at most `left` characters, and the rest of the path with one slash skipped.
unfoldable pub component : ℕ → Bytes → Bytes × Bytes
component left [] = ([], [])
component zero (c ∷ cs) = ([], if c == b'/' then cs else c ∷ cs)
component (suc left) (c ∷ cs) =
    let (name, rest) = component left cs in if c == b'/' then ([], cs) else (c ∷ name, rest)

abbrev pub is_end : Bytes → Bool
is_end [] = true
is_end (c ∷ cs) = false

-- The rounds of `resolve_path`; each consumes a character.
unfoldable pub resolve_from : Disk → Alloc → Mount → ℕ → ℕ → Bytes → Bytes → Option Bytes
resolve_from disk alloc m zero cluster last path = some last
resolve_from disk alloc m (suc rounds) cluster last path =
    let (name, rest) = component (fat32_max_name - 1) path in
    let (ok, calls) = iterate_dir disk alloc m cluster in
    if is_end path then some last else if not ok then none else elim (find_entry name calls none) [
      | none ↦ none
      | some e ↦
          let found = resolve_from disk alloc m rounds (entry_cluster e) e rest in
          if not (is_end rest) && not (is_directory e) then none else found
    ]

abbrev pub skip_slash : Bytes → Bytes
skip_slash [] = []
skip_slash (c ∷ cs) = if c == b'/' then cs else c ∷ cs

-- The path "" or "/".
abbrev pub is_root : Bytes → Bool
is_root path = is_end (skip_slash path)

unfoldable pub resolve_path : Disk → Alloc → Mount → Bytes → Option Bytes
resolve_path disk alloc m path =
    if is_root path
    then some (root_entry m)
    else resolve_from disk alloc m (length path) m.root_cluster [] (skip_slash path)

abbrev pub copy_block : ℕ → Option Bytes → Option Bytes → Option Bytes
copy_block n none rest = none
copy_block n (some b) rest = append_to (take n b) rest

-- The copies of `fat32_read_file`, at most `steps` of them: `none` for the return of -1, else the
-- bytes that reach the buffer.
unfoldable pub copy_from : Disk → Mount → ℕ → ℕ → ℕ → Option Bytes
copy_from disk m zero remaining cluster =
    if ltb 0 remaining && in_chain cluster then none else some []
copy_from disk m (suc steps) remaining cluster =
    let size = m.sectors_per_cluster * m.bytes_per_sector in
    let rest =
      copy_from disk m steps (remaining - min remaining size) (next_cluster disk m cluster) in
    if not (ltb 0 remaining && in_chain cluster)
    then some []
    else copy_block (min remaining size) (read_cluster disk m cluster) rest

abbrev pub with_size : ℕ → Option Bytes → Option (ℕ × Bytes)
with_size size none = none
with_size size (some b) = some (size, b)

abbrev pub read_entry : Disk → Alloc → Mount → ℕ → Option Bytes → Option (ℕ × Bytes)
read_entry disk alloc m buf_size none = none
read_entry disk alloc m buf_size (some e) =
    let size = min (long_at e 28) buf_size in
    if is_directory e || not (alloc (m.sectors_per_cluster * m.bytes_per_sector))
    then none
    else with_size size (copy_from disk m (max_clusters m) size (entry_cluster e))

-- The size returned, and the bytes copied.
unfoldable pub fat32_read_file : Disk → Alloc → Mount → Bytes → ℕ → Option (ℕ × Bytes)
fat32_read_file disk alloc m path buf_size =
    if not m.mounted
    then none
    else read_entry disk alloc m buf_size (resolve_path disk alloc m path)

-- An entry as the callers see it: `name`, whether it is a directory, `size` and `cluster`.
pub record Fat32DirEntry : Type 0 where
  pub name : Bytes
  pub is_dir : Bool
  pub size : ℕ
  pub cluster : ℕ

abbrev pub readdir_adapter : Visit → Fat32DirEntry
readdir_adapter (e, name) = record {
  name = take (fat32_max_name - 1) name;
  is_dir = is_directory e;
  size = long_at e 28;
  cluster = entry_cluster e;
}

unfoldable pub adapt_all : List Visit → List Fat32DirEntry
adapt_all [] = []
adapt_all (v ∷ vs) = readdir_adapter v ∷ adapt_all vs

-- Whether it returns 0, and the entries given to the callback.
unfoldable pub fat32_readdir : Disk → Alloc → Mount → Bytes → Bool × List Fat32DirEntry
fat32_readdir disk alloc m path =
    if not m.mounted then (false, []) else elim (resolve_path disk alloc m path) [
      | none ↦ (false, [])
      | some e ↦
          let first = entry_cluster e in
          let (ok, calls) =
            iterate_dir disk alloc m (if first == 0 then m.root_cluster else first) in
          if not (is_directory e) then (false, []) else (ok, adapt_all calls)
    ]

unfoldable pub fat32_stat : Disk → Alloc → Mount → Bytes → Option Fat32DirEntry
fat32_stat disk alloc m path =
    if not m.mounted then none else elim (resolve_path disk alloc m path) [
      | none ↦ none
      | some e ↦ some (record {
        name = if is_root path then b'/' ∷ [] else to_text (short_name_to_str (take 11 e));
        is_dir = is_directory e;
        size = long_at e 28;
        cluster = entry_cluster e;
      })
    ]
