-- ===== src/Fat/Read.antt =====
-- Reading a file: the bytes of its cluster chain.
use micro_os.Base.{
  ℕ, zero, suc, ◌-◌, ◌*◌, ◌≤◌, ◌≡◌, ◌⊎◌, inl, inr, refl, sym, ap, ◌∙◌, subst, Bool, true, false,
  not, ◌&&◌, Option, none, some, List, [], ◌∷◌, ◌++◌, ltb, if◌then◌else◌, length, take, min,
  Bool-cases, arith,
}
use micro_os.Fat.Volume.{
  Bytes, Disk, Mount, in_chain, next_cluster, read_cluster, append_to, Alloc, long_at, max_clusters,
}
use micro_os.Fat.Defs.{
  copy_from, with_size, read_entry, resolve_path, entry_cluster, fat32_read_file,
}
use micro_os.Fat.Entries.{is_directory}

-- The bytes of a cluster.
abbrev pub cluster_size : Mount → ℕ
cluster_size m = m.sectors_per_cluster * m.bytes_per_sector

-- The clusters from `cluster` on can be read and hold `blocks`; then either `enough` bytes have been
-- read, or the chain ends.
unfoldable pub Reads : Disk → Mount → ℕ → ℕ → List Bytes → Type 0
Reads disk m enough cluster [] = (enough ≡ 0) ⊎ (in_chain cluster ≡ false)
Reads disk m enough cluster (b ∷ bs) =
    (in_chain cluster ≡ true)
    × (read_cluster disk m cluster ≡ some b)
    × (length b ≡ cluster_size m)
    × Reads disk m (enough - cluster_size m) (next_cluster disk m cluster) bs

abbrev pub concat : List Bytes → Bytes
concat [] = []
concat (b ∷ bs) = b ++ concat bs

take_nil : (n : ℕ) → take {A = ℕ} n [] ≡ []
take_nil zero = refl
take_nil (suc n) = refl

take_two :
    (n : ℕ) (b cs : Bytes)
    → take (min n (length b)) b ++ take (n - min n (length b)) cs ≡ take n (b ++ cs)
take_two n [] cs =
    let e : min n 0 ≡ 0 = omega arith in
    let f : n - 0 ≡ n = omega arith in rw e (ap (λ k. take k cs) f)
take_two zero (x ∷ b) cs = let e : min 0 (suc (length b)) ≡ 0 = omega arith in rw e refl
take_two (suc n) (x ∷ b) cs =
    let e : min (suc n) (suc (length b)) ≡ suc (min n (length b)) = omega arith in
    let f : suc n - suc (min n (length b)) ≡ n - min n (length b) = omega arith in
    rw e (rw f (ap (λ l. x ∷ l) (take_two n b cs)))

-- The copies stop with the file's size or with the chain, whichever comes first.
copy_from-Reads :
    (disk : Disk) (m : Mount) (bs : List Bytes) (steps remaining cluster : ℕ)
    → Reads disk m remaining cluster bs
    → length bs ≤ steps
    → copy_from disk m steps remaining cluster ≡ some (take remaining (concat bs))
unfolding copy_from Reads
copy_from-Reads disk m [] steps remaining cluster (inl nothing) enough = finished steps
  where
    finished : (steps : ℕ) → copy_from disk m steps remaining cluster ≡ some (take remaining [])
    finished zero = rw (nothing, copy_from) refl
    finished (suc steps) = rw (nothing, copy_from) refl
copy_from-Reads disk m [] steps remaining cluster (inr over) enough = ended steps
  where
    ended : (steps : ℕ) → copy_from disk m steps remaining cluster ≡ some (take remaining [])
    ended zero =
        let stop : ltb 0 remaining && in_chain cluster ≡ false = ground (arith, over) in
        rw stop (ap some (sym (take_nil remaining)))
    ended (suc steps) =
        let stop : ltb 0 remaining && in_chain cluster ≡ false = ground (arith, over) in
        rw stop (ap some (sym (take_nil remaining)))
copy_from-Reads disk m (b ∷ bs) zero remaining cluster h enough = absurd (omega (arith, enough))
copy_from-Reads disk m (b ∷ bs) (suc steps) remaining cluster (going, read, size, rest) enough =
    let left : remaining - cluster_size m ≡ remaining - min remaining (cluster_size m) =
      omega arith in
    let more =
      copy_from-Reads disk m bs steps (remaining - min remaining (cluster_size m))
        (next_cluster disk m cluster)
        (subst (λ r. Reads disk m r (next_cluster disk m cluster) bs) left rest)
        (omega (arith, enough)) in
    elim (Bool-cases (ltb 0 remaining)) [
      | inl some_left ↦
          rw (some_left, going, read)
            (ap (append_to (take (min remaining (cluster_size m)) b)) more
              ∙ ap some (
                  subst
                    (λ n.
                      take (min remaining n) b ++ take (remaining - min remaining n) (concat bs)
                      ≡ take remaining (b ++ concat bs))
                    size (take_two remaining b (concat bs))))
      | inr all_read ↦ let e : remaining ≡ 0 = ground arith in rw (all_read, e) refl
    ]

-- The bytes that `fat32_read_file` copies are those of the file's chain, up to the file's size, the
-- caller's limit and the end of the chain; the size that it returns is the smaller of the first two,
-- even where the chain is shorter.
pub fat32_read_file-Reads :
    (disk : Disk) (alloc : Alloc) (m : Mount) (path : Bytes) (buf_size : ℕ) (e : Bytes)
    (bs : List Bytes)
    → m.mounted ≡ true
    → resolve_path disk alloc m path ≡ some e
    → is_directory e ≡ false
    → alloc (cluster_size m) ≡ true
    → Reads disk m (min (long_at e 28) buf_size) (entry_cluster e) bs
    → length bs ≤ max_clusters m
    → fat32_read_file disk alloc m path buf_size
      ≡ some (min (long_at e 28) buf_size, take (min (long_at e 28) buf_size) (concat bs))
unfolding fat32_read_file
fat32_read_file-Reads disk alloc m path buf_size e bs mounted found file room chain few =
    when_mounted m.mounted mounted
      (read_entry disk alloc m buf_size (resolve_path disk alloc m path))
    ∙ rw (found, file, room)
        (ap (with_size (min (long_at e 28) buf_size)) (
          copy_from-Reads disk m bs (max_clusters m) (min (long_at e 28) buf_size) (entry_cluster e)
            chain few))
  where
    when_mounted :
        (b : Bool) → b ≡ true → (r : Option (ℕ × Bytes)) → (if not b then none else r) ≡ r
    when_mounted true h r = refl
    when_mounted false h r = absurd (cc h)
