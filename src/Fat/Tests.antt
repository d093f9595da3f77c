-- ===== src/Fat/Tests.antt =====
-- Runs of the FAT32 reader, and its theorems at a concrete volume.
use micro_os.Base.{
  ◌≡◌, inl, refl, true, none, some, [], ◌∷◌, ◌++◌, ◌==◌, replicate, if◌then◌else◌, arith,
}
use micro_os.Fat.Volume.{
  Bytes, Disk, Alloc, Mount, read_cluster, read_sectors, read_sector, cluster_to_lba, next_cluster,
  max_clusters,
}
use micro_os.Fat.Entries.{
  lfn_reset, iterate_dir, iterate_from, scan_entries, short_name_to_str, until_space, to_text,
}
use micro_os.Fat.Defs.{
  resolve_path, resolve_from, component, find_entry, same_name, entry_cluster, fat32_read_file,
}
use micro_os.Fat.Names.{IsValid, lfn_reset-IsValid, append_all, append_all-IsValid}
use micro_os.Fat.Read.{Reads, fat32_read_file-Reads}

-- A volume with one sector in a cluster: the FAT in sector 1, and the data from sector 2 on.
abbrev volume : Mount
volume = record {
  mounted = true;
  ata_drive = 0;
  bytes_per_sector = 512;
  sectors_per_cluster = 1;
  reserved_sectors = 1;
  fat_start_lba = 1;
  data_start_lba = 2;
  root_cluster = 2;
  num_fats = 1;
  fat_size = 1;
}

-- The entry of a file "a" of 3 bytes in cluster 3.
abbrev entry_a : Bytes
entry_a = 65 ∷ (replicate 10 32 ++ (32 ∷ (replicate 14 0 ++ (3 ∷ 0 ∷ 3 ∷ 0 ∷ 0 ∷ 0 ∷ []))))

abbrev content : Bytes
content = 7 ∷ 8 ∷ 9 ∷ replicate 509 0

-- Sector 2 has the root directory, sector 3 the file, and every chain is one cluster long.
abbrev disk : Disk
disk drive lba =
    if lba == 1
    then some (replicate 512 255)
    else if lba == 2
    then some (entry_a ++ replicate 480 0)
    else if lba == 3
    then some content
    else none

abbrev alloc : Alloc
alloc n = true

resolved : resolve_path disk alloc volume (97 ∷ []) ≡ some entry_a
unfolding resolve_path resolve_from component iterate_dir iterate_from read_cluster read_sectors
    read_sector cluster_to_lba next_cluster scan_entries short_name_to_str until_space to_text
    find_entry same_name max_clusters
resolved = refl

chain : Reads disk volume 3 3 (content ∷ [])
unfolding Reads read_cluster read_sectors read_sector cluster_to_lba next_cluster
chain = (refl, refl, refl, inl refl)

fat32_read_file-Reads_example :
    fat32_read_file disk alloc volume (97 ∷ []) 100 ≡ some (3, 7 ∷ 8 ∷ 9 ∷ [])
unfolding entry_cluster max_clusters
fat32_read_file-Reads_example =
    fat32_read_file-Reads disk alloc volume (97 ∷ []) 100 entry_a (content ∷ []) refl resolved refl
      refl chain (omega arith)

append_all-IsValid_example : IsValid (append_all lfn_reset ((65 ∷ replicate 31 97) ∷ []))
append_all-IsValid_example =
    append_all-IsValid ((65 ∷ replicate 31 97) ∷ []) lfn_reset lfn_reset-IsValid
