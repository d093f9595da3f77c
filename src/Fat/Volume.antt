-- ===== src/Fat/Volume.antt =====
-- The volume of kernel/fs/fat32.c: mounting, the FAT and the clusters.
-- `Disk` stands for `ata_read_sectors` of one sector: the drive and the sector give 512 bytes, or
-- `none` for an error. `alloc` says whether `kmalloc` has so many bytes; each buffer is freed again
-- before the next is asked for.
use micro_os.Base.{
  ℕ, zero, suc, ◌+◌, ◌-◌, ◌*◌, ◌/◌, ◌%◌, ◌^◌, Bool, true, false, not, ◌&&◌, ◌||◌, Option, none,
  some, List, [], ◌++◌, ◌==◌, ltb, leb, if◌then◌else◌, get_or,
}

abbrev pub Bytes : Type 0
Bytes = List ℕ

abbrev pub Disk : Type 0
Disk = ℕ → ℕ → Option Bytes

abbrev pub Alloc : Type 0
Alloc = ℕ → Bool

abbrev pub fat32_max_name : ℕ
fat32_max_name = 256

abbrev pub attr_volume_id : ℕ
attr_volume_id = 0x08

abbrev pub attr_directory : ℕ
attr_directory = 0x10

abbrev pub attr_lfn : ℕ
attr_lfn = 0x0F

abbrev pub fat32_eoc : ℕ
fat32_eoc = 0x0FFFFFF8

pub record Mount : Type 0 where
  pub mounted : Bool
  pub ata_drive : ℕ
  pub bytes_per_sector : ℕ
  pub sectors_per_cluster : ℕ
  pub reserved_sectors : ℕ
  pub fat_start_lba : ℕ
  pub data_start_lba : ℕ
  pub root_cluster : ℕ
  pub num_fats : ℕ
  pub fat_size : ℕ

-- Little-endian fields.
abbrev pub word_at : Bytes → ℕ → ℕ
word_at b o = get_or b o 0 + 256 * get_or b (o + 1) 0

abbrev pub long_at : Bytes → ℕ → ℕ
long_at b o = word_at b o + 65536 * word_at b (o + 2)

-- A power of two from 1 to 128: `n & (n - 1)` is 0.
abbrev pub bad_cluster_size : ℕ → Bool
bad_cluster_size n = not (
    (n == 1)
    || ((n == 2)
        || ((n == 4) || ((n == 8) || ((n == 16) || ((n == 32) || ((n == 64) || (n == 128))))))))

abbrev pub mount_boot : Mount → ℕ → Bytes → Mount
mount_boot m drive boot = record {
  mounted = true;
  ata_drive = drive;
  bytes_per_sector = word_at boot 11;
  sectors_per_cluster = get_or boot 13 0;
  reserved_sectors = word_at boot 14;
  fat_start_lba = word_at boot 14;
  data_start_lba = (word_at boot 14 + get_or boot 16 0 * long_at boot 36) % 2 ^ 32;
  root_cluster = long_at boot 44;
  num_fats = get_or boot 16 0;
  fat_size = long_at boot 36;
}

abbrev pub check_boot : Mount → ℕ → Option Bytes → Bool × Mount
check_boot m drive none = (false, m)
check_boot m drive (some boot) =
    if not (word_at boot 11 == 512)
    then (false, m)
    else if long_at boot 36 == 0
    then (false, m)
    else if bad_cluster_size (get_or boot 13 0)
    then (false, m)
    else (true, mount_boot m drive boot)

-- `present` is `ata_drive_present`.
unfoldable pub fat32_init : Disk → (ℕ → Bool) → Mount → ℕ → Bool × Mount
fat32_init disk present m drive =
    if not (present drive) then (false, m) else check_boot m drive (disk drive 0)

unfoldable pub read_sector : Disk → Mount → ℕ → Option Bytes
read_sector disk m lba = disk m.ata_drive (lba % 2 ^ 32)

-- The FAT entry of a cluster; a sector that cannot be read ends the chain.
abbrev pub fat_entry : Option Bytes → ℕ → ℕ
fat_entry none offset = fat32_eoc
fat_entry (some sector) offset = long_at sector offset % 2 ^ 28

unfoldable pub next_cluster : Disk → Mount → ℕ → ℕ
next_cluster disk m cluster =
    let fat_offset = cluster * 4 % 2 ^ 32 in
    fat_entry (read_sector disk m (m.fat_start_lba + fat_offset / m.bytes_per_sector))
      (fat_offset % m.bytes_per_sector)

unfoldable pub cluster_to_lba : Mount → ℕ → ℕ
cluster_to_lba m cluster =
    (m.data_start_lba + (cluster + 2 ^ 32 - 2) * m.sectors_per_cluster) % 2 ^ 32

abbrev pub append_to : Bytes → Option Bytes → Option Bytes
append_to sector none = none
append_to sector (some rest) = some (sector ++ rest)

-- The `left` sectors from `lba` on, one after the other, or `none` on an error.
unfoldable pub read_sectors : Disk → Mount → ℕ → ℕ → Option Bytes
read_sectors disk m lba zero = some []
read_sectors disk m lba (suc left) =
    let rest = read_sectors disk m (lba + 1) left in
    elim (read_sector disk m lba) [ none ↦ none | some sector ↦ append_to sector rest ]

unfoldable pub read_cluster : Disk → Mount → ℕ → Option Bytes
read_cluster disk m cluster = read_sectors disk m (cluster_to_lba m cluster) m.sectors_per_cluster

-- The limit on the clusters of a chain.
unfoldable pub max_clusters : Mount → ℕ
max_clusters m =
    if ltb 0 m.sectors_per_cluster && ltb 0 m.data_start_lba
    then (2 ^ 32 - 1 - m.data_start_lba) / m.sectors_per_cluster
    else 0

abbrev pub in_chain : ℕ → Bool
in_chain cluster = leb 2 cluster && ltb cluster fat32_eoc
