-- ===== src/Fat32.antt =====
-- kernel/filesystem/fat32_helpers.hpp: the 32-bit arithmetic, the entries of the allocation table, and the
-- geometry of a volume that parse_bpb reads from its first sector.
pub mod Volume
pub mod Files
mod Tests
use linux95_kernel.Prelude.{
  ℕ, zero, suc, ◌+◌, ◌-◌, ◌*◌, ◌/◌, ◌%◌, ◌^◌, Bool, true, false, ◌||◌, ◌&&◌, not, Option, none,
  some, List, ltb, leb, ◌==◌, if◌then◌else◌,
}
use Prim.Native.Nat.{bit_and}
use linux95_kernel.Net.Bytes.{byte}
use linux95_kernel.User.Elf.{read_le}

abbrev pub uint32_max : ℕ
uint32_max = 0xFFFF_FFFF

unfoldable pub is_power_of_two : ℕ → Bool
is_power_of_two value = not (value == 0) && (bit_and value (value - 1) == 0)

-- `value & 0x0FFFFFFF`
abbrev pub fat28 : ℕ → ℕ
fat28 value = value % 2 ^ 28

unfoldable pub checked_add_u32 : ℕ → ℕ → Option ℕ
checked_add_u32 a b = if ltb (uint32_max - a) b then none else some (a + b)

unfoldable pub checked_mul_u32 : ℕ → ℕ → Option ℕ
checked_mul_u32 a b = if not (a == 0) && ltb (uint32_max / a) b then none else some (a * b)

unfoldable pub cluster_to_lba : ℕ → ℕ → ℕ → Option ℕ
cluster_to_lba first_data_lba sectors_per_cluster cluster =
    if ltb cluster 2 || (sectors_per_cluster == 0)
    then none
    else elim (checked_mul_u32 (cluster - 2) sectors_per_cluster) [
      | none ↦ none
      | some cluster_offset ↦ checked_add_u32 first_data_lba cluster_offset
    ]

pub data FatEntryKind : Type 0 where
  free reserved next bad end_of_chain : FatEntryKind

unfoldable pub classify_fat_entry : ℕ → FatEntryKind
classify_fat_entry raw =
    let value = fat28 raw in
    if value == 0
    then free
    else if value == 1
    then reserved
    else if leb 0x0FFF_FFF0 value && leb value 0x0FFF_FFF6
    then reserved
    else if value == 0x0FFF_FFF7
    then bad
    else if leb 0x0FFF_FFF8 value
    then end_of_chain
    else next

-- The sector of the entry of a cluster, and the place of its first byte there.
unfoldable pub fat_entry_location : ℕ → ℕ → Option (ℕ × ℕ)
fat_entry_location cluster fat_begin_lba = elim (checked_mul_u32 cluster 4) [
  | none ↦ none
  | some offset ↦ elim (checked_add_u32 fat_begin_lba (offset / 512)) [
    | none ↦ none
    | some sector ↦ some (sector, offset % 512)
  ]
]

pub record BpbGeometry : Type 0 where
  pub bytes_per_sector : ℕ
  pub sectors_per_cluster : ℕ
  pub reserved_sectors : ℕ
  pub fat_count : ℕ
  pub total_sectors : ℕ
  pub sectors_per_fat : ℕ
  pub root_cluster : ℕ
  pub fat_begin_lba : ℕ
  pub first_data_lba : ℕ
  pub cluster_count : ℕ
  pub mirroring_enabled : Bool
  pub active_fat : ℕ

-- The fields of the sector, as parse_bpb reads them.
pub record BpbFields : Type 0 where
  pub bytes_per_sector : ℕ
  pub sectors_per_cluster : ℕ
  pub reserved_sectors : ℕ
  pub fat_count : ℕ
  pub root_entry_count : ℕ
  pub total_sectors_16 : ℕ
  pub sectors_per_fat_16 : ℕ
  pub total_sectors_32 : ℕ
  pub sectors_per_fat : ℕ
  pub mirroring_enabled : Bool
  pub active_fat : ℕ
  pub filesystem_version : ℕ
  pub root_cluster : ℕ

unfoldable pub read_fields : List ℕ → BpbFields
read_fields sector =
    let extended_flags = read_le 2 sector 40 in
    let mirroring_enabled = extended_flags / 2 ^ 7 % 2 == 0 in
    record {
      bytes_per_sector = read_le 2 sector 11;
      sectors_per_cluster = byte sector 13;
      reserved_sectors = read_le 2 sector 14;
      fat_count = byte sector 16;
      root_entry_count = read_le 2 sector 17;
      total_sectors_16 = read_le 2 sector 19;
      sectors_per_fat_16 = read_le 2 sector 22;
      total_sectors_32 = read_le 4 sector 32;
      sectors_per_fat = read_le 4 sector 36;
      mirroring_enabled = mirroring_enabled;
      active_fat = if mirroring_enabled then 0 else extended_flags % 16;
      filesystem_version = read_le 2 sector 42;
      root_cluster = read_le 4 sector 44;
    }

-- The tests on the fields alone.
unfoldable pub accepted_fields : BpbFields → Bool
accepted_fields f =
    (f.bytes_per_sector == 512)
    && (is_power_of_two f.sectors_per_cluster && leb f.sectors_per_cluster 128)
    && (not (f.reserved_sectors == 0) && not (f.fat_count == 0))
    && (f.mirroring_enabled || ltb f.active_fat f.fat_count)
    && ((f.root_entry_count == 0) && (f.sectors_per_fat_16 == 0) && not (f.sectors_per_fat == 0))
    && ((f.filesystem_version == 0) && leb 2 f.root_cluster)

abbrev pub total_sectors_of : BpbFields → ℕ
total_sectors_of f = if f.total_sectors_16 == 0 then f.total_sectors_32 else f.total_sectors_16

-- first_data_lba
unfoldable pub data_start : BpbFields → Option ℕ
data_start f = elim (checked_mul_u32 f.fat_count f.sectors_per_fat) [
  | none ↦ none
  | some fat_sectors ↦ checked_add_u32 f.reserved_sectors fat_sectors
]

-- The tests on the number of clusters: FAT32, room for their entries, no reserved number, the root.
unfoldable pub accepted_clusters : BpbFields → ℕ → Bool
accepted_clusters f cluster_count =
    if ltb cluster_count 65525 then false else elim (checked_add_u32 cluster_count 2) [
      | none ↦ false
      | some required_fat_entries ↦ elim (checked_mul_u32 f.sectors_per_fat 128) [
        | none ↦ false
        | some fat_entry_capacity ↦
            if ltb fat_entry_capacity required_fat_entries
            then false
            else elim (checked_add_u32 cluster_count 1) [
              | none ↦ false
              | some max_cluster ↦ ltb max_cluster 0x0FFF_FFF0 && leb f.root_cluster max_cluster
            ]
      ]
    ]

abbrev pub geometry_of : BpbFields → ℕ → ℕ → BpbGeometry
geometry_of f first_data_lba cluster_count = record {
  bytes_per_sector = f.bytes_per_sector;
  sectors_per_cluster = f.sectors_per_cluster;
  reserved_sectors = f.reserved_sectors;
  fat_count = f.fat_count;
  total_sectors = total_sectors_of f;
  sectors_per_fat = f.sectors_per_fat;
  root_cluster = f.root_cluster;
  fat_begin_lba = f.reserved_sectors;
  first_data_lba = first_data_lba;
  cluster_count = cluster_count;
  mirroring_enabled = f.mirroring_enabled;
  active_fat = f.active_fat;
}

-- `sector` is `none` for a null pointer.
unfoldable pub parse_bpb : Option (List ℕ) → ℕ → Option BpbGeometry
parse_bpb none disk_sectors = none
parse_bpb (some sector) disk_sectors =
    let f = read_fields sector in
    let total_sectors = total_sectors_of f in
    if disk_sectors == 0
    then none
    else if not (byte sector 510 == 0x55) || not (byte sector 511 == 0xAA)
    then none
    else if not (accepted_fields f)
    then none
    else if (total_sectors == 0) || ltb disk_sectors total_sectors
    then none
    else elim (data_start f) [
      | none ↦ none
      | some first_data_lba ↦
          let cluster_count = (total_sectors - first_data_lba) / f.sectors_per_cluster in
          if leb total_sectors first_data_lba || not (accepted_clusters f cluster_count)
          then none
          else some (geometry_of f first_data_lba cluster_count)
    ]
