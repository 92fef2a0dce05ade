-- ===== src/Fat32/Tests.antt =====
-- A volume of 70000 sectors with two allocation tables, on a disk of 80000.
use linux95_kernel.Prelude.{
  zero, suc, ◌%◌, false, none, [], ◌∷◌, take, drop, if◌then◌else◌, ℕ, ◌≤◌, ◌<◌, ◌≡◌, refl, true,
  some, Option, List, set, replicate, leb, ◌==◌, arith,
}
use linux95_kernel.User.Elf.{read_le}
use linux95_kernel.Fat32.{
  BpbGeometry, is_power_of_two, checked_add_u32, checked_mul_u32, read_fields, accepted_fields,
  data_start, accepted_clusters, parse_bpb, cluster_to_lba, fat_entry_location, classify_fat_entry,
}
use linux95_kernel.Vfs.{ok}
use linux95_kernel.Fat32.Files.{
  FileEntry, valid_data_cluster, next_cluster, follow, active_sector, read_entry,
}
use linux95_kernel.Fat32.Files.Sectors.{Readable}
use linux95_kernel.Fat32.Files.Chains.{Chain, contents}
use linux95_kernel.Fat32.Files.Reading.{read_entry_lem}
use linux95_kernel.Fat32.Volume.{Usable, Placed, parse_bpb_lem}

abbrev boot_sector : List ℕ
boot_sector =
    let fields = set (set (set (set (replicate 512 0) 12 2) 13 1) 14 32) 16 2 in
    let sizes = set (set (set (set fields 32 0x70) 33 0x11) 34 1) 37 4 in
    set (set (set sizes 44 2) 510 0x55) 511 0xAA

abbrev volume : BpbGeometry
volume = record {
  bytes_per_sector = 512;
  sectors_per_cluster = 1;
  reserved_sectors = 32;
  fat_count = 2;
  total_sectors = 70000;
  sectors_per_fat = 1024;
  root_cluster = 2;
  fat_begin_lba = 32;
  first_data_lba = 2080;
  cluster_count = 67920;
  mirroring_enabled = true;
  active_fat = 0;
}

boot_sector-accepted : parse_bpb (some boot_sector) 80000 ≡ some volume
unfolding parse_bpb read_fields accepted_fields is_power_of_two data_start accepted_clusters
    checked_add_u32 checked_mul_u32 read_le
boot_sector-accepted = refl

parse_bpb_lem_example :
    Usable 80000 volume
    × ((cluster : ℕ) → 2 ≤ cluster → cluster < 67922 → Placed 80000 volume cluster)
parse_bpb_lem_example = parse_bpb_lem boot_sector 80000 volume (omega arith) boot_sector-accepted

-- Its allocation table has a chain of two clusters, 2 and 3. Every byte of a sector of data is the low
-- byte of the sector's number.
abbrev fat_sector : List ℕ
fat_sector =
    let second = set (set (set (set (replicate 512 0) 12 0xFF) 13 0xFF) 14 0xFF) 15 0x0F in
    set second 8 3

abbrev disk : ℕ → Option (List ℕ)
disk lba =
    if lba == 32
    then some fat_sector
    else if leb 2080 lba
    then some (replicate 512 (lba % 256))
    else none

abbrev text_file : FileEntry
text_file = record { is_directory = false; first_cluster = 2; size = 700 }

first_sector : Readable disk 2080 1
first_sector zero lt = (omega arith, refl, refl)
first_sector (suc i) lt = absurd (omega (arith, lt))

second_sector : Readable disk 2081 1
second_sector zero lt = (omega arith, refl, refl)
second_sector (suc i) lt = absurd (omega (arith, lt))

two_clusters : Chain volume disk 2 (3 ∷ [])
unfolding valid_data_cluster cluster_to_lba next_cluster follow active_sector fat_entry_location
    classify_fat_entry checked_add_u32 checked_mul_u32 read_le
two_clusters = ((refl, refl, first_sector), refl, ((refl, refl, second_sector), refl))

read_entry_lem_example :
    read_entry volume disk text_file 600 64
    ≡ (ok, take 64 (drop 600 (contents volume disk 2 (3 ∷ []))))
read_entry_lem_example =
    read_entry_lem volume disk text_file (3 ∷ []) 600 64 two_clusters refl
      (omega arith, omega arith) (omega arith) (omega arith) (omega arith)
