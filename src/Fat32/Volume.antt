-- ===== src/Fat32/Volume.antt =====
-- Where the clusters of a volume that parse_bpb accepts lie, and the entries of its allocation tables.
use linux95_kernel.Prelude.{
  ℕ, zero, suc, ◌+◌, ◌-◌, ◌*◌, ◌/◌, ◌%◌, ◌^◌, ◌≤◌, ◌<◌, ◌≡◌, refl, sym, Bool, true, false,
  if◌then◌else◌, some, List, arith,
}
use native.Mathlib.Nat.{mul-le-mul_right, le-div_iff_mul-le, div-mul-le_self, mul_comm}
use mathlib.Core.Path.{subst}
use linux95_kernel.User.Elf.{read_le}
use linux95_kernel.Fat32.{
  uint32_max, is_power_of_two, checked_add_u32, checked_mul_u32, cluster_to_lba, fat_entry_location,
  BpbGeometry, BpbFields, read_fields, accepted_fields, total_sectors_of, data_start,
  accepted_clusters, geometry_of, parse_bpb,
}

checked_mul_u32-some : (a b c : ℕ) → checked_mul_u32 a b ≡ some c → c ≡ a * b
unfolding checked_mul_u32
checked_mul_u32-some a b c h = ground (arith, h)

pub checked_mul_u32-fits : (a b : ℕ) → a * b ≤ uint32_max → checked_mul_u32 a b ≡ some (a * b)
unfolding checked_mul_u32
checked_mul_u32-fits zero b fits = refl
checked_mul_u32-fits (suc a) b fits =
    let le : b ≤ uint32_max / suc a =
      (le-div_iff_mul-le (omega arith)).1 (subst (λ x. x ≤ uint32_max) (mul_comm (suc a) b) fits) in
    ground (arith, le)

checked_add_u32-some : (a b c : ℕ) → checked_add_u32 a b ≡ some c → (c ≡ a + b)
unfolding checked_add_u32
checked_add_u32-some a b c h = ground (arith, h)

-- The layout of a volume on a disk: the reserved sectors, the tables, and the clusters behind them.
pub record Usable (disk_sectors : ℕ) (g : BpbGeometry) : Type 0 where
  pub sector_size : g.bytes_per_sector ≡ 512
  pub cluster_size : (0 < g.sectors_per_cluster) × (g.sectors_per_cluster ≤ 128)
  pub tables : g.fat_begin_lba + g.fat_count * g.sectors_per_fat ≡ g.first_data_lba
  pub active_table : g.active_fat < g.fat_count
  pub entries_fit : g.cluster_count + 2 ≤ g.sectors_per_fat * 128
  pub clusters_fit : g.first_data_lba + g.cluster_count * g.sectors_per_cluster ≤ g.total_sectors
  pub on_disk : g.total_sectors ≤ disk_sectors
  pub numbers : g.cluster_count + 1 < 0x0FFF_FFF0
  pub root : (2 ≤ g.root_cluster) × (g.root_cluster < g.cluster_count + 2)

accepted_fields_lem :
    (f : BpbFields)
    → accepted_fields f ≡ true
    → (f.bytes_per_sector ≡ 512)
      × (0 < f.sectors_per_cluster)
      × (f.sectors_per_cluster ≤ 128)
      × (0 < f.fat_count)
      × (f.mirroring_enabled ≡ false → f.active_fat < f.fat_count)
      × (2 ≤ f.root_cluster)
unfolding accepted_fields is_power_of_two
accepted_fields_lem f h = (
  ground (arith, h),
  ground (arith, h),
  ground (arith, h),
  ground (arith, h),
  λ off. ground (arith, h, off),
  ground (arith, h),
)

active_below :
    (m : Bool) (active other count : ℕ)
    → 0 < count
    → (m ≡ false → active < count)
    → active ≡ (if m then 0 else other)
    → active < count
active_below true active other count some_tables off e = omega (arith, some_tables, e)
active_below false active other count some_tables off e = off refl

accepted_clusters_lem :
    (f : BpbFields) (n : ℕ)
    → accepted_clusters f n ≡ true
    → (n + 2 ≤ f.sectors_per_fat * 128) × (n + 1 < 0x0FFF_FFF0) × (f.root_cluster < n + 2)
unfolding accepted_clusters checked_add_u32 checked_mul_u32
accepted_clusters_lem f n h = (ground (arith, h), ground (arith, h), ground (arith, h))

data_start_lem :
    (f : BpbFields) (start : ℕ)
    → data_start f ≡ some start
    → f.reserved_sectors + f.fat_count * f.sectors_per_fat ≡ start
unfolding data_start checked_add_u32 checked_mul_u32
data_start_lem f start h = ground (arith, h)

abbrev clusters_from : BpbFields → ℕ → ℕ
clusters_from f start = (total_sectors_of f - start) / f.sectors_per_cluster

-- What parse_bpb has found when it accepts.
parse_bpb-tests :
    (sector : List ℕ) (disk_sectors : ℕ) (g : BpbGeometry)
    → parse_bpb (some sector) disk_sectors ≡ some g
    → let f = read_fields sector in (accepted_fields f ≡ true) × (total_sectors_of f ≤ disk_sectors)
unfolding parse_bpb
parse_bpb-tests sector disk_sectors g h = (ground (arith, h), ground (arith, h))

parse_bpb-start :
    (sector : List ℕ) (disk_sectors : ℕ) (g : BpbGeometry)
    → parse_bpb (some sector) disk_sectors ≡ some g
    → let f = read_fields sector in
      (start : ℕ) × (data_start f ≡ some start)
      × (start < total_sectors_of f)
      × (accepted_clusters f (clusters_from f start) ≡ true)
      × (g ≡ geometry_of f start (clusters_from f start))
unfolding parse_bpb
parse_bpb-start sector disk_sectors g h =
    (g.first_data_lba, ground (arith, h), ground (arith, h), ground (arith, h), ground (arith, h))

read_fields-active :
    (sector : List ℕ)
    → let f = read_fields sector in
      f.active_fat ≡ (if f.mirroring_enabled then 0 else read_le 2 sector 40 % 16)
unfolding read_fields
read_fields-active sector = refl

geometry-Usable :
    (disk_sectors start other : ℕ) (f : BpbFields)
    → accepted_fields f ≡ true
    → f.active_fat ≡ (if f.mirroring_enabled then 0 else other)
    → total_sectors_of f ≤ disk_sectors
    → data_start f ≡ some start
    → start < total_sectors_of f
    → accepted_clusters f (clusters_from f start) ≡ true
    → Usable disk_sectors (geometry_of f start (clusters_from f start))
geometry-Usable disk_sectors start other f accepted active on_disk found below clusters =
    let (size, positive, bounded, some_tables, off, root) = accepted_fields_lem f accepted in
    let (entries, numbers, root') = accepted_clusters_lem f (clusters_from f start) clusters in
    let fit : clusters_from f start * f.sectors_per_cluster ≤ total_sectors_of f - start =
      div-mul-le_self (total_sectors_of f - start) f.sectors_per_cluster in
    record {
      sector_size = size;
      cluster_size = (positive, bounded);
      tables = data_start_lem f start found;
      active_table =
          active_below f.mirroring_enabled f.active_fat other f.fat_count some_tables off active;
      entries_fit = entries;
      clusters_fit = omega (arith, fit, below);
      on_disk = on_disk;
      numbers = numbers;
      root = (root, root');
    }

parse_bpb-Usable :
    (sector : List ℕ) (disk_sectors : ℕ) (g : BpbGeometry)
    → parse_bpb (some sector) disk_sectors ≡ some g
    → Usable disk_sectors g
parse_bpb-Usable sector disk_sectors g h =
    let (accepted, on_disk) = parse_bpb-tests sector disk_sectors g h in
    let (start, found, below, clusters, same) = parse_bpb-start sector disk_sectors g h in
    subst (Usable disk_sectors) (sym same) (
      geometry-Usable disk_sectors start (read_le 2 sector 40 % 16) (read_fields sector) accepted
        (read_fields-active sector) on_disk found below clusters)

-- The sectors of a cluster lie on the disk, before those of the clusters that follow, and its entry lies
-- in one sector of the first allocation table.
pub record Placed (disk_sectors : ℕ) (g : BpbGeometry) (cluster : ℕ) : Type 0 where
  pub lba : ℕ
  pub found : cluster_to_lba g.first_data_lba g.sectors_per_cluster cluster ≡ some lba
  pub behind_tables : g.first_data_lba ≤ lba
  pub on_disk : lba + g.sectors_per_cluster ≤ disk_sectors
  pub apart :
      (cluster' lba' : ℕ)
      → cluster < cluster'
      → cluster_to_lba g.first_data_lba g.sectors_per_cluster cluster' ≡ some lba'
      → lba + g.sectors_per_cluster ≤ lba'
  pub entry_sector : ℕ
  pub entry_start : ℕ
  pub entry_found : fat_entry_location cluster g.fat_begin_lba ≡ some (entry_sector, entry_start)
  pub in_table :
      (g.fat_begin_lba ≤ entry_sector) × (entry_sector < g.fat_begin_lba + g.sectors_per_fat)
  pub in_sector : entry_start + 4 ≤ 512

module _ (first spc : ℕ) (positive : 0 < spc) where
  cluster_to_lba-some :
      (cluster lba : ℕ)
      → cluster_to_lba first spc cluster ≡ some lba
      → (lba ≡ first + (cluster - 2) * spc) × (2 ≤ cluster)
  unfolding cluster_to_lba checked_add_u32 checked_mul_u32
  cluster_to_lba-some cluster lba h = (ground (arith, h), ground (arith, h))

  cluster_to_lba-fits :
      (cluster : ℕ)
      → 2 ≤ cluster
      → first + (cluster - 2) * spc ≤ uint32_max
      → cluster_to_lba first spc cluster ≡ some (first + (cluster - 2) * spc)
  unfolding cluster_to_lba checked_add_u32
  cluster_to_lba-fits cluster low fits =
      let product : checked_mul_u32 (cluster - 2) spc ≡ some ((cluster - 2) * spc) =
        checked_mul_u32-fits (cluster - 2) spc (omega (arith, fits)) in
      ground (arith, product, low, positive, fits)

  next_cluster : (n m : ℕ) → n < m → n * spc + spc ≤ m * spc
  next_cluster n m lt =
      let le : (n + 1) * spc ≤ m * spc = mul-le-mul_right spc (omega (arith, lt)) in
      omega (arith, le)

fat_entry_location-fits :
    (cluster begin : ℕ)
    → cluster < 0x0FFF_FFF0
    → begin + cluster / 128 ≤ uint32_max
    → fat_entry_location cluster begin ≡ some (begin + cluster * 4 / 512, cluster * 4 % 512)
unfolding fat_entry_location checked_add_u32
fat_entry_location-fits cluster begin small fits =
    let product : checked_mul_u32 cluster 4 ≡ some (cluster * 4) =
      checked_mul_u32-fits cluster 4 (omega (arith, small)) in
    ground (arith, product, fits)

placed :
    (disk_sectors : ℕ) (g : BpbGeometry)
    → disk_sectors < 2 ^ 32
    → Usable disk_sectors g
    → (cluster : ℕ) → 2 ≤ cluster
    → cluster < g.cluster_count + 2
    → Placed disk_sectors g cluster
placed disk_sectors g fits u cluster low high =
    let start = g.first_data_lba in
    let spc = g.sectors_per_cluster in
    let last : (cluster - 2) * spc + spc ≤ g.cluster_count * spc =
      next_cluster start spc u.cluster_size.0 (cluster - 2) g.cluster_count
        (omega (arith, low, high)) in
    let end_ : start + (cluster - 2) * spc + spc ≤ disk_sectors =
      omega (arith, last, u.clusters_fit, u.on_disk) in
    let table : 1 * g.sectors_per_fat ≤ g.fat_count * g.sectors_per_fat =
      mul-le-mul_right {m = 1} {n = g.fat_count} g.sectors_per_fat
        (omega (arith, u.active_table)) in
    let entries : cluster / 128 < g.sectors_per_fat = omega (arith, high, u.entries_fit) in
    record {
      lba = start + (cluster - 2) * spc;
      found =
          cluster_to_lba-fits start spc u.cluster_size.0 cluster low (omega (arith, end_, fits));
      behind_tables = omega arith;
      on_disk = end_;
      apart = λ cluster' lba' lt found'.
          let at = cluster_to_lba-some start spc u.cluster_size.0 cluster' lba' found' in
          let next =
            next_cluster start spc u.cluster_size.0 (cluster - 2) (cluster' - 2)
              (omega (arith, low, lt)) in
          omega (arith, at.0, next);
      entry_sector = g.fat_begin_lba + cluster * 4 / 512;
      entry_start = cluster * 4 % 512;
      entry_found =
          fat_entry_location-fits cluster g.fat_begin_lba (omega (arith, high, u.numbers))
            (omega (arith, entries, table, u.tables, u.clusters_fit, u.on_disk, fits));
      in_table = (omega arith, omega (arith, entries));
      in_sector = omega arith;
    }

-- When parse_bpb accepts the first sector of a disk of less than 2^32 sectors, the geometry is
-- usable: sectors of 512 bytes, clusters of 1 to 128 sectors, the tables between the reserved
-- sectors and the clusters, with room for an entry for each cluster, the active table one of them,
-- the clusters before the end of the volume, the volume within the disk, and the root one of the
-- clusters. And for each of its clusters: cluster_to_lba gives its place behind the tables, within
-- the disk, and before the sectors of every later cluster; fat_entry_location finds its entry
-- within one sector of the first table.
pub parse_bpb_lem :
    (sector : List ℕ) (disk_sectors : ℕ) (g : BpbGeometry)
    → disk_sectors < 2 ^ 32
    → parse_bpb (some sector) disk_sectors ≡ some g
    → Usable disk_sectors g
      × ((cluster : ℕ)
          → 2 ≤ cluster
          → cluster < g.cluster_count + 2
          → Placed disk_sectors g cluster)
parse_bpb_lem sector disk_sectors g fits h =
    let u = parse_bpb-Usable sector disk_sectors g h in
    (u, λ cluster low high. placed disk_sectors g fits u cluster low high)
