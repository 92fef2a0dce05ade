-- ===== src/Fat32/Files.antt =====
-- kernel/filesystem/fat32.cpp: the chain of clusters of a file, and the reading of its bytes once its
-- directory entry is found. The disk answers with the 512 bytes of a sector, or not.
pub mod Sectors
pub mod Chains
pub mod Reading
use linux95_kernel.Prelude.{
  ℕ, zero, suc, ◌+◌, ◌-◌, ◌*◌, ◌/◌, ◌%◌, ◌^◌, Bool, true, false, ◌||◌, ◌&&◌, not, Option, none,
  some, List, [], ◌++◌, ltb, leb, ◌==◌, if◌then◌else◌, take, drop,
}
use linux95_kernel.User.Elf.{read_le}
use linux95_kernel.Vfs.{Status, ok, corrupt, io_error, is_directory, is_ok}
use linux95_kernel.Fat32.{
  BpbGeometry, FatEntryKind, free, reserved, next, bad, end_of_chain, fat28, checked_add_u32,
  checked_mul_u32, cluster_to_lba, classify_fat_entry, fat_entry_location,
}

-- What next_cluster finds.
pub data Successor : Type 0 where
  failed : Status → Successor
  chain_end : Successor
  next_is : ℕ → Successor

-- The part of a directory entry that read_file uses.
pub record FileEntry : Type 0 where
  pub is_directory : Bool
  pub first_cluster : ℕ
  pub size : ℕ

abbrev pub amount_of : ℕ → ℕ → ℕ
amount_of inside_sector remaining =
    if ltb remaining (512 - inside_sector) then remaining else 512 - inside_sector

-- `mounted_bpb`, of which fat_begin_lba and the other variables are copies, and the disk.
module _ (g : BpbGeometry) (read_sector : ℕ → Option (List ℕ)) where
  unfoldable pub valid_data_cluster : ℕ → Bool
  valid_data_cluster cluster = leb 2 cluster && ltb (cluster - 2) g.cluster_count

  -- What the entry with the given value says.
  unfoldable pub follow : ℕ → Successor
  follow value = elim (classify_fat_entry value) [
    | free ↦ failed corrupt
    | reserved ↦ failed corrupt
    | next ↦ if valid_data_cluster value then next_is value else failed corrupt
    | bad ↦ failed corrupt
    | end_of_chain ↦ chain_end
  ]

  -- The sector of the entry in the active table.
  unfoldable pub active_sector : ℕ → Option ℕ
  active_sector fat_sector_lba = elim (checked_mul_u32 g.active_fat g.sectors_per_fat) [
    | none ↦ none
    | some fat_offset ↦ elim (checked_add_u32 fat_sector_lba fat_offset) [
      | none ↦ none
      | some lba ↦ if leb g.first_data_lba lba then none else some lba
    ]
  ]

  unfoldable pub next_cluster : ℕ → Successor
  next_cluster cluster = elim (fat_entry_location cluster g.fat_begin_lba) [
    | none ↦ failed corrupt
    | some (fat_sector_lba, inside) ↦
        if not (valid_data_cluster cluster)
        then failed corrupt
        else elim (active_sector fat_sector_lba) [
          | none ↦ failed corrupt
          | some lba ↦ elim (read_sector lba) [
            | none ↦ failed io_error
            | some fat_sector ↦ follow (fat28 (read_le 4 fat_sector inside))
          ]
        ]
  ]

  -- The loop over the clusters in front of the offset, on clusters_to_skip: the status and the cluster.
  unfoldable pub skip_clusters : ℕ → ℕ → ℕ → Status × ℕ
  skip_clusters zero transitions cluster = (ok, cluster)
  skip_clusters (suc clusters_to_skip) transitions cluster =
      if leb g.cluster_count transitions || not (valid_data_cluster cluster)
      then (corrupt, cluster)
      else elim (next_cluster cluster) [
        | failed status ↦ (status, cluster)
        | chain_end ↦ (corrupt, cluster)
        | next_is n ↦ skip_clusters clusters_to_skip (transitions + 1) n
      ]

  -- The loop over the sectors of a cluster, with the sectors left: the status, what remains to read, and
  -- the bytes that go to the buffer.
  unfoldable pub read_sectors : ℕ → ℕ → ℕ → ℕ → ℕ → Status × ℕ × List ℕ
  read_sectors zero cluster_lba sector_index inside_sector remaining = (ok, remaining, [])
  read_sectors (suc left) cluster_lba sector_index inside_sector remaining =
      let amount = amount_of inside_sector remaining in
      let (status, remaining', bytes) =
        read_sectors left cluster_lba (sector_index + 1) 0 (remaining - amount) in
      if remaining == 0 then (ok, 0, []) else elim (checked_add_u32 cluster_lba sector_index) [
        | none ↦ (corrupt, remaining, [])
        | some lba ↦ elim (read_sector lba) [
          | none ↦ (io_error, remaining, [])
          | some sector ↦ (status, remaining', take amount (drop inside_sector sector) ++ bytes)
        ]
      ]

  -- The loop over the clusters, with the rounds left: the status and the bytes.
  unfoldable pub read_clusters : Bool → ℕ → ℕ → ℕ → ℕ → Status × List ℕ
  read_clusters reaches_eof zero cluster cluster_offset remaining = (corrupt, [])
  read_clusters reaches_eof (suc left) cluster cluster_offset remaining =
      if not (valid_data_cluster cluster)
      then (corrupt, [])
      else elim (cluster_to_lba g.first_data_lba g.sectors_per_cluster cluster) [
        | none ↦ (corrupt, [])
        | some cluster_lba ↦
            let sector_index = cluster_offset / 512 in
            let (status, remaining', bytes) =
              read_sectors (g.sectors_per_cluster - sector_index) cluster_lba sector_index
                (cluster_offset % 512) remaining in
            if not (is_ok status)
            then (status, bytes)
            else if (remaining' == 0) && not reaches_eof
            then (ok, bytes)
            else elim (next_cluster cluster) [
              | failed status' ↦ (status', bytes)
              | chain_end ↦ (if remaining' == 0 then ok else corrupt, bytes)
              | next_is n ↦
                  let (status', bytes') = read_clusters reaches_eof left n 0 remaining' in
                  if remaining' == 0 then (corrupt, bytes) else (status', bytes ++ bytes')
            ]
      ]

  -- read_file from the point where it has the entry: the status and the bytes in the buffer.
  unfoldable pub read_entry : FileEntry → ℕ → ℕ → Status × List ℕ
  read_entry entry offset buffer_size =
      if entry.is_directory
      then (is_directory, [])
      else if leb entry.size offset || (buffer_size == 0)
      then (ok, [])
      else if not (valid_data_cluster entry.first_cluster)
      then (corrupt, [])
      else elim (checked_mul_u32 g.sectors_per_cluster 512) [
        | none ↦ (corrupt, [])
        | some cluster_bytes ↦
            let bytes_until_eof = entry.size - offset in
            let remaining =
              if ltb buffer_size bytes_until_eof then buffer_size else bytes_until_eof in
            let clusters_to_skip = offset / cluster_bytes in
            let (status, cluster) = skip_clusters clusters_to_skip 0 entry.first_cluster in
            if remaining == 0
            then (ok, [])
            else if not (is_ok status)
            then (status, [])
            else read_clusters (remaining == bytes_until_eof) (g.cluster_count - clusters_to_skip)
                cluster (offset % cluster_bytes) remaining
      ]
