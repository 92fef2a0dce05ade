-- ===== src/Fat32/Files/Reading.antt =====
-- The reading of a file from any offset, once its directory entry is found.
use linux95_kernel.Prelude.{
  ℕ, zero, suc, ◌+◌, ◌-◌, ◌*◌, ◌/◌, ◌%◌, ◌≤◌, ◌<◌, ◌≡◌, refl, sym, ap, ◌∙◌, Bool, true, false,
  Option, some, List, [], ◌∷◌, ltb, leb, ◌==◌, ◌||◌, if◌then◌else◌, length, take, drop,
  drop-append_past, arith, Bool-cases, inl, inr,
}
use native.Mathlib.Nat.{mul-le-mul_right, add-mul, mod-lt, mul_comm}
use native.Mathlib.Omega.{div_any}
use linux95_kernel.Vfs.{ok}
use linux95_kernel.Fat32.{BpbGeometry, checked_mul_u32}
use linux95_kernel.Fat32.Files.{FileEntry, skip_clusters, read_clusters, read_entry}
use linux95_kernel.Fat32.Volume.{checked_mul_u32-fits}
use linux95_kernel.Fat32.Files.Chains.{
  Chain, contents, cluster_bytes, Chain-Stored, length-cluster_bytes, read_clusters_lem,
}

module _ (g : BpbGeometry) (read_sector : ℕ → Option (List ℕ)) where
  -- Where the loop over the clusters in front of the offset ends.
  pub record Skipped (c : ℕ) (ns : List ℕ) (k transitions : ℕ) : Type 0 where
    pub cluster : ℕ
    pub behind : List ℕ
    pub found : skip_clusters g read_sector k transitions c ≡ (ok, cluster)
    pub chain : Chain g read_sector cluster behind
    pub counted : length behind + k ≡ length ns
    pub bytes :
        (x : ℕ)
        → drop (k * (g.sectors_per_cluster * 512) + x) (contents g read_sector c ns)
          ≡ drop x (contents g read_sector cluster behind)

  skip_clusters-Skipped :
      (k transitions c : ℕ) (ns : List ℕ)
      → Chain g read_sector c ns
      → k ≤ length ns
      → transitions + k < g.cluster_count
      → Skipped c ns k transitions
  unfolding skip_clusters
  skip_clusters-Skipped zero transitions c ns chain le room = record {
    cluster = c;
    behind = ns;
    found = refl;
    chain = chain;
    counted = omega arith;
    bytes = λ x.
        let same : 0 * (g.sectors_per_cluster * 512) + x ≡ x = omega arith in
        ap (λ n. drop n (contents g read_sector c ns)) same;
  }
  skip_clusters-Skipped (suc k) transitions c [] chain le room = absurd (omega (arith, le))
  skip_clusters-Skipped (suc k) transitions c (n ∷ ns) chain le room =
      let size = g.sectors_per_cluster * 512 in
      let rest =
        skip_clusters-Skipped k (transitions + 1) n ns chain.2 (omega (arith, le))
          (omega (arith, room)) in
      let early : leb g.cluster_count transitions ≡ false = ground (arith, room) in
      record {
        cluster = rest.cluster;
        behind = rest.behind;
        found = rw (early, chain.0.0, chain.1) rest.found;
        chain = rest.chain;
        counted = omega (arith, rest.counted);
        bytes = λ x.
            let past : suc k * size + x ≡ length (cluster_bytes g read_sector c) + (k * size + x) =
              omega (arith, length-cluster_bytes g read_sector c chain.0) in
            drop-append_past (k * size + x) (suc k * size + x) (cluster_bytes g read_sector c)
              (contents g read_sector n ns) past
            ∙ rest.bytes x;
      }

  abbrev pub readable_size : FileEntry → ℕ → ℕ → ℕ
  readable_size entry offset buffer_size =
      if ltb buffer_size (entry.size - offset) then buffer_size else entry.size - offset

  -- A read that starts at byte `x` of the cluster behind `k` others, with something to read.
  read_behind :
      (c k x r size : ℕ) (ns : List ℕ) (reaches : Bool)
      → Chain g read_sector c ns
      → x < g.sectors_per_cluster * 512
      → 0 < r
      → k * (g.sectors_per_cluster * 512) + x + r ≤ size
      → (reaches ≡ true → size ≤ k * (g.sectors_per_cluster * 512) + x + r)
      → length ns < g.cluster_count
      → length ns * (g.sectors_per_cluster * 512) < size
      → size ≤ (length ns + 1) * (g.sectors_per_cluster * 512)
      → (skip_clusters g read_sector k 0 c).0 ≡ ok
        × (read_clusters g read_sector reaches
              (g.cluster_count - k)
              (skip_clusters g read_sector k 0 c).1
              x
              r
            ≡ (
              ok,
              take r (drop (k * (g.sectors_per_cluster * 512) + x) (contents g read_sector c ns)),
            ))
  read_behind c k x r size ns reaches chain lt positive fits reached room above below =
      let cb = g.sectors_per_cluster * 512 in
      let k_le : k ≤ length ns = elim (Bool-cases (leb k (length ns))) [
        | inl le ↦ ground (arith, le)
        | inr gt ↦
            let over : (length ns + 1) * cb ≤ k * cb = mul-le-mul_right cb (ground (arith, gt)) in
            absurd (omega (arith, over, fits, below, positive))
      ] in
      let s = skip_clusters-Skipped k 0 c ns chain k_le (omega (arith, k_le, room)) in
      let parts : length ns * cb ≡ length s.behind * cb + k * cb =
        sym (ap (λ n. n * cb) s.counted) ∙ add-mul (length s.behind) k cb in
      let read : read_clusters g read_sector reaches (g.cluster_count - k) s.cluster x r
          ≡ (ok, take r (drop x (contents g read_sector s.cluster s.behind))) =
        read_clusters_lem g read_sector reaches (g.cluster_count - k) s.cluster x r s.behind s.chain
          (omega (arith, s.counted, room)) lt positive (omega (arith, parts, fits, below))
          (λ e. omega (arith, parts, above, reached e)) in
      rw (s.found, read, s.bytes x) (refl, refl)

  cluster_size_fits : (spc : ℕ) → spc ≤ 128 → checked_mul_u32 spc 512 ≡ some (spc * 512)
  cluster_size_fits spc small = checked_mul_u32-fits spc 512 (omega (arith, small))

  whole_rest :
      (r size offset at : ℕ)
      → at ≡ offset
      → offset < size
      → (r == size - offset) ≡ true
      → size ≤ at + r
  whole_rest r size offset at e lt h = ground (arith, e, lt, h)

  -- Where the allocation table leads from a file's first cluster over a chain of clusters to its
  -- end, all of which can be read, which has no more clusters than the volume, and which is just
  -- long enough for the file's size, with clusters of 1 to 128 sectors: reading into a buffer of
  -- any size from any offset succeeds, and gives as many bytes of the clusters' contents from the
  -- offset on as fit the buffer and come before the end of the file.
  pub read_entry_lem :
      (entry : FileEntry) (ns : List ℕ) (offset buffer_size : ℕ)
      → Chain g read_sector entry.first_cluster ns
      → entry.is_directory ≡ false
      → (0 < g.sectors_per_cluster) × (g.sectors_per_cluster ≤ 128)
      → length ns < g.cluster_count
      → length ns * (g.sectors_per_cluster * 512) < entry.size
      → entry.size ≤ (length ns + 1) * (g.sectors_per_cluster * 512)
      → read_entry g read_sector entry offset buffer_size ≡ (
        ok,
        take
            (readable_size entry offset buffer_size)
            (drop offset (contents g read_sector entry.first_cluster ns)),
      )
  unfolding read_entry
  read_entry_lem entry ns offset buffer_size chain file sizes room above below =
      let cb = g.sectors_per_cluster * 512 in
      let k = offset / cb in
      let x = offset % cb in
      let r = readable_size entry offset buffer_size in
      let nonzero : 0 < cb = omega (arith, sizes) in
      let at : k * cb + x ≡ offset = ap (λ n. n + x) (mul_comm k cb) ∙ div_any offset cb in
      elim (Bool-cases (leb entry.size offset || (buffer_size == 0))) [
        | inl nothing ↦ let z : r ≡ 0 = ground (arith, nothing) in rw (file, nothing, z) refl
        | inr something ↦
            let bounds : (0 < r) × (r ≤ entry.size - offset) × (offset < entry.size) =
              (ground (arith, something), ground (arith, something), ground (arith, something)) in
            let product : checked_mul_u32 g.sectors_per_cluster 512 ≡ some cb =
              cluster_size_fits g.sectors_per_cluster sizes.1 in
            let positive : (r == 0) ≡ false = ground (arith, bounds.0) in
            let read =
              read_behind entry.first_cluster k x r entry.size ns (r == entry.size - offset) chain
                (mod-lt offset nonzero) bounds.0 (omega (arith, at, bounds))
                (λ e. whole_rest r entry.size offset (k * cb + x) at bounds.2 e) room above below in
            rw
              (
                file,
                something,
                (Chain-Stored g read_sector entry.first_cluster ns chain).0,
                product,
                positive,
                read.0,
                read.1,
                at,
              )
              refl
      ]
