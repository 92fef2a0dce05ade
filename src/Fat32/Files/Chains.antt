-- ===== src/Fat32/Files/Chains.antt =====
-- Reading along the chain of clusters of a file.
use linux95_kernel.Prelude.{
  ℕ, zero, suc, ◌+◌, ◌-◌, ◌*◌, ◌/◌, ◌%◌, ◌≤◌, ◌<◌, ◌≡◌, refl, sym, ap, ◌∙◌, Bool, true, false,
  Option, none, some, List, [], ◌∷◌, ◌++◌, ◌==◌, length, take, drop, length-drop, drop-append,
  take-append, arith, Bool-cases, inl, inr,
}
use mathlib.Core.Path.{subst}
use mathlib.Core.List.{append-nil}
use native.Mathlib.Nat.{mul-le-mul_right}
use linux95_kernel.Vfs.{ok}
use linux95_kernel.Fat32.{uint32_max, BpbGeometry, cluster_to_lba}
use linux95_kernel.Fat32.Files.{
  chain_end, next_is, valid_data_cluster, next_cluster, read_sectors, read_clusters,
}
use linux95_kernel.Fat32.Files.Sectors.{
  Readable, run_of, length-run_of, drop-run_of, read_sectors_lem,
}

-- The bytes of two parts in a row.
take-drop-append :
    {A : Type 0} (r off : ℕ) (xs ys : List A)
    → off ≤ length xs
    → take r (drop off (xs ++ ys)) ≡ take r (drop off xs) ++ take (r - (length xs - off)) ys
take-drop-append r off xs ys le =
    rw (drop-append off xs ys le, take-append r (drop off xs) ys, length-drop off xs) refl

module _ (g : BpbGeometry) (read_sector : ℕ → Option (List ℕ)) where
  abbrev pub cluster_at : ℕ → ℕ
  cluster_at c = g.first_data_lba + (c - 2) * g.sectors_per_cluster

  abbrev pub cluster_bytes : ℕ → List ℕ
  cluster_bytes c = run_of read_sector (cluster_at c) g.sectors_per_cluster

  -- A cluster of the volume whose sectors can be read.
  abbrev pub Stored : ℕ → Type 0
  Stored c =
      (valid_data_cluster g read_sector c ≡ true)
      × (cluster_to_lba g.first_data_lba g.sectors_per_cluster c ≡ some (cluster_at c))
      × Readable read_sector (cluster_at c) g.sectors_per_cluster

  -- The table leads from the first cluster over the listed ones to the end of the chain.
  abbrev pub Chain : ℕ → List ℕ → Type 0
  Chain c [] = Stored c × (next_cluster g read_sector c ≡ chain_end)
  Chain c (n ∷ ns) = Stored c × (next_cluster g read_sector c ≡ next_is n) × Chain n ns

  -- The bytes of the clusters, one after the other.
  abbrev pub contents : ℕ → List ℕ → List ℕ
  contents c [] = cluster_bytes c
  contents c (n ∷ ns) = cluster_bytes c ++ contents n ns

  pub Chain-Stored : (c : ℕ) (ns : List ℕ) → Chain c ns → Stored c
  Chain-Stored c [] chain = chain.0
  Chain-Stored c (n ∷ ns) chain = chain.0

  one_cluster :
      (c off r : ℕ)
      → Stored c
      → off < g.sectors_per_cluster * 512
      → read_sectors g read_sector
          (g.sectors_per_cluster - off / 512)
          (cluster_at c)
          (off / 512)
          (off % 512)
          r
        ≡ (ok, r - (g.sectors_per_cluster * 512 - off), take r (drop off (cluster_bytes c)))
  one_cluster c off r stored lt =
      let spc = g.sectors_per_cluster in
      let left : spc ≡ off / 512 + (spc - off / 512) = omega (arith, lt) in
      let behind : Readable read_sector (cluster_at c + off / 512) (spc - off / 512) = λ i below.
        let near : cluster_at c + (off / 512 + i) ≡ cluster_at c + off / 512 + i = omega arith in
        subst
          (λ x.
            (x ≤ uint32_max)
            × (read_sector x ≡ some (elim (read_sector x) [ none ↦ [] | some s ↦ s ]))
            × (length (elim (read_sector x) [ none ↦ [] | some s ↦ s ]) ≡ 512))
          near (stored.2 (off / 512 + i) (omega (arith, below))) in
      let from : off / 512 * 512 + off % 512 ≡ off = omega arith in
      let rest : (spc - off / 512) * 512 - off % 512 ≡ spc * 512 - off = omega (arith, lt) in
      let dropped =
        drop-run_of read_sector (off / 512) (spc - off / 512) spc (cluster_at c) (off % 512) left
          stored.2 in
      let parts : drop (off % 512) (run_of read_sector (cluster_at c + off / 512) (spc - off / 512))
          ≡ drop off (cluster_bytes c) =
        sym dropped ∙ ap (λ n. drop n (cluster_bytes c)) from in
      read_sectors_lem read_sector g (spc - off / 512) (cluster_at c) (off / 512) (off % 512) r
        (omega arith) behind
      ∙ rw (rest, parts) refl

  -- One round of the loop, by what follows the cluster in the table.
  last_round :
      (reaches : Bool) (left c off r : ℕ)
      → Stored c
      → off < g.sectors_per_cluster * 512
      → r - (g.sectors_per_cluster * 512 - off) ≡ 0
      → (reaches ≡ true → next_cluster g read_sector c ≡ chain_end)
      → read_clusters g read_sector reaches (suc left) c off r
        ≡ (ok, take r (drop off (cluster_bytes c)))
  unfolding read_clusters
  last_round true left c off r stored lt all ends =
      let read = one_cluster c off r stored lt in
      rw (stored.0, stored.1, read, all, ends refl, read, all) refl
  last_round false left c off r stored lt all ends =
      rw (stored.0, stored.1, one_cluster c off r stored lt, all) refl

  inner_round :
      (reaches : Bool) (left c n off r : ℕ)
      → Stored c
      → off < g.sectors_per_cluster * 512
      → (r - (g.sectors_per_cluster * 512 - off) == 0) ≡ false
      → next_cluster g read_sector c ≡ next_is n
      → let more =
          read_clusters g read_sector reaches left n 0 (r - (g.sectors_per_cluster * 512 - off)) in
        read_clusters g read_sector reaches (suc left) c off r
        ≡ (more.0, take r (drop off (cluster_bytes c)) ++ more.1)
  unfolding read_clusters
  inner_round reaches left c n off r stored lt some_left next =
      let read = one_cluster c off r stored lt in
      rw (stored.0, stored.1, read, some_left, next, read, some_left) refl

  pub length-cluster_bytes :
      (c : ℕ) → Stored c → length (cluster_bytes c) ≡ g.sectors_per_cluster * 512
  length-cluster_bytes c stored =
      length-run_of read_sector (cluster_at c) g.sectors_per_cluster stored.2

  pub read_clusters_lem :
      (reaches : Bool) (left c off r : ℕ) (ns : List ℕ)
      → Chain c ns
      → length ns < left
      → off < g.sectors_per_cluster * 512
      → 0 < r
      → off + r ≤ (length ns + 1) * (g.sectors_per_cluster * 512)
      → (reaches ≡ true → length ns * (g.sectors_per_cluster * 512) < off + r)
      → read_clusters g read_sector reaches left c off r ≡ (ok, take r (drop off (contents c ns)))
  read_clusters_lem reaches zero c off r ns chain enough lt positive fits reached =
      absurd (omega (arith, enough))
  read_clusters_lem reaches (suc left) c off r [] chain enough lt positive fits reached =
      last_round reaches left c off r chain.0 lt (omega (arith, fits)) (λ e. chain.1)
  read_clusters_lem reaches (suc left) c off r (n ∷ ns) chain enough lt positive fits reached =
      let size = g.sectors_per_cluster * 512 in
      let full = length-cluster_bytes c chain.0 in
      let split : take r (drop off (contents c (n ∷ ns)))
          ≡ take r (drop off (cluster_bytes c)) ++ take (r - (size - off)) (contents n ns) =
        take-drop-append r off (cluster_bytes c) (contents n ns) (omega (arith, lt, full))
        ∙ ap (λ k. take r (drop off (cluster_bytes c)) ++ take (r - (k - off)) (contents n ns))
            full in
      elim (Bool-cases (r - (size - off) == 0)) [
        | inl done ↦
            let z : r - (size - off) ≡ 0 = ground (arith, done) in
            let one : 1 * size ≤ (length ns + 1) * size =
              mul-le-mul_right {m = 1} {n = length ns + 1} size (omega arith) in
            let ends : reaches ≡ true → next_cluster g read_sector c ≡ chain_end =
              λ e. absurd (omega (arith, one, reached e, z, lt)) in
            last_round reaches left c off r chain.0 lt z ends
            ∙ ap (λ bytes. (ok, bytes))
                (sym (
                  split
                  ∙ ap (λ k. take r (drop off (cluster_bytes c)) ++ take k (contents n ns)) z
                  ∙ append-nil (take r (drop off (cluster_bytes c)))))
        | inr more ↦
            let left_over = r - (size - off) in
            let rest =
              read_clusters_lem reaches left n 0 left_over ns chain.2 (omega (arith, enough))
                (omega (arith, lt)) (ground (arith, more)) (omega (arith, fits, lt))
                (λ e. omega (arith, reached e, lt)) in
            inner_round reaches left c n off r chain.0 lt more chain.1
            ∙ rw rest (ap (λ bytes. (ok, bytes)) (sym split))
      ]
