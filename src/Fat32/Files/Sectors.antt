-- ===== src/Fat32/Files/Sectors.antt =====
-- The sectors of one cluster, read in a row from some byte on.
use linux95_kernel.Prelude.{
  ℕ, zero, suc, ◌+◌, ◌-◌, ◌*◌, ◌≤◌, ◌<◌, ◌≡◌, refl, sym, ap, ◌∙◌, Option, none, some, List, [],
  ◌++◌, ltb, ◌==◌, length, take, drop, length-drop, drop-append, drop-append_past, take-append,
  take_all, length-append, arith, Bool-cases, inl, inr,
}
use mathlib.Core.Path.{subst}
use linux95_kernel.Vfs.{ok}
use linux95_kernel.Fat32.{uint32_max, BpbGeometry, checked_add_u32}
use linux95_kernel.Fat32.Files.{amount_of, read_sectors}

module _ (read_sector : ℕ → Option (List ℕ)) where
  abbrev pub sector_at : ℕ → List ℕ
  sector_at lba = elim (read_sector lba) [ none ↦ [] | some sector ↦ sector ]

  -- The bytes of `count` sectors from `lba` on.
  unfoldable pub run_of : ℕ → ℕ → List ℕ
  run_of lba zero = []
  run_of lba (suc count) = sector_at lba ++ run_of (lba + 1) count

  -- These sectors can be read.
  abbrev pub Readable : ℕ → ℕ → Type 0
  Readable lba count =
      (i : ℕ)
      → i < count
      → (lba + i ≤ uint32_max)
        × (read_sector (lba + i) ≡ some (sector_at (lba + i)))
        × (length (sector_at (lba + i)) ≡ 512)

  first-Readable :
      (lba count : ℕ)
      → Readable lba (suc count)
      → (lba ≤ uint32_max)
        × (read_sector lba ≡ some (sector_at lba))
        × (length (sector_at lba) ≡ 512)
  first-Readable lba count readable =
      let same : lba + 0 ≡ lba = omega arith in
      subst
        (λ x.
          (x ≤ uint32_max) × (read_sector x ≡ some (sector_at x)) × (length (sector_at x) ≡ 512))
        same (readable 0 (omega arith))

  later-Readable : (lba count : ℕ) → Readable lba (suc count) → Readable (lba + 1) count
  later-Readable lba count readable i lt =
      let same : lba + suc i ≡ lba + 1 + i = omega arith in
      subst
        (λ x.
          (x ≤ uint32_max) × (read_sector x ≡ some (sector_at x)) × (length (sector_at x) ≡ 512))
        same (readable (suc i) (omega (arith, lt)))

  pub length-run_of : (lba count : ℕ) → Readable lba count → length (run_of lba count) ≡ count * 512
  unfolding run_of
  length-run_of lba zero readable = refl
  length-run_of lba (suc count) readable = omega (
    arith,
    length-append (sector_at lba) (run_of (lba + 1) count),
    (first-Readable lba count readable).2,
    length-run_of (lba + 1) count (later-Readable lba count readable),
  )

  -- The bytes of one sector and those of the sectors behind it.
  take_amount :
      (inside r : ℕ) (s t : List ℕ)
      → inside < 512
      → length s ≡ 512
      → take (amount_of inside r) (drop inside s) ++ take (r - amount_of inside r) t
        ≡ take r (drop inside (s ++ t))
  take_amount inside r s t lt full =
      let whole : length (drop inside s) ≡ 512 - inside =
        length-drop inside s ∙ ap (λ n. n - inside) full in
      let dropped : drop inside (s ++ t) ≡ drop inside s ++ t =
        drop-append inside s t (omega (arith, lt, full)) in
      elim (Bool-cases (ltb r (512 - inside))) [
        | inl short ↦
            let none_left : r - r ≡ r - length (drop inside s) = ground (arith, short, whole) in
            rw (short, dropped, take-append r (drop inside s) t, sym none_left) refl
        | inr long ↦
            let all : take (512 - inside) (drop inside s) ≡ take r (drop inside s) =
              take_all (512 - inside) (drop inside s) (omega (arith, whole))
              ∙ sym (take_all r (drop inside s) (ground (arith, long, whole))) in
            rw (long, dropped, take-append r (drop inside s) t, whole, all) refl
      ]

  -- The part of a run from some sector on.
  pub drop-run_of :
      (count more total lba x : ℕ)
      → total ≡ count + more
      → Readable lba total
      → drop (count * 512 + x) (run_of lba total) ≡ drop x (run_of (lba + count) more)
  unfolding run_of
  drop-run_of zero more total lba x e readable =
      let near : lba + 0 ≡ lba = omega arith in
      let whole : total ≡ more = omega (arith, e) in
      let from : 0 * 512 + x ≡ x = omega arith in rw (near, whole, from) refl
  drop-run_of (suc count) more zero lba x e readable = absurd (omega (arith, e))
  drop-run_of (suc count) more (suc total) lba x e readable =
      let (low, found, full) = first-Readable lba total readable in
      let near : lba + suc count ≡ lba + 1 + count = omega arith in
      let past : suc count * 512 + x ≡ length (sector_at lba) + (count * 512 + x) =
        omega (arith, full) in
      drop-append_past (count * 512 + x) (suc count * 512 + x) (sector_at lba)
        (run_of (lba + 1) total) past
      ∙ drop-run_of count more total (lba + 1) x (omega (arith, e))
          (later-Readable lba total readable)
      ∙ ap (λ n. drop x (run_of n more)) (sym near)

  empty_part : (r inside : ℕ) → take r (drop {A = ℕ} inside []) ≡ []
  empty_part zero zero = refl
  empty_part zero (suc inside) = refl
  empty_part (suc r) zero = refl
  empty_part (suc r) (suc inside) = refl

  add_fits : (a b : ℕ) → a + b ≤ uint32_max → checked_add_u32 a b ≡ some (a + b)
  unfolding checked_add_u32
  add_fits a b fits = ground (arith, fits)

  amount_left :
      (inside r left : ℕ)
      → inside < 512
      → r - amount_of inside r - (left * 512 - 0) ≡ r - (suc left * 512 - inside)
  amount_left inside r left lt = ground (arith, lt)

  pub read_sectors_lem :
      (g : BpbGeometry) (left lba i inside r : ℕ)
      → inside < 512
      → Readable (lba + i) left
      → read_sectors g read_sector left lba i inside r
        ≡ (ok, r - (left * 512 - inside), take r (drop inside (run_of (lba + i) left)))
  unfolding read_sectors run_of
  read_sectors_lem g zero lba i inside r lt readable =
      let kept : r ≡ r - (0 - inside) = omega arith in rw (sym kept, empty_part r inside) refl
  read_sectors_lem g (suc left) lba i inside r lt readable = elim (Bool-cases (r == 0)) [
    | inl done ↦
        let z : r ≡ 0 = ground (arith, done) in
        let none_left : 0 - (suc left * 512 - inside) ≡ 0 = omega arith in rw (z, none_left) refl
    | inr more ↦
        let (low, found, full) = first-Readable (lba + i) left readable in
        let added : checked_add_u32 lba i ≡ some (lba + i) = add_fits lba i low in
        let near : lba + i + 1 ≡ lba + (i + 1) = omega arith in
        let behind : Readable (lba + (i + 1)) left =
          subst (λ x. Readable x left) near (later-Readable (lba + i) left readable) in
        let rest =
          read_sectors_lem g left lba (i + 1) 0 (r - amount_of inside r) (omega arith) behind in
        let left_over : r - amount_of inside r - (left * 512 - 0) ≡ r - (suc left * 512 - inside) =
          amount_left inside r left lt in
        rw (more, added, found, rest, left_over, near)
          (ap (λ bytes. (ok, r - (suc left * 512 - inside), bytes))
            (take_amount inside r (sector_at (lba + i)) (run_of (lba + (i + 1)) left) lt full))
  ]
