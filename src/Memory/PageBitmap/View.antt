-- ===== src/Memory/PageBitmap/View.antt =====
-- The bitmap seen as a set of pages: what a write to one bit does to every other.
use linux95_kernel.Prelude.{
  ℕ, zero, suc, ◌/◌, ◌%◌, ◌<◌, ◌≡◌, refl, ap, ◌≢◌, inl, inr, ◌&&◌, ◌||◌, not, List, [], ◌∷◌, ◌==◌,
  get_or, set, length, arith, Bool-cases, set_bit, clear_bit, test_bit-set_bit, test_bit-clear_bit,
  bit-lt,
}
use linux95_kernel.Memory.PageBitmap.{bit_at}

abbrev pub AllBytes : List ℕ → Type 0
AllBytes [] = Unit {0}
AllBytes (x ∷ xs) = (x < 256) × AllBytes xs

pub get_or-byte : (st : List ℕ) (i : ℕ) → AllBytes st → get_or st i 0 < 256
get_or-byte [] i h = omega arith
get_or-byte (x ∷ xs) zero h = h.0
get_or-byte (x ∷ xs) (suc i) h = get_or-byte xs i h.1

pub set-AllBytes : (st : List ℕ) (i v : ℕ) → v < 256 → AllBytes st → AllBytes (set st i v)
set-AllBytes [] i v hv h = tt
set-AllBytes (x ∷ xs) zero v hv h = (hv, h.1)
set-AllBytes (x ∷ xs) (suc i) v hv h = (h.0, set-AllBytes xs i v hv h.1)

pub get_or-set_self : (st : List ℕ) (i v : ℕ) → i < length st → get_or (set st i v) i 0 ≡ v
get_or-set_self [] i v h = absurd (omega arith)
get_or-set_self (x ∷ xs) zero v h = refl
get_or-set_self (x ∷ xs) (suc i) v h = get_or-set_self xs i v (omega arith)

pub get_or-set_ne : (st : List ℕ) (i j v : ℕ) → i ≢ j → get_or (set st i v) j 0 ≡ get_or st j 0
get_or-set_ne [] i j v h = refl
get_or-set_ne (x ∷ xs) zero zero v h = absurd (h refl)
get_or-set_ne (x ∷ xs) zero (suc j) v h = refl
get_or-set_ne (x ∷ xs) (suc i) zero v h = refl
get_or-set_ne (x ∷ xs) (suc i) (suc j) v h = get_or-set_ne xs i j v (λ e. h (ap suc e))

module _ (st : List ℕ) (i : ℕ) (bytes : AllBytes st) (room : i / 8 < length st) where
  abbrev old : ℕ
  old = get_or st (i / 8) 0

  pub bit_at-set_bit :
      (j : ℕ) → bit_at (set st (i / 8) (set_bit old (i % 8))) j ≡ ((i == j) || bit_at st j)
  unfolding bit_at
  bit_at-set_bit j = elim (Bool-cases (i / 8 == j / 8)) [
    | inl same ↦
        let e : i / 8 ≡ j / 8 = ground arith in
        ground (
          arith,
          get_or-set_self st (i / 8) (set_bit old (i % 8)) room,
          ap (λ k. get_or (set st (i / 8) (set_bit old (i % 8))) k 0) e,
          ap (λ k. get_or st k 0) e,
          test_bit-set_bit old (i % 8) (get_or-byte st (i / 8) bytes) (omega arith) (j % 8)
              (omega arith),
        )
    | inr differ ↦
        ground (arith, get_or-set_ne st (i / 8) (j / 8) (set_bit old (i % 8)) (ground arith))
  ]

  pub bit_at-clear_bit :
      (j : ℕ) → bit_at (set st (i / 8) (clear_bit old (i % 8))) j ≡ (not (i == j) && bit_at st j)
  unfolding bit_at
  bit_at-clear_bit j = elim (Bool-cases (i / 8 == j / 8)) [
    | inl same ↦
        let e : i / 8 ≡ j / 8 = ground arith in
        ground (
          arith,
          get_or-set_self st (i / 8) (clear_bit old (i % 8)) room,
          ap (λ k. get_or (set st (i / 8) (clear_bit old (i % 8))) k 0) e,
          ap (λ k. get_or st k 0) e,
          test_bit-clear_bit old (i % 8) (get_or-byte st (i / 8) bytes) (omega arith) (j % 8)
              (omega arith),
        )
    | inr differ ↦
        ground (arith, get_or-set_ne st (i / 8) (j / 8) (clear_bit old (i % 8)) (ground arith))
  ]

  pub set_bit-AllBytes : AllBytes (set st (i / 8) (set_bit old (i % 8)))
  set_bit-AllBytes =
      set-AllBytes st (i / 8) _ (bit-lt old (i % 8) (get_or-byte st (i / 8) bytes) (omega arith)).0
        bytes

  pub clear_bit-AllBytes : AllBytes (set st (i / 8) (clear_bit old (i % 8)))
  clear_bit-AllBytes =
      set-AllBytes st (i / 8) _ (bit-lt old (i % 8) (get_or-byte st (i / 8) bytes) (omega arith)).1
        bytes
