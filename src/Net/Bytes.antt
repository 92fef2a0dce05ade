-- ===== src/Net/Bytes.antt =====
-- Byte buffers and big-endian 16-bit fields: kernel/net/net_types.hpp and the read_be16 and write_be16
-- that each protocol file has. A buffer is the list of its bytes; a MAC address has six of them, an IPv4
-- address four.
use linux95_kernel.Prelude.{
  ℕ, zero, suc, ◌+◌, ◌*◌, ◌/◌, ◌%◌, ◌^◌, ◌≤◌, ◌<◌, ◌≡◌, ◌≢◌, refl, ap, ◌∙◌, inl, inr, ◌⊎◌, Bool,
  true, false, List, [], ◌∷◌, ◌==◌, if◌then◌else◌, get_or, set, take, drop, length, length-set,
  length-drop, arith,
}

-- `bytes[offset]`
abbrev pub byte : List ℕ → ℕ → ℕ
byte bytes offset = get_or bytes offset 0

-- `(bytes[offset] << 8) | bytes[offset + 1]`: the two bytes do not overlap.
unfoldable pub read_be16 : List ℕ → ℕ → ℕ
read_be16 bytes offset = byte bytes offset * 256 + byte bytes (offset + 1)

unfoldable pub write_be16 : List ℕ → ℕ → ℕ → List ℕ
write_be16 bytes offset value =
    set (set bytes offset (value / 256 % 256)) (offset + 1) (value % 256)

-- host_to_be16, and be16_to_host, which is the same function.
unfoldable pub host_to_be16 : ℕ → ℕ
host_to_be16 value = (value * 256 + value / 256) % 2 ^ 16

-- `for (i = 0; i < n; ++i) bytes[offset + i] = source[i]`, where the source has the n bytes.
unfoldable pub write_bytes : List ℕ → ℕ → List ℕ → List ℕ
write_bytes bytes offset [] = bytes
write_bytes bytes offset (x ∷ xs) = write_bytes (set bytes offset x) (offset + 1) xs

-- `for (i = 0; i < n; ++i) out[i] = bytes[offset + i]`
abbrev pub read_bytes : List ℕ → ℕ → ℕ → List ℕ
read_bytes bytes offset n = take n (drop offset bytes)

-- An address as the loops compare it.
unfoldable pub bytes_equal : List ℕ → List ℕ → Bool
bytes_equal [] [] = true
bytes_equal [] (y ∷ ys) = false
bytes_equal (x ∷ xs) [] = false
bytes_equal (x ∷ xs) (y ∷ ys) = if x == y then bytes_equal xs ys else false

pub bytes_equal-eq : (xs ys : List ℕ) → bytes_equal xs ys ≡ true → xs ≡ ys
unfolding bytes_equal
bytes_equal-eq [] [] h = refl
bytes_equal-eq [] (y ∷ ys) h = absurd (ground arith)
bytes_equal-eq (x ∷ xs) [] h = absurd (ground arith)
bytes_equal-eq (x ∷ xs) (y ∷ ys) h = ground (arith, bytes_equal-eq xs ys)

pub bytes_equal_refl : (xs : List ℕ) → bytes_equal xs xs ≡ true
unfolding bytes_equal
bytes_equal_refl [] = refl
bytes_equal_refl (x ∷ xs) = ground (arith, bytes_equal_refl xs)

-- Swapping the bytes twice gives the number back.
pub host_to_be16_twice : (value : ℕ) → value < 2 ^ 16 → host_to_be16 (host_to_be16 value) ≡ value
unfolding host_to_be16
host_to_be16_twice value h = omega arith

pub byte-set_self : (bs : List ℕ) (i v : ℕ) → i < length bs → byte (set bs i v) i ≡ v
byte-set_self [] i v h = absurd (omega arith)
byte-set_self (x ∷ bs) zero v h = refl
byte-set_self (x ∷ bs) (suc i) v h = byte-set_self bs i v (omega arith)

pub byte-set_ne : (bs : List ℕ) (i j v : ℕ) → i ≢ j → byte (set bs i v) j ≡ byte bs j
byte-set_ne [] i j v h = refl
byte-set_ne (x ∷ bs) zero zero v h = absurd (h refl)
byte-set_ne (x ∷ bs) zero (suc j) v h = refl
byte-set_ne (x ∷ bs) (suc i) zero v h = refl
byte-set_ne (x ∷ bs) (suc i) (suc j) v h = byte-set_ne bs i j v (λ e. h (ap suc e))

pub length-write_be16 : (bs : List ℕ) (o v : ℕ) → length (write_be16 bs o v) ≡ length bs
unfolding write_be16
length-write_be16 bs o v =
    length-set (set bs o (v / 256 % 256)) (o + 1) (v % 256) ∙ length-set bs o (v / 256 % 256)

pub read_be16-write_be16 :
    (bs : List ℕ) (o v : ℕ) → o + 1 < length bs → v < 2 ^ 16 → read_be16 (write_be16 bs o v) o ≡ v
unfolding read_be16 write_be16
read_be16-write_be16 bs o v room h =
    let high = v / 256 % 256 in
    let a = byte-set_self (set bs o high) (o + 1) (v % 256) (omega (arith, length-set bs o high)) in
    let b = byte-set_ne (set bs o high) (o + 1) o (v % 256) (omega arith) in
    let c = byte-set_self bs o high (omega arith) in omega (arith, a, b, c)

pub byte-write_be16_ne :
    (bs : List ℕ) (o v j : ℕ) → j ≢ o → j ≢ o + 1 → byte (write_be16 bs o v) j ≡ byte bs j
unfolding write_be16
byte-write_be16_ne bs o v j n m =
    byte-set_ne (set bs o (v / 256 % 256)) (o + 1) j (v % 256) (λ e. m (omega arith))
    ∙ byte-set_ne bs o j (v / 256 % 256) (λ e. n (omega arith))

pub length-write_bytes : (xs bs : List ℕ) (o : ℕ) → length (write_bytes bs o xs) ≡ length bs
unfolding write_bytes
length-write_bytes [] bs o = refl
length-write_bytes (x ∷ xs) bs o = length-write_bytes xs (set bs o x) (o + 1) ∙ length-set bs o x

-- Bytes outside the written range keep their value.
pub byte-write_bytes_out :
    (xs bs : List ℕ) (o j : ℕ)
    → ((j < o) ⊎ (o + length xs ≤ j))
    → byte (write_bytes bs o xs) j ≡ byte bs j
unfolding write_bytes
byte-write_bytes_out [] bs o j h = refl
byte-write_bytes_out (x ∷ xs) bs o j h =
    byte-write_bytes_out xs (set bs o x) (o + 1) j (next h) ∙ byte-set_ne bs o j x (apart h)
  where
    next : ((j < o) ⊎ (o + suc (length xs) ≤ j)) → ((j < o + 1) ⊎ (o + 1 + length xs ≤ j))
    next (inl lt) = inl (omega arith)
    next (inr ge) = inr (omega arith)

    apart : ((j < o) ⊎ (o + suc (length xs) ≤ j)) → o ≢ j
    apart (inl lt) = omega arith
    apart (inr ge) = omega arith

-- The bytes of the written range are those of the source.
pub byte-write_bytes_in :
    (xs bs : List ℕ) (o k : ℕ)
    → o + length xs ≤ length bs
    → k < length xs
    → byte (write_bytes bs o xs) (o + k) ≡ byte xs k
unfolding write_bytes
byte-write_bytes_in [] bs o k room h = absurd (omega arith)
byte-write_bytes_in (x ∷ xs) bs o zero room h =
    let e : o + 0 ≡ o = omega arith in
    rw e (
      byte-write_bytes_out xs (set bs o x) (o + 1) o (inl (omega arith))
      ∙ byte-set_self bs o x (omega arith))
byte-write_bytes_in (x ∷ xs) bs o (suc k) room h =
    let e : o + suc k ≡ o + 1 + k = omega arith in
    rw e (
      byte-write_bytes_in xs (set bs o x) (o + 1) k (omega (arith, length-set bs o x))
        (omega arith))

byte-drop : (bs : List ℕ) (o k : ℕ) → byte (drop o bs) k ≡ byte bs (o + k)
byte-drop bs zero k = ap (byte bs) (omega arith)
byte-drop [] (suc o) k = refl
byte-drop (x ∷ bs) (suc o) k =
    let e : suc o + k ≡ suc (o + k) = omega arith in rw e (byte-drop bs o k)

-- Two lists with the same bytes: one as long as the range that is read.
read_bytes-eq :
    (xs bs : List ℕ)
    → length xs ≤ length bs
    → ((k : ℕ) → k < length xs → byte bs k ≡ byte xs k)
    → take (length xs) bs ≡ xs
read_bytes-eq [] bs le same = refl
read_bytes-eq (x ∷ xs) [] le same = absurd (omega arith)
read_bytes-eq (x ∷ xs) (b ∷ bs) le same =
    rw
      (same 0 (omega arith), read_bytes-eq xs bs (omega arith) (λ k lt. same (suc k) (omega arith)))

-- A range that agrees with a list byte by byte reads as that list.
pub read_bytes-agrees :
    (xs bs : List ℕ) (o : ℕ)
    → o + length xs ≤ length bs
    → ((k : ℕ) → k < length xs → byte bs (o + k) ≡ byte xs k)
    → read_bytes bs o (length xs) ≡ xs
read_bytes-agrees xs bs o room same =
    read_bytes-eq xs (drop o bs) (omega (arith, length-drop o bs))
      (λ k lt. byte-drop bs o k ∙ same k lt)
