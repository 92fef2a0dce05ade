-- ===== src/Net/Checksum/Sums.antt =====
-- The sum of the words of a buffer: what the loops add up, and how a written field changes it.
use linux95_kernel.Prelude.{
  ℕ, zero, suc, ◌+◌, ◌*◌, ◌%◌, ◌^◌, ◌≤◌, ◌<◌, ◌≡◌, ◌≢◌, ◌↔◌, ◌∙◌, List, [], ◌∷◌, arith, length,
}
use Prim.{Unit}
use linux95_kernel.Net.Bytes.{byte, read_be16, write_be16, length-write_be16}
use linux95_kernel.Net.Checksum.{sum_words, checksum}
use linux95_kernel.Net.Checksum.Folding.{finish-zero, finish_zero_only}

abbrev pub IsBytes : List ℕ → Type 0
IsBytes [] = Unit
IsBytes (x ∷ xs) = (x < 256) × IsBytes xs

pub byte-lt : (bytes : List ℕ) (k : ℕ) → IsBytes bytes → byte bytes k < 256
byte-lt [] k all = omega arith
byte-lt (x ∷ bytes) zero all = all.0
byte-lt (x ∷ bytes) (suc k) all = byte-lt bytes k all.1

-- The words as numbers that do not wrap around.
abbrev pub words : List ℕ → ℕ
words [] = 0
words (high ∷ []) = high * 256
words (high ∷ low ∷ bytes) = high * 256 + low + words bytes

pub words-le : (bytes : List ℕ) → IsBytes bytes → 2 * words bytes ≤ 65535 * (length bytes + 1)
words-le [] all = omega arith
words-le (high ∷ []) all = let h = all.0 in omega (arith, h)
words-le (high ∷ low ∷ bytes) all =
    let h = all.0 in
    let l = all.1.0 in let rest = words-le bytes all.1.1 in omega (arith, h, l, rest)

pub sum_words_lem :
    (bytes : List ℕ) (sum : ℕ)
    → IsBytes bytes
    → 2 * sum + 65535 * (length bytes + 1) < 2 ^ 33
    → sum_words sum bytes ≡ sum + words bytes
unfolding sum_words
sum_words_lem [] sum all room = omega arith
sum_words_lem (high ∷ []) sum all room = let h = all.0 in omega (arith, h, room)
sum_words_lem (high ∷ low ∷ bytes) sum all room =
    let h = all.0 in
    let l = all.1.0 in
    let here : (sum + (high * 256 + low)) % 2 ^ 32 ≡ sum + (high * 256 + low) =
      omega (arith, h, l, room) in
    rw here (
      sum_words_lem bytes (sum + (high * 256 + low)) all.1.1 (omega (arith, h, l, room))
      ∙ omega arith)

-- A buffer passes when its words add up to a positive multiple of 65535.
pub checksum-zero :
    (bytes : List ℕ)
    → IsBytes bytes
    → length bytes < 2 ^ 16
    → (checksum bytes ≡ 0) ↔ ((words bytes % 65535 ≡ 0) × (words bytes ≢ 0))
unfolding checksum
checksum-zero bytes all short =
    let e : sum_words 0 bytes ≡ words bytes =
      sum_words_lem bytes 0 all (omega arith) ∙ omega arith in
    let bound = words-le bytes all in
    rw e (
      finish_zero_only (words bytes) (omega (arith, bound)),
      λ m. finish-zero (words bytes) (omega (arith, bound)) m.0 m.1,
    )

-- A field at an even offset counts as its value.
pub words-write_be16 :
    (bytes : List ℕ) (k v : ℕ)
    → 2 * k + 1 < length bytes
    → v < 2 ^ 16
    → words (write_be16 bytes (2 * k) v) + read_be16 bytes (2 * k) ≡ words bytes + v
unfolding write_be16 read_be16
words-write_be16 [] k v room small = absurd (omega arith)
words-write_be16 (high ∷ []) k v room small = absurd (omega arith)
words-write_be16 (high ∷ low ∷ bytes) zero v room small = omega arith
words-write_be16 (high ∷ low ∷ bytes) (suc k) v room small =
    let rest = words-write_be16 bytes k v (omega arith) small in
    let at : 2 * suc k ≡ suc (suc (2 * k)) = omega arith in
    let at' : suc (suc (2 * k)) + 1 ≡ suc (suc (2 * k + 1)) = omega arith in
    rw (at, at') (omega (arith, rest))

-- In a buffer of less than 64 KiB whose checksum is right, writing another value to a 16-bit field
-- at an even offset is found, where the value differs from the old one modulo 65535.
pub checksum-detects :
    (bytes : List ℕ) (k v : ℕ)
    → IsBytes bytes
    → IsBytes (write_be16 bytes (2 * k) v)
    → length bytes < 2 ^ 16
    → 2 * k + 1 < length bytes
    → v < 2 ^ 16
    → v % 65535 ≢ read_be16 bytes (2 * k) % 65535
    → checksum bytes ≡ 0
    → checksum (write_be16 bytes (2 * k) v) ≢ 0
checksum-detects bytes k v all all' short room small other passed passed' =
    let before = (checksum-zero bytes all short).0 passed in
    let fits : length (write_be16 bytes (2 * k) v) < 2 ^ 16 =
      omega (arith, length-write_be16 bytes (2 * k) v) in
    let after = (checksum-zero (write_be16 bytes (2 * k) v) all' fits).0 passed' in
    let changed = words-write_be16 bytes k v room small in
    let b = before.0 in let a = after.0 in omega (arith, a, b, changed, other)
