-- ===== src/Net/Checksum.antt =====
-- The Internet checksum of kernel/net/ipv4.cpp and icmp.cpp, which is the same function, and the sum that
-- kernel/net/udp.cpp begins with the addresses. The list holds the `length` bytes that are summed, so the
-- 16-bit offset reaches its end before it could wrap around; sums are uint32_t.
pub mod Sums
pub mod Folding
pub mod Writing
use linux95_kernel.Prelude.{
  ℕ, zero, suc, ◌+◌, ◌-◌, ◌*◌, ◌/◌, ◌%◌, ◌^◌, List, [], ◌∷◌, ◌==◌, if◌then◌else◌,
}

-- `sum += word` for every big-endian word, and for a last byte that stands alone.
unfoldable pub sum_words : ℕ → List ℕ → ℕ
sum_words sum [] = sum
sum_words sum (high ∷ []) = (sum + high * 256) % 2 ^ 32
sum_words sum (high ∷ low ∷ bytes) = sum_words ((sum + (high * 256 + low)) % 2 ^ 32) bytes

-- `while ((sum >> 16) != 0) sum = (sum & 0xFFFF) + (sum >> 16)`
unfoldable pub fold_carries : ℕ → ℕ → ℕ
fold_carries zero sum = sum
fold_carries (suc fuel) sum =
    let rest = fold_carries fuel (sum % 65536 + sum / 65536) in
    if sum / 65536 == 0 then sum else rest

-- Two passes are enough for any sum of 32 bits.
abbrev pub passes : ℕ
passes = 2

unfoldable pub finish : ℕ → ℕ
finish sum = 65535 - fold_carries passes sum % 65536

unfoldable pub checksum : List ℕ → ℕ
checksum bytes = finish (sum_words 0 bytes)
