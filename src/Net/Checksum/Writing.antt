-- ===== src/Net/Checksum/Writing.antt =====
-- Buffers that begin with a header of known bytes, and what is written behind it.
use linux95_kernel.Prelude.{
  ℕ, suc, ◌+◌, ◌≤◌, ◌≡◌, refl, ap, ◌∙◌, List, [], ◌∷◌, ◌++◌, set, take, length, arith,
}
use linux95_kernel.Net.Bytes.{
  write_bytes, byte-write_bytes_in, length-write_bytes, read_bytes-agrees,
}

write_bytes_shift :
    (xs bytes : List ℕ) (b o : ℕ) → write_bytes (b ∷ bytes) (suc o) xs ≡ b ∷ write_bytes bytes o xs
unfolding write_bytes
write_bytes_shift [] bytes b o = refl
write_bytes_shift (x ∷ xs) bytes b o =
    let e : suc o + 1 ≡ suc (o + 1) = omega arith in
    rw e (write_bytes_shift xs (set bytes o x) b (o + 1))

pub write_bytes-append :
    (header bytes xs : List ℕ)
    → write_bytes (header ++ bytes) (length header) xs ≡ header ++ write_bytes bytes 0 xs
write_bytes-append [] bytes xs = refl
write_bytes-append (b ∷ header) bytes xs =
    write_bytes_shift xs (header ++ bytes) b (length header)
    ∙ ap (◌∷◌ b) (write_bytes-append header bytes xs)

pub take-append_over :
    (header bytes : List ℕ) (n : ℕ)
    → take (length header + n) (header ++ bytes) ≡ header ++ take n bytes
take-append_over [] bytes n = let e : 0 + n ≡ n = omega arith in rw e refl
take-append_over (b ∷ header) bytes n =
    let e : suc (length header) + n ≡ suc (length header + n) = omega arith in
    rw e (ap (◌∷◌ b) (take-append_over header bytes n))

-- The written bytes, read back.
pub take-write_bytes :
    (bytes xs : List ℕ) → length xs ≤ length bytes → take (length xs) (write_bytes bytes 0 xs) ≡ xs
take-write_bytes bytes xs room =
    read_bytes-agrees xs (write_bytes bytes 0 xs) 0
      (omega (arith, length-write_bytes xs bytes 0, room))
      λ k lt. byte-write_bytes_in xs bytes 0 k (omega (arith, room)) lt

pub take-all : (xs : List ℕ) → take (length xs) xs ≡ xs
take-all [] = refl
take-all (x ∷ xs) = ap (◌∷◌ x) (take-all xs)
