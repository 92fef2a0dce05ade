-- ===== src/Net/Icmp.antt =====
-- kernel/net/icmp.cpp: the echo request and the test of its reply. A buffer is a list of bytes, or `none`
-- for a null pointer; the checksum is that of IPv4.
pub mod Echo
use linux95_kernel.Prelude.{
  ℕ, ◌+◌, ◌-◌, Bool, true, false, ◌||◌, not, Option, none, some, List, [], ◌∷◌, ltb, ◌==◌,
  if◌then◌else◌, take, set,
}
use linux95_kernel.Net.Bytes.{byte, read_be16, write_be16, write_bytes}
use linux95_kernel.Net.Checksum.{checksum}

-- kPayloadLength bytes, each its own index.
abbrev pub pattern_bytes : List ℕ
pattern_bytes =
    0 ∷ 1 ∷ 2 ∷ 3 ∷ 4 ∷ 5 ∷ 6 ∷ 7 ∷ 8 ∷ 9 ∷ 10 ∷ 11 ∷ 12 ∷ 13 ∷ 14 ∷ 15 ∷ 16 ∷ 17 ∷ 18 ∷ 19 ∷ 20
    ∷ 21 ∷ 22 ∷ 23 ∷ 24 ∷ 25 ∷ 26 ∷ 27 ∷ 28 ∷ 29 ∷ 30 ∷ 31 ∷ []

-- The request, its checksum still zero.
unfoldable pub fill_request : List ℕ → ℕ → ℕ → List ℕ
fill_request payload identifier sequence =
    let payload = write_be16 (set (set payload 0 8) 1 0) 2 0 in
    write_bytes (write_be16 (write_be16 payload 4 identifier) 6 sequence) 8 pattern_bytes

-- The result, length, and the payload afterwards.
unfoldable pub build_echo_request : Option (List ℕ) → ℕ → ℕ → ℕ → Bool × ℕ × Option (List ℕ)
build_echo_request none capacity identifier sequence = (false, 0, none)
build_echo_request (some payload) capacity identifier sequence =
    let filled = fill_request payload identifier sequence in
    if ltb capacity 40
    then (false, 0, some payload)
    else (true, 40, some (write_be16 filled 2 (checksum (take 40 filled))))

-- The result, and payload_bytes.
unfoldable pub accept_echo_reply : Option (List ℕ) → ℕ → ℕ → ℕ → Bool × ℕ
accept_echo_reply none length expected_identifier expected_sequence = (false, 0)
accept_echo_reply (some payload) length expected_identifier expected_sequence =
    if ltb length 8
    then (false, 0)
    else if not (byte payload 0 == 0) || not (byte payload 1 == 0)
    then (false, 0)
    else if not (checksum (take length payload) == 0)
    then (false, 0)
    else if not (read_be16 payload 4 == expected_identifier)
        || not (read_be16 payload 6 == expected_sequence)
    then (false, 0)
    else (true, length - 8)
