-- ===== src/Net/Udp/RoundTrip.antt =====
-- A datagram that build has written parses back to its parts.
use linux95_kernel.Prelude.{
  ℕ, ◌+◌, ◌-◌, ◌*◌, ◌/◌, ◌%◌, ◌^◌, ◌≤◌, ◌<◌, ◌≡◌, ◌≢◌, refl, ap, ◌∙◌, inl, inr, true, false, some,
  List, [], ◌∷◌, ◌++◌, ltb, ◌==◌, length, take, drop, length-drop, arith, by_cells, Bool-cases,
}
use linux95_kernel.Net.Bytes.{read_be16, write_be16, write_bytes}
use linux95_kernel.Net.Ethernet.{bytes_of}
use linux95_kernel.Net.Checksum.{finish, sum_words}
use linux95_kernel.Net.Checksum.Folding.{finish-patch, finish-bound, finish-zero, finish_zero_only}
use linux95_kernel.Net.Checksum.Sums.{IsBytes, byte-lt, words, sum_words_lem, words-le}
use linux95_kernel.Net.Checksum.Writing.{
  write_bytes-append, take-write_bytes, take-append_over, take-all,
}
use linux95_kernel.Net.Udp.{
  max_payload_length, pseudo_sum, checksum, fill_datagram, sent_checksum, build, parse,
}

-- build succeeds, parse of what it wrote gives the parts back, the payload's bytes stand behind the header,
-- and the checksum field is there, not zero, and right.
abbrev pub RoundTrips : List ℕ → List ℕ → List ℕ → List ℕ → ℕ → ℕ → Type 0
RoundTrips datagram payload source destination source_port destination_port =
    let (done, datagram_length, out) =
      build (some datagram) (length datagram) source destination source_port destination_port
        (some payload) (length payload) in
    (done ≡ true)
    × (parse out datagram_length source destination
        ≡ some (record {
          source_port = source_port;
          destination_port = destination_port;
          payload = drop 8 (bytes_of out);
          payload_length = length payload;
        }))
    × (take (length payload) (drop 8 (bytes_of out)) ≡ payload)
    × (read_be16 (bytes_of out) 6 ≢ 0)
    × (checksum source destination (take datagram_length (bytes_of out)) datagram_length ≡ 0)

-- The checksum that is sent is never zero, and the receiver's sum with it folds to all ones.
finish-sent :
    (sum : ℕ)
    → sum + 65535 < 2 ^ 32
    → (sent_checksum (finish sum) < 65536)
      × (sent_checksum (finish sum) ≢ 0)
      × (finish (sum + sent_checksum (finish sum)) ≡ 0)
unfolding sent_checksum
finish-sent sum bound = elim (Bool-cases (finish sum == 0)) [
  | inl zero_sum ↦
      let z : finish sum ≡ 0 = ground arith in
      let m = finish_zero_only sum (omega (arith, bound)) z in
      let divides = m.0 in
      rw zero_sum (
        omega arith,
        omega arith,
        finish-zero (sum + 65535) bound (omega (arith, divides)) (omega arith),
      )
  | inr positive ↦
      let nz : finish sum ≢ 0 = ground arith in
      let below = finish-bound sum in rw positive (omega (arith, below), nz, finish-patch sum bound)
]

module _ (source destination payload : List ℕ) (source_port destination_port : ℕ)
    (small : source_port < 2 ^ 16) (small' : destination_port < 2 ^ 16)
    (fits : length payload ≤ max_payload_length) where
  abbrev total : ℕ
  total = 8 + length payload

  -- The header with a checksum field.
  abbrev header : ℕ → List ℕ
  header c =
      (source_port / 256 % 256)
      ∷ (source_port % 256)
      ∷ (destination_port / 256 % 256)
      ∷ (destination_port % 256)
      ∷ (total / 256 % 256)
      ∷ (total % 256)
      ∷ (c / 256 % 256)
      ∷ (c % 256)
      ∷ []

  whole-IsBytes : (c : ℕ) → IsBytes payload → IsBytes (header c ++ payload)
  whole-IsBytes c bytes = (
    omega arith,
    (
      omega arith,
      (
        omega arith,
        (omega arith, (omega arith, (omega arith, (omega arith, (omega arith, bytes))))),
      ),
    ),
  )

  patch : (c : ℕ) → c < 65536 → words (header c ++ payload) ≡ words (header 0 ++ payload) + c
  patch c below = omega arith

  sums_to :
      (c : ℕ)
      → c < 65536
      → IsBytes payload
      → pseudo_sum source destination total < 2 ^ 20
      → sum_words (pseudo_sum source destination total) (header c ++ payload)
        ≡ pseudo_sum source destination total + words (header 0 ++ payload) + c
  sums_to c below bytes pseudo =
      let p = pseudo_sum source destination total in
      let patched = patch c below in
      let sum =
        sum_words_lem (header c ++ payload) p (whole-IsBytes c bytes)
          (omega (arith, pseudo, fits)) in
      omega (arith, patched, sum)

  -- What the receiver sums: with the checksum that build puts there, it is zero.
  checksum_sent :
      IsBytes payload
      → pseudo_sum source destination total < 2 ^ 20
      → let c = sent_checksum (checksum source destination (header 0 ++ payload) total) in
        (c < 65536) × (c ≢ 0) × (checksum source destination (header c ++ payload) total ≡ 0)
  unfolding checksum
  checksum_sent bytes pseudo =
      let p = pseudo_sum source destination total in
      let sum = p + words (header 0 ++ payload) in
      let before : sum_words p (header 0 ++ payload) ≡ sum =
        sums_to 0 (omega arith) bytes pseudo ∙ omega arith in
      let bound = words-le (header 0 ++ payload) (whole-IsBytes 0 bytes) in
      let sent = finish-sent sum (omega (arith, bound, pseudo, fits)) in
      rw before (
        sent.0,
        sent.1,
        ap finish (sums_to (sent_checksum (finish sum)) sent.0 bytes pseudo) ∙ sent.2,
      )

  parse-header :
      (rest : List ℕ) (c : ℕ)
      → c < 65536
      → c ≢ 0
      → checksum source destination (header c ++ take (length payload) rest) total ≡ 0
      → parse (some (header c ++ rest)) total source destination
        ≡ some (record {
          source_port = source_port;
          destination_port = destination_port;
          payload = rest;
          payload_length = length payload;
        })
  unfolding parse read_be16
  parse-header rest c below nonzero valid =
      let t : total / 256 % 256 * 256 + total % 256 ≡ total = omega (arith, fits) in
      let s : source_port / 256 % 256 * 256 + source_port % 256 ≡ source_port =
        omega (arith, small) in
      let d : destination_port / 256 % 256 * 256 + destination_port % 256 ≡ destination_port =
        omega (arith, small') in
      let e : c / 256 % 256 * 256 + c % 256 ≡ c = omega (arith, below) in
      let nz : (c == 0) ≡ false = ground (arith, nonzero) in
      let a : ltb total 8 ≡ false = ground arith in
      let b : ltb total total ≡ false = ground arith in
      let left : total - 8 ≡ length payload = omega arith in
      rw (t, s, d, e, a, b, nz, left, take-append_over (header c) rest (length payload), valid) refl

  filled_lem :
      (datagram : List ℕ)
      → 8 ≤ length datagram
      → fill_datagram datagram source_port destination_port total payload
        ≡ header 0 ++ write_bytes (drop 8 datagram) 0 payload
  unfolding fill_datagram write_be16
  filled_lem datagram room =
      by_cells 8
        (λ datagram.
          fill_datagram datagram source_port destination_port total payload
          ≡ header 0 ++ write_bytes (drop 8 datagram) 0 payload)
        datagram room (λ x0 x1 x2 x3 x4 x5 x6 x7 rest. write_bytes-append (header 0) rest payload)

  patched_lem : (rest : List ℕ) (c : ℕ) → write_be16 (header 0 ++ rest) 6 c ≡ header c ++ rest
  unfolding write_be16
  patched_lem rest c = refl

  module _ (datagram : List ℕ) (room : 8 + length payload ≤ length datagram) where
    abbrev sent : ℕ
    sent = sent_checksum (checksum source destination (header 0 ++ payload) total)

    abbrev behind : List ℕ
    behind = write_bytes (drop 8 datagram) 0 payload

    payload_there : take (length payload) behind ≡ payload
    payload_there =
        let left = length-drop 8 datagram in
        take-write_bytes (drop 8 datagram) payload (omega (arith, left, room))

    build_lem :
        build
          (some datagram)
          (length datagram)
          source
          destination
          source_port
          destination_port
          (some payload)
          (length payload)
        ≡ (true, total, some (header sent ++ behind))
    unfolding build
    build_lem =
        let a : ltb max_payload_length (length payload) ≡ false = ground (arith, fits) in
        let b : ltb (length datagram) (8 + length payload) ≡ false = ground (arith, room) in
        rw
          (
            a,
            b,
            take-all payload,
            filled_lem datagram (omega (arith, room)),
            take-append_over (header 0) behind (length payload),
            payload_there,
            patched_lem behind sent,
          )
          refl

    checksum_field : (c : ℕ) → c < 65536 → read_be16 (header c ++ behind) 6 ≡ c
    unfolding read_be16
    checksum_field c below = omega (arith, below)

    round_trip :
        IsBytes payload
        → pseudo_sum source destination total < 2 ^ 20
        → RoundTrips datagram payload source destination source_port destination_port
    round_trip bytes pseudo =
        let s = checksum_sent bytes pseudo in
        let valid =
          ap (λ xs. checksum source destination (header sent ++ xs) total) payload_there ∙ s.2 in
        rw (build_lem, parse-header behind sent s.0 s.1 valid)
          (
            refl,
            refl,
            payload_there,
            rw (checksum_field sent s.0) s.1,
            rw (take-append_over (header sent) behind (length payload)) valid,
          )

-- The sum of four words of addresses, the protocol and the length.
pseudo_sum-lt :
    (source destination : List ℕ) (n : ℕ)
    → IsBytes source
    → IsBytes destination
    → n < 2 ^ 16
    → pseudo_sum source destination n < 2 ^ 20
unfolding pseudo_sum read_be16
pseudo_sum-lt source destination n bytes bytes' short =
    let a = byte-lt source 0 bytes in
    let b = byte-lt source 1 bytes in
    let c = byte-lt source 2 bytes in
    let d = byte-lt source 3 bytes in
    let e = byte-lt destination 0 bytes' in
    let f = byte-lt destination 1 bytes' in
    let g = byte-lt destination 2 bytes' in
    let h = byte-lt destination 3 bytes' in omega (arith, a, b, c, d, e, f, g, h, short)

-- For addresses and a payload of bytes, 16-bit ports and a payload of at most 1472 bytes that fits
-- the buffer, build succeeds, and parse of the datagram at the length that it reports, with the
-- same addresses, gives back both ports and the payload's length, with the payload's bytes in the
-- datagram from byte 8 on. The checksum field is not zero, and the checksum over the datagram with
-- it is zero.
pub datagram_round_trip :
    (datagram source destination payload : List ℕ) (source_port destination_port : ℕ)
    → IsBytes source
    → IsBytes destination
    → IsBytes payload
    → source_port < 2 ^ 16
    → destination_port < 2 ^ 16
    → length payload ≤ max_payload_length
    → 8 + length payload ≤ length datagram
    → RoundTrips datagram payload source destination source_port destination_port
datagram_round_trip datagram source destination payload source_port destination_port from to bytes
      small small' fits room =
    round_trip source destination payload source_port destination_port small small' fits datagram
      room bytes
      (pseudo_sum-lt source destination (8 + length payload) from to (omega (arith, fits)))
