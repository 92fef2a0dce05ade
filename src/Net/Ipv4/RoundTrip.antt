-- ===== src/Net/Ipv4/RoundTrip.antt =====
-- A packet that build has written parses back to its parts.
use linux95_kernel.Prelude.{
  ℕ, ◌+◌, ◌-◌, ◌*◌, ◌/◌, ◌%◌, ◌≤◌, ◌<◌, ◌≡◌, refl, sym, ap, ◌∙◌, true, false, some, List, [], ◌∷◌,
  ◌++◌, ltb, length, take, drop, length-drop, arith, by_cells, by_exactly,
}
use Prim.{tt}
use linux95_kernel.Net.Bytes.{byte, read_be16, write_be16, write_bytes}
use linux95_kernel.Net.Ethernet.{bytes_of}
use linux95_kernel.Net.Checksum.{checksum, finish, sum_words}
use linux95_kernel.Net.Checksum.Folding.{finish-patch, finish-bound}
use linux95_kernel.Net.Checksum.Sums.{IsBytes, words, sum_words_lem, words-le}
use linux95_kernel.Net.Checksum.Writing.{write_bytes-append, take-write_bytes, take-all}
use linux95_kernel.Net.Ipv4.{parse, build, fill_header}

module _ (s0 s1 s2 s3 d0 d1 d2 d3 protocol identification total : ℕ) where
  -- The header with a checksum field.
  abbrev header : ℕ → List ℕ
  header c =
      0x45
      ∷ 0
      ∷ (total / 256 % 256)
      ∷ (total % 256)
      ∷ (identification / 256 % 256)
      ∷ (identification % 256)
      ∷ 0
      ∷ 0
      ∷ 64
      ∷ protocol
      ∷ (c / 256 % 256)
      ∷ (c % 256)
      ∷ s0
      ∷ s1
      ∷ s2
      ∷ s3
      ∷ d0
      ∷ d1
      ∷ d2
      ∷ d3
      ∷ []

  abbrev ByteFields : Type 0
  ByteFields =
      (protocol < 256) × IsBytes (s0 ∷ s1 ∷ s2 ∷ s3 ∷ []) × IsBytes (d0 ∷ d1 ∷ d2 ∷ d3 ∷ [])

  header-IsBytes : (c : ℕ) → ByteFields → IsBytes (header c)
  header-IsBytes c (p, (a0, (a1, (a2, (a3, e)))), (b0, (b1, (b2, (b3, e'))))) = (
    omega arith,
    (
      omega arith,
      (
        omega arith,
        (
          omega arith,
          (
            omega arith,
            (
              omega arith,
              (
                omega arith,
                (
                  omega arith,
                  (
                    omega arith,
                    (
                      p,
                      (
                        omega arith,
                        (omega arith, (a0, (a1, (a2, (a3, (b0, (b1, (b2, (b3, tt))))))))),
                      ),
                    ),
                  ),
                ),
              ),
            ),
          ),
        ),
      ),
    ),
  )

  patch : (c : ℕ) → c < 65536 → words (header c) ≡ words (header 0) + c
  patch c small = omega arith

  checksum-header : ByteFields → checksum (header (checksum (header 0))) ≡ 0
  unfolding checksum
  checksum-header fields =
      let c = finish (sum_words 0 (header 0)) in
      let bound = words-le (header 0) (header-IsBytes 0 fields) in
      let sum : sum_words 0 (header 0) ≡ words (header 0) =
        sum_words_lem (header 0) 0 (header-IsBytes 0 fields) (omega arith) ∙ omega arith in
      let sum' : sum_words 0 (header c) ≡ words (header c) =
        sum_words_lem (header c) 0 (header-IsBytes c fields) (omega arith) ∙ omega arith in
      let small : c < 65536 = finish-bound (sum_words 0 (header 0)) in
      let patched : sum_words 0 (header c) ≡ sum_words 0 (header 0) + c =
        sum' ∙ patch c small ∙ ap (λ w. w + c) (sym sum) in
      ap finish patched ∙ finish-patch (sum_words 0 (header 0)) (omega (arith, sum, bound))

  parse-header :
      (rest : List ℕ) (c : ℕ)
      → checksum (header c) ≡ 0
      → 20 ≤ total
      → total ≤ 65535
      → parse (some (header c ++ rest)) total
        ≡ some (record {
          source = s0 ∷ s1 ∷ s2 ∷ s3 ∷ [];
          destination = d0 ∷ d1 ∷ d2 ∷ d3 ∷ [];
          protocol = protocol;
          payload = rest;
          payload_length = total - 20;
        })
  unfolding parse read_be16
  parse-header rest c valid low high =
      let t : total / 256 % 256 * 256 + total % 256 ≡ total = omega arith in
      let a : ltb total 20 ≡ false = ground arith in
      let b : ltb total total ≡ false = ground arith in rw (t, a, b, valid) refl

  -- What is before the payload when build has written the header.
  summed_lem :
      (packet : List ℕ)
      → 20 ≤ length packet
      → write_be16
          (fill_header packet
            (s0 ∷ s1 ∷ s2 ∷ s3 ∷ [])
            (d0 ∷ d1 ∷ d2 ∷ d3 ∷ [])
            protocol
            identification
            total)
          10
          (checksum (
            take 20 (
              fill_header packet
                (s0 ∷ s1 ∷ s2 ∷ s3 ∷ [])
                (d0 ∷ d1 ∷ d2 ∷ d3 ∷ [])
                protocol
                identification
                total)))
        ≡ header (checksum (header 0)) ++ drop 20 packet
  unfolding fill_header write_be16 write_bytes
  summed_lem packet room =
      by_cells 20
        (λ packet.
          write_be16
            (fill_header packet (s0 ∷ s1 ∷ s2 ∷ s3 ∷ []) (d0 ∷ d1 ∷ d2 ∷ d3 ∷ []) protocol
              identification total)
            10
            (checksum (
              take 20 (
                fill_header packet (s0 ∷ s1 ∷ s2 ∷ s3 ∷ []) (d0 ∷ d1 ∷ d2 ∷ d3 ∷ []) protocol
                  identification total)))
          ≡ header (checksum (header 0)) ++ drop 20 packet)
        packet room
        (λ x0 x1 x2 x3 x4 x5 x6 x7 x8 x9 x10 x11 x12 x13 x14 x15 x16 x17 x18 x19 rest. refl)

-- build succeeds, parse of what it wrote gives the parts back, and the payload's bytes stand behind the header.
abbrev pub RoundTrips : List ℕ → List ℕ → List ℕ → List ℕ → ℕ → ℕ → Type 0
RoundTrips packet payload source destination protocol identification =
    let (done, packet_length, out) =
      build (some packet) (length packet) source destination protocol identification (some payload)
        (length payload) in
    (done ≡ true)
    × (parse out packet_length
        ≡ some (record {
          source = source;
          destination = destination;
          protocol = protocol;
          payload = drop 20 (bytes_of out);
          payload_length = length payload;
        }))
    × (take (length payload) (drop 20 (bytes_of out)) ≡ payload)

-- The whole packet that build leaves.
module _ (packet payload : List ℕ) (s0 s1 s2 s3 d0 d1 d2 d3 protocol identification : ℕ)
    (room : 20 + length payload ≤ length packet) (fits : 20 + length payload ≤ 65535) where
  abbrev total : ℕ
  total = 20 + length payload

  abbrev head : List ℕ
  head =
      header s0 s1 s2 s3 d0 d1 d2 d3 protocol identification total
        (checksum (header s0 s1 s2 s3 d0 d1 d2 d3 protocol identification total 0))

  abbrev out : List ℕ
  out = head ++ write_bytes (drop 20 packet) 0 payload

  build_lem :
      build
        (some packet)
        (length packet)
        (s0 ∷ s1 ∷ s2 ∷ s3 ∷ [])
        (d0 ∷ d1 ∷ d2 ∷ d3 ∷ [])
        protocol
        identification
        (some payload)
        (length payload)
      ≡ (true, total, some out)
  unfolding build
  build_lem =
      let a : ltb (length packet) (20 + length payload) ≡ false = ground arith in
      let b : ltb 65535 (20 + length payload) ≡ false = ground arith in
      let summed =
        summed_lem s0 s1 s2 s3 d0 d1 d2 d3 protocol identification total packet (omega arith) in
      rw (a, b, take-all payload, summed)
        (ap (λ bytes. (true, total, some bytes)) (write_bytes-append head (drop 20 packet) payload))

  round_trip :
      ByteFields s0 s1 s2 s3 d0 d1 d2 d3 protocol identification total
      → RoundTrips packet payload
          (s0 ∷ s1 ∷ s2 ∷ s3 ∷ [])
          (d0 ∷ d1 ∷ d2 ∷ d3 ∷ [])
          protocol
          identification
  round_trip fields =
      let rest : total - 20 ≡ length payload = omega arith in
      let parsed =
        parse-header s0 s1 s2 s3 d0 d1 d2 d3 protocol identification total
          (write_bytes (drop 20 packet) 0 payload)
          (checksum (header s0 s1 s2 s3 d0 d1 d2 d3 protocol identification total 0))
          (checksum-header s0 s1 s2 s3 d0 d1 d2 d3 protocol identification total fields)
          (omega arith) fits in
      let left = length-drop 20 packet in
      rw (build_lem, parsed, rest)
        (refl, refl, take-write_bytes (drop 20 packet) payload (omega (arith, left, room)))

-- For addresses of four bytes, a protocol below 256 and a payload that fits the buffer and a 16-bit
-- length, build succeeds, and parse of the packet at the length that it reports accepts its
-- checksum and gives back both addresses, the protocol and the payload's length, with the payload's
-- bytes in the packet from byte 20 on.
pub packet_round_trip :
    (packet source destination payload : List ℕ) (protocol identification : ℕ)
    → length source ≡ 4
    → length destination ≡ 4
    → IsBytes source
    → IsBytes destination
    → protocol < 256
    → 20 + length payload ≤ length packet
    → 20 + length payload ≤ 65535
    → RoundTrips packet payload source destination protocol identification
packet_round_trip packet source destination payload protocol identification four four' bytes bytes'
      byte room fits =
    by_exactly 4
      (λ source.
        IsBytes source → RoundTrips packet payload source destination protocol identification)
      source four
      (λ s0 s1 s2 s3.
        by_exactly 4
          (λ destination.
            IsBytes destination
            → IsBytes (s0 ∷ s1 ∷ s2 ∷ s3 ∷ [])
            → RoundTrips packet payload (s0 ∷ s1 ∷ s2 ∷ s3 ∷ []) destination protocol
                identification)
          destination four'
          (λ d0 d1 d2 d3 to from.
            round_trip packet payload s0 s1 s2 s3 d0 d1 d2 d3 protocol identification room fits
              (byte, from, to))
          bytes')
      bytes
