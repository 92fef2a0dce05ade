-- ===== src/Net/Ethernet/RoundTrip.antt =====
-- A frame that build_ethernet has written parses back to its parts.
use linux95_kernel.Prelude.{
  ℕ, ◌+◌, ◌-◌, ◌^◌, ◌≤◌, ◌<◌, ◌≡◌, refl, sym, ap, ◌∙◌, inl, true, false, some, List, [], ◌∷◌, ltb,
  length, take, drop, arith,
}
use linux95_kernel.Net.Bytes.{
  byte, read_be16, write_be16, read_bytes, write_bytes, length-write_be16, length-write_bytes,
  read_be16-write_be16, byte-write_be16_ne, byte-write_bytes_out, byte-write_bytes_in,
  read_bytes-agrees,
}
use linux95_kernel.Net.Ethernet.{
  supported_type, parse_ethernet, build_ethernet, fill_frame, bytes_of,
}

module _ (frame destination source payload : List ℕ) (ether_type : ℕ) (six : length destination ≡ 6)
    (six' : length source ≡ 6) (room : 14 + length payload ≤ length frame)
    (small : ether_type < 2 ^ 16) where
  first : List ℕ
  first = write_bytes frame 0 destination

  second : List ℕ
  second = write_bytes first 6 source

  third : List ℕ
  third = write_be16 second 12 ether_type

  filled : List ℕ
  filled = write_bytes third 14 payload

  length-first : length first ≡ length frame
  unfolding first
  length-first = length-write_bytes destination frame 0

  length-second : length second ≡ length frame
  unfolding second
  length-second = length-write_bytes source first 6 ∙ length-first

  length-third : length third ≡ length frame
  unfolding third
  length-third = length-write_be16 second 12 ether_type ∙ length-second

  length-filled : length filled ≡ length frame
  unfolding filled
  length-filled = length-write_bytes payload third 14 ∙ length-third

  header_byte : (j : ℕ) → j < 12 → byte filled j ≡ byte second j
  unfolding filled third
  header_byte j lt =
      byte-write_bytes_out payload third 14 j (inl (omega (arith, lt)))
      ∙ byte-write_be16_ne second 12 ether_type j (omega (arith, lt)) (omega (arith, lt))

  read_destination : read_bytes filled 0 6 ≡ destination
  unfolding second first
  read_destination =
      ap (read_bytes filled 0) (sym six)
      ∙ read_bytes-agrees destination filled 0 (omega (arith, length-filled, six, room)) (λ k lt.
        header_byte (0 + k) (omega (arith, lt, six))
        ∙ byte-write_bytes_out source first 6 (0 + k) (inl (omega (arith, lt, six)))
        ∙ byte-write_bytes_in destination frame 0 k (omega (arith, six, room)) lt)

  read_source : read_bytes filled 6 6 ≡ source
  unfolding second
  read_source =
      ap (read_bytes filled 6) (sym six')
      ∙ read_bytes-agrees source filled 6 (omega (arith, length-filled, six', room)) (λ k lt.
        header_byte (6 + k) (omega (arith, lt, six'))
        ∙ byte-write_bytes_in source first 6 k (omega (arith, six', room, length-first)) lt)

  read_type : read_be16 filled 12 ≡ ether_type
  unfolding filled third read_be16
  read_type =
      let high = byte-write_bytes_out payload third 14 12 (inl (omega arith)) in
      let low = byte-write_bytes_out payload third 14 13 (inl (omega arith)) in
      let kept =
        read_be16-write_be16 second 12 ether_type (omega (arith, length-second, room)) small in
      omega (arith, high, low, kept)

  read_payload : take (length payload) (drop 14 filled) ≡ payload
  unfolding filled
  read_payload =
      read_bytes-agrees payload filled 14 (omega (arith, length-filled, room))
        (λ k lt. byte-write_bytes_in payload third 14 k (omega (arith, length-third, room)) lt)

supported_type-lt : (value : ℕ) → supported_type value ≡ true → value < 2 ^ 16
unfolding supported_type
supported_type-lt value h = ground arith

take-length : (xs : List ℕ) → take (length xs) xs ≡ xs
take-length [] = refl
take-length (x ∷ xs) = ap (◌∷◌ x) (take-length xs)

-- For a supported type, addresses of six bytes and a payload that fits the buffer and a 16-bit length,
-- build_ethernet succeeds, and parse_ethernet of the frame it wrote, at the length it reports, gives back
-- both addresses, the type and the payload's length, with the payload's bytes in the frame from byte 14 on.
pub parse_ethernet-build_ethernet :
    (frame destination source payload : List ℕ) (ether_type : ℕ)
    → supported_type ether_type ≡ true
    → length destination ≡ 6
    → length source ≡ 6
    → 14 + length payload ≤ length frame
    → 14 + length payload ≤ 65535
    → let (done, frame_length, out) =
        build_ethernet
          (some frame)
          (length frame)
          destination
          source
          ether_type
          (some payload)
          (length payload) in
      (done ≡ true)
      × (parse_ethernet out frame_length
          ≡ some (record {
            destination = destination;
            source = source;
            ether_type = ether_type;
            payload = drop 14 (bytes_of out);
            payload_length = length payload;
          }))
      × (take (length payload) (drop 14 (bytes_of out)) ≡ payload)
unfolding build_ethernet fill_frame parse_ethernet filled third second first
parse_ethernet-build_ethernet frame destination source payload ether_type supported six six' room
      fits =
    let small = supported_type-lt ether_type supported in
    let at = read_type frame destination source payload ether_type six six' room small in
    let over : ltb (length frame) (14 + length payload) ≡ false = ground arith in
    let over' : ltb 65535 (14 + length payload) ≡ false = ground arith in
    let short : ltb (14 + length payload) 14 ≡ false = ground arith in
    let rest : 14 + length payload - 14 ≡ length payload = omega arith in
    rw
      (
        supported,
        over,
        over',
        take-length payload,
        short,
        at,
        supported,
        rest,
        read_destination frame destination source payload ether_type six six' room small,
        read_source frame destination source payload ether_type six six' room small,
      )
      (refl, refl, read_payload frame destination source payload ether_type six six' room small)
