-- ===== src/Net/Udp.antt =====
-- kernel/net/udp.cpp: datagrams, whose checksum also covers the addresses of the packet around them. A
-- buffer is a list of bytes, or `none` for a null pointer.
pub mod RoundTrip
use linux95_kernel.Prelude.{
  ℕ, ◌+◌, ◌-◌, ◌%◌, ◌^◌, Bool, true, false, ◌||◌, ◌&&◌, not, Option, none, some, List, ltb, ◌==◌,
  if◌then◌else◌, take, drop,
}
use linux95_kernel.Net.Bytes.{read_be16, write_be16, write_bytes}
use linux95_kernel.Net.Ethernet.{is_null, bytes_of}
use linux95_kernel.Net.Checksum.{sum_words, finish}

abbrev pub max_payload_length : ℕ
max_payload_length = 1472

pub record DatagramView : Type 0 where
  pub source_port : ℕ
  pub destination_port : ℕ
  pub payload : List ℕ
  pub payload_length : ℕ

-- The sum before the datagram's own words: both addresses, the protocol and the length.
unfoldable pub pseudo_sum : List ℕ → List ℕ → ℕ → ℕ
pseudo_sum source destination length =
    let sum = read_be16 source 0 + read_be16 destination 0 in
    let sum = sum + read_be16 source 2 + read_be16 destination 2 in (sum + 17 + length) % 2 ^ 32

-- The datagram is the list of its `length` bytes.
unfoldable pub checksum : List ℕ → List ℕ → List ℕ → ℕ → ℕ
checksum source destination datagram length =
    finish (sum_words (pseudo_sum source destination length) datagram)

-- The header, its checksum still zero, and the payload.
unfoldable pub fill_datagram : List ℕ → ℕ → ℕ → ℕ → List ℕ → List ℕ
fill_datagram datagram source_port destination_port required payload =
    let datagram = write_be16 (write_be16 datagram 0 source_port) 2 destination_port in
    write_bytes (write_be16 (write_be16 datagram 4 required) 6 0) 8 payload

-- A checksum of zero would say that there is none.
unfoldable pub sent_checksum : ℕ → ℕ
sent_checksum packet_checksum = if packet_checksum == 0 then 0xFFFF else packet_checksum

-- The result, datagram_length, and the datagram afterwards.
unfoldable pub build :
    Option (List ℕ) → ℕ → List ℕ → List ℕ → ℕ → ℕ → Option (List ℕ) → ℕ → Bool × ℕ × Option (List ℕ)
build none capacity source destination source_port destination_port payload payload_length =
    (false, 0, none)
build (some datagram) capacity source destination source_port destination_port payload
      payload_length =
    let required = 8 + payload_length in
    let filled =
      fill_datagram datagram source_port destination_port required
        (take payload_length (bytes_of payload)) in
    let packet_checksum =
      sent_checksum (checksum source destination (take required filled) required) in
    if (is_null payload && not (payload_length == 0))
      || ltb max_payload_length payload_length
      || ltb capacity required
    then (false, 0, some datagram)
    else (true, required, some (write_be16 filled 6 packet_checksum))

-- `payload` is a pointer into the datagram: all bytes from it on.
unfoldable pub parse : Option (List ℕ) → ℕ → List ℕ → List ℕ → Option DatagramView
parse none enclosing_length source destination = none
parse (some datagram) enclosing_length source destination =
    let length = read_be16 datagram 4 in
    if ltb enclosing_length 8
    then none
    else if ltb length 8 || ltb enclosing_length length
    then none
    else if not (read_be16 datagram 6 == 0)
        && not (checksum source destination (take length datagram) length == 0)
    then none
    else some (record {
      source_port = read_be16 datagram 0;
      destination_port = read_be16 datagram 2;
      payload = drop 8 datagram;
      payload_length = length - 8;
    })
