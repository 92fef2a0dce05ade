-- ===== src/Net/Ethernet.antt =====
-- kernel/net/ethernet.cpp: the frame header. A buffer is a list of bytes, or `none` for a null pointer;
-- the loop that writes both addresses writes one after the other here.
pub mod RoundTrip
use linux95_kernel.Prelude.{
  ℕ, ◌+◌, ◌-◌, Bool, true, false, ◌||◌, ◌&&◌, not, Option, none, some, List, [], ltb, ◌==◌,
  if◌then◌else◌, take, drop,
}
use linux95_kernel.Net.Bytes.{read_be16, write_be16, read_bytes, write_bytes}

pub record EthernetView : Type 0 where
  pub destination : List ℕ
  pub source : List ℕ
  pub ether_type : ℕ
  pub payload : List ℕ
  pub payload_length : ℕ

-- IPv4 and ARP
unfoldable pub supported_type : ℕ → Bool
supported_type value = (value == 0x0800) || (value == 0x0806)

-- `payload` is a pointer into the frame: all bytes from it on.
unfoldable pub parse_ethernet : Option (List ℕ) → ℕ → Option EthernetView
parse_ethernet none frame_length = none
parse_ethernet (some frame) frame_length =
    if ltb frame_length 14
    then none
    else if not (supported_type (read_be16 frame 12))
    then none
    else some (record {
      destination = read_bytes frame 0 6;
      source = read_bytes frame 6 6;
      ether_type = read_be16 frame 12;
      payload = drop 14 frame;
      payload_length = frame_length - 14;
    })

abbrev pub is_null : Option (List ℕ) → Bool
is_null none = true
is_null (some bytes) = false

abbrev pub bytes_of : Option (List ℕ) → List ℕ
bytes_of none = []
bytes_of (some bytes) = bytes

-- The writes of build_ethernet.
unfoldable pub fill_frame : List ℕ → List ℕ → List ℕ → ℕ → List ℕ → List ℕ
fill_frame frame destination source ether_type payload =
    write_bytes (write_be16 (write_bytes (write_bytes frame 0 destination) 6 source) 12 ether_type)
      14 payload

-- The result, frame_length, and the frame afterwards.
unfoldable pub build_ethernet :
    Option (List ℕ) → ℕ → List ℕ → List ℕ → ℕ → Option (List ℕ) → ℕ → Bool × ℕ × Option (List ℕ)
build_ethernet none capacity destination source ether_type payload payload_length = (false, 0, none)
build_ethernet (some frame) capacity destination source ether_type payload payload_length =
    if (is_null payload && not (payload_length == 0))
      || not (supported_type ether_type)
      || ltb capacity (14 + payload_length)
      || ltb 65535 (14 + payload_length)
    then (false, 0, some frame)
    else (
      true,
      14 + payload_length,
      some
          (fill_frame frame destination source ether_type (take payload_length (bytes_of payload))),
    )
