-- ===== src/Net/Ipv4.antt =====
-- kernel/net/ipv4.cpp: the packet header with its checksum, and the choice of the next hop. A buffer is a
-- list of bytes, or `none` for a null pointer; the loop that writes both addresses writes one after the
-- other here.
pub mod Parsing
pub mod RoundTrip
use linux95_kernel.Prelude.{
  ℕ, ◌+◌, ◌-◌, ◌*◌, ◌/◌, ◌%◌, Bool, true, false, ◌||◌, ◌&&◌, not, Option, none, some, List, [], ◌∷◌,
  ltb, ◌==◌, if◌then◌else◌, take, drop, set,
}
use Prim.Native.Nat.{bit_and}
use linux95_kernel.Net.Bytes.{byte, read_be16, write_be16, read_bytes, write_bytes}
use linux95_kernel.Net.Ethernet.{is_null, bytes_of}
use linux95_kernel.Net.Checksum.{checksum}

pub record PacketView : Type 0 where
  pub source : List ℕ
  pub destination : List ℕ
  pub protocol : ℕ
  pub payload : List ℕ
  pub payload_length : ℕ

-- `payload` is a pointer into the packet: all bytes from it on.
unfoldable pub parse : Option (List ℕ) → ℕ → Option PacketView
parse none length = none
parse (some packet) length =
    let header_length = byte packet 0 % 16 * 4 in
    let total_length = read_be16 packet 2 in
    if ltb length 20
    then none
    else if not (byte packet 0 / 16 == 4) || ltb (byte packet 0 % 16) 5
    then none
    else if ltb length header_length
    then none
    else if ltb total_length header_length || ltb length total_length
    then none
    else if not (read_be16 packet 6 % 0x4000 == 0)
    then none
    else if not (checksum (take header_length packet) == 0)
    then none
    else some (record {
      source = read_bytes packet 12 4;
      destination = read_bytes packet 16 4;
      protocol = byte packet 9;
      payload = drop header_length packet;
      payload_length = total_length - header_length;
    })

-- The header, its checksum still zero.
unfoldable pub fill_header : List ℕ → List ℕ → List ℕ → ℕ → ℕ → ℕ → List ℕ
fill_header packet source destination protocol identification total_length =
    let packet = set (set packet 0 0x45) 1 0 in
    let packet = write_be16 (write_be16 (write_be16 packet 2 total_length) 4 identification) 6 0 in
    let packet = write_be16 (set (set packet 8 64) 9 protocol) 10 0 in
    write_bytes (write_bytes packet 12 source) 16 destination

-- The result, packet_length, and the packet afterwards.
unfoldable pub build :
    Option (List ℕ) → ℕ → List ℕ → List ℕ → ℕ → ℕ → Option (List ℕ) → ℕ → Bool × ℕ × Option (List ℕ)
build none capacity source destination protocol identification payload payload_length =
    (false, 0, none)
build (some packet) capacity source destination protocol identification payload payload_length =
    let required = 20 + payload_length in
    let header = fill_header packet source destination protocol identification required in
    let summed = write_be16 header 10 (checksum (take 20 header)) in
    if (is_null payload && not (payload_length == 0)) || ltb capacity required || ltb 65535 required
    then (false, 0, some packet)
    else (true, required, some (write_bytes summed 20 (take payload_length (bytes_of payload))))

-- Whether the four bytes agree under the mask.
unfoldable pub same_subnet : List ℕ → List ℕ → List ℕ → Bool
same_subnet [] local_ip netmask = true
same_subnet (x ∷ xs) [] netmask = true
same_subnet (x ∷ xs) (y ∷ ys) [] = true
same_subnet (x ∷ xs) (y ∷ ys) (m ∷ netmask) =
    if not (bit_and x m == bit_and y m) then false else same_subnet xs ys netmask

unfoldable pub next_hop : List ℕ → List ℕ → List ℕ → List ℕ → List ℕ
next_hop destination local_ip netmask gateway =
    if same_subnet destination local_ip netmask then destination else gateway
