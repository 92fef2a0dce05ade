-- ===== src/Net/Ipv4/Parsing.antt =====
-- What a packet that parse accepts promises to its reader.
use linux95_kernel.Prelude.{ℕ, ◌+◌, ◌*◌, ◌%◌, ◌≤◌, ◌≡◌, List, some, drop, take, arith, length}
use linux95_kernel.Net.Bytes.{byte}
use linux95_kernel.Net.Checksum.{checksum}
use linux95_kernel.Net.Ipv4.{parse, PacketView}

-- A packet that parse accepts has a header of 20 to 60 bytes whose checksum is right; header and
-- payload together are no longer than the bytes received, and the payload starts right behind the
-- header.
pub parse_safe :
    (packet : List ℕ) (length : ℕ) (view : PacketView)
    → parse (some packet) length ≡ some view
    → (header_length : ℕ) × (20 ≤ header_length)
      × (header_length ≤ 60)
      × (header_length + view.payload_length ≤ length)
      × (view.payload ≡ drop header_length packet)
      × (checksum (take header_length packet) ≡ 0)
unfolding parse
parse_safe packet length view parsed = (
  byte packet 0 % 16 * 4,
  ground (arith, parsed),
  ground (arith, parsed),
  ground (arith, parsed),
  ground (arith, parsed),
  ground (arith, parsed),
)
