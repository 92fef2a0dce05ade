-- ===== src/Net/PacketTests.antt =====
-- Checksums, and the packets of IPv4, UDP and ICMP, at small inputs.
use linux95_kernel.Prelude.{
  ℕ, ◌∷◌, [], ◌≤◌, ◌+◌, ◌/◌, ◌*◌, ◌≡◌, ◌≢◌, refl, true, some, List, replicate, take, drop, arith,
}
use Prim.{tt}
use linux95_kernel.Net.Bytes.{read_be16, write_be16}
use linux95_kernel.Net.Ethernet.{bytes_of}
use linux95_kernel.Net.Checksum.{checksum, fold_carries, passes, sum_words, finish}
use linux95_kernel.Net.Checksum.Folding.{fold_carries_ends}
use linux95_kernel.Net.Checksum.Sums.{checksum-detects}
use linux95_kernel.Net.Icmp.{build_echo_request, accept_echo_reply}
use linux95_kernel.Net.Icmp.Echo.{echo_lem, reply_to}
use linux95_kernel.Net.Ipv4
use linux95_kernel.Net.Ipv4.{PacketView, fill_header}
use linux95_kernel.Net.Ipv4.Parsing.{parse_safe}
use linux95_kernel.Net.Ipv4.RoundTrip as Packets
use linux95_kernel.Net.Ipv4.RoundTrip.{packet_round_trip}
use linux95_kernel.Net.Udp.RoundTrip as Datagrams
use linux95_kernel.Net.Udp.RoundTrip.{datagram_round_trip}

abbrev large_sum : ℕ
large_sum = 4294967295

fold_carries_ends_example :
    (fold_carries 5 large_sum ≡ fold_carries passes large_sum)
    × (fold_carries 5 large_sum / 65536 ≡ 0)
fold_carries_ends_example = fold_carries_ends 5 large_sum (omega arith) (omega arith)

-- Two words that add up to 65535.
abbrev summed : List ℕ
summed = 18 ∷ 52 ∷ 237 ∷ 203 ∷ []

summed_passes : checksum summed ≡ 0
unfolding checksum finish sum_words fold_carries
summed_passes = refl

checksum-detects_example : checksum (write_be16 summed (2 * 1) 0xEDCA) ≢ 0
unfolding read_be16 write_be16
checksum-detects_example =
    checksum-detects summed 1 0xEDCA (omega arith, (omega arith, (omega arith, (omega arith, tt))))
      (omega arith, (omega arith, (omega arith, (omega arith, tt)))) (omega arith) (omega arith)
      (omega arith) (omega arith) summed_passes

abbrev here_address : List ℕ
here_address = 10 ∷ 0 ∷ 2 ∷ 15 ∷ []

abbrev there_address : List ℕ
there_address = 10 ∷ 0 ∷ 2 ∷ 3 ∷ []

abbrev two_bytes : List ℕ
two_bytes = 255 ∷ 1 ∷ []

packet_round_trip_example :
    Packets.RoundTrips (replicate 32 7) two_bytes here_address there_address 17 9
packet_round_trip_example =
    packet_round_trip (replicate 32 7) here_address there_address two_bytes 17 9 refl refl
      (omega arith, (omega arith, (omega arith, (omega arith, tt))))
      (omega arith, (omega arith, (omega arith, (omega arith, tt)))) (omega arith) (omega arith)
      (omega arith)

datagram_round_trip_example :
    Datagrams.RoundTrips (replicate 32 7) two_bytes here_address there_address 68 67
datagram_round_trip_example =
    datagram_round_trip (replicate 32 7) here_address there_address two_bytes 68 67
      (omega arith, (omega arith, (omega arith, (omega arith, tt))))
      (omega arith, (omega arith, (omega arith, (omega arith, tt))))
      (omega arith, (omega arith, tt)) (omega arith) (omega arith) (omega arith) (omega arith)

echo_lem_example :
    let (done, n, out) = build_echo_request (some (replicate 64 0)) 64 0x1234 1 in
    let request = take n (bytes_of out) in
    (done ≡ true)
    × (checksum request ≡ 0)
    × (accept_echo_reply (some (reply_to request)) 40 0x1234 1 ≡ (true, 32))
echo_lem_example = echo_lem (replicate 64 0) 0x1234 1 (omega arith) (omega arith) (omega arith)

abbrev received : List ℕ
received =
    69 ∷ 0 ∷ 0 ∷ 22 ∷ 0 ∷ 9 ∷ 0 ∷ 0 ∷ 64 ∷ 17 ∷ 98 ∷ 189 ∷ 10 ∷ 0 ∷ 2 ∷ 15 ∷ 10 ∷ 0 ∷ 2 ∷ 3 ∷ 255
    ∷ 1 ∷ []

abbrev received_view : PacketView
received_view = record {
  source = here_address;
  destination = there_address;
  protocol = 17;
  payload = two_bytes;
  payload_length = 2;
}

received-parse : Ipv4.parse (some received) 22 ≡ some received_view
unfolding Ipv4.parse read_be16 checksum finish sum_words fold_carries
received-parse = refl

parse_safe_example :
    (header_length : ℕ) × (20 ≤ header_length)
    × (header_length ≤ 60)
    × (header_length + 2 ≤ 22)
    × (two_bytes ≡ drop header_length received)
    × (checksum (take header_length received) ≡ 0)
parse_safe_example = parse_safe received 22 received_view received-parse
