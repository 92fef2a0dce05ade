-- ===== src/Net.antt =====
-- kernel/net: byte fields, checksums, Ethernet frames, IPv4 packets, UDP datagrams, ICMP echoes, the ARP
-- cache and the table of UDP bindings.
pub mod Bytes
pub mod Bindings
pub mod Arp
pub mod Checksum
pub mod Ethernet
pub mod Ipv4
pub mod Udp
pub mod Icmp
mod Tests
mod PacketTests
