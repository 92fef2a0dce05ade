-- ===== src/Net/Arp.antt =====
-- kernel/net/arp.cpp: the cache of eight addresses and the packets that fill it. An IPv4 address is a
-- list of four bytes, a MAC address one of six.
pub mod Learning
use linux95_kernel.Prelude.{
  ℕ, ◌+◌, ◌%◌, Bool, true, false, ◌&&◌, ◌||◌, not, Option, none, some, List, [], ◌∷◌, ltb, ◌==◌,
  if◌then◌else◌, get_or, set, replicate, find_from,
}
use linux95_kernel.Net.Bytes.{byte, read_be16, read_bytes, bytes_equal}

pub record CacheEntry : Type 0 where
  pub ip : List ℕ
  pub mac : List ℕ
  pub valid : Bool

-- g_cache and g_replace_index
pub record Cache : Type 0 where
  pub entries : List CacheEntry
  pub replace_index : ℕ

-- kCacheSize
abbrev pub cache_size : ℕ
cache_size = 8

abbrev pub blank_entry : CacheEntry
blank_entry = record { ip = replicate 4 0; mac = replicate 6 0; valid = false }

unfoldable pub reset : Cache
reset = record { entries = replicate cache_size blank_entry; replace_index = 0 }

abbrev pub entry_at : List CacheEntry → ℕ → CacheEntry
entry_at entries i = get_or entries i blank_entry

abbrev pub is_for : CacheEntry → List ℕ → Bool
is_for e ip = e.valid && bytes_equal e.ip ip

-- The loop of learn and lookup that looks for an address.
unfoldable pub find_ip : List CacheEntry → List ℕ → Option ℕ
find_ip entries ip = find_from cache_size 0 (λ i. is_for (entry_at entries i) ip)

unfoldable pub find_invalid : List CacheEntry → Option ℕ
find_invalid entries = find_from cache_size 0 (λ i. not (entry_at entries i).valid)

unfoldable pub learn : Cache → List ℕ → List ℕ → Cache
learn c ip mac = elim (find_ip c.entries ip) [
  | some i ↦ record c { entries = set c.entries i (record (entry_at c.entries i) { mac = mac }) }
  | none ↦ elim (find_invalid c.entries) [
    | some i ↦ record c { entries = set c.entries i (record { ip = ip; mac = mac; valid = true }) }
    | none ↦ record {
      entries = set c.entries c.replace_index (record { ip = ip; mac = mac; valid = true });
      replace_index = (c.replace_index + 1) % cache_size;
    }
  ]
]

unfoldable pub lookup : Cache → List ℕ → Option (List ℕ)
lookup c ip = elim (find_ip c.entries ip) [ none ↦ none | some i ↦ some (entry_at c.entries i).mac ]

-- The checks of parse_and_learn: Ethernet, IPv4, address lengths, and a request or a reply.
unfoldable pub is_arp : List ℕ → Bool
is_arp payload =
    (read_be16 payload 0 == 1)
    && (read_be16 payload 2 == 0x0800)
    && (byte payload 4 == 6)
    && (byte payload 5 == 4)
    && ((read_be16 payload 6 == 1) || (read_be16 payload 6 == 2))

abbrev pub sender_mac : List ℕ → List ℕ
sender_mac payload = read_bytes payload 8 6

abbrev pub sender_ip : List ℕ → List ℕ
sender_ip payload = read_bytes payload 14 4

-- Whether the packet is taken, whether it wants a reply, and the cache. `none` is a null payload.
unfoldable pub parse_and_learn : Cache → Option (List ℕ) → ℕ → List ℕ → Bool × Bool × Cache
parse_and_learn c none packet_length local_ip = (false, false, c)
parse_and_learn c (some payload) packet_length local_ip =
    if ltb packet_length 28 || not (is_arp payload) then (false, false, c) else (
      true,
      (read_be16 payload 6 == 1) && bytes_equal (read_bytes payload 24 4) local_ip,
      learn c (sender_ip payload) (sender_mac payload),
    )
