-- ===== src/Net/Tests.antt =====
-- The packet formats, the ARP cache and the UDP bindings at small inputs.
use mathlib.Core.Bool.{false≢true}
use linux95_kernel.Prelude.{
  ◌∷◌, [], ℕ, ◌<◌, ◌≡◌, refl, ◌⊎◌, inl, inr, true, false, none, some, List, replicate, ◌==◌,
  if◌then◌else◌, arith, find_from, ap, sym, ◌∙◌, length, take, drop,
}
use linux95_kernel.Net.Ethernet.{build_ethernet, parse_ethernet, bytes_of, supported_type}
use linux95_kernel.Net.Ethernet.RoundTrip.{parse_ethernet-build_ethernet}
use linux95_kernel.Net.Bytes.{bytes_equal, read_be16}
use linux95_kernel.Net.Arp.{
  reset, learn, lookup, entry_at, is_for, find_invalid, parse_and_learn, is_arp, sender_ip,
  sender_mac,
}
use linux95_kernel.Net.Arp.Learning
use linux95_kernel.Net.Arp.Learning.{lookup-learn, lookup-learn_other, parse_and_learn_lem}
use linux95_kernel.Net.Bindings.{
  Entry, bind, unbind, dispatch, entry, has_port, max_udp_bindings, free_entry,
}
use linux95_kernel.Net.Bindings.Lookup.{IsValid}
use linux95_kernel.Net.Bindings.Changes.{bind_lem, free-IsValid}
use linux95_kernel.Net.Bindings

-- Callbacks are numbers here.
abbrev no_bindings : List (Entry ℕ)
no_bindings = replicate 8 free_entry

abbrev dns_port : ℕ
dns_port = 53

bind_lem_example :
    (((bind no_bindings dns_port (some 7)).0 ≡ true)
      × IsValid (bind no_bindings dns_port (some 7)).1
      × ((p : ℕ)
          → dispatch (bind no_bindings dns_port (some 7)).1 p
            ≡ (if p == dns_port then some (some 7) else dispatch no_bindings p)))
    ⊎ ((bind no_bindings dns_port (some 7) ≡ (false, no_bindings))
        × ((dns_port ≡ 0)
            ⊎ (((i : ℕ) × (has_port no_bindings dns_port i ≡ true))
                ⊎ ((i : ℕ) → i < max_udp_bindings → (entry no_bindings i).in_use ≡ true))))
bind_lem_example = bind_lem no_bindings free-IsValid dns_port 7

abbrev dns_bound : List (Entry ℕ)
dns_bound = (bind no_bindings dns_port (some 7)).1

bind_run : (bind no_bindings dns_port (some 7)).0 ≡ true
unfolding bind Bindings.find_port Bindings.find_unused find_from
bind_run = refl

dns_bound-IsValid : IsValid dns_bound
dns_bound-IsValid = elim (bind_lem no_bindings free-IsValid dns_port 7) [
  | inl (done, valid, after) ↦ valid
  | inr (refused, why) ↦ absurd (false≢true (sym (ap (λ r. r.0) refused) ∙ bind_run))
]

-- The cache after a reply from 10.0.2.2.
abbrev router : List ℕ
router = 10 ∷ 0 ∷ 2 ∷ 2 ∷ []

abbrev router_mac : List ℕ
router_mac = 0x52 ∷ 0x55 ∷ 10 ∷ 0 ∷ 2 ∷ 2 ∷ []

reset-IsValid : Learning.IsValid reset
reset-IsValid = record { size = unfold reset in refl; replaces = unfold reset in omega arith }

lookup-learn_other_example :
    (lookup (learn reset router router_mac) (10 ∷ 0 ∷ 2 ∷ 3 ∷ [])
      ≡ lookup reset (10 ∷ 0 ∷ 2 ∷ 3 ∷ []))
    ⊎ ((find_invalid reset.entries ≡ none)
        × (is_for (entry_at reset.entries reset.replace_index) (10 ∷ 0 ∷ 2 ∷ 3 ∷ []) ≡ true))
lookup-learn_other_example =
    lookup-learn_other reset reset-IsValid router router_mac (10 ∷ 0 ∷ 2 ∷ 3 ∷ [])
      (unfold bytes_equal in refl)

-- An ARP reply.
abbrev reply_packet : List ℕ
reply_packet =
    0 ∷ 1 ∷ 8 ∷ 0 ∷ 6 ∷ 4 ∷ 0 ∷ 2 ∷ 0x52 ∷ 0x55 ∷ 10 ∷ 0 ∷ 2 ∷ 2 ∷ 10 ∷ 0 ∷ 2 ∷ 2 ∷ 0x52 ∷ 0x54 ∷ 0
    ∷ 0x12 ∷ 0x34 ∷ 0x56 ∷ 10 ∷ 0 ∷ 2 ∷ 15 ∷ []

parse_run : (parse_and_learn reset (some reply_packet) 28 router).0 ≡ true
unfolding parse_and_learn is_arp read_be16
parse_run = refl

parse_and_learn_lem_example :
    let (taken, reply, after) = parse_and_learn reset (some reply_packet) 28 router in
    ((taken ≡ false) × (reply ≡ false) × (after ≡ reset))
    ⊎ ((taken ≡ true)
        × Learning.IsValid after
        × (lookup after (sender_ip reply_packet) ≡ some (sender_mac reply_packet)))
parse_and_learn_lem_example = parse_and_learn_lem reset reply_packet 28 router reset-IsValid

abbrev buffer : List ℕ
buffer = replicate 20 0

abbrev hello : List ℕ
hello = 1 ∷ 2 ∷ 3 ∷ []

parse_ethernet-build_ethernet_example :
    let (done, frame_length, out) =
      build_ethernet
        (some buffer)
        (length buffer)
        router_mac
        router_mac
        0x0800
        (some hello)
        (length hello) in
    (done ≡ true)
    × (parse_ethernet out frame_length
        ≡ some (record {
          destination = router_mac;
          source = router_mac;
          ether_type = 0x0800;
          payload = drop 14 (bytes_of out);
          payload_length = length hello;
        }))
    × (take (length hello) (drop 14 (bytes_of out)) ≡ hello)
parse_ethernet-build_ethernet_example =
    parse_ethernet-build_ethernet buffer router_mac router_mac hello 0x0800
      (unfold supported_type in refl) refl refl (omega arith) (omega arith)
