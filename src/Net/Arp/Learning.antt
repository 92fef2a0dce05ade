-- ===== src/Net/Arp/Learning.antt =====
-- What the ARP cache answers after it has learned an address.
use linux95_kernel.Prelude.{
  ℕ, ◌≤◌, ◌<◌, ◌≡◌, ◌≢◌, refl, sym, ap, ◌∙◌, inl, inr, ◌⊎◌, true, false, ◌||◌, not, Option, none,
  some, List, ltb, ◌==◌, set, length, length-set, arith, Bool-cases, Option-cases, find_from,
  find_from-some, find_from-none, find_from-hit, find_from-ext, get_or-set_self, get_or-set_ne,
}
use mathlib.Core.Path.{subst}
use linux95_kernel.Net.Bytes.{bytes_equal, bytes_equal-eq, bytes_equal_refl}
use linux95_kernel.Net.Arp.{
  CacheEntry, Cache, cache_size, blank_entry, entry_at, is_for, find_ip, find_invalid, learn,
  lookup, parse_and_learn, is_arp, sender_ip, sender_mac,
}

-- The eight entries, and an index into them.
pub record IsValid (c : Cache) : Type 0 where
  pub size : length c.entries ≡ cache_size
  pub replaces : c.replace_index < cache_size

abbrev answer : List CacheEntry → List ℕ → Option (List ℕ)
answer es ip = lookup (record { entries = es; replace_index = 0 }) ip

module _ (es : List CacheEntry) (size : length es ≡ cache_size) (i : ℕ) (lt : i < cache_size)
    (e : CacheEntry) where
  here : entry_at (set es i e) i ≡ e
  here = get_or-set_self es i e blank_entry (omega (arith, size, lt))

  there : (j : ℕ) → i ≢ j → entry_at (set es i e) j ≡ entry_at es j
  there j ne = get_or-set_ne es i j e blank_entry ne

  -- An entry that is not for an address, before or after, does not change the answer for it.
  answer-set_other :
      (ip : List ℕ)
      → is_for (entry_at es i) ip ≡ false
      → is_for e ip ≡ false
      → answer (set es i e) ip ≡ answer es ip
  unfolding lookup find_ip
  answer-set_other ip before after =
      let same =
        find_from-ext 8 0 (λ j. is_for (entry_at (set es i e) j) ip)
          (λ j. is_for (entry_at es j) ip) agree in
      elim (Option-cases (find_from 8 0 (λ j. is_for (entry_at es j) ip))) [
        | inl missed ↦ rw (same, missed, lookup, find_ip) refl
        | inr (r, found) ↦
            let hit = find_from-some 8 0 (λ j. is_for (entry_at es j) ip) r found in
            rw (same, found, lookup, find_ip)
              (ap (λ x. some x.mac) (there r (λ q. absurd (clash r q hit.2))))
      ]
    where
      agree :
          (j : ℕ) → 0 ≤ j → j < 8 → is_for (entry_at (set es i e) j) ip ≡ is_for (entry_at es j) ip
      agree j lo hi = elim (Bool-cases (i == j)) [
        | inl s ↦
            let q : i ≡ j = ground arith in
            subst (λ k. is_for (entry_at (set es i e) k) ip ≡ is_for (entry_at es k) ip) q
              (ap (λ x. is_for x ip) here ∙ after ∙ sym before)
        | inr ne ↦ ap (λ x. is_for x ip) (there j (ground arith))
      ]

      clash : (r : ℕ) → i ≡ r → is_for (entry_at es r) ip ≡ true → ⊥
      clash r q has =
          let has' : is_for (entry_at es i) ip ≡ true = rw q has in absurd (ground arith)

  -- If no other entry is for an address, a new entry for it answers.
  answer-set_self :
      (ip : List ℕ)
      → ((j : ℕ) → j < cache_size → i ≢ j → is_for (entry_at es j) ip ≡ false)
      → is_for e ip ≡ true
      → answer (set es i e) ip ≡ some e.mac
  unfolding lookup find_ip
  answer-set_self ip alone is =
      let test = λ (j : ℕ). is_for (entry_at (set es i e) j) ip in
      let (r, found) =
        find_from-hit 8 0 test i (omega arith) (omega (arith, lt))
          (ap (λ x. is_for x ip) here ∙ is) in
      let hit = find_from-some 8 0 test r found in
      elim (Bool-cases (i == r)) [
        | inl s ↦
            let q : i ≡ r = ground arith in
            rw (found, lookup, find_ip)
              (subst (λ k. some (entry_at (set es i e) k).mac ≡ some e.mac) q
                (ap (λ x. some x.mac) here))
        | inr ne ↦
            let apart : i ≢ r = ground arith in
            let missed = alone r (omega (arith, hit.1)) apart in
            let old : is_for (entry_at es r) ip ≡ true =
              sym (ap (λ x. is_for x ip) (there r apart)) ∙ hit.2 in
            absurd (ground arith)
      ]

  -- A new MAC address in an entry does not change which entry is found.
  find_ip-set :
      (ip : List ℕ)
      → is_for e ip ≡ is_for (entry_at es i) ip
      → find_ip (set es i e) ip ≡ find_ip es ip
  unfolding find_ip
  find_ip-set ip same =
      find_from-ext 8 0 (λ j. is_for (entry_at (set es i e) j) ip) (λ j. is_for (entry_at es j) ip)
        agree
    where
      agree :
          (j : ℕ) → 0 ≤ j → j < 8 → is_for (entry_at (set es i e) j) ip ≡ is_for (entry_at es j) ip
      agree j lo hi = elim (Bool-cases (i == j)) [
        | inl s ↦
            let q : i ≡ j = ground arith in
            subst (λ k. is_for (entry_at (set es i e) k) ip ≡ is_for (entry_at es k) ip) q
              (ap (λ x. is_for x ip) here ∙ same)
        | inr ne ↦ ap (λ x. is_for x ip) (there j (ground arith))
      ]

  answer-set_found :
      (ip : List ℕ)
      → find_ip es ip ≡ some i
      → is_for e ip ≡ is_for (entry_at es i) ip
      → answer (set es i e) ip ≡ some e.mac
  unfolding lookup
  answer-set_found ip found same =
      rw (find_ip-set ip same ∙ found, lookup) (ap (λ x. some x.mac) here)

module _ (c : Cache) (v : IsValid c) (ip mac : List ℕ) where
  abbrev new : CacheEntry
  new = record { ip = ip; mac = mac; valid = true }

  new-is_for : is_for new ip ≡ true
  new-is_for = bytes_equal_refl ip

  missed-at :
      find_ip c.entries ip ≡ none
      → (j : ℕ) → j < cache_size
      → is_for (entry_at c.entries j) ip ≡ false
  unfolding find_ip
  missed-at missed j lt =
      find_from-none 8 0 (λ j. is_for (entry_at c.entries j) ip) missed j (omega arith)
        (omega (arith, lt))

  found-at :
      (r : ℕ)
      → find_ip c.entries ip ≡ some r
      → (r < cache_size) × (is_for (entry_at c.entries r) ip ≡ true)
  unfolding find_ip
  found-at r found =
      let hit = find_from-some 8 0 (λ j. is_for (entry_at c.entries j) ip) r found in
      (omega (arith, hit.1), hit.2)

  invalid-at :
      (i : ℕ)
      → find_invalid c.entries ≡ some i
      → (i < cache_size) × ((entry_at c.entries i).valid ≡ false)
  unfolding find_invalid
  invalid-at i found =
      let hit = find_from-some 8 0 (λ j. not (entry_at c.entries j).valid) i found in
      (omega (arith, hit.1), ground (arith, hit.2))

  -- On a cache of eight entries, `lookup` of an address that has just been learned gives the MAC address
  -- that was learned with it.
  pub lookup-learn : lookup (learn c ip mac) ip ≡ some mac
  unfolding learn lookup
  lookup-learn = elim (Option-cases (find_ip c.entries ip)) [
    | inr (r, found) ↦
        let (lt, is) = found-at r found in
        let e : CacheEntry = record (entry_at c.entries r) { mac = mac } in
        rw (found, learn) (answer-set_found c.entries v.size r lt e ip found refl)
    | inl missed ↦ elim (Option-cases (find_invalid c.entries)) [
      | inr (i, free) ↦
          rw (missed, free, learn)
            (answer-set_self c.entries v.size i (invalid-at i free).0 new ip
              (λ j lt ne. missed-at missed j lt) new-is_for)
      | inl full ↦
          rw (missed, full, learn)
            (answer-set_self c.entries v.size c.replace_index v.replaces new ip
              (λ j lt ne. missed-at missed j lt) new-is_for)
    ]
  ]

  -- Learning one address keeps what `lookup` gives for any other address, unless no entry was free and the
  -- entry that was replaced was for that other address.
  pub lookup-learn_other :
      (other : List ℕ)
      → bytes_equal ip other ≡ false
      → (lookup (learn c ip mac) other ≡ lookup c other)
        ⊎ ((find_invalid c.entries ≡ none)
            × (is_for (entry_at c.entries c.replace_index) other ≡ true))
  unfolding learn lookup
  lookup-learn_other other apart = elim (Option-cases (find_ip c.entries ip)) [
    | inr (r, found) ↦
        let (lt, is) = found-at r found in
        let same : (entry_at c.entries r).ip ≡ ip =
          bytes_equal-eq (entry_at c.entries r).ip ip (ground arith) in
        let different : bytes_equal (entry_at c.entries r).ip other ≡ false = rw same apart in
        let e : CacheEntry = record (entry_at c.entries r) { mac = mac } in
        inl (
          rw (found, learn)
            (answer-set_other c.entries v.size r lt e other (ground arith) (ground arith)))
    | inl missed ↦ elim (Option-cases (find_invalid c.entries)) [
      | inr (i, free) ↦
          let (lt, idle) = invalid-at i free in
          inl (
            rw (missed, free, learn)
              (answer-set_other c.entries v.size i lt new other (ground arith) apart))
      | inl full ↦ elim (Bool-cases (is_for (entry_at c.entries c.replace_index) other)) [
        | inl victim ↦ inr (full, victim)
        | inr spared ↦ inl (
            rw (missed, full, learn)
              (answer-set_other c.entries v.size c.replace_index v.replaces new other spared apart))
      ]
    ]
  ]

  -- Learning keeps the cache valid.
  pub learn-IsValid : IsValid (learn c ip mac)
  unfolding learn
  learn-IsValid = elim (Option-cases (find_ip c.entries ip)) [
    | inr (r, found) ↦
        rw (found, learn)
          (record {
            size = length-set c.entries r (record (entry_at c.entries r) { mac = mac }) ∙ v.size;
            replaces = v.replaces;
          })
    | inl missed ↦ elim (Option-cases (find_invalid c.entries)) [
      | inr (i, free) ↦
          rw (missed, free, learn)
            (record { size = length-set c.entries i new ∙ v.size; replaces = v.replaces })
      | inl full ↦
          rw (missed, full, learn)
            (record {
              size = length-set c.entries c.replace_index new ∙ v.size;
              replaces = omega arith;
            })
    ]
  ]

-- On a cache of eight entries, parse_and_learn either refuses a packet and leaves the cache as it was; or
-- takes it, keeps the cache valid, and from then on `lookup` of the sender's address gives the sender's
-- MAC address.
pub parse_and_learn_lem :
    (c : Cache) (payload : List ℕ) (packet_length : ℕ) (local_ip : List ℕ)
    → IsValid c
    → let (taken, reply, after) = parse_and_learn c (some payload) packet_length local_ip in
      ((taken ≡ false) × (reply ≡ false) × (after ≡ c))
      ⊎ ((taken ≡ true)
          × IsValid after
          × (lookup after (sender_ip payload) ≡ some (sender_mac payload)))
unfolding parse_and_learn
parse_and_learn_lem c payload packet_length local_ip v =
    elim (Bool-cases (ltb packet_length 28 || not (is_arp payload))) [
      | inl refused ↦ rw refused (inl (refl, refl, refl))
      | inr taken ↦ rw taken (
          inr (
            refl,
            learn-IsValid c v (sender_ip payload) (sender_mac payload),
            lookup-learn c v (sender_ip payload) (sender_mac payload),
          ))
    ]
