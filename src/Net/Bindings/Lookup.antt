-- ===== src/Net/Bindings/Lookup.antt =====
-- What `dispatch` finds in a table in which no port is bound twice, after a change of one entry.
use linux95_kernel.Prelude.{
  ℕ, zero, suc, ◌≤◌, ◌<◌, ◌≡◌, ◌≢◌, refl, ap, sym, ◌∙◌, inl, inr, true, false, ◌&&◌, none, some,
  List, [], ◌∷◌, ◌==◌, set, length, length-set, arith, Bool-cases, Option-cases, find_from,
  find_from-some, find_from-hit, find_from-ext,
}
use mathlib.Core.Path.{subst}
use linux95_kernel.Net.Bindings.{
  Entry, max_udp_bindings, free_entry, entry, has_port, find_port, dispatch,
}

module _ {Callback : Type 0} where
  pub entry-set_self :
      (es : List (Entry Callback)) (i : ℕ) (e : Entry Callback)
      → i < length es
      → entry (set es i e) i ≡ e
  entry-set_self [] i e h = absurd (omega arith)
  entry-set_self (x ∷ es) zero e h = refl
  entry-set_self (x ∷ es) (suc i) e h = entry-set_self es i e (omega arith)

  pub entry-out : (es : List (Entry Callback)) (i : ℕ) → length es ≤ i → entry es i ≡ free_entry
  entry-out [] i h = refl
  entry-out (x ∷ es) zero h = absurd (omega arith)
  entry-out (x ∷ es) (suc i) h = entry-out es i (omega arith)

  pub entry-set_ne :
      (es : List (Entry Callback)) (i j : ℕ) (e : Entry Callback)
      → i ≢ j
      → entry (set es i e) j ≡ entry es j
  entry-set_ne [] i j e h = refl
  entry-set_ne (x ∷ es) zero zero e h = absurd (h refl)
  entry-set_ne (x ∷ es) zero (suc j) e h = refl
  entry-set_ne (x ∷ es) (suc i) zero e h = refl
  entry-set_ne (x ∷ es) (suc i) (suc j) e h = entry-set_ne es i j e (λ q. h (ap suc q))

  -- The table has its eight entries, and no port is bound twice.
  pub record IsValid (es : List (Entry Callback)) : Type 0 where
    pub size : length es ≡ max_udp_bindings
    pub distinct : (port i j : ℕ) → has_port es port i ≡ true → has_port es port j ≡ true → i ≡ j

  module _ (es : List (Entry Callback)) (v : IsValid es) where
    -- The entry with a port is the one that find_port finds.
    pub find_port_unique :
        (port i : ℕ) → i < max_udp_bindings → has_port es port i ≡ true → find_port es port ≡ some i
    unfolding find_port
    find_port_unique port i lt has =
        let (r, e) = find_from-hit 8 0 (has_port es port) i (omega arith) (omega arith) has in
        let hit = find_from-some 8 0 (has_port es port) r e in
        e ∙ ap some (v.distinct port r i hit.2 has)

    -- An entry that matches a port neither before nor after a change leaves that port's entry alone.
    pub dispatch-set_other :
        (i port : ℕ) (e : Entry Callback)
        → i < max_udp_bindings
        → has_port es port i ≡ false
        → (e.in_use && (e.port == port)) ≡ false
        → dispatch (set es i e) port ≡ dispatch es port
    unfolding dispatch find_port
    dispatch-set_other i port e lt before after =
        let same : find_from 8 0 (has_port (set es i e) port) ≡ find_from 8 0 (has_port es port) =
          find_from-ext 8 0 (has_port (set es i e) port) (has_port es port) agree in
        elim (Option-cases (find_from 8 0 (has_port es port))) [
          | inl missed ↦ rw (same, missed, dispatch, find_port) refl
          | inr (r, found) ↦
              let hit = find_from-some 8 0 (has_port es port) r found in
              rw (same, found, dispatch, find_port)
                (ap (λ x. some x.callback) (entry-set_ne es i r e (λ q. absurd (clash r q hit.2))))
        ]
      where
        agree : (j : ℕ) → 0 ≤ j → j < 8 → has_port (set es i e) port j ≡ has_port es port j
        agree j lo hi = elim (Bool-cases (i == j)) [
          | inl s ↦
              let q : i ≡ j = ground arith in
              let here : has_port (set es i e) port i ≡ false =
                ap (λ x. x.in_use && (x.port == port))
                  (entry-set_self es i e (omega (arith, v.size)))
                ∙ after in
              subst (λ k. has_port (set es i e) port k ≡ has_port es port k) q (here ∙ sym before)
          | inr ne ↦ ap (λ x. x.in_use && (x.port == port)) (entry-set_ne es i j e (ground arith))
        ]

        clash : (r : ℕ) → i ≡ r → has_port es port r ≡ true → ⊥
        clash r q has = let has' : has_port es port i ≡ true = rw q has in absurd (ground arith)

    -- A new entry whose ports no entry has keeps the ports distinct.
    pub set-IsValid :
        (i : ℕ) (e : Entry Callback)
        → i < max_udp_bindings
        → ((port j : ℕ) → (e.in_use && (e.port == port)) ≡ true → has_port es port j ≡ false)
        → IsValid (set es i e)
    set-IsValid i e lt fresh = record { size = length-set es i e ∙ v.size; distinct = apart }
      where
        here : (port : ℕ) → has_port (set es i e) port i ≡ (e.in_use && (e.port == port))
        here port =
            ap (λ x. x.in_use && (x.port == port)) (entry-set_self es i e (omega (arith, v.size)))

        old : (port j : ℕ) → i ≢ j → has_port (set es i e) port j ≡ true → has_port es port j ≡ true
        old port j ne h =
            sym (ap (λ x. x.in_use && (x.port == port)) (entry-set_ne es i j e ne)) ∙ h

        mixed :
            (port j k : ℕ)
            → i ≡ j
            → i ≢ k
            → has_port (set es i e) port j ≡ true
            → has_port (set es i e) port k ≡ true
            → j ≡ k
        mixed port j k same ne a b =
            let a' = subst (λ m. has_port (set es i e) port m ≡ true) (sym same) a in
            let missed = fresh port k (sym (here port) ∙ a') in
            let there = old port k ne b in absurd (ground arith)

        apart :
            (port j k : ℕ)
            → has_port (set es i e) port j ≡ true
            → has_port (set es i e) port k ≡ true
            → j ≡ k
        apart port j k a b = elim (Bool-cases (i == j)) [
          | inl s ↦ elim (Bool-cases (i == k)) [
            | inl r ↦ ground arith
            | inr ne ↦ mixed port j k (ground arith) (ground arith) a b
          ]
          | inr ne ↦ elim (Bool-cases (i == k)) [
            | inl r ↦ sym (mixed port k j (ground arith) (ground arith) b a)
            | inr ne' ↦
                v.distinct port j k (old port j (ground arith) a) (old port k (ground arith) b)
          ]
        ]

    -- Of a table in which no port is bound twice, `dispatch` gives what the entry with the port holds.
    pub dispatch-at :
        (port i : ℕ)
        → i < max_udp_bindings
        → has_port es port i ≡ true
        → dispatch es port ≡ some (entry es i).callback
    unfolding dispatch
    dispatch-at port i lt has = rw (find_port_unique port i lt has, dispatch) refl

    pub dispatch-none :
        (port : ℕ)
        → ((j : ℕ) → j < max_udp_bindings → has_port es port j ≡ false)
        → dispatch es port ≡ none
    unfolding dispatch find_port
    dispatch-none port free = elim (Option-cases (find_from 8 0 (has_port es port))) [
      | inl missed ↦ rw (missed, dispatch, find_port) refl
      | inr (r, found) ↦
          let hit = find_from-some 8 0 (has_port es port) r found in
          let clash = free r (omega (arith, hit)) in absurd (ground arith)
    ]
