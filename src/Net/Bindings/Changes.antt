-- ===== src/Net/Bindings/Changes.antt =====
-- `bind` and `unbind` change what `dispatch` gives for their own port, and for no other.
use mathlib.Core.Bool.{false≢true}
use linux95_kernel.Prelude.{
  ℕ, zero, suc, ◌<◌, ◌≡◌, ◌≢◌, refl, ap, sym, ◌∙◌, inl, inr, ◌⊎◌, true, false, ◌&&◌, not, Option,
  none, some, List, ltb, ◌==◌, if◌then◌else◌, set, replicate, arith, Bool-cases, Option-cases,
  find_from-some, find_from-none,
}
use mathlib.Core.Path.{subst}
use linux95_kernel.Net.Bindings.{
  Entry, max_udp_bindings, free_entry, entry, has_port, find_port, find_unused, bind, unbind,
  dispatch,
}
use linux95_kernel.Net.Bindings.Lookup.{
  IsValid, entry-set_self, entry-set_ne, entry-out, dispatch-set_other, set-IsValid, dispatch-at,
  dispatch-none,
}

module _ {Callback : Type 0} where
  module _ (es : List (Entry Callback)) (v : IsValid es) where
    -- After a change of one entry, `dispatch` of its port gives its callback.
    dispatch-set_self :
        (i port : ℕ) (callback : Option Callback)
        → i < max_udp_bindings
        → IsValid (set es i (record { in_use = true; port = port; callback = callback }))
        → dispatch (set es i (record { in_use = true; port = port; callback = callback })) port
          ≡ some callback
    dispatch-set_self i port callback lt v' =
        let e : Entry Callback = record { in_use = true; port = port; callback = callback } in
        let here = entry-set_self es i e (omega (arith, v.size)) in
        let same : (port == port) ≡ true = ground arith in
        dispatch-at (set es i e) v' port i lt (ap (λ x. x.in_use && (x.port == port)) here ∙ same)
        ∙ ap (λ x. some x.callback) here

    bound : ℕ → ℕ → Callback → List (Entry Callback)
    bound i port callback =
        set es i (record { in_use = true; port = port; callback = some callback })

    bind-step :
        (i port : ℕ) (callback : Callback)
        → find_port es port ≡ none
        → find_unused es ≡ some i
        → IsValid (bound i port callback)
          × ((p : ℕ)
              → dispatch (bound i port callback) p
                ≡ (if p == port then some (some callback) else dispatch es p))
    unfolding bound find_port find_unused
    bind-step i port callback missed found =
        let hit = find_from-some 8 0 (λ i. not (entry es i).in_use) i found in
        let valid : IsValid (bound i port callback) =
          set-IsValid es v i _ (omega (arith, hit.1)) fresh in
        (
          valid,
          λ p. elim (Bool-cases (p == port)) [
            | inl same ↦
                let q : port ≡ p = ground arith in
                rw same (
                  subst (λ k. dispatch (bound i port callback) k ≡ some (some callback)) q
                    (dispatch-set_self i port (some callback) (omega (arith, hit.1)) valid))
            | inr ne ↦ rw ne (
                dispatch-set_other es v i p _ (omega (arith, hit.1)) (ground (arith, hit.2))
                  (ground arith))
          ],
        )
      where
        fresh : (q j : ℕ) → (true && (port == q)) ≡ true → has_port es q j ≡ false
        fresh q j e = elim (Bool-cases (ltb j 8)) [
          | inl lt ↦
              let same : port ≡ q = ground arith in
              subst (λ r. has_port es r j ≡ false) same
                (find_from-none 8 0 (has_port es port) missed j (omega arith) (ground arith))
          | inr ge ↦
              let out : entry es j ≡ free_entry = entry-out es j (ground (arith, v.size)) in
              ap (λ x. x.in_use && (x.port == q)) out
        ]

    -- On a table in which no port is bound twice: `bind` with a callback either succeeds, keeps the table so,
    -- and from then on `dispatch` gives the callback for the port and what it gave before for any other; or
    -- it refuses and changes nothing, because the port is zero, is bound already, or no entry is free.
    pub bind_lem :
        (port : ℕ) (callback : Callback)
        → (((bind es port (some callback)).0 ≡ true)
            × IsValid (bind es port (some callback)).1
            × ((p : ℕ)
                → dispatch (bind es port (some callback)).1 p
                  ≡ (if p == port then some (some callback) else dispatch es p)))
          ⊎ ((bind es port (some callback) ≡ (false, es))
              × ((port ≡ 0)
                  ⊎ (((i : ℕ) × (has_port es port i ≡ true))
                      ⊎ ((i : ℕ) → i < max_udp_bindings → (entry es i).in_use ≡ true))))
    unfolding bind bound find_unused
    bind_lem port callback = elim (Bool-cases (port == 0)) [
      | inl zero_port ↦ inr (ground arith, inl (ground arith))
      | inr fine ↦ elim (Option-cases (find_port es port)) [
        | inr (i, found) ↦ inr (
          rw (fine, found, bind) refl,
          inr (inl (i, unfold find_port in (find_from-some 8 0 (has_port es port) i found).2)),
        )
        | inl missed ↦ elim (Option-cases (find_unused es)) [
          | inl full ↦ inr (rw (fine, missed, full, bind) refl, inr (inr (all_used full)))
          | inr (i, free) ↦
              let (valid, after) = bind-step i port callback missed free in
              inl (rw (fine, missed, free, bind) (refl, valid, after))
        ]
      ]
    ]
      where
        all_used :
            find_unused es ≡ none → (i : ℕ) → i < max_udp_bindings → (entry es i).in_use ≡ true
        all_used full i lt =
            let used =
              find_from-none 8 0 (λ i. not (entry es i).in_use) full i (omega arith)
                (omega arith) in
            ground arith

    unbind-step :
        (i port : ℕ)
        → find_port es port ≡ some i
        → IsValid (set es i free_entry)
          × ((p : ℕ)
              → dispatch (set es i free_entry) p ≡ (if p == port then none else dispatch es p))
    unfolding find_port
    unbind-step i port found =
        let hit = find_from-some 8 0 (has_port es port) i found in
        let valid : IsValid (set es i free_entry) =
          set-IsValid es v i free_entry (omega (arith, hit.1)) (λ q j e. absurd (ground arith)) in
        (
          valid,
          λ p. elim (Bool-cases (p == port)) [
            | inl same ↦
                rw same (dispatch-none (set es i free_entry) valid p (gone p (ground arith)))
            | inr ne ↦ rw ne (
                dispatch-set_other es v i p free_entry (omega (arith, hit.1))
                  (other p (ground arith)) refl)
          ],
        )
      where
        lone : (p : ℕ) → p ≡ port → (j : ℕ) → i ≢ j → has_port es p j ≡ false
        lone p same j ne = elim (Bool-cases (has_port es p j)) [
          | inr missed ↦ missed
          | inl has ↦
              let has' = subst (λ q. has_port es q j ≡ true) same has in
              absurd
                (ne (v.distinct port i j (find_from-some 8 0 (has_port es port) i found).2 has'))
        ]

        gone :
            (p : ℕ)
            → p ≡ port
            → (j : ℕ) → j < max_udp_bindings
            → has_port (set es i free_entry) p j ≡ false
        gone p same j lt = elim (Bool-cases (i == j)) [
          | inl here ↦
              let q : i ≡ j = ground arith in
              subst (λ k. has_port (set es i free_entry) p k ≡ false) q
                (ap (λ x. x.in_use && (x.port == p))
                  (entry-set_self es i free_entry (omega (arith, v.size, lt, q))))
          | inr ne ↦
              ap (λ x. x.in_use && (x.port == p)) (entry-set_ne es i j free_entry (ground arith))
              ∙ lone p same j (ground arith)
        ]

        other : (p : ℕ) → p ≢ port → has_port es p i ≡ false
        other p ne = let has = (find_from-some 8 0 (has_port es port) i found).2 in ground arith

    -- On a table in which no port is bound twice, `unbind` either succeeds, keeps the table so, and
    -- from then on `dispatch` gives nothing for the port and what it gave before for any other; or
    -- it refuses and changes nothing, because `dispatch` gives nothing for the port.
    pub unbind_lem :
        (port : ℕ)
        → (((unbind es port).0 ≡ true)
            × IsValid (unbind es port).1
            × ((p : ℕ)
                → dispatch (unbind es port).1 p ≡ (if p == port then none else dispatch es p)))
          ⊎ ((unbind es port ≡ (false, es)) × (dispatch es port ≡ none))
    unfolding unbind dispatch
    unbind_lem port = elim (Option-cases (find_port es port)) [
      | inl missed ↦ inr (rw (missed, unbind) refl, rw (missed, dispatch) refl)
      | inr (i, found) ↦
          let (valid, after) = unbind-step i port found in
          inl (rw (found, unbind) (refl, valid, after))
    ]

  -- The table that the kernel starts with.
  pub free-IsValid : IsValid {Callback = Callback} (replicate max_udp_bindings free_entry)
  free-IsValid = record {
    size = refl;
    distinct = λ port i j has has'. absurd (false≢true (sym (free port i) ∙ has));
  }
    where
      blank : (n i : ℕ) → entry {Callback = Callback} (replicate n free_entry) i ≡ free_entry
      blank zero i = refl
      blank (suc n) zero = refl
      blank (suc n) (suc i) = blank n i

      free :
          (port i : ℕ)
          → has_port {Callback = Callback} (replicate max_udp_bindings free_entry) port i ≡ false
      free port i = ap (λ x. x.in_use && (x.port == port)) (blank max_udp_bindings i)
