-- ===== src/Process/Reap.antt =====
-- Reaping: which slots of the table reap_exited blanks, and how often the sweep over a range of addresses
-- releases a page.
use linux95_kernel.Prelude.{
  ℕ, zero, suc, ◌+◌, ◌*◌, ◌<◌, ◌≡◌, refl, ap, inl, inr, Bool, false, ◌&&◌, Option, none, some, List,
  [], ◌∷◌, ltb, leb, ◌==◌, if◌then◌else◌, arith, Bool-cases, count_below, count_below-ext,
}
use linux95_kernel.Process.{
  Table, ReapOperations, Effect, released, destroyed, capacity, slot, blank, is_exited, release,
  release_pages, released_page, reap_one, reap_from, reap_exited, page_size,
}
use linux95_kernel.Process.Pids.{IsValid, release_lem}

module _ (t : Table) (ops : ReapOperations) (i : ℕ) (v : IsValid t) where
  pub reap_one-slot :
      (j : ℕ)
      → slot (reap_one t ops i).1 j
        ≡ (if (i == j) && is_exited (slot t j).state then blank else slot t j)
  unfolding reap_one
  reap_one-slot j = elim (Bool-cases (i == j)) [
    | inl same ↦
        let e : i ≡ j = ground arith in
        ground (arith, ap (slot (release t i)) e, ap (slot t) e, (release_lem t v i).0)
    | inr differ ↦ ground (arith, (release_lem t v i).1 j)
  ]

  pub reap_one-IsValid : IsValid (reap_one t ops i).1
  unfolding reap_one
  reap_one-IsValid = elim (Bool-cases (is_exited (slot t i).state)) [
    | inl exit ↦ rw exit (release_lem t v i).2
    | inr live ↦ rw live v
  ]

reap_from-slot :
    (rounds i : ℕ) (ops : ReapOperations) (t : Table)
    → IsValid t
    → (j : ℕ)
    → slot (reap_from rounds i ops t).1 j
      ≡ (if leb i j && ltb j (i + rounds) && is_exited (slot t j).state then blank else slot t j)
unfolding reap_from
reap_from-slot zero i ops t v j = ground arith
reap_from-slot (suc rounds) i ops t v j = ground (
  arith,
  reap_one-slot t ops i v j,
  reap_from-slot rounds (i + 1) ops (reap_one t ops i).1 (reap_one-IsValid t ops i v) j,
)

reap_from-IsValid :
    (rounds i : ℕ) (ops : ReapOperations) (t : Table)
    → IsValid t
    → IsValid (reap_from rounds i ops t).1
unfolding reap_from
reap_from-IsValid zero i ops t v = v
reap_from-IsValid (suc rounds) i ops t v =
    reap_from-IsValid rounds (i + 1) ops (reap_one t ops i).1 (reap_one-IsValid t ops i v)

-- On a valid table, after reap_exited every slot that held an exited process is blank, every other
-- slot is as it was, and the table is valid, so the process ids are distinct.
pub reap_exited_lem :
    (ops : ReapOperations) (t : Table)
    → IsValid t
    → ((j : ℕ)
        → j < capacity
        → slot (reap_exited ops t).1 j ≡ (if is_exited (slot t j).state then blank else slot t j))
      × IsValid (reap_exited ops t).1
unfolding reap_exited
reap_exited_lem ops t v = (
  λ j lt. ground (arith, reap_from-slot capacity 0 ops t v j),
  reap_from-IsValid capacity 0 ops t v,
)

-- How often a page is released.
abbrev pub count_released : ℕ → List Effect → ℕ
count_released x [] = 0
count_released x (released y ∷ es) = (if y == x then 1 else 0) + count_released x es
count_released x (destroyed y ∷ es) = count_released x es

abbrev pub maps_to : Option ℕ → ℕ → Bool
maps_to none x = false
maps_to (some y) x = y == x

count_below-first :
    (n : ℕ) (p : ℕ → Bool)
    → count_below (suc n) p ≡ (if p 0 then 1 else 0) + count_below n (λ k. p (k + 1))
unfolding count_below
count_below-first zero p = refl
count_below-first (suc n) p =
    let same : p (suc n) ≡ p (n + 1) = ap p (omega arith) in
    ground (arith, count_below-first n p, same)

released_page-count :
    (o : Option ℕ) (x : ℕ) (es : List Effect)
    → count_released x (released_page o es) ≡ (if maps_to o x then 1 else 0) + count_released x es
released_page-count none x es = omega arith
released_page-count (some y) x es = refl

-- The sweep over a range of addresses releases a physical page as often as addresses of the range
-- are mapped to it.
pub release_pages-count :
    (lookup : ℕ → Option ℕ) (rounds address x : ℕ)
    → count_released x (release_pages lookup rounds address)
      ≡ count_below rounds (λ k. maps_to (lookup (address + k * page_size)) x)
unfolding release_pages
release_pages-count lookup zero address x = unfold count_below in refl
release_pages-count lookup (suc rounds) address x =
    let start : address + 0 * page_size ≡ address = omega arith in
    let shift =
      count_below-ext rounds (λ k. maps_to (lookup (address + page_size + k * page_size)) x)
        (λ k. maps_to (lookup (address + (k + 1) * page_size)) x)
        (λ j lt. ap (λ a. maps_to (lookup a) x) (omega arith)) in
    let first = count_below-first rounds (λ k. maps_to (lookup (address + k * page_size)) x) in
    let rest = release_pages-count lookup rounds (address + page_size) x in
    let here = ap lookup start in
    rw (first, here, ← shift, ← rest)
      (released_page-count (lookup address) x (release_pages lookup rounds (address + page_size)))
