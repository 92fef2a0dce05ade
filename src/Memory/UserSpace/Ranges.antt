-- ===== src/Memory/UserSpace/Ranges.antt =====
-- The check of a user's range: it looks at every page of the range, it ends, and it says what it found.
use linux95_kernel.Prelude.{
  ℕ, zero, suc, ◌+◌, ◌-◌, ◌*◌, ◌/◌, ◌%◌, ◌^◌, ◌≤◌, ◌<◌, ◌≡◌, ◌≢◌, ◌↔◌, refl, sym, ◌∙◌, inl, inr,
  Bool, true, false, ◌&&◌, not, some, ◌==◌, if◌then◌else◌, arith, Bool-cases,
}
use mathlib.Core.Bool.{false≢true}
use linux95_kernel.Memory.Address.{page_size}
use linux95_kernel.Memory.Paging.{PageInfo}
use linux95_kernel.Memory.UserSpace.{
  UserAccess, is_canonical_user_address, user_range_arithmetic_valid, user_page_span,
  user_page_access_allowed, validate_pages, validate_user_range_with_lookup,
}

first_true : (a b : Bool) → (a && b) ≡ true → a ≡ true
first_true a b h = ground arith

second_true : (a b : Bool) → (a && b) ≡ true → b ≡ true
second_true a b h = ground arith

both_true : (a b : Bool) → a ≡ true → b ≡ true → (a && b) ≡ true
both_true a b h h' = ground arith

one_test : (a : Bool) → (if not a then some false else some true) ≡ some a
one_test false = refl
one_test true = refl

some_test : (a b : Bool) → (if not a then some false else some b) ≡ some (a && b)
some_test false b = refl
some_test true b = refl

module _ (lookup : ℕ → Bool × PageInfo) (access : UserAccess) where
  abbrev pub allows : ℕ → Bool
  allows page = (lookup page).0 && user_page_access_allowed (lookup page).1 access

  -- The pages from `page` on, `n` more after it.
  abbrev all_allow : ℕ → ℕ → Bool
  all_allow zero page = allows page
  all_allow (suc n) page = allows page && all_allow n (page + page_size)

  all_allow-at :
      (n page k : ℕ) → all_allow n page ≡ true → k ≤ n → allows (page + k * page_size) ≡ true
  all_allow-at zero page k all le =
      let e : page + k * page_size ≡ page = omega (arith, le) in rw e all
  all_allow-at (suc n) page zero all le =
      let e : page + 0 * page_size ≡ page = omega arith in
      rw e (first_true (allows page) (all_allow n (page + page_size)) all)
  all_allow-at (suc n) page (suc k) all le =
      let e : page + suc k * page_size ≡ page + page_size + k * page_size = omega arith in
      rw e (
        all_allow-at n (page + page_size) k
          (second_true (allows page) (all_allow n (page + page_size)) all) (omega arith))

  all_allow_from :
      (n page : ℕ)
      → ((k : ℕ) → k ≤ n → allows (page + k * page_size) ≡ true)
      → all_allow n page ≡ true
  all_allow_from zero page all =
      let e : page + 0 * page_size ≡ page = omega arith in (rw e at (all 0 (omega arith)))
  all_allow_from (suc n) page all =
      let e : page + 0 * page_size ≡ page = omega arith in
      both_true (allows page) (all_allow n (page + page_size)) (rw e at (all 0 (omega arith))) (
        all_allow_from n (page + page_size) λ k le.
          let e : page + page_size + k * page_size ≡ page + suc k * page_size = omega arith in
          rw e (all (suc k) (omega arith)))

  validate_step :
      (fuel page last : ℕ)
      → validate_pages lookup access (suc fuel) page last ≡ (
          if not (allows page)
          then some false
          else if page == last
          then some true
          else validate_pages lookup access fuel ((page + page_size) % 2 ^ 64) last)
  unfolding validate_pages
  validate_step fuel page last = ground arith

  validate_pages_lem :
      (n page last : ℕ)
      → page + n * page_size ≡ last
      → last < 2 ^ 64
      → validate_pages lookup access (suc n) page last ≡ some (all_allow n page)
  validate_pages_lem zero page last e lt =
      let here : (page == last) ≡ true = ground (arith, e) in
      validate_step 0 page last ∙ rw here (one_test (allows page))
  validate_pages_lem (suc n) page last e lt =
      let not_here : (page == last) ≡ false = ground (arith, e) in
      let next : (page + page_size) % 2 ^ 64 ≡ page + page_size = omega (arith, e, lt) in
      let rest = validate_pages_lem n (page + page_size) last (omega (arith, e)) lt in
      validate_step (suc n) page last
      ∙ rw (not_here, next, rest) (some_test (allows page) (all_allow n (page + page_size)))

-- What the check should find out: the range lies in the lower half, and the page of each of its bytes is
-- there for the user and allows the access.
abbrev pub IsAccessible : (ℕ → Bool × PageInfo) → UserAccess → ℕ → ℕ → Type 0
IsAccessible lookup access address length =
    (address < 2 ^ 47)
    × (address + length ≤ 2 ^ 47)
    × ((a : ℕ) → address ≤ a → a < address + length → allows lookup access (a / 4096 * 4096) ≡ true)

valid_range :
    (address length : ℕ)
    → length < 2 ^ 64
    → user_range_arithmetic_valid address length ≡ true
    → (address < 2 ^ 47) × (address + length ≤ 2 ^ 47)
unfolding user_range_arithmetic_valid is_canonical_user_address
valid_range address length fits h = (ground (arith, h), ground (arith, fits, h))

range_valid :
    (address length : ℕ)
    → address < 2 ^ 47
    → address + length ≤ 2 ^ 47
    → user_range_arithmetic_valid address length ≡ true
unfolding user_range_arithmetic_valid is_canonical_user_address
range_valid address length low high = ground (arith, low, high)

module _ (lookup : ℕ → Bool × PageInfo) (access : UserAccess) (address length : ℕ)
    (low : address < 2 ^ 47) (high : address + length ≤ 2 ^ 47) (some_bytes : length ≢ 0) where
  abbrev first : ℕ
  first = address / 4096 * 4096

  abbrev more : ℕ
  more = ((address + length - 1) / 4096 * 4096 - first) / page_size

  span_lem : user_page_span address length ≡ (first, first + more * page_size)
  unfolding user_page_span
  span_lem =
      let z : (length == 0) ≡ false = ground (arith, some_bytes) in
      let e : (address + length + 18446744073709551615) % 2 ^ 64 / 4096 * 4096
          ≡ first + more * page_size =
        omega (arith, high, some_bytes) in
      rw (z, e) refl

  all_allow_bytes :
      all_allow lookup access more first ≡ true
      → (a : ℕ) → address ≤ a
      → a < address + length
      → allows lookup access (a / 4096 * 4096) ≡ true
  all_allow_bytes all a from to =
      let k = (a / 4096 * 4096 - first) / page_size in
      let e : first + k * page_size ≡ a / 4096 * 4096 = omega (arith, from, to) in
      (rw e at (all_allow-at lookup access more first k all (omega (arith, from, to))))

  bytes_all_allow :
      ((a : ℕ) → address ≤ a → a < address + length → allows lookup access (a / 4096 * 4096) ≡ true)
      → all_allow lookup access more first ≡ true
  bytes_all_allow all = all_allow_from lookup access more first λ k le. elim (Bool-cases (k == 0)) [
    | inl start ↦
        let e : first + k * page_size ≡ address / 4096 * 4096 = ground (arith, start) in
        rw e (all address (omega arith) (omega (arith, some_bytes)))
    | inr later ↦
        let pos : k ≢ 0 = ground (arith, later) in
        let a = first + k * page_size in
        let e : a ≡ a / 4096 * 4096 = omega arith in
        rw e (all a (omega (arith, pos)) (omega (arith, le, some_bytes)))
  ]

  pages_lem :
      validate_pages lookup access (more + 1) first (first + more * page_size)
      ≡ some (all_allow lookup access more first)
  pages_lem =
      let e : more + 1 ≡ suc more = omega arith in
      rw e (
        validate_pages_lem lookup access more first (first + more * page_size) refl
          (omega (arith, high, some_bytes)))

-- For a length below 2^64, whatever the lookup answers: the check ends with its fuel, and accepts
-- exactly when the address and the end of the range are in the lower half and the page of every
-- byte of the range is found and allows the access.
pub validate_user_range_lem :
    (lookup : ℕ → Bool × PageInfo) (access : UserAccess) (address length : ℕ)
    → length < 2 ^ 64
    → (accepted : Bool) × (validate_user_range_with_lookup address length access (some lookup)
        ≡ some accepted)
      × ((accepted ≡ true) ↔ IsAccessible lookup access address length)
unfolding validate_user_range_with_lookup
validate_user_range_lem lookup access address length fits =
    elim (Bool-cases (user_range_arithmetic_valid address length)) [
      | inr invalid ↦ (
        false,
        rw invalid refl,
        (
          λ e. absurd (false≢true e),
          λ ok. absurd (false≢true (sym invalid ∙ range_valid address length ok.0 ok.1)),
        ),
      )
      | inl valid ↦
          let (low, high) = valid_range address length fits valid in
          elim (Bool-cases (length == 0)) [
            | inl empty ↦
                let none : length ≡ 0 = ground (arith, empty) in
                (
                  true,
                  rw (valid, empty) refl,
                  (
                    λ e. (low, high, λ a from to. absurd (omega (arith, none, from, to))),
                    λ ok. refl,
                  ),
                )
            | inr filled ↦
                let some_bytes : length ≢ 0 = ground (arith, filled) in
                let n = more lookup access address length low high some_bytes in
                let first = address / 4096 * 4096 in
                let count : (first + n * page_size - first) / page_size + 1 ≡ n + 1 = omega arith in
                let span = span_lem lookup access address length low high some_bytes in
                (
                  all_allow lookup access (more lookup access address length low high some_bytes)
                      (address / 4096 * 4096),
                  rw (valid, filled, span, count)
                      (pages_lem lookup access address length low high some_bytes),
                  (
                    λ e. (
                      low,
                      high,
                      all_allow_bytes lookup access address length low high some_bytes e,
                    ),
                    λ ok. bytes_all_allow lookup access address length low high some_bytes ok.2,
                  ),
                )
          ]
    ]
