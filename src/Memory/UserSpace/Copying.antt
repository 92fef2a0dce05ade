-- ===== src/Memory/UserSpace/Copying.antt =====
-- copy_from_user: the bytes that it copies, page by page, are those that the range is mapped to.
use linux95_kernel.Prelude.{
  ℕ, zero, suc, ◌+◌, ◌-◌, ◌*◌, ◌/◌, ◌%◌, ◌^◌, ◌≤◌, ◌<◌, ◌≡◌, ◌≢◌, ◌⊎◌, refl, sym, ap, ◌∙◌, inl, inr,
  true, false, not, some, ltb, ◌==◌, if◌then◌else◌, arith, Bool-cases, List, [], ◌∷◌, ◌++◌,
}
use mathlib.Core.Bool.{false≢true}
use linux95_kernel.Memory.Address.{page_size, is_page_aligned}
use linux95_kernel.Memory.Paging.{Tables, translate, query_page}
use linux95_kernel.Memory.Paging.Queries.{
  HasPage, found, physical_translate, translate_near, present_near,
}
use linux95_kernel.Memory.UserSpace.{
  read, user_page_access_allowed, validate_user_range, bytes_at, copy_chunks, copy_from_user,
}
use linux95_kernel.Memory.UserSpace.Ranges.{IsAccessible, validate_user_range_lem}

-- Byte by byte, without the pages.
unfoldable pub bytes_mapped : Tables → (ℕ → ℕ) → ℕ → ℕ → ℕ → List ℕ
bytes_mapped tables memory root address zero = []
bytes_mapped tables memory root address (suc n) =
    memory (translate tables root address) ∷ bytes_mapped tables memory root (address + 1) n

bytes_mapped-append :
    (tables : Tables) (memory : ℕ → ℕ) (root a m n : ℕ)
    → bytes_mapped tables memory root a (m + n)
      ≡ bytes_mapped tables memory root a m ++ bytes_mapped tables memory root (a + m) n
unfolding bytes_mapped
bytes_mapped-append tables memory root a zero n =
    let e : 0 + n ≡ n = omega arith in let e' : a + 0 ≡ a = omega arith in rw (e, e') refl
bytes_mapped-append tables memory root a (suc m) n =
    let e : suc m + n ≡ suc (m + n) = omega arith in
    let e' : a + suc m ≡ a + 1 + m = omega arith in
    rw (e, e')
      (ap (◌∷◌ (memory (translate tables root a)))
        (bytes_mapped-append tables memory root (a + 1) m n))

module _ (tables : Tables) (memory : ℕ → ℕ) (root : ℕ) (aligned : is_page_aligned root ≡ true) where
  -- The bytes of one page.
  bytes_at_lem :
      (source i n : ℕ)
      → HasPage tables root aligned source
      → source % 4096 + i + n ≤ 4096
      → bytes_at memory (translate tables root source + i) n
        ≡ bytes_mapped tables memory root (source + i) n
  unfolding bytes_at bytes_mapped
  bytes_at_lem source i zero present room = refl
  bytes_at_lem source i (suc n) present room =
      let near = translate_near tables root aligned source i present (omega (arith, room)) in
      let e : translate tables root source + i + 1 ≡ translate tables root source + (i + 1) =
        omega arith in
      let e' : source + i + 1 ≡ source + (i + 1) = omega arith in
      rw (near, e, e')
        (ap (◌∷◌ (memory (translate tables root source + i)))
          (bytes_at_lem source (i + 1) n present (omega (arith, room))))

  abbrev chunk_of : ℕ → ℕ → ℕ
  chunk_of source remaining =
      let offset = source % page_size in
      if ltb remaining (page_size - offset) then remaining else page_size - offset

  chunk_bounds :
      (source remaining : ℕ)
      → remaining ≢ 0
      → (0 < chunk_of source remaining)
        × (chunk_of source remaining ≤ remaining)
        × (source % 4096 + chunk_of source remaining ≤ 4096)
  chunk_bounds source remaining some_left = (ground arith, ground arith, ground arith)

  copy_step :
      (fuel source remaining : ℕ)
      → copy_chunks tables memory root (suc fuel) source remaining ≡ (
          let chunk = chunk_of source remaining in
          let (done, rest) =
            copy_chunks tables memory root fuel (source + chunk) (remaining - chunk) in
          let (found, info) = query_page tables root source in
          if remaining == 0
          then (true, [])
          else if not found
          then (false, [])
          else (done, bytes_at memory info.physical chunk ++ rest))
  unfolding copy_chunks
  copy_step fuel source remaining = refl

  first_chunk :
      (source chunk : ℕ)
      → HasPage tables root aligned source
      → source % 4096 + chunk ≤ 4096
      → bytes_at memory (query_page tables root source).1.physical chunk
        ≡ bytes_mapped tables memory root source chunk
  first_chunk source chunk present room =
      let at = physical_translate tables root aligned source present in
      let e : translate tables root source + 0 ≡ translate tables root source = omega arith in
      let e' : source + 0 ≡ source = omega arith in
      ap (λ p. bytes_at memory p chunk) (at ∙ sym e)
      ∙ bytes_at_lem source 0 chunk present (omega (arith, room))
      ∙ ap (λ a. bytes_mapped tables memory root a chunk) e'

  copy_none : (source : ℕ) → copy_chunks tables memory root 0 source 0 ≡ (true, [])
  unfolding copy_chunks
  copy_none source = refl

  copy_chunks_lem :
      (fuel source remaining : ℕ)
      → remaining ≤ fuel
      → ((a : ℕ) → source ≤ a → a < source + remaining → HasPage tables root aligned a)
      → copy_chunks tables memory root fuel source remaining
        ≡ (true, bytes_mapped tables memory root source remaining)
  unfolding bytes_mapped
  copy_chunks_lem zero source remaining enough all =
      let e : remaining ≡ 0 = omega (arith, enough) in rw e (copy_none source)
  copy_chunks_lem (suc fuel) source remaining enough all = elim (Bool-cases (remaining == 0)) [
    | inl none ↦
        let e : remaining ≡ 0 = ground arith in copy_step fuel source remaining ∙ rw (none, e) refl
    | inr more ↦
        let some_left : remaining ≢ 0 = ground arith in
        let chunk = chunk_of source remaining in
        let (positive, within, in_page) = chunk_bounds source remaining some_left in
        let rest =
          copy_chunks_lem fuel (source + chunk) (remaining - chunk)
            (omega (arith, positive, enough, some_left))
            (λ a from to. all a (omega (arith, from)) (omega (arith, to, within))) in
        let first =
          first_chunk source chunk (all source (omega arith) (omega (arith, some_left))) in_page in
        let sum : chunk + (remaining - chunk) ≡ remaining = omega (arith, within) in
        let whole = bytes_mapped-append tables memory root source chunk (remaining - chunk) in
        copy_step fuel source remaining
        ∙ rw (more, found tables root aligned source, rest, first)
            (ap (λ bytes. (true, bytes))
              (sym whole ∙ ap (bytes_mapped tables memory root source) sum))
  ]

-- Every byte of an accessible range is on a page that is there.
accessible_there :
    (tables : Tables) (root : ℕ) (aligned : is_page_aligned root ≡ true) (address length : ℕ)
    → IsAccessible (query_page tables root) read address length
    → (a : ℕ) → address ≤ a
    → a < address + length
    → HasPage tables root aligned a
unfolding user_page_access_allowed
accessible_there tables root aligned address length ok a from to =
    let base = a / 4096 * 4096 in
    let e : base + a % 4096 ≡ a = omega arith in
    let here : (query_page tables root base).1.present ≡ true =
      let allowed = ok.2 a from to in ground (arith, allowed) in
    let near = present_near tables root aligned base (a % 4096) (omega arith) in
    ap (λ x. (query_page tables root x).1.present) (sym e) ∙ near ∙ here

-- For a page-aligned root and a length below 2^64, whatever the page tables and the memory hold: if
-- every page of the range may be read by the user, copy_from_user succeeds with the bytes that the
-- range is mapped to, one by one; otherwise it fails and copies nothing. Both loops end within
-- their fuel.
pub copy_from_user_lem :
    (tables : Tables) (memory : ℕ → ℕ) (root source_user length : ℕ)
    → is_page_aligned root ≡ true
    → length < 2 ^ 64
    → ((copy_from_user tables memory root source_user length
          ≡ some (true, bytes_mapped tables memory root source_user length))
        × IsAccessible (query_page tables root) read source_user length)
      ⊎ ((copy_from_user tables memory root source_user length ≡ some (false, []))
          × (IsAccessible (query_page tables root) read source_user length → ⊥))
unfolding copy_from_user validate_user_range
copy_from_user_lem tables memory root source_user length aligned fits =
    let (accepted, e, iff) =
      validate_user_range_lem (query_page tables root) read source_user length fits in
    elim (Bool-cases accepted) [
      | inl taken ↦
          let ok = iff.0 taken in
          let all = accessible_there tables root aligned source_user length ok in
          let copied =
            copy_chunks_lem tables memory root aligned length source_user length (omega arith)
              all in
          let e' = e ∙ ap some taken in inl (rw (e', copy_from_user) (ap some copied), ok)
      | inr refused ↦
          let e' = e ∙ ap some refused in
          inr (rw (e', copy_from_user) refl, λ ok. false≢true (sym refused ∙ iff.1 ok))
    ]
