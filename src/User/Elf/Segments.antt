-- ===== src/User/Elf/Segments.antt =====
-- What an image that inspect_elf64 accepts promises to the loader.
use linux95_kernel.Prelude.{
  ℕ, zero, suc, ◌+◌, ◌*◌, ◌≤◌, ◌<◌, ◌≡◌, ◌≢◌, ◌⊎◌, refl, sym, inl, inr, true, false, some, List, [],
  map, length, arith, All, AllPairs,
}
use Prim.{tt}
use mathlib.Core.Path.{subst}
use mathlib.Core.Bool.{false≢true}
use linux95_kernel.User.Elf.{
  ElfStatus, ok, Checked, failed, passed, ElfImageInfo, Scan, max_segments, checked_add,
  checked_mul, segment_at, read_le, load_segment, visit_header, scan_headers, finish_scan,
  inspect_elf64,
}
use linux95_kernel.User.Elf.Ranges.{
  IsValid, Fits, Apart, Executable, page_range, load_segment-IsValid,
}

Checked-cases :
    {A : Type 0} (c : Checked A)
    → ((status : ElfStatus) × (c ≡ failed status)) ⊎ ((a : A) × (c ≡ passed a))
Checked-cases (failed status) = inl (status, refl)
Checked-cases (passed a) = inr (a, refl)

-- A header leaves what is stored as it is, or it is a segment.
visit_header_cases :
    (data_bytes : List ℕ) (size index : ℕ) (s s' : Scan)
    → visit_header data_bytes size index s ≡ passed s'
    → let p = segment_at data_bytes (read_le 8 data_bytes 32 + index * read_le 2 data_bytes 54) in
      (s' ≡ s) ⊎ (load_segment size (read_le 8 data_bytes 24) p s ≡ passed s')
unfolding visit_header checked_add checked_mul
visit_header_cases data_bytes size index s s' h = ground (arith, h)

visit_header-IsValid :
    (data_bytes : List ℕ) (size index : ℕ) (s s' : Scan)
    → visit_header data_bytes size index s ≡ passed s'
    → IsValid size (read_le 8 data_bytes 24) s
    → IsValid size (read_le 8 data_bytes 24) s'
visit_header-IsValid data_bytes size index s s' h v =
    elim (visit_header_cases data_bytes size index s s' h) [
      | inl same ↦ subst (IsValid size (read_le 8 data_bytes 24)) (sym same) v
      | inr loaded ↦
          let p =
            segment_at data_bytes (read_le 8 data_bytes 32 + index * read_le 2 data_bytes 54) in
          load_segment-IsValid size (read_le 8 data_bytes 24) p s s' loaded v
    ]

scan_headers-IsValid :
    (data_bytes : List ℕ) (size left index : ℕ) (s : Scan)
    → IsValid size (read_le 8 data_bytes 24) s
    → IsValid size (read_le 8 data_bytes 24) (scan_headers data_bytes size left index s).1
unfolding scan_headers
scan_headers-IsValid data_bytes size zero index s v = v
scan_headers-IsValid data_bytes size (suc left) index s v =
    elim (Checked-cases (visit_header data_bytes size index s)) [
      | inl (status, e) ↦ rw (e, scan_headers) v
      | inr (s', e) ↦
          rw (e, scan_headers)
            (scan_headers-IsValid data_bytes size left (index + 1) s'
              (visit_header-IsValid data_bytes size index s s' e v))
    ]

-- What the loader relies on.
pub record Loadable (size : ℕ) (info : ElfImageInfo) : Type 0 where
  pub counted : info.segment_count ≡ length info.segments
  pub some_segment : 0 < info.segment_count
  pub bounded : info.segment_count ≤ max_segments
  pub fit : All (Fits size) info.segments
  pub apart : AllPairs Apart (map page_range info.segments)
  pub entry_held : Executable info.entry info.segments

finish_scan-ok :
    (entry : ℕ) (status : ElfStatus) (s : Scan) (info : ElfImageInfo)
    → finish_scan entry (status, s) ≡ (ok, info)
    → (s.entry_in_executable_segment ≡ true)
      × (length s.segments ≢ 0)
      × (info ≡ record { entry = entry; segment_count = length s.segments; segments = s.segments })
unfolding finish_scan
finish_scan-ok entry status s info h = ground (arith, h)

abbrev first_scan : Scan
first_scan = record { segments = []; ranges = []; entry_in_executable_segment = false }

first_scan-IsValid : (size entry : ℕ) → IsValid size entry first_scan
first_scan-IsValid size entry = record {
  bounded = omega arith;
  fit = tt;
  ranges_of = refl;
  apart = tt;
  entry_held = λ e. absurd (false≢true e);
}

inspect_elf64-scanned :
    (data_bytes : List ℕ) (size : ℕ) (info : ElfImageInfo)
    → inspect_elf64 (some data_bytes) size ≡ (ok, info)
    → finish_scan
        (read_le 8 data_bytes 24)
        (scan_headers data_bytes size (read_le 2 data_bytes 56) 0 first_scan)
      ≡ (ok, info)
unfolding inspect_elf64
inspect_elf64-scanned data_bytes size info h = ground (arith, h)

-- An image that inspect_elf64 accepts has between one and 16 segments; the bytes of each lie in the
-- file, its memory is not empty, holds them and does not wrap around, and its pages lie in the user
-- image; no page is in two segments; and one of the segments is executable and holds the entry
-- point.
pub inspect_elf64-Loadable :
    (data_bytes : List ℕ) (size : ℕ) (info : ElfImageInfo)
    → inspect_elf64 (some data_bytes) size ≡ (ok, info)
    → Loadable size info
inspect_elf64-Loadable data_bytes size info h =
    let entry = read_le 8 data_bytes 24 in
    let (status, s) = scan_headers data_bytes size (read_le 2 data_bytes 56) 0 first_scan in
    let (held, nonzero, e) =
      finish_scan-ok entry status s info (inspect_elf64-scanned data_bytes size info h) in
    let v : IsValid size entry s =
      scan_headers-IsValid data_bytes size (read_le 2 data_bytes 56) 0 first_scan
        (first_scan-IsValid size entry) in
    rw e (record {
      counted = refl;
      some_segment = omega (arith, nonzero);
      bounded = v.bounded;
      fit = v.fit;
      apart = subst (AllPairs Apart) v.ranges_of v.apart;
      entry_held = v.entry_held held;
    })
