-- ===== src/User/Elf/Ranges.antt =====
-- What the loop over the program headers keeps true of the segments that it has stored.
use linux95_kernel.Prelude.{
  ℕ, ◌+◌, ◌^◌, ◌≤◌, ◌<◌, ◌≡◌, ◌≢◌, ◌⊎◌, refl, sym, ap, ◌∙◌, inl, inr, true, false, some, List, [],
  ◌∷◌, ◌++◌, map, if◌then◌else◌, length, length-append, arith, Bool-cases, All, All-append,
  AllPairs, AllPairs-snoc, map-append, append_assoc,
}
use Prim.{tt}
use linux95_kernel.Memory.Address.{page_size, uint64_max, align_down, align_up}
use linux95_kernel.User.Elf.{
  passed, LoadSegment, Scan, user_image_base, user_image_limit, max_segments, checked_add, expanded,
  overlaps, holds_entry, load_segment,
}

-- The pages of a segment whose end has 64 bits.
abbrev pub page_range : LoadSegment → ℕ × ℕ
page_range p =
    (align_down p.virtual_address page_size, align_up (p.virtual_address + p.memory_size) page_size)

-- The segment's bytes are in the file, and its memory in the user image.
pub record Fits (size : ℕ) (p : LoadSegment) : Type 0 where
  pub file_inside : p.file_offset + p.file_size ≤ size
  pub file_le : p.file_size ≤ p.memory_size
  pub nonempty : 0 < p.memory_size
  pub no_wrap : p.virtual_address + p.memory_size < 2 ^ 64
  pub low : user_image_base ≤ (page_range p).0
  pub high : (page_range p).1 ≤ user_image_limit
  pub pages : (page_range p).0 < (page_range p).1

-- No page is in both.
abbrev pub Apart : ℕ × ℕ → ℕ × ℕ → Type 0
Apart a b = (a.1 ≤ b.0) ⊎ (b.1 ≤ a.0)

-- One of the segments is executable and holds the entry point.
abbrev pub Executable : ℕ → List LoadSegment → Type 0
Executable entry segments =
    (p : LoadSegment) × (holds_entry entry p ≡ true)
    × (before : List LoadSegment) × (after : List LoadSegment) × (segments ≡ before ++ (p ∷ after))

pub record IsValid (size entry : ℕ) (s : Scan) : Type 0 where
  pub bounded : length s.segments ≤ max_segments
  pub fit : All (Fits size) s.segments
  pub ranges_of : s.ranges ≡ map page_range s.segments
  pub apart : AllPairs Apart s.ranges
  pub entry_held : s.entry_in_executable_segment ≡ true → Executable entry s.segments

checked_add-some :
    (a b c : ℕ) → checked_add a b ≡ some c → (c ≡ a + b) × ((a ≤ uint64_max) → c < 2 ^ 64)
unfolding checked_add
checked_add-some a b c h = (ground (arith, h), λ le. ground (arith, h))

overlaps-Apart :
    (ranges : List (ℕ × ℕ)) (start end : ℕ)
    → overlaps ranges start end ≡ false
    → All (λ r. Apart r (start, end)) ranges
unfolding overlaps
overlaps-Apart [] start end h = tt
overlaps-Apart ((start', end') ∷ ranges) start end h =
    (ground (arith, h), overlaps-Apart ranges start end (ground (arith, h)))

record Accepted (size entry : ℕ) (p : LoadSegment) (s s' : Scan) : Type 0 where
  room : length s.segments ≢ max_segments
  fits : Fits size p
  free : overlaps s.ranges (page_range p).0 (page_range p).1 ≡ false
  result : s' ≡ record {
    segments = s.segments ++ (p ∷ []);
    ranges = s.ranges ++ (page_range p ∷ []);
    entry_in_executable_segment =
        if holds_entry entry p then true else s.entry_in_executable_segment;
  }

load_segment-Accepted :
    (size entry : ℕ) (p : LoadSegment) (s s' : Scan)
    → load_segment size entry p s ≡ passed s'
    → Accepted size entry p s s'
unfolding load_segment expanded checked_add
load_segment-Accepted size entry p s s' h = record {
  room = ground (arith, h);
  fits = record {
    file_inside = ground (arith, h);
    file_le = ground (arith, h);
    nonempty = ground (arith, h);
    no_wrap = ground (arith, h);
    low = ground (arith, h);
    high = ground (arith, h);
    pages = ground (arith, h);
  };
  free = ground (arith, h);
  result = ground (arith, h);
}

-- A stored segment holds the entry, if it did or the new one does.
entry_kept :
    (entry : ℕ) (p : LoadSegment) (s : Scan)
    → (s.entry_in_executable_segment ≡ true → Executable entry s.segments)
    → (if holds_entry entry p then true else s.entry_in_executable_segment) ≡ true
    → Executable entry (s.segments ++ (p ∷ []))
entry_kept entry p s held now = elim (Bool-cases (holds_entry entry p)) [
  | inl here ↦ (p, here, s.segments, [], refl)
  | inr not_here ↦
      let (q, at, xs, ys, e) = held (ground (arith, now, not_here)) in
      (q, at, xs, ys ++ (p ∷ []), ap (λ l. l ++ (p ∷ [])) e ∙ append_assoc xs (q ∷ ys) (p ∷ []))
]

pub load_segment-IsValid :
    (size entry : ℕ) (p : LoadSegment) (s s' : Scan)
    → load_segment size entry p s ≡ passed s'
    → IsValid size entry s
    → IsValid size entry s'
load_segment-IsValid size entry p s s' h v =
    let a = load_segment-Accepted size entry p s s' h in
    let room = a.room in
    let bounded = v.bounded in
    rw (a.result) (record {
      bounded = omega (arith, room, bounded, length-append s.segments (p ∷ []));
      fit = All-append (Fits size) s.segments (p ∷ []) v.fit (a.fits, tt);
      ranges_of =
          ap (λ rs. rs ++ (page_range p ∷ [])) v.ranges_of
          ∙ sym (map-append page_range s.segments (p ∷ []));
      apart =
          AllPairs-snoc Apart s.ranges (page_range p) v.apart
            (overlaps-Apart s.ranges (page_range p).0 (page_range p).1 a.free);
      entry_held = entry_kept entry p s v.entry_held;
    })
