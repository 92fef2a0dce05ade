-- ===== src/User/Elf.antt =====
-- kernel/user/elf.cpp: the inspection of an ELF image and the plan of the pages that its segments take.
-- The image is a list of bytes, or `none` for a null pointer, of which `size` are there.
pub mod Ranges
pub mod Segments
pub mod Planning
use linux95_kernel.Prelude.{
  ℕ, zero, suc, ◌+◌, ◌-◌, ◌*◌, ◌/◌, ◌%◌, ◌^◌, Bool, true, false, ◌||◌, ◌&&◌, not, Option, none,
  some, List, [], ◌∷◌, ◌++◌, ltb, leb, ◌==◌, if◌then◌else◌, length, test_bit,
}
use linux95_kernel.Memory.Address.{page_size, uint64_max, align_down, align_up}
use linux95_kernel.Net.Bytes.{byte}

pub data ElfStatus : Type 0 where
  ok bad_magic truncated unsupported invalid_segment range_overflow overlapping_segments : ElfStatus
  interpreter_not_supported address_out_of_range invalid_entry : ElfStatus

-- A step that gives a value, or ends the inspection with a status.
pub data Checked (A : Type 0) : Type 0 where
  failed : ElfStatus → Checked A
  passed : A → Checked A

pub record LoadSegment : Type 0 where
  pub virtual_address : ℕ
  pub memory_size : ℕ
  pub file_offset : ℕ
  pub file_size : ℕ
  pub flags : ℕ

-- `segments` holds the slots that are filled; the others of the sixteen are zero.
pub record ElfImageInfo : Type 0 where
  pub entry : ℕ
  pub segment_count : ℕ
  pub segments : List LoadSegment

pub record SegmentPagePlan : Type 0 where
  pub first_page : ℕ
  pub page_count : ℕ
  pub writable : Bool
  pub executable : Bool
  pub file_offset : ℕ
  pub file_bytes : ℕ
  pub memory_bytes : ℕ

abbrev pub max_segments : ℕ
max_segments = 16

abbrev pub user_image_base : ℕ
user_image_base = 0x0000_4000_0000_0000

abbrev pub user_image_limit : ℕ
user_image_limit = 0x0000_4001_0000_0000

-- checked_add_size is the same function.
unfoldable pub checked_add : ℕ → ℕ → Option ℕ
checked_add left right = if ltb (uint64_max - left) right then none else some (left + right)

unfoldable pub checked_mul : ℕ → ℕ → Option ℕ
checked_mul left right =
    if not (left == 0) && ltb (uint64_max / left) right then none else some (left * right)

-- A field of `width` bytes, the lowest first.
unfoldable pub read_le : ℕ → List ℕ → ℕ → ℕ
read_le zero bytes offset = 0
read_le (suc width) bytes offset = byte bytes offset + 256 * read_le width bytes (offset + 1)

-- The test of read_bytes; the fields are then read from the image itself.
unfoldable pub readable : ℕ → ℕ → ℕ → Bool
readable size offset length = not (ltb size offset || ltb (size - offset) length)

-- segment_permissions
unfoldable pub segment_permissions : ℕ → Bool × Bool
segment_permissions elf_flags = (test_bit elf_flags 1, test_bit elf_flags 0)

unfoldable pub bad_magic_bytes : List ℕ → Bool
bad_magic_bytes data_bytes =
    not (byte data_bytes 0 == 0x7F)
    || not (byte data_bytes 1 == 69)
    || not (byte data_bytes 2 == 76)
    || not (byte data_bytes 3 == 70)

-- ELFCLASS64, ELFDATA2LSB, ET_EXEC and EM_X86_64, and a header of at least 64 bytes.
unfoldable pub unsupported_header : List ℕ → Bool
unsupported_header data_bytes =
    not (byte data_bytes 4 == 2)
    || not (byte data_bytes 5 == 1)
    || not (read_le 2 data_bytes 16 == 2)
    || not (read_le 2 data_bytes 18 == 62)
    || ltb (read_le 2 data_bytes 52) 64

-- The segment that the program header at `offset` describes.
unfoldable pub segment_at : List ℕ → ℕ → LoadSegment
segment_at data_bytes offset = record {
  virtual_address = read_le 8 data_bytes (offset + 16);
  memory_size = read_le 8 data_bytes (offset + 40);
  file_offset = read_le 8 data_bytes (offset + 8);
  file_size = read_le 8 data_bytes (offset + 32);
  flags = read_le 4 data_bytes (offset + 4);
}

-- The pages of the segment; `none` where its end has no 64 bits.
unfoldable pub expanded : LoadSegment → Option (ℕ × ℕ)
expanded p = elim (checked_add p.virtual_address p.memory_size) [
  | none ↦ none
  | some virtual_end ↦ some (align_down p.virtual_address page_size, align_up virtual_end page_size)
]

-- What the loop over the program headers keeps: the segments, the pages of each (expanded_starts and
-- expanded_ends), and whether the entry point lies in an executable one.
pub record Scan : Type 0 where
  pub segments : List LoadSegment
  pub ranges : List (ℕ × ℕ)
  pub entry_in_executable_segment : Bool

unfoldable pub overlaps : List (ℕ × ℕ) → ℕ → ℕ → Bool
overlaps [] start end = false
overlaps ((start', end') ∷ ranges) start end =
    if ltb start end' && ltb start' end then true else overlaps ranges start end

-- `entry` is in [virtual_address, virtual_address + memory_size) and PF_X is set.
unfoldable pub holds_entry : ℕ → LoadSegment → Bool
holds_entry entry p =
    test_bit p.flags 0
    && (leb p.virtual_address entry && ltb entry (p.virtual_address + p.memory_size))

-- A PT_LOAD header.
unfoldable pub load_segment : ℕ → ℕ → LoadSegment → Scan → Checked Scan
load_segment size entry p s =
    if length s.segments == max_segments
    then failed invalid_segment
    else if ltb p.memory_size p.file_size
    then failed invalid_segment
    else elim (checked_add p.file_offset p.file_size) [
      | none ↦ failed range_overflow
      | some file_end ↦ if ltb size file_end then failed truncated else elim (expanded p) [
        | none ↦ failed range_overflow
        | some (start, end) ↦
            if p.memory_size == 0
            then failed invalid_segment
            else if (end == uint64_max)
                || ltb start user_image_base
                || ltb user_image_limit end
                || leb end start
            then failed address_out_of_range
            else if overlaps s.ranges start end
            then failed overlapping_segments
            else passed (record {
              segments = s.segments ++ (p ∷ []);
              ranges = s.ranges ++ ((start, end) ∷ []);
              entry_in_executable_segment =
                  if holds_entry entry p then true else s.entry_in_executable_segment;
            })
      ]
    ]

-- One round of the loop: the program header with the given index.
unfoldable pub visit_header : List ℕ → ℕ → ℕ → Scan → Checked Scan
visit_header data_bytes size index s = elim (checked_mul index (read_le 2 data_bytes 54)) [
  | none ↦ failed range_overflow
  | some relative_offset ↦ elim (checked_add (read_le 8 data_bytes 32) relative_offset) [
    | none ↦ failed range_overflow
    | some offset ↦
        if not (readable size offset 56)
        then failed truncated
        else if read_le 4 data_bytes offset == 3
        then failed interpreter_not_supported
        else if read_le 4 data_bytes offset == 2
        then failed unsupported
        else if not (read_le 4 data_bytes offset == 1)
        then passed s
        else load_segment size (read_le 8 data_bytes 24) (segment_at data_bytes offset) s
  ]
]

-- The loop over the headers that are left, with what it had stored where it stops.
unfoldable pub scan_headers : List ℕ → ℕ → ℕ → ℕ → Scan → ElfStatus × Scan
scan_headers data_bytes size zero index s = (ok, s)
scan_headers data_bytes size (suc left) index s = elim (visit_header data_bytes size index s) [
  | failed status ↦ (status, s)
  | passed s' ↦ scan_headers data_bytes size left (index + 1) s'
]

abbrev pub cleared_info : ElfImageInfo
cleared_info = record { entry = 0; segment_count = 0; segments = [] }

-- The program headers lie in the image.
unfoldable pub headers_status : List ℕ → ℕ → ElfStatus
headers_status data_bytes size =
    elim (checked_mul (read_le 2 data_bytes 56) (read_le 2 data_bytes 54)) [
      | none ↦ range_overflow
      | some program_headers_bytes ↦
          elim (checked_add (read_le 8 data_bytes 32) program_headers_bytes) [
            | none ↦ range_overflow
            | some program_headers_end ↦ if ltb size program_headers_end then truncated else ok
          ]
    ]

-- What is left to do after the loop.
unfoldable pub finish_scan : ℕ → ElfStatus × Scan → ElfStatus × ElfImageInfo
finish_scan entry (ok, s) =
    if not s.entry_in_executable_segment
    then (invalid_entry, record cleared_info { segments = s.segments })
    else (
      if length s.segments == 0 then invalid_segment else ok,
      record { entry = entry; segment_count = length s.segments; segments = s.segments },
    )
finish_scan entry (status, s) = (status, record cleared_info { segments = s.segments })

-- The status and `out`.
unfoldable pub inspect_elf64 : Option (List ℕ) → ℕ → ElfStatus × ElfImageInfo
inspect_elf64 none size = (truncated, cleared_info)
inspect_elf64 (some data_bytes) size =
    if ltb size 64 || not (readable size 0 64)
    then (truncated, cleared_info)
    else if bad_magic_bytes data_bytes
    then (bad_magic, cleared_info)
    else if unsupported_header data_bytes
    then (unsupported, cleared_info)
    else if ltb (read_le 2 data_bytes 54) 56
    then (truncated, cleared_info)
    else elim (headers_status data_bytes size) [
      | ok ↦ finish_scan (read_le 8 data_bytes 24) (
          scan_headers data_bytes size (read_le 2 data_bytes 56) 0
            (record { segments = []; ranges = []; entry_in_executable_segment = false }))
      | status ↦ (status, cleared_info)
    ]

-- One entry of the plan, and whether it can be made.
unfoldable pub plan_segment : LoadSegment → Option SegmentPagePlan
plan_segment segment = elim (expanded segment) [
  | none ↦ none
  | some (first, last) ↦
      if (last == uint64_max) || leb last first
      then none
      else some (record {
        first_page = first;
        page_count = (last - first) / page_size;
        writable = (segment_permissions segment.flags).0;
        executable = (segment_permissions segment.flags).1;
        file_offset = segment.file_offset;
        file_bytes = segment.file_size;
        memory_bytes = segment.memory_size;
      })
]

-- The loop of build_load_plan: whether it came to its end, and the entries written.
unfoldable pub plan_segments : List LoadSegment → Bool × List SegmentPagePlan
plan_segments [] = (true, [])
plan_segments (segment ∷ segments) =
    let (done, rest) = plan_segments segments in
    elim (plan_segment segment) [ none ↦ (false, []) | some plan ↦ (done, plan ∷ rest) ]

-- The status, out_count, and the entries written to `out`, which is no null pointer.
unfoldable pub build_load_plan : Option (List ℕ) → ℕ → ℕ → ElfStatus × ℕ × List SegmentPagePlan
build_load_plan elf size out_capacity =
    let (status, image) = inspect_elf64 elf size in
    elim status [
      | ok ↦
          if ltb out_capacity image.segment_count
          then (invalid_segment, 0, [])
          else let (done, plans) = plan_segments image.segments in
            if done then (ok, image.segment_count, plans) else (range_overflow, 0, plans)
      | other ↦ (other, 0, [])
    ]
