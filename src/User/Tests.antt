-- ===== src/User/Tests.antt =====
-- The inspection of an image of one program header, whose segment is the whole file.
use linux95_kernel.Prelude.{ℕ, ◌≡◌, refl, some, List, [], ◌∷◌, map, All, arith, test_bit}
use linux95_kernel.Memory.Address.{align_down, align_up}
use linux95_kernel.User.Elf.{
  ok, ElfImageInfo, inspect_elf64, build_load_plan, readable, bad_magic_bytes, unsupported_header,
  read_le, headers_status, checked_add, checked_mul, expanded, segment_at, overlaps, holds_entry,
  load_segment, visit_header, scan_headers, finish_scan,
}
use linux95_kernel.User.Elf.Planning.{plan_of, Covers, build_load_plan-ok}
use linux95_kernel.User.Elf.Segments.{Loadable, inspect_elf64-Loadable}

abbrev image : List ℕ
image =
    127 ∷ 69 ∷ 76 ∷ 70 ∷ 2 ∷ 1 ∷ 1 ∷ 0 ∷ 0 ∷ 0 ∷ 0 ∷ 0 ∷ 0 ∷ 0 ∷ 0 ∷ 0 ∷ 2 ∷ 0 ∷ 62 ∷ 0 ∷ 1 ∷ 0 ∷ 0
    ∷ 0 ∷ 16 ∷ 0 ∷ 0 ∷ 0 ∷ 0 ∷ 64 ∷ 0 ∷ 0 ∷ 64 ∷ 0 ∷ 0 ∷ 0 ∷ 0 ∷ 0 ∷ 0 ∷ 0 ∷ 0 ∷ 0 ∷ 0 ∷ 0 ∷ 0 ∷ 0
    ∷ 0 ∷ 0 ∷ 0 ∷ 0 ∷ 0 ∷ 0 ∷ 64 ∷ 0 ∷ 56 ∷ 0 ∷ 1 ∷ 0 ∷ 0 ∷ 0 ∷ 0 ∷ 0 ∷ 0 ∷ 0 ∷ 1 ∷ 0 ∷ 0 ∷ 0 ∷ 5
    ∷ 0 ∷ 0 ∷ 0 ∷ 0 ∷ 0 ∷ 0 ∷ 0 ∷ 0 ∷ 0 ∷ 0 ∷ 0 ∷ 0 ∷ 0 ∷ 0 ∷ 0 ∷ 0 ∷ 64 ∷ 0 ∷ 0 ∷ 0 ∷ 0 ∷ 0 ∷ 0 ∷ 0
    ∷ 0 ∷ 0 ∷ 0 ∷ 120 ∷ 0 ∷ 0 ∷ 0 ∷ 0 ∷ 0 ∷ 0 ∷ 0 ∷ 0 ∷ 24 ∷ 0 ∷ 0 ∷ 0 ∷ 0 ∷ 0 ∷ 0 ∷ 0 ∷ 16 ∷ 0 ∷ 0
    ∷ 0 ∷ 0 ∷ 0 ∷ 0 ∷ []

abbrev image_info : ElfImageInfo
image_info = record {
  entry = 0x4000_0000_0010;
  segment_count = 1;
  segments =
      record {
        virtual_address = 0x4000_0000_0000;
        memory_size = 0x1800;
        file_offset = 0;
        file_size = 120;
        flags = 5;
      }
      ∷ [];
}

inspected : inspect_elf64 (some image) 120 ≡ (ok, image_info)
unfolding inspect_elf64 readable bad_magic_bytes unsupported_header read_le headers_status
    checked_add checked_mul expanded segment_at overlaps holds_entry load_segment visit_header
    scan_headers finish_scan align_down align_up test_bit
inspected = refl

inspect_elf64-Loadable_example : Loadable 120 image_info
inspect_elf64-Loadable_example = inspect_elf64-Loadable image 120 image_info inspected

build_load_plan-ok_example :
    (build_load_plan (some image) 120 16 ≡ (ok, 1, map plan_of image_info.segments))
    × All (λ p. Covers p (plan_of p)) image_info.segments
build_load_plan-ok_example = build_load_plan-ok image 120 16 image_info inspected (omega arith)
