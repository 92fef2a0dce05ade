-- ===== src/Vfs/Files.antt =====
-- File descriptors: what the last step of open and close do to the table.
use linux95_kernel.Prelude.{
  ℕ, zero, suc, ◌≤◌, ◌<◌, ◌≡◌, ◌≢◌, refl, ap, inl, inr, ◌⊎◌, Bool, true, false, not, none, some,
  List, [], ◌∷◌, set, length, length-set, arith, Bool-cases, Option-cases, find_from-some,
  find_from-none,
}
use linux95_kernel.Vfs.{
  Vfs, Filesystem, FileDescriptor, ok, invalid_descriptor, too_many_open_files, file_at, no_file,
  valid_file_descriptor, free_file, file_descriptor_count, first_file_descriptor, close, open_slot,
}

pub file_at-set_self :
    (files : List FileDescriptor) (i : ℕ) (d : FileDescriptor)
    → i < length files
    → file_at (set files i d) i ≡ d
file_at-set_self [] i d h = absurd (omega arith)
file_at-set_self (x ∷ xs) zero d h = refl
file_at-set_self (x ∷ xs) (suc i) d h = file_at-set_self xs i d (omega arith)

pub file_at-set_ne :
    (files : List FileDescriptor) (i j : ℕ) (d : FileDescriptor)
    → i ≢ j
    → file_at (set files i d) j ≡ file_at files j
file_at-set_ne [] i j d h = refl
file_at-set_ne (x ∷ xs) zero zero d h = absurd (h refl)
file_at-set_ne (x ∷ xs) zero (suc j) d h = refl
file_at-set_ne (x ∷ xs) (suc i) zero d h = refl
file_at-set_ne (x ∷ xs) (suc i) (suc j) d h = file_at-set_ne xs i j d (λ e. h (ap suc e))

-- The descriptors that a program may use.
abbrev pub is_open : List FileDescriptor → ℕ → Bool
is_open files fd = valid_file_descriptor files (some fd)

pub is_open-set_ne :
    (files : List FileDescriptor) (i j : ℕ) (d : FileDescriptor)
    → i ≢ j
    → is_open (set files i d) j ≡ is_open files j
unfolding valid_file_descriptor
is_open-set_ne files i j d ne = ground (arith, file_at-set_ne files i j d ne)

-- What opening leaves in the table: descriptor `fd` is new, and the lowest that was free.
pub record Opened {Volume : Type 0} (v : Vfs Volume) (path : List ℕ) (size fd : ℕ)
    (after : Vfs Volume) : Type 0 where
  pub in_range : (first_file_descriptor ≤ fd) × (fd < file_descriptor_count)
  pub was_free : is_open v.files fd ≡ false
  pub lowest : (j : ℕ) → first_file_descriptor ≤ j → j < fd → is_open v.files j ≡ true
  pub now_open : is_open after.files fd ≡ true
  pub contents :
      file_at after.files fd ≡ record { in_use = true; path = path; offset = 0; size = size }
  pub others : (j : ℕ) → fd ≢ j → file_at after.files j ≡ file_at v.files j
  pub same_directories : after.directories ≡ v.directories
  pub same_volume : after.volume ≡ v.volume
  pub same_length : length after.files ≡ length v.files

module _ {Volume : Type 0} (fs : Filesystem Volume) (v : Vfs Volume)
    (full : length v.files ≡ file_descriptor_count) where
  open_slot-Opened :
      (path : List ℕ) (size fd : ℕ)
      → free_file v.files ≡ some fd
      → Opened v path size fd (record v {
        files = set v.files fd (record { in_use = true; path = path; offset = 0; size = size });
      })
  unfolding free_file valid_file_descriptor
  open_slot-Opened path size fd e =
      let hit = find_from-some 61 3 (λ i. not (file_at v.files i).in_use) fd e in
      let lt : fd < length v.files = omega (arith, hit.1, full) in
      let new : FileDescriptor = record { in_use = true; path = path; offset = 0; size = size } in
      record {
        in_range = omega (arith, hit.0, hit.1);
        was_free = ground (arith, hit.2);
        lowest = λ j lo hi. ground (arith, hit.1, hit.3 j lo hi);
        now_open = ground (arith, file_at-set_self v.files fd new lt, hit.0, hit.1);
        contents = file_at-set_self v.files fd new lt;
        others = λ j ne. file_at-set_ne v.files fd j new ne;
        same_directories = refl;
        same_volume = refl;
        same_length = length-set v.files fd new;
      }

  -- With the file table at its full size, the last step of open gives the lowest free descriptor
  -- from 3 on, at offset 0 and with the path and size it was given, and changes no other; it fails
  -- only if all 61 are open, and then changes nothing.
  pub open_slot_lem :
      (path : List ℕ) (size : ℕ)
      → ((fd : ℕ) × ((open_slot fs v path size).0 ≡ some fd)
          × ((open_slot fs v path size).1 ≡ ok)
          × Opened v path size fd (open_slot fs v path size).2)
        ⊎ ((open_slot fs v path size ≡ (none, too_many_open_files, v))
            × ((j : ℕ)
                → first_file_descriptor ≤ j
                → j < file_descriptor_count
                → is_open v.files j ≡ true))
  unfolding open_slot
  open_slot_lem path size = elim (Option-cases (free_file v.files)) [
    | inl none_free ↦ inr (rw (none_free, open_slot), λ j lo hi. all_open none_free j lo hi)
    | inr (fd, e) ↦ rw (e, open_slot) (inl (fd, refl, refl, open_slot-Opened path size fd e))
  ]
    where
      all_open : free_file v.files ≡ none → (j : ℕ) → 3 ≤ j → j < 64 → is_open v.files j ≡ true
      all_open e j lo hi =
          unfold free_file valid_file_descriptor in
          ground (arith, find_from-none 61 3 (λ i. not (file_at v.files i).in_use) e j lo)

-- With the file table at its full size, close fails for a descriptor that is not open, changing
-- nothing. Otherwise the descriptor is no longer open, and every other descriptor, the directories
-- and the volume stay as they were.
pub close_lem :
    {Volume : Type 0} (v : Vfs Volume) (fd : ℕ)
    → length v.files ≡ file_descriptor_count
    → ((is_open v.files fd ≡ false) × (close v (some fd) ≡ (invalid_descriptor, v)))
      ⊎ ((is_open v.files fd ≡ true)
          × ((close v (some fd)).0 ≡ ok)
          × (is_open (close v (some fd)).1.files fd ≡ false)
          × ((j : ℕ) → fd ≢ j → file_at (close v (some fd)).1.files j ≡ file_at v.files j)
          × ((close v (some fd)).1.directories ≡ v.directories)
          × ((close v (some fd)).1.volume ≡ v.volume))
unfolding close
close_lem v fd full = elim (Bool-cases (is_open v.files fd)) [
  | inl live ↦ rw live (
      inr (
        refl,
        refl,
        closed v.files fd full live,
        λ j ne. file_at-set_ne v.files fd j no_file ne,
        refl,
        refl,
      ))
  | inr dead ↦ rw dead (inl (refl, refl))
]
  where
    closed :
        (files : List FileDescriptor) (i : ℕ)
        → length files ≡ file_descriptor_count
        → is_open files i ≡ true
        → is_open (set files i no_file) i ≡ false
    closed files i size live =
        unfold valid_file_descriptor in ground (arith, size, file_at-set_self files i no_file)
