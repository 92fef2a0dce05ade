-- ===== src/Vfs/Directories.antt =====
-- Directory handles: what the last step of opendir, closedir and readdir do to the table.
use linux95_kernel.Prelude.{
  ℕ, zero, suc, ◌+◌, ◌%◌, ◌^◌, ◌<◌, ◌≡◌, ◌≢◌, refl, ap, ◌∙◌, inl, inr, ◌⊎◌, Bool, true, false,
  find_from-some, find_from-none, Option-cases, ◌&&◌, not, none, some, List, [], ◌∷◌, if◌then◌else◌,
  set, length, arith, Bool-cases,
}
use linux95_kernel.Vfs.{
  Vfs, Filesystem, DirectoryHandle, Status, ok, is_ok, directory_at, valid_dir_handle,
  directory_handle_count, no_directory, free_directory, opendir_slot, closedir, invalid_handle,
  too_many_open_directories, readdir, text, Entry,
}

pub directory_at-set_self :
    (ds : List DirectoryHandle) (i : ℕ) (d : DirectoryHandle)
    → i < length ds
    → directory_at (set ds i d) i ≡ d
directory_at-set_self [] i d h = absurd (omega arith)
directory_at-set_self (x ∷ xs) zero d h = refl
directory_at-set_self (x ∷ xs) (suc i) d h = directory_at-set_self xs i d (omega arith)

pub directory_at-set_ne :
    (ds : List DirectoryHandle) (i j : ℕ) (d : DirectoryHandle)
    → i ≢ j
    → directory_at (set ds i d) j ≡ directory_at ds j
directory_at-set_ne [] i j d h = refl
directory_at-set_ne (x ∷ xs) zero zero d h = absurd (h refl)
directory_at-set_ne (x ∷ xs) zero (suc j) d h = refl
directory_at-set_ne (x ∷ xs) (suc i) zero d h = refl
directory_at-set_ne (x ∷ xs) (suc i) (suc j) d h = directory_at-set_ne xs i j d (λ e. h (ap suc e))

is_ok-eq : (s : Status) → is_ok s ≡ true → ok ≡ s
is_ok-eq s h = ground arith

abbrev pub is_open : List DirectoryHandle → ℕ → Bool
is_open ds handle = valid_dir_handle ds (some handle)

-- What opening leaves in the table: the handle is new, and the lowest that was free.
pub record Opened {Volume : Type 0} (v : Vfs Volume) (path : List ℕ) (handle : ℕ)
    (after : Vfs Volume) : Type 0 where
  pub in_range : handle < directory_handle_count
  pub was_free : is_open v.directories handle ≡ false
  pub lowest : (j : ℕ) → j < handle → is_open v.directories j ≡ true
  pub now_open : is_open after.directories handle ≡ true
  pub contents :
      directory_at after.directories handle ≡ record { in_use = true; path = path; next_index = 0 }
  pub others :
      (j : ℕ) → handle ≢ j → directory_at after.directories j ≡ directory_at v.directories j
  pub same_files : after.files ≡ v.files
  pub same_volume : after.volume ≡ v.volume

module _ {Volume : Type 0} (fs : Filesystem Volume) (v : Vfs Volume)
    (full : length v.directories ≡ directory_handle_count) where
  opendir_slot-Opened :
      (path : List ℕ) (handle : ℕ)
      → free_directory v.directories ≡ some handle
      → Opened v path handle (record v {
        directories =
            set v.directories handle (record { in_use = true; path = path; next_index = 0 });
      })
  unfolding free_directory valid_dir_handle
  opendir_slot-Opened path handle e =
      let hit =
        find_from-some directory_handle_count 0 (λ i. not (directory_at v.directories i).in_use)
          handle e in
      let lt : handle < length v.directories = omega (arith, hit.1, full) in
      let new : DirectoryHandle = record { in_use = true; path = path; next_index = 0 } in
      record {
        in_range = omega (arith, hit.1);
        was_free = ground (arith, hit.2);
        lowest = λ j lt'. ground (arith, hit.1, lt', hit.3 j (omega arith) lt');
        now_open = ground (arith, directory_at-set_self v.directories handle new lt, hit.1);
        contents = directory_at-set_self v.directories handle new lt;
        others = λ j ne. directory_at-set_ne v.directories handle j new ne;
        same_files = refl;
        same_volume = refl;
      }

  all_open :
      free_directory v.directories ≡ none
      → (j : ℕ) → j < directory_handle_count
      → is_open v.directories j ≡ true
  unfolding free_directory valid_dir_handle
  all_open e j lt =
      let miss =
        find_from-none directory_handle_count 0 (λ i. not (directory_at v.directories i).in_use) e j
          (omega arith) (omega (arith, lt)) in
      ground (arith, lt, miss)

  -- With the directory table at its full size, the last step of opendir gives the lowest free
  -- handle, at index 0 and with the path it was given, and changes no other; it fails only if all
  -- are open, and then changes nothing.
  pub opendir_slot_lem :
      (path : List ℕ)
      → ((handle : ℕ) × ((opendir_slot fs v path).0 ≡ some handle)
          × ((opendir_slot fs v path).1 ≡ ok)
          × Opened v path handle (opendir_slot fs v path).2)
        ⊎ ((opendir_slot fs v path ≡ (none, too_many_open_directories, v))
            × ((j : ℕ) → j < directory_handle_count → is_open v.directories j ≡ true))
  unfolding opendir_slot
  opendir_slot_lem path = elim (Option-cases (free_directory v.directories)) [
    | inl none_free ↦ inr (rw (none_free, opendir_slot), all_open none_free)
    | inr (handle, e) ↦
        rw (e, opendir_slot) (inl (handle, refl, refl, opendir_slot-Opened path handle e))
  ]

-- With the directory table at its full size, closedir fails for a handle that is not open, changing
-- nothing. Otherwise the handle is no longer open, and every other handle, the files and the volume
-- stay as they were.
closedir_lem :
    {Volume : Type 0} (v : Vfs Volume) (handle : ℕ)
    → length v.directories ≡ directory_handle_count
    → ((is_open v.directories handle ≡ false) × (closedir v (some handle) ≡ (invalid_handle, v)))
      ⊎ ((is_open v.directories handle ≡ true)
          × ((closedir v (some handle)).0 ≡ ok)
          × (is_open (closedir v (some handle)).1.directories handle ≡ false)
          × ((j : ℕ)
              → handle ≢ j
              → directory_at (closedir v (some handle)).1.directories j
                ≡ directory_at v.directories j)
          × ((closedir v (some handle)).1.files ≡ v.files)
          × ((closedir v (some handle)).1.volume ≡ v.volume))
unfolding closedir
closedir_lem v handle full = elim (Bool-cases (is_open v.directories handle)) [
  | inl live ↦ rw live (
      inr (
        refl,
        refl,
        closed v.directories handle full live,
        λ j ne. directory_at-set_ne v.directories handle j no_directory ne,
        refl,
        refl,
      ))
  | inr dead ↦ rw dead (inl (refl, refl))
]
  where
    closed :
        (ds : List DirectoryHandle) (i : ℕ)
        → length ds ≡ directory_handle_count
        → is_open ds i ≡ true
        → is_open (set ds i no_directory) i ≡ false
    closed ds i size live =
        unfold valid_dir_handle in ground (arith, size, directory_at-set_self ds i no_directory)

module _ {Volume : Type 0} (fs : Filesystem Volume) (v : Vfs Volume) (handle : ℕ)
    (full : length v.directories ≡ directory_handle_count) where
  abbrev slot : DirectoryHandle
  slot = directory_at v.directories handle

  abbrev answer : Status × Entry × Bool
  answer = fs.read_directory_entry v.volume (text slot.path) slot.next_index

  abbrev cursor : Vfs Volume → ℕ
  cursor w = (directory_at w.directories handle).next_index

  readdir_next :
      is_open v.directories handle ≡ true
      → directory_at
          (set v.directories handle (record slot { next_index = (slot.next_index + 1) % 2 ^ 32 }))
          handle
        ≡ record slot { next_index = (slot.next_index + 1) % 2 ^ 32 }
  unfolding valid_dir_handle
  readdir_next live = directory_at-set_self v.directories handle _ (ground (arith, full))

  -- On an open handle whose cursor is below 2^32 - 1, with the directory table at its full size,
  -- readdir passes on the entry that the filesystem has at the cursor, and moves the cursor by one.
  -- At the end, and on any failure, the cursor stays. The file table and the volume stay as they
  -- were.
  pub readdir_lem :
      is_open v.directories handle ≡ true
      → slot.next_index + 1 < 2 ^ 32
      → let (status, entry, end, after) = readdir fs v (some handle) in
        (status ≡ answer.0)
        × (entry ≡ (if is_ok answer.0 && not answer.2 then some answer.1 else none))
        × (end ≡ (is_ok answer.0 && answer.2))
        × (cursor after
            ≡ (if is_ok answer.0 && not answer.2 then slot.next_index + 1 else slot.next_index))
        × (after.files ≡ v.files)
        × (after.volume ≡ v.volume)
  unfolding readdir
  readdir_lem live small = elim (Bool-cases (is_ok answer.0)) [
    | inr failed ↦ rw (live, failed) (refl, refl, refl, refl, refl, refl)
    | inl fine ↦
        let status : ok ≡ answer.0 = is_ok-eq answer.0 fine in
        elim (Bool-cases answer.2) [
          | inl end ↦ rw (live, fine, end) (status, refl, refl, refl, refl, refl)
          | inr more ↦
              rw (live, fine, more)
                (
                  status,
                  refl,
                  refl,
                  ap (λ d. d.next_index) (readdir_next live) ∙ omega arith,
                  refl,
                  refl,
                )
        ]
  ]
