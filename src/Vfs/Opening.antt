-- ===== src/Vfs/Opening.antt =====
-- open and opendir as a whole: from the caller's path to the descriptor.
use linux95_kernel.Prelude.{
  ℕ, ◌≤◌, ◌<◌, ◌≡◌, ◌⊎◌, refl, ◌∙◌, inl, inr, Bool, true, false, ◌&&◌, not, none, some, List, ltb,
  if◌then◌else◌, length, Bool-cases,
}
use linux95_kernel.Vfs.{
  Vfs, Filesystem, Status, ok, unsupported, is_directory, not_directory, Entry, is_ok, text,
  copy_path, path_capacity, zero_path, stat, open_slot, open_file, opendir_slot, opendir,
  too_many_open_files, too_many_open_directories, first_file_descriptor, file_descriptor_count,
  directory_handle_count,
}
use linux95_kernel.Vfs.Files
use linux95_kernel.Vfs.Files.{Opened, open_slot_lem}
use linux95_kernel.Vfs.Directories
use linux95_kernel.Vfs.Directories.{opendir_slot_lem}
use linux95_kernel.Vfs.Paths.{AllNonzero, copy_path-text}

-- The paths that the VFS takes: 1 to 127 characters.
abbrev pub fits : List ℕ → Bool
fits s = ltb 0 (length s) && ltb (length s) path_capacity

-- The buffer that a path is copied to.
abbrev pub buffer : List ℕ → List ℕ
buffer s = (copy_path (some s) zero_path).1

module _ {Volume : Type 0} (fs : Filesystem Volume) (v : Vfs Volume) (s : List ℕ)
    (h : AllNonzero s) where
  abbrev found : Status × Entry
  found = fs.stat_path v.volume s

  -- For a path without zero characters, stat refuses one that is empty or too long, passes on the
  -- filesystem's failure, and otherwise reports the entry that the filesystem finds under that very
  -- path.
  pub stat_lem : stat fs v (some s) ≡ (
      if not (fits s)
      then (unsupported, none)
      else if not (is_ok found.0)
      then (found.0, none)
      else (ok, some (record { is_dir = found.1.is_dir; size = found.1.size })))
  unfolding stat
  stat_lem =
      let (copied, same, null) = copy_path-text s h in
      elim (Bool-cases (fits s)) [
        | inl good ↦ rw (copied, good, same (copied ∙ good))
        | inr bad ↦ rw (copied, bad)
      ]

  fits-text : fits s ≡ true → text (buffer s) ≡ s
  fits-text good = let (copied, same, null) = copy_path-text s h in same (copied ∙ good)

  stat-failed :
      fits s ≡ true → is_ok found.0 ≡ false → stat fs v (some (text (buffer s))) ≡ (found.0, none)
  stat-failed good failed = rw (fits-text good, stat_lem, good, failed)

  stat-fine :
      fits s ≡ true
      → is_ok found.0 ≡ true
      → stat fs v (some (text (buffer s)))
        ≡ (ok, some (record { is_dir = found.1.is_dir; size = found.1.size }))
  stat-fine good fine = rw (fits-text good, stat_lem, good, fine)

  -- open on every branch, up to the search for a free descriptor.
  open_file_branches : open_file fs v (some s) ≡ (
      if not (fits s)
      then (none, unsupported, v)
      else if not (is_ok found.0)
      then (none, found.0, v)
      else if found.1.is_dir
      then (none, is_directory, v)
      else open_slot fs v (buffer s) found.1.size)
  unfolding open_file
  open_file_branches =
      let (copied, same, null) = copy_path-text s h in
      elim (Bool-cases (fits s)) [
        | inl good ↦ elim (Bool-cases (is_ok found.0)) [
          | inl fine ↦ rw (copied, good, stat-fine good fine, fine)
          | inr failed ↦ rw (copied, good, stat-failed good failed, stat-failed good failed, failed)
        ]
        | inr bad ↦ rw (copied, bad)
      ]

  -- opendir on every branch, up to the search for a free handle.
  opendir_branches : opendir fs v (some s) ≡ (
      if not (fits s)
      then (none, unsupported, v)
      else if not (is_ok found.0)
      then (none, found.0, v)
      else if not found.1.is_dir
      then (none, not_directory, v)
      else opendir_slot fs v (buffer s))
  unfolding opendir
  opendir_branches =
      let (copied, same, null) = copy_path-text s h in
      elim (Bool-cases (fits s)) [
        | inl good ↦ elim (Bool-cases (is_ok found.0)) [
          | inl fine ↦ rw (copied, good, stat-fine good fine, fine)
          | inr failed ↦ rw (copied, good, stat-failed good failed, stat-failed good failed, failed)
        ]
        | inr bad ↦ rw (copied, bad)
      ]

  -- The five ways in which open ends: a path that is refused, an entry that is not found, a directory,
  -- a full file table, and a new descriptor.
  abbrev pub OpenOutcome : Type 0
  OpenOutcome =
      let result = open_file fs v (some s) in
      ((fits s ≡ false) × (result ≡ (none, unsupported, v)))
      ⊎ ((fits s ≡ true) × (is_ok found.0 ≡ false) × (result ≡ (none, found.0, v)))
      ⊎ ((fits s ≡ true)
          × (is_ok found.0 ≡ true)
          × (found.1.is_dir ≡ true)
          × (result ≡ (none, is_directory, v)))
      ⊎ ((fits s ≡ true)
          × (is_ok found.0 ≡ true)
          × (found.1.is_dir ≡ false)
          × (result ≡ (none, too_many_open_files, v))
          × ((j : ℕ)
              → first_file_descriptor ≤ j
              → j < file_descriptor_count
              → Files.is_open v.files j ≡ true))
      ⊎ ((fits s ≡ true)
          × (is_ok found.0 ≡ true)
          × (found.1.is_dir ≡ false)
          × ((fd : ℕ) × (result.0 ≡ some fd)
              × (result.1 ≡ ok)
              × Opened v (buffer s) found.1.size fd result.2
              × (text (buffer s) ≡ s)))

  -- For a path without zero characters, and with the file table at its full size, open ends in one
  -- of five ways. A path that is empty or too long, an entry that is not found, and a directory
  -- each give their error and leave the state as it was; so does any other entry when all 61
  -- descriptors are open. Otherwise the result is the lowest free descriptor from 3 on, which is
  -- then open at offset 0 with the entry's size and that very path, and every other descriptor, the
  -- directories and the volume stay as they were.
  pub open_file_lem : length v.files ≡ file_descriptor_count → OpenOutcome
  open_file_lem full = elim (Bool-cases (fits s)) [
    | inr bad ↦ inl (bad, rw (open_file_branches, bad) refl)
    | inl good ↦ elim (Bool-cases (is_ok found.0)) [
      | inr failed ↦ inr (inl (good, failed, rw (open_file_branches, good, failed) refl))
      | inl fine ↦ elim (Bool-cases found.1.is_dir) [
        | inl dir ↦ inr (inr (inl (good, fine, dir, rw (open_file_branches, good, fine, dir) refl)))
        | inr file ↦
            let run : open_file fs v (some s) ≡ open_slot fs v (buffer s) found.1.size =
              rw (open_file_branches, good, fine, file) refl in
            elim (open_slot_lem fs v full (buffer s) found.1.size) [
              | inr (none_free, all) ↦
                  inr (inr (inr (inl (good, fine, file, run ∙ none_free, all))))
              | inl (fd, given, status, opened) ↦ inr (
                  inr (
                    inr
                      (inr (good, fine, file, rw run (fd, given, status, opened, fits-text good)))))
            ]
      ]
    ]
  ]

  -- The same of opendir.
  opendir_lem :
      length v.directories ≡ directory_handle_count
      → let result = opendir fs v (some s) in
        ((fits s ≡ false) × (result ≡ (none, unsupported, v)))
        ⊎ ((fits s ≡ true) × (is_ok found.0 ≡ false) × (result ≡ (none, found.0, v)))
        ⊎ ((fits s ≡ true)
            × (is_ok found.0 ≡ true)
            × (found.1.is_dir ≡ false)
            × (result ≡ (none, not_directory, v)))
        ⊎ ((fits s ≡ true)
            × (is_ok found.0 ≡ true)
            × (found.1.is_dir ≡ true)
            × (result ≡ (none, too_many_open_directories, v))
            × ((j : ℕ) → j < directory_handle_count → Directories.is_open v.directories j ≡ true))
        ⊎ ((fits s ≡ true)
            × (is_ok found.0 ≡ true)
            × (found.1.is_dir ≡ true)
            × ((handle : ℕ) × (result.0 ≡ some handle)
                × (result.1 ≡ ok)
                × Directories.Opened v (buffer s) handle result.2
                × (text (buffer s) ≡ s)))
  opendir_lem full = elim (Bool-cases (fits s)) [
    | inr bad ↦ inl (bad, rw (opendir_branches, bad) refl)
    | inl good ↦ elim (Bool-cases (is_ok found.0)) [
      | inr failed ↦ inr (inl (good, failed, rw (opendir_branches, good, failed) refl))
      | inl fine ↦ elim (Bool-cases found.1.is_dir) [
        | inr file ↦
            inr (inr (inl (good, fine, file, rw (opendir_branches, good, fine, file) refl)))
        | inl dir ↦
            let run : opendir fs v (some s) ≡ opendir_slot fs v (buffer s) =
              rw (opendir_branches, good, fine, dir) refl in
            elim (opendir_slot_lem fs v full (buffer s)) [
              | inr (none_free, all) ↦ inr (inr (inr (inl (good, fine, dir, run ∙ none_free, all))))
              | inl (handle, given, status, opened) ↦ inr (
                  inr (
                    inr (
                      inr
                        (good, fine, dir, rw run (handle, given, status, opened, fits-text good)))))
            ]
      ]
    ]
  ]
