-- ===== src/Vfs/Tests.antt =====
-- The VFS over a filesystem that holds one file. A volume is the bytes of that file.
use Prim.Native.Nat.{min}
use linux95_kernel.Prelude.{
  ℕ, ◌-◌, ◌≡◌, ◌≢◌, refl, ◌⊎◌, true, false, ◌&&◌, not, none, some, List, [], ◌∷◌, ltb, ◌==◌,
  if◌then◌else◌, length, take, drop, find_from, arith,
}
use linux95_kernel.Vfs.{
  ok, unsupported, Filesystem, Vfs, initialize, file_descriptor_count, directory_handle_count,
  path_capacity, zero_path, file_at, directory_at, text, copy_loop, copy_path,
  valid_file_descriptor, valid_dir_handle, free_file, free_directory, open_slot, opendir_slot, read,
  readdir,
}
use linux95_kernel.Vfs.Paths.{AllNonzero, copy_path_lem}
use linux95_kernel.Vfs.Files.{is_open}
use linux95_kernel.Vfs.Opening.{buffer, OpenOutcome, open_file_lem}
use linux95_kernel.Vfs.Reading.{
  answer, accepts, Advanced, read_lem, read_on, sum, Reads, read_on_lem,
}
use linux95_kernel.Vfs.Directories.{readdir_lem}

abbrev name : List ℕ
name = 0x2F ∷ 0x41 ∷ []

abbrev content : List ℕ
content = 10 ∷ 20 ∷ 30 ∷ 40 ∷ 50 ∷ []

abbrev one_file : Filesystem (List ℕ)
one_file = record {
  stat_path = λ volume path. (ok, record { name = path; is_dir = false; size = length volume });
  read_file = λ volume path offset n. (
    ok,
    record {
      bytes = take n (drop offset volume);
      got = min n (length volume - offset);
      file_size = length volume;
    },
  );
  read_directory_entry = λ volume path index.
      (ok, record { name = name; is_dir = false; size = length volume }, not (index == 0));
  touch = λ volume path. (unsupported, volume);
  write_file = λ volume path bytes. (unsupported, volume);
  mkdir = λ volume path. (unsupported, volume);
  remove = λ volume path. (unsupported, volume);
  copy_file = λ volume source destination. (unsupported, volume);
  move = λ volume source destination. (unsupported, volume);
}

abbrev start : Vfs (List ℕ)
start = initialize content

start-full : length start.files ≡ file_descriptor_count
start-full = unfold initialize in refl

-- Descriptor 3 is open on the file, and handle 0 on a directory.
abbrev opened : Vfs (List ℕ)
opened = (open_slot one_file start (buffer name) 5).2

abbrev browsing : Vfs (List ℕ)
browsing = (opendir_slot one_file start (buffer name)).2

opened-full : length opened.files ≡ file_descriptor_count
opened-full = unfold open_slot initialize free_file find_from copy_path copy_loop in refl

opened_live : is_open opened.files 3 ≡ true
opened_live = unfold open_slot initialize free_file find_from valid_file_descriptor in refl

opened-Reads : Reads one_file opened 3 content
opened-Reads = record {
  full = opened-full;
  live = opened_live;
  size = unfold open_slot initialize free_file find_from in refl;
  within = unfold open_slot initialize free_file find_from in omega arith;
  small = omega arith;
  serves = unfold open_slot initialize free_file find_from in λ offset n. refl;
}

name-AllNonzero : AllNonzero name
name-AllNonzero = (λ e. absurd (omega (arith, e)), (λ e. absurd (omega (arith, e)), tt))

read_on_lem_example :
    read_on one_file opened 3 (2 ∷ 1 ∷ 4 ∷ [])
    ≡ take (sum (2 ∷ 1 ∷ 4 ∷ [])) (drop (file_at opened.files 3).offset content)
read_on_lem_example = read_on_lem one_file opened 3 content (2 ∷ 1 ∷ 4 ∷ []) opened-Reads

copy_path_lem_example :
    (let (done, path) = copy_path (some name) zero_path in
      (if done then some (text path) else none)
      ≡ (if ltb 0 (length name) && ltb (length name) path_capacity then some name else none))
    × ((copy_path none zero_path).0 ≡ false)
copy_path_lem_example = copy_path_lem name name-AllNonzero

open_file_lem_example : OpenOutcome one_file start name name-AllNonzero
open_file_lem_example = open_file_lem one_file start name name-AllNonzero start-full

browsing-full : length browsing.directories ≡ directory_handle_count
browsing-full = unfold opendir_slot initialize free_directory find_from in refl

readdir_lem_example :
    let (status, entry, end, after) = readdir one_file browsing (some 0) in
    (status ≡ ok)
    × (entry ≡ some (record { name = name; is_dir = false; size = 5 }))
    × (end ≡ false)
    × ((directory_at after.directories 0).next_index ≡ 1)
    × (after.files ≡ browsing.files)
    × (after.volume ≡ browsing.volume)
unfolding opendir_slot initialize free_directory find_from
readdir_lem_example =
    readdir_lem one_file browsing 0 browsing-full (unfold valid_dir_handle in refl) (omega arith)

read_lem_example :
    ((accepts one_file opened 3 2 ≡ true)
      × ((read one_file opened (some 3) 2).0 ≡ ok)
      × ((read one_file opened (some 3) 2).1 ≡ (answer one_file opened 3 2).1.got)
      × ((read one_file opened (some 3) 2).2 ≡ (answer one_file opened 3 2).1.bytes)
      × Advanced opened 3 (answer one_file opened 3 2).1.got (read one_file opened (some 3) 2).3)
    ⊎ ((accepts one_file opened 3 2 ≡ false)
        × ((read one_file opened (some 3) 2).0 ≢ ok)
        × ((read one_file opened (some 3) 2).1 ≡ 0)
        × ((read one_file opened (some 3) 2).3 ≡ opened))
read_lem_example =
    read_lem one_file opened 3 2 opened-full
      (unfold open_slot initialize free_file find_from in omega arith)

-- The bytes that three reads give.
read_on_run : read_on one_file opened 3 (2 ∷ 1 ∷ 4 ∷ []) ≡ content
unfolding read_on read open_slot initialize free_file find_from valid_file_descriptor
read_on_run = refl
