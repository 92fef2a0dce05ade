-- ===== src/Vfs.antt =====
-- kernel/filesystem/vfs.cpp: file descriptors and directory handles over the filesystem behind
-- kernel/filesystem/filesystem.hpp, which is a parameter. A `const char*` is `none` for null, or the
-- bytes up to the terminator; a `char[128]` is a list. An `int` handle is an Option, `none` for a
-- negative number.
pub mod Paths
pub mod Files
pub mod Opening
pub mod Reading
pub mod Directories
mod Tests
use linux95_kernel.Prelude.{
  ℕ, zero, suc, ◌+◌, ◌-◌, ◌%◌, ◌^◌, Bool, true, false, ◌||◌, not, Option, none, some, List, [], ◌∷◌,
  ltb, leb, ◌==◌, if◌then◌else◌, get_or, set, replicate, find_from,
}

pub data Status : Type 0 where
  ok not_mounted io_error invalid_filesystem not_found not_directory is_directory corrupt
        unsupported :
      Status
  invalid_descriptor invalid_handle too_many_open_files too_many_open_directories : Status
  already_exists invalid_name no_space directory_not_empty read_only : Status

abbrev pub is_ok : Status → Bool
is_ok ok = true
is_ok _ = false

-- filesystem::Entry; `name` is a `char[13]`.
pub record Entry : Type 0 where
  pub name : List ℕ
  pub is_dir : Bool
  pub size : ℕ

abbrev pub no_entry : Entry
no_entry = record { name = replicate 13 0; is_dir = false; size = 0 }

pub record FileStat : Type 0 where
  pub is_dir : Bool
  pub size : ℕ

-- What read_file reports: the bytes that it wrote to the buffer, how many, and the size of the file.
pub record Chunk : Type 0 where
  pub bytes : List ℕ
  pub got : ℕ
  pub file_size : ℕ

-- The functions of filesystem.hpp that the VFS calls. Reading does not change the volume.
pub record Filesystem (Volume : Type 0) : Type 0 where
  pub stat_path : Volume → List ℕ → Status × Entry
  pub read_file : Volume → List ℕ → ℕ → ℕ → Status × Chunk
  pub read_directory_entry : Volume → List ℕ → ℕ → Status × Entry × Bool
  pub touch : Volume → Option (List ℕ) → Status × Volume
  pub write_file : Volume → Option (List ℕ) → List ℕ → Status × Volume
  pub mkdir : Volume → Option (List ℕ) → Status × Volume
  pub remove : Volume → Option (List ℕ) → Status × Volume
  pub copy_file : Volume → Option (List ℕ) → Option (List ℕ) → Status × Volume
  pub move : Volume → Option (List ℕ) → Option (List ℕ) → Status × Volume

abbrev pub file_descriptor_count : ℕ
file_descriptor_count = 64

abbrev pub first_file_descriptor : ℕ
first_file_descriptor = 3

abbrev pub directory_handle_count : ℕ
directory_handle_count = 32

abbrev pub path_capacity : ℕ
path_capacity = 128

pub record FileDescriptor : Type 0 where
  pub in_use : Bool
  pub path : List ℕ
  pub offset : ℕ
  pub size : ℕ

pub record DirectoryHandle : Type 0 where
  pub in_use : Bool
  pub path : List ℕ
  pub next_index : ℕ

abbrev pub zero_path : List ℕ
zero_path = replicate path_capacity 0

abbrev pub no_file : FileDescriptor
no_file = record { in_use = false; path = zero_path; offset = 0; size = 0 }

abbrev pub no_directory : DirectoryHandle
no_directory = record { in_use = false; path = zero_path; next_index = 0 }

-- The two tables of the file, and the volume under them.
pub record Vfs (Volume : Type 0) : Type 0 where
  pub files : List FileDescriptor
  pub directories : List DirectoryHandle
  pub volume : Volume

-- `source[i]`; the terminator follows the bytes.
abbrev pub char_at : List ℕ → ℕ → ℕ
char_at source i = get_or source i 0

-- The text of a `char[]`: its bytes before the first zero.
unfoldable pub text : List ℕ → List ℕ
text [] = []
text (c ∷ cs) = if c == 0 then [] else c ∷ text cs

-- The loop of copy_path, with the rounds left, and what follows it.
unfoldable pub copy_loop : ℕ → ℕ → List ℕ → List ℕ → Bool × List ℕ
copy_loop zero i source destination =
    if char_at source (path_capacity - 1) == 0
    then (true, set destination (path_capacity - 1) 0)
    else (false, destination)
copy_loop (suc rounds) i source destination =
    let written = set destination i (char_at source i) in
    let rest = copy_loop rounds (i + 1) source written in
    if char_at source i == 0 then (true, written) else rest

unfoldable pub copy_path : Option (List ℕ) → List ℕ → Bool × List ℕ
copy_path none destination = (false, destination)
copy_path (some source) destination =
    if char_at source 0 == 0
    then (false, destination)
    else copy_loop (path_capacity - 1) 0 source destination

abbrev pub file_at : List FileDescriptor → ℕ → FileDescriptor
file_at files fd = get_or files fd no_file

abbrev pub directory_at : List DirectoryHandle → ℕ → DirectoryHandle
directory_at directories handle = get_or directories handle no_directory

unfoldable pub valid_file_descriptor : List FileDescriptor → Option ℕ → Bool
valid_file_descriptor files none = false
valid_file_descriptor files (some fd) =
    if ltb fd first_file_descriptor || leb file_descriptor_count fd
    then false
    else (file_at files fd).in_use

unfoldable pub valid_dir_handle : List DirectoryHandle → Option ℕ → Bool
valid_dir_handle directories none = false
valid_dir_handle directories (some handle) =
    if leb directory_handle_count handle then false else (directory_at directories handle).in_use

-- The lowest free slot, as `open` and `opendir` look for it.
unfoldable pub free_file : List FileDescriptor → Option ℕ
free_file files =
    find_from (file_descriptor_count - first_file_descriptor) first_file_descriptor
      (λ fd. not (file_at files fd).in_use)

unfoldable pub free_directory : List DirectoryHandle → Option ℕ
free_directory directories =
    find_from directory_handle_count 0 (λ handle. not (directory_at directories handle).in_use)

module _ {Volume : Type 0} where
  unfoldable pub initialize : Volume → Vfs Volume
  initialize volume = record {
    files = replicate file_descriptor_count no_file;
    directories = replicate directory_handle_count no_directory;
    volume = volume;
  }

  unfoldable pub close : Vfs Volume → Option ℕ → Status × Vfs Volume
  close v none = (invalid_descriptor, v)
  close v (some fd) =
      if not (valid_file_descriptor v.files (some fd))
      then (invalid_descriptor, v)
      else (ok, record v { files = set v.files fd no_file })

  -- `none` for the result that is not written.
  unfoldable pub fstat : Vfs Volume → Option ℕ → Status × Option FileStat
  fstat v none = (invalid_descriptor, none)
  fstat v (some fd) =
      if not (valid_file_descriptor v.files (some fd))
      then (invalid_descriptor, none)
      else (ok, some (record { is_dir = false; size = (file_at v.files fd).size }))

  unfoldable pub closedir : Vfs Volume → Option ℕ → Status × Vfs Volume
  closedir v none = (invalid_handle, v)
  closedir v (some handle) =
      if not (valid_dir_handle v.directories (some handle))
      then (invalid_handle, v)
      else (ok, record v { directories = set v.directories handle no_directory })

module _ {Volume : Type 0} (fs : Filesystem Volume) where
  unfoldable pub stat : Vfs Volume → Option (List ℕ) → Status × Option FileStat
  stat v path =
      let (copied, safe_path) = copy_path path zero_path in
      let (status, entry) = fs.stat_path v.volume (text safe_path) in
      if not copied
      then (unsupported, none)
      else if not (is_ok status)
      then (status, none)
      else (ok, some (record { is_dir = entry.is_dir; size = entry.size }))

  -- The descriptor or `none` for -1, the status, and the new state.
  unfoldable pub open_slot : Vfs Volume → List ℕ → ℕ → Option ℕ × Status × Vfs Volume
  open_slot v safe_path size = elim (free_file v.files) [
    | none ↦ (none, too_many_open_files, v)
    | some fd ↦ (
      some fd,
      ok,
      record v {
        files =
            set v.files fd (record { in_use = true; path = safe_path; offset = 0; size = size });
      },
    )
  ]

  unfoldable pub open_file : Vfs Volume → Option (List ℕ) → Option ℕ × Status × Vfs Volume
  open_file v path =
      let (copied, safe_path) = copy_path path zero_path in
      let (status, info) = stat v (some (text safe_path)) in
      if not copied then (none, unsupported, v) else elim info [
        | none ↦ (none, status, v)
        | some found ↦
            if found.is_dir then (none, is_directory, v) else open_slot v safe_path found.size
      ]

  -- The status, bytes_read, the bytes written to the buffer, and the new state.
  unfoldable pub read : Vfs Volume → Option ℕ → ℕ → Status × ℕ × List ℕ × Vfs Volume
  read v none size = (invalid_descriptor, 0, [], v)
  read v (some fd) size =
      let slot = file_at v.files fd in
      let (status, chunk) = fs.read_file v.volume (text slot.path) slot.offset size in
      if not (valid_file_descriptor v.files (some fd))
      then (invalid_descriptor, 0, [], v)
      else if not (is_ok status)
      then (status, 0, chunk.bytes, v)
      else if not (chunk.file_size == slot.size)
      then (corrupt, 0, chunk.bytes, v)
      else if ltb (2 ^ 32 - 1 - slot.offset) chunk.got
      then (corrupt, 0, chunk.bytes, v)
      else (
        ok,
        chunk.got,
        chunk.bytes,
        record v {
          files = set v.files fd (record slot { offset = (slot.offset + chunk.got) % 2 ^ 32 });
        },
      )

  unfoldable pub opendir_slot : Vfs Volume → List ℕ → Option ℕ × Status × Vfs Volume
  opendir_slot v safe_path = elim (free_directory v.directories) [
    | none ↦ (none, too_many_open_directories, v)
    | some handle ↦ (
      some handle,
      ok,
      record v {
        directories =
            set v.directories handle (record { in_use = true; path = safe_path; next_index = 0 });
      },
    )
  ]

  unfoldable pub opendir : Vfs Volume → Option (List ℕ) → Option ℕ × Status × Vfs Volume
  opendir v path =
      let (copied, safe_path) = copy_path path zero_path in
      let (status, info) = stat v (some (text safe_path)) in
      if not copied then (none, unsupported, v) else elim info [
        | none ↦ (none, status, v)
        | some found ↦
            if not found.is_dir then (none, not_directory, v) else opendir_slot v safe_path
      ]

  -- The status, the entry if one is written, the end flag, and the new state.
  unfoldable pub readdir : Vfs Volume → Option ℕ → Status × Option Entry × Bool × Vfs Volume
  readdir v none = (invalid_handle, none, false, v)
  readdir v (some handle) =
      let slot = directory_at v.directories handle in
      let (status, entry, end) =
        fs.read_directory_entry v.volume (text slot.path) slot.next_index in
      if not (valid_dir_handle v.directories (some handle))
      then (invalid_handle, none, false, v)
      else if not (is_ok status)
      then (status, none, false, v)
      else if end
      then (ok, none, true, v)
      else (
        ok,
        some entry,
        false,
        record v {
          directories =
              set v.directories handle
                (record slot { next_index = (slot.next_index + 1) % 2 ^ 32 });
        },
      )

  -- The calls that the VFS only passes on.
  unfoldable pub touch : Vfs Volume → Option (List ℕ) → Status × Vfs Volume
  touch v path =
      let (status, volume) = fs.touch v.volume path in (status, record v { volume = volume })

  unfoldable pub write_file : Vfs Volume → Option (List ℕ) → List ℕ → Status × Vfs Volume
  write_file v path bytes =
      let (status, volume) = fs.write_file v.volume path bytes in
      (status, record v { volume = volume })

  unfoldable pub mkdir : Vfs Volume → Option (List ℕ) → Status × Vfs Volume
  mkdir v path =
      let (status, volume) = fs.mkdir v.volume path in (status, record v { volume = volume })

  unfoldable pub remove : Vfs Volume → Option (List ℕ) → Status × Vfs Volume
  remove v path =
      let (status, volume) = fs.remove v.volume path in (status, record v { volume = volume })

  unfoldable pub copy_file : Vfs Volume → Option (List ℕ) → Option (List ℕ) → Status × Vfs Volume
  copy_file v source destination =
      let (status, volume) = fs.copy_file v.volume source destination in
      (status, record v { volume = volume })

  unfoldable pub move : Vfs Volume → Option (List ℕ) → Option (List ℕ) → Status × Vfs Volume
  move v source destination =
      let (status, volume) = fs.move v.volume source destination in
      (status, record v { volume = volume })
