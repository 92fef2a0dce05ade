-- ===== src/Vfs/Reading.antt =====
-- read: one call on every branch, and a descriptor as a cursor over the bytes of its file.
use Prim.Native.Nat.{min}
use linux95_kernel.Prelude.{
  ℕ, zero, suc, ◌+◌, ◌-◌, ◌%◌, ◌^◌, ◌≤◌, ◌<◌, ◌≡◌, ◌≢◌, refl, ap, ◌∙◌, inl, inr, ◌⊎◌, Bool, true,
  false, ◌&&◌, some, List, [], ◌∷◌, ◌++◌, leb, ◌==◌, set, take, drop, length, length-set,
  length-drop, arith, Bool-cases,
}
use mathlib.Core.Path.{subst}
use linux95_kernel.Vfs.{
  Vfs, Filesystem, FileDescriptor, Status, ok, is_ok, file_at, valid_file_descriptor,
  file_descriptor_count, read, text, Chunk,
}
use linux95_kernel.Vfs.Files.{is_open, file_at-set_self, file_at-set_ne}

-- What a read leaves: only the offset of its descriptor moves, by the bytes that it returned.
pub record Advanced {Volume : Type 0} (v : Vfs Volume) (fd got : ℕ) (after : Vfs Volume)
    : Type 0 where
  pub moved : (file_at after.files fd).offset ≡ (file_at v.files fd).offset + got
  pub no_wrap : (file_at v.files fd).offset + got < 2 ^ 32
  pub same_path : (file_at after.files fd).path ≡ (file_at v.files fd).path
  pub same_size : (file_at after.files fd).size ≡ (file_at v.files fd).size
  pub still_open : is_open after.files fd ≡ true
  pub others : (j : ℕ) → fd ≢ j → file_at after.files j ≡ file_at v.files j
  pub same_volume : after.volume ≡ v.volume
  pub same_directories : after.directories ≡ v.directories
  pub same_length : length after.files ≡ length v.files

module _ {Volume : Type 0} (fs : Filesystem Volume) (v : Vfs Volume) (fd n : ℕ) where
  abbrev slot : FileDescriptor
  slot = file_at v.files fd

  moved_slot : ℕ → FileDescriptor
  moved_slot got = record slot { offset = (slot.offset + got) % 2 ^ 32 }

  move-Advanced :
      (got : ℕ)
      → length v.files ≡ file_descriptor_count
      → is_open v.files fd ≡ true
      → slot.offset + got < 2 ^ 32
      → Advanced v fd got (record v { files = set v.files fd (moved_slot got) })
  unfolding moved_slot valid_file_descriptor
  move-Advanced got full live small =
      let here = file_at-set_self v.files fd (moved_slot got) (ground (arith, full)) in
      record {
        moved = ap (λ d. d.offset) here ∙ omega arith;
        no_wrap = small;
        same_path = ap (λ d. d.path) here;
        same_size = ap (λ d. d.size) here;
        still_open = ground (arith, here);
        others = λ j ne. file_at-set_ne v.files fd j (moved_slot got) ne;
        same_volume = refl;
        same_directories = refl;
        same_length = length-set v.files fd (moved_slot got);
      }

  -- What the filesystem answers.
  abbrev pub answer : Status × Chunk
  answer = fs.read_file v.volume (text slot.path) slot.offset n

  -- The answers that read accepts.
  abbrev pub accepts : Bool
  accepts =
      is_open v.files fd
      && is_ok answer.0
      && (answer.1.file_size == slot.size)
      && leb answer.1.got (2 ^ 32 - 1 - slot.offset)

  read-accepted :
      accepts ≡ true
      → read fs v (some fd) n ≡ (
        ok,
        answer.1.got,
        answer.1.bytes,
        record v { files = set v.files fd (moved_slot answer.1.got) },
      )
  unfolding read moved_slot
  read-accepted h = ground arith

  read-refused :
      accepts ≡ false
      → ((read fs v (some fd) n).0 ≢ ok)
        × ((read fs v (some fd) n).1 ≡ 0)
        × ((read fs v (some fd) n).3 ≡ v)
  unfolding read
  read-refused h = ground arith

  -- With the file table at its full size and an offset below 2^32, a read succeeds exactly if the
  -- descriptor is open, the filesystem answers with the file's size as it was when it was opened,
  -- and the offset stays below 2^32. Then it moves its own descriptor's offset by the number of
  -- bytes reported, and nothing else. Otherwise it reports no bytes and changes nothing.
  pub read_lem :
      length v.files ≡ file_descriptor_count
      → slot.offset < 2 ^ 32
      → ((accepts ≡ true)
          × ((read fs v (some fd) n).0 ≡ ok)
          × ((read fs v (some fd) n).1 ≡ answer.1.got)
          × ((read fs v (some fd) n).2 ≡ answer.1.bytes)
          × Advanced v fd answer.1.got (read fs v (some fd) n).3)
        ⊎ ((accepts ≡ false)
            × ((read fs v (some fd) n).0 ≢ ok)
            × ((read fs v (some fd) n).1 ≡ 0)
            × ((read fs v (some fd) n).3 ≡ v))
  read_lem full small = elim (Bool-cases accepts) [
    | inl yes_it_does ↦
        let live : is_open v.files fd ≡ true = ground arith in
        rw (read-accepted yes_it_does)
          (inl (yes_it_does, refl, refl, refl, move-Advanced answer.1.got full live (ground arith)))
    | inr refused ↦
        let (failed, nothing, same) = read-refused refused in inr (refused, failed, nothing, same)
  ]

-- The filesystem serves a file with these bytes under a path, as long as the volume is not changed.
abbrev pub Serves : {Volume : Type 0} → Filesystem Volume → Volume → List ℕ → List ℕ → Type 0
Serves fs volume path content =
    (offset n : ℕ)
    → fs.read_file volume path offset n ≡ (
      ok,
      record {
        bytes = take n (drop offset content);
        got = min n (length content - offset);
        file_size = length content;
      },
    )

-- A program that reads on and on, and puts the pieces together.
unfoldable pub read_on : {Volume : Type 0} → Filesystem Volume → Vfs Volume → ℕ → List ℕ → List ℕ
read_on fs v fd [] = []
read_on fs v fd (n ∷ ns) =
    let (status, got, bytes, after) = read fs v (some fd) n in bytes ++ read_on fs after fd ns

abbrev pub sum : List ℕ → ℕ
sum [] = 0
sum (n ∷ ns) = n + sum ns

take-all : (n : ℕ) → take {A = ℕ} n [] ≡ []
take-all zero = refl
take-all (suc n) = refl

-- Two pieces in a row are one piece.
take-take : (n m : ℕ) (r : List ℕ) → take n r ++ take m (drop (min n (length r)) r) ≡ take (n + m) r
take-take zero m r =
    let e : min 0 (length r) ≡ 0 = omega arith in let f : 0 + m ≡ m = omega arith in rw (e, f)
take-take (suc n) m [] =
    let e : min (suc n) 0 ≡ 0 = omega arith in rw (e, take-all m, take-all (suc n + m))
take-take (suc n) m (x ∷ r) =
    let e : min (suc n) (suc (length r)) ≡ suc (min n (length r)) = omega arith in
    let f : suc n + m ≡ suc (n + m) = omega arith in rw (e, f) (ap (◌∷◌ x) (take-take n m r))

drop-none : (n : ℕ) → drop {A = ℕ} n [] ≡ []
drop-none zero = refl
drop-none (suc n) = refl

drop-drop : (a b : ℕ) (xs : List ℕ) → drop (a + b) xs ≡ drop b (drop a xs)
drop-drop zero b xs = ap (λ k. drop k xs) (omega arith)
drop-drop (suc a) b [] = rw (drop-none (suc a + b), drop-none b)
drop-drop (suc a) b (x ∷ xs) =
    let f : suc a + b ≡ suc (a + b) = omega arith in rw f (drop-drop a b xs)

-- Descriptor `fd` is open on a file with these bytes, and stands within it.
pub record Reads {Volume : Type 0} (fs : Filesystem Volume) (v : Vfs Volume) (fd : ℕ)
    (content : List ℕ) : Type 0 where
  pub full : length v.files ≡ file_descriptor_count
  pub live : is_open v.files fd ≡ true
  pub size : (file_at v.files fd).size ≡ length content
  pub within : (file_at v.files fd).offset ≤ length content
  pub small : length content < 2 ^ 32
  pub serves : Serves fs v.volume (text (file_at v.files fd).path) content

module _ {Volume : Type 0} (fs : Filesystem Volume) (v : Vfs Volume) (fd : ℕ) (content : List ℕ)
    (r : Reads fs v fd content) where
  abbrev here : FileDescriptor
  here = file_at v.files fd

  abbrev got_of : ℕ → ℕ
  got_of n = min n (length content - here.offset)

  one_read :
      (n : ℕ)
      → ((read fs v (some fd) n).2 ≡ take n (drop here.offset content))
        × Advanced v fd (got_of n) (read fs v (some fd) n).3
  one_read n =
      let reply = r.serves here.offset n in
      elim (read_lem fs v fd n r.full (omega (arith, r.within, r.small))) [
        | inl (accepted, fine, got, bytes, advanced) ↦ (
          bytes ∙ ap (λ a. a.1.bytes) reply,
          subst (λ k. Advanced v fd k (read fs v (some fd) n).3) (ap (λ a. a.1.got) reply) advanced,
        )
        | inr (refused, failed, nothing, same) ↦
            absurd (ground (arith, reply, r.live, r.size, r.within, r.small))
      ]

  next_Reads : (n : ℕ) → Reads fs (read fs v (some fd) n).3 fd content
  next_Reads n =
      let moved = (one_read n).1 in
      record {
        full = moved.same_length ∙ r.full;
        live = moved.still_open;
        size = moved.same_size ∙ r.size;
        within = omega (arith, moved.moved, r.within);
        small = r.small;
        serves = rw (moved.same_volume, moved.same_path) r.serves;
      }

-- For a descriptor that is open on a file of less than 4 GiB which the filesystem serves, and that
-- stands within it: reading on with any sizes gives the bytes of the file from the descriptor's
-- offset on, in order, without a gap or an overlap, up to the sum of the sizes or the end of the
-- file.
pub read_on_lem :
    {Volume : Type 0} (fs : Filesystem Volume) (v : Vfs Volume) (fd : ℕ) (content : List ℕ)
    (sizes : List ℕ)
    → Reads fs v fd content
    → read_on fs v fd sizes ≡ take (sum sizes) (drop (file_at v.files fd).offset content)
unfolding read_on
read_on_lem fs v fd content [] r = refl
read_on_lem fs v fd content (n ∷ ns) r =
    let offset = (file_at v.files fd).offset in
    let (bytes, moved) = one_read fs v fd content r n in
    let later =
      read_on_lem fs (read fs v (some fd) n).3 fd content ns (next_Reads fs v fd content r n) in
    rw
      (
        bytes,
        later,
        moved.moved,
        drop-drop offset (min n (length content - offset)) content,
        ← length-drop offset content,
      )
      (take-take n (sum ns) (drop offset content))
