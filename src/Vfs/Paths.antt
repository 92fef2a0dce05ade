-- ===== src/Vfs/Paths.antt =====
-- copy_path: a path of 1 to 127 characters is copied whole, any other is refused.
use linux95_kernel.Prelude.{
  ℕ, zero, suc, ◌+◌, ◌-◌, ◌≤◌, ◌<◌, ◌≡◌, ◌≢◌, refl, ap, sym, ◌∙◌, inl, inr, Bool, true, false, ◌&&◌,
  none, some, List, [], ◌∷◌, ltb, leb, ◌==◌, if◌then◌else◌, set, length, length-set, arith,
  Bool-cases,
}
use linux95_kernel.Vfs.{text, char_at, copy_loop, copy_path, path_capacity, zero_path}

-- The bytes of a C string: none is zero.
abbrev pub AllNonzero : List ℕ → Type 0
AllNonzero [] = Unit {0}
AllNonzero (c ∷ cs) = (c ≢ 0) × AllNonzero cs

char_at-zero :
    (s : List ℕ) (i : ℕ) → AllNonzero s → i ≤ length s → (char_at s i == 0) ≡ leb (length s) i
char_at-zero [] i h le = ground arith
char_at-zero (c ∷ cs) zero h le = ground (arith, h.0)
char_at-zero (c ∷ cs) (suc i) h le = ground (arith, char_at-zero cs i h.1)

char_at-set_self : (d : List ℕ) (i v : ℕ) → i < length d → char_at (set d i v) i ≡ v
char_at-set_self [] i v h = absurd (omega arith)
char_at-set_self (x ∷ d) zero v h = refl
char_at-set_self (x ∷ d) (suc i) v h = char_at-set_self d i v (omega arith)

char_at-set_ne : (d : List ℕ) (i j v : ℕ) → i ≢ j → char_at (set d i v) j ≡ char_at d j
char_at-set_ne [] i j v h = refl
char_at-set_ne (x ∷ d) zero zero v h = absurd (h refl)
char_at-set_ne (x ∷ d) zero (suc j) v h = refl
char_at-set_ne (x ∷ d) (suc i) zero v h = refl
char_at-set_ne (x ∷ d) (suc i) (suc j) v h = char_at-set_ne d i j v (λ e. h (ap suc e))

-- A buffer that agrees with a string up to its terminator has that text.
text-agrees :
    (s d : List ℕ)
    → AllNonzero s
    → length s < length d
    → ((k : ℕ) → k ≤ length s → char_at d k ≡ char_at s k)
    → text d ≡ s
unfolding text
text-agrees s [] h lt same = absurd (omega arith)
text-agrees [] (x ∷ d) h lt same = ground (arith, same 0)
text-agrees (c ∷ s) (x ∷ d) h lt same = ground (
  arith,
  same 0 (omega arith),
  h.0,
  text-agrees s d h.1 (omega arith) (λ k le. same (suc k) (omega arith)),
)

-- What the loop leaves: the flag says whether the string fits, and if so it has been copied.
record Copied (s : List ℕ) (r : Bool × List ℕ) : Type 0 where
  fits : r.0 ≡ ltb (length s) path_capacity
  size : length r.1 ≡ path_capacity
  same : r.0 ≡ true → (k : ℕ) → k ≤ length s → char_at r.1 k ≡ char_at s k

char_at-end : (s : List ℕ) → char_at s (length s) ≡ 0
char_at-end [] = refl
char_at-end (c ∷ s) = char_at-end s

agree_up_to :
    (s d : List ℕ) (i : ℕ)
    → i < length d
    → ((k : ℕ) → k < i → char_at d k ≡ char_at s k)
    → (k : ℕ) → k < i + 1
    → char_at (set d i (char_at s i)) k ≡ char_at s k
agree_up_to s d i lt same k le = elim (Bool-cases (i == k)) [
  | inl e ↦ let e' : i ≡ k = ground arith in rw (← e') (char_at-set_self d i (char_at s i) lt)
  | inr ne ↦ char_at-set_ne d i k (char_at s i) (ground arith) ∙ same k (ground arith)
]

copy_loop-Copied :
    (s : List ℕ)
    → AllNonzero s
    → (rounds i : ℕ) (d : List ℕ) → i + rounds ≡ path_capacity - 1
    → i ≤ length s
    → length d ≡ path_capacity
    → ((k : ℕ) → k < i → char_at d k ≡ char_at s k)
    → Copied s (copy_loop rounds i s d)
unfolding copy_loop
copy_loop-Copied s h zero i d e le size same = elim (Bool-cases (char_at s 127 == 0)) [
  | inr more ↦ rw more (record {
    fits = ground (arith, char_at-zero s 127 h);
    size = size;
    same = λ no_way. absurd (ground arith);
  })
  | inl done ↦
      let full : length s ≡ 127 = ground (arith, char_at-zero s 127 h) in
      let last : char_at s 127 ≡ 0 = ground arith in
      rw done (record {
        fits = ground arith;
        size = length-set d 127 0 ∙ size;
        same = λ _ k below. elim (Bool-cases (127 == k)) [
          | inl e' ↦
              let at : 127 ≡ k = ground arith in
              rw (← at) (char_at-set_self d 127 0 (omega arith) ∙ sym last)
          | inr ne ↦ char_at-set_ne d 127 k 0 (ground arith) ∙ same k (ground arith)
        ];
      })
]
copy_loop-Copied s h (suc rounds) i d e le size same =
    let here = char_at-zero s i h le in
    let upto = agree_up_to s d i (omega arith) same in
    elim (Bool-cases (char_at s i == 0)) [
      | inl done ↦ rw done (record {
        fits = ground (arith, here);
        size = length-set d i (char_at s i) ∙ size;
        same = λ _ k below. upto k (ground (arith, here));
      })
      | inr more ↦ rw more (
          copy_loop-Copied s h rounds (i + 1) (set d i (char_at s i)) (omega arith)
            (ground (arith, here)) (length-set d i (char_at s i) ∙ size) upto)
    ]

pub copy_path-text :
    (s : List ℕ)
    → AllNonzero s
    → ((copy_path (some s) zero_path).0 ≡ (ltb 0 (length s) && ltb (length s) path_capacity))
      × ((copy_path (some s) zero_path).0 ≡ true → text (copy_path (some s) zero_path).1 ≡ s)
      × ((copy_path none zero_path).0 ≡ false)
unfolding copy_path
copy_path-text s h =
    let first = char_at-zero s 0 h (omega arith) in
    let copied =
      copy_loop-Copied s h 127 0 zero_path (omega arith) (omega arith) refl
        (λ k no_way. absurd (omega arith)) in
    elim (Bool-cases (char_at s 0 == 0)) [
      | inl empty ↦ rw empty (ground (arith, first), λ no_way. absurd (ground arith), refl)
      | inr some_text ↦ rw some_text (
        ground (arith, first, copied.fits),
        λ fits.
            text-agrees s (copy_loop 127 0 s zero_path).1 h
              (ground (arith, copied.fits, copied.size)) (copied.same fits),
        refl,
      )
    ]

-- Of the strings without zero characters copy_path accepts exactly those of 1 to 127 characters,
-- and then its buffer holds that string; a null pointer is refused.
pub copy_path_lem :
    (s : List ℕ)
    → AllNonzero s
    → (let (done, path) = copy_path (some s) zero_path in
        (if done then some (text path) else none)
        ≡ (if ltb 0 (length s) && ltb (length s) path_capacity then some s else none))
      × ((copy_path none zero_path).0 ≡ false)
copy_path_lem s h =
    let (copied, same, null) = copy_path-text s h in
    (
      elim (Bool-cases (copy_path (some s) zero_path).0) [
        | inl done ↦ rw (← copied, done) (ap some (same done))
        | inr refused ↦ rw (← copied, refused) refl
      ],
      null,
    )
