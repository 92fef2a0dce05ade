-- ===== src/Memory/Physical/History.antt =====
-- The allocator under any sequence of requests, with the pages that its clients hold.
use linux95_kernel.Prelude.{
  ℕ, ◌*◌, ◌/◌, ◌%◌, ◌≡◌, ◌≢◌, inl, inr, true, false, none, some, List, [], ◌∷◌, ◌==◌, if◌then◌else◌,
  arith, Bool-cases,
}
use linux95_kernel.Memory.Address.{page_size}
use linux95_kernel.Memory.PageBitmap.{is_used}
use linux95_kernel.Memory.Physical.{Physical, invalid_physical_address, allocate_page, free_page}
use linux95_kernel.Memory.Physical.Invariant.{IsSound}
use linux95_kernel.Memory.Physical.Pages.{
  HandedOut, Freed, can_free-aligned, allocate_page_lem, free_page_lem,
}

pub data Request : Type 0 where
  take : Request
  give : ℕ → Request

abbrev pub remove : ℕ → List ℕ → List ℕ
remove a [] = []
remove a (x ∷ xs) = if x == a then xs else x ∷ remove a xs

-- The state and the addresses that are held, latest first.
unfoldable pub serve : Physical → List ℕ → Request → Physical × List ℕ
serve p held take = elim (allocate_page p) [
  | none ↦ (p, held)
  | some (a, p') ↦ if a == invalid_physical_address then (p', held) else (p', a ∷ held)
]
serve p held (give a) = let (done, p') = free_page p a in (p', if done then remove a held else held)

unfoldable pub serve_all : Physical → List ℕ → List Request → Physical × List ℕ
serve_all p held [] = (p, held)
serve_all p held (r ∷ rs) = let (p', held') = serve p held r in serve_all p' held' rs

abbrev pub Absent : ℕ → List ℕ → Type 0
Absent a [] = Unit {0}
Absent a (x ∷ xs) = (x ≢ a) × Absent a xs

-- Each held address is page aligned, and its page is in use and not reserved.
abbrev pub AllHeld : Physical → List ℕ → Type 0
AllHeld p [] = Unit {0}
AllHeld p (x ∷ xs) =
    ((x % page_size ≡ 0)
      × (is_used p.used (x / page_size) ≡ true)
      × (is_used p.reserved (x / page_size) ≡ false))
    × AllHeld p xs

abbrev pub Distinct : List ℕ → Type 0
Distinct [] = Unit {0}
Distinct (x ∷ xs) = Absent x xs × Distinct xs

pub record IsFaithful (p : Physical) (held : List ℕ) : Type 0 where
  pub sound : IsSound p
  pub all_held : AllHeld p held
  pub distinct : Distinct held

fresh-Absent :
    (p : Physical) (i : ℕ) (held : List ℕ)
    → is_used p.used i ≡ false
    → AllHeld p held
    → Absent (i * page_size) held
fresh-Absent p i [] free h = tt
fresh-Absent p i (x ∷ xs) free h = (
  λ e.
      let same : x / page_size ≡ i = omega arith in
      let clash : is_used p.used (x / page_size) ≡ false = rw same free in absurd (ground arith),
  fresh-Absent p i xs free h.1,
)

AllHeld-HandedOut :
    (p q : Physical) (i : ℕ) (held : List ℕ) → HandedOut p i q → AllHeld p held → AllHeld q held
AllHeld-HandedOut p q i [] c h = tt
AllHeld-HandedOut p q i (x ∷ xs) c h = (
  (h.0.0, ground (arith, c.taken (x / page_size)), rw c.same_reserved h.0.2),
  AllHeld-HandedOut p q i xs c h.1,
)

AllHeld-Freed :
    (p q : Physical) (a : ℕ) (held : List ℕ)
    → a % page_size ≡ 0
    → Freed p (a / page_size) q
    → Absent a held
    → AllHeld p held
    → AllHeld q held
AllHeld-Freed p q a [] al c ab h = tt
AllHeld-Freed p q a (x ∷ xs) al c ab h = (
  (
    h.0.0,
    (let apart : a / page_size ≢ x / page_size = λ e. ab.0 (omega arith) in
        ground (arith, c.given_back (x / page_size))),
    rw c.same_reserved h.0.2,
  ),
  AllHeld-Freed p q a xs al c ab.1 h.1,
)

Absent-remove_other : (a b : ℕ) (xs : List ℕ) → Absent b xs → Absent b (remove a xs)
Absent-remove_other a b [] h = tt
Absent-remove_other a b (x ∷ xs) h = ground (arith, Absent-remove_other a b xs h.1)

Absent-remove : (a : ℕ) (xs : List ℕ) → Distinct xs → Absent a (remove a xs)
Absent-remove a [] d = tt
Absent-remove a (x ∷ xs) d = elim (Bool-cases (x == a)) [
  | inl same ↦ let e : x ≡ a = ground arith in let here : Absent a xs = rw (← e) d.0 in rw same here
  | inr ne ↦ rw ne (ground arith, Absent-remove a xs d.1)
]

Distinct-remove : (a : ℕ) (xs : List ℕ) → Distinct xs → Distinct (remove a xs)
Distinct-remove a [] d = tt
Distinct-remove a (x ∷ xs) d =
    ground (arith, Distinct-remove a xs d.1, Absent-remove_other a x xs d.0)

AllHeld-remove : (p : Physical) (a : ℕ) (xs : List ℕ) → AllHeld p xs → AllHeld p (remove a xs)
AllHeld-remove p a [] h = tt
AllHeld-remove p a (x ∷ xs) h = ground (arith, AllHeld-remove p a xs h.1)

pub serve-IsFaithful :
    (p : Physical) (held : List ℕ) (r : Request)
    → IsFaithful p held
    → IsFaithful (serve p held r).0 (serve p held r).1
unfolding serve
serve-IsFaithful p held take v = elim (allocate_page_lem p v.sound) [
  | inl (full, e) ↦ rw (e, serve) v
  | inr (i, after, e, c) ↦
      let small : ((i * page_size) == invalid_physical_address) ≡ false =
        ground (arith, c.in_range, v.sound.managed) in
      rw (e, serve, small)
        (record {
          sound = c.sound;
          all_held = (
            (
              omega arith,
              (let same : i * page_size / page_size ≡ i = omega arith in
                  rw same (ground (arith, c.taken i))),
              (let same : i * page_size / page_size ≡ i = omega arith in
                  rw (same, c.same_reserved) c.not_reserved),
            ),
            AllHeld-HandedOut p after i held c v.all_held,
          );
          distinct = (fresh-Absent p i held c.was_free v.all_held, v.distinct);
        })
]
serve-IsFaithful p held (give a) v = elim (free_page_lem p v.sound a) [
  | inl (can, done, freed) ↦ rw done (record {
    sound = freed.sound;
    all_held =
        AllHeld-Freed p (free_page p a).1 a (remove a held) (can_free-aligned p a can) freed
          (Absent-remove a held v.distinct) (AllHeld-remove p a held v.all_held);
    distinct = Distinct-remove a held v.distinct;
  })
  | inr (cannot, e) ↦ rw e v
]

-- From a state of the allocator that keeps its invariant and in which the held addresses are page
-- aligned and pairwise distinct, with their pages in use and not reserved, any sequence of
-- allocate_page and free_page calls leads to such a state again: no page is handed out twice while
-- it is held.
pub serve_all-IsFaithful :
    (p : Physical) (held : List ℕ) (rs : List Request)
    → IsFaithful p held
    → IsFaithful (serve_all p held rs).0 (serve_all p held rs).1
unfolding serve_all
serve_all-IsFaithful p held [] v = v
serve_all-IsFaithful p held (r ∷ rs) v =
    serve_all-IsFaithful (serve p held r).0 (serve p held r).1 rs (serve-IsFaithful p held r v)
