-- ===== src/Prelude/Lists.antt =====
-- C arrays and byte sequences as lists with native indices.
use Prim.Native.Nat.{ℕ, zero, suc, ◌+◌, ◌-◌, ◌≤◌, ◌<◌, min}
use mathlib.Core.Path.{◌≡◌, refl, sym, ap, ◌∙◌}
use mathlib.Core.Logic.{◌≢◌}
use mathlib.Core.List.{List, [], ◌∷◌, ◌++◌, map}
use mathlib.Core.Option.{Option, none, some}
use native.Mathlib.Omega.{arith}

module _ {ℓ} {A : Type ℓ} where
  abbrev pub length : List A → ℕ
  length [] = 0
  length (x ∷ xs) = suc (length xs)

  abbrev pub get_elem? : List A → ℕ → Option A
  get_elem? [] i = none
  get_elem? (x ∷ xs) zero = some x
  get_elem? (x ∷ xs) (suc i) = get_elem? xs i

  -- A write out of bounds changes nothing.
  abbrev pub set : List A → ℕ → A → List A
  set [] i v = []
  set (x ∷ xs) zero v = v ∷ xs
  set (x ∷ xs) (suc i) v = x ∷ set xs i v

  pub length-append : (xs ys : List A) → length (xs ++ ys) ≡ length xs + length ys
  length-append [] ys = omega arith
  length-append (x ∷ xs) ys = omega (arith, length-append xs ys)

module _ {ℓ} {A : Type ℓ} where
  pub length-set : (xs : List A) (i : ℕ) (v : A) → length (set xs i v) ≡ length xs
  length-set [] i v = refl
  length-set (x ∷ xs) zero v = refl
  length-set (x ∷ xs) (suc i) v = ap suc (length-set xs i v)

  pub get_elem?-set_self :
      (xs : List A) (i : ℕ) (v : A) → i < length xs → get_elem? (set xs i v) i ≡ some v
  get_elem?-set_self [] i v h = elim h [ ]
  get_elem?-set_self (x ∷ xs) zero v h = refl
  get_elem?-set_self (x ∷ xs) (suc i) v h = get_elem?-set_self xs i v (omega arith)

  pub get_elem?-set_ne :
      (xs : List A) {i j : ℕ} (v : A) → i ≢ j → get_elem? (set xs i v) j ≡ get_elem? xs j
  get_elem?-set_ne [] v h = refl
  get_elem?-set_ne (x ∷ xs) {i = zero} {j = zero} v h = absurd (h refl)
  get_elem?-set_ne (x ∷ xs) {i = zero} {j = suc j} v h = refl
  get_elem?-set_ne (x ∷ xs) {i = suc i} {j = zero} v h = refl
  get_elem?-set_ne (x ∷ xs) {i = suc i} {j = suc j} v h = get_elem?-set_ne xs v (λ e. h (ap suc e))

module _ {ℓ} {A : Type ℓ} where
  abbrev pub get_or : List A → ℕ → A → A
  get_or [] i d = d
  get_or (x ∷ xs) zero d = x
  get_or (x ∷ xs) (suc i) d = get_or xs i d

  abbrev pub take : ℕ → List A → List A
  take zero xs = []
  take (suc n) [] = []
  take (suc n) (x ∷ xs) = x ∷ take n xs

  abbrev pub drop : ℕ → List A → List A
  drop zero xs = xs
  drop (suc n) [] = []
  drop (suc n) (x ∷ xs) = drop n xs

  abbrev pub replicate : ℕ → A → List A
  replicate zero a = []
  replicate (suc n) a = a ∷ replicate n a

  pub take-append-drop : (n : ℕ) (xs : List A) → take n xs ++ drop n xs ≡ xs
  take-append-drop zero xs = refl
  take-append-drop (suc n) [] = refl
  take-append-drop (suc n) (x ∷ xs) = rw (take-append-drop n xs)

  pub length-take : (n : ℕ) (xs : List A) → length (take n xs) ≡ min n (length xs)
  length-take zero xs = omega arith
  length-take (suc n) [] = omega arith
  length-take (suc n) (x ∷ xs) = omega (arith, length-take n xs)

  pub length-drop : (n : ℕ) (xs : List A) → length (drop n xs) ≡ length xs - n
  length-drop zero xs = omega arith
  length-drop (suc n) [] = omega arith
  length-drop (suc n) (x ∷ xs) = omega (arith, length-drop n xs)

  pub drop-append : (n : ℕ) (xs ys : List A) → n ≤ length xs → drop n (xs ++ ys) ≡ drop n xs ++ ys
  drop-append zero xs ys le = refl
  drop-append (suc n) [] ys le = absurd (omega (arith, le))
  drop-append (suc n) (x ∷ xs) ys le = drop-append n xs ys (omega (arith, le))

  pub drop-append_past :
      (n k : ℕ) (xs ys : List A) → k ≡ length xs + n → drop k (xs ++ ys) ≡ drop n ys
  drop-append_past n k [] ys e = let same : k ≡ n = omega (arith, e) in ap (λ m. drop m ys) same
  drop-append_past n zero (x ∷ xs) ys e = absurd (omega (arith, e))
  drop-append_past n (suc k) (x ∷ xs) ys e = drop-append_past n k xs ys (omega (arith, e))

  pub take-append :
      (n : ℕ) (xs ys : List A) → take n (xs ++ ys) ≡ take n xs ++ take (n - length xs) ys
  take-append zero xs ys =
      let none_left : 0 - length xs ≡ 0 = omega arith in ap (λ k. take k ys) (sym none_left)
  take-append (suc n) [] ys =
      let all_left : suc n ≡ suc n - 0 = omega arith in ap (λ k. take k ys) all_left
  take-append (suc n) (x ∷ xs) ys =
      let left : n - length xs ≡ suc n - suc (length xs) = omega arith in
      ap (◌∷◌ x) (take-append n xs ys ∙ ap (λ k. take n xs ++ take k ys) left)

  pub take_all : (n : ℕ) (xs : List A) → length xs ≤ n → take n xs ≡ xs
  take_all zero [] le = refl
  take_all zero (x ∷ xs) le = absurd (omega (arith, le))
  take_all (suc n) [] le = refl
  take_all (suc n) (x ∷ xs) le = ap (◌∷◌ x) (take_all n xs (omega (arith, le)))

  pub length-replicate : (n : ℕ) (a : A) → length (replicate n a) ≡ n
  length-replicate zero a = refl
  length-replicate (suc n) a = ap suc (length-replicate n a)

  pub length-map {κ} : {B : Type κ} (xs : List A) (f : A → B) → length (map f xs) ≡ length xs
  length-map [] f = refl
  length-map (x ∷ xs) f = ap suc (length-map xs f)

pub get_or-set_self {ℓ} :
    {A : Type ℓ} (xs : List A) (i : ℕ) (x d : A) → i < length xs → get_or (set xs i x) i d ≡ x
get_or-set_self [] i x d lt = absurd (omega arith)
get_or-set_self (y ∷ ys) zero x d lt = refl
get_or-set_self (y ∷ ys) (suc i) x d lt = get_or-set_self ys i x d (omega arith)

pub get_or-set_ne {ℓ} :
    {A : Type ℓ} (xs : List A) (i j : ℕ) (x d : A) → i ≢ j → get_or (set xs i x) j d ≡ get_or xs j d
get_or-set_ne [] i j x d ne = refl
get_or-set_ne (y ∷ ys) zero zero x d ne = absurd (ne refl)
get_or-set_ne (y ∷ ys) zero (suc j) x d ne = refl
get_or-set_ne (y ∷ ys) (suc i) zero x d ne = refl
get_or-set_ne (y ∷ ys) (suc i) (suc j) x d ne = get_or-set_ne ys i j x d (λ q. ne (ap suc q))
