-- ===== src/Prelude/Every.antt =====
-- What holds of every element of a list, and of every pair of elements in their order.
use Prim.{Unit, tt}
use mathlib.Core.Path.{◌≡◌}
use mathlib.Core.List.{List, [], ◌∷◌, ◌++◌, map}

abbrev pub All : {A : Type 0} → (A → Type 0) → List A → Type 0
All P [] = Unit
All P (x ∷ xs) = P x × All P xs

abbrev pub AllPairs : {A : Type 0} → (A → A → Type 0) → List A → Type 0
AllPairs R [] = Unit
AllPairs R (x ∷ xs) = All (R x) xs × AllPairs R xs

module _ {A : Type 0} where
  pub All-append : (P : A → Type 0) (xs ys : List A) → All P xs → All P ys → All P (xs ++ ys)
  All-append P [] ys all all' = all'
  All-append P (x ∷ xs) ys all all' = (all.0, All-append P xs ys all.1 all')

  pub All-weaken : (P Q : A → Type 0) (xs : List A) → ((x : A) → P x → Q x) → All P xs → All Q xs
  All-weaken P Q [] step all = tt
  All-weaken P Q (x ∷ xs) step all = (step x all.0, All-weaken P Q xs step all.1)

  -- One more element at the end.
  pub AllPairs-snoc :
      (R : A → A → Type 0) (xs : List A) (y : A)
      → AllPairs R xs
      → All (λ x. R x y) xs
      → AllPairs R (xs ++ (y ∷ []))
  AllPairs-snoc R [] y pairs all = (tt, tt)
  AllPairs-snoc R (x ∷ xs) y pairs all =
      (All-append (R x) xs (y ∷ []) pairs.0 (all.0, tt), AllPairs-snoc R xs y pairs.1 all.1)

pub map-append :
    {A B : Type 0} (f : A → B) (xs ys : List A) → map f (xs ++ ys) ≡ map f xs ++ map f ys
map-append f [] ys = λ i. map f ys
map-append f (x ∷ xs) ys = λ i. f x ∷ map-append f xs ys i
