-- ===== src/Base/Sorting.antt =====
-- `sort.Slice` and `sort.SliceStable` of Go, as a stable insertion sort by a numeric key.
use Prim.Native.Nat.{ℕ, ◌≤◌}
use mathlib.Core.Path.{◌≡◌, refl}
use mathlib.Core.Bool.{Bool, ◌||◌}
use mathlib.Core.List.{List, [], ◌∷◌}
use native.Mathlib.Omega.{arith}
use upag.Base.Tests.{ltb, if◌then◌else◌}
use upag.Base.Lists.{any, count, All}

-- The same by a comparison: `ORDER BY` of a query.
module _ {ℓ} {A : Type ℓ} (before : A → A → Bool) where
  abbrev pub insert_row : A → List A → List A
  insert_row x [] = x ∷ []
  insert_row x (y ∷ ys) = let rest = insert_row x ys in if before y x then y ∷ rest else x ∷ y ∷ ys

  abbrev pub order_by : List A → List A
  order_by [] = []
  order_by (x ∷ xs) = insert_row x (order_by xs)

module _ {ℓ} {A : Type ℓ} (key : A → ℕ) where
  -- Behind the elements whose key is not above its own, which came later in the input.
  abbrev pub insert_by : A → List A → List A
  insert_by x [] = x ∷ []
  insert_by x (y ∷ ys) =
      let rest = insert_by x ys in if ltb (key y) (key x) then y ∷ rest else x ∷ y ∷ ys

  abbrev pub sort_by : List A → List A
  sort_by [] = []
  sort_by (x ∷ xs) = insert_by x (sort_by xs)

  abbrev pub IsSortedBy : List A → Type 0
  IsSortedBy [] = Unit
  IsSortedBy (x ∷ []) = Unit
  IsSortedBy (x ∷ y ∷ ys) = (key x ≤ key y) × IsSortedBy (y ∷ ys)

module _ {ℓ} {A : Type ℓ} (key : A → ℕ) where
  insert_by-IsSortedBy :
      (x : A) (ys : List A) → IsSortedBy key ys → IsSortedBy key (insert_by key x ys)
  insert_by-IsSortedBy x [] h = tt
  insert_by-IsSortedBy x (y ∷ []) h = ground arith
  insert_by-IsSortedBy x (y ∷ z ∷ ys) h = ground (arith, insert_by-IsSortedBy x (z ∷ ys) h.1)

  pub sort_by-IsSortedBy : (xs : List A) → IsSortedBy key (sort_by key xs)
  sort_by-IsSortedBy [] = tt
  sort_by-IsSortedBy (x ∷ xs) = insert_by-IsSortedBy x (sort_by key xs) (sort_by-IsSortedBy xs)

  any-insert_by :
      (p : A → Bool) (x : A) (ys : List A) → any p (insert_by key x ys) ≡ (p x || any p ys)
  any-insert_by p x [] = refl
  any-insert_by p x (y ∷ ys) = ground (arith, any-insert_by p x ys)

  pub any-sort_by : (p : A → Bool) (xs : List A) → any p (sort_by key xs) ≡ any p xs
  any-sort_by p [] = refl
  any-sort_by p (x ∷ xs) = ground (arith, any-insert_by p x (sort_by key xs), any-sort_by p xs)

  All-insert_by {κ} :
      (P : A → Type κ) (x : A) (ys : List A) → P x → All P ys → All P (insert_by key x ys)
  All-insert_by P x [] h hs = (h, tt)
  All-insert_by P x (y ∷ ys) h hs = ground (arith, All-insert_by P x ys h hs.1)

  pub All-sort_by {κ} : (P : A → Type κ) (xs : List A) → All P xs → All P (sort_by key xs)
  All-sort_by P [] h = tt
  All-sort_by P (x ∷ xs) h = All-insert_by P x (sort_by key xs) h.0 (All-sort_by P xs h.1)

module _ {ℓ κ} {A : Type ℓ} (P : A → Type κ) where
  All-insert_row :
      (before : A → A → Bool) (x : A) (ys : List A)
      → P x
      → All P ys
      → All P (insert_row before x ys)
  All-insert_row before x [] h hs = (h, tt)
  All-insert_row before x (y ∷ ys) h hs = ground (arith, All-insert_row before x ys h hs.1)

  pub All-order_by : (before : A → A → Bool) (xs : List A) → All P xs → All P (order_by before xs)
  All-order_by before [] h = tt
  All-order_by before (x ∷ xs) h =
      All-insert_row before x (order_by before xs) h.0 (All-order_by before xs h.1)

module _ {ℓ} {A : Type ℓ} (p : A → Bool) where
  count-insert_row :
      (before : A → A → Bool) (x : A) (ys : List A)
      → count p (insert_row before x ys) ≡ count p (x ∷ ys)
  count-insert_row before x [] = refl
  count-insert_row before x (y ∷ ys) = ground (arith, count-insert_row before x ys)

  -- Sorting moves the elements only.
  pub count-order_by :
      (before : A → A → Bool) (xs : List A) → count p (order_by before xs) ≡ count p xs
  count-order_by before [] = refl
  count-order_by before (x ∷ xs) =
      ground (arith, count-insert_row before x (order_by before xs), count-order_by before xs)
