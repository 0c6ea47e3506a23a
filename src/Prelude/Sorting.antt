-- ===== src/Prelude/Sorting.antt =====
-- `slice::sort_by_key` with a key of type `u64`: the standard library's sort is stable.
use Prim.Native.Nat.{ℕ, ◌≤◌}
use native.Mathlib.Omega.{arith}
use mathlib.Core.Logic.{inl, inr}
use mathlib.Core.List.{List, [], ◌∷◌}
use nanorix_verify.Prelude.Tests.{leb, leb→le, Bool-cases, if◌then◌else◌}

module _ {ℓ} {A : Type ℓ} (key : A → ℕ) where
  unfoldable pub insert_by_key : A → List A → List A
  insert_by_key x [] = x ∷ []
  insert_by_key x (y ∷ ys) =
      let rest = insert_by_key x ys in if leb (key x) (key y) then x ∷ y ∷ ys else y ∷ rest

  unfoldable pub sort_by_key : List A → List A
  sort_by_key [] = []
  sort_by_key (x ∷ xs) = insert_by_key x (sort_by_key xs)

  -- Keys that do not decrease, from a first one on.
  abbrev pub IsAscendingFrom : A → List A → Type 0
  IsAscendingFrom a [] = Unit
  IsAscendingFrom a (x ∷ xs) = (key a ≤ key x) × IsAscendingFrom x xs

  abbrev pub IsAscending : List A → Type 0
  IsAscending [] = Unit
  IsAscending (x ∷ xs) = IsAscendingFrom x xs

  insert-IsAscendingFrom :
      (a x : A) (xs : List A)
      → IsAscendingFrom a xs
      → key a ≤ key x
      → IsAscendingFrom a (insert_by_key x xs)
  unfolding insert_by_key
  insert-IsAscendingFrom a x [] h l = (l, tt)
  insert-IsAscendingFrom a x (y ∷ ys) (h, hs) l = elim (Bool-cases (leb (key x) (key y))) [
    | inl before ↦ rw before (l, (leb→le _ _ before, hs))
    | inr after ↦ rw after (h, insert-IsAscendingFrom y x ys hs (ground arith))
  ]

  insert-IsAscending : (x : A) (xs : List A) → IsAscending xs → IsAscending (insert_by_key x xs)
  unfolding insert_by_key
  insert-IsAscending x [] h = tt
  insert-IsAscending x (y ∷ ys) h = elim (Bool-cases (leb (key x) (key y))) [
    | inl before ↦ rw before (leb→le _ _ before, h)
    | inr after ↦ rw after (insert-IsAscendingFrom y x ys h (ground arith))
  ]

  -- The sort puts the keys in ascending order.
  pub sort-IsAscending : (xs : List A) → IsAscending (sort_by_key xs)
  unfolding sort_by_key
  sort-IsAscending [] = tt
  sort-IsAscending (x ∷ xs) = insert-IsAscending x (sort_by_key xs) (sort-IsAscending xs)
