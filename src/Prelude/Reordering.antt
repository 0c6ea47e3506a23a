-- ===== src/Prelude/Reordering.antt =====
-- Sorting by a key does not depend on the order of the list, where the keys differ.
use Prim.Native.Nat.{ℕ}
use native.Mathlib.Omega.{arith}
use mathlib.Core.Path.{◌≡◌, refl, sym, subst, ◌∙◌}
use mathlib.Core.Logic.{◌≢◌}
use mathlib.Core.List.{List, [], ◌∷◌, Permᴰ}
use nanorix_verify.Prelude.Lists.{All}
use nanorix_verify.Prelude.Sorting.{insert_by_key, sort_by_key}

All-Permᴰ {ℓ κ} : {A : Type ℓ} (P : A → Type κ) {xs ys : List A} → Permᴰ xs ys → All P xs → All P ys
All-Permᴰ P Permᴰ.nil h = tt
All-Permᴰ P (Permᴰ.cons e p) (h, hs) = (rw (← e) h, All-Permᴰ P p hs)
All-Permᴰ P (Permᴰ.swap e f) (h, (k, hs)) = (rw (← f) k, (rw (← e) h, hs))
All-Permᴰ P (Permᴰ.trans p q) h = All-Permᴰ P q (All-Permᴰ P p h)

module _ {ℓ} {A : Type ℓ} (key : A → ℕ) where
  abbrev pub HasDistinctKeys : List A → Type 0
  HasDistinctKeys [] = Unit
  HasDistinctKeys (x ∷ xs) = All (λ y. key x ≢ key y) xs × HasDistinctKeys xs

  insert_comm :
      (x y : A) (zs : List A)
      → key x ≢ key y
      → insert_by_key key x (insert_by_key key y zs) ≡ insert_by_key key y (insert_by_key key x zs)
  unfolding insert_by_key
  insert_comm x y [] h = ground arith
  insert_comm x y (z ∷ zs) h = ground (arith, insert_comm x y zs h)

  -- Lists with distinct keys that are permutations of each other have one sorted list.
  pub sort_by_key-Permᴰ :
      {xs ys : List A}
      → Permᴰ xs ys
      → HasDistinctKeys xs
      → (sort_by_key key xs ≡ sort_by_key key ys) × HasDistinctKeys ys
  unfolding sort_by_key
  sort_by_key-Permᴰ Permᴰ.nil h = (refl, tt)
  sort_by_key-Permᴰ (Permᴰ.cons {a = a} {l₂ = l₂} e p) (h, hs) =
      let (same, distinct) = sort_by_key-Permᴰ p hs in
      let moved = All-Permᴰ (λ y. key a ≢ key y) p h in
      (rw (e, same) refl, (subst (λ (c : A). All (λ y. key c ≢ key y) l₂) e moved, distinct))
  sort_by_key-Permᴰ (Permᴰ.swap {a = a} {b = b} {l = l} e f) ((ab, h), (k, hs)) = (
    rw (← e, ← f) (insert_comm a b (sort_by_key key l) ab),
    (
      (rw (← e, ← f) (λ ba. ab (sym ba)), subst (λ (c : A). All (λ y. key c ≢ key y) l) f k),
      (subst (λ (c : A). All (λ y. key c ≢ key y) l) e h, hs),
    ),
  )
  sort_by_key-Permᴰ (Permᴰ.trans p q) h =
      let (first, middle) = sort_by_key-Permᴰ p h in
      let (second, last) = sort_by_key-Permᴰ q middle in (first ∙ second, last)
