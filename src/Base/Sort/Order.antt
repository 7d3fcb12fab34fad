-- ===== src/Base/Sort/Order.antt =====
-- The order of a list that is sorted, by a number or by any test.
use Prim.Native.Nat.{ℕ, ◌≤◌}
use native.Mathlib.Omega.{arith}
use mathlib.Core.Logic.{inl, inr}
use mathlib.Core.List.Perm
use mathlib.Core.List.{List, [], ◌∷◌, ◌++◌, Perm, append-nil}
use mathlib.Core.Path.{◌≡◌, subst}
use mathlib.Core.Bool.{Bool, true, false}
use ssh_honeypot.Base.Sort.{insert, insert_left, sort, insert-perm}
use ssh_honeypot.Base.Tests.{ltb, Bool-cases}

module _ {ℓ} {A : Type ℓ} (key : A → ℕ) where
  -- The keys are at least `lo` and do not fall.
  abbrev pub AscendingFrom : ℕ → List A → Type 0
  AscendingFrom lo [] = Unit
  AscendingFrom lo (x ∷ xs) = (lo ≤ key x) × AscendingFrom (key x) xs

  insert-AscendingFrom :
      (lo : ℕ) (x : A) (ys : List A)
      → lo ≤ key x
      → AscendingFrom lo ys
      → AscendingFrom lo (insert (λ a b. ltb (key a) (key b)) x ys)
  unfolding insert
  insert-AscendingFrom lo x [] hx h = (hx, tt)
  insert-AscendingFrom lo x (y ∷ ys) hx (hy, h) = elim (Bool-cases (ltb (key x) (key y))) [
    | inl e ↦ rw e (hx, (ground arith, h))
    | inr e ↦ rw e (hy, insert-AscendingFrom (key y) x ys (ground arith) h)
  ]

  insert_left-AscendingFrom :
      (sorted xs : List A)
      → AscendingFrom 0 sorted
      → AscendingFrom 0 (insert_left (λ a b. ltb (key a) (key b)) sorted xs)
  unfolding insert_left
  insert_left-AscendingFrom sorted [] h = h
  insert_left-AscendingFrom sorted (x ∷ xs) h =
      insert_left-AscendingFrom (insert (λ a b. ltb (key a) (key b)) x sorted) xs
        (insert-AscendingFrom 0 x sorted (omega arith) h)

  pub sort-AscendingFrom : (xs : List A) → AscendingFrom 0 (sort (λ a b. ltb (key a) (key b)) xs)
  unfolding sort
  sort-AscendingFrom xs = insert_left-AscendingFrom [] xs tt

-- Each element stands in a relation to the next.
module _ {ℓ κ} {A : Type ℓ} (R : A → A → Type κ) where
  abbrev pub LinkedFrom : A → List A → Type κ
  LinkedFrom x [] = Unit
  LinkedFrom x (y ∷ ys) = R x y × LinkedFrom y ys

  abbrev pub IsLinked : List A → Type κ
  IsLinked [] = Unit
  IsLinked (x ∷ xs) = LinkedFrom x xs

  -- A relation that the test decides one way or the other.
  module _ (before : A → A → Bool) (yes : (x y : A) → before x y ≡ true → R x y)
      (no : (x y : A) → before x y ≡ false → R y x) where
    insert-LinkedFrom :
        (p x : A) (ys : List A) → R p x → LinkedFrom p ys → LinkedFrom p (insert before x ys)
    unfolding insert
    insert-LinkedFrom p x [] hx h = (hx, tt)
    insert-LinkedFrom p x (y ∷ ys) hx (hy, h) = elim (Bool-cases (before x y)) [
      | inl e ↦ rw e (hx, (yes x y e, h))
      | inr e ↦ rw e (hy, insert-LinkedFrom y x ys (no x y e) h)
    ]

    insert-IsLinked : (x : A) (ys : List A) → IsLinked ys → IsLinked (insert before x ys)
    unfolding insert
    insert-IsLinked x [] h = tt
    insert-IsLinked x (y ∷ ys) h = elim (Bool-cases (before x y)) [
      | inl e ↦ rw e (yes x y e, h)
      | inr e ↦ rw e (insert-LinkedFrom y x ys (no x y e) h)
    ]

    insert_left-IsLinked :
        (sorted xs : List A) → IsLinked sorted → IsLinked (insert_left before sorted xs)
    unfolding insert_left
    insert_left-IsLinked sorted [] h = h
    insert_left-IsLinked sorted (x ∷ xs) h =
        insert_left-IsLinked (insert before x sorted) xs (insert-IsLinked x sorted h)

    pub sort-IsLinked : (xs : List A) → IsLinked (sort before xs)
    unfolding sort
    sort-IsLinked xs = insert_left-IsLinked [] xs tt

-- Sorting rearranges.
module _ {ℓ} {A : Type ℓ} (before : A → A → Bool) where
  append-perm : (xs : List A) {ys zs : List A} → Perm ys zs → Perm (xs ++ ys) (xs ++ zs)
  append-perm [] h = h
  append-perm (x ∷ xs) h = Perm.cons x (append-perm xs h)

  middle-perm : (xs : List A) (y : A) (ys : List A) → Perm (xs ++ (y ∷ ys)) (y ∷ (xs ++ ys))
  middle-perm [] y ys = Perm.refl (y ∷ ys)
  middle-perm (x ∷ xs) y ys =
      Perm.trans (Perm.cons x (middle-perm xs y ys)) (Perm.swap y x (xs ++ ys))

  insert_left-perm : (sorted xs : List A) → Perm (insert_left before sorted xs) (xs ++ sorted)
  unfolding insert_left
  insert_left-perm sorted [] = Perm.refl sorted
  insert_left-perm sorted (x ∷ xs) =
      Perm.trans (insert_left-perm (insert before x sorted) xs)
        (Perm.trans (append-perm xs (insert-perm before x sorted)) (middle-perm xs x sorted))

  pub sort-perm : (xs : List A) → Perm (sort before xs) xs
  unfolding sort
  sort-perm xs = subst (Perm (sort before xs)) (append-nil xs) (insert_left-perm [] xs)
