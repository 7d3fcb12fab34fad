-- ===== src/Base/Sort.antt =====
-- Python's stable sort, by insertion, with the test "comes strictly before".
pub mod Order
use mathlib.Core.List.Perm
use mathlib.Core.List.{List, [], ◌∷◌, Perm}
use Prim.Native.Nat.{ℕ, ◌+◌}
use native.Mathlib.Omega.{arith}
use mathlib.Core.Path.{◌≡◌, refl, ◌∙◌}
use mathlib.Core.Bool.{Bool}
use ssh_honeypot.Base.Lists.{sum_by, All}
use ssh_honeypot.Base.Tests.{if◌then◌else◌, Bool-cases}
use mathlib.Core.Logic.{inl, inr}

module _ {ℓ} {A : Type ℓ} (before : A → A → Bool) where
  -- Puts `x` behind every element that does not have to come after it.
  unfoldable pub insert : A → List A → List A
  insert x [] = x ∷ []
  insert x (y ∷ ys) = let rest = insert x ys in if before x y then x ∷ y ∷ ys else y ∷ rest

  insert_left : List A → List A → List A
  insert_left sorted [] = sorted
  insert_left sorted (x ∷ xs) = insert_left (insert x sorted) xs

  -- `sorted(xs, key=…)`: elements in their order of arrival, each behind its equals.
  unfoldable pub sort : List A → List A
  unfolding insert_left insert
  sort xs = insert_left [] xs

  pub insert-perm : (x : A) (ys : List A) → Perm (insert x ys) (x ∷ ys)
  unfolding insert
  insert-perm x [] = Perm.refl (x ∷ [])
  insert-perm x (y ∷ ys) = elim (Bool-cases (before x y)) [
    | inl e ↦ rw e (Perm.refl (x ∷ y ∷ ys))
    | inr e ↦ rw e (Perm.trans (Perm.cons y (insert-perm x ys)) (Perm.swap x y ys))
  ]

  -- A sum over the elements does not change.
  sum_by-insert : (f : A → ℕ) (x : A) (ys : List A) → sum_by f (insert x ys) ≡ f x + sum_by f ys
  unfolding insert
  sum_by-insert f x [] = refl
  sum_by-insert f x (y ∷ ys) = ground (arith, sum_by-insert f x ys)

  sum_by-insert_left :
      (f : A → ℕ) (sorted xs : List A)
      → sum_by f (insert_left sorted xs) ≡ sum_by f sorted + sum_by f xs
  unfolding insert_left
  sum_by-insert_left f sorted [] = omega arith
  sum_by-insert_left f sorted (x ∷ xs) =
      sum_by-insert_left f (insert x sorted) xs ∙ omega (arith, sum_by-insert f x sorted)

  pub sum_by-sort : (f : A → ℕ) (xs : List A) → sum_by f (sort xs) ≡ sum_by f xs
  unfolding sort
  sum_by-sort f xs = sum_by-insert_left f [] xs ∙ omega arith

  -- What holds of all elements holds of all in order.
  All-insert {κ} : (P : A → Type κ) (x : A) (ys : List A) → P x → All P ys → All P (insert x ys)
  unfolding insert
  All-insert P x [] hx h = (hx, h)
  All-insert P x (y ∷ ys) hx (hy, h) = elim (Bool-cases (before x y)) [
    | inl e ↦ rw e (hx, (hy, h))
    | inr e ↦ rw e (hy, All-insert P x ys hx h)
  ]

  All-insert_left {κ} :
      (P : A → Type κ) (sorted xs : List A)
      → All P sorted
      → All P xs
      → All P (insert_left sorted xs)
  unfolding insert_left
  All-insert_left P sorted [] hs h = hs
  All-insert_left P sorted (x ∷ xs) hs (hx, h) =
      All-insert_left P (insert x sorted) xs (All-insert P x sorted hx hs) h

  pub All-sort {κ} : (P : A → Type κ) (xs : List A) → All P xs → All P (sort xs)
  unfolding sort
  All-sort P xs h = All-insert_left P [] xs tt h
