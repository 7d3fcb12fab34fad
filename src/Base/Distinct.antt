-- ===== src/Base/Distinct.antt =====
-- `list(dict.fromkeys(xs))`: the distinct elements in order of their first occurrence.
use Prim.Native.Nat.{ℕ, zero, suc, ◌≤◌}
use native.Mathlib.Omega.{arith}
use mathlib.Core.Path.{◌≡◌, refl, ap, ◌∙◌}
use mathlib.Core.Logic.{inl, inr}
use mathlib.Core.List.{List, [], ◌∷◌, ◌++◌}
use ssh_honeypot.Base.Tests.{if◌then◌else◌, Bool-cases}
use ssh_honeypot.Base.Equality.{Eq, member}
use ssh_honeypot.Base.Lists.{length, take, length-append}

module _ {ℓ} {A : Type ℓ} ⦃e : Eq A⦄ where
  abbrev pub add_new : List A → A → List A
  add_new seen x = if member x seen then seen else seen ++ (x ∷ [])

  unfoldable pub distinct_onto : List A → List A → List A
  distinct_onto seen [] = seen
  distinct_onto seen (x ∷ xs) = distinct_onto (add_new seen x) xs

  pub distinct_onto-append :
      (seen xs ys : List A)
      → distinct_onto seen (xs ++ ys) ≡ distinct_onto (distinct_onto seen xs) ys
  unfolding distinct_onto
  distinct_onto-append seen [] ys = refl
  distinct_onto-append seen (x ∷ xs) ys = distinct_onto-append (add_new seen x) xs ys

  take-append_le : (n : ℕ) (xs ys : List A) → n ≤ length xs → take n (xs ++ ys) ≡ take n xs
  take-append_le zero xs ys h = refl
  take-append_le (suc n) [] ys h = absurd (omega arith)
  take-append_le (suc n) (x ∷ xs) ys h = ap (◌∷◌ x) (take-append_le n xs ys (omega arith))

  pub length-add_new :
      (seen : List A) (x : A)
      → (length seen ≤ length (add_new seen x)) × (length (add_new seen x) ≤ suc (length seen))
  length-add_new seen x = elim (Bool-cases (member x seen)) [
    | inl old ↦ rw old (omega arith, omega arith)
    | inr new ↦
        rw new
          (omega (arith, length-append seen (x ∷ [])), omega (arith, length-append seen (x ∷ [])))
  ]

  take-add_new :
      (n : ℕ) (seen : List A) (x : A) → n ≤ length seen → take n (add_new seen x) ≡ take n seen
  take-add_new n seen x h = elim (Bool-cases (member x seen)) [
    | inl old ↦ rw old
    | inr new ↦ rw new (take-append_le n seen (x ∷ []) h)
  ]

  -- What is seen comes first.
  pub take-distinct_onto :
      (n : ℕ) (seen xs : List A) → n ≤ length seen → take n (distinct_onto seen xs) ≡ take n seen
  unfolding distinct_onto
  take-distinct_onto n seen [] h = refl
  take-distinct_onto n seen (x ∷ xs) h =
      take-distinct_onto n (add_new seen x) xs (omega (arith, (length-add_new seen x).0))
      ∙ take-add_new n seen x h

  pub take_all : (n : ℕ) (xs : List A) → length xs ≤ n → take n xs ≡ xs
  take_all zero [] h = refl
  take_all zero (x ∷ xs) h = absurd (omega arith)
  take_all (suc n) [] h = refl
  take_all (suc n) (x ∷ xs) h = ap (◌∷◌ x) (take_all n xs (omega arith))

  -- The first `n` distinct elements are known once there are `n` of them.
  pub take-distinct_onto_full :
      (n : ℕ) (seen xs : List A) → n ≡ length seen → take n (distinct_onto seen xs) ≡ seen
  take-distinct_onto_full n seen xs h =
      take-distinct_onto n seen xs (omega arith) ∙ take_all n seen (omega arith)
