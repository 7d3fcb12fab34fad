-- ===== src/Base/Members.antt =====
-- Lists inside lists, as predicates of all elements.
use mathlib.Core.Path.{◌≡◌, refl}
use mathlib.Core.Bool.{true}
use mathlib.Core.List.{List, [], ◌∷◌}
use mathlib.Core.Logic.{inl, inr}
use ssh_honeypot.Base.Equality.{Eq, ◌==◌, member, ==_refl}
use ssh_honeypot.Base.Lists.{All}
use ssh_honeypot.Base.Tests.{Bool-cases}

module _ {ℓ} {A : Type ℓ} ⦃e : Eq A⦄ where
  abbrev pub IsIn : List A → A → Type 0
  IsIn xs x = member x xs ≡ true

  pub IsIn-cons : (y : A) (ys xs : List A) → All (IsIn ys) xs → All (IsIn (y ∷ ys)) xs
  IsIn-cons y ys [] h = tt
  IsIn-cons y ys (x ∷ xs) (h, hs) =
      (elim (Bool-cases (x == y)) [ inl e ↦ rw e refl | inr e ↦ rw e h ], IsIn-cons y ys xs hs)

  pub All-IsIn : (xs : List A) → All (IsIn xs) xs
  All-IsIn [] = tt
  All-IsIn (x ∷ xs) = (rw (==_refl x) refl, IsIn-cons x xs xs (All-IsIn xs))
