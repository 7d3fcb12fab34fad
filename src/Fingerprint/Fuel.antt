-- ===== src/Fingerprint/Fuel.antt =====
-- The loop of `_shape_and_raw` in analysis/fingerprint.py ends.
use ssh_honeypot.Base.{ℕ, zero, suc, ◌≤◌, ◌≡◌, refl, inl, inr, List, [], ◌∷◌}
use ssh_honeypot.Base.{arith, length, Bool-cases}
use ssh_honeypot.Base.Text.{Unicode}
use ssh_honeypot.Fingerprint.Collapse.{length-span_run}
use ssh_honeypot.Fingerprint.Shape.{injects, target_of, span_run, Out, walk}
use ssh_honeypot.Log.{Rec}

module _ ⦃u : Unicode⦄ where
  -- Two fuels that are both enough give the same.
  walk_fuels :
      (n m : ℕ) (evs : List Rec) (o : Out)
      → length evs ≤ n
      → length evs ≤ m
      → walk n evs o ≡ walk m evs o
  unfolding walk
  walk_fuels zero zero evs o h k = refl
  walk_fuels zero (suc m) [] o h k = refl
  walk_fuels zero (suc m) (e ∷ es) o h k = absurd (omega arith)
  walk_fuels (suc n) zero [] o h k = refl
  walk_fuels (suc n) zero (e ∷ es) o h k = absurd (omega arith)
  walk_fuels (suc n) (suc m) [] o h k = refl
  walk_fuels (suc n) (suc m) (e ∷ es) o h k = elim (Bool-cases (injects e)) [
    | inl inject ↦
        rw (inject, walk)
          (walk_fuels n m (span_run (target_of e) es).1 _
            (omega (arith, length-span_run (target_of e) es))
            (omega (arith, length-span_run (target_of e) es)))
    | inr plain ↦ rw (plain, walk) (walk_fuels n m es _ (omega arith) (omega arith))
  ]

  -- The loop over a session ends within as many rounds as there are events: with any number of rounds
  -- from there on its result is the same.
  pub walk-eq-length :
      (n : ℕ) (evs : List Rec) (o : Out) → length evs ≤ n → walk n evs o ≡ walk (length evs) evs o
  walk-eq-length n evs o h = walk_fuels n (length evs) evs o h (omega arith)
