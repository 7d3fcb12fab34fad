-- ===== src/Classify/Output/Bundled.antt =====
-- The file of analysis/classify.py as the input of analysis/gen_stix_bundle.py.
use mathlib.Core.Path.{subst}
use ssh_honeypot.Base.{ℕ, ◌≤◌, ◌≡◌, refl, sym, ap, Bool, List, [], ◌∷◌, map, inl, inr, arith}
use ssh_honeypot.Base.{All, Bool-cases, if◌then◌else◌, sum_by, ltb, ◌==◌, nat_eq, list_eq}
use ssh_honeypot.Base.Dict.{keys}
use ssh_honeypot.Base.Results.{ok}
use ssh_honeypot.Base.Sort.{sort, sum_by-sort, All-sort}
use ssh_honeypot.Base.Text.{Str}
use ssh_honeypot.Classify.Aggregate.{Totals}
use ssh_honeypot.Classify.Output.{family_out, all_fams, families_out, to_families}
use ssh_honeypot.Stix.Bundle.{Built, build_bundle}
use ssh_honeypot.Stix.Bundle.Ready.{IsKnown, required, IsComplete, build_bundle_returns}
use ssh_honeypot.Stix.Bundle.Sound.{Has, All-mono}
use ssh_honeypot.Stix.Objects.{Library}

-- Occurrences in a list, which a sort keeps.
abbrev hits : Str → List Str → ℕ
hits k = sum_by (λ x. if k == x then 1 else 0)

Has-hits : (k : Str) (xs : List Str) → Has xs k → 1 ≤ hits k xs
Has-hits k [] h = cc
Has-hits k (x ∷ xs) h = elim (Bool-cases (k == x)) [
  | inl e ↦ rw e (omega arith)
  | inr e ↦ rw e (omega (arith, Has-hits k xs (rw e at h)))
]

hits-Has : (k : Str) (xs : List Str) → 1 ≤ hits k xs → Has xs k
hits-Has k [] h = absurd (omega arith)
hits-Has k (x ∷ xs) h = elim (Bool-cases (k == x)) [
  | inl e ↦ rw e refl
  | inr e ↦
      let none_here : ℕ = if k == x then 1 else 0 in
      let zero_here : none_here ≡ 0 = rw e refl in
      rw e (hits-Has k xs (omega (arith, h, zero_here)))
]

Has-sort : (before : Str → Str → Bool) (k : Str) (xs : List Str) → Has xs k → Has (sort before xs) k
Has-sort before k xs h =
    hits-Has k (sort before xs)
      (omega (arith, sum_by-sort before (λ x. if k == x then 1 else 0) xs, Has-hits k xs h))

module _ (number : Str → ℕ) where
  keys-out :
      (t : Totals) (fams : List Str)
      → keys (to_families (map (λ fam. (fam, family_out t fam)) fams)) ≡ fams
  unfolding to_families
  keys-out t [] = refl
  keys-out t (fam ∷ fams) = ap (◌∷◌ fam) (keys-out t fams)

  keys-families_out : (t : Totals) → keys (to_families (families_out number t)) ≡ all_fams number t
  unfolding families_out
  keys-families_out t = keys-out t (all_fams number t)

  families_out-IsComplete :
      (t : Totals)
      → All IsKnown (keys t.fam_ip_entries)
      → All (Has (keys t.fam_ip_entries)) required
      → IsComplete (to_families (families_out number t))
  unfolding all_fams
  families_out-IsComplete t known here =
      let fams : List Str = keys t.fam_ip_entries in
      let before : Str → Str → Bool = λ a b. ltb (number a) (number b) in
      (
        subst (All IsKnown) (sym (keys-families_out t)) (All-sort before IsKnown fams known),
        subst (λ ks. All (Has ks) required) (sym (keys-families_out t))
            (All-mono (Has fams) (Has (sort before fams)) required (λ k. Has-sort before k fams)
              here),
      )

  -- Where every family that classify.py aggregates is in both tables of gen_stix_bundle.py, and the ten families
  -- that its sections name are among them, `build_bundle` on the families that classify.py writes returns a
  -- bundle.
  pub build_bundle-families_out :
      (lib : Library) (t : Totals)
      → All IsKnown (keys t.fam_ip_entries)
      → All (Has (keys t.fam_ip_entries)) required
      → (b : Built) × (build_bundle lib (to_families (families_out number t)) ≡ ok b)
  build_bundle-families_out lib t known here =
      build_bundle_returns lib (to_families (families_out number t))
        (families_out-IsComplete t known here)
