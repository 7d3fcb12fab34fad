-- ===== src/Cluster/Sample.antt =====
-- The sample of source addresses in the report of analysis/cluster.py.
use ssh_honeypot.Base.{ℕ, zero, suc, ◌≤◌, ◌<◌, ◌≡◌, refl, sym, ap, inl, inr}
use ssh_honeypot.Base.{
  List, [], ◌∷◌, ◌++◌, arith, if◌then◌else◌, ltb, take, length, nat_eq, list_eq,
}
use ssh_honeypot.Base.{Bool-cases, ltb→lt}
use ssh_honeypot.Base.Distinct.{
  add_new, distinct_onto, distinct_onto-append, length-add_new, take-distinct_onto,
  take-distinct_onto_full, take_all,
}
use ssh_honeypot.Base.Text.{Str}
use ssh_honeypot.Cluster.Report.{Pattern, sample_one, sample}

abbrev pub all_ips : List Pattern → List Str
all_ips [] = []
all_ips (p ∷ ps) = p.example_ips ++ all_ips ps

sample_one-eq-take :
    (seen ips : List Str) → length seen < 8 → sample_one seen ips ≡ take 8 (distinct_onto seen ips)
unfolding sample_one distinct_onto
sample_one-eq-take seen [] h = sym (take_all 8 seen (omega arith))
sample_one-eq-take seen (ip ∷ ips) h = elim (Bool-cases (ltb (length (add_new seen ip)) 8)) [
  | inl room ↦ rw room (sample_one-eq-take (add_new seen ip) ips (ground arith))
  | inr full ↦ rw full (
      sym (
        take-distinct_onto_full 8 (add_new seen ip) ips
          (ground (arith, (length-add_new seen ip).1))))
]

take_short {ℓ} : {A : Type ℓ} (xs : List A) (n : ℕ) → length (take n xs) < n → take n xs ≡ xs
take_short [] zero h = refl
take_short [] (suc n) h = refl
take_short (x ∷ xs) zero h = absurd (omega arith)
take_short (x ∷ xs) (suc n) h = ap (◌∷◌ x) (take_short xs n (omega arith))

length-take-le {ℓ} : {A : Type ℓ} (n : ℕ) (xs : List A) → length (take n xs) ≤ length xs
length-take-le zero xs = omega arith
length-take-le (suc n) [] = omega arith
length-take-le (suc n) (x ∷ xs) = omega (arith, length-take-le n xs)

-- The round for a pattern, when `found` are the distinct addresses so far.
sample_step :
    (found : List Str) (ps : List Pattern)
    → (length found < 8 → sample found ps ≡ take 8 (distinct_onto found (all_ips ps)))
    → (if ltb (length (take 8 found)) 8 then sample (take 8 found) ps else take 8 found)
      ≡ take 8 (distinct_onto found (all_ips ps))
sample_step found ps ih = elim (Bool-cases (ltb (length (take 8 found)) 8)) [
  | inl room ↦
      let short : take 8 found ≡ found = take_short found 8 (ltb→lt _ _ room) in
      rw room (rw short (ih (rw short at (ltb→lt (length (take 8 found)) 8 room))))
  | inr full ↦
      rw full
        (sym (take-distinct_onto 8 found (all_ips ps) (ground (arith, length-take-le 8 found))))
]

sample_from-eq-take :
    (seen : List Str) (ps : List Pattern)
    → length seen < 8
    → sample seen ps ≡ take 8 (distinct_onto seen (all_ips ps))
unfolding sample
sample_from-eq-take seen [] h = unfold distinct_onto in sym (take_all 8 seen (omega arith))
sample_from-eq-take seen (p ∷ ps) h =
    rw (sample_one-eq-take seen p.example_ips h, distinct_onto-append)
      (sample_step (distinct_onto seen p.example_ips) ps
        (sample_from-eq-take (distinct_onto seen p.example_ips) ps))

-- The two loops with their breaks give the first eight distinct addresses of all the patterns.
pub sample-eq-take : (ps : List Pattern) → sample [] ps ≡ take 8 (distinct_onto [] (all_ips ps))
sample-eq-take ps = sample_from-eq-take [] ps (omega arith)
