-- ===== src/Report/Chains.antt =====
-- The chains of numeric passwords that analysis/report.py shows.
use ssh_honeypot.Base.{ℕ, ◌+◌, ◌≤◌, ◌≡◌, refl, inl, inr, true, List, [], ◌∷◌, ◌++◌, arith}
use ssh_honeypot.Base.{length, ltb, member, nat_eq, list_eq, All, Bool-cases}
use ssh_honeypot.Base.Members.{IsIn, All-IsIn}
use ssh_honeypot.Base.Text.{Str, starts_with}
use ssh_honeypot.Report.{continues, chain_from, chains}

-- `q` is `p` with one more character behind it.
abbrev pub IsLonger : Str → Str → Type 0
IsLonger p q = (c : ℕ) × (q ≡ p ++ (c ∷ []))

starts_with-IsLonger : (p q : Str) → starts_with q p ≡ true → length q ≡ length p + 1 → IsLonger p q
unfolding starts_with
starts_with-IsLonger [] [] h n = absurd (omega (arith, n))
starts_with-IsLonger [] (c ∷ []) h n = (c, refl)
starts_with-IsLonger [] (c ∷ d ∷ q) h n = absurd (omega (arith, n))
starts_with-IsLonger (c ∷ p) [] h n = cc
starts_with-IsLonger (c ∷ p) (d ∷ q) h n =
    let (more, e) = starts_with-IsLonger p q (ground (arith, h)) (omega (arith, n)) in
    let same : d ≡ c = ground (arith, h) in (more, cc (same, e))

continues-IsLonger : (p q : Str) → continues p q ≡ true → IsLonger p q
unfolding continues
continues-IsLonger p q h = starts_with-IsLonger p q (ground (arith, h)) (ground (arith, h))

-- Each password is the one before it with one more character.
abbrev pub Grows : Str → List Str → Type 0
Grows p [] = Unit
Grows p (q ∷ qs) = IsLonger p q × Grows q qs

chain_from-Grows : (cur : Str) (qs : List Str) → Grows cur (chain_from cur qs)
unfolding chain_from
chain_from-Grows cur [] = tt
chain_from-Grows cur (q ∷ qs) = elim (Bool-cases (continues cur q)) [
  | inl e ↦ rw e (continues-IsLonger cur q e, chain_from-Grows q qs)
  | inr e ↦ rw e (chain_from-Grows cur qs)
]

All-chain_from :
    (P : Str → Type 0) (cur : Str) (qs : List Str) → All P qs → All P (chain_from cur qs)
unfolding chain_from
All-chain_from P cur [] h = tt
All-chain_from P cur (q ∷ qs) (h, hs) = elim (Bool-cases (continues cur q)) [
  | inl e ↦ rw e (h, All-chain_from P q qs hs)
  | inr e ↦ rw e (All-chain_from P cur qs hs)
]

abbrev pub IsGrowing : List Str → Type 0
IsGrowing [] = Unit
IsGrowing (p ∷ ps) = Grows p ps

-- A chain of some of the passwords `ps`.
pub record IsChain (ps c : List Str) : Type 0 where
  pub grows : IsGrowing c
  pub long : 3 ≤ length c
  pub inside : All (IsIn ps) c

chains-All : (ps seen qs : List Str) → All (IsIn ps) qs → All (IsChain ps) (chains seen qs)
unfolding chains
chains-All ps seen [] h = tt
chains-All ps seen (q ∷ qs) (h, hs) = elim (Bool-cases (member q seen)) [
  | inl old ↦ rw old (chains-All ps seen qs hs)
  | inr new ↦ rw new (elim (Bool-cases (ltb (length (q ∷ chain_from q qs)) 3)) [
    | inl short ↦ rw short (chains-All ps seen qs hs)
    | inr long ↦ rw long (
      record {
        grows = chain_from-Grows q qs;
        long = ground arith;
        inside = (h, All-chain_from (IsIn ps) q qs hs);
      },
      chains-All ps ((q ∷ chain_from q qs) ++ seen) qs hs,
    )
  ])
]

-- In every chain that is shown each password is the one before it with one more character at its end,
-- there are at least three, and all are among the passwords given.
pub chains-IsChain : (seen ps : List Str) → All (IsChain ps) (chains seen ps)
chains-IsChain seen ps = chains-All ps seen ps (All-IsIn ps)
