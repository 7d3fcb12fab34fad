-- ===== src/Stix/Bundle/Chains.antt =====
-- Chains of results that return.
use ssh_honeypot.Base.{◌≡◌, refl, List, [], ◌∷◌, ◌++◌, inl, inr}
use ssh_honeypot.Base.{All, nat_eq, list_eq, ◌==◌, Bool-cases}
use ssh_honeypot.Base.Dict.{Dict, get, keys, upsert, AllValues, AllValues-upsert}
use ssh_honeypot.Base.Results.{Result, ok, key_error, ◌>>=◌, look, map_result}
use ssh_honeypot.Base.Text.{Str}
use ssh_honeypot.Cluster.Report.{or_empty}
use ssh_honeypot.Stix.Attackers.{add_ips, ips_to_fids}
use ssh_honeypot.Stix.Bundle.Sound.{Has}
use ssh_honeypot.Stix.Objects.{Families}

-- A computation that returns, with what holds of its value.
abbrev pub Returns {ℓ} : {A : Type ℓ} → (A → Type 0) → Result A → Type 0
Returns Q (ok a) = Q a
Returns Q (key_error k) = ⊥

abbrev pub Done {ℓ} : {A : Type ℓ} → Result A → Type 0
Done m = Returns (λ _. Unit) m

pub chain-Returns {ℓ κ} :
    {A : Type ℓ} {B : Type κ} (Q : A → Type 0) (P : B → Type 0) (m : Result A) (f : A → Result B)
    → Returns Q m
    → ((a : A) → Q a → Returns P (f a))
    → Returns P (m >>= f)
chain-Returns Q P (ok a) f q h = h a q
chain-Returns Q P (key_error k) f q h = elim q [ ]

pub chain-Done {ℓ κ} :
    {A : Type ℓ} {B : Type κ} (m : Result A) (f : A → Result B)
    → Done m
    → ((a : A) → Done (f a))
    → Done (m >>= f)
chain-Done m f q h = chain-Returns (λ _. Unit) (λ _. Unit) m f q (λ a _. h a)

pub look-Done {ℓ} : {V : Type ℓ} (k : Str) (d : Dict Str V) → Has (keys d) k → Done (look k d)
unfolding get
look-Done k [] h = cc
look-Done k ((j, v) ∷ d) h = elim (Bool-cases (k == j)) [
  | inl e ↦ rw e tt
  | inr e ↦ rw e (look-Done k d (rw e at h))
]

pub map_result-Done {ℓ κ} :
    {A : Type ℓ} {B : Type κ} (P : A → Type 0) (f : A → Result B) (xs : List A)
    → ((x : A) → P x → Done (f x))
    → All P xs
    → Done (map_result f xs)
unfolding map_result
map_result-Done P f [] h k = tt
map_result-Done P f (x ∷ xs) h (kx, k) =
    let rest : Done (map_result f xs) = map_result-Done P f xs h k in
    chain-Done (f x) _ (h x kx) (λ b. chain-Done (map_result f xs) _ rest (λ bs. tt))

pub map_result-all {ℓ κ} :
    {A : Type ℓ} {B : Type κ} (f : A → Result B) (xs : List A)
    → ((x : A) → Done (f x))
    → Done (map_result f xs)
unfolding map_result
map_result-all f [] h = tt
map_result-all f (x ∷ xs) h =
    let rest : Done (map_result f xs) = map_result-all f xs h in
    chain-Done (f x) _ (h x) (λ b. chain-Done (map_result f xs) _ rest (λ bs. tt))

All-snoc {ℓ} :
    {A : Type ℓ} (P : A → Type 0) (xs : List A) (x : A) → All P xs → P x → All P (xs ++ (x ∷ []))
All-snoc P [] x h k = (k, tt)
All-snoc P (y ∷ ys) x (hy, h) k = (hy, All-snoc P ys x h k)

pub All-zip {ℓ} :
    {A : Type ℓ} (P Q : A → Type 0) (xs : List A) → All P xs → All Q xs → All (λ x. P x × Q x) xs
All-zip P Q [] h k = tt
All-zip P Q (x ∷ xs) (hx, h) (kx, k) = ((hx, kx), All-zip P Q xs h k)

pub Done-eq_ok {ℓ} : {A : Type ℓ} (m : Result A) → Done m → (a : A) × (m ≡ ok a)
Done-eq_ok (ok a) h = (a, refl)
Done-eq_ok (key_error k) h = elim h [ ]

-- The values of `ip_to_fids` are keys of the families.
add_ips-AllValues :
    (P : Str → Type 0) (fid : Str) (ips : List Str) (d : Dict Str (List Str))
    → P fid
    → AllValues (All P) d
    → AllValues (All P) (add_ips fid ips d)
unfolding add_ips
add_ips-AllValues P fid [] d h k = k
add_ips-AllValues P fid (ip ∷ ips) d h k =
    add_ips-AllValues P fid ips (upsert ip (λ o. or_empty o ++ (fid ∷ [])) d) h
      (AllValues-upsert (All P) ip _ d (h, tt) (λ v hv. All-snoc P v fid hv h) k)

pub ips_to_fids-AllValues :
    (P : Str → Type 0) (d : Dict Str (List Str)) (families : Families)
    → All P (keys families)
    → AllValues (All P) d
    → AllValues (All P) (ips_to_fids d families)
unfolding ips_to_fids
ips_to_fids-AllValues P d [] h k = k
ips_to_fids-AllValues P d ((fid, fam) ∷ fams) (hf, h) k =
    ips_to_fids-AllValues P (add_ips fid fam.ips d) fams h (add_ips-AllValues P fid fam.ips d hf k)
