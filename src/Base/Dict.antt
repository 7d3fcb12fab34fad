-- ===== src/Base/Dict.antt =====
-- Python's `dict`, `defaultdict` and `Counter`: association lists in order of insertion.
use Prim.Native.Nat.{ℕ, ◌+◌}
use native.Mathlib.Omega.{arith}
use mathlib.Core.Path.{◌≡◌, refl}
use mathlib.Core.Logic.{inl, inr}
use mathlib.Core.Option
use mathlib.Core.Option.{Option, none, some}
use mathlib.Core.List.{List, [], ◌∷◌, map}
use ssh_honeypot.Base.Tests.{if◌then◌else◌, Bool-cases}
use ssh_honeypot.Base.Equality.{Eq, ◌==◌, ==_iff}
use ssh_honeypot.Base.Lists.{sum_by, All}

abbrev pub Dict {ℓ κ} : Type ℓ → Type κ → Type (ℓ ⊔ κ)
Dict K V = List (K × V)

abbrev pub keys {ℓ κ} : {K : Type ℓ} {V : Type κ} → Dict K V → List K
keys = map (λ e. e.0)

abbrev pub values {ℓ κ} : {K : Type ℓ} {V : Type κ} → Dict K V → List V
values = map (λ e. e.1)

-- What a measure of the old value of a key is, 0 where there is none.
abbrev pub measure_of {κ} : {V : Type κ} → (V → ℕ) → Option V → ℕ
measure_of m none = 0
measure_of m (some v) = m v

-- The new count of a key that is counted once more.
abbrev pub bump : Option ℕ → ℕ
bump none = 1
bump (some n) = n + 1

module _ {ℓ κ} {K : Type ℓ} {V : Type κ} ⦃e : Eq K⦄ where
  -- `d.get(k)`
  unfoldable pub get : K → Dict K V → Option V
  get k [] = none
  get k ((j, v) ∷ d) = if k == j then some v else get k d

  -- `d[k] = f(d.get(k))`: a new key goes to the end.
  unfoldable pub upsert : K → (Option V → V) → Dict K V → Dict K V
  upsert k f [] = (k, f none) ∷ []
  upsert k f ((j, v) ∷ d) =
      let rest = upsert k f d in if k == j then (j, f (some v)) ∷ d else (j, v) ∷ rest

  -- `d[k] = v`
  abbrev pub put : K → V → Dict K V → Dict K V
  put k v = upsert k (λ _. v)

  -- `del d[k]`
  unfoldable pub remove : K → Dict K V → Dict K V
  remove k [] = []
  remove k ((j, v) ∷ d) = let rest = remove k d in if k == j then d else (j, v) ∷ rest

  pub get-upsert :
      (j k : K) (f : Option V → V) (d : Dict K V)
      → get j (upsert k f d) ≡ (if j == k then some (f (get k d)) else get j d)
  unfolding get upsert
  get-upsert j k f [] = refl
  get-upsert j k f ((i, v) ∷ d) = ground (arith, get-upsert j k f d)

  -- An update changes the sum of a measure over the values by that of the one value.
  pub sum_by-upsert :
      (m : V → ℕ) (k : K) (f : Option V → V) (d : Dict K V)
      → sum_by (λ (e : K × V). m e.1) (upsert k f d) + measure_of m (get k d)
        ≡ sum_by (λ (e : K × V). m e.1) d + m (f (get k d))
  unfolding get upsert
  sum_by-upsert m k f [] = omega arith
  sum_by-upsert m k f ((j, v) ∷ d) = elim (Bool-cases (k == j)) [
    | inl h ↦ rw (h, get, upsert) (omega arith)
    | inr h ↦ rw (h, get, upsert) (omega (arith, sum_by-upsert m k f d))
  ]

  -- To write the value that a key has changes nothing.
  pub put-get : (k : K) (v : V) (d : Dict K V) → get k d ≡ some v → put k v d ≡ d
  unfolding get upsert
  put-get k v [] h = cc
  put-get k v ((j, w) ∷ d) h = ground (arith, put-get k v d)

  pub get-map :
      (f : V → V) (k : K) (d : Dict K V)
      → get k (map (λ (j, v). (j, f v)) d) ≡ Option.map f (get k d)
  unfolding get
  get-map f k [] = refl
  get-map f k ((j, v) ∷ d) = ground (arith, get-map f k d)

  -- A predicate of all values.
  abbrev pub AllValues {ι} : (V → Type ι) → Dict K V → Type ι
  AllValues P [] = Unit
  AllValues P ((_, v) ∷ d) = P v × AllValues P d

  pub AllValues-upsert {ι} :
      (P : V → Type ι) (k : K) (f : Option V → V) (d : Dict K V)
      → P (f none)
      → ((v : V) → P v → P (f (some v)))
      → AllValues P d
      → AllValues P (upsert k f d)
  unfolding upsert
  AllValues-upsert P k f [] new old h = (new, tt)
  AllValues-upsert P k f ((j, v) ∷ d) new old (hv, hd) = elim (Bool-cases (k == j)) [
    | inl h ↦ rw h (old v hv, hd)
    | inr h ↦ rw h (hv, AllValues-upsert P k f d new old hd)
  ]

  pub All-AllValues {ι} :
      (P : V → Type ι) (d : Dict K V) → AllValues P d → All (λ (e : K × V). P e.1) d
  All-AllValues P [] h = tt
  All-AllValues P ((k, v) ∷ d) (hv, h) = (hv, All-AllValues P d h)

-- `Counter`
module _ {ℓ} {K : Type ℓ} ⦃e : Eq K⦄ where
  -- `counter[k] += 1`
  abbrev pub incr : K → Dict K ℕ → Dict K ℕ
  incr k = upsert k bump

  -- `counter[k]`, which is 0 for a key that is not there.
  abbrev pub count_of : K → Dict K ℕ → ℕ
  count_of k d = measure_of (λ (n : ℕ). n) (get k d)

  -- `sum(counter.values())`
  abbrev pub total : Dict K ℕ → ℕ
  total = sum_by (λ (e : K × ℕ). e.1)

  pub count_of-incr :
      (j k : K) (d : Dict K ℕ) → count_of j (incr k d) ≡ count_of j d + (if j == k then 1 else 0)
  count_of-incr j k d = elim (Bool-cases (j == k)) [
    | inl h ↦ ground (arith, get-upsert j k bump d, ==_iff j k)
    | inr h ↦ ground (arith, get-upsert j k bump d, ==_iff j k)
  ]

  pub total-incr : (k : K) (d : Dict K ℕ) → total (incr k d) ≡ total d + 1
  total-incr k d = ground (arith, sum_by-upsert (λ (n : ℕ). n) k bump d)
