-- ===== src/Base/Results.antt =====
-- Python's exceptions as values: a result, or the KeyError of a missing key.
use mathlib.Core.Path.{◌≡◌, refl, ap, subst}
use mathlib.Core.Option.{Option, none, some}
use mathlib.Core.List.{List, [], ◌∷◌}
use ssh_honeypot.Base.Equality.{Eq, ◌==◌}
use ssh_honeypot.Base.Dict.{Dict, get, AllValues}
use ssh_honeypot.Base.Tests.{Bool-cases}
use mathlib.Core.Logic.{◌⊎◌, inl, inr}
use ssh_honeypot.Base.Text.{Str}

pub data Result {ℓ} (A : Type ℓ) : Type ℓ where
  key_error : Str → Result A
  ok : A → Result A

infixl 5 ◌>>=◌
abbrev pub ◌>>=◌ {ℓ κ} : {A : Type ℓ} {B : Type κ} → Result A → (A → Result B) → Result B
key_error missing >>= next = key_error missing
ok value >>= next = next value

abbrev pub or_key_error {ℓ} : {A : Type ℓ} → Str → Option A → Result A
or_key_error k none = key_error k
or_key_error k (some a) = ok a

-- `d[k]`
abbrev pub look {ℓ} : {V : Type ℓ} → ⦃e : Eq Str⦄ → Str → Dict Str V → Result V
look k d = or_key_error k (get k d)

-- A loop whose body can raise.
unfoldable pub map_result {ℓ κ} :
    {A : Type ℓ} {B : Type κ} → (A → Result B) → List A → Result (List B)
map_result f [] = ok []
map_result f (x ∷ xs) = f x >>= λ b. map_result f xs >>= λ bs. ok (b ∷ bs)

pub Result-cases {ℓ} :
    {A : Type ℓ} (m : Result A) → ((a : A) × (m ≡ ok a)) ⊎ ((k : Str) × (m ≡ key_error k))
Result-cases (ok a) = inl (a, refl)
Result-cases (key_error k) = inr (k, refl)

-- The steps of a chain that returns.
pub record Passed {ℓ κ} {A : Type ℓ} {B : Type κ} (m : Result A) (f : A → Result B) (b : B)
    : Type (ℓ ⊔ κ) where
  pub value : A
  pub before : m ≡ ok value
  pub after : f value ≡ ok b

pub >>=-Passed {ℓ κ} :
    {A : Type ℓ} {B : Type κ} (m : Result A) (f : A → Result B) {b : B}
    → (m >>= f) ≡ ok b
    → Passed m f b
>>=-Passed (key_error k) f returned = cc
>>=-Passed (ok a) f returned = record { value = a; before = refl; after = returned }

-- What holds of the value of a computation, if it returns one.
abbrev pub Gives {ℓ κ} : {A : Type ℓ} → (A → Type κ) → Result A → Type κ
Gives P (ok a) = P a
Gives P (key_error k) = Unit

pub >>=-Gives {ℓ κ ι} :
    {A : Type ℓ} {B : Type κ} (P : B → Type ι) (m : Result A) (f : A → Result B)
    → ((a : A) → m ≡ ok a → Gives P (f a))
    → Gives P (m >>= f)
>>=-Gives P (ok a) f h = h a refl
>>=-Gives P (key_error k) f h = tt

-- The same, from what holds of the first value.
pub chain-Gives {ℓ κ ι ο} :
    {A : Type ℓ} {B : Type κ} (Q : A → Type ο) (P : B → Type ι) (m : Result A) (f : A → Result B)
    → Gives Q m
    → ((a : A) → Q a → Gives P (f a))
    → Gives P (m >>= f)
chain-Gives Q P (ok a) f q h = h a q
chain-Gives Q P (key_error k) f q h = tt

pub ok-injective {ℓ} : {A : Type ℓ} {a b : A} → ok a ≡ ok b → a ≡ b
ok-injective p = cc

pub ok-Gives {ℓ κ} :
    {A : Type ℓ} (P : A → Type κ) (m : Result A) (a : A) → m ≡ ok a → Gives P m → P a
ok-Gives P (ok b) a p h = subst P (ok-injective p) h
ok-Gives P (key_error k) a p h = cc

pub look-AllValues {ℓ κ} :
    {V : Type ℓ} ⦃e : Eq Str⦄ (P : V → Type κ) (k : Str) (d : Dict Str V) (v : V)
    → look k d ≡ ok v
    → AllValues P d
    → P v
unfolding get
look-AllValues P k [] v p h = cc
look-AllValues P k ((j, w) ∷ d) v p (hw, h) = elim (Bool-cases (k == j)) [
  | inl e ↦ subst P (ok-injective (rw e at p)) hw
  | inr e ↦ look-AllValues P k d v (rw e at p) h
]

pub get-AllValues {ℓ κ} :
    {V : Type ℓ} ⦃e : Eq Str⦄ (P : V → Type κ) (k : Str) (d : Dict Str V) (v : V)
    → get k d ≡ some v
    → AllValues P d
    → P v
get-AllValues P k d v p h = look-AllValues P k d v (ap (or_key_error k) p) h
