-- ===== src/Stix/Bundle/Sound.antt =====
-- What every section of the bundle keeps: counts that agree with the objects, and references to objects
-- that are there.
use Prim.Native.String.{String}
use mathlib.Core.Path.{subst}
use ssh_honeypot.Base.{ℕ, ◌+◌, ◌≡◌, refl, sym, ap, inl, inr, Bool, true, List, [], ◌∷◌, ◌++◌, arith}
use ssh_honeypot.Base.{All, member, nat_eq, list_eq, ==_refl, ◌==◌, if◌then◌else◌, length, count_by}
use ssh_honeypot.Base.{Bool-cases, count_by-append, length-append}
use ssh_honeypot.Base.Dict.{Dict, AllValues}
use ssh_honeypot.Base.Text.{Str, lit}
use ssh_honeypot.Stix.Objects.{
  AttackPattern, Indicator, Object, attack_pattern, ipv4_addr, url, file, indicator, malware, note,
  relationship, Step, append, raise, objects_of, Library,
}

-- The key of `counts` for a type of object.
abbrev pub kind_name : Object → String
kind_name (attack_pattern a) = "attack_pattern"
kind_name (ipv4_addr ip) = "ipv4_addr"
kind_name (url u) = "url"
kind_name (file f) = "file"
kind_name (indicator i) = "indicator"
kind_name (malware m) = "malware"
kind_name (note n) = "note"
kind_name (relationship r) = "relationship"

-- The ids that an object refers to.
abbrev pub refs : Object → List Str
refs (relationship r) = r.source_ref ∷ r.target_ref ∷ []
refs (note n) = n.object_refs
refs (malware m) = m.sample_refs
refs _ = []

abbrev pub Has : List Str → Str → Type 0
Has ids i = member i ids ≡ true

pub All-append {ℓ κ} :
    {A : Type ℓ} (P : A → Type κ) (xs ys : List A) → All P xs → All P ys → All P (xs ++ ys)
All-append P [] ys h k = k
All-append P (x ∷ xs) ys (hx, h) k = (hx, All-append P xs ys h k)

pub All-split {ℓ κ} :
    {A : Type ℓ} (P : A → Type κ) (xs ys : List A) → All P (xs ++ ys) → All P xs × All P ys
All-split P [] ys h = (tt, h)
All-split P (x ∷ xs) ys (hx, h) = let (a, b) = All-split P xs ys h in ((hx, a), b)

pub All-mono {ℓ κ ι} :
    {A : Type ℓ} (P : A → Type κ) (Q : A → Type ι) (xs : List A)
    → ((x : A) → P x → Q x)
    → All P xs
    → All Q xs
All-mono P Q [] h k = tt
All-mono P Q (x ∷ xs) h (kx, k) = (h x kx, All-mono P Q xs h k)

pub Has-append_right : (xs ids : List Str) (i : Str) → Has ids i → Has (xs ++ ids) i
Has-append_right [] ids i h = h
Has-append_right (x ∷ xs) ids i h = ground (arith, Has-append_right xs ids i h)

pub Has-append_left : (xs ids : List Str) (i : Str) → Has xs i → Has (xs ++ ids) i
Has-append_left [] ids i h = cc
Has-append_left (x ∷ xs) ids i h = ground (arith, Has-append_left xs ids i)

pub Has-self : (xs : List Str) → All (Has xs) xs
Has-self [] = tt
Has-self (x ∷ xs) = (
  ground (arith, ==_refl x),
  All-mono (Has xs) (Has (x ∷ xs)) xs (Has-append_right (x ∷ []) xs) (Has-self xs),
)

abbrev pub is_kind : Str → Object → Bool
is_kind k o = k == lit (kind_name o)

-- How much the steps raise a key of `counts`, and all keys together.
abbrev pub raised : Str → List Step → ℕ
raised k [] = 0
raised k (append o ∷ es) = raised k es
raised k (raise key n ∷ es) = (if k == lit key then n else 0) + raised k es

abbrev pub raised_in_all : List Step → ℕ
raised_in_all [] = 0
raised_in_all (append o ∷ es) = raised_in_all es
raised_in_all (raise key n ∷ es) = n + raised_in_all es

-- Every key is raised by the number of the objects of its type that are appended.
pub record IsBalanced (es : List Step) : Type 0 where
  pub by_kind : (k : Str) → raised k es ≡ count_by (is_kind k) (objects_of es)
  pub in_all : raised_in_all es ≡ length (objects_of es)

pub nil-IsBalanced : IsBalanced []
unfolding objects_of
nil-IsBalanced = record { by_kind = λ k. refl; in_all = refl }

-- An object, and its key raised by one.
pub cons-IsBalanced :
    {o : Object} {es : List Step}
    → IsBalanced es
    → IsBalanced (append o ∷ raise (kind_name o) 1 ∷ es)
unfolding objects_of
cons-IsBalanced {o = o} {es = es} h = record {
  by_kind = λ k. ap (λ n. (if k == lit (kind_name o) then 1 else 0) + n) (h.by_kind k);
  in_all = omega (arith, h.in_all);
}

-- Two objects of a type, and the key raised by two behind both.
pub pair-IsBalanced :
    (o p : Object)
    → kind_name p ≡ kind_name o
    → IsBalanced (append o ∷ append p ∷ raise (kind_name o) 2 ∷ [])
unfolding objects_of
pair-IsBalanced o p e = record {
  by_kind = λ k.
      subst
        (λ s.
          (if k == lit (kind_name o) then 2 else 0) + 0
          ≡ (if k == lit (kind_name o) then 1 else 0) + ((if k == lit s then 1 else 0) + 0))
        (sym e)
        (elim (Bool-cases (k == lit (kind_name o))) [ inl h ↦ rw h refl | inr h ↦ rw h refl ]);
  in_all = refl;
}

pub objects_of-append : (es fs : List Step) → objects_of (es ++ fs) ≡ objects_of es ++ objects_of fs
unfolding objects_of
objects_of-append [] fs = refl
objects_of-append (append o ∷ es) fs = ap (◌∷◌ o) (objects_of-append es fs)
objects_of-append (raise key n ∷ es) fs = objects_of-append es fs

raised-append : (k : Str) (es fs : List Step) → raised k (es ++ fs) ≡ raised k es + raised k fs
raised-append k [] fs = omega arith
raised-append k (append o ∷ es) fs = raised-append k es fs
raised-append k (raise key n ∷ es) fs = omega (arith, raised-append k es fs)

raised_in_all-append :
    (es fs : List Step) → raised_in_all (es ++ fs) ≡ raised_in_all es + raised_in_all fs
raised_in_all-append [] fs = omega arith
raised_in_all-append (append o ∷ es) fs = raised_in_all-append es fs
raised_in_all-append (raise key n ∷ es) fs = omega (arith, raised_in_all-append es fs)

pub append-IsBalanced : (es fs : List Step) → IsBalanced es → IsBalanced fs → IsBalanced (es ++ fs)
append-IsBalanced es fs h i = record {
  by_kind = λ k. rw (objects_of-append es fs) (
      omega (
        arith,
        h.by_kind k,
        i.by_kind k,
        raised-append k es fs,
        count_by-append (is_kind k) (objects_of es) (objects_of fs),
      ));
  in_all = rw (objects_of-append es fs) (
      omega (
        arith,
        h.in_all,
        i.in_all,
        raised_in_all-append es fs,
        length-append (objects_of es) (objects_of fs),
      ));
}

abbrev pub Resolves : List Str → List Step → Type 0
Resolves ids es = All (λ o. All (Has ids) (refs o)) (objects_of es)

pub append-Resolves :
    (ids : List Str) (es fs : List Step)
    → Resolves ids es
    → Resolves ids fs
    → Resolves ids (es ++ fs)
append-Resolves ids es fs h k =
    subst (All (λ o. All (Has ids) (refs o))) (sym (objects_of-append es fs))
      (All-append _ (objects_of es) (objects_of fs) h k)

module _ (lib : Library) where
  -- The ids of an object that others may refer to.
  abbrev pub own : Object → List Str
  own (attack_pattern a) = a.id ∷ []
  own (file f) = lib.file_id f ∷ []
  own (indicator i) = i.id ∷ []
  own (malware m) = m.id ∷ []
  own (relationship r) = r.id ∷ []
  own _ = []

  abbrev pub Covers : List Str → List Step → Type 0
  Covers ids es = All (λ o. All (Has ids) (own o)) (objects_of es)

  pub Covers-append :
      (ids : List Str) (es fs : List Step) → Covers ids (es ++ fs) → Covers ids es × Covers ids fs
  Covers-append ids es fs c =
      All-split _ (objects_of es) (objects_of fs)
        (subst (All (λ o. All (Has ids) (own o))) (objects_of-append es fs) c)

  module _ (ids : List Str) (aps : Dict Str AttackPattern) (inds : Dict Str Indicator) where
    abbrev pub KnowsPatterns : Type 0
    KnowsPatterns = AllValues (λ (a : AttackPattern). Has ids a.id) aps

    abbrev pub KnowsIndicators : Type 0
    KnowsIndicators = AllValues (λ (i : Indicator). Has ids i.id) inds

    pub record IsSound (es : List Step) : Type 0 where
      pub balanced : IsBalanced es
      pub resolved : KnowsPatterns → KnowsIndicators → Covers ids es → Resolves ids es

    pub append-IsSound : (es fs : List Step) → IsSound es → IsSound fs → IsSound (es ++ fs)
    append-IsSound es fs h k = record {
      balanced = append-IsBalanced es fs h.balanced k.balanced;
      resolved = λ a i c.
          let (ce, cf) = Covers-append ids es fs c in
          append-Resolves ids es fs (h.resolved a i ce) (k.resolved a i cf);
    }
