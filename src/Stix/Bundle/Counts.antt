-- ===== src/Stix/Bundle/Counts.antt =====
-- The counts of a bundle.
use mathlib.Core.Path.{subst}
use ssh_honeypot.Base.{ℕ, ◌≡◌, refl, ◌+◌, List, [], ◌∷◌, map, arith}
use Prim.Native.String.{String}
use ssh_honeypot.Base.{
  Bool-cases, Option-cases, ==_iff, inl, inr, nat_eq, list_eq, ◌==◌, length, count_by,
  if◌then◌else◌,
}
use ssh_honeypot.Base.Dict.{
  Dict, get, measure_of, count_of, total, upsert, get-upsert, sum_by-upsert,
}
use ssh_honeypot.Base.Results.{ok, >>=-Passed, Passed, ok-Gives, ok-injective}
use ssh_honeypot.Base.Text.{Str, lit}
use ssh_honeypot.Stix.Bundle.{sections, build_bundle, Built, built_of, object_total}
use ssh_honeypot.Stix.Bundle.Refs.{IsClosed, sections-IsClosed}
use ssh_honeypot.Stix.Bundle.Sound.{is_kind, raised, raised_in_all}
use ssh_honeypot.Stix.Objects.{
  Step, append, raise, raised_by, count_steps, Families, Library, no_counts,
}

-- The counts agree with the objects.
pub record IsCounted (b : Built) : Type 0 where
  pub by_kind : (k : Str) → count_of k b.counts ≡ count_by (is_kind k) b.objects
  pub in_all : object_total b ≡ length b.objects

count_of-raised :
    (k key : Str) (n : ℕ) (counts : Dict Str ℕ)
    → count_of k (upsert key (raised_by n) counts) ≡ count_of k counts + (if k == key then n else 0)
count_of-raised k key n counts = elim (Bool-cases (k == key)) [
  | inl h ↦ ground (arith, get-upsert k key (raised_by n) counts, ==_iff k key)
  | inr h ↦ ground (arith, get-upsert k key (raised_by n) counts, ==_iff k key)
]

total-raised :
    (key : Str) (n : ℕ) (counts : Dict Str ℕ)
    → total (upsert key (raised_by n) counts) ≡ total counts + n
total-raised key n counts =
    let e : total (upsert key (raised_by n) counts) + measure_of (λ (m : ℕ). m) (get key counts)
        ≡ total counts + raised_by n (get key counts) =
      sum_by-upsert (λ (m : ℕ). m) key (raised_by n) counts in
    elim (Option-cases (get key counts)) [
      | inl h ↦ omega (arith, rw h at e)
      | inr (m, h) ↦ omega (arith, rw h at e)
    ]

count_of-count_steps :
    (k : Str) (counts : Dict Str ℕ) (es : List Step)
    → count_of k (count_steps counts es) ≡ count_of k counts + raised k es
unfolding count_steps
count_of-count_steps k counts [] = omega arith
count_of-count_steps k counts (append o ∷ es) = count_of-count_steps k counts es
count_of-count_steps k counts (raise key n ∷ es) = omega (
  arith,
  count_of-count_steps k (upsert (lit key) (raised_by n) counts) es,
  count_of-raised k (lit key) n counts,
)

total-count_steps :
    (counts : Dict Str ℕ) (es : List Step)
    → total (count_steps counts es) ≡ total counts + raised_in_all es
unfolding count_steps
total-count_steps counts [] = omega arith
total-count_steps counts (append o ∷ es) = total-count_steps counts es
total-count_steps counts (raise key n ∷ es) = omega (
  arith,
  total-count_steps (upsert (lit key) (raised_by n) counts) es,
  total-raised (lit key) n counts,
)

all_zero : (k : Str) (names : List String) → count_of k (map (λ n. (lit n, 0)) names) ≡ 0
unfolding get
all_zero k [] = refl
all_zero k (n ∷ names) = elim (Bool-cases (k == lit n)) [
  | inl e ↦ rw e refl
  | inr e ↦ rw e (all_zero k names)
]

zero_count : (k : Str) → count_of k no_counts ≡ 0
unfolding no_counts
zero_count k = all_zero k (
    "attack_pattern" ∷ "ipv4_addr" ∷ "url" ∷ "file" ∷ "indicator" ∷ "malware" ∷ "note"
    ∷ "relationship" ∷ [])

module _ (lib : Library) where
  -- Whenever `build_bundle` returns, the count under every key is the number of the bundle's objects of that
  -- type, and the total that is printed is the number of all objects.
  pub build_bundle-IsCounted :
      (families : Families) (b : Built) → build_bundle lib families ≡ ok b → IsCounted b
  unfolding build_bundle built_of object_total no_counts
  build_bundle-IsCounted families b p =
      let passed : Passed (sections lib families) (λ es. ok (built_of es)) b =
        >>=-Passed (sections lib families) (λ es. ok (built_of es)) p in
      let es : List Step = passed.value in
      let closed : IsClosed lib [] es =
        ok-Gives (IsClosed lib []) (sections lib families) es passed.before
          (sections-IsClosed lib [] families) in
      subst IsCounted (ok-injective passed.after) (record {
        by_kind = λ k.
            omega (arith, count_of-count_steps k no_counts es, (closed.0).by_kind k, zero_count k);
        in_all = omega (arith, total-count_steps no_counts es, (closed.0).in_all);
      })
