-- ===== src/Passwords/Totals.antt =====
-- What the counters of analysis/passwords.py add up to.
use ssh_honeypot.Base.{ℕ, ◌+◌, ◌≡◌, ◌∙◌, inl, inr, ◌&&◌, not, List, [], ◌∷◌, arith}
use ssh_honeypot.Base.{length, count_by, ◌==◌, nat_eq, list_eq, Bool-cases}
use ssh_honeypot.Base.Dict.{Dict, count_of, total, count_of-incr, total-incr, get, incr}
use ssh_honeypot.Base.Text.{Str, Unicode}
use ssh_honeypot.Passwords.{
  tally, count_parts, length_buckets, classes, charset, length_label, suffixes, bases, tail_of,
  base_of,
}

module _ (f : Str → Str) where
  pub total-tally : (d : Dict Str ℕ) (pws : List Str) → total (tally f d pws) ≡ total d + length pws
  unfolding tally
  total-tally d [] = omega arith
  total-tally d (pw ∷ pws) = total-tally (incr (f pw) d) pws ∙ omega (arith, total-incr (f pw) d)

  pub count_of-tally :
      (k : Str) (d : Dict Str ℕ) (pws : List Str)
      → count_of k (tally f d pws) ≡ count_of k d + count_by (λ pw. k == f pw) pws
  unfolding tally
  count_of-tally k d [] = omega arith
  count_of-tally k d (pw ∷ pws) =
      count_of-tally k (incr (f pw) d) pws ∙ omega (arith, count_of-incr k (f pw) d)

  count_of-count_parts :
      (k : Str) (d : Dict Str ℕ) (pws : List Str)
      → count_of k (count_parts f d pws)
        ≡ count_of k d + count_by (λ pw. not (f pw == []) && k == f pw) pws
  unfolding count_parts
  count_of-count_parts k d [] = omega arith
  count_of-count_parts k d (pw ∷ pws) = elim (Bool-cases (f pw == [])) [
    | inl e ↦ rw e (count_of-count_parts k d pws ∙ omega arith)
    | inr e ↦
        rw e (count_of-count_parts k (incr (f pw) d) pws ∙ omega (arith, count_of-incr k (f pw) d))
  ]

-- The table of lengths and the table of character classes each add up to the number of attempts,
-- and each label counts the attempts that have it.
pub classes-total :
    ⦃u : Unicode⦄ (k : Str) (pws : List Str)
    → (total (length_buckets pws) ≡ length pws)
      × (total (classes pws) ≡ length pws)
      × (count_of k (length_buckets pws) ≡ count_by (λ pw. k == length_label pw) pws)
      × (count_of k (classes pws) ≡ count_by (λ pw. k == charset pw) pws)
unfolding length_buckets classes get
classes-total k pws = (
  total-tally length_label [] pws ∙ omega arith,
  total-tally charset [] pws ∙ omega arith,
  count_of-tally length_label k [] pws ∙ omega arith,
  count_of-tally charset k [] pws ∙ omega arith,
)

-- A suffix or a base word is counted once for each password that has it, and the empty one never.
pub parts_counted :
    ⦃u : Unicode⦄ (k : Str) (pws : List Str)
    → (count_of k (suffixes pws) ≡ count_by (λ pw. not (tail_of pw == []) && k == tail_of pw) pws)
      × (count_of k (bases pws) ≡ count_by (λ pw. not (base_of pw == []) && k == base_of pw) pws)
unfolding suffixes bases get
parts_counted k pws = (
  count_of-count_parts tail_of k [] pws ∙ omega arith,
  count_of-count_parts base_of k [] pws ∙ omega arith,
)
