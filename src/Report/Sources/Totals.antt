-- ===== src/Report/Sources/Totals.antt =====
-- The table of addresses of analysis/report.py against its header.
use ssh_honeypot.Base.{ℕ, ◌+◌, ◌≤◌, ◌≡◌, ◌∙◌, List, [], ◌∷◌, inl, inr, arith}
use ssh_honeypot.Base.{Bool-cases, if◌then◌else◌, count_by, nat_eq, list_eq}
use ssh_honeypot.Base.Dict.{total, total-incr}
use ssh_honeypot.Base.Sort.{sum_by-sort}
use ssh_honeypot.Base.Text.{Str, before_first}
use ssh_honeypot.Log.{Rec, field, kind}
use ssh_honeypot.Passwords.{is_attempt}
use ssh_honeypot.Report.Header.{Clock, is_accepted, numbers}
use ssh_honeypot.Report.Sources.{Sources, no_sources, add_source, sources, by_count}

accepted-add_source :
    (e : Rec) (s : Sources)
    → total (add_source e s).accepted ≡ total s.accepted + (if is_accepted e then 1 else 0)
unfolding add_source
accepted-add_source e s = elim (Bool-cases (is_accepted e)) [
  | inl h ↦ rw h (total-incr (before_first 58 (field "remote" ":" e)) s.accepted)
  | inr h ↦ rw h (omega arith)
]

attempts-add_source :
    (e : Rec) (s : Sources) → total (add_source e s).attempts ≡ total s.attempts + 1
unfolding add_source
attempts-add_source e s = total-incr (before_first 58 (field "remote" ":" e)) s.attempts

attempts-sources :
    (s : Sources) (es : List Rec)
    → total (sources s es).attempts ≡ total s.attempts + count_by (λ e. is_attempt (kind e)) es
unfolding sources
attempts-sources s [] = omega arith
attempts-sources s (e ∷ es) = elim (Bool-cases (is_attempt (kind e))) [
  | inl h ↦
      rw (h, sources)
        (attempts-sources (add_source e s) es ∙ omega (arith, attempts-add_source e s))
  | inr h ↦ rw (h, sources) (attempts-sources s es ∙ omega arith)
]

accepted-sources :
    (s : Sources) (es : List Rec)
    → total (sources s es).accepted ≤ total s.accepted + count_by is_accepted es
unfolding sources
accepted-sources s [] = omega arith
accepted-sources s (e ∷ es) = elim (Bool-cases (is_attempt (kind e))) [
  | inl h ↦
      rw (h, sources) (omega (arith, accepted-sources (add_source e s) es, accepted-add_source e s))
  | inr h ↦ rw (h, sources) (omega (arith, accepted-sources s es))
]

-- The attempts in the table of addresses add up to those in the header, and the accepted attempts of its
-- addresses to no more than those in the header.
pub by_count-numbers :
    (clock : Clock) (auth : List Rec)
    → (total (by_count (sources no_sources auth).attempts) ≡ (numbers clock auth).attempts)
      × (total (sources no_sources auth).accepted ≤ (numbers clock auth).accepted)
unfolding by_count numbers no_sources
by_count-numbers clock auth = (
  sum_by-sort _ (λ (e : Str × ℕ). e.1) (sources no_sources auth).attempts
      ∙ attempts-sources no_sources auth
      ∙ omega arith,
  omega (arith, accepted-sources no_sources auth),
)
