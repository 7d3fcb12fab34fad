-- ===== src/Seqgroup/Output/Totals.antt =====
-- The numbers in the files that analysis/seqgroup.py writes.
use ssh_honeypot.Base.{ℕ, ◌+◌, ◌-◌, ◌≡◌, refl, ap, [], ◌∷◌, arith}
use ssh_honeypot.Base.{length, sum_by, nat_eq, list_eq}
use ssh_honeypot.Base.Dict.{Dict, values}
use ssh_honeypot.Base.Sort.{sum_by-sort}
use ssh_honeypot.Base.Text.{Str, lit, show}
use ssh_honeypot.Base.Sort.Order.{IsLinked, sort-IsLinked, sort-perm}
use mathlib.Core.List.{Perm}
use ssh_honeypot.Base.{◌<◌, ◌≤◌, ◌⊎◌, true, false, List, ◌++◌, map}
use ssh_honeypot.Seqgroup.Output.{
  Host, Options, head_line, title_line, summary, summary_line, number_from,
}
use ssh_honeypot.Seqgroup.{Session}
use ssh_honeypot.Seqgroup.Counts.{counted, cluster_counts}
use ssh_honeypot.Seqgroup.Groups.{Group, State, cluster, comes_before, ordered}

sum-values : (f : Group → ℕ) (d : Dict Str Group) → sum_by f (values d) ≡ sum_by (λ e. f e.1) d
sum-values f [] = refl
sum-values f ((h, g) ∷ d) = ap (λ k. f g + k) (sum-values f d)

-- The sessions of the groups in the order of summary.txt add up to the number of sessions that its first
-- line gives as having enough commands.
pub sum_by-ordered :
    (sha1 : Str → Str) (min_cmds : ℕ) (es : Dict Str Session)
    → sum_by (λ g. g.count) (ordered (cluster sha1 min_cmds es).groups)
      ≡ length es - (cluster sha1 min_cmds es).skipped
unfolding ordered
sum_by-ordered sha1 min_cmds es =
    let st : State = cluster sha1 min_cmds es in
    let total : st.skipped + counted sha1 min_cmds st ≡ length es =
      (cluster_counts sha1 min_cmds es).0 in
    let sorted : sum_by (λ g. g.count) (ordered st.groups)
        ≡ sum_by (λ g. g.count) (values st.groups) =
      sum_by-sort _ (λ g. g.count) (values st.groups) in
    omega (arith, total, sorted, sum-values (λ g. g.count) st.groups)

-- A group that may stand above another: more sessions, or as many and no fewer commands.
abbrev pub NotBelow : Group → Group → Type 0
NotBelow a b = (b.count < a.count) ⊎ ((a.count ≡ b.count) × (b.ncmds ≤ a.ncmds))

before-NotBelow : (a b : Group) → comes_before a b ≡ true → NotBelow a b
unfolding comes_before
before-NotBelow a b h = ground arith

not_before-NotBelow : (a b : Group) → comes_before a b ≡ false → NotBelow b a
unfolding comes_before
not_before-NotBelow a b h = ground arith

-- The groups of a dictionary from the largest on.
pub record IsRanked (groups : Dict Str Group) (gs : List Group) : Type 0 where
  pub ranked : IsLinked NotBelow gs
  pub same : Perm gs (values groups)

ordered-IsRanked : (groups : Dict Str Group) → IsRanked groups (ordered groups)
unfolding ordered
ordered-IsRanked groups = record {
  ranked = sort-IsLinked NotBelow comes_before before-NotBelow not_before-NotBelow (values groups);
  same = sort-perm comes_before (values groups);
}

-- The first line of a listing of groups.
abbrev pub first_line : ℕ → ℕ → List Group → Str
first_line ingested min_cmds gs =
    lit "sessions ingested: "
    ++ show ingested
    ++ lit "   with >="
    ++ show min_cmds
    ++ lit " cmds: "
    ++ show (sum_by (λ g. g.count) gs)
    ++ lit "   distinct sequences: "
    ++ show (length gs)

-- summary.txt lists all groups of the sessions once, each with no more sessions than the one above it and,
-- where these are as many, with no more commands. The number of sessions with enough commands in its first
-- line is the sum of those of the groups it lists, and the number of sequences is that of the groups.
pub summary-IsRanked :
    (host : Host) (sha1 : Str → Str) (o : Options) (es : Dict Str Session)
    → (gs : List Group) × IsRanked (cluster sha1 o.min_cmds es).groups gs
      × (summary host (cluster sha1 o.min_cmds es) (length es) o
          ≡ first_line (length es) o.min_cmds gs
            ∷ title_line host
            ∷ map (summary_line host) (number_from 1 gs))
unfolding summary head_line
summary-IsRanked host sha1 o es =
    let gs : List Group = ordered (cluster sha1 o.min_cmds es).groups in
    (
      gs,
      ordered-IsRanked (cluster sha1 o.min_cmds es).groups,
      rw (sum_by-ordered sha1 o.min_cmds es) refl,
    )
