-- ===== src/Cluster/Laws.antt =====
-- The rules as a decision list, and the totals of the report.
use ssh_honeypot.Base.{ℕ, ◌+◌, ◌≡◌, refl, sym, ap, ◌∙◌, inl, inr, ◌⊎◌, Bool, true, false, ◌&&◌, not}
use ssh_honeypot.Base.{Option, List, [], ◌∷◌, ◌++◌, map, arith, all}
use ssh_honeypot.Base.{nat_eq, list_eq, Bool-cases, sum_by, length, member, sum_by-append}
use ssh_honeypot.Base.Dict.{get, upsert, get-upsert}
use ssh_honeypot.Base.Text.{Str, lit}
use ssh_honeypot.Cluster.{Shape, Rule, rules, first_match}
use ssh_honeypot.Cluster.Report.{
  Pattern, Buckets, cluster_of, bucket_all, order, rows, row_of, Row, or_empty, sessions_of, report,
}

abbrev pub misses : Shape → Rule → Bool
misses shape r = not (r.match_fn shape)

-- The rule that decides: all rules before it miss, and it matches.
pub record Decides (rs : List Rule) (shape : Shape) (result : Str × Str) : Type 0 where
  pub before : List Rule
  pub the_rule : Rule
  pub after : List Rule
  pub split : rs ≡ before ++ the_rule ∷ after
  pub earlier_miss : all (misses shape) before ≡ true
  pub hits : the_rule.match_fn shape ≡ true
  pub named : result ≡ (the_rule.id, the_rule.desc)

-- A shape gets the id and the description of the first rule that matches it, and the cluster TAIL
-- exactly where all rules miss.
pub first_match-Decides :
    (rs : List Rule) (shape : Shape)
    → Decides rs shape (first_match rs shape)
      ⊎ ((all (misses shape) rs ≡ true)
          × (first_match rs shape ≡ (lit "TAIL", lit "no rule matched")))
unfolding first_match
first_match-Decides [] shape = inr (refl, refl)
first_match-Decides (r ∷ rs) shape = elim (Bool-cases (r.match_fn shape)) [
  | inl hit ↦ inl (record {
    before = [];
    the_rule = r;
    after = rs;
    split = refl;
    earlier_miss = refl;
    hits = hit;
    named = rw hit;
  })
  | inr miss ↦ elim (first_match-Decides rs shape) [
    | inl d ↦ inl (record {
      before = r ∷ d.before;
      the_rule = d.the_rule;
      after = d.after;
      split = ap (◌∷◌ r) d.split;
      earlier_miss = rw miss d.earlier_miss;
      hits = d.hits;
      named = rw miss d.named;
    })
    | inr (none_hit, tail) ↦ inr (rw miss none_hit, rw miss tail)
  ]
]

-- No element stands twice.
abbrev pub nodup : List Str → Bool
nodup [] = true
nodup (x ∷ xs) = not (member x xs) && nodup xs

module _ (w : Pattern → ℕ) where
  -- The weight of the buckets of some clusters.
  abbrev bucket_sum : List Str → Buckets → ℕ
  bucket_sum cids b = sum_by (λ cid. sum_by w (or_empty (get cid b))) cids

  add_pattern : Pattern → Option (List Pattern) → List Pattern
  add_pattern p o = or_empty o ++ (p ∷ [])

  weight-add_pattern :
      (p : Pattern) (o : Option (List Pattern))
      → sum_by w (add_pattern p o) ≡ sum_by w (or_empty o) + w p
  unfolding add_pattern
  weight-add_pattern p o = rw sum_by-append (omega arith)

  bucket_sum-upsert_ne :
      (k : Str) (p : Pattern) (cids : List Str) (b : Buckets)
      → member k cids ≡ false
      → bucket_sum cids (upsert k (add_pattern p) b) ≡ bucket_sum cids b
  bucket_sum-upsert_ne k p [] b h = refl
  bucket_sum-upsert_ne k p (cid ∷ cids) b h =
      ground (arith, get-upsert cid k (add_pattern p) b, bucket_sum-upsert_ne k p cids b)

  bucket_sum-upsert :
      (k : Str) (p : Pattern) (cids : List Str) (b : Buckets)
      → member k cids ≡ true
      → nodup cids ≡ true
      → bucket_sum cids (upsert k (add_pattern p) b) ≡ bucket_sum cids b + w p
  bucket_sum-upsert k p [] b h d = cc
  bucket_sum-upsert k p (cid ∷ cids) b h d = ground (
    arith,
    get-upsert cid k (add_pattern p) b,
    weight-add_pattern p (get cid b),
    bucket_sum-upsert k p cids b,
    bucket_sum-upsert_ne k p cids b,
  )

  member-order :
      (rs : List Rule) (shape : Shape)
      → member (first_match rs shape).0 (map (λ r. r.id) rs ++ (lit "TAIL" ∷ [])) ≡ true
  unfolding first_match
  member-order [] shape = ground arith
  member-order (r ∷ rs) shape = ground (arith, member-order rs shape)

  bucket_sum-bucket_all :
      (rs : List Rule) (ps : List Pattern) (b : Buckets)
      → nodup (order rs) ≡ true
      → bucket_sum (order rs) (bucket_all rs b ps) ≡ bucket_sum (order rs) b + sum_by w ps
  unfolding bucket_all add_pattern
  bucket_sum-bucket_all rs [] b d = omega arith
  bucket_sum-bucket_all rs (p ∷ ps) b d =
      bucket_sum-bucket_all rs ps (upsert (cluster_of rs p) (add_pattern p) b) d
      ∙ omega (
        arith,
        bucket_sum-upsert (cluster_of rs p) p (order rs) b
            (unfold order in member-order rs p.command_shape) d,
      )

  bucket_sum-nil : (cids : List Str) → bucket_sum cids [] ≡ 0
  unfolding get
  bucket_sum-nil [] = refl
  bucket_sum-nil (c ∷ cids) = omega (arith, bucket_sum-nil cids)

-- A measure of the rows that is, on each row, the weight of its patterns.
module _ (m : Row → ℕ) (w : Pattern → ℕ)
    (agree : (cid : Str) (ps : List Pattern) → sum_by m (row_of cid ps) ≡ sum_by w ps) where
  sum_by-rows : (cids : List Str) (b : Buckets) → sum_by m (rows cids b) ≡ bucket_sum w cids b
  unfolding rows
  sum_by-rows [] b = refl
  sum_by-rows (cid ∷ cids) b =
      rw (sum_by-append, sum_by-rows cids b, agree cid (or_empty (get cid b)))

  sum_by-report_of :
      (rs : List Rule) (ps : List Pattern)
      → nodup (order rs) ≡ true
      → sum_by m (rows (order rs) (bucket_all rs [] ps)) ≡ sum_by w ps
  sum_by-report_of rs ps d =
      sum_by-rows (order rs) (bucket_all rs [] ps)
      ∙ bucket_sum-bucket_all w rs ps [] d
      ∙ omega (arith, bucket_sum-nil w (order rs))

sessions-row_of :
    (cid : Str) (ps : List Pattern)
    → sum_by (λ (r : Row). r.sessions) (row_of cid ps)
      ≡ sum_by (λ (p : Pattern). p.session_count) ps
unfolding row_of sessions_of
sessions-row_of cid [] = refl
sessions-row_of cid (p ∷ ps) = omega arith

length-eq-sum : (ps : List Pattern) → length ps ≡ sum_by (λ (p : Pattern). 1) ps
length-eq-sum [] = refl
length-eq-sum (p ∷ ps) = omega (arith, length-eq-sum ps)

patterns-row_of :
    (cid : Str) (ps : List Pattern)
    → sum_by (λ (r : Row). r.patterns) (row_of cid ps) ≡ sum_by (λ (p : Pattern). 1) ps
unfolding row_of
patterns-row_of cid [] = refl
patterns-row_of cid (p ∷ ps) = omega (arith, length-eq-sum ps)

order-nodup : nodup (order rules) ≡ true
unfolding order rules lit list_eq nat_eq
order-nodup = refl

-- The rows of the report account for every pattern and every session of the input.
pub report_totals :
    (ps : List Pattern)
    → (sum_by (λ (r : Row). r.patterns) (report ps) ≡ length ps)
      × (sum_by (λ (r : Row). r.sessions) (report ps)
          ≡ sum_by (λ (p : Pattern). p.session_count) ps)
unfolding report
report_totals ps = (
  sum_by-report_of _ _ patterns-row_of rules ps order-nodup ∙ sym (length-eq-sum ps),
  sum_by-report_of _ _ sessions-row_of rules ps order-nodup,
)
