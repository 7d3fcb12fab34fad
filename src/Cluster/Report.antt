-- ===== src/Cluster/Report.antt =====
-- The tables of `main` in analysis/cluster.py: patterns in buckets by cluster, and for each cluster in
-- the order of the rules its counts, its representative and a sample of addresses.
use ssh_honeypot.Base.{ℕ, ◌+◌, Option, none, some, List, [], ◌∷◌, ◌++◌, map, sum_by, length}
use ssh_honeypot.Base.{if◌then◌else◌, ltb, member, nat_eq, list_eq, take, drop}
use ssh_honeypot.Base.Dict.{Dict, get, upsert}
use ssh_honeypot.Base.Sort.{sort}
use ssh_honeypot.Base.Text.{Str, lit, join, show}
use ssh_honeypot.Cluster.{Shape, Rule, rules, first_match}

-- An entry of unique_patterns.json.
pub record Pattern : Type 0 where
  pub fingerprint_id : Str
  pub session_count : ℕ
  pub ip_count : ℕ
  pub command_shape : Shape
  pub example_raw : List Str
  pub example_ips : List Str

abbrev pub Buckets : Type 0
Buckets = Dict Str (List Pattern)

abbrev pub or_empty {ℓ} : {A : Type ℓ} → Option (List A) → List A
or_empty none = []
or_empty (some xs) = xs

module _ (rs : List Rule) where
  abbrev pub cluster_of : Pattern → Str
  cluster_of p = (first_match rs p.command_shape).0

  -- The loop "classify": `buckets[cid].append(p)`.
  unfoldable pub bucket_all : Buckets → List Pattern → Buckets
  bucket_all b [] = b
  bucket_all b (p ∷ ps) = bucket_all (upsert (cluster_of p) (λ o. or_empty o ++ (p ∷ [])) b) ps

  -- `order`
  unfoldable pub order : List Str
  order = map (λ r. r.id) rs ++ (lit "TAIL" ∷ [])

-- The sample of source addresses: eight distinct ones at most, over the patterns by falling number
-- of sessions. `sample_one` is the loop over the addresses of one pattern, with its break.
unfoldable pub sample_one : List Str → List Str → List Str
sample_one seen [] = seen
sample_one seen (ip ∷ ips) =
    let seen' : List Str = if member ip seen then seen else seen ++ (ip ∷ []) in
    let rest = sample_one seen' ips in if ltb (length seen') 8 then rest else seen'

unfoldable pub sample : List Str → List Pattern → List Str
sample seen [] = seen
sample seen (p ∷ ps) =
    let seen' = sample_one seen p.example_ips in
    let rest = sample seen' ps in if ltb (length seen') 8 then rest else seen'

-- `sorted(ps, key=lambda x: x["session_count"], reverse=True)`, which keeps the order of equals.
unfoldable pub by_sessions : List Pattern → List Pattern
by_sessions = sort (λ a b. ltb b.session_count a.session_count)

-- `max(ps, key=…)`: the first pattern with the largest count.
unfoldable pub heaviest : Pattern → List Pattern → Pattern
heaviest p [] = p
heaviest p (q ∷ qs) = heaviest (if ltb p.session_count q.session_count then q else p) qs

pub record Row : Type 0 where
  pub cluster : Str
  pub patterns : ℕ
  pub sessions : ℕ
  pub ips : List Str
  pub representative : Pattern

unfoldable pub sessions_of : List Pattern → ℕ
sessions_of = sum_by (λ p. p.session_count)

unfoldable pub row_of : Str → List Pattern → List Row
row_of cid [] = []
row_of cid (p ∷ ps) =
    record {
      cluster = cid;
      patterns = length (p ∷ ps);
      sessions = sessions_of (p ∷ ps);
      ips = sample [] (by_sessions (p ∷ ps));
      representative = heaviest p ps;
    }
    ∷ []

-- The loop `for cid in order`, where a cluster with no bucket is left out.
unfoldable pub rows : List Str → Buckets → List Row
rows [] b = []
rows (cid ∷ cids) b = row_of cid (or_empty (get cid b)) ++ rows cids b

unfoldable pub report : List Pattern → List Row
report data_ = rows (order rules) (bucket_all rules [] data_)

-- `_fmt_shape` and `_fmt_raw`.
unfoldable pub numbered : ℕ → List Str → List Str
numbered i [] = []
numbered i (cmd ∷ cmds) =
    (lit "  " ++ show (i + 1) ++ lit ". " ++ take 120 cmd) ∷ numbered (i + 1) cmds

unfoldable pub fmt_shape : ℕ → Shape → Str
fmt_shape n [] = lit "  (empty)"
fmt_shape n (c ∷ cs) =
    let more : List Str =
      if ltb n (length (c ∷ cs))
      then (lit "  ... (" ++ show (length (drop n (c ∷ cs))) ++ lit " more entries)") ∷ []
      else [] in
    join (10 ∷ []) (numbered 0 (take n (c ∷ cs)) ++ more)

unfoldable pub fmt_raw : ℕ → List Str → Str
fmt_raw n [] = lit "  (no commands)"
fmt_raw n (c ∷ cs) =
    let more : List Str =
      if ltb n (length (c ∷ cs))
      then (lit "  ... (" ++ show (length (drop n (c ∷ cs))) ++ lit " more)") ∷ []
      else [] in
    join (10 ∷ []) (map (λ cmd. lit "  > " ++ take 140 cmd) (take n (c ∷ cs)) ++ more)
