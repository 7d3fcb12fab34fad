-- ===== src/Stats/Counts.antt =====
-- What the counters of analysis/stats.py add up to.
use Prim.Native.String.{String}
use ssh_honeypot.Base.{
  ℕ, ◌+◌, ◌≡◌, refl, ◌∙◌, inl, inr, Bool, false, ◌&&◌, ◌||◌, not, Option, none, some, List, [], ◌∷◌,
  ◌++◌, arith,
}
use ssh_honeypot.Base.{
  if◌then◌else◌, length, count_by, sum_by, ◌==◌, nat_eq, list_eq, pair_eq, Bool-cases,
  length-append,
}
use ssh_honeypot.Base.Dict.{Dict, total, total-incr, get, sum_by-upsert, measure_of}
use ssh_honeypot.Base.Text.{Str, lit}
use ssh_honeypot.Cluster.Report.{or_empty}
use ssh_honeypot.Log.{Rec, field, kind}
use ssh_honeypot.Passwords.{is_attempt}
use ssh_honeypot.Stats.{
  Auth, count_attempt, read_attempt, read_auth, no_auth, add_spray, strip_port,
}

abbrev pub attempt_with : String → Rec → Bool
attempt_with key r = is_attempt (kind r) && not (field key "" r == [])

-- The attempts that the report of sprays looks at.
abbrev pub is_full : Rec → Bool
is_full r =
    is_attempt (kind r)
    && not (
        field "password" "" r == []
        || field "user" "" r == []
        || field "remote" "" r == []
        || field "time" "" r == [])

abbrev pub ends_as : String → Rec → Bool
ends_as outcome r = is_attempt (kind r) && field "outcome" "" r == lit outcome

-- How many attempts the buckets hold.
abbrev pub bucketed : Dict (Str × Str) (List (Str × Str)) → ℕ
bucketed = sum_by (λ (e : (Str × Str) × List (Str × Str)). length e.1)

length-or_empty :
    (o : Option (List (Str × Str))) (x : Str × Str)
    → length (or_empty o ++ (x ∷ [])) ≡ measure_of (λ (xs : List (Str × Str)). length xs) o + 1
length-or_empty none x = refl
length-or_empty (some xs) x = length-append xs (x ∷ [])

bucketed-add_spray :
    (pw user remote ts : Str) (d : Dict (Str × Str) (List (Str × Str)))
    → bucketed (add_spray pw user remote ts d)
      ≡ bucketed d + (if not (pw == [] || user == [] || remote == [] || ts == []) then 1 else 0)
unfolding add_spray
bucketed-add_spray pw user remote ts d =
    elim (Bool-cases (pw == [] || user == [] || remote == [] || ts == [])) [
      | inl e ↦ rw e (omega arith)
      | inr e ↦ rw e (
          omega (
            arith,
            sum_by-upsert (λ (xs : List (Str × Str)). length xs) (pw, user)
                (λ o. or_empty o ++ ((ts, strip_port remote) ∷ [])) d,
            length-or_empty (get (pw, user) d) (ts, strip_port remote),
          ))
    ]

-- How often a test holds, for one record.
abbrev once : (Rec → Bool) → Rec → ℕ
once p r = if p r then 1 else 0

outcomes_differ : (lit "accepted" == lit "rejected") ≡ false
unfolding lit list_eq nat_eq
outcomes_differ = refl

accepted-read_attempt :
    (r : Rec) (a : Auth) → (read_attempt r a).accepted ≡ a.accepted + once (ends_as "accepted") r
unfolding read_attempt count_attempt
accepted-read_attempt r a = ground arith

rejected-read_attempt :
    (r : Rec) (a : Auth) → (read_attempt r a).rejected ≡ a.rejected + once (ends_as "rejected") r
unfolding read_attempt count_attempt
rejected-read_attempt r a = ground (arith, outcomes_differ)

passwords-read_attempt :
    (r : Rec) (a : Auth)
    → total (read_attempt r a).passwords ≡ total a.passwords + once (attempt_with "password") r
unfolding read_attempt count_attempt
passwords-read_attempt r a = ground (arith, total-incr (field "password" "" r) a.passwords)

source_ips-read_attempt :
    (r : Rec) (a : Auth)
    → total (read_attempt r a).source_ips ≡ total a.source_ips + once (attempt_with "remote") r
unfolding read_attempt count_attempt
source_ips-read_attempt r a =
    ground (arith, total-incr (strip_port (field "remote" "" r)) a.source_ips)

buckets-read_attempt :
    (r : Rec) (a : Auth)
    → bucketed (read_attempt r a).spray_buckets ≡ bucketed a.spray_buckets + once is_full r
unfolding read_attempt count_attempt
buckets-read_attempt r a = ground (
  arith,
  bucketed-add_spray (field "password" "" r) (field "user" "" r) (field "remote" "" r)
      (field "time" "" r) a.spray_buckets,
)

-- A quantity that every record changes by the number of times that a test holds of it.
read_auth-count :
    (quantity : Auth → ℕ) (test : Rec → Bool)
    → ((r : Rec) (a : Auth) → quantity (read_attempt r a) ≡ quantity a + once test r)
    → (rs : List Rec) (a : Auth) → quantity (read_auth a rs) ≡ quantity a + count_by test rs
unfolding read_auth
read_auth-count quantity test step [] a = omega arith
read_auth-count quantity test step (r ∷ rs) a =
    read_auth-count quantity test step rs (read_attempt r a) ∙ omega (arith, step r a)

-- The loop of stats.py over auth.log counts the attempts by outcome, and those that have a
-- password and those that have an address; the spray buckets hold as many entries as there are
-- attempts with a password, user, address and time.
pub read_auth_counts :
    (rs : List Rec)
    → ((read_auth no_auth rs).accepted ≡ count_by (ends_as "accepted") rs)
      × ((read_auth no_auth rs).rejected ≡ count_by (ends_as "rejected") rs)
      × (total (read_auth no_auth rs).passwords ≡ count_by (attempt_with "password") rs)
      × (total (read_auth no_auth rs).source_ips ≡ count_by (attempt_with "remote") rs)
      × (bucketed (read_auth no_auth rs).spray_buckets ≡ count_by is_full rs)
unfolding no_auth
read_auth_counts rs = (
  read_auth-count (λ a. a.accepted) _ accepted-read_attempt rs no_auth ∙ omega arith,
  read_auth-count (λ a. a.rejected) _ rejected-read_attempt rs no_auth ∙ omega arith,
  read_auth-count (λ a. total a.passwords) _ passwords-read_attempt rs no_auth ∙ omega arith,
  read_auth-count (λ a. total a.source_ips) _ source_ips-read_attempt rs no_auth ∙ omega arith,
  read_auth-count (λ a. bucketed a.spray_buckets) _ buckets-read_attempt rs no_auth ∙ omega arith,
)
