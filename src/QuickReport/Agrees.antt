-- ===== src/QuickReport/Agrees.antt =====
-- The numbers of analysis/quick-report.py and of `render_header` in analysis/report.py.
use mathlib.Core.Path.{subst}
use ssh_honeypot.Base.{
  ℕ, ◌+◌, ◌≡◌, ◌≢◌, refl, sym, ap, ◌∙◌, true, Option, none, some, List, [], ◌∷◌, arith,
}
use ssh_honeypot.Base.{All, if◌then◌else◌, ltb, count_by, nat_eq, list_eq, option_eq}
use ssh_honeypot.Base.Distinct.{distinct_onto}
use ssh_honeypot.Base.Text.{Str}
use ssh_honeypot.Log.{Rec, field?, kind}
use ssh_honeypot.Passwords.{is_attempt}
use ssh_honeypot.Periods.{replace_z}
use ssh_honeypot.QuickReport.{
  Quick, start, add_remote, lower, higher, time_of, read_attempt, read_auth, both, numbers_of,
}
use ssh_honeypot.Report.Header.{
  Clock, add_address, addresses, is_accepted, least, most, span_of, parse_time, add_time, times,
  numbers,
}

-- An attempt whose address, if there is one, is not empty.
abbrev pub IsRegular : Rec → Type 0
IsRegular e = (is_attempt (kind e) ≡ true) × (field? "remote" e ≢ some [])

add_remote-distinct_onto :
    (o : Option Str) (ips rest : List Str)
    → o ≢ some []
    → distinct_onto (add_remote o ips) rest ≡ distinct_onto ips (add_address o rest)
unfolding add_remote add_address distinct_onto list_eq
add_remote-distinct_onto none ips rest h = refl
add_remote-distinct_onto (some []) ips rest h = absurd (h refl)
add_remote-distinct_onto (some (c ∷ r)) ips rest h = refl

low_all : Option ℕ → List ℕ → Option ℕ
low_all o [] = o
low_all o (t ∷ ts) = low_all (lower (some t) o) ts

high_all : Option ℕ → List ℕ → Option ℕ
high_all o [] = o
high_all o (t ∷ ts) = high_all (higher (some t) o) ts

low_all-some : (m : ℕ) (ts : List ℕ) → low_all (some m) ts ≡ some (least m ts)
unfolding low_all lower least
low_all-some m [] = refl
low_all-some m (t ∷ ts) = low_all-some (if ltb t m then t else m) ts

high_all-some : (m : ℕ) (ts : List ℕ) → high_all (some m) ts ≡ some (most m ts)
unfolding high_all higher most
high_all-some m [] = refl
high_all-some m (t ∷ ts) = high_all-some (if ltb m t then t else m) ts

both-span_of :
    (clock : Clock) (ts : List ℕ) → both clock (low_all none ts) (high_all none ts) ≡ span_of ts
unfolding low_all high_all lower higher both span_of
both-span_of clock [] = refl
both-span_of clock (t ∷ ts) = rw (low_all-some t ts, high_all-some t ts) refl

module _ (clock : Clock) (no_empty : clock.parse_iso [] ≡ none) where
  time_of-parse_time : (o : Option Str) → time_of clock o ≡ parse_time clock o
  unfolding time_of parse_time replace_z list_eq
  time_of-parse_time none = refl
  time_of-parse_time (some []) = sym no_empty
  time_of-parse_time (some (c ∷ t)) = refl

  low-add_time :
      (o : Option ℕ) (t : Option ℕ) (ts : List ℕ)
      → low_all (lower t o) ts ≡ low_all o (add_time clock t ts)
  unfolding add_time lower low_all
  low-add_time o none ts = refl
  low-add_time o (some t) ts = refl

  high-add_time :
      (o : Option ℕ) (t : Option ℕ) (ts : List ℕ)
      → high_all (higher t o) ts ≡ high_all o (add_time clock t ts)
  unfolding add_time higher high_all
  high-add_time o none ts = refl
  high-add_time o (some t) ts = refl

  -- What the loop keeps behind some records, from what it kept before.
  record Tracks (st : Quick) (es : List Rec) (out : Quick) : Type 0 where
    attempts : out.attempts ≡ st.attempts + count_by (λ e. is_attempt (kind e)) es
    accepted : out.accepted ≡ st.accepted + count_by is_accepted es
    ips : out.ips ≡ distinct_onto st.ips (addresses es)
    tmin : out.tmin ≡ low_all st.tmin (times clock es)
    tmax : out.tmax ≡ high_all st.tmax (times clock es)

  read_auth-Tracks :
      (st : Quick) (es : List Rec) → All IsRegular es → Tracks st es (read_auth clock st es)
  unfolding read_auth read_attempt is_accepted addresses times distinct_onto low_all high_all
  read_auth-Tracks st [] h = record {
    attempts = omega arith;
    accepted = omega arith;
    ips = refl;
    tmin = refl;
    tmax = refl;
  }
  read_auth-Tracks st (e ∷ es) ((a, r), h) =
      let next : Quick = read_attempt clock e st in
      let rest : Tracks next es (read_auth clock next es) = read_auth-Tracks next es h in
      let here_count : ℕ = if is_attempt (kind e) then 1 else 0 in
      let one : here_count ≡ 1 = rw a refl in
      let taken : read_auth clock st (e ∷ es) ≡ read_auth clock next es = rw a refl in
      let here : addresses (e ∷ es) ≡ add_address (field? "remote" e) (addresses es) = rw a refl in
      let t : time_of clock (field? "time" e) ≡ parse_time clock (field? "time" e) =
        time_of-parse_time (field? "time" e) in
      subst (Tracks st (e ∷ es)) (sym taken) (record {
        attempts = omega (arith, rest.attempts, one);
        accepted = omega (arith, rest.accepted);
        ips =
            rest.ips
            ∙ add_remote-distinct_onto (field? "remote" e) st.ips (addresses es) r
            ∙ ap (distinct_onto st.ips) (sym here);
        tmin =
            rest.tmin
            ∙ low-add_time st.tmin (time_of clock (field? "time" e)) (times clock es)
            ∙ ap (λ x. low_all st.tmin (add_time clock x (times clock es))) t;
        tmax =
            rest.tmax
            ∙ high-add_time st.tmax (time_of clock (field? "time" e)) (times clock es)
            ∙ ap (λ x. high_all st.tmax (add_time clock x (times clock es))) t;
      })

  -- Where every record of auth.log is an attempt, no address is empty, and `fromisoformat` refuses the empty
  -- text, quick-report.py and `render_header` have the same attempts, addresses, accepted attempts and span.
  pub numbers_of-eq-numbers :
      (auth : List Rec)
      → All IsRegular auth
      → numbers_of clock (read_auth clock start auth) ≡ numbers clock auth
  unfolding numbers_of numbers start
  numbers_of-eq-numbers auth h =
      let t : Tracks start auth (read_auth clock start auth) = read_auth-Tracks start auth h in
      let n : (read_auth clock start auth).attempts ≡ count_by (λ e. is_attempt (kind e)) auth =
        t.attempts ∙ omega arith in
      let k : (read_auth clock start auth).accepted ≡ count_by is_accepted auth =
        t.accepted ∙ omega arith in
      rw (n, k, t.ips, t.tmin, t.tmax, both-span_of clock (times clock auth)) refl
