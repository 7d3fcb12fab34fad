-- ===== src/QuickReport.antt =====
-- analysis/quick-report.py: the header of the report, from a pass over the lines.
pub mod Agrees
use Prim.Native.String.{String}
use ssh_honeypot.Base.{
  ℕ, ◌+◌, ◌-◌, Bool, true, false, ◌&&◌, ◌||◌, Option, none, some, List, [], ◌∷◌, ◌++◌,
}
use ssh_honeypot.Base.{
  if◌then◌else◌, length, ltb, count_by, replicate, ◌==◌, nat_eq, list_eq, option_eq,
}
use ssh_honeypot.Base.Distinct.{add_new}
use ssh_honeypot.Base.Text.{Str, lit, before_first, contains, show, rjust}
use ssh_honeypot.Log.{Rec, field?, kind, load_jsonlines, lines_of}
use ssh_honeypot.Passwords.{is_attempt}
use ssh_honeypot.Periods.{replace_z}
use ssh_honeypot.Report.Header.{Clock, Numbers}

-- What the loop over auth.log keeps; the set of addresses is a list without repeats.
pub record Quick : Type 0 where
  pub attempts : ℕ
  pub accepted : ℕ
  pub ips : List Str
  pub tmin : Option ℕ
  pub tmax : Option ℕ

unfoldable pub start : Quick
start = record { attempts = 0; accepted = 0; ips = []; tmin = none; tmax = none }

-- `if r: ips.add(r.split(":")[0])`
unfoldable pub add_remote : Option Str → List Str → List Str
add_remote none ips = ips
add_remote (some r) ips = if r == [] then ips else add_new ips (before_first 58 r)

unfoldable pub lower : Option ℕ → Option ℕ → Option ℕ
lower none o = o
lower (some t) none = some t
lower (some t) (some m) = some (if ltb t m then t else m)

unfoldable pub higher : Option ℕ → Option ℕ → Option ℕ
higher none o = o
higher (some t) none = some t
higher (some t) (some m) = some (if ltb m t then t else m)

-- The two fields that are read of session.log, in a line of bytes.
unfoldable pub is_captured : Str → Bool
is_captured line =
    contains line (lit "\"command\":")
    && (contains line (lit "\"msg\":\"shell\"") || contains line (lit "\"msg\":\"exec\""))

unfoldable pub commands : Option (List Str) → ℕ
commands file = count_by is_captured (lines_of file)

module _ (clock : Clock) where
  unfoldable pub time_of : Option Str → Option ℕ
  time_of none = none
  time_of (some t) = if t == [] then none else clock.parse_iso (replace_z t)

  -- The body of the loop for a record that is an attempt.
  unfoldable pub read_attempt : Rec → Quick → Quick
  read_attempt e st =
      let t = time_of (field? "time" e) in
      record {
        attempts = st.attempts + 1;
        accepted = st.accepted + (if field? "outcome" e == some (lit "accepted") then 1 else 0);
        ips = add_remote (field? "remote" e) st.ips;
        tmin = lower t st.tmin;
        tmax = higher t st.tmax;
      }

  unfoldable pub read_auth : Quick → List Rec → Quick
  read_auth st [] = st
  read_auth st (e ∷ es) = read_auth (if is_attempt (kind e) then read_attempt e st else st) es

  -- `if tmin and tmax`
  unfoldable pub both : Option ℕ → Option ℕ → Option (ℕ × ℕ)
  both (some t0) (some t1) = some (t0, t1)
  both (some t0) none = none
  both none _ = none

  unfoldable pub numbers_of : Quick → Numbers
  numbers_of st = record {
    attempts = st.attempts;
    ips = length st.ips;
    accepted = st.accepted;
    span = both st.tmin st.tmax;
  }

  unfoldable pub span_text : Option (ℕ × ℕ) → Str
  span_text none = lit "no timestamps"
  span_text (some (t0, t1)) =
      clock.stamp t0
      ++ lit "  ->  "
      ++ clock.stamp t1
      ++ lit "  ("
      ++ clock.hours (t1 - t0)
      ++ lit "h)"

  unfoldable pub column : ℕ → String → Str
  column n label = lit "  " ++ rjust 10 (show n) ++ lit "  " ++ lit label

  unfoldable pub quick_report :
      (Str → Option Rec) → Option (List Str) → Option (List Str) → List Str
  quick_report loads auth sess =
      let n = numbers_of (read_auth start (load_jsonlines loads auth)) in
      let rule = replicate 62 61 in
      []
      ∷ rule
      ∷ lit "  SSH HONEYPOT -- ATTACK REPORT"
      ∷ rule
      ∷ (lit "  " ++ span_text n.span)
      ∷ []
      ∷ column n.attempts "auth attempts"
      ∷ column n.ips "source IPs"
      ∷ column n.accepted "sessions accepted"
      ∷ column (commands sess) "commands captured"
      ∷ []
      ∷ rule
      ∷ []
      ∷ []
