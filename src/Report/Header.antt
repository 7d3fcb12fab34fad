-- ===== src/Report/Header.antt =====
-- `load`, `render_header` and `render_heatmap` of analysis/report.py.
use Prim.Native.String.{String}
use ssh_honeypot.Base.{
  ℕ, zero, suc, ◌-◌, Bool, true, false, Option, none, some, List, [], ◌∷◌, ◌++◌, map,
}
use ssh_honeypot.Base.{
  if◌then◌else◌, count_by, length, ltb, replicate, ◌==◌, nat_eq, list_eq, option_eq, ◌&&◌,
}
use ssh_honeypot.Base.Dict.{Dict, incr, count_of}
use ssh_honeypot.Base.Distinct.{distinct_onto}
use ssh_honeypot.Base.Text.{Str, lit, before_first, show, rjust}
use ssh_honeypot.Log.{Rec, field?, kind, is_command, load_jsonlines}
use ssh_honeypot.Passwords.{is_attempt}
use ssh_honeypot.Periods.{replace_z}

-- `datetime.fromisoformat` in microseconds, `strftime("%Y-%m-%d %H:%M UTC")`, a number of microseconds as
-- hours with one decimal, the hour of a time, and `int(n / peak * width)`.
pub record Clock : Type 0 where
  pub parse_iso : Str → Option ℕ
  pub stamp : ℕ → Str
  pub hours : ℕ → Str
  pub hour : ℕ → ℕ
  pub scaled : ℕ → ℕ → ℕ → ℕ

-- `_c`
unfoldable pub paint : Bool → String → Str → Str
paint no_color code s =
    if no_color then s else (27 ∷ lit "[") ++ lit code ++ lit "m" ++ s ++ (27 ∷ lit "[0m")

-- `load`: the records of auth.log and session.log.
unfoldable pub load :
    (Str → Option Rec) → Option (List Str) → Option (List Str) → List Rec × List Rec
load loads auth sess = (load_jsonlines loads auth, load_jsonlines loads sess)

unfoldable pub add_address : Option Str → List Str → List Str
add_address none ips = ips
add_address (some r) ips = before_first 58 r ∷ ips

-- The addresses of the attempts that have one.
unfoldable pub addresses : List Rec → List Str
addresses [] = []
addresses (e ∷ es) =
    let rest = addresses es in
    if is_attempt (kind e) then add_address (field? "remote" e) rest else rest

unfoldable pub is_some : Option Str → Bool
is_some none = false
is_some (some s) = true

unfoldable pub is_accepted : Rec → Bool
is_accepted e = field? "outcome" e == some (lit "accepted")

-- `min` and `max`, of no times nothing.
unfoldable pub least : ℕ → List ℕ → ℕ
least m [] = m
least m (t ∷ ts) = least (if ltb t m then t else m) ts

unfoldable pub most : ℕ → List ℕ → ℕ
most m [] = m
most m (t ∷ ts) = most (if ltb m t then t else m) ts

unfoldable pub span_of : List ℕ → Option (ℕ × ℕ)
span_of [] = none
span_of (t ∷ ts) = some (least t ts, most t ts)

-- The numbers of a header.
pub record Numbers : Type 0 where
  pub attempts : ℕ
  pub ips : ℕ
  pub accepted : ℕ
  pub span : Option (ℕ × ℕ)

unfoldable pub captured : List Rec → ℕ
captured sess = count_by (λ e. is_command (kind e) && is_some (field? "command" e)) sess

module _ (clock : Clock) where
  unfoldable pub parse_time : Option Str → Option ℕ
  parse_time none = none
  parse_time (some t) = clock.parse_iso (replace_z t)

  unfoldable pub add_time : Option ℕ → List ℕ → List ℕ
  add_time none ts = ts
  add_time (some t) ts = t ∷ ts

  unfoldable pub times : List Rec → List ℕ
  times [] = []
  times (e ∷ es) = add_time (parse_time (field? "time" e)) (times es)

  unfoldable pub numbers : List Rec → Numbers
  numbers auth = record {
    attempts = count_by (λ e. is_attempt (kind e)) auth;
    ips = length (distinct_onto [] (addresses auth));
    accepted = count_by is_accepted auth;
    span = span_of (times auth);
  }

  unfoldable pub span_text : Option (ℕ × ℕ) → Str
  span_text none = lit "no timestamps"
  span_text (some (t0, t1)) =
      clock.stamp t0
      ++ lit "  ->  "
      ++ clock.stamp t1
      ++ lit "  ("
      ++ clock.hours (t1 - t0)
      ++ lit "h)"

  module _ (no_color : Bool) where
    abbrev bold : Str → Str
    bold = paint no_color "1"

    abbrev cyan : Str → Str
    cyan = paint no_color "96"

    abbrev dim : Str → Str
    dim = paint no_color "2"

    unfoldable pub column : (Str → Str) → ℕ → String → Str
    column color n label = lit "  " ++ rjust 10 (color (show n)) ++ lit "  " ++ lit label

    unfoldable pub render_header : List Rec → List Rec → List Str
    render_header auth sess =
        let n = numbers auth in
        let rule = bold (cyan (replicate 62 61)) in
        let accepted_color : Str → Str = if ltb 0 n.accepted then paint no_color "92" else bold in
        []
        ∷ rule
        ∷ bold (cyan (lit "  SSH HONEYPOT -- ATTACK REPORT"))
        ∷ rule
        ∷ (lit "  " ++ dim (span_text n.span))
        ∷ []
        ∷ column bold n.attempts "auth attempts"
        ∷ column bold n.ips "source IPs"
        ∷ column accepted_color n.accepted "sessions accepted"
        ∷ column bold (captured sess) "commands captured"
        ∷ []
        ∷ rule
        ∷ []
        ∷ []

    -- `render_heatmap`
    unfoldable pub add_hour : Option ℕ → Dict ℕ ℕ → Dict ℕ ℕ
    add_hour none d = d
    add_hour (some t) d = incr (clock.hour t) d

    unfoldable pub by_hour : Dict ℕ ℕ → List Rec → Dict ℕ ℕ
    by_hour d [] = d
    by_hour d (e ∷ es) =
        by_hour (if is_attempt (kind e) then add_hour (parse_time (field? "time" e)) d else d) es

    unfoldable pub peak : Dict ℕ ℕ → ℕ
    peak d = most 0 (map (λ e. e.1) d)

    -- `f"{h:02d}"`
    unfoldable pub two_digits : ℕ → Str
    two_digits h = if ltb h 10 then lit "0" ++ show h else show h

    -- The peak is never 0 here.
    unfoldable pub hour_line : Dict ℕ ℕ → ℕ → Str
    hour_line d h =
        let n = count_of h d in
        let filled = clock.scaled n (peak d) 38 in
        lit "  "
        ++ two_digits h
        ++ lit "  "
        ++ paint no_color "91" (replicate filled 35)
        ++ dim (replicate (38 - filled) 46)
        ++ lit "  "
        ++ show n

    unfoldable pub hours_upto : ℕ → List ℕ
    hours_upto zero = []
    hours_upto (suc n) = hours_upto n ++ (n ∷ [])

    unfoldable pub render_heatmap : List Rec → List Str
    render_heatmap auth = elim (by_hour [] auth) [
      | [] ↦ []
      | e ∷ d ↦
          (bold (lit "HOURLY ACTIVITY") ++ dim (lit "  (UTC, auth attempts)"))
          ∷ []
          ∷ (map (hour_line (e ∷ d)) (hours_upto 24) ++ ([] ∷ []))
    ]
