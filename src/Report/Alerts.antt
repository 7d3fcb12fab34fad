-- ===== src/Report/Alerts.antt =====
-- `render_alerts` of analysis/report.py: what the lines of the alerts depend on. An accepted attempt has
-- a timestamp, as the server writes it.
use Prim.Native.String.{String}
use ssh_honeypot.Base.{ℕ, Bool, ◌&&◌, not, Option, none, some, List, [], ◌∷◌, ◌++◌, map}
use ssh_honeypot.Base.{if◌then◌else◌, any, select, count_by, leb, ltb, ◌==◌, nat_eq, list_eq}
use ssh_honeypot.Base.Dict.{Dict, upsert}
use ssh_honeypot.Base.Distinct.{distinct_onto}
use ssh_honeypot.Base.Text.{Str, lit, contains, str_ltb}
use ssh_honeypot.Cluster.Report.{or_empty}
use ssh_honeypot.Log.{Rec, field, kind, is_command}
use ssh_honeypot.Passwords.{is_attempt}
use ssh_honeypot.Periods.Metrics.{ip_of, count_all}
use ssh_honeypot.Report.{classify}

unfoldable pub uploads_by_scp : Rec → Bool
uploads_by_scp e =
    is_command (kind e)
    && contains (field "command" "" e) (lit "scp")
    && contains (field "command" "" e) (lit "-t")

unfoldable pub scp_sids : List Rec → List Str
scp_sids sess = distinct_onto [] (map (λ e. field "sid" "" e) (select uploads_by_scp sess))

-- `by_ip`
unfoldable pub group_by_ip : Dict Str (List Rec) → List Rec → Dict Str (List Rec)
group_by_ip d [] = d
group_by_ip d (e ∷ es) =
    group_by_ip
      (if is_attempt (kind e) then upsert (ip_of e) (λ o. or_empty o ++ (e ∷ [])) d else d) es

abbrev pub has_outcome : String → Rec → Bool
has_outcome outcome e = field "outcome" "" e == lit outcome

-- `accepted_times[0]`, the least of them.
unfoldable pub earliest : Option Str → List Rec → Option Str
earliest o [] = o
earliest none (e ∷ es) = earliest (some (field "time" "" e)) es
earliest (some ts) (e ∷ es) =
    earliest (some (if str_ltb (field "time" "" e) ts then field "time" "" e else ts)) es

unfoldable pub rejected_after : Option Str → List Rec → ℕ
rejected_after none events = 0
rejected_after (some ts) events =
    count_by (λ e. has_outcome "rejected" e && str_ltb ts (field "time" "" e)) events

unfoldable pub attempts_after_accept : List Rec → ℕ
attempts_after_accept events =
    rejected_after (earliest none (select (has_outcome "accepted") events)) events

-- The addresses of the feedback loops, with their number of attempts.
unfoldable pub feedback_loops : Dict Str (List Rec) → List (Str × ℕ)
feedback_loops [] = []
feedback_loops ((ip, events) ∷ d) =
    let rest = feedback_loops d in
    let after = attempts_after_accept events in if leb 5 after then (ip, after) ∷ rest else rest

unfoldable pub high_volume : List Rec → List (Str × ℕ)
high_volume auth =
    select (λ e. ltb 300 e.1) (count_all ip_of [] (select (λ e. is_attempt (kind e)) auth))

-- The prediction of the next phases.
unfoldable pub phase_seen : String → List Rec → Bool
phase_seen phase sess =
    any (λ e. is_command (kind e) && lit (classify (field "command" "" e)) == lit phase) sess

unfoldable pub watch_for : List Rec → List String
watch_for sess =
    let seen = λ (p : String). phase_seen p sess in
    (if seen "UPLOAD" && not (seen "EXEC")
      then "EXEC" ∷ []
      else if seen "RECON" && not (seen "STAGE")
      then "STAGE" ∷ []
      else [])
    ++ (if seen "EXEC" && not (seen "PERSIST") then "PERSIST" ∷ [] else [])
