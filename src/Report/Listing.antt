-- ===== src/Report/Listing.antt =====
-- `render_sessions`, the lines of `render_alerts`, and `main` of analysis/report.py.
-- `accepted_ips` of `render_sessions` is never read.
use Prim.Native.String.{String}
use ssh_honeypot.Base.{Bool, ◌&&◌, Option, none, some, List, [], ◌∷◌, ◌++◌, map}
use ssh_honeypot.Base.{if◌then◌else◌, any, length, leb, take, ◌==◌, nat_eq, list_eq, option_eq}
use ssh_honeypot.Base.Dict.{Dict, get, upsert, put, keys}
use ssh_honeypot.Base.Results.{Result, ok, ◌>>=◌, look}
use ssh_honeypot.Base.Sort.{sort}
use ssh_honeypot.Base.Text.{Str, Unicode, lit, before_first, contains, show, str_ltb}
use ssh_honeypot.Cluster.Report.{or_empty}
use ssh_honeypot.Log.{Rec, field, field?, kind, is_command}
use ssh_honeypot.Report.{classify, fingerprint_bot, narrate, numeric, chains}
use ssh_honeypot.Report.Alerts.{scp_sids, group_by_ip, feedback_loops, high_volume, watch_for}
use ssh_honeypot.Report.Header.{Clock, paint, render_header, render_heatmap}
use ssh_honeypot.Report.Sources.{render_ips, passwords_by_count, top_passwords, chain_lines}

-- `by_sid`: an event with a command and no session raises KeyError.
unfoldable pub add_typed : Rec → Option Str → Dict Str (List Rec) → Result (Dict Str (List Rec))
add_typed e none d = ok d
add_typed e (some cmd) d =
    look (lit "sid") e >>= λ sid. ok (upsert sid (λ o. or_empty o ++ (e ∷ [])) d)

unfoldable pub by_sid : Dict Str (List Rec) → List Rec → Result (Dict Str (List Rec))
by_sid d [] = ok d
by_sid d (e ∷ es) =
    add_typed e (if is_command (kind e) then field? "command" e else none) d >>= λ d'. by_sid d' es

-- `remote_by_sid`
unfoldable pub add_remote : Option Str → Option Str → Dict Str Str → Dict Str Str
add_remote (some r) (some sid) d = put sid (before_first 58 r) d
add_remote (some r) none d = d
add_remote none _ d = d

unfoldable pub remotes : Dict Str Str → List Rec → Dict Str Str
remotes d [] = d
remotes d (e ∷ es) = remotes (add_remote (field? "remote" e) (field? "sid" e) d) es

-- `PHASE_COLOR.get(phase, dim)`
unfoldable pub phase_color : String → String
phase_color phase =
    if lit phase == lit "RECON"
    then "96"
    else if lit phase == lit "STAGE"
    then "93"
    else if lit phase == lit "UPLOAD"
    then "91"
    else if lit phase == lit "EXEC"
    then "91"
    else if lit phase == lit "PERSIST"
    then "91"
    else if lit phase == lit "CLEANUP"
    then "93"
    else "2"

unfoldable pub spaces_for_t : Str → Str
spaces_for_t [] = []
spaces_for_t (c ∷ s) = (if c == 84 then 32 else c) ∷ spaces_for_t s

-- `events[0].get("time", "?")[:19].replace("T", " ")`
unfoldable pub when_of : List Rec → Str
when_of [] = []
when_of (e ∷ es) = spaces_for_t (take 19 (field "time" "?" e))

unfoldable pub shortened : Str → Str
shortened cmd = if leb (length cmd) 64 then cmd else take 61 cmd ++ lit "..."

module _ (no_color : Bool) where
  -- The commands under their phases: a phase is printed where it differs from the one before.
  unfoldable pub command_lines : Option Str → List Str → List Str
  command_lines previous [] = []
  command_lines previous (cmd ∷ cmds) =
      let phase = classify cmd in
      let label = paint no_color (phase_color phase) (lit "[" ++ lit phase ++ lit "]") in
      let line =
        lit "    "
        ++ paint no_color "2" (lit "|")
        ++ lit " "
        ++ paint no_color (phase_color phase) (shortened cmd) in
      (if previous == some (lit phase) then [] else (lit "    " ++ label) ∷ [])
      ++ (line ∷ command_lines (some (lit phase)) cmds)

  unfoldable pub ip_text : Option Str → Str
  ip_text none = paint no_color "2" (lit "ip unknown")
  ip_text (some ip) =
      if ip == lit "?" then paint no_color "2" (lit "ip unknown") else paint no_color "1" ip

  unfoldable pub session_lines : Dict Str Str → Str → List Rec → List Str
  session_lines remote_by_sid sid events =
      let cmds = map (λ e. field "command" "" e) events in
      let has_scp = any (λ c. contains c (lit "scp") && contains c (lit "-t")) cmds in
      let flag = if has_scp then lit "  " ++ paint no_color "91" (lit "[DROPPER]") else [] in
      (lit "  "
        ++ paint no_color "96" (take 12 sid)
        ++ lit "  "
        ++ ip_text (get sid remote_by_sid)
        ++ lit "  "
        ++ paint no_color "2" (when_of events)
        ++ flag)
      ∷ (lit "  " ++ paint no_color "2" (lit "family:") ++ lit " " ++ lit (fingerprint_bot cmds []))
      ∷ (lit "  " ++ paint no_color "2" (lit "story:") ++ lit "  " ++ narrate cmds)
      ∷ []
      ∷ (command_lines none cmds ++ ([] ∷ []))

  unfoldable pub all_sessions : Dict Str Str → Dict Str (List Rec) → List Str → List Str
  all_sessions remote_by_sid d [] = []
  all_sessions remote_by_sid d (sid ∷ sids) =
      session_lines remote_by_sid sid (or_empty (get sid d)) ++ all_sessions remote_by_sid d sids

  unfoldable pub listing : Dict Str Str → Dict Str (List Rec) → List Str
  listing remote_by_sid [] =
      paint no_color "1" (lit "ACCEPTED SESSIONS")
      ∷ (lit "  " ++ paint no_color "2" (lit "no commands recorded yet"))
      ∷ []
      ∷ []
  listing remote_by_sid (s ∷ d) =
      let sids = sort str_ltb (keys (s ∷ d)) in
      paint no_color "1" (lit "ACCEPTED SESSIONS  (" ++ show (length sids) ++ lit " with commands)")
      ∷ []
      ∷ all_sessions remote_by_sid (s ∷ d) sids

  unfoldable pub render_sessions : List Rec → Result (List Str)
  render_sessions sess = by_sid [] sess >>= λ d. ok (listing (remotes [] sess) d)

  -- The lines of `render_alerts`.
  unfoldable pub upload_alert : List Str → List Str
  upload_alert [] = []
  upload_alert (sid ∷ sids) =
      paint no_color "91" (
        lit "! payload upload via SCP in "
        ++ show (length (sid ∷ sids))
        ++ lit " session(s) "
        ++ lit "-- check quarantine dir for captured files")
      ∷ []

  unfoldable pub watch_text : String → Str
  watch_text phase =
      if lit phase == lit "EXEC"
      then lit "-> watch for: EXEC phase (chmod +x / ./payload)"
      else if lit phase == lit "STAGE"
      then lit "-> watch for: STAGE phase (mkdir /lib/randomdir)"
      else lit "-> watch for: PERSIST phase (crontab / systemctl)"

  unfoldable pub alert_lines : List Rec → List Rec → List Str
  alert_lines auth sess =
      upload_alert (scp_sids sess)
      ++ map
          (λ (ip, after). paint no_color "93" (
            lit "! credential feedback loop: "
            ++ ip
            ++ lit " made "
            ++ show after
            ++ lit " attempts after first shell accept"))
          (feedback_loops (group_by_ip [] auth))
      ++ map
          (λ (ip, n). paint no_color "93" (
            lit "! high volume: "
            ++ ip
            ++ lit " -> "
            ++ show n
            ++ lit " attempts (distributed spray?)"))
          (high_volume auth)
      ++ map (λ phase. paint no_color "96" (watch_text phase)) (watch_for sess)

  unfoldable pub or_none_found : List Str → List Str
  or_none_found [] = paint no_color "92" (lit "no critical alerts") ∷ []
  or_none_found (l ∷ ls) = l ∷ ls

  unfoldable pub render_alerts : List Rec → List Rec → List Str
  render_alerts auth sess =
      paint no_color "1" (lit "ALERTS")
      ∷ []
      ∷ (map (λ l. lit "  " ++ l) (or_none_found (alert_lines auth sess)) ++ ([] ∷ []))

  -- `render_credentials`
  unfoldable pub render_credentials : ⦃u : Unicode⦄ → Clock → (Str → Str) → List Rec → List Str
  render_credentials clock repr auth = elim (passwords_by_count [] auth) [
    | [] ↦ []
    | p ∷ d ↦
        top_passwords clock repr no_color (p ∷ d)
        ++ chain_lines clock repr no_color (chains [] (numeric (keys (p ∷ d))))
  ]

  -- `main` behind the loading: nothing where there are no records, and the script exits with status 1.
  unfoldable pub report :
      ⦃u : Unicode⦄
      → Clock
      → (Str → Str)
      → (List Str → Option Str)
      → List Rec
      → List Rec
      → Option (Result (List Str))
  report clock repr pick [] [] = none
  report clock repr pick auth sess = some (
      render_sessions sess >>= λ sessions. ok (
        render_header clock no_color auth sess
        ++ render_heatmap clock no_color auth
        ++ render_ips pick no_color auth
        ++ render_credentials clock repr auth
        ++ sessions
        ++ render_alerts auth sess))
