-- ===== src/Sessions/Output.antt =====
-- The Markdown that `main` of analysis/sessions.py prints.
use ssh_honeypot.Base.{◌||◌, Option, none, some, List, [], ◌∷◌, ◌++◌, map}
use ssh_honeypot.Base.{if◌then◌else◌, length, leb, take, ◌==◌, nat_eq, list_eq}
use ssh_honeypot.Base.Text.{Str, lit, strip, show}
use ssh_honeypot.GenStats.Output.{escape_pipes}
use ssh_honeypot.Log.{Rec, field}
use ssh_honeypot.Sessions.{Event, Events, sessions, start_of, no_head, head_of, short_ts}

-- `cmd[:77] + "..."` of a command with more than 80 characters.
unfoldable pub shortened : Str → Str
shortened cmd = if leb (length cmd) 80 then cmd else take 77 cmd ++ lit "..."

unfoldable pub end_of : List Event → Str
end_of [] = []
end_of (e ∷ []) = e.time
end_of (e ∷ f ∷ es) = end_of (f ∷ es)

-- The detail of an event, by its type.
unfoldable pub detail : Str → Rec → Str
detail typ r =
    if typ == lit "auth"
    then lit "auth #"
      ++ field "attempt" "" r
      ++ lit " | `"
      ++ field "password" "" r
      ++ lit "` -> "
      ++ field "outcome" "" r
    else if typ == lit "handshake ok"
    then lit "connected | `" ++ field "client" "" r ++ lit "`"
    else if typ == lit "shell" || typ == lit "exec"
    then typ ++ lit " | `" ++ escape_pipes (shortened (strip (field "command" "" r))) ++ lit "`"
    else if typ == lit "scp file"
    then lit "scp upload | `"
      ++ field "name" "" r
      ++ lit "` ("
      ++ field "size" "" r
      ++ lit " bytes)"
    else if typ == lit "scp payload saved"
    then lit "quarantined | sha256=`" ++ (take 16 (field "sha256" "" r) ++ lit "...") ++ lit "`"
    else typ ++ lit " |"

unfoldable pub event_row : Event → Str
event_row e =
    let text = detail e.typ e.data_ in lit "| " ++ short_ts e.time ++ lit " | " ++ text ++ lit " |"

-- `passwords` of the loop is never read.
unfoldable pub session_lines : Str → List Event → List Str
session_lines sid [] = []
session_lines sid (e ∷ es) =
    let h = head_of no_head (e ∷ es) in
    let mark : Str = if h.outcome_accepted then lit "[ACCEPTED]" else lit "[rejected]" in
    lit "---"
    ∷ []
    ∷ (lit "## Session `" ++ sid ++ lit "`  " ++ mark)
    ∷ []
    ∷ (lit "- **From:** `" ++ h.remote ++ lit "`")
    ∷ (lit "- **User:** `" ++ h.user ++ lit "`  **Banner:** `" ++ h.banner ++ lit "`")
    ∷ (lit "- **Start:** " ++ start_of (e ∷ es) ++ lit "  **End:** " ++ end_of (e ∷ es))
    ∷ []
    ∷ lit "| Time | Event | Detail |"
    ∷ lit "|------|-------|--------|"
    ∷ (map event_row (e ∷ es) ++ ([] ∷ []))

unfoldable pub all_lines : Events → List Str
all_lines [] = []
all_lines ((sid, evs) ∷ d) = session_lines sid evs ++ all_lines d

-- Nothing where there is no session, and the script exits with status 1. The sessions are those of the
-- events in order, so that there are none exactly where there are no events.
unfoldable pub timelines : Str → Events → Option (List Str)
timelines log_dir [] = none
timelines log_dir (s ∷ d) = some (
    lit "# Session timelines"
    ∷ []
    ∷ (lit "Log dir: `" ++ log_dir ++ lit "`  |  Sessions: " ++ show (length (s ∷ d)))
    ∷ []
    ∷ all_lines (s ∷ d))

unfoldable pub print_sessions : Str → List Rec → List Rec → Option (List Str)
print_sessions log_dir auth sess = timelines log_dir (sessions auth sess)
