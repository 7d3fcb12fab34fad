-- ===== src/Replay/Events.antt =====
-- The events that `main` of analysis/replay.py collects from session.log, and the sessions in their
-- order.
use ssh_honeypot.Base.{ℕ, ◌&&◌, not, Option, none, some, List, [], ◌∷◌, ◌++◌, map}
use ssh_honeypot.Base.{if◌then◌else◌, take, ◌==◌, nat_eq, list_eq}
use ssh_honeypot.Base.Dict.{Dict, upsert}
use ssh_honeypot.Base.Sort.{sort}
use ssh_honeypot.Base.Text.{Str, lit, strip, str_ltb}
use ssh_honeypot.Cluster.Report.{or_empty}
use ssh_honeypot.Log.{
  Rec, field, Kind, handshake_ok, shell, exec, wget_fetch, curl_fetch, scp_receive, scp_file,
  scp_saved, kind,
}
use ssh_honeypot.Regex.{hex_byte, count_matches}
use ssh_honeypot.Replay.{is_echo_inject, echo_target}

-- The message of an event and its compact data: remote, client and user of a handshake, target and
-- number of bytes of an echo chunk, and so on.
pub data Data : Type 0 where
  handshake : Str → Str → Str → Data
  echo_chunk : Str → ℕ → Data
  shell_command exec_command : Str → Data
  wget curl : Str → Data
  scp_started : Data
  scp_sent : Str → Str → Data
  quarantined : Str → Data

pub record Event : Type 0 where
  pub time : Str
  pub payload : Data

abbrev pub Events : Type 0
Events = Dict Str (List Event)

unfoldable pub compact_command : (Str → Data) → Str → Data
compact_command plain cmd =
    if is_echo_inject cmd && not (echo_target cmd == lit "?")
    then echo_chunk (echo_target cmd) (count_matches hex_byte cmd)
    else plain cmd

-- What is kept of a record, by its message.
unfoldable pub compact : Kind → Rec → Option Data
compact handshake_ok r =
    some (handshake (field "remote" "?" r) (field "client" "?" r) (field "user" "?" r))
compact shell r = some (compact_command shell_command (strip (field "command" "" r)))
compact exec r = some (compact_command exec_command (strip (field "command" "" r)))
compact wget_fetch r = some (wget (field "url" "?" r))
compact curl_fetch r = some (curl (field "url" "?" r))
compact scp_receive r = some scp_started
compact scp_file r = some (scp_sent (field "name" "?" r) (field "size" "?" r))
compact scp_saved r = some (quarantined (field "sha256" "?" r))
compact _ r = none

unfoldable pub add_event : Rec → Option Data → Events → Events
add_event r none d = d
add_event r (some x) d =
    upsert (take 12 (field "sid" "" r))
      (λ o. or_empty o ++ (record { time = field "time" "" r; payload = x } ∷ [])) d

unfoldable pub collect : Events → List Rec → Events
collect d [] = d
collect d (r ∷ rs) = collect (add_event r (compact (kind r) r) d) rs

-- `events[sid].sort(key=lambda x: x[0])`
unfoldable pub by_time : List Event → List Event
by_time = sort (λ a b. str_ltb a.time b.time)

-- `kv[1][0][0] if kv[1] else ""`
abbrev pub start_of : List Event → Str
start_of [] = []
start_of (e ∷ es) = e.time

unfoldable pub in_order : Events → Events
in_order d =
    sort (λ a b. str_ltb (start_of a.1) (start_of b.1)) (map (λ (sid, evs). (sid, by_time evs)) d)
