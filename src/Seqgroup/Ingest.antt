-- ===== src/Seqgroup/Ingest.antt =====
-- `ingest` of analysis/seqgroup.py: the records of session.log, folded into one `Session` for each
-- session id.
use ssh_honeypot.Base.{ℕ, ◌+◌, Bool, ◌||◌, ◌&&◌, not, Option, none, some, List, [], ◌∷◌, ◌++◌, map}
use ssh_honeypot.Base.{take, if◌then◌else◌, ◌==◌, nat_eq, list_eq, pair_eq, member}
use ssh_honeypot.Base.Dict.{Dict, get, put}
use ssh_honeypot.Base.Text.{Str, Unicode, lit, strip, before_first}
use ssh_honeypot.Log.{
  Rec, field, Kind, handshake_ok, shell, exec, wget_fetch, curl_fetch, scp_receive, scp_file,
  scp_saved, kind,
}
use ssh_honeypot.Regex.{hex_byte, count_matches}
use ssh_honeypot.Seqgroup.{
  Session, new_session, normalize, is_echo_inject, echo_target, dirty_dates, flush_echo, push,
  push_echo,
}

abbrev pub State : Type 0
State = record { sessions : Dict Str Session; dups : ℕ }

abbrev pub sid_of : Rec → Str
sid_of r = take 12 (field "sid" "" r)

-- What a record is known by within its session: its timestamp and its message.
abbrev pub stamp : Rec → Str × Str
stamp r = (field "time" "" r, field "msg" "" r)

abbrev pub has_dirty_date : Rec → Bool
has_dirty_date r = member (take 10 (field "time" "" r)) dirty_dates

-- The end of `ingest`: every pending echo run is flushed, the timestamps are dropped.
unfoldable pub finish : Session → Session
finish s = record (flush_echo s) { seen_ts = [] }

abbrev pub or_new : Option Session → Session
or_new none = new_session
or_new (some s) = s

-- The first and the last timestamp, as the record leaves them.
abbrev pub dated : Rec → Session → Session
dated r s =
    let ts = field "time" "" r in
    record s { first = if s.first == [] then ts else s.first; last = ts }

module _ ⦃u : Unicode⦄ (do_normalize : Bool) where
  -- The line for a command that is no echo chunk.
  unfoldable pub command_line : Rec → Str
  command_line r =
      let cmd = strip (field "command" "" r) in
      let prefix : Str = if field "msg" "" r == lit "exec" then lit "exec: " else [] in
      prefix ++ (if do_normalize then normalize cmd else cmd)

  -- The branch for `shell` and `exec`.
  unfoldable pub push_command : Rec → Session → Session
  push_command r s =
      let cmd = strip (field "command" "" r) in
      if is_echo_inject cmd && not (echo_target cmd == lit "?")
      then push_echo (echo_target cmd) (count_matches hex_byte cmd) s
      else push (command_line r) s

  -- The chain of tests on `msg`.
  unfoldable pub handle_message : Kind → Rec → Session → Session
  handle_message handshake_ok r s = record s {
    ip = before_first 58 (field "remote" "?" r);
    client = field "client" "?" r;
    user = field "user" "?" r;
  }
  handle_message shell r s = push_command r s
  handle_message exec r s = push_command r s
  handle_message wget_fetch r s = push (lit "  [wget -> " ++ field "url" "?" r ++ lit "]") s
  handle_message curl_fetch r s = push (lit "  [curl -> " ++ field "url" "?" r ++ lit "]") s
  handle_message scp_receive r s = push (lit "  [scp upload started]") s
  handle_message scp_file r s =
      push
        (lit "  [scp file: "
          ++ field "name" "?" r
          ++ lit "  "
          ++ field "size" "?" r
          ++ lit " bytes]")
        s
  handle_message scp_saved r s =
      push (lit "  [quarantined sha256=" ++ take 16 (field "sha256" "?" r) ++ lit "]") s
  handle_message _ r s = s

  -- The timestamps of the session, and then the message.
  unfoldable pub add_record : Rec → Session → Session
  add_record r s = handle_message (kind r) r (dated r s)

  module _ (dedup_all : Bool) where
    -- The round of the loop for a record of a session: its new state, and whether it was dropped.
    unfoldable pub visit : Rec → Session → Session × Bool
    visit r s =
        if dedup_all || has_dirty_date r
        then (if member (stamp r) s.seen_ts
            then (s, Bool.true)
            else (add_record r (record s { seen_ts = stamp r ∷ s.seen_ts }), Bool.false))
        else (add_record r s, Bool.false)

    -- One record of the loop. A record with no session id is skipped.
    unfoldable pub ingest_record : State → Rec → State
    ingest_record st r =
        let (s, dropped) = visit r (or_new (get (sid_of r) st.sessions)) in
        if sid_of r == [] then st else record {
          sessions = put (sid_of r) s st.sessions;
          dups = if dropped then st.dups + 1 else st.dups;
        }

    unfoldable pub ingest_records : State → List Rec → State
    ingest_records st [] = st
    ingest_records st (r ∷ rs) = ingest_records (ingest_record st r) rs

    unfoldable pub ingest : List Rec → State
    ingest rs =
        let st = ingest_records (record { sessions = []; dups = 0 }) rs in
        record { sessions = map (λ (sid, s). (sid, finish s)) st.sessions; dups = st.dups }
