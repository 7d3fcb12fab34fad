-- ===== src/Seqgroup/Sequence.antt =====
-- What `ingest` of analysis/seqgroup.py makes of a log, session by session, and the sequence of a
-- session from its events.
use ssh_honeypot.Base.{ℕ, ◌≡◌, refl, sym, ap, ◌∙◌, inl, inr, Bool, false, ◌&&◌, not}
use ssh_honeypot.Base.{Option, none, some, List, [], ◌∷◌, ◌++◌, map, take, if◌then◌else◌}
use ssh_honeypot.Base.{◌==◌, ==_iff, nat_eq, list_eq, Bool-cases, if_both_two, if_same, select}
use mathlib.Core.Option
use ssh_honeypot.Base.Dict.{get, get-map}
use ssh_honeypot.Base.Text.{Str, Unicode, lit, strip}
use ssh_honeypot.Log.{
  Rec, field, Kind, shell, exec, wget_fetch, curl_fetch, scp_receive, scp_file, scp_saved, kind,
}
use ssh_honeypot.Regex.{hex_byte, count_matches}
use ssh_honeypot.Seqgroup.{
  Session, new_session, flush_echo, push, push_echo, is_echo_inject, echo_target,
}
use ssh_honeypot.Seqgroup.Ingest.{
  State, sid_of, push_command, command_line, handle_message, dated, add_record, or_new, visit,
  ingest_record, ingest_records, ingest, finish,
}
use ssh_honeypot.Seqgroup.Dedup.{get-ingest_record}
use ssh_honeypot.Seqgroup.Runs.{
  Event, line, chunk, blocks, render, pending, IsTidy, push_blocks, push_echo_blocks, push-IsTidy,
  push_echo-IsTidy, seq-flush_echo,
}

module _ ⦃u : Unicode⦄ (do_normalize : Bool) where
  -- The event of a command: an echo chunk with its target and its number of bytes, or its line.
  command_event : Rec → Event
  command_event r =
      let cmd = strip (field "command" "" r) in
      if is_echo_inject cmd && not (echo_target cmd == lit "?")
      then chunk (echo_target cmd) (count_matches hex_byte cmd)
      else line (command_line do_normalize r)

  -- The event of a record, if it has one.
  pub event_of : Kind → Rec → Option Event
  event_of shell r = some (command_event r)
  event_of exec r = some (command_event r)
  event_of wget_fetch r = some (line (lit "  [wget -> " ++ field "url" "?" r ++ lit "]"))
  event_of curl_fetch r = some (line (lit "  [curl -> " ++ field "url" "?" r ++ lit "]"))
  event_of scp_receive r = some (line (lit "  [scp upload started]"))
  event_of scp_file r = some (
      line (
        lit "  [scp file: "
        ++ field "name" "?" r
        ++ lit "  "
        ++ field "size" "?" r
        ++ lit " bytes]"))
  event_of scp_saved r =
      some (line (lit "  [quarantined sha256=" ++ take 16 (field "sha256" "?" r) ++ lit "]"))
  event_of _ r = none

  abbrev cons_event : Option Event → List Event → List Event
  cons_event none es = es
  cons_event (some e) es = e ∷ es

  pub events : List Rec → List Event
  events [] = []
  events (r ∷ rs) = cons_event (event_of (kind r) r) (events rs)

  -- How a session relates to what it was before an event.
  record Follows (es : List Event) (s t : Session) (e : Option Event) : Type 0 where
    lines :
        t.seq ++ map render (pending t (blocks es))
        ≡ s.seq ++ map render (pending s (blocks (cons_event e es)))
    tidy : IsTidy t

  push-Follows :
      (es : List Event) (s : Session) (l : Str) → IsTidy s → Follows es s (push l s) (some (line l))
  unfolding blocks
  push-Follows es s l tidy = record {
    lines = push_blocks l s (blocks es) tidy;
    tidy = push-IsTidy l s tidy;
  }

  push_echo-Follows :
      (es : List Event) (s : Session) (t : Str) (n : ℕ)
      → IsTidy s
      → Follows es s (push_echo t n s) (some (chunk t n))
  unfolding blocks
  push_echo-Follows es s t n tidy = record {
    lines = push_echo_blocks t n s (blocks es) tidy;
    tidy = push_echo-IsTidy t n s tidy;
  }

  push_command-Follows :
      (es : List Event) (s : Session) (r : Rec)
      → IsTidy s
      → Follows es s (push_command do_normalize r s) (some (command_event r))
  unfolding push_command command_event blocks
  push_command-Follows es s r tidy =
      if_both_two (λ (t : Session) (e : Event). Follows es s t (some e)) _
        (push_echo-Follows es s _ _ tidy) (push-Follows es s _ tidy)

  handle_message-Follows :
      (es : List Event) (s : Session) (k : Kind) (r : Rec)
      → IsTidy s
      → Follows es s (handle_message do_normalize k r s) (event_of k r)
  unfolding handle_message event_of
  handle_message-Follows es s shell r tidy = push_command-Follows es s r tidy
  handle_message-Follows es s exec r tidy = push_command-Follows es s r tidy
  handle_message-Follows es s wget_fetch r tidy = push-Follows es s _ tidy
  handle_message-Follows es s curl_fetch r tidy = push-Follows es s _ tidy
  handle_message-Follows es s scp_receive r tidy = push-Follows es s _ tidy
  handle_message-Follows es s scp_file r tidy = push-Follows es s _ tidy
  handle_message-Follows es s scp_saved r tidy = push-Follows es s _ tidy
  handle_message-Follows es s _ r tidy = record { lines = refl; tidy = tidy }

  abbrev pub add_records : List Rec → Session → Session
  add_records [] s = s
  add_records (r ∷ rs) s = add_records rs (add_record do_normalize r s)

  add_records-blocks :
      (rs : List Rec) (s : Session)
      → IsTidy s
      → (flush_echo (add_records rs s)).seq ≡ s.seq ++ map render (pending s (blocks (events rs)))
  unfolding events add_record
  add_records-blocks [] s tidy = unfold blocks in seq-flush_echo s
  add_records-blocks (r ∷ rs) s tidy =
      let step = handle_message-Follows (events rs) (dated r s) (kind r) r tidy in
      add_records-blocks rs (add_record do_normalize r s) step.tidy ∙ step.lines

  -- A new session that takes in the records has, once it is finished, the rendered blocks of their
  -- events for its sequence: each line as pushed, and for each run of chunks for one target one
  -- line with the number of chunks and of bytes.
  pub seq-add_records :
      (rs : List Rec) → (finish (add_records rs new_session)).seq ≡ map render (blocks (events rs))
  unfolding finish new_session
  seq-add_records rs = add_records-blocks rs new_session (λ _. (refl, refl))

  module _ (dedup_all : Bool) where
    -- One session alone: the rounds of the loop for its records.
    unfoldable pub visits : List Rec → Option Session → Option Session
    visits [] o = o
    visits (r ∷ rs) o = visits rs (some (visit do_normalize dedup_all r (or_new o)).0)

    abbrev pub records_of : Str → List Rec → List Rec
    records_of sid = select (λ r. sid == sid_of r)

    get-ingest_records :
        (sid : Str) (rs : List Rec) (st : State)
        → (sid == []) ≡ false
        → get sid (ingest_records do_normalize dedup_all st rs).sessions
          ≡ visits (records_of sid rs) (get sid st.sessions)
    unfolding ingest_records visits
    get-ingest_records sid [] st h = refl
    get-ingest_records sid (r ∷ rs) st h =
        get-ingest_records sid rs (ingest_record do_normalize dedup_all st r) h
        ∙ elim (Bool-cases (sid == sid_of r)) [
          | inl mine ↦
              let p : sid_of r ≡ sid = sym ((==_iff sid (sid_of r)).0 mine) in
              rw (get-ingest_record, mine) (rw (p, h))
          | inr other ↦
              rw (get-ingest_record, other)
                (if_same (sid_of r == []) (get sid st.sessions) (λ o. visits (records_of sid rs) o))
        ]

    -- Sessions are independent: the entry of a session id is decided by the records of that id
    -- alone, in their order, whatever records of other sessions stand between them.
    pub get-ingest :
        (sid : Str) (rs : List Rec)
        → (sid == []) ≡ false
        → get sid (ingest do_normalize dedup_all rs).sessions
          ≡ Option.map finish (visits (records_of sid rs) none)
    unfolding ingest get
    get-ingest sid rs h =
        get-map finish sid
          (ingest_records do_normalize dedup_all (record { sessions = []; dups = 0 }) rs).sessions
        ∙ ap (Option.map finish) (get-ingest_records sid rs (record { sessions = []; dups = 0 }) h)
