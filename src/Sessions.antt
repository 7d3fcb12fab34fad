-- ===== src/Sessions.antt =====
-- analysis/sessions.py: the events of auth.log and session.log by session, and what heads a session.
pub mod Accounts
pub mod Output
use ssh_honeypot.Base.{ℕ, Bool, ◌&&◌, ◌||◌, not, Option, none, some, List, [], ◌∷◌, ◌++◌, map}
use ssh_honeypot.Base.{if◌then◌else◌, member, take, drop, ◌==◌, nat_eq, list_eq}
use ssh_honeypot.Base.Dict.{Dict, upsert}
use ssh_honeypot.Base.Sort.{sort}
use ssh_honeypot.Base.Text.{Str, lit, str_ltb}
use ssh_honeypot.Cluster.Report.{or_empty}
use ssh_honeypot.Log.{Rec, field, field?, kind, or_default}
use ssh_honeypot.Passwords.{is_attempt}

-- `(timestamp, type, data)`
pub record Event : Type 0 where
  pub time : Str
  pub typ : Str
  pub data_ : Rec

abbrev pub Events : Type 0
Events = Dict Str (List Event)

-- `events[sid].append(…)`
unfoldable pub add_event : Str → Rec → Events → Events
add_event typ r d =
    upsert (field "sid" "" r)
      (λ o. or_empty o ++ (record { time = field "time" "" r; typ = typ; data_ = r } ∷ [])) d

unfoldable pub read_auth : Events → List Rec → Events
read_auth d [] = d
read_auth d (r ∷ rs) = read_auth (if is_attempt (kind r) then add_event (lit "auth") r d else d) rs

-- The messages that are kept.
unfoldable pub kept : List Str
kept = map lit (
    "handshake ok" ∷ "handshake failed" ∷ "channel request" ∷ "shell" ∷ "exec" ∷ "scp receive"
    ∷ "scp file" ∷ "scp payload saved" ∷ "scp data drained" ∷ [])

abbrev pub is_kept : Rec → Bool
is_kept r = member (field "msg" "" r) kept

unfoldable pub read_session : Events → List Rec → Events
read_session d [] = d
read_session d (r ∷ rs) =
    read_session (if is_kept r then add_event (field "msg" "" r) r d else d) rs

unfoldable pub collect : List Rec → List Rec → Events
collect auth sess = read_session (read_auth [] auth) sess

unfoldable pub by_time : List Event → List Event
by_time = sort (λ a b. str_ltb a.time b.time)

-- `kv[1][0][0] if kv[1] else ""`
abbrev pub start_of : List Event → Str
start_of [] = []
start_of (e ∷ es) = e.time

unfoldable pub sessions : List Rec → List Rec → Events
sessions auth sess =
    sort (λ a b. str_ltb (start_of a.1) (start_of b.1))
      (map (λ (sid, evs). (sid, by_time evs)) (collect auth sess))

-- What heads a session.
pub record Head : Type 0 where
  pub remote : Str
  pub user : Str
  pub banner : Str
  pub outcome_accepted : Bool

abbrev pub no_head : Head
no_head = record {
  remote = lit "?";
  user = lit "?";
  banner = lit "?";
  outcome_accepted = Bool.false;
}

-- `remote = rec.get("remote", remote)`, and the same for the user and the banner.
unfoldable pub take_names : Rec → Head → Head
take_names r h = record h {
  remote = or_default h.remote (field? "remote" r);
  user = or_default h.user (field? "user" r);
  banner = or_default h.banner (field? "client" r);
}

abbrev pub is_auth : Event → Bool
is_auth e = e.typ == lit "auth"

abbrev pub is_accepted : Event → Bool
is_accepted e = is_auth e && field "outcome" "" e.data_ == lit "accepted"

-- The loop over the events, with its break at the first accepted attempt.
unfoldable pub head_of : Head → List Event → Head
head_of h [] = h
head_of h (e ∷ es) =
    let here = take_names e.data_ h in
    let rest = head_of (if is_auth e || e.typ == lit "handshake ok" then here else h) es in
    if is_accepted e then record here { outcome_accepted = Bool.true } else rest

-- `short_ts`
unfoldable pub short_ts : Str → Str
short_ts ts = if ts == [] then lit "?" else take 8 (drop 11 ts)
