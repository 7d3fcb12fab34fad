-- ===== src/GenStats.antt =====
-- analysis/gen_stats.py: the counting loops behind STATS.md, which drop repeated records.
pub mod Families
pub mod Accounts
pub mod Output
use ssh_honeypot.Base.{ℕ, ◌+◌, Bool, ◌&&◌, ◌||◌, not, Option, none, some, List, [], ◌∷◌, ◌++◌}
use ssh_honeypot.Base.{if◌then◌else◌, member, take, ◌==◌, nat_eq, list_eq, pair_eq, option_eq}
use ssh_honeypot.Base.Dict.{Dict, incr}
use ssh_honeypot.Base.Distinct.{add_new}
use ssh_honeypot.Base.Text.{Str, str_ltb}
use ssh_honeypot.Log.{
  Rec, field, field?, Kind, kind, is_command, handshake_ok, scp_file, scp_saved, or_default,
}
use ssh_honeypot.Passwords.{is_attempt}
use ssh_honeypot.Seqgroup.{dirty_dates}
use ssh_honeypot.Stats.{strip_port, incr_some}

-- `ts_min` and `ts_max`, and `see_ts`.
pub record Span : Type 0 where
  pub ts_min : Option Str
  pub ts_max : Option Str

abbrev pub lower : Str → Option Str → Option Str
lower ts none = some ts
lower ts (some old) = if str_ltb ts old then some ts else some old

abbrev pub higher : Str → Option Str → Option Str
higher ts none = some ts
higher ts (some old) = if str_ltb old ts then some ts else some old

unfoldable pub see_ts : Str → Span → Span
see_ts ts s =
    if ts == [] then s else record { ts_min = lower ts s.ts_min; ts_max = higher ts s.ts_max }

-- `(rec.get("time"), rec.get("remote"), rec.get("user"), rec.get("password"))`
abbrev pub Key : Type 0
Key = (Option Str × Option Str) × (Option Str × Option Str)

abbrev pub auth_key : Rec → Key
auth_key r = ((field? "time" r, field? "remote" r), (field? "user" r, field? "password" r))

pub record Auth : Type 0 where
  pub passwords : Dict Str ℕ
  pub usernames : Dict Str ℕ
  pub source_ips : Dict Str ℕ
  pub pairs : List (Str × Str)
  pub attempts : ℕ
  pub dup_auth : ℕ
  pub seen_auth : List Key
  pub span : Span

unfoldable pub no_auth : Auth
no_auth = record {
  passwords = [];
  usernames = [];
  source_ips = [];
  pairs = [];
  attempts = 0;
  dup_auth = 0;
  seen_auth = [];
  span = record { ts_min = none; ts_max = none };
}

-- The rest of the body for an attempt that was not seen.
unfoldable pub count_attempt : Rec → Auth → Auth
count_attempt r a =
    let pw = field "password" "" r in
    let user = field "user" "" r in
    let remote = field "remote" "" r in
    record {
      passwords = incr_some pw a.passwords;
      usernames = incr_some user a.usernames;
      source_ips = if remote == [] then a.source_ips else incr (strip_port remote) a.source_ips;
      pairs = if not (pw == []) || not (user == []) then add_new a.pairs (user, pw) else a.pairs;
      attempts = a.attempts + 1;
      dup_auth = a.dup_auth;
      seen_auth = a.seen_auth ++ (auth_key r ∷ []);
      span = see_ts (field "time" "" r) a.span;
    }

-- A record of the loop over auth.log. A set is the list of its elements as they came.
unfoldable pub read_attempt : Rec → Auth → Auth
read_attempt r a =
    if is_attempt (kind r)
    then (if member (auth_key r) a.seen_auth
        then record a { dup_auth = a.dup_auth + 1 }
        else count_attempt r a)
    else a

unfoldable pub read_auth : Auth → List Rec → Auth
read_auth a [] = a
read_auth a (r ∷ rs) = read_auth (read_attempt r a) rs

pub record Sess : Type 0 where
  pub sids : List Str
  pub handshake_ok : ℕ
  pub scp_files_offered : ℕ
  pub scp_quarantined : ℕ
  pub seen_sess : List ((Option Str × Option Str) × Str)
  pub seen_cmd : List (Option Str × Option Str)
  pub commands : ℕ
  pub dup_sess : ℕ
  pub span : Span

unfoldable pub no_sess : Span → Sess
no_sess span = record {
  sids = [];
  handshake_ok = 0;
  scp_files_offered = 0;
  scp_quarantined = 0;
  seen_sess = [];
  seen_cmd = [];
  commands = 0;
  dup_sess = 0;
  span = span;
}

-- The top of the loop: the timestamp, and the session id.
unfoldable pub note : Rec → Sess → Sess
note r s =
    let sid = field "sid" "" r in
    record s {
      sids = if sid == [] then s.sids else add_new s.sids sid;
      span = see_ts (field "time" "" r) s.span;
    }

abbrev pub has_command : Option Str → Bool
has_command none = Bool.false
has_command (some cmd) = Bool.true

-- `ts and ts[:10] in DIRTY_DATES`, for the empty text is no date.
abbrev pub is_dirty : Rec → Bool
is_dirty r = member (take 10 (field "time" "" r)) dirty_dates

-- A command, whose repeats are dropped on the dirty dates alone.
unfoldable pub read_command : Rec → Sess → Sess
read_command r s =
    let key : Option Str × Option Str = (field? "sid" r, field? "time" r) in
    if is_dirty r
    then (if member key s.seen_cmd
        then record s { dup_sess = s.dup_sess + 1 }
        else record s { seen_cmd = key ∷ s.seen_cmd; commands = s.commands + 1 })
    else record s { commands = s.commands + 1 }

unfoldable pub count_kind : Kind → Sess → Sess
count_kind handshake_ok s = record s { handshake_ok = s.handshake_ok + 1 }
count_kind scp_file s = record s { scp_files_offered = s.scp_files_offered + 1 }
count_kind scp_saved s = record s { scp_quarantined = s.scp_quarantined + 1 }
count_kind _ s = s

-- `msg in ("handshake ok", "scp file", "scp payload saved")`
abbrev pub is_counted : Kind → Bool
is_counted handshake_ok = Bool.true
is_counted scp_file = Bool.true
is_counted scp_saved = Bool.true
is_counted _ = Bool.false

unfoldable pub read_event : Rec → Sess → Sess
read_event r s =
    let key : (Option Str × Option Str) × Str =
      ((field? "sid" r, field? "time" r), field "msg" "" r) in
    if is_counted (kind r)
    then (if member key s.seen_sess
        then record s { dup_sess = s.dup_sess + 1 }
        else count_kind (kind r) (record s { seen_sess = key ∷ s.seen_sess }))
    else s

abbrev pub is_typed : Rec → Bool
is_typed r = is_command (kind r) && has_command (field? "command" r)

unfoldable pub read_record : Rec → Sess → Sess
read_record r s = if is_typed r then read_command r (note r s) else read_event r (note r s)

unfoldable pub read_session : Sess → List Rec → Sess
read_session s [] = s
read_session s (r ∷ rs) = read_session (read_record r s) rs

-- The loop over server.log.
unfoldable pub read_server : Span → List Rec → Span
read_server s [] = s
read_server s (r ∷ rs) = read_server (see_ts (field "time" "" r) s) rs
