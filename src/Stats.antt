-- ===== src/Stats.antt =====
-- analysis/stats.py: the counters over auth.log and session.log. Sprays has the sliding window over
-- the attempts of a credential.
pub mod Counts
pub mod Sprays
pub mod Output
pub mod Window
use Prim.Native.String.{String}
use ssh_honeypot.Base.{ℕ, ◌+◌, Bool, ◌&&◌, ◌||◌, not, Option, none, some, List, [], ◌∷◌, ◌++◌, map}
use ssh_honeypot.Base.{if◌then◌else◌, member, ◌==◌, nat_eq, list_eq, pair_eq}
use ssh_honeypot.Base.Dict.{Dict, upsert, incr}
use ssh_honeypot.Base.Distinct.{add_new}
use ssh_honeypot.Base.Text.{Str, lit, strip, contains, before_last}
use ssh_honeypot.Cluster.Report.{or_empty}
use ssh_honeypot.Log.{Rec, field, kind, is_command}
use ssh_honeypot.Passwords.{is_attempt}
use ssh_honeypot.Regex.{
  Re, seq, chr, star, group, ◌·◌, plus, text, non_space, found, search_re, Place,
}

-- `strip_port`
unfoldable pub strip_port : Str → Str
strip_port remote = before_last 58 remote

-- `FAMILIES`
unfoldable pub echo_injector_re : Re
echo_injector_re = text (lit "echo -e -n") · star (chr (λ c. not (c == 10))) · text (lit ">> /tmp/")

unfoldable pub families : List (String × (Str → Bool))
families =
    ("ELF echo injector", λ c. found echo_injector_re c)
    ∷ ("Diicot GPU miner", λ c. contains c (lit "lspci | egrep VGA"))
    ∷ ("C2 dropper", λ c. contains c (lit "14.46.136.77"))
    ∷ ("astats dropper", λ c. contains c (lit "cat > astats"))
    ∷ ("VPS scout", λ c. contains c (lit "awk '{printf $1}'"))
    ∷ ("SSHCHK", λ c. contains c (lit "echo") && contains c (lit "\\x6F\\x6B"))
    ∷ (
      "minimal scanner",
      λ c. member (strip c) (map lit ("uname -s -m" ∷ "uname -m" ∷ "uname -s" ∷ [])),
    )
    ∷ ("password changer", λ c. contains c (lit "chpasswd") || strip c == lit "passwd")
    ∷ []

-- The variables of `main` that the loop over auth.log changes.
pub record Auth : Type 0 where
  pub passwords : Dict Str ℕ
  pub usernames : Dict Str ℕ
  pub source_ips : Dict Str ℕ
  pub banners : Dict Str ℕ
  pub accepted : ℕ
  pub rejected : ℕ
  pub timestamps : List Str
  pub spray_buckets : Dict (Str × Str) (List (Str × Str))

-- A counter that counts texts that are not empty.
abbrev pub incr_some : Str → Dict Str ℕ → Dict Str ℕ
incr_some key d = if key == [] then d else incr key d

abbrev pub snoc_some : Str → List Str → List Str
snoc_some ts tss = if ts == [] then tss else tss ++ (ts ∷ [])

-- The last statement of the loop, where the password, user, address and time are all there.
unfoldable pub add_spray :
    Str
    → Str
    → Str
    → Str
    → Dict (Str × Str) (List (Str × Str))
    → Dict (Str × Str) (List (Str × Str))
add_spray pw user remote ts buckets =
    if pw == [] || user == [] || remote == [] || ts == []
    then buckets
    else upsert (pw, user) (λ o. or_empty o ++ ((ts, strip_port remote) ∷ [])) buckets

-- The body of the loop for an attempt.
unfoldable pub count_attempt : Rec → Auth → Auth
count_attempt r a =
    let outcome = field "outcome" "" r in
    let pw = field "password" "" r in
    let user = field "user" "" r in
    let remote = field "remote" "" r in
    let ts = field "time" "" r in
    record {
      passwords = incr_some pw a.passwords;
      usernames = incr_some user a.usernames;
      source_ips = if remote == [] then a.source_ips else incr (strip_port remote) a.source_ips;
      banners = incr_some (field "client" "" r) a.banners;
      accepted = if outcome == lit "accepted" then a.accepted + 1 else a.accepted;
      rejected =
          if outcome == lit "accepted"
          then a.rejected
          else if outcome == lit "rejected"
          then a.rejected + 1
          else a.rejected;
      timestamps = snoc_some ts a.timestamps;
      spray_buckets = add_spray pw user remote ts a.spray_buckets;
    }

unfoldable pub read_attempt : Rec → Auth → Auth
read_attempt r a = if is_attempt (kind r) then count_attempt r a else a

unfoldable pub read_auth : Auth → List Rec → Auth
read_auth a [] = a
read_auth a (r ∷ rs) = read_auth (read_attempt r a) rs

unfoldable pub no_auth : Auth
no_auth = record {
  passwords = [];
  usernames = [];
  source_ips = [];
  banners = [];
  accepted = 0;
  rejected = 0;
  timestamps = [];
  spray_buckets = [];
}

-- The variables of the loop over session.log. `family_sids` starts with an empty set for each family.
pub record Shell : Type 0 where
  pub commands : Dict Str ℕ
  pub echo_targets : Dict Str ℕ
  pub family_sids : Dict Str (List Str)
  pub stamps : List Str

-- `>> (/tmp/\S+)`
unfoldable pub tmp_target_re : Re
tmp_target_re = text (lit ">> ") · group (text (lit "/tmp/") · plus non_space)

unfoldable pub count_target : Option Place → Dict Str ℕ → Dict Str ℕ
count_target none d = d
count_target (some q) d = elim q.captured [ none ↦ d | some target ↦ incr target d ]

abbrev pub with_sid : Str → Option (List Str) → List Str
with_sid sid o = add_new (or_empty o) sid

unfoldable pub add_families :
    List (String × (Str → Bool)) → Str → Str → Dict Str (List Str) → Dict Str (List Str)
add_families [] cmd sid d = d
add_families ((name, test) ∷ fams) cmd sid d =
    add_families fams cmd sid (if test cmd then upsert (lit name) (with_sid sid) d else d)

unfoldable pub count_command : Str → Str → Shell → Shell
count_command cmd sid s = record s {
  commands = incr cmd s.commands;
  echo_targets = count_target (search_re tmp_target_re cmd) s.echo_targets;
  family_sids = add_families families cmd sid s.family_sids;
}

unfoldable pub read_record : Rec → Shell → Shell
read_record r s =
    let stamped : Shell = record s { stamps = snoc_some (field "time" "" r) s.stamps } in
    let cmd = strip (field "command" "" r) in
    if is_command (kind r) && not (cmd == [])
    then count_command cmd (field "sid" "" r) stamped
    else stamped

unfoldable pub read_session : Shell → List Rec → Shell
read_session s [] = s
read_session s (r ∷ rs) = read_session (read_record r s) rs

unfoldable pub no_shell : Shell
no_shell = record {
  commands = [];
  echo_targets = [];
  family_sids = map (λ f. (lit f.0, [])) families;
  stamps = [];
}
