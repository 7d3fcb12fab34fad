-- ===== src/Timeline.antt =====
-- analysis/timeline.py: when each password and each command was first and last seen.
pub mod Extremes
pub mod Output
use Prim.Native.String.{String}
use ssh_honeypot.Base.{ℕ, Bool, ◌&&◌, ◌||◌, not, Option, none, some, List, [], ◌∷◌, ◌++◌}
use ssh_honeypot.Base.{if◌then◌else◌, member, select, take, ◌==◌, nat_eq, list_eq}
use ssh_honeypot.Base.Dict.{Dict, upsert, incr, keys}
use ssh_honeypot.Base.Distinct.{add_new}
use ssh_honeypot.Base.Sort.{sort}
use ssh_honeypot.Base.Text.{Str, lit, strip, contains, str_ltb, is_space}
use ssh_honeypot.Log.{Rec, field, kind, is_command}
use ssh_honeypot.Passwords.{is_attempt}
use ssh_honeypot.Regex.{Re, seq, chr, group, ◌·◌, plus, text, Place, search_re}

-- `pw_first`, `pw_last` and `pw_count`, and the same for commands.
pub record Seen : Type 0 where
  pub first : Dict Str Str
  pub last : Dict Str Str
  pub count : Dict Str ℕ

abbrev pub nothing_seen : Seen
nothing_seen = record { first = []; last = []; count = [] }

abbrev pub earlier : Str → Option Str → Str
earlier ts none = ts
earlier ts (some old) = if str_ltb ts old then ts else old

abbrev pub later : Str → Option Str → Str
later ts none = ts
later ts (some old) = if str_ltb old ts then ts else old

-- The last statements of both loops.
unfoldable pub see : Str → Str → Seen → Seen
see key ts s = record {
  first = upsert key (earlier ts) s.first;
  last = upsert key (later ts) s.last;
  count = incr key s.count;
}

unfoldable pub see_password : Rec → Seen → Seen
see_password r s =
    let pw = field "password" "" r in
    let ts = field "time" "" r in
    if is_attempt (kind r) && not (pw == []) && not (ts == []) then see pw ts s else s

unfoldable pub see_passwords : Seen → List Rec → Seen
see_passwords s [] = s
see_passwords s (r ∷ rs) = see_passwords (see_password r s) rs

-- `root:([^\s'\"\\]+)`
unfoldable pub root_re : Re
root_re =
    text (lit "root:") · group (plus (chr (λ c. not (is_space c || c == 39 || c == 34 || c == 92))))

unfoldable pub add_found : Option Place → List Str → List Str
add_found none found = found
add_found (some q) found = elim q.captured [ none ↦ found | some pw ↦ add_new found pw ]

-- The loop over session.log: the commands, and the passwords that are given to chpasswd.
pub record Commands : Type 0 where
  pub seen : Seen
  pub pw_chpasswd : List Str

unfoldable pub see_command : Rec → Commands → Commands
see_command r s =
    let cmd = strip (field "command" "" r) in
    let ts = field "time" "" r in
    if is_command (kind r) && not (cmd == []) && not (ts == [])
    then record {
      seen = see cmd ts s.seen;
      pw_chpasswd =
          if contains cmd (lit "chpasswd")
          then add_found (search_re root_re cmd) s.pw_chpasswd
          else s.pw_chpasswd;
    }
    else s

unfoldable pub see_commands : Commands → List Rec → Commands
see_commands s [] = s
see_commands s (r ∷ rs) = see_commands (see_command r s) rs

-- `overlap` and `only_chpasswd`.
unfoldable pub overlap : Seen → List Str → List Str
overlap s pw_chpasswd = select (λ pw. member pw (keys s.first)) pw_chpasswd

unfoldable pub only_chpasswd : Seen → List Str → List Str
only_chpasswd s pw_chpasswd = select (λ pw. not (member pw (keys s.first))) pw_chpasswd

-- `sorted(first.items(), key=lambda x: x[1])[:20]`
unfoldable pub oldest : Seen → Dict Str Str
oldest s = take 20 (sort (λ a b. str_ltb a.1 b.1) s.first)
