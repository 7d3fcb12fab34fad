-- ===== src/Extract/One.antt =====
-- The loop of analysis/extract_binary.py over the lines of session.log.
use ssh_honeypot.Base.{ℕ, ◌&&◌, Option, none, some, List, [], ◌∷◌, ◌++◌}
use ssh_honeypot.Base.{if◌then◌else◌, take, member, nat_eq, list_eq, pair_eq}
use ssh_honeypot.Base.Dict.{Dict, upsert}
use ssh_honeypot.Base.Text.{Str, lit, starts_with, before_first}
use ssh_honeypot.Cluster.Report.{or_empty}
use ssh_honeypot.Extract.{Bytes, echoes, parse_hex}
use ssh_honeypot.Log.{Rec, field, field?, kind, is_command}
use ssh_honeypot.Patterns.{target_re}
use ssh_honeypot.Regex.{Place, search_re}
use mathlib.Core.List.{reverse}

-- `os.path.basename`: what follows the last slash.
unfoldable pub basename : Str → Str
basename path = reverse (before_first 47 (reverse path))

unfoldable pub name_of : Option Place → Str
name_of none = lit "unknown"
name_of (some q) = elim q.captured [ none ↦ lit "unknown" | some path ↦ basename path ]

unfoldable pub target_name : Str → Str
target_name cmd = name_of (search_re target_re cmd)

-- `chunks` and `seen`.
pub record State : Type 0 where
  pub chunks : Dict Str (List Bytes)
  pub seen : List (Str × Str)

-- `if data: chunks[…].append(data)`, where an error leaves all as it is.
unfoldable pub add_chunk : Str → Option Bytes → Dict Str (List Bytes) → Dict Str (List Bytes)
add_chunk name none d = d
add_chunk name (some []) d = d
add_chunk name (some (b ∷ bs)) d = upsert name (λ o. or_empty o ++ ((b ∷ bs) ∷ [])) d

module _ (int16 : Str → Option ℕ) (sid_prefix : Str) where
  -- From the test of the key on.
  unfoldable pub take_in : Str → Str → State → State
  take_in time cmd st =
      let key : Str × Str = (time, take 40 cmd) in
      if member key st.seen then st else record {
        chunks = add_chunk (target_name cmd) (parse_hex int16 cmd) st.chunks;
        seen = key ∷ st.seen;
      }

  -- A record with no `sid` or no `time` raises a KeyError, which passes it over.
  unfoldable pub guarded : Option Str → Option Str → Str → State → State
  guarded (some sid) (some time) cmd st =
      if starts_with sid sid_prefix && echoes cmd then take_in time cmd st else st
  guarded _ _ cmd st = st

  unfoldable pub scan_record : Rec → State → State
  scan_record e st =
      if is_command (kind e)
      then guarded (field? "sid" e) (field? "time" e) (field "command" "" e) st
      else st

  unfoldable pub scan_records : List Rec → State → State
  scan_records [] st = st
  scan_records (e ∷ es) st = scan_records es (scan_record e st)
