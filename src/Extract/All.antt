-- ===== src/Extract/All.antt =====
-- The loops of analysis/extract_all_binaries.py: chunks by target and session, and for each target the
-- session whose chunks are saved.
use ssh_honeypot.Base.{ℕ, Bool, false, ◌&&◌, Option, none, some, List, [], ◌∷◌, ◌++◌}
use ssh_honeypot.Base.{
  if◌then◌else◌, take, member, length, ltb, select, sum_by, nat_eq, list_eq, pair_eq,
}
use ssh_honeypot.Base.Dict.{Dict, upsert}
use ssh_honeypot.Base.Sort.{sort}
use ssh_honeypot.Base.Text.{Str, starts_with, str_ltb}
use ssh_honeypot.Cluster.Report.{or_empty}
use ssh_honeypot.Extract.{Bytes, echoes, parse_hex}
use ssh_honeypot.Log.{Rec, field, field?, kind, is_command}
use ssh_honeypot.Patterns.{target_re}
use ssh_honeypot.Regex.{Place, search_re}

abbrev pub Sessions : Type 0
Sessions = Dict Str (List Bytes)

-- `data` and `seen`.
pub record State : Type 0 where
  pub targets : Dict Str Sessions
  pub seen : List (Str × Str)

unfoldable pub path_of : Option Place → Option Str
path_of none = none
path_of (some q) = q.captured

unfoldable pub target_name : Str → Option Str
target_name cmd = path_of (search_re target_re cmd)

-- `data[target][e['sid']].append(chunk)`. Without `sid` the target alone is entered before the error.
unfoldable pub append_chunk : Str → Option Str → Bytes → Dict Str Sessions → Dict Str Sessions
append_chunk target none chunk d = upsert target or_empty d
append_chunk target (some sid) chunk d =
    upsert target (λ o. upsert sid (λ cs. or_empty cs ++ (chunk ∷ [])) (or_empty o)) d

unfoldable pub add_chunk :
    Option Str → Option Str → Option Bytes → Dict Str Sessions → Dict Str Sessions
add_chunk (some target) sid (some (b ∷ bs)) d = append_chunk target sid (b ∷ bs) d
add_chunk _ _ _ d = d

module _ (int16 : Str → Option ℕ) where
  unfoldable pub take_in : Option Str → Str → Option Str → State → State
  take_in none cmd sid st = st
  take_in (some time) cmd sid st =
      let key : Str × Str = (time, take 60 cmd) in
      if member key st.seen then st else record {
        targets = add_chunk (target_name cmd) sid (parse_hex int16 cmd) st.targets;
        seen = key ∷ st.seen;
      }

  unfoldable pub scan_record : Rec → State → State
  scan_record e st =
      let cmd = field "command" "" e in
      if is_command (kind e) && echoes cmd
      then take_in (field? "time" e) cmd (field? "sid" e) st
      else st

  unfoldable pub scan_parsed : Option Rec → State → State
  scan_parsed none st = st
  scan_parsed (some e) st = scan_record e st

  unfoldable pub scan_lines : (Str → Option Rec) → List Str → State → State
  scan_lines loads [] st = st
  scan_lines loads (l ∷ ls) st =
      scan_lines loads ls (if echoes l then scan_parsed (loads l) st else st)

abbrev pub elf_magic : Bytes
elf_magic = 127 ∷ 69 ∷ 76 ∷ 70 ∷ []

-- `chunks and b''.join(chunks[:1]).startswith(ELF_MAGIC)`
unfoldable pub is_elf : List Bytes → Bool
is_elf [] = false
is_elf (c ∷ cs) = starts_with c elf_magic

unfoldable pub elf_sessions : Sessions → Sessions
elf_sessions = select (λ s. is_elf s.1)

unfoldable pub or_all : Sessions → Sessions → Sessions
or_all [] all_ = all_
or_all (s ∷ ss) all_ = s ∷ ss

unfoldable pub pool : Sessions → Sessions
pool sessions = or_all (elf_sessions sessions) sessions

unfoldable pub size_of : Str × List Bytes → ℕ
size_of s = sum_by length s.1

-- `max(pool, key=…)`: the first of the largest, nothing where it raises on an empty pool.
unfoldable pub larger : Str × List Bytes → Str × List Bytes → Str × List Bytes
larger b s = if ltb (size_of b) (size_of s) then s else b

unfoldable pub largest_onto : Str × List Bytes → Sessions → Str × List Bytes
largest_onto b [] = b
largest_onto b (s ∷ ss) = largest_onto (larger b s) ss

unfoldable pub largest : Sessions → Option (Str × List Bytes)
largest [] = none
largest (s ∷ ss) = some (largest_onto s ss)

unfoldable pub best : Sessions → Option (Str × List Bytes)
best sessions = largest (pool sessions)

unfoldable pub joined : List Bytes → Bytes
joined [] = []
joined (c ∷ cs) = c ++ joined cs

-- `for target in sorted(data)`
unfoldable pub by_target : Dict Str Sessions → Dict Str Sessions
by_target = sort (λ a b. str_ltb a.0 b.0)
