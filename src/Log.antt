-- ===== src/Log.antt =====
-- The records of the JSON-lines logs, and `load_jsonlines` of analysis/*.py.
--
-- A record is a dictionary of texts. A number in a record (the fields `size`, `attempt`) is held as
-- the text that `%s` prints for it, which is all that the scripts do with it.
-- `json.loads` is the argument `loads`: a record, or nothing where it raises JSONDecodeError.
use ssh_honeypot.Base.{
  Bool, true, false, Option, none, some, List, [], ◌∷◌, if◌then◌else◌, ◌==◌, nat_eq, list_eq,
}
use ssh_honeypot.Base.Dict.{Dict, get}
use ssh_honeypot.Base.Text.{Str, lit, strip}
use Prim.Native.String.{String}

abbrev pub Rec : Type 0
Rec = Dict Str Str

abbrev pub or_default : Str → Option Str → Str
or_default d none = d
or_default d (some s) = s

-- `rec.get(key)`
unfoldable pub field? : String → Rec → Option Str
field? key r = get (lit key) r

-- `rec.get(key, default)`
unfoldable pub field : String → String → Rec → Str
field key default r = or_default (lit default) (field? key r)

unfoldable pub add_parsed : Option Rec → List Rec → List Rec
add_parsed none rs = rs
add_parsed (some r) rs = r ∷ rs

-- The reader of stats.py, sessions.py, timeline.py, gen_stats.py and replay.py, over the lines of the
-- file, or nothing where it cannot be opened.
unfoldable pub lines_of : Option (List Str) → List Str
lines_of none = []
lines_of (some ls) = ls

unfoldable pub parse_stripped : (Str → Option Rec) → List Str → List Rec
parse_stripped loads [] = []
parse_stripped loads (l ∷ ls) =
    let line = strip l in
    let rest = parse_stripped loads ls in if line == [] then rest else add_parsed (loads line) rest

unfoldable pub load_jsonlines : (Str → Option Rec) → Option (List Str) → List Rec
load_jsonlines loads file = parse_stripped loads (lines_of file)

-- The reader of seqgroup.py: the blank test strips, `json.loads` gets the whole line.
unfoldable pub parse_unstripped : (Str → Option Rec) → List Str → List Rec
parse_unstripped loads [] = []
parse_unstripped loads (l ∷ ls) =
    let rest = parse_unstripped loads ls in
    if strip l == [] then rest else add_parsed (loads l) rest

-- Nothing where the file is missing, and the script exits with status 1.
unfoldable pub load_session_log : (Str → Option Rec) → Option (List Str) → Option (List Rec)
load_session_log loads none = none
load_session_log loads (some ls) = some (parse_unstripped loads ls)

-- The messages of session.log that the scripts tell apart by `msg == …` and `msg in (…)`.
pub data Kind : Type 0 where
  auth_attempt handshake_ok shell exec wget_fetch curl_fetch scp_receive scp_file scp_saved : Kind
  other : Kind

unfoldable pub kind_of : Str → Kind
kind_of msg =
    if msg == lit "shell"
    then shell
    else if msg == lit "exec"
    then exec
    else if msg == lit "handshake ok"
    then handshake_ok
    else if msg == lit "wget fetch"
    then wget_fetch
    else if msg == lit "curl fetch"
    then curl_fetch
    else if msg == lit "scp receive"
    then scp_receive
    else if msg == lit "scp file"
    then scp_file
    else if msg == lit "scp payload saved"
    then scp_saved
    else if msg == lit "auth attempt"
    then auth_attempt
    else other

abbrev pub kind : Rec → Kind
kind r = kind_of (field "msg" "" r)

-- `msg in ("shell", "exec")`
abbrev pub is_command : Kind → Bool
is_command shell = true
is_command exec = true
is_command _ = false
