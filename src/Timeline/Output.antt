-- ===== src/Timeline/Output.antt =====
-- The report that `main` of analysis/timeline.py prints.
use ssh_honeypot.Base.{ℕ, none, some, List, [], ◌∷◌, ◌++◌, map}
use ssh_honeypot.Base.{if◌then◌else◌, length, leb, take, drop, member, replicate, nat_eq, list_eq}
use ssh_honeypot.Base.Dict.{Dict, get, count_of}
use ssh_honeypot.Base.Sort.{sort}
use ssh_honeypot.Base.Text.{Str, lit, show, ljust, str_ltb}
use ssh_honeypot.Log.{Rec}
use ssh_honeypot.Timeline.{Seen, nothing_seen, Commands, see_passwords, see_commands}
use ssh_honeypot.Timeline.{overlap, only_chpasswd, oldest}

unfoldable pub heading : Str → List Str
heading title = [] ∷ title ∷ replicate (length title) 45 ∷ []

-- `ts[11:19]`
unfoldable pub clock_part : Str → Str
clock_part ts = take 8 (drop 11 ts)

-- `d.get(key, other)`
unfoldable pub get_or : Str → Str → Dict Str Str → Str
get_or other key d = elim (get key d) [ none ↦ other | some v ↦ v ]

-- An entry of `overlap`, whose keys are those of `pw_first`.
unfoldable pub loop_row : Seen → Str → Str
loop_row s pw =
    lit "    "
    ++ ljust 32 pw
    ++ lit "  first login: "
    ++ clock_part (get_or [] pw s.first)
    ++ lit "  count: "
    ++ show (count_of pw s.count)

unfoldable pub loop_rows : Seen → List Str → List Str
loop_rows s [] = lit "  No overlap yet -- chpasswd passwords not seen in login attempts." ∷ []
loop_rows s (pw ∷ pws) =
    lit "  Passwords seen in BOTH login attempts AND chpasswd values:"
    ∷ map (loop_row s) (sort str_ltb (pw ∷ pws))

unfoldable pub only_rows : List Str → List Str
only_rows [] = []
only_rows (pw ∷ pws) =
    []
    ∷ lit "  Passwords in chpasswd but NOT yet seen in login attempts (watch for loop-back):"
    ∷ map (λ p. lit "    " ++ p) (sort str_ltb (pw ∷ pws))

-- A row of either table: the text in its column, both times and the last column.
unfoldable pub columns : ℕ → Str → Str → Str → Str → Str
columns width key first last count =
    lit "  "
    ++ ljust width key
    ++ lit "  "
    ++ ljust 8 first
    ++ lit "  "
    ++ ljust 8 last
    ++ lit "  "
    ++ count

unfoldable pub password_row : Commands → Seen → Str × Str → Str
password_row c s (pw, first) =
    let last = get_or (lit "?") pw s.last in
    let flag : Str = if member pw c.pw_chpasswd then lit " <-- chpasswd" else [] in
    columns 32 (take 32 pw) (clock_part first) (clock_part last)
      (show (count_of pw s.count) ++ flag)

unfoldable pub shown : Str → Str
shown cmd = if leb (length cmd) 60 then cmd else take 57 cmd ++ lit "..."

unfoldable pub command_row : Seen → Str × Str → Str
command_row s (cmd, first) =
    let last = get_or (lit "?") cmd s.last in
    columns 60 (shown cmd) (clock_part first) (clock_part last) (show (count_of cmd s.count))

unfoldable pub table : ℕ → Str → (Str × Str → Str) → Dict Str Str → List Str
table width key row [] = lit "  (none)" ∷ []
table width key row (item ∷ items) =
    columns width key (lit "first") (lit "last") (lit "count") ∷ map row (item ∷ items)

unfoldable pub report : Str → Seen → Commands → List Str
report log_dir s c =
    replicate 60 61
    ∷ lit "FIRST/LAST SEEN TIMELINE"
    ∷ (lit "Log dir: " ++ log_dir)
    ∷ replicate 60 61
    ∷ (heading (lit "CREDENTIAL FEEDBACK LOOP")
        ++ loop_rows s (overlap s c.pw_chpasswd)
        ++ only_rows (only_chpasswd s c.pw_chpasswd)
        ++ heading (lit "NEW PASSWORDS OVER TIME  (first 20 by first-seen)")
        ++ table 32 (lit "password") (password_row c s) (oldest s)
        ++ heading (lit "NEW COMMANDS OVER TIME  (first 20 by first-seen)")
        ++ table 60 (lit "command") (command_row c.seen) (oldest c.seen)
        ++ ([] ∷ []))

unfoldable pub print_timeline : Str → List Rec → List Rec → List Str
print_timeline log_dir auth sess =
    report log_dir (see_passwords nothing_seen auth)
      (see_commands (record { seen = nothing_seen; pw_chpasswd = [] }) sess)
