-- ===== src/Replay/Screen/Output.antt =====
-- What `render_session` of analysis/replay.py prints, line by line.
use Prim.Native.String.{String}
use ssh_honeypot.Base.{
  ℕ, ◌-◌, ◌/◌, ◌%◌, Bool, true, false, Option, none, some, List, [], ◌∷◌, ◌++◌, map,
}
use ssh_honeypot.Base.{if◌then◌else◌, ltb, length, replicate, count_by, sum_by, nat_eq}
use ssh_honeypot.Base.Text.{Str, lit, show}
use ssh_honeypot.Periods.{replace_z}
use ssh_honeypot.Regex.{hex_byte, count_matches}
use ssh_honeypot.Replay.{echo_target}
use ssh_honeypot.Replay.Events.{Event, start_of}
use ssh_honeypot.Replay.Screen.{
  Item, log, typed, chunk, items_of, meta_of, Line, log_line, folded, chunk_line, typed_line,
  lines_of,
}

-- `"%.1f" % (n / 1024)`, `datetime.fromisoformat` (in microseconds), and its text in the time zone of
-- Paris.
pub record Host : Type 0 where
  pub kb : ℕ → Str
  pub parse_iso : Str → Option ℕ
  pub paris : ℕ → Str

-- `c`
unfoldable pub paint : Bool → String → Str → Str
paint use_color code s = if use_color then (27 ∷ lit code) ++ s ++ (27 ∷ lit "[0m") else s

unfoldable pub prompt : Bool → Str → Str
prompt use_color cwd =
    paint use_color "[32m" (lit "root@ubuntu")
    ++ lit ":"
    ++ paint use_color "[36m" cwd
    ++ paint use_color "[32m" (lit "# ")

-- `evs[-1][0]`
abbrev pub last_time : List Event → Str
last_time [] = []
last_time (e ∷ []) = e.time
last_time (e ∷ f ∷ es) = last_time (f ∷ es)

-- `x[1] != "log"`
abbrev pub is_command : Item → Bool
is_command (log s) = false
is_command (typed b s) = true
is_command (chunk t n) = true

module _ (host : Host) where
  unfoldable pub fold_text : ℕ → Str → ℕ → Str
  fold_text n target bytes =
      lit "[... "
      ++ show n
      ++ lit " echo chunks -> "
      ++ target
      ++ lit " (~"
      ++ host.kb bytes
      ++ lit " KB ELF)]"

  -- `fold_echo_run`, which raises IndexError for no commands.
  unfoldable pub fold_echo_run : List Str → Option Str
  fold_echo_run [] = none
  fold_echo_run (cmd ∷ cmds) = some (
      fold_text (length (cmd ∷ cmds)) (echo_target cmd)
        (sum_by (λ k. count_matches hex_byte k) (cmd ∷ cmds)))

  unfoldable pub parse_ts : Str → Option ℕ
  parse_ts ts = host.parse_iso (replace_z ts)

  unfoldable pub fmt_ts : Str → Str
  fmt_ts ts = elim (parse_ts ts) [ none ↦ lit "?" | some t ↦ host.paris t ++ lit " Bordeaux" ]

  -- `int` rounds towards 0; a negative number of seconds is less than 60.
  unfoldable pub duration : ℕ → ℕ → Str
  duration t0 t1 =
      let secs = (t1 - t0) / 1000000 in
      let back = (t0 - t1) / 1000000 in
      if ltb 0 back
      then lit "-" ++ show back ++ lit "s"
      else if ltb secs 60
      then show secs ++ lit "s"
      else show (secs / 60) ++ lit "m" ++ show (secs % 60) ++ lit "s"

  unfoldable pub fmt_duration : Option ℕ → Option ℕ → Str
  fmt_duration none _ = lit "?"
  fmt_duration (some t0) none = lit "?"
  fmt_duration (some t0) (some t1) = duration t0 t1

  module _ (use_color : Bool) where
    unfoldable pub print_line : Line → Str
    print_line (log_line s) = paint use_color "[2m" s
    print_line (folded n target bytes) = paint use_color "[33m" (fold_text n target bytes)
    print_line (chunk_line cwd target n) =
        prompt use_color cwd
        ++ lit "[echo chunk -> "
        ++ target
        ++ lit " (~"
        ++ host.kb n
        ++ lit " KB)]"
    print_line (typed_line cwd is_exec cmd) =
        prompt use_color cwd
        ++ (if is_exec then paint use_color "[2m" (lit "[exec] ") else [])
        ++ cmd

    unfoldable pub header : Str → List Event → List Item → List Str
    header sid evs items =
        let m = meta_of evs in
        let sep = paint use_color "[1m" (replicate 70 61) in
        sep
        ∷ paint use_color "[1m" (lit "  SESSION " ++ sid)
        ∷ (lit "  "
            ++ paint use_color "[33m" m.ip
            ++ lit "  |  "
            ++ m.client
            ++ lit "  |  "
            ++ fmt_ts (start_of evs))
        ∷ (lit "  duration: "
            ++ fmt_duration (parse_ts (start_of evs)) (parse_ts (last_time evs))
            ++ lit "  |  "
            ++ show (count_by is_command items)
            ++ lit " commands")
        ∷ sep
        ∷ []
        ∷ []

    unfoldable pub body : Bool → List Item → List Str
    body fold [] = paint use_color "[2m" (lit "  (no commands)") ∷ [] ∷ []
    body fold (x ∷ items) = map print_line (lines_of fold (x ∷ items)) ++ ([] ∷ [])

    unfoldable pub render_session : Bool → Str → List Event → List Str
    render_session fold sid [] = []
    render_session fold sid (e ∷ es) =
        header sid (e ∷ es) (items_of (e ∷ es)) ++ body fold (items_of (e ∷ es))
