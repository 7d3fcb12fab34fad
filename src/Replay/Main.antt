-- ===== src/Replay/Main.antt =====
-- `main` of analysis/replay.py: the sessions that pass the filters, rendered in order.
use ssh_honeypot.Base.{ℕ, Bool, true, false, ◌&&◌, Option, none, some, List, [], ◌∷◌, ◌++◌, map}
use ssh_honeypot.Base.{leb, length, count_by, select, nat_eq, list_eq}
use ssh_honeypot.Base.Text.{Str, contains}
use ssh_honeypot.Log.{Rec}
use ssh_honeypot.Replay.Events.{
  echo_chunk, shell_command, exec_command, Event, Events, collect, in_order,
}
use ssh_honeypot.Replay.Options.{Options}
use ssh_honeypot.Replay.Screen.{meta_of}
use ssh_honeypot.Replay.Screen.Output.{Host, render_session}

-- `filter and filter not in s` is false.
unfoldable pub passes : Option Str → Str → Bool
passes none s = true
passes (some f) s = contains s f

-- `msg in ("shell", "exec")`
abbrev pub is_command : Event → Bool
is_command e = elim e.payload [
  | echo_chunk t n ↦ true
  | shell_command cmd ↦ true
  | exec_command cmd ↦ true
  | _ ↦ false
]

unfoldable pub is_shown : Options → Str × List Event → Bool
is_shown o (sid, evs) =
    passes o.session sid && passes o.ip (meta_of evs).ip && leb o.min_cmds (count_by is_command evs)

unfoldable pub concat : List (List Str) → List Str
concat [] = []
concat (x ∷ xs) = x ++ concat xs

-- The exit with status 1, or what is printed and the number of sessions; there are none where no session
-- matches the filters.
pub data Outcome : Type 0 where
  no_sessions : Outcome
  printed : List Str → ℕ → Outcome

module _ (host : Host) where
  unfoldable pub show_sessions : Options → Events → Outcome
  show_sessions o [] = no_sessions
  show_sessions o (d ∷ ds) =
      let shown = select (is_shown o) (in_order (d ∷ ds)) in
      printed (concat (map (λ (sid, evs). render_session host o.color o.fold sid evs) shown))
        (length shown)

  unfoldable pub replay : Options → List Rec → Outcome
  replay o rs = show_sessions o (collect [] rs)
