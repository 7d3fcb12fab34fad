-- ===== src/Tests/Terminal.antt =====
-- Tests and examples of the replay.
use ssh_honeypot.Base.{
  ℕ, ◌≡◌, refl, true, false, Option, none, some, List, [], ◌∷◌, sum_by, count_by, All,
  if◌then◌else◌, ◌==◌, nat_eq, list_eq,
}
use ssh_honeypot.Base.Text.{Str, lit, show, digits, starts_with, rstrip_char, drop_while}
use ssh_honeypot.Log.{Rec, kind}
use ssh_honeypot.Replay.Accounts.{measure, of_kept, measure-in_order, commands-items_of}
use ssh_honeypot.Replay.Events.{Event, compact, collect, in_order, echo_chunk, shell_command, wget}
use ssh_honeypot.Replay.Main.{is_command}
use ssh_honeypot.Replay.Options.{Options, defaults, read_options}
use ssh_honeypot.Replay.Options.RoundTrip.{args_of, read_options-args_of}
use ssh_honeypot.Replay.Screen.{
  Item, log, typed, chunk, lines_of, walk, folded, log_line, span_chunks, items_of, change_dir,
}
use ssh_honeypot.Replay.Screen.Dirs.{InAbsolute, lines_of-InAbsolute}
use ssh_honeypot.Replay.Screen.Folding.{Shows, lines_of-Shows}
use ssh_honeypot.Replay.Screen.Output

abbrev six_chunks : List Item
six_chunks =
    chunk (lit "/tmp/a") 1
    ∷ chunk (lit "/tmp/a") 2
    ∷ chunk (lit "/tmp/a") 3
    ∷ chunk (lit "/tmp/a") 4
    ∷ chunk (lit "/tmp/a") 5
    ∷ chunk (lit "/tmp/b") 6
    ∷ log (lit "x")
    ∷ typed false (lit "cd /tmp/")
    ∷ typed true (lit "cd b")
    ∷ []

lines_of-Shows_example : Shows six_chunks (lines_of true six_chunks)
lines_of-Shows_example = lines_of-Shows true six_chunks

lines_of-InAbsolute_example : All InAbsolute (lines_of true six_chunks)
lines_of-InAbsolute_example = lines_of-InAbsolute true six_chunks

fold_test :
    lines_of true (
      chunk (lit "a") 1
      ∷ chunk (lit "a") 2
      ∷ chunk (lit "a") 3
      ∷ chunk (lit "a") 4
      ∷ chunk (lit "a") 5
      ∷ log (lit "x")
      ∷ [])
    ≡ folded 5 (lit "a") 15 ∷ log_line (lit "x") ∷ []
unfolding lines_of walk span_chunks lit list_eq nat_eq
fold_test = refl

change_dir_test : change_dir (lit "/var/") (lit "www") ≡ lit "/var/www"
unfolding change_dir starts_with rstrip_char drop_while lit list_eq nat_eq
change_dir_test = refl

abbrev three_records : List Rec
three_records =
    ((lit "sid", lit "s1") ∷ (lit "msg", lit "shell") ∷ (lit "command", lit "ls") ∷ [])
    ∷ ((lit "sid", lit "s2") ∷ (lit "msg", lit "wget fetch") ∷ [])
    ∷ ((lit "sid", lit "s1") ∷ (lit "msg", lit "disconnect") ∷ [])
    ∷ []

measure-in_order_example :
    measure (λ _. 1) (in_order (collect [] three_records))
    ≡ sum_by (λ r. of_kept (λ _. 1) r (compact (kind r) r)) three_records
measure-in_order_example = measure-in_order (λ _. 1) three_records

abbrev three_events : List Event
three_events =
    record { time = lit "1"; payload = echo_chunk (lit "/tmp/a") 4 }
    ∷ record { time = lit "2"; payload = wget (lit "u") }
    ∷ record { time = lit "3"; payload = shell_command (lit "ls") }
    ∷ []

commands_test :
    count_by Output.is_command (items_of three_events) ≡ count_by is_command three_events
commands_test = commands-items_of three_events

-- A reader for one digit.
abbrev one_digit : Str → Option ℕ
one_digit s = if s == lit "3" then some 3 else none

abbrev some_options : Options
some_options = record {
  session = some (lit "ab");
  ip = none;
  min_cmds = 3;
  fold = false;
  color = true;
}

one_digit_three : one_digit (show 3) ≡ some 3
unfolding show digits lit list_eq nat_eq
one_digit_three = refl

read_options_test : read_options one_digit (args_of some_options) defaults ≡ some some_options
read_options_test = read_options-args_of one_digit some_options one_digit_three
