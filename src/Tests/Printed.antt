-- ===== src/Tests/Printed.antt =====
-- Tests of the texts that timeline.py, passwords.py and cluster.py print.
use ssh_honeypot.Base.{◌≡◌, refl, none, [], ◌∷◌, nat_eq, list_eq}
use ssh_honeypot.Base.Dict.{get}
use ssh_honeypot.Base.Text.{lit, ljust, rjust, show, digits}
use ssh_honeypot.Cluster.Output.{Host, write_report, written}
use ssh_honeypot.Cluster.Report.{Pattern, sessions_of}
use ssh_honeypot.Passwords.{bar_width}
use ssh_honeypot.Passwords.Output.{bucket_row}
use ssh_honeypot.Timeline.{Seen}
use ssh_honeypot.Timeline.Output.{loop_row, clock_part, get_or}

abbrev admin_seen : Seen
admin_seen = record {
  first = (lit "admin", lit "2025-01-02T03:04:05Z") ∷ [];
  last = (lit "admin", lit "2025-01-03T03:04:05Z") ∷ [];
  count = (lit "admin", 2) ∷ [];
}

loop_row_test :
    loop_row admin_seen (lit "admin")
    ≡ lit "    admin                             first login: 03:04:05  count: 2"
unfolding loop_row clock_part get_or get list_eq nat_eq lit ljust show digits
loop_row_test = refl

bucket_row_test : bucket_row 3 ((lit "1-4", 1) ∷ []) (lit "1-4") ≡ lit "  1-4        1  ##########"
unfolding bucket_row bar_width get list_eq nat_eq lit ljust rjust show digits
bucket_row_test = refl

abbrev no_sessions : Pattern
no_sessions = record {
  fingerprint_id = lit "0";
  session_count = 0;
  ip_count = 0;
  command_shape = [];
  example_raw = [];
  example_ips = [];
}

abbrev plain_host : Host
plain_host = record { str_of = λ ss. []; percent = λ part whole. [] }

write_report_test : write_report plain_host (lit "p.json") (no_sessions ∷ []) ≡ none
unfolding write_report written sessions_of
write_report_test = refl
