-- ===== src/Replay.antt =====
-- analysis/replay.py: the tests for echo chunks that fingerprint.py takes over.
pub mod Events
pub mod Screen
pub mod Options
pub mod Main
pub mod Accounts
use ssh_honeypot.Base.{Bool}
use ssh_honeypot.Base.Text.{Str, lit, strip}
use ssh_honeypot.Patterns.{echo_re, target_re}
use ssh_honeypot.Regex.{matches, search_re, group_or}

unfoldable pub is_echo_inject : Str → Bool
is_echo_inject cmd = matches echo_re (strip cmd)

unfoldable pub echo_target : Str → Str
echo_target cmd = group_or (lit "?") (search_re target_re cmd)
