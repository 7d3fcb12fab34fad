-- ===== src/Tests/Patterns.antt =====
-- Runs of the patterns of the scripts on short texts.
use ssh_honeypot.Base.{◌≡◌, refl, true, nat_eq, list_eq}
use ssh_honeypot.Base.Text.{lit, is_space}
use ssh_honeypot.Tests.{ascii}
use ssh_honeypot.Regex.{
  run, match_at, matches, search_from, search_re, group_or, repeat, flat_map, step_chr, text,
  one_of, at_bound, scan, concat, sub, count_matches, hex_byte,
}
use ssh_honeypot.Patterns.{echo_re, target_re, ip_re}
use ssh_honeypot.Seqgroup.{is_echo_inject, echo_target, normalize, hexblob_re, digits_re}

is_echo_inject_test : is_echo_inject (lit "echo -e -n \"x") ≡ true
unfolding is_echo_inject echo_re matches match_at run repeat flat_map step_chr text one_of lit
    is_space nat_eq list_eq
is_echo_inject_test = refl

echo_target_test : echo_target (lit "echo -n 'x' >> /tmp/a b") ≡ lit "/tmp/a"
unfolding echo_target target_re search_re search_from match_at run repeat flat_map step_chr text
    one_of group_or lit is_space nat_eq list_eq
echo_target_test = refl

hex_bytes_test : count_matches hex_byte (lit "a\\x7f\\x45b\\xzz") ≡ 2
unfolding count_matches hex_byte scan match_at run repeat flat_map step_chr text one_of lit nat_eq
    list_eq
hex_bytes_test = refl

normalize_test : normalize ⦃u = ascii⦄ (lit "wget 10.0.0.1/x 123456") ≡ lit "wget <IP>/x <N>"
unfolding normalize ip_re hexblob_re digits_re sub concat scan match_at run repeat flat_map step_chr
    at_bound text one_of lit nat_eq list_eq
normalize_test = refl
