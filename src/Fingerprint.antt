-- ===== src/Fingerprint.antt =====
-- analysis/fingerprint.py: the command shape of a session, and the grouping of sessions by shape.
pub mod Shape
pub mod Collapse
pub mod Fuel
pub mod Groups
pub mod Summary
use ssh_honeypot.Base.{ℕ, ◌+◌, Bool, ◌||◌, ◌&&◌, not, Option, none, some, List, [], ◌∷◌, ◌++◌, map}
use ssh_honeypot.Base.{if◌then◌else◌}
use ssh_honeypot.Base.Text.{Str, Unicode, lit, contains, in_range, rstrip_char}
use ssh_honeypot.Patterns.{ip_re}
use ssh_honeypot.Regex.{
  Re, alt, chr, group, seq, line_start, line_end, ◌·◌, plus, up_to, at_least, text, one_of, star,
  letter_or_digit, hex_digit, hex_byte, matches, found, group_or, sub, Place,
}
use ssh_honeypot.Replay.{is_echo_inject}

-- An echo of hex bytes that is appended to a file.
unfoldable pub is_hex_inject : Str → Bool
is_hex_inject cmd = is_echo_inject cmd && found hex_byte cmd && contains cmd (lit ">>")

-- `(\\x[0-9a-fA-F]{2}){2,}`
unfoldable pub hex_re : Re
hex_re = at_least 2 hex_byte

-- `[A-Za-z0-9+/]{40,}={0,2}`
unfoldable pub b64_re : Re
b64_re = at_least 40 (alt (chr letter_or_digit) (one_of (lit "+/"))) · up_to 2 (text (lit "="))

-- `((?:/tmp|/lib|/dev/shm|/var/run|/mnt|/root|/etc|/var/lib)/)[a-zA-Z0-9]{8,}`
unfoldable pub rand_path : Re
rand_path =
    group (
      alt (text (lit "/tmp")) (
        alt (text (lit "/lib")) (
          alt (text (lit "/dev/shm")) (
            alt (text (lit "/var/run")) (
              alt (text (lit "/mnt"))
                (alt (text (lit "/root")) (alt (text (lit "/etc")) (text (lit "/var/lib"))))))))
      · text (lit "/"))
    · at_least 8 (chr letter_or_digit)

-- `SSHCHK_[0-9a-f]+_(BEGIN|END)`
unfoldable pub sshchk_re : Re
sshchk_re =
    text (lit "SSHCHK_")
    · plus (chr (λ c. in_range 48 57 c || in_range 97 102 c))
    · text (lit "_")
    · group (alt (text (lit "BEGIN")) (text (lit "END")))

-- `^[a-zA-Z0-9]{8,}$`
unfoldable pub rand_name : Re
rand_name = line_start · at_least 8 (chr letter_or_digit) · line_end

-- The first group of a match.
abbrev pub group_1 : Place → Str
group_1 q = group_or [] (some q)

-- `_RAND_PATH.sub(r'\1<RAND>', …)`
unfoldable pub hide_random_path : Str → Str
hide_random_path = sub rand_path (λ q. group_1 q ++ lit "<RAND>")

module _ ⦃u : Unicode⦄ where
  -- `<IP>:\d{1,5}`
  unfoldable pub ip_port_re : Re
  ip_port_re = text (lit "<IP>:") · chr u.decimal · up_to 4 (chr u.decimal)

  unfoldable pub norm_url : Str → Str
  norm_url url =
      sub b64_re (λ _. lit "<PAYLOAD>")
        (sub ip_port_re (λ _. lit "<IP>:<PORT>") (sub ip_re (λ _. lit "<IP>") (rstrip_char 41 url)))

  unfoldable pub norm_cmd : Str → Str
  norm_cmd cmd =
      sub b64_re (λ _. lit "<PAYLOAD>")
        (hide_random_path (
          sub ip_port_re (λ _. lit "<IP>:<PORT>")
            (sub ip_re (λ _. lit "<IP>")
              (sub hex_re (λ _. lit "<HEX>")
                (sub sshchk_re (λ q. lit "SSHCHK_<TOKEN>_" ++ group_1 q) cmd)))))
