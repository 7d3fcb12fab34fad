-- ===== src/Cluster/TieBreaks.antt =====
-- The tie-break guide of analysis/cluster.py: pairs of clusters that look alike, what they share and
-- what tells them apart.
use Prim.Native.String.{String}
use ssh_honeypot.Base.{List, [], ◌∷◌}

pub record TieBreak : Type 0 where
  pub pair : String
  pub similarity : String
  pub distinction : String

unfoldable pub tie_breaks : List TieBreak
tie_breaks =
    record {
      pair = "C06 sub-commands";
      similarity = "Three exact commands map to C06 (single-cmd-probe).";
      distinction =
          "'uname -s -m' (arch + kernel name), 'uname -a' (full kernel string), 'hostname' (machine name only). Distinguish by the exact command if sub-family matters.";
    }
    ∷ record {
      pair = "C03 vs C08";
      similarity = "Both write a file to disk on the honeypot.";
      distinction =
          "C03: written via echo hex chunks ([HEX_INJECT -> path] in shape, hundreds or thousands of echo commands). C08: written via SCP wire protocol ([scp upload started] in shape, single protocol exchange). Distinguish by [HEX_INJECT] vs [scp upload started].";
    }
    ∷ record {
      pair = "C07 vs C14";
      similarity = "Both fetch a remote resource with wget or curl.";
      distinction =
          "C07: fetched bytes are piped to sh ('| sh' in a command, no file saved). C14: fetched bytes are saved to disk (curl -O, no | sh) and executed separately. Distinguish by '| sh' absent vs present.";
    }
    ∷ record {
      pair = "C01 vs C07";
      similarity = "Both have hex content in an echo command.";
      distinction =
          "C01: echo sends hex to stdout only -- no download, no file, no sh. C07: the wget/curl | sh chain is the main command; echo is a separate beacon step. Distinguish by 'wget'/'curl'/'| sh' present in C07, absent in C01.";
    }
    ∷ record {
      pair = "C08 vs C15";
      similarity = "Both relate to executing a binary from /tmp.";
      distinction =
          "C08: the upload session (SCP receive side, [scp upload started]). C15: the execute session (chmod +x <name> + bash -c ./<name>), typically a separate connection after the binary is already on disk. Distinguish by [scp upload started] vs 'bash -c ./'.";
    }
    ∷ record {
      pair = "C02 vs C16";
      similarity = "Both use a delimiter token to frame structured output.";
      distinction =
          "C02: SSHCHK_<TOKEN>_BEGIN ... END with arithmetic proof-of-work ($((expr))). C16: '---SEP---' as a plain field separator, no token, no math expression. Distinguish by 'SSHCHK' vs '---SEP---'.";
    }
    ∷ record {
      pair = "C04 vs C10";
      similarity = "Both are multi-command system probe sessions.";
      distinction =
          "C04: first or second command is the writable-dir iteration ('for d in /dev/shm /tmp /var/run...'). C10: commands include apt-get AND yum/pacman/zypper (multi-distro package manager enumeration). These do not overlap in practice (C04 is checked first).";
    }
    ∷ []
