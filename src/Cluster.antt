-- ===== src/Cluster.antt =====
-- analysis/cluster.py: the rules that assign a command shape to a cluster, tried in order.
-- Report has the tables that `main` writes.
pub mod Output
pub mod Report
pub mod TieBreaks
pub mod Laws
pub mod Sample
use Prim.Native.String.{String}
use ssh_honeypot.Base.{ℕ, Bool, ◌&&◌, ◌||◌, not, List, [], ◌∷◌, any, member, ◌==◌, nat_eq, list_eq}
use ssh_honeypot.Base.{if◌then◌else◌}
use ssh_honeypot.Base.Text.{Str, lit, strip, starts_with, contains}

-- The normalised commands of a session, in order.
abbrev pub Shape : Type 0
Shape = List Str

-- Some needle is a substring of some entry.
unfoldable pub any_has : Shape → List String → Bool
any_has shape needles = any (λ cmd. any (λ n. contains cmd (lit n)) needles) shape

-- The third test of C05: a call of `passwd` on a line that does not name etc/passwd.
unfoldable pub calls_passwd : Str → Bool
calls_passwd cmd =
    not (contains cmd (lit "etc/passwd"))
    && (strip cmd == lit "passwd" || starts_with (strip cmd) (lit "passwd "))

pub record Rule : Type 0 where
  pub id : Str
  pub label : Str
  pub desc : Str
  pub match_fn : Shape → Bool

abbrev rule : String → String → String → (Shape → Bool) → Rule
rule id label desc fn = record { id = lit id; label = lit label; desc = lit desc; match_fn = fn }

unfoldable pub rules : List Rule
rules =
    rule "C00" "empty-session" "shape is empty (no exec or shell commands observed)" (λ s. s == [])
    ∷ rule "C01" "stdout-hex-beacon"
        "exactly ['echo -e \"<HEX>\"'] -- hex bytes sent to stdout, no file redirect"
        (λ s. s == (lit "echo -e \"<HEX>\"" ∷ []))
    ∷ rule "C02" "sshchk-probe" "SSHCHK_<TOKEN>_BEGIN/END framing present in any command"
        (λ s. any_has s ("SSHCHK" ∷ []))
    ∷ rule "C03" "hex-file-inject"
        "[HEX_INJECT -> path] entry present (echo hex chunks writing to a file)"
        (λ s. any_has s ("[HEX_INJECT ->" ∷ []))
    ∷ rule "C04" "writable-dir-probe"
        "'for d in /dev/shm /tmp /var/run...' iteration, or w.sh / astats / watcher-netai"
        (λ s. any_has s ("for d in /dev/shm" ∷ "w.sh" ∷ "astats" ∷ "watcher-netai" ∷ []))
    ∷ rule "C05" "passwd-changer"
        "reads /etc/passwd AND has a standalone passwd call or chpasswd (not just the cat line)"
        (λ s.
          any_has s ("cat /etc/passwd" ∷ []) && (any_has s ("chpasswd" ∷ []) || any calls_passwd s))
    ∷ rule "C06" "single-cmd-probe"
        "exactly one command: 'uname -s -m', 'uname -a', or 'hostname' (bare fingerprint probe)"
        (λ s.
          member s ((lit "uname -s -m" ∷ []) ∷ (lit "uname -a" ∷ []) ∷ (lit "hostname" ∷ []) ∷ []))
    ∷ rule "C07" "wget-curl-pipe-sh"
        "wget or curl output piped directly to sh ('| sh' present, fileless exec)"
        (λ s. any_has s ("| sh" ∷ []) && any_has s ("wget" ∷ "curl" ∷ "[wget ->" ∷ "[curl ->" ∷ []))
    ∷ rule "C08" "scp-upload"
        "[scp upload started] or 'scp -t' present (SCP wire protocol, file received)"
        (λ s. any_has s ("[scp upload started]" ∷ "scp -t" ∷ []))
    ∷ rule "C09" "gpu-recon"
        "lspci piped to a GPU-specific grep: '| egrep VGA', '| grep 3D', or '| grep VGA'"
        (λ s.
          any_has s (
            "lspci | egrep VGA" ∷ "lspci | grep 3D" ∷ "lspci | grep VGA" ∷ "lspci | egrep 3D" ∷ []))
    ∷ rule "C11" "meow-dropper" "'meow' or 'modzmodz' present"
        (λ s. any_has s ("meow" ∷ "modzmodz" ∷ []))
    ∷ rule "C14" "wowo-binary-dropper"
        "'vipies', 'wowo', or 'runningaway' present (curl-O binary download, not piped to sh)"
        (λ s. any_has s ("vipies" ∷ "wowo" ∷ "runningaway" ∷ []))
    ∷ rule "C10" "multi-pkg-scout"
        "'which apt' or 'apt-get' AND 'which yum'/'yum'/'pacman'/'zypper' (multi-distro availability check)"
        (λ s.
          any_has s ("which apt" ∷ "apt-get" ∷ [])
          && any_has s ("which yum" ∷ "yum " ∷ "pacman" ∷ "zypper" ∷ []))
    ∷ rule "C15" "tmp-chmod-bash-exec"
        "'chmod +x' and 'bash -c ./' both present (execute previously uploaded binary from /tmp)"
        (λ s. any_has s ("chmod +x" ∷ []) && any_has s ("bash -c ./" ∷ []))
    ∷ rule "C16" "sep-framed-probe"
        "'---SEP---' delimiter used to frame structured multi-field output"
        (λ s. any_has s ("---SEP---" ∷ []))
    ∷ []

-- `_apply_rules` of analysis/classify.py, and the loop of `main` here: the first rule that matches.
unfoldable pub first_match : List Rule → Shape → Str × Str
first_match [] shape = (lit "TAIL", lit "no rule matched")
first_match (r ∷ rs) shape =
    let rest = first_match rs shape in if r.match_fn shape then (r.id, r.desc) else rest

unfoldable pub apply_rules : Shape → Str × Str
apply_rules shape = first_match rules shape
