-- ===== src/Periods/Metrics.antt =====
-- The metrics of analysis/periods.py: the phase of a command, and `compute_stats`.
use Prim.Native.String.{String}
use ssh_honeypot.Base.{ℕ, Bool, ◌&&◌, ◌||◌, not, Option, none, some, List, [], ◌∷◌, ◌++◌, map}
use ssh_honeypot.Base.{
  if◌then◌else◌, drop, select, member, length, count_by, ◌==◌, nat_eq, list_eq, option_eq,
}
use ssh_honeypot.Base.Dict.{Dict, get, incr}
use ssh_honeypot.Base.Distinct.{distinct_onto}
use ssh_honeypot.Base.Text.{Str, lit, strip, lstrip, starts_with, first_word, before_first}
use ssh_honeypot.Log.{Rec, field, field?, kind, is_command}
use ssh_honeypot.Passwords.{is_attempt}

-- `PHASES`, one row for each phase.
unfoldable pub row : String → List String → Dict Str String
row phase words = map (λ w. (lit w, phase)) words

unfoldable pub phases : Dict Str String
phases =
    row "RECON" (
      "uname" ∷ "id" ∷ "whoami" ∷ "hostname" ∷ "nproc" ∷ "lspci" ∷ "lscpu" ∷ "free" ∷ "df" ∷ "ps"
      ∷ "cat" ∷ "ls" ∷ "find" ∷ "nvidia-smi" ∷ "ifconfig" ∷ "ip" ∷ "netstat" ∷ "env" ∷ [])
    ++ row "STAGE" ("mkdir" ∷ "touch" ∷ "cd" ∷ "cp" ∷ "mv" ∷ [])
    ++ row "UPLOAD" ("scp" ∷ "curl" ∷ "wget" ∷ "nc" ∷ [])
    ++ row "EXEC" ("chmod" ∷ "bash" ∷ "sh" ∷ [])
    ++ row "PERSIST" ("crontab" ∷ "systemctl" ∷ "chpasswd" ∷ "useradd" ∷ "usermod" ∷ [])
    ++ row "CLEANUP" ("killall" ∷ "kill" ∷ "pkill" ∷ "chattr" ∷ [])

-- `if cmd.startswith("sudo "): cmd = cmd[5:].strip()`
unfoldable pub without_sudo : Str → Str
without_sudo cmd = if starts_with cmd (lit "sudo ") then strip (drop 5 cmd) else cmd

-- A path: `./…`, or `/…/…`.
unfoldable pub is_path : Str → Bool
is_path first =
    starts_with first (lit "./") || (starts_with first (lit "/") && member 47 (drop 1 first))

abbrev or_other : Option String → String
or_other none = "OTHER"
or_other (some phase) = phase

-- `classify`, by its table.
unfoldable pub classify_by : Dict Str String → Str → String
classify_by table cmd =
    let first = first_word (without_sudo (strip cmd)) in
    if is_path first then "EXEC" else or_other (get first table)

unfoldable pub classify : Str → String
classify = classify_by phases

-- The counters.
unfoldable pub count_all {ℓ} : {A : Type ℓ} → (A → Str) → Dict Str ℕ → List A → Dict Str ℕ
count_all f d [] = d
count_all f d (x ∷ xs) = count_all f (incr (f x) d) xs

-- `e.get("remote", ":").split(":")[0]`
unfoldable pub ip_of : Rec → Str
ip_of e = before_first 58 (field "remote" ":" e)

unfoldable pub passwords_in : List Rec → List Str
passwords_in [] = []
passwords_in (e ∷ es) =
    let rest = passwords_in es in elim (field? "password" e) [ none ↦ rest | some pw ↦ pw ∷ rest ]

unfoldable pub commands_in : List Rec → List Str
commands_in [] = []
commands_in (e ∷ es) =
    let rest = commands_in es in
    elim (field? "command" e) [
      | none ↦ rest
      | some cmd ↦ if is_command (kind e) then cmd ∷ rest else rest
    ]

-- `phase_counts`, keyed by the phase's name.
unfoldable pub phase_counts : List Str → Dict Str ℕ
phase_counts = count_all (λ c. lit (classify c)) []

pub record Stats : Type 0 where
  pub attempts : ℕ
  pub accepted : ℕ
  pub unique_ips : ℕ
  pub single_shot : ℕ
  pub commands : ℕ
  pub passwords : Dict Str ℕ
  pub top_cmds : Dict Str ℕ
  pub phases : Dict Str ℕ

unfoldable pub single_shots : Dict Str ℕ → ℕ
single_shots by_ip = count_by (λ e. e.1 == 1) by_ip

unfoldable pub compute_stats : List Rec → List Rec → Stats
compute_stats auth sess =
    let attempts = select (λ e. is_attempt (kind e)) auth in
    let commands = commands_in sess in
    record {
      attempts = length attempts;
      accepted = count_by (λ e. field? "outcome" e == some (lit "accepted")) attempts;
      unique_ips = length (distinct_onto [] (map ip_of attempts));
      single_shot = single_shots (count_all ip_of [] attempts);
      commands = length commands;
      passwords = count_all (λ pw. pw) [] (passwords_in attempts);
      top_cmds =
          count_all (λ c. first_word (lstrip c)) [] (select (λ c. not (strip c == [])) commands);
      phases = phase_counts commands;
    }
