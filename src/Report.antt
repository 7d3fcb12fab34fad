-- ===== src/Report.antt =====
-- analysis/report.py: the phases of commands, the label of a bot, the sentence on a session, and the
-- chains of numeric passwords.
pub mod Chains
pub mod Alerts
pub mod Header
pub mod Sources
pub mod Listing
use Prim.Native.String.{String}
use ssh_honeypot.Base.{
  ℕ, ◌+◌, ◌-◌, Bool, ◌&&◌, ◌||◌, not, Option, none, some, List, [], ◌∷◌, ◌++◌, map,
}
use ssh_honeypot.Base.{
  if◌then◌else◌, any, all, select, count_by, take, length, ltb, member, ◌==◌, nat_eq, list_eq,
}
use ssh_honeypot.Base.Dict.{Dict}
use ssh_honeypot.Base.Distinct.{distinct_onto}
use ssh_honeypot.Base.Sort.{sort}
use ssh_honeypot.Base.Text.{
  Str, Unicode, lit, strip, lstrip, starts_with, contains, first_word, join, show, drop_while,
  in_range, str_ltb,
}
use ssh_honeypot.Periods.Metrics.{row, classify_by}
use mathlib.Core.List.{reverse}

-- `PHASES`
unfoldable pub phases : Dict Str String
phases =
    row "RECON" (
      "uname" ∷ "id" ∷ "whoami" ∷ "hostname" ∷ "nproc" ∷ "lspci" ∷ "lscpu" ∷ "free" ∷ "df" ∷ "ps"
      ∷ "top" ∷ "cat" ∷ "ls" ∷ "find" ∷ "nvidia-smi" ∷ "ifconfig" ∷ "ip" ∷ "netstat" ∷ "env"
      ∷ "printenv" ∷ [])
    ++ row "STAGE" ("mkdir" ∷ "touch" ∷ "cd" ∷ "cp" ∷ "mv" ∷ [])
    ++ row "UPLOAD" ("scp" ∷ "curl" ∷ "wget" ∷ "tftp" ∷ "nc" ∷ "python" ∷ [])
    ++ row "EXEC" ("chmod" ∷ "bash" ∷ "sh" ∷ "./" ∷ [])
    ++ row "PERSIST" ("crontab" ∷ "systemctl" ∷ "chpasswd" ∷ "useradd" ∷ "usermod" ∷ [])
    ++ row "CLEANUP" ("killall" ∷ "kill" ∷ "pkill" ∷ "chattr" ∷ "history" ∷ [])

unfoldable pub classify : Str → String
classify = classify_by phases

-- `fingerprint_bot`
unfoldable pub fingerprint_bot : List Str → Str → String
fingerprint_bot commands banner =
    let cmds = join (lit " ") commands in
    let has = λ (s : String). contains cmds (lit s) in
    let has_scp_t = has "scp" && has "-t" in
    let has_mining = has "xmrig" || has "minerd" || has "stratum" || has "monero" in
    let has_curl = has "curl" || has "wget" in
    let has_lib_dir = has "/lib/" && has "mkdir" in
    if has "lspci" && has "nproc" && (has_scp_t || has_lib_dir)
    then "Diicot / crypto-miner dropper"
    else if has_scp_t || has_lib_dir
    then "dropper (unknown family)"
    else if has_curl || has_mining
    then "downloader"
    else if has "lspci" || has "nproc"
    then "miner recon"
    else if contains banner (lit "SSH-2.0-Go")
    then "Go scanner (credential stuffing only)"
    else "generic scanner"

-- `[c for c, p in zip(commands, phases) if p == phase]`
unfoldable pub in_phase : String → List Str → List Str
in_phase phase commands = select (λ c. lit (classify c) == lit phase) commands

unfoldable pub some_has : String → List Str → Bool
some_has s cmds = any (λ c. contains c (lit s)) cmds

abbrev pub when : Bool → Str → List Str
when b s = if b then s ∷ [] else []

abbrev pub or_system : List Str → Str
or_system [] = lit "system"
or_system (t ∷ ts) = join (lit ", ") (t ∷ ts)

-- The part on what a bot looked for, from its RECON commands.
unfoldable pub recon_part : List Str → List Str
recon_part [] = []
recon_part (c ∷ cs) =
    let cmds : List Str = c ∷ cs in
    let targets =
      when (some_has "lspci" cmds || some_has "nvidia" cmds) (lit "GPU")
      ++ when (some_has "nproc" cmds) (lit "CPU cores")
      ++ when (some_has "uname" cmds) (lit "OS/kernel")
      ++ when (some_has "/etc/passwd" cmds) (lit "user list") in
    (lit "fingerprinted " ++ or_system targets) ∷ []

-- `c.split()[0]` and `c.split()[-1]` of a text with a word in it.
unfoldable pub word_first : Str → Str
word_first c = first_word (lstrip c)

unfoldable pub word_last : Str → Str
word_last c = reverse (first_word (lstrip (reverse c)))

unfoldable pub dirs_part : List Str → Str
dirs_part [] = lit "staged directories"
dirs_part (d ∷ ds) = lit "created staging dir(s): " ++ join (lit ", ") (take 2 (d ∷ ds))

unfoldable pub stage_part : List Str → List Str
stage_part [] = []
stage_part (c ∷ cs) =
    dirs_part (map word_last (select (λ s. starts_with (strip s) (lit "mkdir")) (c ∷ cs))) ∷ []

-- `.lstrip("sudo ")`: characters of the text are taken off, not the word.
unfoldable pub method_of : Str → Str
method_of c = drop_while (λ x. member x (lit "sudo ")) (word_first c)

-- The methods are a set, which is joined here in the order of first occurrence.
unfoldable pub upload_part : ℕ → List Str → List Str
upload_part n [] = []
upload_part n (c ∷ cs) =
    (if ltb 0 n
      then lit "tried SCP upload " ++ show n ++ lit "x"
      else lit "fetched payload via "
        ++ join (lit ", ") (distinct_onto [] (map method_of (c ∷ cs))))
    ∷ []

abbrev pub part_if_some : List Str → String → List Str
part_if_some [] part = []
part_if_some (c ∷ cs) part = lit part ∷ []

unfoldable pub parts_of : List Str → List Str
parts_of commands =
    recon_part (in_phase "RECON" commands)
    ++ stage_part (in_phase "STAGE" commands)
    ++ upload_part (count_by (λ c. contains c (lit "scp") && contains c (lit "-t")) commands)
        (in_phase "UPLOAD" commands)
    ++ part_if_some (in_phase "EXEC" commands) "executed payload"
    ++ part_if_some (in_phase "PERSIST" commands) "attempted persistence"
    ++ part_if_some (in_phase "CLEANUP" commands) "killed competing processes"

-- `s[0].upper() + s[1:]`, for the parts begin with a letter of ASCII.
unfoldable pub upper_first : Str → Str
upper_first [] = []
upper_first (c ∷ s) = (if in_range 97 122 c then c - 32 else c) ∷ s

unfoldable pub sentence : List Str → Str
sentence [] = lit "no significant commands"
sentence (p ∷ ps) = join (lit ". ") (upper_first p ∷ ps) ++ lit "."

unfoldable pub narrate : List Str → Str
narrate commands = sentence (parts_of commands)

-- The chains of `render_credentials`: the numeric passwords by length and text.
unfoldable pub numeric_before : Str → Str → Bool
numeric_before p q = ltb (length p) (length q) || (length p == length q && str_ltb p q)

unfoldable pub is_numeric : ⦃u : Unicode⦄ → Str → Bool
is_numeric ⦃u = u⦄ p = not (p == []) && all u.digit p

unfoldable pub numeric : ⦃u : Unicode⦄ → List Str → List Str
numeric passwords = sort numeric_before (select is_numeric passwords)

-- `q` continues `cur` by one character.
unfoldable pub continues : Str → Str → Bool
continues cur q = starts_with q cur && length q == length cur + 1

-- The inner loop, from `cur` on.
unfoldable pub chain_from : Str → List Str → List Str
chain_from cur [] = []
chain_from cur (q ∷ qs) =
    let longer = chain_from q qs in
    let same = chain_from cur qs in if continues cur q then q ∷ longer else same

-- The outer loop over `numeric`.
unfoldable pub chains : List Str → List Str → List (List Str)
chains seen [] = []
chains seen (p ∷ ps) =
    let chain : List Str = p ∷ chain_from p ps in
    let keep = chain ∷ chains (chain ++ seen) ps in
    let skip = chains seen ps in
    if member p seen then skip else if ltb (length chain) 3 then skip else keep
