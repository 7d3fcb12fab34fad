-- ===== src/Replay/Screen.antt =====
-- `render_session` of analysis/replay.py: the entries of a session, the folding of echo runs and the
-- working directory.
-- The times of the entries are never read, and are left out.
pub mod Folding
pub mod Dirs
pub mod Output
use ssh_honeypot.Base.{
  ℕ, zero, suc, ◌+◌, Bool, true, false, ◌&&◌, Option, none, some, List, [], ◌∷◌, ◌++◌,
}
use ssh_honeypot.Base.{if◌then◌else◌, length, leb, take, sum_by, ◌==◌, nat_eq, list_eq}
use ssh_honeypot.Base.Text.{
  Str, lit, strip, lstrip, drop_while, is_space, starts_with, before_first, rstrip_char,
}
use ssh_honeypot.Regex.{Re, line_start, line_end, ◌·◌, plus, text, space, non_space, matches}
use ssh_honeypot.Replay.Events.{
  Data, Event, handshake, echo_chunk, shell_command, exec_command, wget, curl, scp_started,
  scp_sent, quarantined,
}

-- An entry of `cmds`.
pub data Item : Type 0 where
  log : Str → Item
  typed : Bool → Str → Item
  chunk : Str → ℕ → Item

unfoldable pub item_of : Data → List Item
item_of (handshake r c u) = []
item_of (echo_chunk t n) = chunk t n ∷ []
item_of (shell_command cmd) = typed false (strip cmd) ∷ []
item_of (exec_command cmd) = typed true (strip cmd) ∷ []
item_of (wget u) = log (lit "  [wget -> " ++ u ++ lit "]") ∷ []
item_of (curl u) = log (lit "  [curl -> " ++ u ++ lit "]") ∷ []
item_of scp_started = log (lit "  [scp upload started]") ∷ []
item_of (scp_sent n s) = log (lit "  [scp file: " ++ n ++ lit "  " ++ s ++ lit " bytes]") ∷ []
item_of (quarantined sha) = log (lit "  [quarantined: sha256=" ++ take 16 sha ++ lit "...]") ∷ []

unfoldable pub items_of : List Event → List Item
items_of [] = []
items_of (e ∷ es) = item_of e.payload ++ items_of es

-- `ip`, `client` and `user`, from the first handshake.
pub record Meta : Type 0 where
  pub ip : Str
  pub client : Str
  pub user : Str

unfoldable pub meta_of : List Event → Meta
meta_of [] = record { ip = lit "?"; client = lit "?"; user = lit "?" }
meta_of (e ∷ es) =
    let rest = meta_of es in
    elim e.payload [
      | handshake r c u ↦ record { ip = before_first 58 r; client = c; user = u }
      | _ ↦ rest
    ]

-- The working directory.
-- `^cd\s+\S+$`
unfoldable pub cd_re : Re
cd_re = line_start · text (lit "cd") · plus space · plus non_space · line_end

-- `cmd.split(None, 1)[1].strip()`
unfoldable pub second_word : Str → Str
second_word cmd = strip (lstrip (drop_while (λ c. if is_space c then false else true) (lstrip cmd)))

-- `s or "/"`
abbrev pub or_root : Str → Str
or_root [] = lit "/"
or_root (c ∷ s) = c ∷ s

unfoldable pub change_dir : Str → Str → Str
change_dir cwd dest =
    if starts_with dest (lit "/")
    then or_root (rstrip_char 47 dest)
    else if dest == lit "~"
    then lit "/root"
    else rstrip_char 47 cwd ++ lit "/" ++ dest

unfoldable pub next_dir : Str → Str → Str
next_dir cwd cmd = if matches cd_re cmd then change_dir cwd (second_word cmd) else cwd

-- A line that is printed: a log entry, a folded run (its length, target and bytes), an echo chunk
-- (behind the prompt with the working directory), or a command.
pub data Line : Type 0 where
  log_line : Str → Line
  folded : ℕ → Str → ℕ → Line
  chunk_line : Str → Str → ℕ → Line
  typed_line : Str → Bool → Str → Line

-- The bytes of the chunks at the front for the same target, and the entries behind them.
unfoldable pub span_chunks : Str → List Item → List ℕ × List Item
span_chunks target [] = ([], [])
span_chunks target (log s ∷ items) = ([], log s ∷ items)
span_chunks target (typed x s ∷ items) = ([], typed x s ∷ items)
span_chunks target (chunk t n ∷ items) =
    let more : List ℕ × List Item = let (ns, rest) = span_chunks target items in (n ∷ ns, rest) in
    if t == target then more else ([], chunk t n ∷ items)

-- The loop over `cmds[i:]`, on fuel.
unfoldable pub walk : Bool → ℕ → Str → List Item → List Line
walk fold zero cwd items = []
walk fold (suc fuel) cwd [] = []
walk fold (suc fuel) cwd (log s ∷ items) = log_line s ∷ walk fold fuel cwd items
walk fold (suc fuel) cwd (typed is_exec cmd ∷ items) =
    let dir = next_dir cwd cmd in typed_line dir is_exec cmd ∷ walk fold fuel dir items
walk fold (suc fuel) cwd (chunk target n ∷ items) =
    let (ns, rest) = span_chunks target items in
    elim (fold && leb 5 (suc (length ns))) [
      | true ↦ folded (suc (length ns)) target (n + sum_by (λ k. k) ns) ∷ walk fold fuel cwd rest
      | false ↦ chunk_line cwd target n ∷ walk fold fuel cwd items
    ]

unfoldable pub lines_of : Bool → List Item → List Line
lines_of fold items = walk fold (length items) (lit "/root") items
