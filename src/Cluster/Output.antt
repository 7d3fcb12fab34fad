-- ===== src/Cluster/Output.antt =====
-- The Markdown that `main` of analysis/cluster.py writes, and its summary on the terminal.
use ssh_honeypot.Base.{ℕ, zero, suc, Option, none, some, List, [], ◌∷◌, ◌++◌, map, length, take}
use ssh_honeypot.Base.{if◌then◌else◌, ◌==◌, nat_eq, list_eq, replicate}
use ssh_honeypot.Base.Dict.{get}
use ssh_honeypot.Base.Text.{Str, lit, join, show, ljust, rjust}
use ssh_honeypot.Cluster.{Rule, rules}
use ssh_honeypot.Cluster.Report.{Pattern, Buckets, Row, bucket_all, or_empty, by_sessions}
use ssh_honeypot.Cluster.Report.{sessions_of, report, fmt_shape, fmt_raw}
use ssh_honeypot.Cluster.TieBreaks.{TieBreak, tie_breaks}

-- `str` of a list of strings, and `100.0 * part / whole` as `%.1f`, for a whole that is not zero.
pub record Host : Type 0 where
  pub str_of : List Str → Str
  pub percent : ℕ → ℕ → Str

-- `rule_meta`
unfoldable pub meta_in : List Rule → Str → Str × Str
meta_in [] cid = (lit "unmatched", lit "no rule matched")
meta_in (r ∷ rs) cid = let rest = meta_in rs cid in if r.id == cid then (r.label, r.desc) else rest

-- `text.replace("\n", " ")`
unfoldable pub one_line : Str → Str
one_line = map (λ c. if c == 10 then 32 else c)

module _ (host : Host) where
  unfoldable pub sub_row : Pattern → Str
  sub_row p =
      let preview = take 70 (one_line (host.str_of (take 2 p.command_shape))) in
      ljust 14 p.fingerprint_id
      ++ lit "  s="
      ++ ljust 5 (show p.session_count)
      ++ lit "  ip="
      ++ ljust 4 (show p.ip_count)
      ++ lit "  "
      ++ preview

  -- Only a cluster with two patterns at least lists them.
  unfoldable pub sub_rows : List Pattern → List Str
  sub_rows [] = []
  sub_rows (p ∷ []) = []
  sub_rows (p ∷ q ∷ ps) =
      (lit "**Sub-patterns (" ++ show (length (p ∷ q ∷ ps)) ++ lit "):**")
      ∷ []
      ∷ lit "```"
      ∷ (map sub_row (by_sessions (p ∷ q ∷ ps)) ++ (lit "```" ∷ [] ∷ []))

  -- The section of a cluster.
  unfoldable pub row_lines : ℕ → Buckets → Row → List Str
  row_lines total_sessions buckets row =
      let meta = meta_in rules row.cluster in
      let rep = row.representative in
      (lit "## " ++ row.cluster ++ lit " -- " ++ meta.0)
      ∷ []
      ∷ (lit "**Rule:** " ++ meta.1)
      ∷ []
      ∷ (lit "patterns="
          ++ show row.patterns
          ++ lit " | sessions="
          ++ show row.sessions
          ++ lit " ("
          ++ host.percent row.sessions total_sessions
          ++ lit "%) | IPs (sample): "
          ++ join (lit ", ") (take 6 row.ips))
      ∷ []
      ∷ (sub_rows (or_empty (get row.cluster buckets))
          ++ ((lit "**Representative shape** (`"
                ++ rep.fingerprint_id
                ++ lit "`, "
                ++ show rep.session_count
                ++ lit " sessions):")
              ∷ []
              ∷ lit "```"
              ∷ fmt_shape 7 rep.command_shape
              ∷ lit "```"
              ∷ []
              ∷ (lit "**Example IPs:** " ++ join (lit ", ") (take 5 rep.example_ips))
              ∷ []
              ∷ lit "**Raw example:**"
              ∷ []
              ∷ lit "```"
              ∷ fmt_raw 9 rep.example_raw
              ∷ lit "```"
              ∷ []
              ∷ lit "---"
              ∷ []
              ∷ []))

  unfoldable pub all_rows : ℕ → Buckets → List Row → List Str
  all_rows total_sessions buckets [] = []
  all_rows total_sessions buckets (row ∷ rs) =
      row_lines total_sessions buckets row ++ all_rows total_sessions buckets rs

  unfoldable pub tie_break_lines : List TieBreak → List Str
  tie_break_lines [] = []
  tie_break_lines (t ∷ ts) =
      (lit "### " ++ lit t.pair)
      ∷ []
      ∷ (lit "Similarity: " ++ lit t.similarity)
      ∷ []
      ∷ (lit "Distinction: " ++ lit t.distinction)
      ∷ []
      ∷ tie_break_lines ts

  unfoldable pub markdown : Str → List Pattern → List Str
  markdown pfile data_ =
      let total_sessions = sessions_of data_ in
      lit "# Clusters Report"
      ∷ []
      ∷ (lit "Source: `"
          ++ pfile
          ++ lit "` | Patterns: "
          ++ show (length data_)
          ++ lit " | Sessions: "
          ++ show total_sessions
          ++ lit " | Rules: "
          ++ show (length rules))
      ∷ []
      ∷ lit "---"
      ∷ []
      ∷ (all_rows total_sessions (bucket_all rules [] data_) (report data_)
          ++ (lit "## Tie-break guide -- similar clusters" ∷ [] ∷ [])
          ++ tie_break_lines tie_breaks
          ++ (lit "---" ∷ [] ∷ []))

  -- A share of no sessions is a ZeroDivisionError, before anything is written.
  unfoldable pub written : ℕ → Str → List Pattern → Option (List Str)
  written total_sessions pfile [] = some (markdown pfile [])
  written zero pfile (p ∷ ps) = none
  written (suc n) pfile (p ∷ ps) = some (markdown pfile (p ∷ ps))

  unfoldable pub write_report : Str → List Pattern → Option (List Str)
  write_report pfile data_ = written (sessions_of data_) pfile data_

  -- The summary, for data that `write_report` accepts.
  unfoldable pub terminal_row : ℕ → Row → Str
  terminal_row total_sessions row =
      let label = (meta_in rules row.cluster).0 in
      ljust 8 row.cluster
      ++ lit "  "
      ++ ljust 24 label
      ++ lit "  "
      ++ rjust 8 (show row.patterns)
      ++ lit "  "
      ++ rjust 8 (show row.sessions)
      ++ lit "  "
      ++ rjust 5 (host.percent row.sessions total_sessions)
      ++ lit "%"

  unfoldable pub terminal : Str → List Pattern → List Str
  terminal out_path data_ =
      (lit "wrote " ++ out_path)
      ∷ []
      ∷ (ljust 8 (lit "cluster")
          ++ lit "  "
          ++ ljust 24 (lit "label")
          ++ lit "  "
          ++ rjust 8 (lit "patterns")
          ++ lit "  "
          ++ rjust 8 (lit "sessions")
          ++ lit "  "
          ++ rjust 6 (lit "%"))
      ∷ replicate 62 45
      ∷ map (terminal_row (sessions_of data_)) (report data_)
