-- ===== src/Fingerprint/Summary.antt =====
-- The summary that `main` of analysis/fingerprint.py prints.
use ssh_honeypot.Base.{ℕ, zero, suc, List, [], ◌∷◌, ◌++◌, map, length, take, replicate}
use ssh_honeypot.Base.Text.{Str, lit, show, ljust, rjust}
use ssh_honeypot.Cluster.Output.{one_line}
use ssh_honeypot.Cluster.Report.{Pattern}

-- `max(n, 1)`
abbrev one_at_least : ℕ → ℕ
one_at_least zero = 1
one_at_least (suc n) = suc n

-- The arguments are `str` of a list of strings, and a quotient as `%.1f`.
module _ (str_of : List Str → Str) (ratio : ℕ → ℕ → Str) where
  unfoldable pub pattern_row : Pattern → Str
  pattern_row p =
      let preview = take 62 (one_line (str_of (take 3 p.command_shape))) in
      lit "  "
      ++ ljust 14 p.fingerprint_id
      ++ lit "  "
      ++ rjust 8 (show p.session_count)
      ++ lit "  "
      ++ rjust 5 (show p.ip_count)
      ++ lit "  "
      ++ preview

  unfoldable pub summary : ℕ → List Pattern → List Str
  summary total patterns =
      []
      ∷ lit "SUMMARY"
      ∷ (lit "  sessions in     : " ++ show total)
      ∷ (lit "  unique patterns : " ++ show (length patterns))
      ∷ (lit "  collapse ratio  : " ++ ratio total (one_at_least (length patterns)) ++ lit "x")
      ∷ []
      ∷ lit "TOP 20 patterns (by session_count):"
      ∷ (lit "  "
          ++ ljust 14 (lit "fingerprint_id")
          ++ lit "  "
          ++ rjust 8 (lit "sessions")
          ++ lit "  "
          ++ rjust 5 (lit "IPs")
          ++ lit "  "
          ++ lit "shape[:3]")
      ∷ (lit "  " ++ replicate 76 45)
      ∷ map pattern_row (take 20 patterns)
