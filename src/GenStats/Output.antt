-- ===== src/GenStats/Output.antt =====
-- The file that `main` of analysis/gen_stats.py writes.
pub mod Ascii
use Prim.Native.String.{String}
use ssh_honeypot.Base.{
  ℕ, zero, suc, ◌+◌, ◌-◌, ◌/◌, ◌%◌, Bool, true, false, ◌&&◌, ◌||◌, Option, none, some, List, [],
  ◌∷◌, ◌++◌, map,
}
use ssh_honeypot.Base.{if◌then◌else◌, length, take, ltb, ◌==◌, nat_eq, list_eq}
use ssh_honeypot.Base.Dict.{Dict}
use ssh_honeypot.Base.Text.{Str, lit, join, show, contains, before_first, behind_first, rstrip_char}
use ssh_honeypot.GenStats.{Span, Auth, Sess}
use ssh_honeypot.Report.Sources.{by_count}

-- `datetime.fromisoformat` in microseconds, a time span in hours as `%.0f` and in days as `%.1f`, and the
-- time of the run.
pub record Host : Type 0 where
  pub parse_iso : Str → ℕ
  pub hours : ℕ → Str
  pub days : ℕ → Str
  pub now : Str

-- `parse_ts`
abbrev or_empty_text : Option Str → Str
or_empty_text none = []
or_empty_text (some s) = s

unfoldable pub cut_fraction : Str → Str
cut_fraction s =
    if contains s (lit ".")
    then before_first 46 s ++ lit "." ++ take 6 (or_empty_text (behind_first 46 s))
    else s

unfoldable pub parse_ts : Host → Str → ℕ
parse_ts host s = host.parse_iso (cut_fraction (rstrip_char 90 s) ++ lit "+00:00")

-- `s.encode("ascii", "backslashreplace").decode("ascii")`
unfoldable pub hex_digit_of : ℕ → ℕ
hex_digit_of d = if ltb d 10 then 48 + d else 87 + d

-- The last `width` hexadecimal digits.
unfoldable pub hex_fixed : ℕ → ℕ → Str
hex_fixed zero n = []
hex_fixed (suc width) n = hex_fixed width (n / 16) ++ (hex_digit_of (n % 16) ∷ [])

unfoldable pub escaped : ℕ → Str
escaped c =
    if ltb c 128
    then c ∷ []
    else if ltb c 256
    then lit "\\x" ++ hex_fixed 2 c
    else if ltb c 65536
    then lit "\\u" ++ hex_fixed 4 c
    else lit "\\U" ++ hex_fixed 8 c

unfoldable pub ascii_safe : Str → Str
ascii_safe [] = []
ascii_safe (c ∷ s) = escaped c ++ ascii_safe s

-- `s.replace("|", "\\|")`
unfoldable pub escape_pipes : Str → Str
escape_pipes [] = []
escape_pipes (c ∷ s) = (if c == 124 then lit "\\|" else c ∷ []) ++ escape_pipes s

unfoldable pub row_text : Str × ℕ → Str
row_text (k, v) = lit "| `" ++ escape_pipes (ascii_safe k) ++ lit "` | " ++ show v ++ lit " |"

unfoldable pub rows : Dict Str ℕ → List Str
rows [] = lit "| (none) | 0 |" ∷ []
rows (e ∷ d) = map row_text (e ∷ d)

unfoldable pub fmt_top : Dict Str ℕ → ℕ → Str
fmt_top counter n =
    join (10 ∷ [])
      (lit "| value | count |" ∷ lit "| --- | --- |" ∷ rows (take n (by_count counter)))

module _ (host : Host) where
  -- `ts_min and ts_max`; a text that is empty counts as missing.
  unfoldable pub coverage : Span → List Str
  coverage span = elim span.ts_min [
    | none ↦ lit "- (no timestamps found in logs)" ∷ []
    | some first ↦ elim span.ts_max [
      | none ↦ lit "- (no timestamps found in logs)" ∷ []
      | some last ↦
          if first == [] || last == []
          then lit "- (no timestamps found in logs)" ∷ []
          else (lit "- First event: " ++ first ++ lit " UTC")
            ∷ (lit "- Last event: " ++ last ++ lit " UTC")
            ∷ (lit "- Duration: "
                ++ host.hours (parse_ts host last - parse_ts host first)
                ++ lit " hours ("
                ++ host.days (parse_ts host last - parse_ts host first)
                ++ lit " days)")
            ∷ []
    ]
  ]

  unfoldable pub duplicates : ℕ → ℕ → List Str
  duplicates dup_auth dup_sess =
      if dup_auth == 0 && dup_sess == 0
      then []
      else (lit "- Duplicate records dropped before counting: "
          ++ show dup_auth
          ++ lit " auth, "
          ++ show dup_sess
          ++ lit " session")
        ∷ []

  abbrev metric : String → ℕ → Str
  metric label n = lit "| " ++ lit label ++ lit " | " ++ show n ++ lit " |"

  -- `family_count`, or the text of the exception.
  unfoldable pub family_row : Option ℕ → Str → Str
  family_row (some n) err = metric "Classified attack families" n
  family_row none err = lit "| Classified attack families | TODO: " ++ err ++ lit " |"

  unfoldable pub totals : Auth → Sess → Option ℕ → Str → List Str
  totals auth sess families err =
      lit "## Totals"
      ∷ []
      ∷ lit "| metric | value |"
      ∷ lit "| --- | --- |"
      ∷ metric "Auth attempts" auth.attempts
      ∷ metric "Unique source IPs" (length auth.source_ips)
      ∷ metric "Connections (TCP, incl. failed handshakes)" (length sess.sids)
      ∷ metric "Sessions (SSH handshake completed)" sess.handshake_ok
      ∷ metric "Commands captured" sess.commands
      ∷ metric "Distinct user/password pairs" (length auth.pairs)
      ∷ metric "Unique passwords tried" (length auth.passwords)
      ∷ metric "Unique usernames tried" (length auth.usernames)
      ∷ family_row families err
      ∷ metric "Payloads captured (SCP)" sess.scp_files_offered
      ∷ metric "Payloads quarantined" sess.scp_quarantined
      ∷ []
      ∷ []

  unfoldable pub tables : Auth → List Str
  tables auth =
      lit "## Top 15 passwords"
      ∷ []
      ∷ fmt_top auth.passwords 15
      ∷ []
      ∷ lit "## Top 15 usernames"
      ∷ []
      ∷ fmt_top auth.usernames 15
      ∷ []
      ∷ lit "## Top 15 source IPs"
      ∷ []
      ∷ fmt_top auth.source_ips 15
      ∷ []
      ∷ []

  unfoldable pub stats_file : Auth → Sess → Span → Option ℕ → Str → Str
  stats_file auth sess span families err =
      join (10 ∷ []) (
        (lit "# Honeypot statistics"
          ∷ []
          ∷ (lit "Generated: " ++ host.now ++ lit " UTC")
          ∷ []
          ∷ (lit "This file is generated by `analysis/gen_stats.py` (`make stats`). "
              ++ lit "Do not edit by hand. It is the single source of truth for the numbers "
              ++ lit "quoted in README.md and FINDINGS.md.")
          ∷ []
          ∷ lit "## Coverage"
          ∷ []
          ∷ [])
        ++ coverage span
        ++ duplicates auth.dup_auth sess.dup_sess
        ++ ([] ∷ [])
        ++ totals auth sess families err
        ++ tables auth)
      ++ (10 ∷ [])
