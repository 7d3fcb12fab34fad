-- ===== src/Tests/Files.antt =====
-- Tests and examples of the files that seqgroup.py and gen_stats.py write.
use ssh_honeypot.Base.{none, List, map, ℕ, ◌≡◌, refl, [], ◌∷◌, length, nat_eq, list_eq}
use ssh_honeypot.Base.Dict.{Dict}
use ssh_honeypot.Base.Text.{Str, lit}
use ssh_honeypot.GenStats.Output.{fmt_top, ascii_safe, escaped, hex_fixed, hex_digit_of}
use ssh_honeypot.GenStats.Output.Ascii.{IsAscii, fmt_top-IsAscii}
use ssh_honeypot.Seqgroup.{Session, new_session}
use ssh_honeypot.Seqgroup.Groups.{Group, cluster}
use ssh_honeypot.Seqgroup.Output.{Host, defaults, summary, title_line, summary_line, number_from}
use ssh_honeypot.Seqgroup.Output.Totals.{IsRanked, first_line, summary-IsRanked}

abbrev bom_counter : Dict Str ℕ
bom_counter = (65279 ∷ lit "admin|", 3) ∷ (lit "root", 5) ∷ []

fmt_top-IsAscii_example : IsAscii (fmt_top bom_counter 15)
fmt_top-IsAscii_example = fmt_top-IsAscii bom_counter 15

ascii_safe_test : ascii_safe (65279 ∷ 233 ∷ lit "a") ≡ lit "\\ufeff\\xe9a"
unfolding ascii_safe escaped hex_fixed hex_digit_of lit
ascii_safe_test = refl

abbrev three_sessions : Dict Str Session
three_sessions =
    (lit "s1", record new_session { seq = lit "ls" ∷ [] })
    ∷ (lit "s2", record new_session { seq = lit "id" ∷ [] })
    ∷ (lit "s3", new_session)
    ∷ []

-- A host on which every time has one text.
abbrev plain_host : Host
plain_host = record { parse_iso = λ s. none; stamp = λ n. [] }

summary-IsRanked_example :
    (gs : List Group) × IsRanked (cluster (λ s. s) 1 three_sessions).groups gs
    × (summary plain_host (cluster (λ s. s) 1 three_sessions) (length three_sessions) defaults
        ≡ first_line (length three_sessions) 1 gs
          ∷ title_line plain_host
          ∷ map (summary_line plain_host) (number_from 1 gs))
unfolding defaults
summary-IsRanked_example = summary-IsRanked plain_host (λ s. s) defaults three_sessions
