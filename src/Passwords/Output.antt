-- ===== src/Passwords/Output.antt =====
-- The report that `main` of analysis/passwords.py prints.
use ssh_honeypot.Base.{ℕ, Option, none, some, List, [], ◌∷◌, ◌++◌, map}
use ssh_honeypot.Base.{length, replicate, nat_eq, list_eq}
use ssh_honeypot.Base.Dict.{Dict, count_of}
use ssh_honeypot.Base.Text.{Str, Unicode, lit, show, ljust, rjust}
use ssh_honeypot.Log.{Rec}
use ssh_honeypot.Passwords.{
  passwords_of, tally, length_buckets, classes, suffixes, bases, bar_width,
}
use ssh_honeypot.Report.Header.{most}
use ssh_honeypot.Stats.Output.{most_common}

unfoldable pub heading : Str → List Str
heading title = [] ∷ title ∷ replicate (length title) 45 ∷ []

unfoldable pub counter_row : ℕ → ℕ → Str × ℕ → Str
counter_row key_width count_width (k, v) =
    lit "  " ++ ljust key_width k ++ lit "  " ++ rjust count_width (show v)

unfoldable pub counter_rows : Dict Str ℕ → List Str
counter_rows [] = lit "  (none)" ∷ []
counter_rows ((k, v) ∷ d) =
    let count_width = length (show v) in
    let key_width = most 0 (map (λ e. length e.0) ((k, v) ∷ d)) in
    map (counter_row key_width count_width) ((k, v) ∷ d)

unfoldable pub print_counter : Dict Str ℕ → Option ℕ → List Str
print_counter counter limit = counter_rows (most_common limit counter)

unfoldable pub bucket_row : ℕ → Dict Str ℕ → Str → Str
bucket_row total buckets label =
    let count = count_of label buckets in
    lit "  "
    ++ ljust 5 label
    ++ lit "  "
    ++ rjust 5 (show count)
    ++ lit "  "
    ++ replicate (bar_width count total) 35

-- `Counter(attempts)`
unfoldable pub unique : List Str → Dict Str ℕ
unique = tally (λ pw. pw) []

module _ ⦃u : Unicode⦄ where
  -- The report, for the text `repeat_rate total nuniq` of `100.0 * (total - nuniq) / total` as `%.1f`.
  unfoldable pub report : (ℕ → ℕ → Str) → Str → List Str → List Str
  report repeat_rate log_dir attempts =
      let total = length attempts in
      let nuniq = length (unique attempts) in
      replicate 52 61
      ∷ lit "PASSWORD ANALYSIS"
      ∷ (lit "Log dir: " ++ log_dir)
      ∷ replicate 52 61
      ∷ (heading (lit "SUMMARY")
          ++ ((lit "  Total attempts  : " ++ show total)
              ∷ (lit "  Unique passwords: " ++ show nuniq)
              ∷ (lit "  Repeat rate     : " ++ repeat_rate total nuniq ++ lit "%")
              ∷ [])
          ++ heading (lit "LENGTH DISTRIBUTION")
          ++ map (bucket_row total (length_buckets attempts))
              (lit "1-4" ∷ lit "5-8" ∷ lit "9-12" ∷ lit "13+" ∷ [])
          ++ heading (lit "CHARACTER CLASS")
          ++ print_counter (classes attempts) none
          ++ heading (lit "COMMON NUMERIC SUFFIXES (last 1-4 chars if digits)")
          ++ print_counter (suffixes attempts) (some 15)
          ++ heading (lit "COMMON BASE WORDS (trailing digits stripped)")
          ++ print_counter (bases attempts) (some 15)
          ++ heading (lit "ALL PASSWORDS (sorted by frequency)")
          ++ print_counter (unique attempts) none)

  unfoldable pub report_of : (ℕ → ℕ → Str) → Str → List Str → List Str
  report_of repeat_rate log_dir [] = lit "no password attempts found" ∷ []
  report_of repeat_rate log_dir (pw ∷ pws) = report repeat_rate log_dir (pw ∷ pws)

  unfoldable pub print_passwords : (ℕ → ℕ → Str) → Str → List Rec → List Str
  print_passwords repeat_rate log_dir rs = report_of repeat_rate log_dir (passwords_of rs)
