-- ===== src/Periods/Output.antt =====
-- The rendering and `main` of analysis/periods.py.

use Prim.Native.String.{String}
use ssh_honeypot.Base.{ℕ, ◌+◌, ◌-◌, Bool, ◌&&◌, Option, none, some, List, [], ◌∷◌, ◌++◌, map}
use ssh_honeypot.Base.{if◌then◌else◌, length, take, ltb, leb, replicate, ◌==◌, nat_eq}
use ssh_honeypot.Base.Dict.{Dict}
use ssh_honeypot.Base.Text.{Str, lit, join, show}
use ssh_honeypot.Log.{Rec}
use ssh_honeypot.Periods.{Period, detect_periods, slice_events}
use ssh_honeypot.Periods.Metrics.{Stats, compute_stats}
use ssh_honeypot.Report.Header.{paint}
use ssh_honeypot.Report.Sources.{by_count}

-- `strftime("%Y-%m-%d %H:%M UTC")`, a time span in hours as `%.1f`, `(after - before) / before * 100` as
-- `%.0f`, and `repr`.
pub record Host : Type 0 where
  pub stamp : ℕ → Str
  pub hours : ℕ → Str
  pub percent : ℕ → ℕ → Str
  pub repr : Str → Str

-- The argument `higher_is`.
pub data Higher : Type 0 where
  bad good neutral : Higher

-- The codes of red, green and dim.
unfoldable pub delta_color : Higher → ℕ → ℕ → String
delta_color bad before after =
    if before == after then "2" else if ltb before after then "91" else "92"
delta_color _ before after =
    if before == after then "2" else if ltb before after then "92" else "91"

-- `f"{sign}{delta}"`
unfoldable pub signed : ℕ → ℕ → Str
signed before after =
    if leb before after then lit "+" ++ show (after - before) else lit "-" ++ show (before - after)

module _ (host : Host) (no_color : Bool) where
  unfoldable pub change_text : ℕ → ℕ → Str
  change_text before after =
      if before == 0
      then signed before after
      else signed before after
        ++ lit " ("
        ++ (if leb before after then lit "+" else [])
        ++ host.percent before after
        ++ lit "%)"

  unfoldable pub fmt_delta : ℕ → ℕ → String → Higher → Str
  fmt_delta before after label higher_is =
      if before == 0 && after == 0
      then paint no_color "2" (lit "  " ++ lit label ++ lit ": 0 -> 0")
      else paint no_color (delta_color higher_is before after) (
          lit "  "
          ++ lit label
          ++ lit ": "
          ++ show before
          ++ lit " -> "
          ++ show after
          ++ lit "  "
          ++ change_text before after)

  abbrev bold : Str → Str
  bold = paint no_color "1"

  unfoldable pub threshold_text : Option Str → Str
  threshold_text none = lit "?"
  threshold_text (some t) = t

  unfoldable pub end_text : Option ℕ → Str
  end_text none = lit "now"
  end_text (some t) = host.stamp t

  unfoldable pub duration_text : ℕ → Option ℕ → Str
  duration_text start none = []
  duration_text start (some t) = lit "  (" ++ host.hours (t - start) ++ lit "h)"

  unfoldable pub counted : (Str → Str) → Str × ℕ → Str
  counted f (x, n) = f x ++ lit "(" ++ show n ++ lit ")"

  -- A line for a counter that is not empty.
  unfoldable pub counter_line : String → (Str × ℕ → Str) → Dict Str ℕ → List Str
  counter_line label f [] = []
  counter_line label f (e ∷ d) = (lit label ++ join (lit "  ") (map f (e ∷ d))) ∷ []

  unfoldable pub phase_lines : Dict Str ℕ → List Str
  phase_lines [] = []
  phase_lines (e ∷ d) =
      (lit "  kill-chain    : "
        ++ paint no_color "2"
            (join (lit "  ") (map (λ (ph, n). ph ++ lit "=" ++ show n) (by_count (e ∷ d)))))
      ∷ []

  unfoldable pub render_period : ℕ → Period → Stats → List Str
  render_period idx p stats =
      bold (
        paint no_color "96" (
          (10 ∷ lit "PERIOD ")
          ++ show (idx + 1)
          ++ lit "  threshold="
          ++ threshold_text p.threshold))
      ∷ paint no_color "2" (
          lit "  "
          ++ host.stamp p.start
          ++ lit "  ->  "
          ++ end_text p.end
          ++ duration_text p.start p.end)
      ∷ []
      ∷ (lit "  auth attempts : " ++ bold (show stats.attempts))
      ∷ (lit "  unique IPs    : " ++ bold (show stats.unique_ips))
      ∷ (lit "  single-shot   : "
          ++ bold (show stats.single_shot)
          ++ lit "  "
          ++ paint no_color "2" (lit "(IPs that tried exactly once)"))
      ∷ (lit "  accepted      : " ++ bold (show stats.accepted))
      ∷ (lit "  commands      : " ++ bold (show stats.commands))
      ∷ (phase_lines stats.phases
          ++ counter_line "  top passwords : " (counted host.repr)
              (take 5 (by_count stats.passwords))
          ++ counter_line "  top commands  : " (counted (λ c. c))
              (take 5 (by_count stats.top_cmds)))

  unfoldable pub render_comparison : Period → Stats → Period → Stats → List Str
  render_comparison before s after t =
      bold (
        (10 ∷ lit "DELTA  (period threshold=")
        ++ threshold_text before.threshold
        ++ lit "  ->  threshold="
        ++ threshold_text after.threshold
        ++ lit ")")
      ∷ fmt_delta s.attempts t.attempts "attempts" neutral
      ∷ fmt_delta s.unique_ips t.unique_ips "unique IPs" neutral
      ∷ fmt_delta s.single_shot t.single_shot "single-shot" neutral
      ∷ fmt_delta s.accepted t.accepted "accepted" good
      ∷ fmt_delta s.commands t.commands "commands" good
      ∷ []

  -- A period with what it measures.
  abbrev pub Measured : Type 0
  Measured = Period × Stats

  unfoldable pub period_lines : ℕ → List Measured → List Str
  period_lines idx [] = []
  period_lines idx ((p, s) ∷ ms) = render_period idx p s ++ period_lines (idx + 1) ms

  -- Each period against the next.
  unfoldable pub comparisons : List Measured → List Str
  comparisons [] = []
  comparisons (m ∷ []) = []
  comparisons ((p, s) ∷ (q, t) ∷ ms) = render_comparison p s q t ++ comparisons ((q, t) ∷ ms)

  unfoldable pub rule : Str
  rule = bold (paint no_color "96" (10 ∷ replicate 60 61))

  unfoldable pub deltas : List Measured → List Str
  deltas [] = []
  deltas (m ∷ []) = []
  deltas (m ∷ n ∷ ms) = rule ∷ (comparisons (m ∷ n ∷ ms) ++ ([] ∷ []))

  module _ (from_iso : Str → Option ℕ) (auth sess : List Rec) where
    unfoldable pub measure : Period → Measured
    measure p = (
      p,
      compute_stats (slice_events from_iso auth p.start p.end)
          (slice_events from_iso sess p.start p.end),
    )

    -- `main` behind the loading: nothing where there is no period, and the script exits with status 1.
    unfoldable pub compare_periods : List Period → Option (List Str)
    compare_periods [] = none
    compare_periods (p ∷ ps) =
        let measured = map measure (p ∷ ps) in
        some (
          (rule
            ∷ bold (paint no_color "96" (lit "  SSH HONEYPOT -- PERIOD COMPARISON"))
            ∷ bold (paint no_color "96" (replicate 60 61))
            ∷ (lit "  "
                ++ show (length (p ∷ ps))
                ++ lit " period(s) detected from server.log"
                ++ (10 ∷ []))
            ∷ [])
          ++ period_lines 0 measured
          ++ deltas measured)

    unfoldable pub split_log : List Rec → Option (List Str)
    split_log server = compare_periods (detect_periods from_iso server)
