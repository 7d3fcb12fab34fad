-- ===== src/Periods/Partition.antt =====
-- The events of analysis/periods.py by period.
use ssh_honeypot.Base.{
  ℕ, ◌+◌, ◌≡◌, refl, ◌∙◌, inl, inr, Bool, false, Option, none, some, List, [], ◌∷◌, arith,
}
use ssh_honeypot.Base.{if◌then◌else◌, leb, length, sum_by, count_by, Bool-cases}
use ssh_honeypot.Base.Sort.Order.{AscendingFrom, sort-AscendingFrom}
use ssh_honeypot.Base.Text.{Str}
use ssh_honeypot.Log.{Rec}
use ssh_honeypot.Periods.{
  Start, Period, with_ends, before_end, within, get_ts, starts, detect_periods, slice_events,
}

abbrev pub starts_by : List Period → Option ℕ → Bool
starts_by [] o = false
starts_by (p ∷ ps) none = false
starts_by (p ∷ ps) (some t) = leb p.start t

abbrev hit : Option ℕ → Period → Bool
hit o p = within p.start p.end o

no_hit : (ss : List Start) → count_by (hit none) (with_ends ss) ≡ 0
unfolding with_ends within
no_hit [] = refl
no_hit (s ∷ []) = refl
no_hit (s ∷ t ∷ ts) = omega (arith, no_hit (t ∷ ts))

one_hit :
    (lo t : ℕ) (ss : List Start)
    → AscendingFrom (λ (s : Start). s.start) lo ss
    → count_by (hit (some t)) (with_ends ss) ≡ (if starts_by (with_ends ss) (some t) then 1 else 0)
unfolding with_ends within before_end
one_hit lo t [] h = refl
one_hit lo t (s ∷ []) h = ground arith
one_hit lo t (s ∷ r ∷ []) (h, (h', _)) = ground arith
one_hit lo t (s ∷ r ∷ q ∷ ts) (h, h') = ground (arith, one_hit s.start t (r ∷ q ∷ ts) h', h'.0)

module _ (from_iso : Str → Option ℕ) where
  -- The events of a period, over all periods.
  abbrev pub sliced : List Rec → List Period → ℕ
  sliced events = sum_by (λ (p : Period). length (slice_events from_iso events p.start p.end))

  sliced_nil : (ps : List Period) → sliced [] ps ≡ 0
  unfolding slice_events
  sliced_nil [] = refl
  sliced_nil (p ∷ ps) = omega (arith, sliced_nil ps)

  sliced_cons :
      (e : Rec) (es : List Rec) (ps : List Period)
      → sliced (e ∷ es) ps ≡ count_by (hit (get_ts from_iso e)) ps + sliced es ps
  unfolding slice_events
  sliced_cons e es [] = refl
  sliced_cons e es (p ∷ ps) = elim (Bool-cases (within p.start p.end (get_ts from_iso e))) [
    | inl yes_hit ↦ rw yes_hit (omega (arith, sliced_cons e es ps))
    | inr other ↦ rw other (omega (arith, sliced_cons e es ps))
  ]

  hits :
      (o : Option ℕ) (ss : List Start)
      → AscendingFrom (λ (s : Start). s.start) 0 ss
      → count_by (hit o) (with_ends ss) ≡ (if starts_by (with_ends ss) o then 1 else 0)
  unfolding with_ends
  hits none [] h = refl
  hits none (s ∷ []) h = no_hit (s ∷ [])
  hits none (s ∷ t ∷ ts) h = no_hit (s ∷ t ∷ ts)
  hits (some t) ss h = one_hit 0 t ss h

  sliced_all :
      (events : List Rec) (ss : List Start)
      → AscendingFrom (λ (s : Start). s.start) 0 ss
      → sliced events (with_ends ss)
        ≡ count_by (λ e. starts_by (with_ends ss) (get_ts from_iso e)) events
  sliced_all [] ss h = sliced_nil (with_ends ss)
  sliced_all (e ∷ es) ss h =
      sliced_cons e es (with_ends ss)
      ∙ omega (arith, hits (get_ts from_iso e) ss h, sliced_all es ss h)

  -- The slices of the detected periods hold, in all, as many events as have a timestamp at or
  -- after the start of the first period, whatever the order of the log of the server.
  pub slices_split :
      (server_events events : List Rec)
      → sliced events (detect_periods from_iso server_events)
        ≡ count_by
            (λ e. starts_by (detect_periods from_iso server_events) (get_ts from_iso e))
            events
  unfolding detect_periods
  slices_split server_events events =
      sliced_all events _
        (sort-AscendingFrom (λ (s : Start). s.start) (starts from_iso server_events))
