-- ===== src/Stats/Sprays.antt =====
-- The sliding window of analysis/stats.py: the largest number of addresses that tried one credential
-- within an hour. An event is its time in microseconds and its address; `parse_ts` is an argument.
use ssh_honeypot.Base.{ℕ, ◌-◌, ◌*◌, Bool, ◌&&◌, ◌||◌, map, Option, none, some, List, [], ◌∷◌, ◌++◌}
use ssh_honeypot.Base.{if◌then◌else◌, ltb, leb, length, ◌==◌, nat_eq, list_eq}
use ssh_honeypot.Base.Dict.{Dict, get, upsert, remove, incr}
use ssh_honeypot.Base.Sort.{sort}
use ssh_honeypot.Base.Text.{Str, str_ltb}

abbrev pub spray_min_ips : ℕ
spray_min_ips = 3

-- In microseconds too.
abbrev pub window_secs : ℕ
window_secs = 60 * 60 * 1000000

abbrev pub Event : Type 0
Event = ℕ × Str

-- The variables of the loop; `window` is `parsed[left:right + 1]`.
pub record Window : Type 0 where
  pub window : List Event
  pub ip_counts : Dict Str ℕ
  pub best_n : ℕ
  pub best_span : ℕ

-- `ip_counts[ip] -= 1`, and `del` at 0.
unfoldable pub lower : Str → Option ℕ → Dict Str ℕ → Dict Str ℕ
lower ip none d = d
lower ip (some n) d = if n - 1 == 0 then remove ip d else upsert ip (λ _. n - 1) d

unfoldable pub uncount : Str → Dict Str ℕ → Dict Str ℕ
uncount ip d = lower ip (get ip d) d

-- `while epoch - parsed[left][0] > window_secs`, which stops at the event of `epoch` itself at the latest.
unfoldable pub shrink : ℕ → List Event → Dict Str ℕ → List Event × Dict Str ℕ
shrink epoch [] d = ([], d)
shrink epoch (e ∷ es) d =
    let rest = shrink epoch es (uncount e.1 d) in
    if ltb window_secs (epoch - e.0) then rest else (e ∷ es, d)

abbrev pub span_from : ℕ → List Event → ℕ
span_from epoch [] = 0
span_from epoch (e ∷ es) = epoch - e.0

-- The body of the loop.
unfoldable pub slide : Event → Window → Window
slide e w =
    let (kept, counts) = shrink e.0 (w.window ++ (e ∷ [])) (incr e.1 w.ip_counts) in
    let n = length counts in
    record {
      window = kept;
      ip_counts = counts;
      best_n = if ltb w.best_n n then n else w.best_n;
      best_span = if ltb w.best_n n then span_from e.0 kept else w.best_span;
    }

unfoldable pub slide_all : Window → List Event → Window
slide_all w [] = w
slide_all w (e ∷ es) = slide_all (slide e w) es

unfoldable pub spray_of : List Event → Window
spray_of = slide_all (record { window = []; ip_counts = []; best_n = 0; best_span = 0 })

-- A credential is reported with at least three events, and three addresses in a window.
unfoldable pub reported : List Event → Bool
reported events =
    if ltb (length events) spray_min_ips
    then Bool.false
    else leb spray_min_ips (spray_of events).best_n

-- The order of pairs.
unfoldable pub event_ltb : Event → Event → Bool
event_ltb a b = ltb a.0 b.0 || (a.0 == b.0 && str_ltb a.1 b.1)

module _ (parse_ts : Str → ℕ) where
  -- `parsed`
  unfoldable pub parsed : List (Str × Str) → List Event
  parsed events = sort event_ltb (map (λ (ts, ip). (parse_ts ts, ip)) events)

  -- `sprays` before it is sorted: addresses, span, user and password.
  unfoldable pub sprays : Dict (Str × Str) (List (Str × Str)) → List (ℕ × ℕ × Str × Str)
  sprays [] = []
  sprays (((pw, user), events) ∷ buckets) =
      let rest = sprays buckets in
      let w = spray_of (parsed events) in
      if reported (parsed events) then (w.best_n, w.best_span, user, pw) ∷ rest else rest
