-- ===== src/Periods.antt =====
-- analysis/periods.py: the periods between the starts of the server, and what falls into each.
-- `from_iso` is `datetime.fromisoformat`, as a number of microseconds, nothing where it raises
-- ValueError.
pub mod Partition
pub mod Metrics
pub mod Output
use Prim.Native.String.{String}
use ssh_honeypot.Base.{ℕ, Bool, ◌&&◌, not, Option, none, some, List, [], ◌∷◌, ◌++◌}
use ssh_honeypot.Base.{
  if◌then◌else◌, ltb, take, drop, select, member, ◌==◌, nat_eq, list_eq, option_eq,
}
use ssh_honeypot.Base.Sort.{sort}
use ssh_honeypot.Base.Text.{Str, lit, before_first}
use ssh_honeypot.Log.{Rec, field, field?}
use mathlib.Core.List.{reverse}

-- `s.replace("Z", "+00:00")`
unfoldable pub replace_z : Str → Str
replace_z [] = []
replace_z (c ∷ s) = let rest = replace_z s in if c == 90 then lit "+00:00" ++ rest else c ∷ rest

-- `s[s.rfind("+"):]` of a text that has a plus sign.
unfoldable pub from_last_plus : Str → Str
from_last_plus s = 43 ∷ reverse (before_first 43 (reverse s))

-- The text that `parse_ts` gives to `fromisoformat`: nanoseconds are cut to microseconds.
unfoldable pub iso_text : Str → Str
iso_text s =
    replace_z
      (if member 43 (drop 10 s) then take 26 s ++ from_last_plus s else take 26 s ++ lit "Z")

-- An entry of `starts`.
pub record Start : Type 0 where
  pub start : ℕ
  pub threshold : Option Str

pub record Period : Type 0 where
  pub start : ℕ
  pub end : Option ℕ
  pub threshold : Option Str

-- The second loop: a period ends where the next one starts.
unfoldable pub with_ends : List Start → List Period
with_ends [] = []
with_ends (s ∷ []) = record { start = s.start; end = none; threshold = s.threshold } ∷ []
with_ends (s ∷ t ∷ ts) =
    record { start = s.start; end = some t.start; threshold = s.threshold } ∷ with_ends (t ∷ ts)

-- The tests of `slice_events` on a timestamp.
unfoldable pub before_end : Option ℕ → ℕ → Bool
before_end none t = Bool.true
before_end (some end) t = ltb t end

unfoldable pub within : ℕ → Option ℕ → Option ℕ → Bool
within start end none = Bool.false
within start end (some t) = if ltb t start then Bool.false else before_end end t

module _ (from_iso : Str → Option ℕ) where
  -- `get_ts`, with `parse_ts`.
  unfoldable pub time_of : Option Str → Option ℕ
  time_of none = none
  time_of (some s) = from_iso (iso_text s)

  unfoldable pub get_ts : Rec → Option ℕ
  get_ts e = time_of (field? "time" e)

  unfoldable pub add_start : Option ℕ → Rec → List Start → List Start
  add_start none e starts = starts
  add_start (some t) e starts = record { start = t; threshold = field? "auth_threshold" e } ∷ starts

  -- The first loop.
  unfoldable pub starts : List Rec → List Start
  starts [] = []
  starts (e ∷ es) =
      let rest = starts es in
      if field? "msg" e == some (lit "listening") then add_start (get_ts e) e rest else rest

  unfoldable pub detect_periods : List Rec → List Period
  detect_periods server_events =
      with_ends (sort (λ a b. ltb a.start b.start) (starts server_events))

  unfoldable pub slice_events : List Rec → ℕ → Option ℕ → List Rec
  slice_events events start end = select (λ e. within start end (get_ts e)) events
