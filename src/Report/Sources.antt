-- ===== src/Report/Sources.antt =====
-- `render_ips` and the top of `render_credentials` in analysis/report.py.
-- `pick` is `next(iter(s), None)` of a set, given as the list of its elements, and `repr` is `repr`.
-- The sessions that `render_ips` collects for droppers are never read.
pub mod Totals
use Prim.Native.String.{String}
use ssh_honeypot.Base.{ℕ, ◌-◌, Bool, true, false, Option, none, some, List, [], ◌∷◌, ◌++◌, map}
use ssh_honeypot.Base.{
  if◌then◌else◌, length, ltb, take, replicate, ◌==◌, nat_eq, list_eq, option_eq,
}
use ssh_honeypot.Base.Dict.{Dict, get, upsert, incr, count_of}
use ssh_honeypot.Base.Distinct.{add_new}
use ssh_honeypot.Base.Sort.{sort}
use ssh_honeypot.Base.Text.{Str, lit, before_first, join, show, rjust, ljust}
use ssh_honeypot.Cluster.Report.{or_empty}
use ssh_honeypot.Log.{Rec, field, field?, or_default, kind}
use ssh_honeypot.Passwords.{is_attempt}
use ssh_honeypot.Report.Header.{Clock, paint, is_accepted, most}

-- The counters and the sets by address.
pub record Sources : Type 0 where
  pub attempts : Dict Str ℕ
  pub accepted : Dict Str ℕ
  pub passwords : Dict Str (List Str)
  pub banners : Dict Str (List Str)

unfoldable pub no_sources : Sources
no_sources = record { attempts = []; accepted = []; passwords = []; banners = [] }

-- `d[ip].add(x)`, where the record has `x`.
unfoldable pub add_some : Str → Option Str → Dict Str (List Str) → Dict Str (List Str)
add_some ip none d = d
add_some ip (some x) d = upsert ip (λ o. add_new (or_empty o) x) d

unfoldable pub add_source : Rec → Sources → Sources
add_source e s =
    let ip = before_first 58 (field "remote" ":" e) in
    record {
      attempts = incr ip s.attempts;
      accepted = if is_accepted e then incr ip s.accepted else s.accepted;
      passwords = add_some ip (field? "password" e) s.passwords;
      banners = add_some ip (field? "client" e) s.banners;
    }

unfoldable pub sources : Sources → List Rec → Sources
sources s [] = s
sources s (e ∷ es) = sources (if is_attempt (kind e) then add_source e s else s) es

-- The most frequent first; those with the same count in the order in which they came.
unfoldable pub by_count : Dict Str ℕ → Dict Str ℕ
by_count = sort (λ a b. ltb b.1 a.1)

module _ (pick : List Str → Option Str) (no_color : Bool) where
  unfoldable pub tags : ℕ → ℕ → List Str
  tags accepted uniq =
      (if ltb 0 accepted then paint no_color "92" (lit "ACCEPTED") ∷ [] else [])
      ++ (if ltb 30 uniq
          then paint no_color "93" (lit "WORDLIST(" ++ show uniq ++ lit ")") ∷ []
          else [])

  unfoldable pub tag_text : List Str → Str
  tag_text [] = []
  tag_text (t ∷ ts) = lit "  " ++ join (lit "  ") (t ∷ ts)

  unfoldable pub source_line : Sources → Str × ℕ → Str
  source_line s (ip, n) =
      let uniq = length (or_empty (get ip s.passwords)) in
      let banner = or_default (lit "unknown") (pick (or_empty (get ip s.banners))) in
      lit "  "
      ++ ljust 20 (paint no_color "1" ip)
      ++ lit "  "
      ++ rjust 4 (show n)
      ++ lit " attempts  "
      ++ rjust 3 (show uniq)
      ++ lit " pw  "
      ++ paint no_color "2" (take 30 banner)
      ++ tag_text (tags (count_of ip s.accepted) uniq)

  unfoldable pub render_ips : List Rec → List Str
  render_ips auth =
      let s = sources no_sources auth in
      paint no_color "1" (lit "SOURCE IPs")
      ∷ []
      ∷ (map (source_line s) (by_count s.attempts) ++ ([] ∷ []))

-- `passwords` of `render_credentials`.
unfoldable pub add_password : Option Str → Dict Str ℕ → Dict Str ℕ
add_password none d = d
add_password (some pw) d = incr pw d

unfoldable pub passwords_by_count : Dict Str ℕ → List Rec → Dict Str ℕ
passwords_by_count d [] = d
passwords_by_count d (e ∷ es) =
    passwords_by_count (if is_attempt (kind e) then add_password (field? "password" e) d else d) es

module _ (clock : Clock) (repr : Str → Str) (no_color : Bool) where
  unfoldable pub password_line : ℕ → Str × ℕ → Str
  password_line top (pw, n) =
      let filled = clock.scaled n top 28 in
      lit "  "
      ++ paint no_color "93" (replicate filled 35)
      ++ paint no_color "2" (replicate (28 - filled) 46)
      ++ lit "  "
      ++ rjust 4 (show n)
      ++ lit "x  "
      ++ repr pw

  -- The first table; the peak is the count of the most frequent password.
  unfoldable pub top_passwords : Dict Str ℕ → List Str
  top_passwords [] = []
  top_passwords (p ∷ d) =
      let top = most 0 (map (λ e. e.1) (p ∷ d)) in
      paint no_color "1" (lit "TOP PASSWORDS")
      ∷ []
      ∷ (map (password_line top) (take 12 (by_count (p ∷ d))) ++ ([] ∷ []))

  -- The lines on the chains of numbers.
  unfoldable pub chain_lines : List (List Str) → List Str
  chain_lines [] = []
  chain_lines (ch ∷ chs) =
      (lit "  " ++ paint no_color "93" (lit "!") ++ lit " sequential pattern detected:")
      ∷ (map (λ c. lit "    " ++ join (paint no_color "2" (lit " -> ")) c) (take 3 (ch ∷ chs))
          ++ ([] ∷ []))
