-- ===== src/Tests/Headers.antt =====
-- Tests and examples of the header of the report and of the quick report.
use Prim.Native.String.{String}
use ssh_honeypot.Base.{
  ℕ, ◌≡◌, ◌≤◌, refl, true, Option, none, some, List, [], ◌∷◌, All, nat_eq, list_eq, length,
}
use ssh_honeypot.Base.Dict.{get, total}
use ssh_honeypot.Base.Text.{Str, lit, contains, starts_with}
use ssh_honeypot.Log.{Rec, field, field?, kind_of}
use ssh_honeypot.QuickReport.{start, read_auth, numbers_of, is_captured}
use ssh_honeypot.QuickReport.Agrees.{IsRegular, numbers_of-eq-numbers}
use ssh_honeypot.Report.Header.{Clock, numbers}
use ssh_honeypot.Report.Sources.{no_sources, sources, by_count}
use ssh_honeypot.Report.Sources.Totals.{by_count-numbers}

-- A time is the length of its text.
abbrev iso_length : Str → Option ℕ
iso_length [] = none
iso_length (c ∷ s) = some (length (c ∷ s))

abbrev length_clock : Clock
length_clock = record {
  parse_iso = iso_length;
  stamp = λ t. [];
  hours = λ t. [];
  hour = λ t. t;
  scaled = λ n peak width. 0;
}

abbrev attempt : String → String → String → Rec
attempt time remote outcome =
    (lit "msg", lit "auth attempt")
    ∷ (lit "time", lit time)
    ∷ (lit "remote", lit remote)
    ∷ (lit "outcome", lit outcome)
    ∷ []

abbrev two_attempts : List Rec
two_attempts = attempt "1" "192.0.2.1:22" "rejected" ∷ attempt "22" "192.0.2.1:23" "accepted" ∷ []

two_attempts-IsRegular : All IsRegular two_attempts
unfolding kind_of field field? get lit list_eq nat_eq
two_attempts-IsRegular = ((refl, λ p. cc), ((refl, λ p. cc), tt))

numbers_of-eq-numbers_example :
    numbers_of length_clock (read_auth length_clock start two_attempts)
    ≡ numbers length_clock two_attempts
numbers_of-eq-numbers_example =
    numbers_of-eq-numbers length_clock refl two_attempts two_attempts-IsRegular

by_count-numbers_example :
    (total (by_count (sources no_sources two_attempts).attempts)
      ≡ (numbers length_clock two_attempts).attempts)
    × (total (sources no_sources two_attempts).accepted
        ≤ (numbers length_clock two_attempts).accepted)
by_count-numbers_example = by_count-numbers length_clock two_attempts

is_captured_test : is_captured (lit "{\"msg\":\"exec\",\"command\":\"ls\"}") ≡ true
unfolding is_captured contains starts_with lit list_eq nat_eq
is_captured_test = refl
