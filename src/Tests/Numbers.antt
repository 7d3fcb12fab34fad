-- ===== src/Tests/Numbers.antt =====
-- Instances of the theorems about the scripts that count, and the extractors.
use Prim.Native.String.{String}
use ssh_honeypot.Base.{arith}
use ssh_honeypot.Base.{
  ℕ, ◌+◌, ◌-◌, ◌*◌, ◌≡◌, ◌⊎◌, refl, true, not, false, ◌&&◌, ◌||◌, any, Option, none, some, List, [],
  ◌∷◌, ◌++◌,
}
use ssh_honeypot.Base.{
  ◌==◌, nat_eq, list_eq, pair_eq, option_eq, count_by, length, all, All, if◌then◌else◌, ltb,
}
use ssh_honeypot.Base.Dict.{get, total, count_of}
use ssh_honeypot.Base.Distinct.{distinct_onto}
use ssh_honeypot.Base.Text.{Str, lit, contains, starts_with, ends_with}
use ssh_honeypot.Log.{Rec, kind}
use ssh_honeypot.Passwords.{is_attempt}
use ssh_honeypot.Sessions.{sessions, is_kept, head_of, no_head, is_accepted}
use ssh_honeypot.Sessions.Accounts.{size, size-sessions, outcome-head_of}
use ssh_honeypot.Stats.Sprays.{spray_of}
use ssh_honeypot.Stats.Window.{IsTrue, spray_of-IsTrue}
use ssh_honeypot.Tests.{ascii, pair_of, log_of_two}
use ssh_honeypot.Extract.{decode_all, decode}
use ssh_honeypot.Extract.Fuel.{decode-eq-decode_all}
use ssh_honeypot.Extract.RoundTrip.{encode, decode_all-encode}
use ssh_honeypot.Extract.All.{elf_magic}
use ssh_honeypot.Extract.{Bytes}
use ssh_honeypot.Passwords.{
  passwords_of, base_of, tail_of, suffixes, bases, length_buckets, classes, length_label, charset,
}
use ssh_honeypot.Passwords.Lengths.{between, longer, count_of-length_buckets}
use ssh_honeypot.Passwords.Split.{stops_at, base_of-tail_of}
use ssh_honeypot.Passwords.Totals.{parts_counted, classes-total}
use ssh_honeypot.Periods.{detect_periods, get_ts}
use ssh_honeypot.Periods.Partition.{sliced, starts_by, slices_split}
use ssh_honeypot.Stats.Counts.{ends_as, attempt_with, is_full, bucketed, read_auth_counts}
use ssh_honeypot.Stats
use ssh_honeypot.GenStats
use ssh_honeypot.Classify
use ssh_honeypot.Report.{chains}
use ssh_honeypot.Report.Chains.{IsChain, chains-IsChain}
use ssh_honeypot.Timeline.{see_passwords, nothing_seen}
use ssh_honeypot.Timeline.Extremes.{Known, times_of, see_passwords-Known}
use ssh_honeypot.GenStats.Accounts.{
  attempt, keys_of, tallied, relevant, read_auth_accounts, read_session_accounts,
}

abbrev hex_value : ℕ → ℕ
hex_value c = if ltb c 58 then c - 48 else c - 87

-- Two hexadecimal digits.
abbrev two_digits : Str → Option ℕ
two_digits (c ∷ d ∷ []) = some (hex_value c * 16 + hex_value d)
two_digits _ = none

decode_all-encode_example :
    decode_all two_digits (encode (127 ∷ 69 ∷ 0 ∷ [])) ≡ some (127 ∷ 69 ∷ 0 ∷ [])
decode_all-encode_example =
    decode_all-encode two_digits (127 ∷ 69 ∷ 0 ∷ []) (refl, (refl, (refl, tt)))

abbrev text_session : Str × List Bytes
text_session = (lit "s1", (1 ∷ 2 ∷ 3 ∷ 4 ∷ 5 ∷ []) ∷ [])

abbrev elf_session : Str × List Bytes
elf_session = (lit "s2", elf_magic ∷ [])

base_of-tail_of_example :
    (base_of ⦃u = ascii⦄ (lit "admin123") ++ tail_of ⦃u = ascii⦄ (lit "admin123") ≡ lit "admin123")
    × (all ascii.digit (tail_of ⦃u = ascii⦄ (lit "admin123")) ≡ true)
    × (stops_at ⦃u = ascii⦄ (length (base_of ⦃u = ascii⦄ (lit "admin123"))) (lit "admin123") ≡ true)
base_of-tail_of_example = base_of-tail_of ⦃u = ascii⦄ (lit "admin123")

abbrev tried : List Str
tried = lit "admin123" ∷ lit "root123" ∷ lit "toor" ∷ []

parts_counted_test :
    (count_of (lit "123") (suffixes ⦃u = ascii⦄ tried)
      ≡ count_by
          (λ pw. not (tail_of ⦃u = ascii⦄ pw == []) && lit "123" == tail_of ⦃u = ascii⦄ pw)
          tried)
    × (count_of (lit "123") (bases ⦃u = ascii⦄ tried)
        ≡ count_by
            (λ pw. not (base_of ⦃u = ascii⦄ pw == []) && lit "123" == base_of ⦃u = ascii⦄ pw)
            tried)
parts_counted_test = parts_counted ⦃u = ascii⦄ (lit "123") tried

classes-total_test :
    (total (length_buckets tried) ≡ 3)
    × (total (classes ⦃u = ascii⦄ tried) ≡ 3)
    × (count_of (lit "5-8") (length_buckets tried)
        ≡ count_by (λ pw. lit "5-8" == length_label pw) tried)
    × (count_of (lit "5-8") (classes ⦃u = ascii⦄ tried)
        ≡ count_by (λ pw. lit "5-8" == charset ⦃u = ascii⦄ pw) tried)
classes-total_test = classes-total ⦃u = ascii⦄ (lit "5-8") tried

abbrev listening : String → Rec
listening time = pair_of "msg" "listening" ∷ pair_of "time" time ∷ []

abbrev length_as_time : Str → Option ℕ
length_as_time s = some (length s)

slices_split_example :
    sliced length_as_time log_of_two
      (detect_periods length_as_time (listening "t" ∷ listening "" ∷ []))
    ≡ count_by
        (λ e.
          starts_by
            (detect_periods length_as_time (listening "t" ∷ listening "" ∷ []))
            (get_ts length_as_time e))
        log_of_two
slices_split_example = slices_split length_as_time (listening "t" ∷ listening "" ∷ []) log_of_two

abbrev login : String → String → Rec
login time pw =
    pair_of "msg" "auth attempt"
    ∷ pair_of "time" time
    ∷ pair_of "remote" "1.2.3.4:5"
    ∷ pair_of "user" "root"
    ∷ pair_of "password" pw
    ∷ pair_of "outcome" "rejected"
    ∷ []

abbrev logins : List Rec
logins = login "t1" "123" ∷ login "t2" "1234" ∷ login "t1" "123" ∷ []

read_auth_counts_example :
    ((Stats.read_auth Stats.no_auth logins).accepted ≡ count_by (ends_as "accepted") logins)
    × ((Stats.read_auth Stats.no_auth logins).rejected ≡ count_by (ends_as "rejected") logins)
    × (total (Stats.read_auth Stats.no_auth logins).passwords
        ≡ count_by (attempt_with "password") logins)
    × (total (Stats.read_auth Stats.no_auth logins).source_ips
        ≡ count_by (attempt_with "remote") logins)
    × (bucketed (Stats.read_auth Stats.no_auth logins).spray_buckets ≡ count_by is_full logins)
read_auth_counts_example = read_auth_counts logins

read_auth_accounts_example :
    ((GenStats.read_auth GenStats.no_auth logins).attempts
      ≡ length (distinct_onto [] (keys_of logins)))
    × ((GenStats.read_auth GenStats.no_auth logins).attempts
          + (GenStats.read_auth GenStats.no_auth logins).dup_auth
        ≡ count_by attempt logins)
read_auth_accounts_example = read_auth_accounts logins

abbrev no_span : GenStats.Span
no_span = record { ts_min = none; ts_max = none }

read_session_accounts_example :
    tallied (GenStats.read_session (GenStats.no_sess no_span) log_of_two)
    ≡ count_by relevant log_of_two
read_session_accounts_example = read_session_accounts no_span log_of_two

abbrev numbers : List Str
numbers = lit "123" ∷ lit "1234" ∷ lit "777" ∷ lit "12345" ∷ []

count_of-length_buckets_example :
    (count_of (lit "1-4") (length_buckets (passwords_of logins))
      ≡ count_by (between 1 4) (passwords_of logins))
    × (count_of (lit "5-8") (length_buckets (passwords_of logins))
        ≡ count_by (between 5 8) (passwords_of logins))
    × (count_of (lit "9-12") (length_buckets (passwords_of logins))
        ≡ count_by (between 9 12) (passwords_of logins))
    × (count_of (lit "13+") (length_buckets (passwords_of logins))
        ≡ count_by (longer 13) (passwords_of logins))
    × (total (length_buckets (passwords_of logins)) ≡ length (passwords_of logins))
count_of-length_buckets_example = count_of-length_buckets logins

chains-IsChain_example : All (IsChain numbers) (chains [] numbers)
chains-IsChain_example = chains-IsChain [] numbers

see_passwords-Known_example :
    Known (lit "123") (times_of (lit "123") logins) (see_passwords nothing_seen logins)
    ⊎ ((times_of (lit "123") logins ≡ [])
        × (get (lit "123") (see_passwords nothing_seen logins).first ≡ none))
see_passwords-Known_example = see_passwords-Known (lit "123") logins

size-sessions_example :
    size (sessions logins log_of_two)
    ≡ count_by (λ r. is_attempt (kind r)) logins + count_by is_kept log_of_two
size-sessions_example = size-sessions logins log_of_two

outcome-head_of_example :
    (head_of no_head
      (record { time = []; typ = lit "auth"; data_ = login "t" "1" } ∷ [])).outcome_accepted
    ≡ (false
        || any is_accepted (record { time = []; typ = lit "auth"; data_ = login "t" "1" } ∷ []))
outcome-head_of_example =
    outcome-head_of no_head (record { time = []; typ = lit "auth"; data_ = login "t" "1" } ∷ [])

spray_of-IsTrue_example : IsTrue (spray_of ((0, lit "a") ∷ (5, lit "b") ∷ []))
spray_of-IsTrue_example = spray_of-IsTrue ((0, lit "a") ∷ (5, lit "b") ∷ [])

decode-eq-decode_all_example :
    decode two_digits 9 (92 ∷ 120 ∷ 55 ∷ 102 ∷ 69 ∷ [])
    ≡ decode_all two_digits (92 ∷ 120 ∷ 55 ∷ 102 ∷ 69 ∷ [])
decode-eq-decode_all_example =
    decode-eq-decode_all two_digits 9 (92 ∷ 120 ∷ 55 ∷ 102 ∷ 69 ∷ []) (omega arith)

decode_all_test : decode_all two_digits (lit "\\x7fE\\nF") ≡ some (127 ∷ 69 ∷ 70 ∷ [])
unfolding decode_all decode lit nat_eq
decode_all_test = refl

classify_test : (Classify.c09_stage (lit "pkill xmrig" ∷ []) ≡ Classify.recon_kill)
unfolding Classify.c09_stage Classify.is_chattr Classify.is_chmod Classify.in_background
    Classify.kills_miner lit nat_eq contains starts_with ends_with
classify_test = refl
