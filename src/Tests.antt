-- ===== src/Tests.antt =====
-- Runs of the model on small logs, and instances of the theorems at concrete inputs.
mod Bundle
mod Files
mod Headers
mod Numbers
mod Patterns
mod Printed
mod Terminal
use Prim.Native.String.{String}
use ssh_honeypot.Base.{arith}
use ssh_honeypot.Base.{
  ℕ, ◌+◌, ◌≤◌, ◌≡◌, ◌⊎◌, refl, Bool, true, false, ◌||◌, none, some, List, [], ◌∷◌, ◌++◌, map,
}
use ssh_honeypot.Base.{◌==◌, nat_eq, list_eq, pair_eq, sum_by, length, take, all}
use ssh_honeypot.Base.Dict.{Dict, get, count_of, AllValues}
use ssh_honeypot.Base.Distinct.{distinct_onto}
use ssh_honeypot.Base.Text.{Str, Unicode, lit, in_range, join}
use ssh_honeypot.Log.{Rec, field, field?}
use ssh_honeypot.Seqgroup.{Session, new_session}
use ssh_honeypot.Seqgroup.Ingest.{ingest, finish}
use ssh_honeypot.Seqgroup.Dedup.{ingest_spliced}
use ssh_honeypot.Seqgroup.Runs.{blocks, render}
use ssh_honeypot.Seqgroup.Sequence.{
  get-ingest, seq-add_records, visits, records_of, add_records, events,
}
use ssh_honeypot.Seqgroup.Groups.{cluster}
use ssh_honeypot.Seqgroup.Counts.{
  IsCounted, counted, listed, members, cluster_counts, cluster_members,
}
use ssh_honeypot.Cluster.{rules, first_match}
use ssh_honeypot.Cluster.Report.{Pattern, Row, report, sample}
use ssh_honeypot.Cluster.Laws.{Decides, misses, first_match-Decides, report_totals}
use ssh_honeypot.Cluster.Sample.{all_ips, sample-eq-take}
use ssh_honeypot.Fingerprint.Fuel.{walk-eq-length}
use ssh_honeypot.Fingerprint.Shape.{shape_and_raw, collapse_onto, walk}
use ssh_honeypot.Fingerprint.Collapse.{entries, no_repeats, shape-eq-collapse, raw-le-60}
use ssh_honeypot.Fingerprint.Groups.{patterns, report-patterns}
use ssh_honeypot.Classify.{Mapping, load_mapping, c09_stage}
use ssh_honeypot.Classify.Stages.{rank, c09_stage_climbs}
use ssh_honeypot.Classify.Aggregate.{aggregate, classify_sessions}
use ssh_honeypot.Classify.Accounts.{given, count_of-aggregate}
use mathlib.Core.Option

abbrev ascii_word : ℕ → Bool
ascii_word c = in_range 48 57 c || in_range 65 90 c || in_range 97 122 c || c == 95

abbrev ascii_alnum : ℕ → Bool
ascii_alnum c = in_range 48 57 c || in_range 65 90 c || in_range 97 122 c

-- The predicates on ASCII.
abbrev ascii : Unicode
ascii = record {
  decimal = in_range 48 57;
  word = ascii_word;
  digit = in_range 48 57;
  lower = in_range 97 122;
  upper = in_range 65 90;
  alnum = ascii_alnum;
}

abbrev pair_of : String → String → Str × Str
pair_of k v = (lit k, lit v)

abbrev command : String → String → String → Rec
command sid time cmd =
    pair_of "sid" sid ∷ pair_of "time" time ∷ pair_of "msg" "shell" ∷ pair_of "command" cmd ∷ []

abbrev handshake : String → String → String → Rec
handshake sid time remote =
    pair_of "sid" sid
    ∷ pair_of "time" time
    ∷ pair_of "msg" "handshake ok"
    ∷ pair_of "remote" remote
    ∷ []

abbrev log_of_two : List Rec
log_of_two =
    handshake "s1" "t1" "1.2.3.4:99"
    ∷ command "s1" "t2" "uname -a"
    ∷ handshake "s2" "t3" "5.6.7.8:99"
    ∷ command "s2" "t4" "wget x | sh"
    ∷ []

abbrev repeats : List Rec
repeats = command "s1" "t2" "uname -a" ∷ handshake "s2" "t3" "5.6.7.8:99" ∷ []

ingest_spliced_example :
    ingest ⦃u = ascii⦄ false true (log_of_two ++ repeats)
    ≡ record (ingest ⦃u = ascii⦄ false true log_of_two) {
      dups = (ingest ⦃u = ascii⦄ false true log_of_two).dups + 2;
    }
unfolding lit field field? get list_eq nat_eq pair_eq
ingest_spliced_example = ingest_spliced ⦃u = ascii⦄ false log_of_two repeats refl

get-ingest_example :
    get (lit "s1") (ingest ⦃u = ascii⦄ false true log_of_two).sessions
    ≡ Option.map finish (
        visits ⦃u = ascii⦄ false true
          (records_of ⦃u = ascii⦄ false true (lit "s1") log_of_two)
          none)
unfolding lit list_eq nat_eq
get-ingest_example = get-ingest ⦃u = ascii⦄ false true (lit "s1") log_of_two refl

seq-add_records_example :
    (finish (add_records ⦃u = ascii⦄ false log_of_two new_session)).seq
    ≡ map render (blocks (events ⦃u = ascii⦄ false log_of_two))
seq-add_records_example = seq-add_records ⦃u = ascii⦄ false log_of_two

abbrev one_session : Dict Str Session
one_session = (lit "s1", record new_session { seq = lit "ls" ∷ [] }) ∷ (lit "s2", new_session) ∷ []

abbrev same_text : Str → Str
same_text s = s

cluster_counts_example :
    ((cluster same_text 1 one_session).skipped
        + counted same_text 1 (cluster same_text 1 one_session)
      ≡ 2)
    × AllValues IsCounted (cluster same_text 1 one_session).groups
cluster_counts_example = cluster_counts same_text 1 one_session

cluster_members_example :
    listed same_text (get (lit "ls") (cluster same_text 1 one_session).groups)
    ≡ members same_text 1 (lit "ls") one_session
cluster_members_example = cluster_members same_text 1 (lit "ls") one_session

first_match-Decides_example :
    Decides rules (lit "hostname" ∷ []) (first_match rules (lit "hostname" ∷ []))
    ⊎ ((all (misses (lit "hostname" ∷ [])) rules ≡ true)
        × (first_match rules (lit "hostname" ∷ []) ≡ (lit "TAIL", lit "no rule matched")))
first_match-Decides_example = first_match-Decides rules (lit "hostname" ∷ [])

abbrev two_patterns : List Pattern
two_patterns =
    record {
      fingerprint_id = lit "f1";
      session_count = 7;
      ip_count = 1;
      command_shape = lit "hostname" ∷ [];
      example_raw = lit "hostname" ∷ [];
      example_ips = lit "1.2.3.4" ∷ lit "5.6.7.8" ∷ lit "1.2.3.4" ∷ [];
    }
    ∷ record {
      fingerprint_id = lit "f2";
      session_count = 2;
      ip_count = 1;
      command_shape = [];
      example_raw = [];
      example_ips = lit "9.9.9.9" ∷ [];
    }
    ∷ []

report_totals_example :
    (sum_by (λ (r : Row). r.patterns) (report two_patterns) ≡ 2)
    × (sum_by (λ (r : Row). r.sessions) (report two_patterns) ≡ 9)
report_totals_example = report_totals two_patterns

sample-eq-take_example : sample [] two_patterns ≡ take 8 (distinct_onto [] (all_ips two_patterns))
sample-eq-take_example = sample-eq-take two_patterns

shape-eq-collapse_example :
    ((shape_and_raw ⦃u = ascii⦄ log_of_two).shape
      ≡ collapse_onto [] (entries ⦃u = ascii⦄ log_of_two))
    × (no_repeats (shape_and_raw ⦃u = ascii⦄ log_of_two).shape ≡ true)
shape-eq-collapse_example = shape-eq-collapse ⦃u = ascii⦄ log_of_two

raw-le-60_test : length (shape_and_raw ⦃u = ascii⦄ log_of_two).raw ≤ 60
raw-le-60_test = raw-le-60 ⦃u = ascii⦄ log_of_two

walk-eq-length_example :
    walk ⦃u = ascii⦄ 5 log_of_two (record { shape = []; raw = [] })
    ≡ walk ⦃u = ascii⦄ (length log_of_two) log_of_two (record { shape = []; raw = [] })
walk-eq-length_example =
    walk-eq-length ⦃u = ascii⦄ 5 log_of_two (record { shape = []; raw = [] }) (omega arith)

abbrev lines_text : List Str → Str
lines_text = join (10 ∷ [])

abbrev two_sessions : Dict Str (List Rec)
two_sessions =
    (lit "s1", command "s1" "t2" "uname -a" ∷ [])
    ∷ (lit "s2", command "s2" "t4" "hostname" ∷ [])
    ∷ []

report-patterns_example :
    sum_by
      (λ (r : Row). r.sessions)
      (report (patterns ⦃u = ascii⦄ lines_text same_text two_sessions))
    ≡ 2
report-patterns_example = report-patterns ⦃u = ascii⦄ lines_text same_text two_sessions

c09_stage_climbs_example :
    rank (c09_stage (lit "pkill xmrig" ∷ []))
    ≤ rank (c09_stage (lit "ls" ∷ lit "pkill xmrig" ∷ lit "chattr -i x" ∷ []))
c09_stage_climbs_example =
    c09_stage_climbs (lit "ls" ∷ []) (lit "pkill xmrig" ∷ []) (lit "chattr -i x" ∷ [])

abbrev small_mapping : Mapping
small_mapping = load_mapping (
    record {
      cluster_id = lit "C06";
      family_id = some (lit "F1");
      exclude_sids = lit "s9" ∷ [];
      sub_splits = [];
    }
    ∷ [])

count_of-aggregate_example :
    count_of
      (lit "F1")
      (aggregate (
        classify_sessions ⦃u = ascii⦄ lines_text same_text small_mapping []
          two_sessions)).fam_sess_count
    ≡ sum_by (given (lit "F1") ⦃u = ascii⦄ lines_text same_text small_mapping) two_sessions
count_of-aggregate_example =
    count_of-aggregate (lit "F1") ⦃u = ascii⦄ lines_text same_text small_mapping two_sessions
