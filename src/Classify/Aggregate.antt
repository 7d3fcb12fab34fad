-- ===== src/Classify/Aggregate.antt =====
-- The loops of `main` in analysis/classify.py: sessions by source address, and families over the
-- addresses. A set is the list of its elements in the order in which they came.
use ssh_honeypot.Base.{ℕ, ◌&&◌, Option, none, some, List, [], ◌∷◌, ◌++◌, map, length}
use ssh_honeypot.Base.{if◌then◌else◌, ◌==◌, nat_eq, list_eq, member, select, leb, ltb}
use ssh_honeypot.Base.Dict.{Dict, get, upsert, incr, count_of}
use ssh_honeypot.Base.Distinct.{distinct_onto}
use ssh_honeypot.Base.Sort.{sort}
use ssh_honeypot.Base.Text.{Str, Unicode, lit, str_ltb}
use ssh_honeypot.Cluster.{Shape}
use ssh_honeypot.Cluster.Report.{or_empty}
use ssh_honeypot.Fingerprint.Groups.{session_ip, fid}
use ssh_honeypot.Fingerprint.Shape.{shape_and_raw}
use ssh_honeypot.Log.{Rec, field, kind, is_command}
use ssh_honeypot.Classify.{Mapping, Verdict, Stage, classify}

-- A classified session, as `ip_data[ip]["sessions"]` holds it.
pub record Entry : Type 0 where
  pub sid : Str
  pub verdict : Verdict

pub record IpData : Type 0 where
  pub sessions : List Entry
  pub families : List Str

abbrev pub or_no_data : Option IpData → IpData
or_no_data none = record { sessions = []; families = [] }
or_no_data (some d) = d

unfoldable pub add_verdict : Entry → IpData → IpData
add_verdict e d = record {
  sessions = d.sessions ++ (e ∷ []);
  families = distinct_onto d.families e.verdict.families;
}

module _ ⦃u : Unicode⦄ (dumps : Shape → Str) (sha256 : Str → Str) (m : Mapping) where
  -- The verdict on the events of a session.
  unfoldable pub judge : List Rec → Verdict
  judge evs =
      let shape = (shape_and_raw evs).shape in
      let cmds = map (λ r. field "command" "" r) (select (λ r. is_command (kind r)) evs) in
      classify shape cmds (fid dumps sha256 shape) m

  -- The body of the loop "classify". An excluded session is skipped.
  unfoldable pub classify_session : Dict Str IpData → Str × List Rec → Dict Str IpData
  classify_session data_ (sid, evs) =
      let e : Entry = record { sid = sid; verdict = judge evs } in
      if member sid m.exclude_sids
      then data_
      else upsert (session_ip evs) (λ o. add_verdict e (or_no_data o)) data_

  unfoldable pub classify_sessions : Dict Str IpData → Dict Str (List Rec) → Dict Str IpData
  classify_sessions data_ [] = data_
  classify_sessions data_ (s ∷ ss) = classify_sessions (classify_session data_ s) ss

-- An entry of the output: an address of a family, its clusters in order, and the rule of its first
-- session with a family.
pub record IpEntry : Type 0 where
  pub ip : Str
  pub session_count : ℕ
  pub clusters : List Str
  pub rule : Str
  pub stage_sessions : List (Str × Stage)

unfoldable pub primary_rule : List Entry → Str
primary_rule [] = []
primary_rule (e ∷ es) =
    let rest = primary_rule es in elim e.verdict.families [ [] ↦ rest | _ ∷ _ ↦ e.verdict.rule ]

-- The sessions that have a stage.
unfoldable pub staged : List Entry → List (Str × Stage)
staged [] = []
staged (e ∷ es) =
    let rest = staged es in elim e.verdict.stage [ none ↦ rest | some s ↦ (e.sid, s) ∷ rest ]

unfoldable pub ip_entry : Str → Str → IpData → IpEntry
ip_entry ip fam d = record {
  ip = ip;
  session_count = length d.sessions;
  clusters = sort str_ltb (distinct_onto [] (map (λ e. e.verdict.cluster_id) d.sessions));
  rule = primary_rule d.sessions;
  stage_sessions = if fam == lit "F2" then staged d.sessions else [];
}

pub record Totals : Type 0 where
  pub fam_ip_entries : Dict Str (List IpEntry)
  pub fam_sess_count : Dict Str ℕ
  pub stages : List Stage
  pub multi_family_ips : List Str
  pub unclassified_ips : List Str

unfoldable pub add_ip_entries :
    Str → IpData → List Str → Dict Str (List IpEntry) → Dict Str (List IpEntry)
add_ip_entries ip d [] entries = entries
add_ip_entries ip d (fam ∷ fams) entries =
    add_ip_entries ip d fams (upsert fam (λ o. or_empty o ++ (ip_entry ip fam d ∷ [])) entries)

unfoldable pub count_families : Dict Str ℕ → List Str → Dict Str ℕ
count_families counts [] = counts
count_families counts (fam ∷ fams) = count_families (incr fam counts) fams

unfoldable pub count_sessions : Dict Str ℕ → List Entry → Dict Str ℕ
count_sessions counts [] = counts
count_sessions counts (e ∷ es) = count_sessions (count_families counts e.verdict.families) es

-- The body of the loop over `sorted(ip_data.items())`. The stage counts of F2 are kept as the list
-- of the stages.
unfoldable pub add_ip : Str → IpData → Totals → Totals
add_ip ip d t =
    let multi : List Str =
      if ltb 1 (length d.families) then t.multi_family_ips ++ (ip ∷ []) else t.multi_family_ips in
    elim d.families [
      | [] ↦ record t {
        multi_family_ips = multi;
        unclassified_ips = t.unclassified_ips ++ (ip ∷ []);
      }
      | _ ∷ _ ↦ record {
        fam_ip_entries = add_ip_entries ip d d.families t.fam_ip_entries;
        fam_sess_count = count_sessions t.fam_sess_count d.sessions;
        stages = t.stages ++ map (λ e. e.1) (staged d.sessions);
        multi_family_ips = multi;
        unclassified_ips = t.unclassified_ips;
      }
    ]

unfoldable pub add_ips : Totals → Dict Str IpData → Totals
add_ips t [] = t
add_ips t ((ip, d) ∷ ds) = add_ips (add_ip ip d t) ds

unfoldable pub aggregate : Dict Str IpData → Totals
aggregate ip_data =
    add_ips
      (record {
        fam_ip_entries = [];
        fam_sess_count = [];
        stages = [];
        multi_family_ips = [];
        unclassified_ips = [];
      })
      (sort (λ a b. str_ltb a.0 b.0) ip_data)

-- The sanity checks before writing, as the families that fail them.
abbrev pub ips_of : Str → Totals → ℕ
ips_of fam t = length (or_empty (get fam t.fam_ip_entries))

unfoldable pub sanity_errors : Totals → List Str
sanity_errors t =
    let f15 = lit "F15" in
    let f1 = lit "F1" in
    (if ips_of f15 t == 3 then [] else f15 ∷ [])
    ++ (if count_of f15 t.fam_sess_count == 14954 then [] else f15 ∷ [])
    ++ (if leb 1028 (ips_of f1 t) && leb (ips_of f1 t) 1032 then [] else f1 ∷ [])
