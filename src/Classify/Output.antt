-- ===== src/Classify/Output.antt =====
-- The output of `main` in analysis/classify.py, and the families as gen_stix_bundle.py reads them.
-- `number` is `int(x[1:])` of the id of a family. The time of the run is left out.
pub mod Bundled
use ssh_honeypot.Base.{ℕ, Bool, Option, none, some, List, [], ◌∷◌, map}
use ssh_honeypot.Base.{if◌then◌else◌, length, ltb, count_by, ◌==◌, nat_eq, list_eq}
use ssh_honeypot.Base.Dict.{Dict, get, count_of, keys}
use ssh_honeypot.Base.Sort.{sort}
use ssh_honeypot.Base.Text.{Str, lit, str_ltb}
use ssh_honeypot.Classify.{Stage, recon_only, recon_kill, recon_kill_execute}
use ssh_honeypot.Classify.Aggregate.{IpData, IpEntry, Totals, aggregate, sanity_errors}
use ssh_honeypot.Cluster.Report.{or_empty}
use ssh_honeypot.Stix.Objects.{Families}

-- An entry of `families_out`; the stages are there for F2 only.
pub record FamilyOut : Type 0 where
  pub ip_count : ℕ
  pub session_count : ℕ
  pub ips : List IpEntry
  pub stage_breakdown : Dict Str ℕ

-- `f2_stages`
abbrev pub is_stage : Stage → Stage → Bool
is_stage recon_only recon_only = Bool.true
is_stage recon_kill recon_kill = Bool.true
is_stage recon_kill_execute recon_kill_execute = Bool.true
is_stage _ _ = Bool.false

unfoldable pub f2_stages : List Stage → Dict Str ℕ
f2_stages stages =
    (lit "recon_only", count_by (is_stage recon_only) stages)
    ∷ (lit "recon_kill", count_by (is_stage recon_kill) stages)
    ∷ (lit "recon_kill_execute", count_by (is_stage recon_kill_execute) stages)
    ∷ []

unfoldable pub family_out : Totals → Str → FamilyOut
family_out t fam = record {
  ip_count = length (or_empty (get fam t.fam_ip_entries));
  session_count = count_of fam t.fam_sess_count;
  ips = sort (λ a b. ltb b.session_count a.session_count) (or_empty (get fam t.fam_ip_entries));
  stage_breakdown = if fam == lit "F2" then f2_stages t.stages else [];
}

pub record Output : Type 0 where
  pub excluded_sids : List Str
  pub total_ips_classified : ℕ
  pub families : Dict Str FamilyOut
  pub multi_family_ips : List (Str × List Str)
  pub unclassified : List Str

-- `sorted(families)`
unfoldable pub families_of : Option IpData → List Str
families_of none = []
families_of (some d) = sort str_ltb d.families

module _ (number : Str → ℕ) where
  -- `all_fams`
  unfoldable pub all_fams : Totals → List Str
  all_fams t = sort (λ a b. ltb (number a) (number b)) (keys t.fam_ip_entries)

  unfoldable pub families_out : Totals → Dict Str FamilyOut
  families_out t = map (λ fam. (fam, family_out t fam)) (all_fams t)

  unfoldable pub families_at : Dict Str IpData → Str → Str × List Str
  families_at ip_data ip = (ip, families_of (get ip ip_data))

  unfoldable pub output : List Str → Dict Str IpData → Totals → Output
  output exclude_sids ip_data t = record {
    excluded_sids = sort str_ltb exclude_sids;
    total_ips_classified = length ip_data;
    families = families_out t;
    multi_family_ips = map (families_at ip_data) (sort str_ltb t.multi_family_ips);
    unclassified = sort str_ltb t.unclassified_ips;
  }

  -- `main` behind the classification: nothing where a check fails, and the script exits with status 1.
  unfoldable pub write_output : List Str → Dict Str IpData → Option Output
  write_output exclude_sids ip_data =
      let t = aggregate ip_data in
      elim (sanity_errors t) [ [] ↦ some (output exclude_sids ip_data t) | _ ∷ _ ↦ none ]

-- `data["families"]` of the file, with the fields that `build_bundle` reads.
unfoldable pub to_families : Dict Str FamilyOut → Families
to_families fams =
    map
      (λ (fam, f). (
        fam,
        record {
          ip_count = f.ip_count;
          session_count = f.session_count;
          ips = map (λ e. e.ip) f.ips;
          stage_breakdown = f.stage_breakdown;
        },
      ))
      fams
