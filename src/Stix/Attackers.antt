-- ===== src/Stix/Attackers.antt =====
-- Sections 1 to 4 of `build_bundle` of analysis/gen_stix_bundle.py: a pattern for each family, and an
-- address and an indicator for each attacker, related to the patterns of its families.
use ssh_honeypot.Base.{ℕ, Option, none, some, List, [], ◌∷◌, ◌++◌, map}
use ssh_honeypot.Base.{if◌then◌else◌, ◌==◌, nat_eq, list_eq}
use ssh_honeypot.Base.Dict.{Dict, get, upsert}
use ssh_honeypot.Base.Results.{Result, ok, ◌>>=◌, look, map_result}
use ssh_honeypot.Base.Sort.{sort}
use ssh_honeypot.Base.Text.{Str, lit, join, show, str_ltb}
use ssh_honeypot.Cluster.Report.{or_empty}
use ssh_honeypot.Stix.{attack_map, family_names, f2_stage_by_ip}
use ssh_honeypot.Stix.Ids.{det_id, att_ref}
use ssh_honeypot.Stix.Objects.{
  AttackPattern, Indicator, attack_pattern, ipv4_addr, indicator, relationship, Step, append, raise,
  concat, Family, Families, Library,
}

-- `_det_id`, with what it takes from the library.
abbrev pub id_of : Library → Str → List Str → Str
id_of lib = det_id lib.uuid5 lib.uuid_text

unfoldable pub pattern_entries : Dict Str AttackPattern → List Step
pattern_entries [] = []
pattern_entries ((fid, ap) ∷ aps) =
    append (attack_pattern ap) ∷ raise "attack_pattern" 1 ∷ pattern_entries aps

-- `ip_to_fids`
unfoldable pub add_ips : Str → List Str → Dict Str (List Str) → Dict Str (List Str)
add_ips fid [] d = d
add_ips fid (ip ∷ ips) d = add_ips fid ips (upsert ip (λ o. or_empty o ++ (fid ∷ [])) d)

unfoldable pub ips_to_fids : Dict Str (List Str) → Families → Dict Str (List Str)
ips_to_fids d [] = d
ips_to_fids d ((fid, fam) ∷ fams) = ips_to_fids (add_ips fid fam.ips d) fams

unfoldable pub address_entries : Dict Str (List Str) → List Step
address_entries [] = []
address_entries ((ip, fids) ∷ d) = append (ipv4_addr ip) ∷ raise "ipv4_addr" 1 ∷ address_entries d

abbrev pub ip_pattern : Str → Str
ip_pattern ip = lit "[ipv4-addr:value = '" ++ ip ++ lit "']"

unfoldable pub indicator_entries : Dict Str Indicator → List Step
indicator_entries [] = []
indicator_entries ((ip, ind) ∷ inds) =
    append (indicator ind) ∷ raise "indicator" 1 ∷ indicator_entries inds

-- The description of a relationship between an address and a family.
unfoldable pub attributed : Str → Str → Option (ℕ × ℕ) → Result Str
attributed ip fid none = look fid family_names >>= λ name.
    ok (lit "IP " ++ ip ++ lit " attributed to " ++ fid ++ lit " (" ++ name ++ lit ").")
attributed ip fid (some (recon_only, execute)) = ok (
    lit "IP "
    ++ ip
    ++ lit " attributed to F2 (Diicot GPU Miner). Per-IP stage: recon_only="
    ++ show recon_only
    ++ lit ", recon_kill_execute="
    ++ show execute
    ++ lit
        ". recon_kill_execute = full chain: crontab -r + chattr -iae authorized_keys + deploy miner (disown).")

abbrev pub stage_of : Str → Str → Option (ℕ × ℕ)
stage_of ip fid = if fid == lit "F2" then get ip f2_stage_by_ip else none

module _ (lib : Library) where
  -- The body of the first loop.
  unfoldable pub pattern_of : Str × Family → Result (Str × AttackPattern)
  pattern_of (fid, fam) = look fid attack_map >>= λ (tech_id, tech_name).
      look fid family_names >>= λ name. ok (
        fid,
        record {
          id = id_of lib (lit "attack-pattern") (fid ∷ []);
          name = name ++ lit " [" ++ fid ++ lit "]";
          description =
              lit "Honeypot family "
              ++ fid
              ++ lit ". "
              ++ show fam.ip_count
              ++ lit " source IPs, "
              ++ show fam.session_count
              ++ lit " sessions. Primary technique: "
              ++ tech_id
              ++ lit " ("
              ++ tech_name
              ++ lit ").";
          external_references = att_ref tech_id ∷ [];
        },
      )

  unfoldable pub patterns_of : Families → Result (Dict Str AttackPattern)
  patterns_of families = map_result pattern_of families

  unfoldable pub indicator_of : Str × List Str → Str × Indicator
  indicator_of (ip, fids) = (
    ip,
    record {
      id = id_of lib (lit "indicator") (ip ∷ []);
      name = lit "Honeypot attacker IP: " ++ ip;
      description =
          lit "Source IP observed in honeypot campaign (Helsinki VPS, port 22). Families: "
          ++ join (lit ", ") (sort str_ltb fids)
          ++ lit ".";
      pattern = ip_pattern ip;
    },
  )

  -- `ind_by_ip`
  unfoldable pub indicators_of : Dict Str (List Str) → Dict Str Indicator
  indicators_of d = map indicator_of d

  unfoldable pub attribution : Dict Str AttackPattern → Indicator → Str → Str → Result (List Step)
  attribution aps ind ip fid = attributed ip fid (stage_of ip fid) >>= λ desc.
      look fid aps >>= λ ap. ok (
        append (
          relationship (record {
            id = id_of lib (lit "relationship") (lit "ind-to-ap" ∷ ip ∷ fid ∷ []);
            relationship_type = lit "indicates";
            source_ref = ind.id;
            target_ref = ap.id;
            description = some desc;
          }))
        ∷ raise "relationship" 1
        ∷ [])

  -- `ind = ind_by_ip[ip]`, and the inner loop.
  unfoldable pub attributions_of :
      Dict Str AttackPattern → Dict Str Indicator → Str × List Str → Result (List Step)
  attributions_of aps inds (ip, fids) =
      look ip inds >>= λ ind. map_result (attribution aps ind ip) fids >>= λ ess. ok (concat ess)

  unfoldable pub attributions :
      Dict Str AttackPattern → Dict Str Indicator → Dict Str (List Str) → Result (List Step)
  attributions aps inds [] = ok []
  attributions aps inds (e ∷ es) =
      attributions_of aps inds e >>= λ here. attributions aps inds es >>= λ rest. ok (here ++ rest)
