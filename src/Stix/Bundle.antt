-- ===== src/Stix/Bundle.antt =====
-- `build_bundle` of analysis/gen_stix_bundle.py, and the total that `main` prints.
pub mod Sound
pub mod Parts
pub mod Extras
pub mod Counts
pub mod Refs
pub mod Chains
pub mod Ready
pub mod Needs
use ssh_honeypot.Base.{ℕ, List, [], ◌∷◌, ◌++◌, map, nat_eq, list_eq}
use ssh_honeypot.Base.Dict.{Dict, total}
use ssh_honeypot.Base.Results.{Result, ok, ◌>>=◌, map_result}
use ssh_honeypot.Base.Text.{Str}
use ssh_honeypot.Stix.{f10_binaries, f10_c2_ips, f11_c2_ips}
use ssh_honeypot.Stix.Attackers.{
  patterns_of, pattern_entries, ips_to_fids, address_entries, indicators_of, indicator_entries,
  attributions,
}
use ssh_honeypot.Stix.Notes.{f2_entries, f14_entries, loop_entries}
use ssh_honeypot.Stix.Objects.{
  Object, Step, Families, Library, objects_of, count_steps, concat, no_counts,
}
use ssh_honeypot.Stix.Payloads.{worm_entries, binary_entries}
use ssh_honeypot.Stix.Servers.{f10_server_entries, f5_entries, f11_server_entries}

-- The bundle's objects, and `counts`.
pub record Built : Type 0 where
  pub objects : List Object
  pub counts : Dict Str ℕ

unfoldable pub built_of : List Step → Built
built_of es = record { objects = objects_of es; counts = count_steps no_counts es }

module _ (lib : Library) where
  -- What the sections do, in their order.
  unfoldable pub sections : Families → Result (List Step)
  sections families = patterns_of lib families >>= λ aps.
      let ip_to_fids = ips_to_fids [] families in
      let inds = indicators_of lib ip_to_fids in
      attributions lib aps inds ip_to_fids >>= λ attributed. f2_entries families aps inds >>= λ f2.
      worm_entries lib families aps inds >>= λ worm.
      map_result (binary_entries lib aps) f10_binaries >>= λ binaries.
      map_result (f10_server_entries lib aps) f10_c2_ips >>= λ f10. f5_entries lib aps >>= λ f5.
      map_result (f11_server_entries lib aps) f11_c2_ips >>= λ f11. f14_entries lib aps >>= λ f14.
      loop_entries aps >>= λ feedback. ok (
        pattern_entries aps
        ++ address_entries ip_to_fids
        ++ indicator_entries inds
        ++ attributed
        ++ f2
        ++ worm
        ++ concat binaries
        ++ concat f10
        ++ f5
        ++ concat f11
        ++ f14
        ++ feedback)

  unfoldable pub build_bundle : Families → Result Built
  build_bundle families = sections families >>= λ es. ok (built_of es)

-- `sum(counts.values())`
unfoldable pub object_total : Built → ℕ
object_total b = total b.counts
