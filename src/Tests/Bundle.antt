-- ===== src/Tests/Bundle.antt =====
-- Tests and examples of the bundle.
use Prim.Native.String.{String}
use ssh_honeypot.Base.{◌≡◌, refl, List, [], ◌∷◌, ◌++◌, map, nat_eq, list_eq, arith}
use ssh_honeypot.Base.Results.{ok, key_error}
use ssh_honeypot.Base.Text.{Str, lit}
use ssh_honeypot.Base.{length}
use ssh_honeypot.Classify.Aggregate.{Totals}
use ssh_honeypot.Classify.Output.{families_out, to_families}
use ssh_honeypot.Classify.Output.Bundled.{build_bundle-families_out}
use ssh_honeypot.Stix.{attack_map, family_names}
use ssh_honeypot.Stix.Bundle.{Built, build_bundle}
use ssh_honeypot.Stix.Bundle.Counts.{IsCounted, build_bundle-IsCounted}
use ssh_honeypot.Stix.Bundle.Needs.{build_bundle_raises}
use ssh_honeypot.Stix.Bundle.Ready.{IsComplete, build_bundle_returns}
use ssh_honeypot.Stix.Bundle.Refs.{IsResolved, build_bundle-IsResolved}
use ssh_honeypot.Stix.Ids.{force_v4, set_at, version_byte, variant_byte}
use ssh_honeypot.Stix.Ids.Bits.{IsV4, force_v4-IsV4}
use ssh_honeypot.Stix.Objects.{Family, Families, Library}

-- Ids that spell what they are made from.
abbrev spelled : Library
spelled = record {
  uuid5 = λ slug. slug;
  uuid_text = λ bytes. bytes;
  file_id = λ f. lit "file--" ++ f.sha256;
}

abbrev family : String → List String → Str × Family
family fid ips =
    (lit fid, record { ip_count = 1; session_count = 1; ips = map lit ips; stage_breakdown = [] })

abbrev ten_families : Families
ten_families =
    family "F1" ("192.0.2.1" ∷ [])
    ∷ family "F2" ("35.200.201.144" ∷ "192.0.2.1" ∷ [])
    ∷ family "F4" []
    ∷ family "F5" []
    ∷ family "F6" []
    ∷ family "F9" []
    ∷ family "F10" []
    ∷ family "F11" []
    ∷ family "F13" ("192.0.2.2" ∷ [])
    ∷ family "F14" []
    ∷ []

ten_families-IsComplete : IsComplete ten_families
unfolding attack_map family_names list_eq lit nat_eq
ten_families-IsComplete = (
  (
    (refl, refl),
    (
      (refl, refl),
      (
        (refl, refl),
        (
          (refl, refl),
          (
            (refl, refl),
            ((refl, refl), ((refl, refl), ((refl, refl), ((refl, refl), ((refl, refl), tt))))),
          ),
        ),
      ),
    ),
  ),
  (refl, (refl, (refl, (refl, (refl, (refl, (refl, (refl, (refl, (refl, tt)))))))))),
)

build_bundle_returns_example : (b : Built) × (build_bundle spelled ten_families ≡ ok b)
build_bundle_returns_example = build_bundle_returns spelled ten_families ten_families-IsComplete

abbrev ten_returns : (b : Built) × (build_bundle spelled ten_families ≡ ok b)
ten_returns = build_bundle_returns spelled ten_families ten_families-IsComplete

build_bundle-IsResolved_example : IsResolved spelled (ten_returns).0
build_bundle-IsResolved_example =
    build_bundle-IsResolved spelled ten_families (ten_returns).0 (ten_returns).1

build_bundle-IsCounted_example : IsCounted (ten_returns).0
build_bundle-IsCounted_example =
    build_bundle-IsCounted spelled ten_families (ten_returns).0 (ten_returns).1

none-IsComplete : ¬ IsComplete []
none-IsComplete (_, (h, _)) = cc

build_bundle_raises_example : (k : Str) × (build_bundle spelled [] ≡ key_error k)
build_bundle_raises_example = build_bundle_raises spelled [] none-IsComplete

force_v4-IsV4_example :
    IsV4
      (0 ∷ 1 ∷ 2 ∷ 3 ∷ 4 ∷ 5 ∷ [])
      0xff
      7
      0xff
      (9 ∷ [])
      (force_v4 (0 ∷ 1 ∷ 2 ∷ 3 ∷ 4 ∷ 5 ∷ 0xff ∷ 7 ∷ 0xff ∷ 9 ∷ []))
force_v4-IsV4_example = force_v4-IsV4 0 1 2 3 4 5 0xff 7 0xff (9 ∷ []) (omega arith) (omega arith)

force_v4_test :
    force_v4 (0 ∷ 0 ∷ 0 ∷ 0 ∷ 0 ∷ 0 ∷ 0xff ∷ 0 ∷ 0xff ∷ [])
    ≡ (0 ∷ 0 ∷ 0 ∷ 0 ∷ 0 ∷ 0 ∷ 0x4f ∷ 0 ∷ 0xbf ∷ [])
unfolding force_v4 set_at version_byte variant_byte
force_v4_test = refl

-- Totals with the same families, of no addresses.
abbrev ten_totals : Totals
ten_totals = record {
  fam_ip_entries = map (λ (e : Str × Family). (e.0, [])) ten_families;
  fam_sess_count = [];
  stages = [];
  multi_family_ips = [];
  unclassified_ips = [];
}

build_bundle-families_out_example :
    (b : Built) × (build_bundle spelled (to_families (families_out length ten_totals)) ≡ ok b)
build_bundle-families_out_example =
    build_bundle-families_out length spelled ten_totals ten_families-IsComplete.0
      ten_families-IsComplete.1
