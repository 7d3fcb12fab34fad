-- ===== src/Stix/Bundle/Ready.antt =====
-- When `build_bundle` returns.
use mathlib.Core.Path.{subst, ap₂}
use ssh_honeypot.Base.{ℕ, ◌≡◌, refl, sym, ap, Option, none, some, List, [], ◌∷◌, map}
use ssh_honeypot.Base.{All, nat_eq, list_eq}
use ssh_honeypot.Base.Dict.{Dict, keys, AllValues}
use ssh_honeypot.Base.Results.{ok, look, map_result}
use ssh_honeypot.Base.Text.{Str, lit}
use ssh_honeypot.Stix.{attack_map, family_names, f10_binaries, f10_c2_ips, f11_c2_ips}
use ssh_honeypot.Stix.Attackers.{
  ips_to_fids, attributed, stage_of, pattern_of, patterns_of, indicator_of, indicators_of,
  attribution, attributions_of, attributions,
}
use ssh_honeypot.Stix.Bundle.{sections, build_bundle, Built}
use ssh_honeypot.Stix.Bundle.Chains.{
  Returns, Done, chain-Returns, chain-Done, look-Done, map_result-Done, map_result-all, All-zip,
  Done-eq_ok, ips_to_fids-AllValues,
}
use ssh_honeypot.Stix.Bundle.Sound.{Has, Has-self}
use ssh_honeypot.Stix.Notes.{f2_entries, f14_entries, loop_entries}
use ssh_honeypot.Stix.Objects.{AttackPattern, Indicator, Families, Library}
use ssh_honeypot.Stix.Payloads.{worm_entries, binary_entries}
use ssh_honeypot.Stix.Servers.{f10_server_entries, f5_entries, f11_server_entries}

-- The families that the tables know, and those that the sections name.
abbrev pub IsKnown : Str → Type 0
IsKnown fid = Has (keys attack_map) fid × Has (keys family_names) fid

abbrev pub required : List Str
required = map lit ("F1" ∷ "F2" ∷ "F4" ∷ "F5" ∷ "F6" ∷ "F9" ∷ "F10" ∷ "F11" ∷ "F13" ∷ "F14" ∷ [])

abbrev pub IsComplete : Families → Type 0
IsComplete families = All IsKnown (keys families) × All (Has (keys families)) required

attributed-Done : (ip fid : Str) (o : Option (ℕ × ℕ)) → IsKnown fid → Done (attributed ip fid o)
unfolding attributed
attributed-Done ip fid none (_, h) =
    chain-Done (look fid family_names) _ (look-Done fid family_names h) (λ _. tt)
attributed-Done ip fid (some (a, b)) h = tt

module _ (lib : Library) where
  unfoldable pub SameKeys : Families → Dict Str AttackPattern → Type 0
  SameKeys families aps = keys aps ≡ keys families

  patterns_of-Returns :
      (families : Families)
      → All IsKnown (keys families)
      → Returns (SameKeys families) (patterns_of lib families)
  unfolding patterns_of map_result pattern_of SameKeys
  patterns_of-Returns [] h = refl
  patterns_of-Returns ((fid, fam) ∷ fams) ((ha, hn), h) =
      let rest : Returns (SameKeys fams) (patterns_of lib fams) = patterns_of-Returns fams h in
      let Here : Str × AttackPattern → Type 0 = λ p. p.0 ≡ fid in
      chain-Returns Here (SameKeys ((fid, fam) ∷ fams)) (pattern_of lib (fid, fam)) _
        (chain-Returns (λ _. Unit) Here (look fid attack_map) _ (look-Done fid attack_map ha)
          (λ (t, n) _.
            chain-Returns (λ _. Unit) Here (look fid family_names) _ (look-Done fid family_names hn)
              (λ _ _. refl)))
        (λ a p.
          chain-Returns (SameKeys fams) (SameKeys ((fid, fam) ∷ fams)) (patterns_of lib fams) _ rest
            (λ aps q. ap₂ ◌∷◌ p q))

  keys-indicators_of : (d : Dict Str (List Str)) → keys (indicators_of lib d) ≡ keys d
  unfolding indicators_of indicator_of
  keys-indicators_of [] = refl
  keys-indicators_of ((ip, fids) ∷ d) = ap (◌∷◌ ip) (keys-indicators_of d)

  module _ (aps : Dict Str AttackPattern) (inds : Dict Str Indicator) where
    abbrev Usable : Str → Type 0
    Usable fid = IsKnown fid × Has (keys aps) fid

    attribution-Done :
        (ind : Indicator) (ip fid : Str) → Usable fid → Done (attribution lib aps ind ip fid)
    unfolding attribution
    attribution-Done ind ip fid (hk, ha) =
        chain-Done (attributed ip fid (stage_of ip fid)) _
          (attributed-Done ip fid (stage_of ip fid) hk)
          (λ _. chain-Done (look fid aps) _ (look-Done fid aps ha) (λ _. tt))

    attributions-Done :
        (d : Dict Str (List Str))
        → AllValues (All Usable) d
        → All (Has (keys inds)) (keys d)
        → Done (attributions lib aps inds d)
    unfolding attributions attributions_of
    attributions-Done [] h k = tt
    attributions-Done ((ip, fids) ∷ d) (hf, h) (ki, k) =
        let rest : Done (attributions lib aps inds d) = attributions-Done d h k in
        chain-Done (attributions_of lib aps inds (ip, fids)) _
          (chain-Done (look ip inds) _ (look-Done ip inds ki) (λ ind.
            chain-Done (map_result (attribution lib aps ind ip) fids) _
              (map_result-Done Usable (attribution lib aps ind ip) fids (attribution-Done ind ip)
                hf)
              (λ _. tt)))
          (λ here. chain-Done (attributions lib aps inds d) _ rest (λ _. tt))

  -- The patterns' keys are the families'.
  module _ (families : Families) (aps : Dict Str AttackPattern) (inds : Dict Str Indicator)
      (here : All (Has (keys families)) required) (same : SameKeys families aps) where
    pattern-Done : (k : Str) → Has (keys families) k → Done (look k aps)
    unfolding SameKeys
    pattern-Done k h = look-Done k aps (subst (λ ks. Has ks k) (sym same) h)

    f2-Done : Done (f2_entries families aps inds)
    unfolding f2_entries
    f2-Done =
        let (_, (h2, _)) = here in
        chain-Done _ _ (look-Done _ families h2)
          (λ fam. chain-Done _ _ (pattern-Done _ h2) (λ _. tt))

    worm-Done : Done (worm_entries lib families aps inds)
    unfolding worm_entries
    worm-Done =
        let (_, (_, (_, (_, (_, (_, (_, (_, (h13, _))))))))) = here in
        chain-Done _ _ (pattern-Done _ h13)
          (λ _. chain-Done _ _ (look-Done _ families h13) (λ _. tt))

    f10_here : Has (keys families) (lit "F10")
    f10_here = let (_, (_, (_, (_, (_, (_, (h10, _))))))) = here in h10

    f10_servers-Done : Done (map_result (f10_server_entries lib aps) f10_c2_ips)
    unfolding f10_server_entries
    f10_servers-Done =
        map_result-all (f10_server_entries lib aps) f10_c2_ips
          (λ _. chain-Done _ _ (pattern-Done _ f10_here) (λ _. tt))

    binaries-Done : Done (map_result (binary_entries lib aps) f10_binaries)
    unfolding binary_entries
    binaries-Done =
        map_result-all (binary_entries lib aps) f10_binaries
          (λ _. chain-Done _ _ (pattern-Done _ f10_here) (λ _. tt))

    f5-Done : Done (f5_entries lib aps)
    unfolding f5_entries
    f5-Done = let (_, (_, (_, (h5, _)))) = here in chain-Done _ _ (pattern-Done _ h5) (λ _. tt)

    f11_servers-Done : Done (map_result (f11_server_entries lib aps) f11_c2_ips)
    unfolding f11_server_entries
    f11_servers-Done =
        let (_, (_, (_, (_, (_, (_, (_, (h11, _)))))))) = here in
        map_result-all (f11_server_entries lib aps) f11_c2_ips
          (λ _. chain-Done _ _ (pattern-Done _ h11) (λ _. tt))

    f14-Done : Done (f14_entries lib aps)
    unfolding f14_entries
    f14-Done =
        let (_, (_, (_, (_, (_, (_, (_, (_, (_, (h14, _)))))))))) = here in
        chain-Done _ _ (pattern-Done _ h14) (λ _. tt)

    loop-Done : Done (loop_entries aps)
    unfolding loop_entries
    loop-Done =
        let (h1, (_, (h4, (_, (h6, (h9, (_, (h11, _)))))))) = here in
        chain-Done _ _ (pattern-Done _ h4) (λ _. chain-Done _ _ (pattern-Done _ h6) (λ _.
          chain-Done _ _ (pattern-Done _ h11) (λ _.
            chain-Done _ _ (pattern-Done _ h1)
              (λ _. chain-Done _ _ (pattern-Done _ h9) (λ _. tt)))))

  ips_to_fids-Usable :
      (families : Families) (aps : Dict Str AttackPattern) (inds : Dict Str Indicator)
      → All IsKnown (keys families)
      → SameKeys families aps
      → AllValues (All (Usable aps inds)) (ips_to_fids [] families)
  unfolding SameKeys
  ips_to_fids-Usable families aps inds known same =
      ips_to_fids-AllValues (Usable aps inds) [] families
        (All-zip IsKnown (Has (keys aps)) (keys families) known
          (subst (λ ks. All (Has ks) (keys families)) (sym same) (Has-self (keys families))))
        tt

  sections-Done :
      (families : Families)
      → All IsKnown (keys families)
      → All (Has (keys families)) required
      → Done (sections lib families)
  unfolding sections
  sections-Done families known here =
      let d : Dict Str (List Str) = ips_to_fids [] families in
      let inds : Dict Str Indicator = indicators_of lib d in
      let covered : All (Has (keys inds)) (keys d) =
        subst (λ ks. All (Has ks) (keys d)) (sym (keys-indicators_of d)) (Has-self (keys d)) in
      chain-Returns (SameKeys families) (λ _. Unit) (patterns_of lib families) _
        (patterns_of-Returns families known)
        (λ aps same.
          chain-Done _ _
            (attributions-Done aps inds d (ips_to_fids-Usable families aps inds known same) covered)
            (λ _. chain-Done _ _ (f2-Done families aps inds here same) (λ _.
              chain-Done _ _ (worm-Done families aps inds here same) (λ _.
                chain-Done _ _ (binaries-Done families aps inds here same) (λ _.
                  chain-Done _ _ (f10_servers-Done families aps inds here same) (λ _.
                    chain-Done _ _ (f5-Done families aps inds here same) (λ _.
                      chain-Done _ _ (f11_servers-Done families aps inds here same) (λ _.
                        chain-Done _ _ (f14-Done families aps inds here same) (λ _.
                          chain-Done _ _ (loop-Done families aps inds here same) (λ _. tt))))))))))

  -- Where every key of the families is in both tables, and the families F1, F2, F4, F5, F6, F9, F10, F11, F13
  -- and F14 are there, `build_bundle` returns a bundle.
  pub build_bundle_returns :
      (families : Families) → IsComplete families → (b : Built) × (build_bundle lib families ≡ ok b)
  unfolding build_bundle
  build_bundle_returns families (known, here) =
      Done-eq_ok (build_bundle lib families)
        (chain-Done (sections lib families) _ (sections-Done families known here) (λ _. tt))
