-- ===== src/Stix/Bundle/Needs.antt =====
-- What the families of a bundle that is built hold.
use Prim.Native.String.{String}
use mathlib.Core.Path.{subst, ap₂}
use ssh_honeypot.Base.{◌≡◌, refl, List, [], ◌∷◌}
use ssh_honeypot.Base.{All, nat_eq, list_eq, ◌==◌, Bool-cases, inl, inr}
use ssh_honeypot.Base.Dict.{Dict, get, keys}
use ssh_honeypot.Base.Results.{
  Result, ok, key_error, ◌>>=◌, look, map_result, Gives, >>=-Gives, chain-Gives, >>=-Passed, Passed,
  ok-Gives, Result-cases,
}
use ssh_honeypot.Base.Text.{Str, lit}
use ssh_honeypot.Stix.{attack_map, family_names, f10_c2_ips, f10_binaries, f11_c2_ips}
use ssh_honeypot.Stix.Attackers.{ips_to_fids, pattern_of, patterns_of, indicators_of, attributions}
use ssh_honeypot.Stix.Bundle.{sections, build_bundle, Built, built_of}
use ssh_honeypot.Stix.Bundle.Ready.{IsKnown, required, IsComplete}
use ssh_honeypot.Stix.Bundle.Sound.{Has}
use ssh_honeypot.Stix.Notes.{f2_entries, f14_entries, loop_entries}
use ssh_honeypot.Stix.Objects.{AttackPattern, Indicator, Step, Family, Families, Library}
use ssh_honeypot.Stix.Payloads.{worm_entries, binary_entries}
use ssh_honeypot.Stix.Servers.{f10_server_entries, f5_entries, f11_server_entries}

look-Has {ℓ} : {V : Type ℓ} (k : Str) (d : Dict Str V) → Gives (λ _. Has (keys d) k) (look k d)
unfolding get
look-Has k [] = tt
look-Has k ((j, v) ∷ d) = elim (Bool-cases (k == j)) [
  | inl e ↦ rw e refl
  | inr e ↦ rw e (look-Has k d)
]

-- A fact from the first element.
first-Gives {ℓ κ} :
    {A : Type ℓ} {B : Type κ} (P : Type 0) (f : A → Result B) (x : A) (xs : List A)
    → Gives (λ _. P) (f x)
    → Gives (λ _. P) (map_result f (x ∷ xs))
unfolding map_result
first-Gives P f x xs h =
    chain-Gives (λ _. P) (λ _. P) (f x) (λ b. map_result f xs >>= λ bs. ok (b ∷ bs)) h
      (λ b p. >>=-Gives (λ _. P) (map_result f xs) (λ bs. ok (b ∷ bs)) (λ _ _. p))

module _ (lib : Library) where
  abbrev Kept : Families → Dict Str AttackPattern → Type 0
  Kept families aps = (keys aps ≡ keys families) × All IsKnown (keys families)

  pattern_of-Gives :
      (fid : Str) (fam : Family)
      → Gives (λ p. (p.0 ≡ fid) × IsKnown fid) (pattern_of lib (fid, fam))
  unfolding pattern_of
  pattern_of-Gives fid fam =
      chain-Gives _ _ (look fid attack_map) _ (look-Has fid attack_map) (λ (t, n) ha.
        chain-Gives _ _ (look fid family_names) _ (look-Has fid family_names)
          (λ _ hn. (refl, (ha, hn))))

  patterns_of-Gives : (families : Families) → Gives (Kept families) (patterns_of lib families)
  unfolding patterns_of map_result
  patterns_of-Gives [] = (refl, tt)
  patterns_of-Gives ((fid, fam) ∷ fams) =
      let rest : Gives (Kept fams) (patterns_of lib fams) = patterns_of-Gives fams in
      chain-Gives _ (Kept ((fid, fam) ∷ fams)) (pattern_of lib (fid, fam)) _
        (pattern_of-Gives fid fam)
        (λ p (e, known).
          chain-Gives _ (Kept ((fid, fam) ∷ fams)) (patterns_of lib fams) _ rest
            (λ aps (same, all). (ap₂ ◌∷◌ e same, (known, all))))

  module _ (families : Families) (aps : Dict Str AttackPattern) (inds : Dict Str Indicator) where
    abbrev Holds : String → Type 0
    Holds k = Has (keys aps) (lit k)

    f2-Gives : Gives (λ _. Holds "F2") (f2_entries families aps inds)
    unfolding f2_entries
    f2-Gives =
        >>=-Gives _ (look (lit "F2") families) _
          (λ _ _. chain-Gives _ _ (look (lit "F2") aps) _ (look-Has (lit "F2") aps) (λ _ h. h))

    worm-Gives : Gives (λ _. Holds "F13") (worm_entries lib families aps inds)
    unfolding worm_entries
    worm-Gives =
        chain-Gives _ _ (look (lit "F13") aps) _ (look-Has (lit "F13") aps)
          (λ _ h. >>=-Gives _ (look (lit "F13") families) _ (λ _ _. h))

    f10-Gives : Gives (λ _. Holds "F10") (map_result (f10_server_entries lib aps) f10_c2_ips)
    unfolding f10_c2_ips f10_server_entries
    f10-Gives =
        first-Gives (Holds "F10") (f10_server_entries lib aps) _ _
          (chain-Gives _ _ (look (lit "F10") aps) _ (look-Has (lit "F10") aps) (λ _ h. h))

    f5-Gives : Gives (λ _. Holds "F5") (f5_entries lib aps)
    unfolding f5_entries
    f5-Gives = chain-Gives _ _ (look (lit "F5") aps) _ (look-Has (lit "F5") aps) (λ _ h. h)

    f14-Gives : Gives (λ _. Holds "F14") (f14_entries lib aps)
    unfolding f14_entries
    f14-Gives = chain-Gives _ _ (look (lit "F14") aps) _ (look-Has (lit "F14") aps) (λ _ h. h)

    abbrev InLoop : Type 0
    InLoop = Holds "F4" × (Holds "F6" × (Holds "F11" × (Holds "F1" × Holds "F9")))

    loop-Gives : Gives (λ _. InLoop) (loop_entries aps)
    unfolding loop_entries
    loop-Gives = chain-Gives _ _ (look (lit "F4") aps) _ (look-Has (lit "F4") aps) (λ _ h4.
        chain-Gives _ _ (look (lit "F6") aps) _ (look-Has (lit "F6") aps) (λ _ h6.
          chain-Gives _ _ (look (lit "F11") aps) _ (look-Has (lit "F11") aps) (λ _ h11.
            chain-Gives _ _ (look (lit "F1") aps) _ (look-Has (lit "F1") aps) (λ _ h1.
              chain-Gives _ _ (look (lit "F9") aps) _ (look-Has (lit "F9") aps)
                (λ _ h9. (h4, (h6, (h11, (h1, h9)))))))))

  sections-Gives : (families : Families) → Gives (λ _. IsComplete families) (sections lib families)
  unfolding sections
  sections-Gives families =
      let C : List Step → Type 0 = λ _. IsComplete families in
      let d : Dict Str (List Str) = ips_to_fids [] families in
      let inds : Dict Str Indicator = indicators_of lib d in
      chain-Gives _ C (patterns_of lib families) _ (patterns_of-Gives families)
        (λ aps (same, known).
          let K : Type 0 = All (Has (keys aps)) required in
          >>=-Gives C (attributions lib aps inds d) _ (λ _ _.
            chain-Gives _ C _ _ (f2-Gives families aps inds) (λ _ h2.
              chain-Gives _ C _ _ (worm-Gives families aps inds) (λ _ h13.
                >>=-Gives C (map_result (binary_entries lib aps) f10_binaries) _ (λ _ _.
                  chain-Gives _ C _ _ (f10-Gives families aps inds) (λ _ h10.
                    chain-Gives _ C _ _ (f5-Gives families aps inds) (λ _ h5.
                      >>=-Gives C (map_result (f11_server_entries lib aps) f11_c2_ips) _ (λ _ _.
                        chain-Gives _ C _ _ (f14-Gives families aps inds) (λ _ h14.
                          chain-Gives (λ _. InLoop families aps inds) C _ _
                            (loop-Gives families aps inds)
                            (λ _ (h4, (h6, (h11, (h1, h9)))).
                              let here : K = (
                                h1,
                                (h2, (h4, (h5, (h6, (h9, (h10, (h11, (h13, (h14, tt))))))))),
                              ) in
                              let all : IsComplete families =
                                (known, subst (λ ks. All (Has ks) required) same here) in
                              all))))))))))

  Built-IsComplete :
      (families : Families) (b : Built) → build_bundle lib families ≡ ok b → IsComplete families
  unfolding build_bundle
  Built-IsComplete families b p =
      let passed : Passed (sections lib families) (λ es. ok (built_of es)) b =
        >>=-Passed (sections lib families) (λ es. ok (built_of es)) p in
      ok-Gives (λ _. IsComplete families) (sections lib families) passed.value passed.before
        (sections-Gives families)

  -- Where a key of the families is not in both tables, or one of the families F1, F2, F4, F5, F6, F9, F10,
  -- F11, F13 and F14 is missing, `build_bundle` ends with a KeyError.
  pub build_bundle_raises :
      (families : Families)
      → ¬ IsComplete families
      → (k : Str) × (build_bundle lib families ≡ key_error k)
  build_bundle_raises families n = elim (Result-cases (build_bundle lib families)) [
    | inl (b, p) ↦ elim (n (Built-IsComplete families b p)) [ ]
    | inr e ↦ e
  ]
