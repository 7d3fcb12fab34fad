-- ===== src/Stix/Bundle/Refs.antt =====
-- The references inside a bundle.
use mathlib.Core.Path.{subst}
use ssh_honeypot.Base.{◌≡◌, List, [], ◌∷◌, ◌++◌}
use ssh_honeypot.Base.{All, nat_eq, list_eq}
use ssh_honeypot.Base.Dict.{Dict, AllValues}
use ssh_honeypot.Base.Results.{
  ok, Gives, >>=-Gives, chain-Gives, >>=-Passed, Passed, ok-Gives, ok-injective,
}
use ssh_honeypot.Base.Text.{Str}
use ssh_honeypot.Stix.{f10_binaries, f10_c2_ips, f11_c2_ips}
use ssh_honeypot.Stix.Attackers.{
  patterns_of, pattern_entries, ips_to_fids, address_entries, indicators_of, indicator_entries,
}
use ssh_honeypot.Stix.Bundle.{sections, build_bundle, Built, built_of}
use ssh_honeypot.Stix.Bundle.Extras.{
  f2_entries-IsSound, worm_entries-IsSound, binary_entries-IsSound, f10_server_entries-IsSound,
  f5_entries-IsSound, f11_server_entries-IsSound, f14_entries-IsSound, loop_entries-IsSound,
}
use ssh_honeypot.Stix.Bundle.Parts.{
  Sound, pattern_entries-IsSound, address_entries-IsSound, indicator_entries-IsSound,
  attributions-IsSound, concat-IsSound,
}
use ssh_honeypot.Stix.Bundle.Sound.{
  refs, Has, IsBalanced, Covers-append, Resolves, own, Covers, KnowsPatterns, KnowsIndicators,
  append-IsSound, All-mono, Has-append_right, Has-append_left, Has-self,
}
use ssh_honeypot.Stix.Objects.{
  AttackPattern, Indicator, Object, Step, objects_of, concat, Families, Library,
}

module _ (lib : Library) (ids : List Str) where
  known_patterns :
      (aps : Dict Str AttackPattern)
      → Covers lib ids (pattern_entries aps)
      → AllValues (λ (a : AttackPattern). Has ids a.id) aps
  unfolding pattern_entries objects_of
  known_patterns [] c = tt
  known_patterns ((fid, a) ∷ aps) ((c, _), cs) = (c, known_patterns aps cs)

  known_indicators :
      (inds : Dict Str Indicator)
      → Covers lib ids (indicator_entries inds)
      → AllValues (λ (i : Indicator). Has ids i.id) inds
  unfolding indicator_entries objects_of
  known_indicators [] c = tt
  known_indicators ((ip, i) ∷ inds) ((c, _), cs) = (c, known_indicators inds cs)

  -- Balanced counts, and every reference is to one of the ids if these cover the entries.
  abbrev pub IsClosed : List Step → Type 0
  IsClosed es = IsBalanced es × (Covers lib ids es → Resolves ids es)

  module _ (aps : Dict Str AttackPattern) (inds : Dict Str Indicator) where
    abbrev Known : Type 0
    Known = KnowsPatterns lib ids aps inds × KnowsIndicators lib ids aps inds

    -- Sound entries, among them those of all patterns and indicators.
    record IsFull (es : List Step) : Type 0 where
      sound : Sound lib ids aps inds es
      known : Covers lib ids es → Known

    first-IsFull :
        (addresses : List Step)
        → Sound lib ids aps inds addresses
        → IsFull (pattern_entries aps ++ addresses ++ indicator_entries inds)
    first-IsFull addresses h = record {
      sound =
          append-IsSound lib ids aps inds (pattern_entries aps ++ addresses)
            (indicator_entries inds)
            (append-IsSound lib ids aps inds (pattern_entries aps) addresses
              (pattern_entries-IsSound lib ids aps inds aps) h)
            (indicator_entries-IsSound lib ids aps inds inds);
      known = λ c.
          let (c1, ci) =
            Covers-append lib ids (pattern_entries aps ++ addresses) (indicator_entries inds) c in
          let (ca, _) = Covers-append lib ids (pattern_entries aps) addresses c1 in
          (known_patterns aps ca, known_indicators inds ci);
    }

    infixl 4 ◌and◌
    ◌and◌ : {es fs : List Step} → IsFull es → Sound lib ids aps inds fs → IsFull (es ++ fs)
    ◌and◌ {es = es} {fs = fs} h k = record {
      sound = append-IsSound lib ids aps inds es fs h.sound k;
      known = λ c. let (ce, _) = Covers-append lib ids es fs c in h.known ce;
    }

    full-IsClosed : (es : List Step) → IsFull es → IsClosed es
    full-IsClosed es h =
        ((h.sound).balanced, λ c. let (a, i) = h.known c in (h.sound).resolved a i c)

  pub sections-IsClosed : (families : Families) → Gives IsClosed (sections lib families)
  unfolding sections
  sections-IsClosed families = >>=-Gives IsClosed (patterns_of lib families) _ (λ aps _.
      let d : Dict Str (List Str) = ips_to_fids [] families in
      let inds : Dict Str Indicator = indicators_of lib d in
      let S : List Step → Type 0 = Sound lib ids aps inds in
      let SS : List (List Step) → Type 0 = λ ess. S (concat ess) in
      let add : (es fs : List Step) → IsFull aps inds es → S fs → IsFull aps inds (es ++ fs) =
        λ es fs. ◌and◌ aps inds in
      chain-Gives S IsClosed _ _ (attributions-IsSound lib ids aps inds d) (λ e1 s1.
        chain-Gives S IsClosed _ _ (f2_entries-IsSound lib ids aps inds families) (λ e2 s2.
          chain-Gives S IsClosed _ _ (worm_entries-IsSound lib ids aps inds families) (λ e3 s3.
            chain-Gives SS IsClosed _ _
              (concat-IsSound lib ids aps inds _ f10_binaries
                (binary_entries-IsSound lib ids aps inds))
              (λ e4 s4.
                chain-Gives SS IsClosed _ _
                  (concat-IsSound lib ids aps inds _ f10_c2_ips
                    (f10_server_entries-IsSound lib ids aps inds))
                  (λ e5 s5.
                    chain-Gives S IsClosed _ _ (f5_entries-IsSound lib ids aps inds) (λ e6 s6.
                      chain-Gives SS IsClosed _ _
                        (concat-IsSound lib ids aps inds _ f11_c2_ips
                          (f11_server_entries-IsSound lib ids aps inds))
                        (λ e7 s7.
                          chain-Gives S IsClosed _ _ (f14_entries-IsSound lib ids aps inds)
                            (λ e8 s8.
                              chain-Gives S IsClosed _ _ (loop_entries-IsSound lib ids aps inds)
                                (λ e9 s9. full-IsClosed aps inds _ (
                                  add _ _
                                    (add _ _
                                      (add _ _
                                        (add _ _
                                          (add _ _
                                            (add _ _
                                              (add _ _
                                                (add _ _
                                                  (add _ _
                                                    (first-IsFull aps inds (address_entries d)
                                                      (address_entries-IsSound lib ids aps inds d))
                                                    s1)
                                                  s2)
                                                s3)
                                              s4)
                                            s5)
                                          s6)
                                        s7)
                                      s8)
                                    s9)))))))))))

module _ (lib : Library) where
  -- The ids of the objects of a bundle.
  abbrev pub own_ids : List Object → List Str
  own_ids [] = []
  own_ids (o ∷ os) = own lib o ++ own_ids os

  abbrev pub IsResolved : Built → Type 0
  IsResolved b = All (λ (o : Object). All (Has (own_ids b.objects)) (refs o)) b.objects

  Has-own : (os : List Object) → All (λ o. All (Has (own_ids os)) (own lib o)) os
  Has-own [] = tt
  Has-own (o ∷ os) =
      let mine : List Str = own lib o in
      let others : List Str = own_ids os in
      (
        All-mono (Has mine) (Has (mine ++ others)) mine (Has-append_left mine others)
            (Has-self mine),
        All-mono (λ (p : Object). All (Has others) (own lib p))
            (λ p. All (Has (mine ++ others)) (own lib p)) os
            (λ p.
              All-mono (Has others) (Has (mine ++ others)) (own lib p)
                (Has-append_right mine others))
            (Has-own os),
      )

  built_of-IsResolved :
      (es : List Step) → IsClosed lib (own_ids (objects_of es)) es → IsResolved (built_of es)
  unfolding built_of
  built_of-IsResolved es (_, h) = h (Has-own (objects_of es))

  -- Whenever `build_bundle` returns, every id that an object of the bundle refers to (source and target of
  -- a relationship, object_refs of a note, sample_refs of a malware) is the id of an object of the bundle.
  pub build_bundle-IsResolved :
      (families : Families) (b : Built) → build_bundle lib families ≡ ok b → IsResolved b
  unfolding build_bundle
  build_bundle-IsResolved families b p =
      let passed : Passed (sections lib families) (λ es. ok (built_of es)) b =
        >>=-Passed (sections lib families) (λ es. ok (built_of es)) p in
      let es : List Step = passed.value in
      let closed : IsClosed lib (own_ids (objects_of es)) es =
        ok-Gives (IsClosed lib (own_ids (objects_of es))) (sections lib families) es passed.before
          (sections-IsClosed lib (own_ids (objects_of es)) families) in
      subst IsResolved (ok-injective passed.after) (built_of-IsResolved es closed)
