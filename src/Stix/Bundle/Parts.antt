-- ===== src/Stix/Bundle/Parts.antt =====
-- Every section of the bundle is sound, by its own objects and those of the sections before.
use mathlib.Core.Path.{subst}
use ssh_honeypot.Base.{◌≡◌, refl, sym, All, List, [], ◌∷◌}
use ssh_honeypot.Base.{nat_eq, list_eq}
use ssh_honeypot.Base.Dict.{Dict}
use ssh_honeypot.Base.Results.{
  Result, ok, Gives, ◌>>=◌, look, map_result, >>=-Gives, chain-Gives, look-AllValues,
}
use ssh_honeypot.Base.Text.{Str}
use ssh_honeypot.Stix.Attackers.{
  pattern_entries, address_entries, indicator_entries, attributed, stage_of, attribution,
  attributions_of, attributions,
}
use ssh_honeypot.Stix.Bundle.Sound.{
  Has, KnowsPatterns, IsSound, append-IsSound, nil-IsBalanced, cons-IsBalanced, kind_name, refs,
}
use ssh_honeypot.Stix.Objects.{
  AttackPattern, Indicator, attack_pattern, ipv4_addr, indicator, Object, Step, append, raise,
  objects_of, concat, Library,
}

module _ (lib : Library) (ids : List Str) (aps : Dict Str AttackPattern)
    (inds : Dict Str Indicator) where
  abbrev pub Sound : List Step → Type 0
  Sound = IsSound lib ids aps inds

  nil-IsSound : Sound []
  unfolding objects_of
  nil-IsSound = record { balanced = nil-IsBalanced; resolved = λ _ _ _. tt }

  -- One object without references, with its key raised.
  plain-IsSound :
      (o : Object) (es : List Step)
      → refs o ≡ []
      → Sound es
      → Sound (append o ∷ raise (kind_name o) 1 ∷ es)
  unfolding objects_of
  plain-IsSound o es e h = record {
    balanced = cons-IsBalanced h.balanced;
    resolved = λ a i (_, c). (subst (All (Has ids)) (sym e) tt, h.resolved a i c);
  }

  pattern_of-look :
      (fid : Str) (ap : AttackPattern)
      → look fid aps ≡ ok ap
      → KnowsPatterns lib ids aps inds
      → Has ids ap.id
  pattern_of-look fid ap p known = look-AllValues _ fid aps ap p known

  pub pattern_entries-IsSound : (d : Dict Str AttackPattern) → Sound (pattern_entries d)
  unfolding pattern_entries
  pattern_entries-IsSound [] = nil-IsSound
  pattern_entries-IsSound ((fid, ap) ∷ d) =
      plain-IsSound (attack_pattern ap) (pattern_entries d) refl (pattern_entries-IsSound d)

  pub address_entries-IsSound : (d : Dict Str (List Str)) → Sound (address_entries d)
  unfolding address_entries
  address_entries-IsSound [] = nil-IsSound
  address_entries-IsSound ((ip, fids) ∷ d) =
      plain-IsSound (ipv4_addr ip) (address_entries d) refl (address_entries-IsSound d)

  pub indicator_entries-IsSound : (d : Dict Str Indicator) → Sound (indicator_entries d)
  unfolding indicator_entries
  indicator_entries-IsSound [] = nil-IsSound
  indicator_entries-IsSound ((ip, ind) ∷ d) =
      plain-IsSound (indicator ind) (indicator_entries d) refl (indicator_entries-IsSound d)

  abbrev SoundAll : List (List Step) → Type 0
  SoundAll ess = Sound (concat ess)

  pub concat-IsSound {ℓ} :
      {A : Type ℓ} (f : A → Result (List Step)) (xs : List A)
      → ((x : A) → Gives Sound (f x))
      → Gives SoundAll (map_result f xs)
  unfolding map_result concat
  concat-IsSound f [] h = nil-IsSound
  concat-IsSound f (x ∷ xs) h =
      let rest : Gives SoundAll (map_result f xs) = concat-IsSound f xs h in
      chain-Gives Sound SoundAll (f x) (λ es. map_result f xs >>= λ ess. ok (es ∷ ess)) (h x)
        (λ es here.
          chain-Gives SoundAll SoundAll (map_result f xs) (λ ess. ok (es ∷ ess)) rest
            (λ ess there. append-IsSound lib ids aps inds es (concat ess) here there))

  attribution-IsSound :
      (ind : Indicator) (ip fid : Str)
      → look ip inds ≡ ok ind
      → Gives Sound (attribution lib aps ind ip fid)
  unfolding attribution objects_of
  attribution-IsSound ind ip fid p =
      >>=-Gives Sound (attributed ip fid (stage_of ip fid)) _ (λ desc _.
        >>=-Gives Sound (look fid aps) _ (λ ap q. record {
          balanced = cons-IsBalanced nil-IsBalanced;
          resolved = λ a i _.
              ((look-AllValues _ ip inds ind p i, (look-AllValues _ fid aps ap q a, tt)), tt);
        }))

  attributions_of-IsSound :
      (ip : Str) (fids : List Str) → Gives Sound (attributions_of lib aps inds (ip, fids))
  unfolding attributions_of
  attributions_of-IsSound ip fids = >>=-Gives Sound (look ip inds) _ (λ ind p.
      chain-Gives SoundAll Sound (map_result (attribution lib aps ind ip) fids)
        (λ ess. ok (concat ess))
        (concat-IsSound (attribution lib aps ind ip) fids (λ fid. attribution-IsSound ind ip fid p))
        (λ ess h. h))

  pub attributions-IsSound : (d : Dict Str (List Str)) → Gives Sound (attributions lib aps inds d)
  unfolding attributions
  attributions-IsSound [] = nil-IsSound
  attributions-IsSound ((ip, fids) ∷ d) =
      let rest : Gives Sound (attributions lib aps inds d) = attributions-IsSound d in
      chain-Gives Sound Sound (attributions_of lib aps inds (ip, fids)) _
        (attributions_of-IsSound ip fids)
        (λ es here.
          chain-Gives Sound Sound (attributions lib aps inds d) _ rest
            (λ fs there. append-IsSound lib ids aps inds es fs here there))
