-- ===== src/Stix/Bundle/Extras.antt =====
-- Sections 5 to 12 of the bundle are sound.
use ssh_honeypot.Base.{refl, Option, none, some, List, [], ◌∷◌}
use ssh_honeypot.Base.{All, nat_eq, list_eq, Option-cases, inl, inr}
use ssh_honeypot.Base.Dict.{Dict, get}
use ssh_honeypot.Base.Results.{Gives, look, >>=-Gives, look-AllValues, get-AllValues}
use ssh_honeypot.Base.Text.{Str, lit}
use ssh_honeypot.Stix.{Binary, Server, f14_probes}
use ssh_honeypot.Stix.Bundle.Parts.{Sound}
use ssh_honeypot.Stix.Bundle.Sound.{
  Has, Resolves, KnowsIndicators, All-append, IsBalanced, nil-IsBalanced, cons-IsBalanced,
  pair-IsBalanced, append-IsBalanced, append-Resolves,
}
use ssh_honeypot.Stix.Notes.{indicator_ref, indicator_refs, f2_entries, f14_entries, loop_entries}
use ssh_honeypot.Stix.Objects.{
  AttackPattern, Indicator, Step, objects_of, concat, Families, Library,
}
use ssh_honeypot.Stix.Payloads.{
  worm_malware, worm_upload, worm_uploads, worm_entries, binary_malware, binary_entries,
}
use ssh_honeypot.Stix.Servers.{indicates, f10_server_entries, f5_entries, f11_server_entries}

module _ (lib : Library) (ids : List Str) (aps : Dict Str AttackPattern)
    (inds : Dict Str Indicator) where
  abbrev S : List Step → Type 0
  S = Sound lib ids aps inds

  indicator_ref-Has :
      (ip : Str) → KnowsIndicators lib ids aps inds → All (Has ids) (indicator_ref (get ip inds))
  unfolding indicator_ref
  indicator_ref-Has ip known = elim (Option-cases (get ip inds)) [
    | inl e ↦ rw e tt
    | inr (ind, e) ↦ rw e (get-AllValues _ ip inds ind e known, tt)
  ]

  indicator_refs-Has :
      (ips : List Str) → KnowsIndicators lib ids aps inds → All (Has ids) (indicator_refs inds ips)
  unfolding indicator_refs
  indicator_refs-Has [] known = tt
  indicator_refs-Has (ip ∷ ips) known =
      All-append (Has ids) (indicator_ref (get ip inds)) (indicator_refs inds ips)
        (indicator_ref-Has ip known) (indicator_refs-Has ips known)

  pub f2_entries-IsSound : (families : Families) → Gives S (f2_entries families aps inds)
  unfolding f2_entries objects_of
  f2_entries-IsSound families = >>=-Gives S (look (lit "F2") families) _ (λ fam _.
      >>=-Gives S (look (lit "F2") aps) _ (λ ap q. record {
        balanced = cons-IsBalanced nil-IsBalanced;
        resolved =
            λ a i _. ((look-AllValues _ (lit "F2") aps ap q a, indicator_refs-Has fam.ips i), tt);
      }))

  worm_upload-IsBalanced : (ip : Str) (o : Option Indicator) → IsBalanced (worm_upload lib ip o)
  unfolding worm_upload objects_of
  worm_upload-IsBalanced ip none = nil-IsBalanced
  worm_upload-IsBalanced ip (some ind) = cons-IsBalanced nil-IsBalanced

  worm_uploads-IsBalanced : (ips : List Str) → IsBalanced (worm_uploads lib inds ips)
  unfolding worm_uploads objects_of
  worm_uploads-IsBalanced [] = nil-IsBalanced
  worm_uploads-IsBalanced (ip ∷ ips) =
      append-IsBalanced (worm_upload lib ip (get ip inds)) (worm_uploads lib inds ips)
        (worm_upload-IsBalanced ip (get ip inds)) (worm_uploads-IsBalanced ips)

  worm_upload-Resolves :
      (ip : Str)
      → KnowsIndicators lib ids aps inds
      → Has ids (worm_malware lib).id
      → Resolves ids (worm_upload lib ip (get ip inds))
  unfolding worm_upload objects_of
  worm_upload-Resolves ip known worm = elim (Option-cases (get ip inds)) [
    | inl e ↦ rw e tt
    | inr (ind, e) ↦ rw e ((get-AllValues _ ip inds ind e known, (worm, tt)), tt)
  ]

  worm_uploads-Resolves :
      (ips : List Str)
      → KnowsIndicators lib ids aps inds
      → Has ids (worm_malware lib).id
      → Resolves ids (worm_uploads lib inds ips)
  unfolding worm_uploads objects_of
  worm_uploads-Resolves [] known worm = tt
  worm_uploads-Resolves (ip ∷ ips) known worm =
      append-Resolves ids (worm_upload lib ip (get ip inds)) (worm_uploads lib inds ips)
        (worm_upload-Resolves ip known worm) (worm_uploads-Resolves ips known worm)

  pub worm_entries-IsSound : (families : Families) → Gives S (worm_entries lib families aps inds)
  unfolding worm_entries worm_malware objects_of
  worm_entries-IsSound families = >>=-Gives S (look (lit "F13") aps) _ (λ ap q.
      >>=-Gives S (look (lit "F13") families) _ (λ fam _. record {
        balanced =
            cons-IsBalanced (cons-IsBalanced (cons-IsBalanced (worm_uploads-IsBalanced fam.ips)));
        resolved = λ a i (f, (m, _)). (
          tt,
          (
            f,
            (
              (m.0, (look-AllValues _ (lit "F13") aps ap q a, tt)),
              worm_uploads-Resolves fam.ips i m.0,
            ),
          ),
        );
      }))

  pub binary_entries-IsSound : (b : Binary) → Gives S (binary_entries lib aps b)
  unfolding binary_entries binary_malware objects_of
  binary_entries-IsSound b = >>=-Gives S (look (lit "F10") aps) _ (λ ap q. record {
    balanced = cons-IsBalanced (cons-IsBalanced (cons-IsBalanced nil-IsBalanced));
    resolved =
        λ a i (f, (m, _)). (tt, (f, ((m.0, (look-AllValues _ (lit "F10") aps ap q a, tt)), tt)));
  })

  pub f10_server_entries-IsSound : (c2 : Server) → Gives S (f10_server_entries lib aps c2)
  unfolding f10_server_entries indicates objects_of
  f10_server_entries-IsSound c2 = >>=-Gives S (look (lit "F10") aps) _ (λ ap q. record {
    balanced = cons-IsBalanced (cons-IsBalanced (cons-IsBalanced nil-IsBalanced));
    resolved =
        λ a i (_, (m, _)). (tt, (tt, ((m.0, (look-AllValues _ (lit "F10") aps ap q a, tt)), tt)));
  })

  pub f5_entries-IsSound : Gives S (f5_entries lib aps)
  unfolding f5_entries indicates objects_of
  f5_entries-IsSound = >>=-Gives S (look (lit "F5") aps) _ (λ ap q. record {
    balanced =
        cons-IsBalanced
          (cons-IsBalanced (cons-IsBalanced (cons-IsBalanced (pair-IsBalanced _ _ refl))));
    resolved = λ a i (_, (_, (m, (n, _)))).
        let known : Has ids ap.id = look-AllValues _ (lit "F5") aps ap q a in
        (tt, (tt, (tt, (tt, ((m.0, (known, tt)), ((n.0, (known, tt)), tt))))));
  })

  pub f11_server_entries-IsSound : (ip : Str) → Gives S (f11_server_entries lib aps ip)
  unfolding f11_server_entries indicates objects_of
  f11_server_entries-IsSound ip = >>=-Gives S (look (lit "F11") aps) _ (λ ap q. record {
    balanced = cons-IsBalanced (cons-IsBalanced (cons-IsBalanced nil-IsBalanced));
    resolved =
        λ a i (_, (m, _)). (tt, (tt, ((m.0, (look-AllValues _ (lit "F11") aps ap q a, tt)), tt)));
  })

  pub f14_entries-IsSound : Gives S (f14_entries lib aps)
  unfolding f14_entries f14_probes objects_of concat
  f14_entries-IsSound = >>=-Gives S (look (lit "F14") aps) _ (λ ap q. record {
    balanced = cons-IsBalanced (cons-IsBalanced (cons-IsBalanced nil-IsBalanced));
    resolved = λ a i (f, (g, _)).
        (tt, (tt, ((look-AllValues _ (lit "F14") aps ap q a, (f.0, (g.0, tt))), tt)));
  })

  pub loop_entries-IsSound : Gives S (loop_entries aps)
  unfolding loop_entries objects_of
  loop_entries-IsSound = >>=-Gives S (look (lit "F4") aps) _ (λ f4 p4.
      >>=-Gives S (look (lit "F6") aps) _ (λ f6 p6. >>=-Gives S (look (lit "F11") aps) _ (λ f11 p11.
        >>=-Gives S (look (lit "F1") aps) _ (λ f1 p1. >>=-Gives S (look (lit "F9") aps) _ (λ f9 p9.
          record {
            balanced = cons-IsBalanced nil-IsBalanced;
            resolved = λ a i _. (
              (
                look-AllValues _ (lit "F4") aps f4 p4 a,
                (
                  look-AllValues _ (lit "F6") aps f6 p6 a,
                  (
                    look-AllValues _ (lit "F11") aps f11 p11 a,
                    (
                      look-AllValues _ (lit "F1") aps f1 p1 a,
                      (look-AllValues _ (lit "F9") aps f9 p9 a, tt),
                    ),
                  ),
                ),
              ),
              tt,
            );
          })))))
