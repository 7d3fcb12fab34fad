-- ===== src/Classify/Accounts.antt =====
-- The session counts of the families, against the verdicts on the sessions.
use ssh_honeypot.Base.{ℕ, ◌+◌, ◌≤◌, ◌<◌, ◌≡◌, refl, ap, ◌∙◌, Option, none, some}
use ssh_honeypot.Base.{List, [], ◌∷◌, arith, if◌then◌else◌, ◌==◌, nat_eq, list_eq, member, sum_by}
use ssh_honeypot.Base.{
  count_by, length, All, inl, inr, Bool-cases, if_both, List-cases, sum_by-append,
}
use ssh_honeypot.Base.Dict.{
  Dict, get, incr, count_of, count_of-incr, sum_by-upsert, AllValues, AllValues-upsert,
  All-AllValues, measure_of,
}
use ssh_honeypot.Base.Distinct.{distinct_onto, add_new, length-add_new}
use ssh_honeypot.Base.Sort.{sum_by-sort, All-sort}
use ssh_honeypot.Base.Text.{Str, Unicode, str_ltb}
use ssh_honeypot.Cluster.{Shape}
use ssh_honeypot.Fingerprint.Groups.{session_ip}
use ssh_honeypot.Log.{Rec}
use ssh_honeypot.Classify.{Mapping, Verdict}
use ssh_honeypot.Classify.Aggregate.{
  Entry, IpData, or_no_data, add_verdict, judge, classify_session, classify_sessions, Totals,
  count_families, count_sessions, add_ip, add_ips, aggregate,
}

length-distinct_onto : (seen xs : List Str) → length seen ≤ length (distinct_onto seen xs)
unfolding distinct_onto
length-distinct_onto seen [] = omega arith
length-distinct_onto seen (x ∷ xs) =
    omega (arith, length-distinct_onto (add_new seen x) xs, length-add_new seen x)

add_new-ne-nil : (seen : List Str) (x : Str) → 0 < length (add_new seen x)
add_new-ne-nil [] x = omega arith
add_new-ne-nil (y ∷ ys) x = omega (arith, length-add_new (y ∷ ys) x)

distinct_onto-eq-nil : (seen xs : List Str) → distinct_onto seen xs ≡ [] → (seen ≡ []) × (xs ≡ [])
unfolding distinct_onto
distinct_onto-eq-nil seen [] h = (h, refl)
distinct_onto-eq-nil seen (x ∷ xs) h = absurd (
    omega (
      arith,
      ap (λ l. length l) h,
      length-distinct_onto (add_new seen x) xs,
      add_new-ne-nil seen x,
    ))

module _ (fam : Str) where
  -- How often the family is given to a session.
  abbrev pub times_given : Verdict → ℕ
  times_given v = count_by (λ f. fam == f) v.families

  abbrev pub tally : List Entry → ℕ
  tally = sum_by (λ e. times_given e.verdict)

  count_of-count_families :
      (counts : Dict Str ℕ) (fams : List Str)
      → count_of fam (count_families counts fams)
        ≡ count_of fam counts + count_by (λ f. fam == f) fams
  unfolding count_families
  count_of-count_families counts [] = omega arith
  count_of-count_families counts (f ∷ fams) =
      count_of-count_families (incr f counts) fams ∙ omega (arith, count_of-incr fam f counts)

  count_of-count_sessions :
      (counts : Dict Str ℕ) (es : List Entry)
      → count_of fam (count_sessions counts es) ≡ count_of fam counts + tally es
  unfolding count_sessions
  count_of-count_sessions counts [] = omega arith
  count_of-count_sessions counts (e ∷ es) =
      count_of-count_sessions (count_families counts e.verdict.families) es
      ∙ omega (arith, count_of-count_families counts e.verdict.families)

  -- Where an address has no family, none of its sessions has the family.
  abbrev IsTidy : IpData → Type 0
  IsTidy d = d.families ≡ [] → tally d.sessions ≡ 0

  add_verdict-IsTidy : (e : Entry) (d : IpData) → IsTidy d → IsTidy (add_verdict e d)
  unfolding add_verdict
  add_verdict-IsTidy e d tidy h =
      let (old, new) = distinct_onto-eq-nil d.families e.verdict.families h in
      rw sum_by-append (omega (arith, tidy old, ap (count_by (λ f. fam == f)) new))

  count_of-add_ip :
      (ip : Str) (d : IpData) (t : Totals)
      → IsTidy d
      → count_of fam (add_ip ip d t).fam_sess_count
        ≡ count_of fam t.fam_sess_count + tally d.sessions
  unfolding add_ip
  count_of-add_ip ip d t tidy = elim (List-cases d.families) [
    | inl no_family ↦ rw (no_family, add_ip) (omega (arith, tidy no_family))
    | inr (f, fs, e) ↦ rw (e, add_ip) (count_of-count_sessions t.fam_sess_count d.sessions)
  ]

  count_of-add_ips :
      (t : Totals) (ds : Dict Str IpData)
      → All (λ (e : Str × IpData). IsTidy e.1) ds
      → count_of fam (add_ips t ds).fam_sess_count
        ≡ count_of fam t.fam_sess_count + sum_by (λ (e : Str × IpData). tally e.1.sessions) ds
  unfolding add_ips
  count_of-add_ips t [] h = omega arith
  count_of-add_ips t ((ip, d) ∷ ds) (tidy, h) =
      count_of-add_ips (add_ip ip d t) ds h ∙ omega (arith, count_of-add_ip ip d t tidy)

  module _ ⦃u : Unicode⦄ (dumps : Shape → Str) (sha256 : Str → Str) (m : Mapping) where
    -- How often the family is given to a session of the log that is not excluded.
    abbrev pub given : Str × List Rec → ℕ
    given (sid, evs) =
        if member sid m.exclude_sids then 0 else times_given (judge dumps sha256 m evs)

    tally-add_verdict :
        (e : Entry) (o : Option IpData)
        → tally (add_verdict e (or_no_data o)).sessions
          ≡ measure_of (λ (d : IpData). tally d.sessions) o + times_given e.verdict
    unfolding add_verdict
    tally-add_verdict e none = omega arith
    tally-add_verdict e (some d) = rw sum_by-append (omega arith)

    abbrev tally_all : Dict Str IpData → ℕ
    tally_all = sum_by (λ (e : Str × IpData). tally e.1.sessions)

    classify_session_tally :
        (ds : Dict Str IpData) (s : Str × List Rec)
        → tally_all (classify_session dumps sha256 m ds s) ≡ tally_all ds + given s
    unfolding classify_session
    classify_session_tally ds (sid, evs) = elim (Bool-cases (member sid m.exclude_sids)) [
      | inl out ↦ rw out (omega arith)
      | inr counted ↦
          let e : Entry = record { sid = sid; verdict = judge dumps sha256 m evs } in
          rw counted (
            omega (
              arith,
              sum_by-upsert (λ (d : IpData). tally d.sessions) (session_ip evs)
                  (λ (o : Option IpData). add_verdict e (or_no_data o)) ds,
              tally-add_verdict e (get (session_ip evs) ds),
            ))
    ]

    classify_sessions_tally :
        (ds : Dict Str IpData) (ss : Dict Str (List Rec))
        → tally_all (classify_sessions dumps sha256 m ds ss) ≡ tally_all ds + sum_by given ss
    unfolding classify_sessions
    classify_sessions_tally ds [] = omega arith
    classify_sessions_tally ds (s ∷ ss) =
        classify_sessions_tally (classify_session dumps sha256 m ds s) ss
        ∙ omega (arith, classify_session_tally ds s)

    classify_session-IsTidy :
        (ds : Dict Str IpData) (s : Str × List Rec)
        → AllValues IsTidy ds
        → AllValues IsTidy (classify_session dumps sha256 m ds s)
    unfolding classify_session
    classify_session-IsTidy ds (sid, evs) h =
        let e : Entry = record { sid = sid; verdict = judge dumps sha256 m evs } in
        if_both (AllValues IsTidy) (member sid m.exclude_sids) h (
          AllValues-upsert IsTidy (session_ip evs) _ ds
            (add_verdict-IsTidy e (record { sessions = []; families = [] }) (λ _. refl))
            (add_verdict-IsTidy e) h)

    classify_sessions-IsTidy :
        (ds : Dict Str IpData) (ss : Dict Str (List Rec))
        → AllValues IsTidy ds
        → AllValues IsTidy (classify_sessions dumps sha256 m ds ss)
    unfolding classify_sessions
    classify_sessions-IsTidy ds [] h = h
    classify_sessions-IsTidy ds (s ∷ ss) h =
        classify_sessions-IsTidy (classify_session dumps sha256 m ds s) ss
          (classify_session-IsTidy ds s h)

    -- The session count of a family is the number of times that the verdicts on the sessions, the
    -- excluded ones aside, name the family, though addresses with no family are passed over.
    pub count_of-aggregate :
        (ss : Dict Str (List Rec))
        → count_of fam (aggregate (classify_sessions dumps sha256 m [] ss)).fam_sess_count
          ≡ sum_by given ss
    unfolding aggregate get
    count_of-aggregate ss =
        let ds = classify_sessions dumps sha256 m [] ss in
        count_of-add_ips _ _
          (All-sort _ _ _ (All-AllValues IsTidy ds (classify_sessions-IsTidy [] ss tt)))
        ∙ omega (
          arith,
          sum_by-sort (λ (a : Str × IpData) (b : Str × IpData). str_ltb a.0 b.0)
              (λ (e : Str × IpData). tally e.1.sessions) ds,
          classify_sessions_tally [] ss,
        )
