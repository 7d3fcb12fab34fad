-- ===== src/Fingerprint/Groups.antt =====
-- `_build_sessions`, `_session_ip`, `_fid` and the grouping in `main` of analysis/fingerprint.py.
-- `dumps` and `sha256` stand for `json.dumps(shape, separators=(",", ":"))` and
-- `hashlib.sha256(…).hexdigest()`.
use ssh_honeypot.Base.{
  ℕ, ◌+◌, ◌≡◌, refl, ◌∙◌, Bool, true, false, Option, none, some, List, [], ◌∷◌, ◌++◌,
}
use ssh_honeypot.Base.{
  if◌then◌else◌, length, map, take, ltb, nat_eq, list_eq, sum_by, arith, length-append,
}
use ssh_honeypot.Base.Dict.{Dict, get, upsert, measure_of, sum_by-upsert}
use ssh_honeypot.Base.Distinct.{distinct_onto}
use ssh_honeypot.Base.Sort.{sort, sum_by-sort}
use ssh_honeypot.Base.Text.{Str, Unicode, lit, before_first, str_ltb}
use ssh_honeypot.Cluster.{Shape}
use ssh_honeypot.Cluster.Report.{Pattern, Row, or_empty, report}
use ssh_honeypot.Cluster.Laws.{report_totals}
use ssh_honeypot.Fingerprint.Shape.{shape_and_raw}
use ssh_honeypot.Log.{Rec, field, Kind, handshake_ok, auth_attempt, other, kind}

-- `msg in KEEP_MSGS`
abbrev pub kept_kind : Kind → Bool
kept_kind auth_attempt = false
kept_kind other = false
kept_kind _ = true

unfoldable pub collect_events : Dict Str (List Rec) → List Rec → Dict Str (List Rec)
collect_events d [] = d
collect_events d (r ∷ rs) =
    collect_events
      (if kept_kind (kind r)
        then upsert (take 12 (field "sid" "" r)) (λ o. or_empty o ++ (r ∷ [])) d
        else d)
      rs

-- `events[sid].sort(key=lambda x: x[0])`, by the timestamp.
unfoldable pub by_time : List Rec → List Rec
by_time = sort (λ a b. str_ltb (field "time" "" a) (field "time" "" b))

unfoldable pub build_sessions : List Rec → Dict Str (List Rec)
build_sessions rs = map (λ (sid, evs). (sid, by_time evs)) (collect_events [] rs)

-- The address of the first `handshake ok`.
unfoldable pub session_ip : List Rec → Str
session_ip [] = lit "?"
session_ip (r ∷ rs) =
    let rest = session_ip rs in
    elim (kind r) [ handshake_ok ↦ before_first 58 (field "remote" "?" r) | _ ↦ rest ]

-- An entry of `groups`.
pub record FidGroup : Type 0 where
  pub sids : List Str
  pub ips : List Str
  pub shape : Option Shape
  pub example_raw : List Str

module _ ⦃u : Unicode⦄ (dumps : Shape → Str) (sha256 : Str → Str) where
  unfoldable pub fid : Shape → Str
  fid shape = take 12 (sha256 (dumps shape))

  abbrev pub or_fresh : Option FidGroup → FidGroup
  or_fresh none = record { sids = []; ips = []; shape = none; example_raw = [] }
  or_fresh (some g) = g

  -- The body of the loop: a group keeps the shape and the raw commands of its first session.
  unfoldable pub add_session : Str → List Rec → FidGroup → FidGroup
  add_session sid evs g =
      let o = shape_and_raw evs in
      record {
        sids = g.sids ++ (sid ∷ []);
        ips = g.ips ++ (session_ip evs ∷ []);
        shape = elim g.shape [ none ↦ some o.shape | some s ↦ some s ];
        example_raw = elim g.shape [ none ↦ o.raw | some s ↦ g.example_raw ];
      }

  unfoldable pub group_sessions : Dict Str FidGroup → Dict Str (List Rec) → Dict Str FidGroup
  group_sessions gs [] = gs
  group_sessions gs ((sid, evs) ∷ ss) =
      group_sessions
        (upsert (fid (shape_and_raw evs).shape) (λ o. add_session sid evs (or_fresh o)) gs) ss

  unfoldable pub pattern_of : Str × FidGroup → Pattern
  pattern_of (fid, g) = record {
    fingerprint_id = fid;
    session_count = length g.sids;
    ip_count = length (distinct_onto [] g.ips);
    command_shape = or_empty g.shape;
    example_raw = g.example_raw;
    example_ips = take 5 (distinct_onto [] g.ips);
  }

  -- The list that is written to unique_patterns.json: the largest groups first.
  unfoldable pub patterns : Dict Str (List Rec) → List Pattern
  patterns sessions =
      map pattern_of
        (sort (λ a b. ltb (length b.1.sids) (length a.1.sids)) (group_sessions [] sessions))

  size : Str × FidGroup → ℕ
  size e = length e.1.sids

  length-add_session :
      (sid : Str) (evs : List Rec) (o : Option FidGroup)
      → length (add_session sid evs (or_fresh o)).sids
        ≡ measure_of (λ (g : FidGroup). length g.sids) o + 1
  unfolding add_session
  length-add_session sid evs none = refl
  length-add_session sid evs (some g) = rw length-append

  sum_by-group_sessions :
      (gs : Dict Str FidGroup) (ss : Dict Str (List Rec))
      → sum_by size (group_sessions gs ss) ≡ sum_by size gs + length ss
  unfolding group_sessions size
  sum_by-group_sessions gs [] = omega arith
  sum_by-group_sessions gs ((sid, evs) ∷ ss) =
      let key = fid (shape_and_raw evs).shape in
      let f = λ (o : Option FidGroup). add_session sid evs (or_fresh o) in
      sum_by-group_sessions (upsert key f gs) ss
      ∙ omega (
        arith,
        sum_by-upsert (λ (g : FidGroup). length g.sids) key f gs,
        length-add_session sid evs (get key gs),
      )

  session_counts :
      (gs : Dict Str FidGroup)
      → sum_by (λ (p : Pattern). p.session_count) (map pattern_of gs) ≡ sum_by size gs
  unfolding pattern_of size
  session_counts [] = refl
  session_counts (g ∷ gs) = omega (arith, session_counts gs)

  -- The session counts of the patterns add up to the number of sessions.
  sum_by-patterns :
      (sessions : Dict Str (List Rec))
      → sum_by (λ (p : Pattern). p.session_count) (patterns sessions) ≡ length sessions
  unfolding patterns
  sum_by-patterns sessions =
      session_counts _
      ∙ sum_by-sort _ size (group_sessions [] sessions)
      ∙ sum_by-group_sessions [] sessions
      ∙ omega arith

  -- Through both scripts no session is lost or counted twice: the rows of the cluster report that
  -- is made from the fingerprint patterns add up to the number of sessions.
  pub report-patterns :
      (sessions : Dict Str (List Rec))
      → sum_by (λ (r : Row). r.sessions) (report (patterns sessions)) ≡ length sessions
  report-patterns sessions = (report_totals (patterns sessions)).1 ∙ sum_by-patterns sessions
