-- ===== src/Sessions/Accounts.antt =====
-- The events of analysis/sessions.py against the records of the logs, and the mark of a session.
use ssh_honeypot.Base.{
  ℕ, ◌+◌, ◌≡◌, refl, sym, ◌∙◌, inl, inr, ◌||◌, Option, none, some, List, [], ◌∷◌, ◌++◌, map, arith,
}
use ssh_honeypot.Base.{any, length, sum_by, count_by, length-append, nat_eq, list_eq, Bool-cases}
use ssh_honeypot.Base.Dict.{get, sum_by-upsert, measure_of}
use ssh_honeypot.Base.Sort.{sum_by-sort}
use ssh_honeypot.Base.Text.{Str, lit}
use ssh_honeypot.Cluster.Report.{or_empty}
use ssh_honeypot.Log.{Rec, field, kind}
use ssh_honeypot.Passwords.{is_attempt}
use ssh_honeypot.Sessions.{
  Event, Events, add_event, read_auth, is_kept, read_session, collect, by_time, sessions, Head,
  is_accepted, head_of, take_names,
}

-- The number of events over all sessions.
abbrev pub size : Events → ℕ
size = sum_by (λ (e : Str × List Event). length e.1)

length-or_empty :
    (o : Option (List Event)) (e : Event)
    → length (or_empty o ++ (e ∷ [])) ≡ measure_of (λ (es : List Event). length es) o + 1
length-or_empty none e = refl
length-or_empty (some es) e = length-append es (e ∷ [])

size-add_event : (typ : Str) (r : Rec) (d : Events) → size (add_event typ r d) ≡ size d + 1
unfolding add_event
size-add_event typ r d =
    let e : Event = record { time = field "time" "" r; typ = typ; data_ = r } in
    omega (
      arith,
      sum_by-upsert (λ (es : List Event). length es) (field "sid" "" r)
          (λ o. or_empty o ++ (e ∷ [])) d,
      length-or_empty (get (field "sid" "" r) d) e,
    )

size-read_auth :
    (d : Events) (rs : List Rec)
    → size (read_auth d rs) ≡ size d + count_by (λ r. is_attempt (kind r)) rs
unfolding read_auth
size-read_auth d [] = omega arith
size-read_auth d (r ∷ rs) = elim (Bool-cases (is_attempt (kind r))) [
  | inl e ↦ rw e (
      size-read_auth (add_event (lit "auth") r d) rs
      ∙ omega (arith, size-add_event (lit "auth") r d))
  | inr e ↦ rw e (size-read_auth d rs ∙ omega arith)
]

size-read_session :
    (d : Events) (rs : List Rec) → size (read_session d rs) ≡ size d + count_by is_kept rs
unfolding read_session
size-read_session d [] = omega arith
size-read_session d (r ∷ rs) = elim (Bool-cases (is_kept r)) [
  | inl e ↦ rw e (
      size-read_session (add_event (field "msg" "" r) r d) rs
      ∙ omega (arith, size-add_event (field "msg" "" r) r d))
  | inr e ↦ rw e (size-read_session d rs ∙ omega arith)
]

length-eq : (es : List Event) → length es ≡ sum_by (λ (_ : Event). 1) es
length-eq [] = refl
length-eq (e ∷ es) = omega (arith, length-eq es)

length-sort : (es : List Event) → length (by_time es) ≡ length es
unfolding by_time
length-sort es = length-eq (by_time es) ∙ sum_by-sort _ (λ (_ : Event). 1) es ∙ sym (length-eq es)

size-map : (d : Events) → size (map (λ (sid, evs). (sid, by_time evs)) d) ≡ size d
size-map [] = refl
size-map ((sid, evs) ∷ d) = omega (arith, size-map d, length-sort evs)

-- The sessions hold as many events as there are attempts in auth.log and kept messages in
-- session.log.
pub size-sessions :
    (auth sess : List Rec)
    → size (sessions auth sess) ≡ count_by (λ r. is_attempt (kind r)) auth + count_by is_kept sess
unfolding sessions collect
size-sessions auth sess =
    sum_by-sort _ (λ (e : Str × List Event). length e.1) _
    ∙ size-map (read_session (read_auth [] auth) sess)
    ∙ omega (arith, size-read_session (read_auth [] auth) sess, size-read_auth [] auth)

-- A session is marked as accepted exactly where one of its events is an accepted attempt, though the
-- loop stops there.
pub outcome-head_of :
    (h : Head) (es : List Event)
    → (head_of h es).outcome_accepted ≡ (h.outcome_accepted || any is_accepted es)
unfolding head_of take_names
outcome-head_of h [] = ground arith
outcome-head_of h (e ∷ es) =
    ground (arith, outcome-head_of (take_names e.data_ h) es, outcome-head_of h es)
