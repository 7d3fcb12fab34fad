-- ===== src/Replay/Accounts.antt =====
-- The events of analysis/replay.py against the records of session.log, and its two counts of commands.
use ssh_honeypot.Base.{ℕ, ◌+◌, ◌≡◌, refl, ◌∙◌, Option, none, some, List, [], ◌∷◌, ◌++◌, map, arith}
use ssh_honeypot.Base.{
  sum_by, sum_by-append, count_by, count_by-append, take, nat_eq, list_eq, if◌then◌else◌,
}
use ssh_honeypot.Base.Dict.{get, sum_by-upsert, measure_of}
use ssh_honeypot.Base.Sort.{sum_by-sort}
use ssh_honeypot.Base.Text.{Str}
use ssh_honeypot.Cluster.Report.{or_empty}
use ssh_honeypot.Log.{Rec, field, kind}
use ssh_honeypot.Replay.Events.{
  Data, handshake, echo_chunk, shell_command, exec_command, wget, curl, scp_started, scp_sent,
  quarantined, Event, Events, compact, add_event, collect, by_time, in_order,
}
use ssh_honeypot.Replay.Main.{is_command}
use ssh_honeypot.Replay.Screen.{item_of, items_of}
use ssh_honeypot.Replay.Screen.Output

module _ (f : Event → ℕ) where
  -- A measure over all events of all sessions, and of what is kept of a record.
  abbrev pub measure : Events → ℕ
  measure = sum_by (λ (e : Str × List Event). sum_by f e.1)

  abbrev pub of_kept : Rec → Option Data → ℕ
  of_kept r none = 0
  of_kept r (some x) = f (record { time = field "time" "" r; payload = x })

  measure-or_empty :
      (o : Option (List Event)) (e : Event)
      → sum_by f (or_empty o ++ (e ∷ [])) ≡ measure_of (λ es. sum_by f es) o + f e
  measure-or_empty none e = omega arith
  measure-or_empty (some es) e = omega (arith, sum_by-append f es (e ∷ []))

  measure-add_event :
      (r : Rec) (x : Option Data) (d : Events) → measure (add_event r x d) ≡ measure d + of_kept r x
  unfolding add_event
  measure-add_event r none d = omega arith
  measure-add_event r (some x) d =
      let e : Event = record { time = field "time" "" r; payload = x } in
      let sid : Str = take 12 (field "sid" "" r) in
      omega (
        arith,
        sum_by-upsert (λ es. sum_by f es) sid (λ o. or_empty o ++ (e ∷ [])) d,
        measure-or_empty (get sid d) e,
      )

  measure-collect :
      (d : Events) (rs : List Rec)
      → measure (collect d rs) ≡ measure d + sum_by (λ r. of_kept r (compact (kind r) r)) rs
  unfolding collect
  measure-collect d [] = omega arith
  measure-collect d (r ∷ rs) = omega (
    arith,
    measure-collect (add_event r (compact (kind r) r) d) rs,
    measure-add_event r (compact (kind r) r) d,
  )

  measure-map : (d : Events) → measure (map (λ (sid, evs). (sid, by_time evs)) d) ≡ measure d
  unfolding by_time
  measure-map [] = refl
  measure-map ((sid, evs) ∷ d) = omega (arith, measure-map d, sum_by-sort _ f evs)

  -- Every measure of events adds up to the same over the sessions as over the records of the log that are
  -- kept: no event is lost or repeated when events and sessions are put in order.
  pub measure-in_order :
      (rs : List Rec)
      → measure (in_order (collect [] rs)) ≡ sum_by (λ r. of_kept r (compact (kind r) r)) rs
  unfolding in_order
  measure-in_order rs =
      sum_by-sort _ (λ (e : Str × List Event). sum_by f e.1) _
      ∙ measure-map (collect [] rs)
      ∙ omega (arith, measure-collect [] rs)

one_item :
    (d : Data) (t : Str)
    → count_by Output.is_command (item_of d)
      ≡ (if is_command (record { time = t; payload = d }) then 1 else 0)
unfolding item_of
one_item (handshake r c u) t = refl
one_item (echo_chunk s n) t = refl
one_item (shell_command s) t = refl
one_item (exec_command s) t = refl
one_item (wget s) t = refl
one_item (curl s) t = refl
one_item scp_started t = refl
one_item (scp_sent n s) t = refl
one_item (quarantined s) t = refl

-- The number of commands in the header of a session is the number that the filter reads.
pub commands-items_of :
    (evs : List Event) → count_by Output.is_command (items_of evs) ≡ count_by is_command evs
unfolding items_of
commands-items_of [] = refl
commands-items_of (e ∷ es) = omega (
  arith,
  count_by-append Output.is_command (item_of e.payload) (items_of es),
  one_item e.payload e.time,
  commands-items_of es,
)
