-- ===== src/GenStats/Accounts.antt =====
-- The counters of analysis/gen_stats.py, against the records of the logs.
use ssh_honeypot.Base.{
  ℕ, ◌+◌, ◌≡◌, refl, sym, ap, ◌∙◌, inl, inr, Bool, true, ◌||◌, Option, List, [], ◌∷◌, arith,
}
use ssh_honeypot.Base.{
  if◌then◌else◌, length, count_by, member, select, map, nat_eq, list_eq, pair_eq, option_eq,
  Bool-cases, length-append,
}
use ssh_honeypot.Base.Distinct.{add_new, distinct_onto}
use ssh_honeypot.Base.Text.{Str}
use ssh_honeypot.Log.{Rec, field, field?, kind, Kind, handshake_ok, scp_file, scp_saved}
use ssh_honeypot.Passwords.{is_attempt}
use ssh_honeypot.GenStats.{
  Key, auth_key, Auth, no_auth, count_attempt, read_attempt, read_auth, Span, Sess, no_sess, note,
  read_command, count_kind, is_counted, read_event, is_typed, read_record, read_session,
}

abbrev pub attempt : Rec → Bool
attempt r = is_attempt (kind r)

-- The keys of the attempts, in order.
abbrev pub keys_of : List Rec → List Key
keys_of rs = map auth_key (select attempt rs)

seen-read_attempt :
    (r : Rec) (a : Auth)
    → (read_attempt r a).seen_auth
      ≡ (if attempt r then add_new a.seen_auth (auth_key r) else a.seen_auth)
unfolding read_attempt count_attempt
seen-read_attempt r a = ground arith

distinct-keys_of :
    (seen : List Key) (r : Rec) (rs : List Rec)
    → distinct_onto seen (keys_of (r ∷ rs))
      ≡ distinct_onto (if attempt r then add_new seen (auth_key r) else seen) (keys_of rs)
unfolding distinct_onto
distinct-keys_of seen r rs = elim (Bool-cases (attempt r)) [ inl e ↦ rw e refl | inr e ↦ rw e refl ]

seen-read_auth :
    (a : Auth) (rs : List Rec) → (read_auth a rs).seen_auth ≡ distinct_onto a.seen_auth (keys_of rs)
unfolding read_auth
seen-read_auth a [] = unfold distinct_onto in refl
seen-read_auth a (r ∷ rs) =
    seen-read_auth (read_attempt r a) rs
    ∙ ap (λ seen. distinct_onto seen (keys_of rs)) (seen-read_attempt r a)
    ∙ sym (distinct-keys_of a.seen_auth r rs)

attempts-read_attempt :
    (r : Rec) (a : Auth)
    → a.attempts ≡ length a.seen_auth
    → (read_attempt r a).attempts ≡ length (read_attempt r a).seen_auth
unfolding read_attempt count_attempt
attempts-read_attempt r a h = ground (arith, length-append a.seen_auth (auth_key r ∷ []))

attempts-read_auth :
    (a : Auth) (rs : List Rec)
    → a.attempts ≡ length a.seen_auth
    → (read_auth a rs).attempts ≡ length (read_auth a rs).seen_auth
unfolding read_auth
attempts-read_auth a [] h = h
attempts-read_auth a (r ∷ rs) h =
    attempts-read_auth (read_attempt r a) rs (attempts-read_attempt r a h)

dups-read_attempt :
    (r : Rec) (a : Auth)
    → (read_attempt r a).attempts + (read_attempt r a).dup_auth
      ≡ (a.attempts + a.dup_auth) + (if attempt r then 1 else 0)
unfolding read_attempt count_attempt
dups-read_attempt r a = ground arith

dups-read_auth :
    (a : Auth) (rs : List Rec)
    → (read_auth a rs).attempts + (read_auth a rs).dup_auth
      ≡ (a.attempts + a.dup_auth) + count_by attempt rs
unfolding read_auth
dups-read_auth a [] = omega arith
dups-read_auth a (r ∷ rs) =
    dups-read_auth (read_attempt r a) rs ∙ omega (arith, dups-read_attempt r a)

-- The number of attempts is the number of distinct keys among the attempts of the log, and the other
-- attempts are counted as duplicates.
pub read_auth_accounts :
    (rs : List Rec)
    → ((read_auth no_auth rs).attempts ≡ length (distinct_onto [] (keys_of rs)))
      × ((read_auth no_auth rs).attempts + (read_auth no_auth rs).dup_auth ≡ count_by attempt rs)
unfolding no_auth
read_auth_accounts rs = (
  attempts-read_auth no_auth rs refl ∙ ap length (seen-read_auth no_auth rs),
  dups-read_auth no_auth rs ∙ omega arith,
)

-- What the loop over session.log has counted.
abbrev pub tallied : Sess → ℕ
tallied s = s.commands + s.handshake_ok + s.scp_files_offered + s.scp_quarantined + s.dup_sess

abbrev pub relevant : Rec → Bool
relevant r = is_typed r || is_counted (kind r)

tallied-count_kind :
    (k : Kind) (s : Sess) → is_counted k ≡ true → tallied (count_kind k s) ≡ tallied s + 1
unfolding count_kind
tallied-count_kind handshake_ok s h = omega arith
tallied-count_kind scp_file s h = omega arith
tallied-count_kind scp_saved s h = omega arith
tallied-count_kind _ s h = cc

tallied-note : (r : Rec) (s : Sess) → tallied (note r s) ≡ tallied s
unfolding note
tallied-note r s = refl

tallied-read_command : (r : Rec) (s : Sess) → tallied (read_command r s) ≡ tallied s + 1
unfolding read_command
tallied-read_command r s = ground arith

event_key : Rec → (Option Str × Option Str) × Str
event_key r = ((field? "sid" r, field? "time" r), field "msg" "" r)

tallied-read_event :
    (r : Rec) (s : Sess)
    → tallied (read_event r s) ≡ tallied s + (if is_counted (kind r) then 1 else 0)
unfolding read_event event_key
tallied-read_event r s = elim (Bool-cases (is_counted (kind r))) [
  | inl e ↦ rw e (elim (Bool-cases (member (event_key r) s.seen_sess)) [
    | inl old ↦ rw old (omega arith)
    | inr new ↦
        rw new (tallied-count_kind (kind r) (record s { seen_sess = event_key r ∷ s.seen_sess }) e)
  ])
  | inr e ↦ rw e (omega arith)
]

tallied-read_record :
    (r : Rec) (s : Sess) → tallied (read_record r s) ≡ tallied s + (if relevant r then 1 else 0)
unfolding read_record
tallied-read_record r s = elim (Bool-cases (is_typed r)) [
  | inl e ↦ rw e (tallied-read_command r (note r s) ∙ ap (λ n. n + 1) (tallied-note r s))
  | inr e ↦ rw e (
      tallied-read_event r (note r s)
      ∙ ap (λ n. n + (if is_counted (kind r) then 1 else 0)) (tallied-note r s))
]

tallied-read_session :
    (s : Sess) (rs : List Rec) → tallied (read_session s rs) ≡ tallied s + count_by relevant rs
unfolding read_session
tallied-read_session s [] = omega arith
tallied-read_session s (r ∷ rs) =
    tallied-read_session (read_record r s) rs ∙ omega (arith, tallied-read_record r s)

-- The counters of the kinds and of the duplicates add up to the number of records of session.log
-- that are a command, a handshake, an offered file or a saved one.
pub read_session_accounts :
    (span : Span) (rs : List Rec) → tallied (read_session (no_sess span) rs) ≡ count_by relevant rs
unfolding no_sess
read_session_accounts span rs = tallied-read_session (no_sess span) rs ∙ omega arith
