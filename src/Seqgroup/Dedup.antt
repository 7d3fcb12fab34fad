-- ===== src/Seqgroup/Dedup.antt =====
-- Repeated records: what `ingest` does with a record that it has seen in the same session.
use ssh_honeypot.Base.{
  ℕ, ◌+◌, ◌≡◌, refl, ◌∙◌, inl, inr, Bool, true, false, ◌&&◌, ◌||◌, Option, none, some,
}
use ssh_honeypot.Base.{
  List, [], ◌∷◌, ◌++◌, arith, if◌then◌else◌, ◌==◌, ==_refl, member, all, any, count_by, not,
  Bool-cases, Option-cases,
}
use ssh_honeypot.Base.{nat_eq, list_eq, pair_eq}
use ssh_honeypot.Base.Dict.{get, get-upsert, put-get}
use ssh_honeypot.Base.Text.{Str, Unicode}
use ssh_honeypot.Log.{Rec, Kind, shell, exec, kind}
use ssh_honeypot.Seqgroup.{Session, flush_target, flush_echo, push, push_echo}
use ssh_honeypot.Seqgroup.Ingest.{
  State, sid_of, stamp, push_command, handle_message, add_record, or_new, visit, ingest_record,
  ingest_records, ingest,
}

seen_ts-flush_echo : (s : Session) → (flush_echo s).seen_ts ≡ s.seen_ts
unfolding flush_echo flush_target
seen_ts-flush_echo s = ground arith

seen_ts-push : (l : Str) (s : Session) → (push l s).seen_ts ≡ s.seen_ts
unfolding push
seen_ts-push l s = seen_ts-flush_echo s

seen_ts-push_echo : (t : Str) (n : ℕ) (s : Session) → (push_echo t n s).seen_ts ≡ s.seen_ts
unfolding push_echo
seen_ts-push_echo t n s = ground (arith, seen_ts-flush_echo s)

module _ ⦃u : Unicode⦄ (do_normalize : Bool) where
  seen_ts-push_command :
      (r : Rec) (s : Session) → (push_command do_normalize r s).seen_ts ≡ s.seen_ts
  unfolding push_command
  seen_ts-push_command r s = grind (arith, seen_ts-push, seen_ts-push_echo)

  seen_ts-handle_message :
      (k : Kind) (r : Rec) (s : Session) → (handle_message do_normalize k r s).seen_ts ≡ s.seen_ts
  unfolding handle_message
  seen_ts-handle_message shell r s = seen_ts-push_command r s
  seen_ts-handle_message exec r s = seen_ts-push_command r s
  seen_ts-handle_message _ r s = grind (arith, seen_ts-push)

  pub seen_ts-add_record :
      (r : Rec) (s : Session) → (add_record do_normalize r s).seen_ts ≡ s.seen_ts
  unfolding add_record
  seen_ts-add_record r s = seen_ts-handle_message (kind r) r _

  abbrev seen_in : Str × Str → Option Session → Bool
  seen_in k none = false
  seen_in k (some s) = member k s.seen_ts

  -- The state has the record's timestamp and message in the record's session.
  abbrev pub knows : State → Rec → Bool
  knows st r = seen_in (stamp r) (get (sid_of r) st.sessions)

  module _ (dedup_all : Bool) where
    visit_seen :
        (r : Rec) (s : Session) (k : Str × Str)
        → member k s.seen_ts ≡ true
        → member k (visit do_normalize dedup_all r s).0.seen_ts ≡ true
    unfolding visit
    visit_seen r s k h = ground (
      arith,
      seen_ts-add_record r s,
      seen_ts-add_record r (record s { seen_ts = stamp r ∷ s.seen_ts }),
    )

    pub get-ingest_record :
        (st : State) (r : Rec) (j : Str)
        → get j (ingest_record do_normalize dedup_all st r).sessions ≡ (
            if sid_of r == []
            then get j st.sessions
            else if j == sid_of r
            then some (visit do_normalize dedup_all r (or_new (get (sid_of r) st.sessions))).0
            else get j st.sessions)
    unfolding ingest_record
    get-ingest_record st r j = elim (Bool-cases (sid_of r == [])) [
      | inl e ↦ rw e
      | inr e ↦ rw (e, get-upsert)
    ]

    -- Once seen, always seen.
    knows-ingest_record :
        (st : State) (r d : Rec)
        → knows st d ≡ true
        → knows (ingest_record do_normalize dedup_all st r) d ≡ true
    knows-ingest_record st r d h =
        rw get-ingest_record
          (ground (arith, visit_seen r (or_new (get (sid_of r) st.sessions)) (stamp d)))

    knows-ingest_records :
        (st : State) (rs : List Rec) (d : Rec)
        → knows st d ≡ true
        → knows (ingest_records do_normalize dedup_all st rs) d ≡ true
    unfolding ingest_records
    knows-ingest_records st [] d h = h
    knows-ingest_records st (r ∷ rs) d h =
        knows-ingest_records (ingest_record do_normalize dedup_all st r) rs d
          (knows-ingest_record st r d h)

    ingest_records-append :
        (st : State) (rs ds : List Rec)
        → ingest_records do_normalize dedup_all st (rs ++ ds)
          ≡ ingest_records do_normalize dedup_all (ingest_records do_normalize dedup_all st rs) ds
    unfolding ingest_records
    ingest_records-append st [] ds = refl
    ingest_records-append st (r ∷ rs) ds =
        ingest_records-append (ingest_record do_normalize dedup_all st r) rs ds

  visit_records :
      (r : Rec) (s : Session) → member (stamp r) (visit do_normalize true r s).0.seen_ts ≡ true
  unfolding visit
  visit_records r s =
      ground (arith, seen_ts-add_record r (record s { seen_ts = stamp r ∷ s.seen_ts }))

  -- Whatever is read with a session id is seen from then on.
  knows-ingest_record_self :
      (st : State) (r : Rec)
      → (sid_of r == []) ≡ false
      → knows (ingest_record do_normalize true st r) r ≡ true
  knows-ingest_record_self st r h =
      rw (get-ingest_record true st r (sid_of r), h, ==_refl (sid_of r)) (visit_records r _)

  visit_again :
      (r : Rec) (s : Session)
      → member (stamp r) s.seen_ts ≡ true
      → visit do_normalize true r s ≡ (s, true)
  unfolding visit
  visit_again r s h = rw h

  -- A record that was seen adds one to the count of duplicates, and changes no session.
  ingest_record_seen :
      (st : State) (r : Rec)
      → (sid_of r == []) ≡ false
      → knows st r ≡ true
      → ingest_record do_normalize true st r ≡ record st { dups = st.dups + 1 }
  unfolding ingest_record
  ingest_record_seen st r e h = elim (Option-cases (get (sid_of r) st.sessions)) [
    | inl missing ↦ cc (h, missing)
    | inr (s, p) ↦ rw (e, p) (rw (visit_again r s (rw p at h)) (rw (put-get _ s _ p)))
  ]

  ingest_record_no_sid :
      (st : State) (r : Rec) → (sid_of r == []) ≡ true → ingest_record do_normalize true st r ≡ st
  unfolding ingest_record
  ingest_record_no_sid st r e = rw e

  -- The session id, timestamp and message of one record are those of another.
  abbrev pub same_record : Rec → Rec → Bool
  same_record d r = sid_of d == sid_of r && stamp d == stamp r

  -- Every record of the second list repeats one of the first, or has no session id.
  abbrev pub all_repeat : List Rec → List Rec → Bool
  all_repeat rs ds = all (λ d. sid_of d == [] || any (same_record d) rs) ds

  abbrev pub with_sid : Rec → Bool
  with_sid d = not (sid_of d == [])

  knows_of_any :
      (st : State) (rs : List Rec) (d : Rec)
      → (sid_of d == []) ≡ false
      → any (same_record d) rs ≡ true
      → knows (ingest_records do_normalize true st rs) d ≡ true
  unfolding ingest_records
  knows_of_any st [] d e h = cc
  knows_of_any st (r ∷ rs) d e h = elim (Bool-cases (same_record d r)) [
    | inl here ↦
        knows-ingest_records true (ingest_record do_normalize true st r) rs d (knows_here here)
    | inr later ↦ knows_of_any (ingest_record do_normalize true st r) rs d e (ground arith)
  ]
    where
      knows_here : same_record d r ≡ true → knows (ingest_record do_normalize true st r) d ≡ true
      knows_here same =
          let sid : sid_of d ≡ sid_of r = ground arith in
          let key : stamp d ≡ stamp r = ground arith in
          rw (sid, key) (knows-ingest_record_self st r (rw sid at e))

  ingest_records_repeats :
      (st : State) (rs ds : List Rec)
      → ((d : Rec) → (sid_of d == []) ≡ false → any (same_record d) rs ≡ true → knows st d ≡ true)
      → all_repeat rs ds ≡ true
      → ingest_records do_normalize true st ds ≡ record st { dups = st.dups + count_by with_sid ds }
  unfolding ingest_records
  ingest_records_repeats st rs [] known h = ground arith
  ingest_records_repeats st rs (d ∷ ds) known h = elim (Bool-cases (sid_of d == [])) [
    | inl e ↦
        rw (e, ingest_record_no_sid st d e)
          (ingest_records_repeats st rs ds known (ground arith) ∙ ground arith)
    | inr e ↦
        rw (e, ingest_record_seen st d e (known d e (ground arith)))
          (ingest_records_repeats (record st { dups = st.dups + 1 }) rs ds known (ground arith)
            ∙ ground arith)
  ]

  -- With `--dedup-all`, records that repeat the session id, timestamp and message of earlier ones,
  -- spliced in behind the log, change no session: they are counted as duplicates, one for each that
  -- has a session id.
  pub ingest_spliced :
      (rs ds : List Rec)
      → all_repeat rs ds ≡ true
      → ingest do_normalize true (rs ++ ds) ≡ record (ingest do_normalize true rs) {
        dups = (ingest do_normalize true rs).dups + count_by with_sid ds;
      }
  unfolding ingest
  ingest_spliced rs ds h = rw (
    ingest_records-append true,
    ingest_records_repeats
        (ingest_records do_normalize true (record { sessions = []; dups = 0 }) rs) rs ds
        (knows_of_any (record { sessions = []; dups = 0 }) rs) h,
  )
