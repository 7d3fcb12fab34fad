-- ===== src/Seqgroup/Counts.antt =====
-- What `cluster` counts, and which sessions a group lists.
use ssh_honeypot.Base.{ℕ, suc, ◌+◌, ◌≡◌, refl, sym, ap, ◌∙◌, inl, inr, Bool, ◌&&◌, not}
use ssh_honeypot.Base.{Option, none, some, List, [], ◌∷◌, ◌++◌, map, arith, ltb}
use ssh_honeypot.Base.{
  ◌==◌, ==_iff, nat_eq, list_eq, Bool-cases, sum_by, length, select, length-append, select-cons,
}
use mathlib.Core.List.{append-nil, append_assoc, map-append}
use ssh_honeypot.Base.Dict.{
  Dict, get, total, get-upsert, total-incr, sum_by-upsert, AllValues, AllValues-upsert, measure_of,
}
use ssh_honeypot.Base.Text.{Str}
use ssh_honeypot.Seqgroup.{Session}
use ssh_honeypot.Seqgroup.Groups.{
  Group, State, ncmds_of, hash_of, new_group, or_new, count_session, cluster_session,
  cluster_sessions, cluster,
}

-- A group counts each of its sessions once, by id, address, client and user.
pub record IsCounted (g : Group) : Type 0 where
  pub sids : length g.sids ≡ g.count
  pub ips : total g.ips ≡ g.count
  pub clients : total g.clients ≡ g.count
  pub users : total g.users ≡ g.count

module _ (sha1 : Str → Str) where
  count_session-IsCounted :
      (sid : Str) (s : Session) (g : Group) → IsCounted g → IsCounted (count_session sha1 sid s g)
  unfolding count_session
  count_session-IsCounted sid s g h = record {
    sids = rw length-append (omega (arith, h.sids));
    ips = rw total-incr (omega (arith, h.ips));
    clients = rw total-incr (omega (arith, h.clients));
    users = rw total-incr (omega (arith, h.users));
  }

  count-count_session :
      (sid : Str) (s : Session) (g : Group) → (count_session sha1 sid s g).count ≡ g.count + 1
  unfolding count_session
  count-count_session sid s g = refl

  sids-count_session :
      (sid : Str) (s : Session) (g : Group)
      → (count_session sha1 sid s g).sids ≡ g.sids ++ (sid ∷ [])
  unfolding count_session
  sids-count_session sid s g = refl

  -- The ids that a group lists, none where there is no group.
  abbrev pub listed : Option Group → List Str
  listed none = []
  listed (some g) = g.sids

  update : Str → Session → Option Group → Group
  update sid s o = count_session sha1 sid s (or_new sha1 s o)

  count-update :
      (sid : Str) (s : Session) (o : Option Group)
      → (update sid s o).count ≡ measure_of (λ (g : Group). g.count) o + 1
  unfolding update count_session
  count-update sid s none = refl
  count-update sid s (some g) = refl

  sids-update :
      (sid : Str) (s : Session) (o : Option Group) → (update sid s o).sids ≡ listed o ++ (sid ∷ [])
  unfolding update count_session
  sids-update sid s none = refl
  sids-update sid s (some g) = refl

  module _ (min_cmds : ℕ) where
    abbrev pub counted : State → ℕ
    counted st = sum_by (λ (e : Str × Group). e.1.count) st.groups

    cluster_session-counted :
        (st : State) (sid : Str) (s : Session)
        → (cluster_session sha1 min_cmds st (sid, s)).skipped
            + counted (cluster_session sha1 min_cmds st (sid, s))
          ≡ suc (st.skipped + counted st)
    unfolding cluster_session update
    cluster_session-counted st sid s = elim (Bool-cases (ltb (ncmds_of s) min_cmds)) [
      | inl short ↦ rw short (omega arith)
      | inr long ↦ rw long (
          omega (
            arith,
            sum_by-upsert (λ (g : Group). g.count) (hash_of sha1 s) (update sid s) st.groups,
            count-update sid s (get (hash_of sha1 s) st.groups),
          ))
    ]

    cluster_sessions-counted :
        (es : Dict Str Session) (st : State)
        → (cluster_sessions sha1 min_cmds st es).skipped
            + counted (cluster_sessions sha1 min_cmds st es)
          ≡ (st.skipped + counted st) + length es
    unfolding cluster_sessions
    cluster_sessions-counted [] st = omega arith
    cluster_sessions-counted ((sid, s) ∷ es) st =
        cluster_sessions-counted es (cluster_session sha1 min_cmds st (sid, s))
        ∙ omega (arith, cluster_session-counted st sid s)

    cluster_sessions-IsCounted :
        (es : Dict Str Session) (st : State)
        → AllValues IsCounted st.groups
        → AllValues IsCounted (cluster_sessions sha1 min_cmds st es).groups
    unfolding cluster_sessions cluster_session
    cluster_sessions-IsCounted [] st h = h
    cluster_sessions-IsCounted ((sid, s) ∷ es) st h =
        cluster_sessions-IsCounted es (cluster_session sha1 min_cmds st (sid, s))
          (elim (Bool-cases (ltb (ncmds_of s) min_cmds)) [
            | inl short ↦ rw short h
            | inr long ↦ rw long (
                AllValues-upsert IsCounted (hash_of sha1 s) _ st.groups
                  (count_session-IsCounted sid s (new_group sha1 s)
                    (record { sids = refl; ips = refl; clients = refl; users = refl }))
                  (count_session-IsCounted sid s) h)
          ])

    -- Every session is skipped or counted in one group, and each group counts its sessions alike by
    -- id, source address, client and user.
    pub cluster_counts :
        (es : Dict Str Session)
        → ((cluster sha1 min_cmds es).skipped + counted (cluster sha1 min_cmds es) ≡ length es)
          × AllValues IsCounted (cluster sha1 min_cmds es).groups
    unfolding cluster
    cluster_counts es = (
      cluster_sessions-counted es (record { groups = []; skipped = 0 }) ∙ omega arith,
      cluster_sessions-IsCounted es (record { groups = []; skipped = 0 }) tt,
    )

    abbrev picks : Str → Str × Session → Bool
    picks h (sid, s) = not (ltb (ncmds_of s) min_cmds) && h == hash_of sha1 s

    -- The ids of the sessions that have enough commands and the hash, in order.
    abbrev pub members : Str → Dict Str Session → List Str
    members h es = map (λ e. e.0) (select (picks h) es)

    cluster_session-members :
        (h : Str) (st : State) (sid : Str) (s : Session)
        → listed (get h (cluster_session sha1 min_cmds st (sid, s)).groups)
          ≡ listed (get h st.groups) ++ members h ((sid, s) ∷ [])
    unfolding cluster_session update
    cluster_session-members h st sid s = elim (Bool-cases (ltb (ncmds_of s) min_cmds)) [
      | inl short ↦ rw short (sym (append-nil _))
      | inr long ↦
          rw (long, get-upsert)
            (elim (Bool-cases (h == hash_of sha1 s)) [
              | inl mine ↦
                  let p : h ≡ hash_of sha1 s = (==_iff h (hash_of sha1 s)).0 mine in
                  rw mine (sids-update sid s (get (hash_of sha1 s) st.groups) ∙ rw p)
              | inr other ↦ rw other (sym (append-nil _))
            ])
    ]

    members-cons :
        (h : Str) (e : Str × Session) (es : Dict Str Session)
        → members h (e ∷ es) ≡ members h (e ∷ []) ++ members h es
    members-cons h e es = ap (map (λ e. e.0)) (select-cons (picks h) e es) ∙ map-append _ _ _

    cluster_sessions-members :
        (h : Str) (es : Dict Str Session) (st : State)
        → listed (get h (cluster_sessions sha1 min_cmds st es).groups)
          ≡ listed (get h st.groups) ++ members h es
    unfolding cluster_sessions
    cluster_sessions-members h [] st = sym (append-nil _)
    cluster_sessions-members h ((sid, s) ∷ es) st =
        cluster_sessions-members h es (cluster_session sha1 min_cmds st (sid, s))
        ∙ rw (cluster_session-members h st sid s, append_assoc, ← members-cons h (sid, s) es)

    -- The group under a hash lists exactly the sessions that have enough commands and a sequence
    -- with that hash, in their order.
    pub cluster_members :
        (h : Str) (es : Dict Str Session)
        → listed (get h (cluster sha1 min_cmds es).groups) ≡ members h es
    unfolding cluster get
    cluster_members h es = cluster_sessions-members h es (record { groups = []; skipped = 0 })
