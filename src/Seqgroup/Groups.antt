-- ===== src/Seqgroup/Groups.antt =====
-- `cluster` of analysis/seqgroup.py, and the order in which `write_output` lists the groups.
-- `sha1` is `hashlib.sha1(…).hexdigest()` of the encoded text.
use ssh_honeypot.Base.{ℕ, ◌+◌, Bool, ◌||◌, ◌&&◌, not, Option, none, some, List, [], ◌∷◌, ◌++◌}
use ssh_honeypot.Base.{take, count_by, if◌then◌else◌, ◌==◌, nat_eq, list_eq, ltb}
use ssh_honeypot.Base.Dict.{Dict, upsert, incr, values}
use ssh_honeypot.Base.Text.{Str, lit, starts_with, join, str_ltb}
use ssh_honeypot.Base.Sort.{sort}
use ssh_honeypot.Seqgroup.{Session}

pub record Group : Type 0 where
  pub hash : Str
  pub seq : List Str
  pub ncmds : ℕ
  pub count : ℕ
  pub sids : List Str
  pub ips : Dict Str ℕ
  pub clients : Dict Str ℕ
  pub users : Dict Str ℕ
  pub first : Str
  pub last : Str

-- The lines that stand for commands: markers of the log do not count.
unfoldable pub ncmds_of : Session → ℕ
ncmds_of s = count_by (λ l. not (starts_with l (lit "  ["))) s.seq

abbrev pub State : Type 0
State = record { groups : Dict Str Group; skipped : ℕ }

module _ (sha1 : Str → Str) where
  -- `hashlib.sha1("\n".join(seq)).hexdigest()[:10]`
  unfoldable pub hash_of : Session → Str
  hash_of s = take 10 (sha1 (join (10 ∷ []) s.seq))

  abbrev pub new_group : Session → Group
  new_group s = record {
    hash = hash_of s;
    seq = s.seq;
    ncmds = ncmds_of s;
    count = 0;
    sids = [];
    ips = [];
    clients = [];
    users = [];
    first = s.first;
    last = s.last;
  }

  abbrev pub or_new : Session → Option Group → Group
  or_new s none = new_group s
  or_new s (some g) = g

  -- The end of the loop's body, from `g["count"] += 1` on.
  unfoldable pub count_session : Str → Session → Group → Group
  count_session sid s g = record g {
    count = g.count + 1;
    sids = g.sids ++ (sid ∷ []);
    ips = incr s.ip g.ips;
    clients = incr s.client g.clients;
    users = incr s.user g.users;
    first = if not (s.first == []) && str_ltb s.first g.first then s.first else g.first;
    last = if str_ltb g.last s.last then s.last else g.last;
  }

  module _ (min_cmds : ℕ) where
    unfoldable pub cluster_session : State → Str × Session → State
    cluster_session st (sid, s) =
        if ltb (ncmds_of s) min_cmds then record st { skipped = st.skipped + 1 } else record st {
          groups = upsert (hash_of s) (λ o. count_session sid s (or_new s o)) st.groups;
        }

    unfoldable pub cluster_sessions : State → Dict Str Session → State
    cluster_sessions st [] = st
    cluster_sessions st (e ∷ es) = cluster_sessions (cluster_session st e) es

    unfoldable pub cluster : Dict Str Session → State
    cluster = cluster_sessions (record { groups = []; skipped = 0 })

-- `sorted(groups.values(), key=lambda g: (-g["count"], -g["ncmds"]))`
unfoldable pub comes_before : Group → Group → Bool
comes_before a b = ltb b.count a.count || (a.count == b.count && ltb b.ncmds a.ncmds)

unfoldable pub ordered : Dict Str Group → List Group
ordered groups = sort comes_before (values groups)
