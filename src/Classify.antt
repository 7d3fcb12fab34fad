-- ===== src/Classify.antt =====
-- analysis/classify.py: sessions are assigned to families by their cluster. This module has the
-- mapping and `_classify`; Aggregate has the loops of `main`.
pub mod Stages
pub mod Aggregate
pub mod Output
pub mod Accounts
use ssh_honeypot.Base.{
  ℕ, ◌+◌, Bool, true, false, ◌&&◌, ◌||◌, Option, none, some, List, [], ◌∷◌, ◌++◌, any,
}
use ssh_honeypot.Base.{if◌then◌else◌, ◌==◌, nat_eq, list_eq, member}
use ssh_honeypot.Base.Dict.{Dict, get, put}
use ssh_honeypot.Base.Distinct.{distinct_onto}
use ssh_honeypot.Base.Text.{Str, lit, contains, ends_with}
use ssh_honeypot.Cluster.{Shape, apply_rules}

-- An entry of family_mapping.json: missing lists are empty.
pub record MapEntry : Type 0 where
  pub cluster_id : Str
  pub family_id : Option Str
  pub exclude_sids : List Str
  pub sub_splits : List (Str × Str)

pub record Mapping : Type 0 where
  pub by_cluster : Dict Str MapEntry
  pub c08_fid_family : Dict Str Str
  pub exclude_sids : List Str

unfoldable pub add_splits : Dict Str Str → List (Str × Str) → Dict Str Str
add_splits d [] = d
add_splits d ((fid, fam) ∷ splits) = add_splits (put fid fam d) splits

-- The body of the loop of `_load_mapping`.
unfoldable pub add_entry : MapEntry → Mapping → Mapping
add_entry e m = record {
  by_cluster = put e.cluster_id e m.by_cluster;
  c08_fid_family =
      if e.cluster_id == lit "C08"
      then add_splits m.c08_fid_family e.sub_splits
      else m.c08_fid_family;
  exclude_sids = distinct_onto m.exclude_sids e.exclude_sids;
}

unfoldable pub add_entries : Mapping → List MapEntry → Mapping
add_entries m [] = m
add_entries m (e ∷ es) = add_entries (add_entry e m) es

unfoldable pub load_mapping : List MapEntry → Mapping
load_mapping = add_entries (record { by_cluster = []; c08_fid_family = []; exclude_sids = [] })

pub data Stage : Type 0 where
  recon_only recon_kill recon_kill_execute : Stage

-- The tests of `_c09_stage` on one command.
unfoldable pub is_chattr : Str → Bool
is_chattr c = contains c (lit "chattr")

unfoldable pub is_chmod : Str → Bool
is_chmod c = contains c (lit "chmod") && (contains c (lit "+x") || contains c (lit "777"))

unfoldable pub in_background : Str → Bool
in_background c = ends_with c (lit "&") || contains c (lit " &")

unfoldable pub kills_miner : Str → Bool
kills_miner c =
    (contains c (lit "pkill") || contains c (lit "killall"))
    && (contains c (lit "xmrig") || contains c (lit "cnrig") || contains c (lit "java"))

-- `_c09_stage`
unfoldable pub c09_stage : List Str → Stage
c09_stage cmds =
    let has_chattr = any is_chattr cmds in
    let has_chmod_exec = any is_chmod cmds && (any in_background cmds || has_chattr) in
    if has_chattr || has_chmod_exec
    then recon_kill_execute
    else if any kills_miner cmds
    then recon_kill
    else recon_only

pub record Verdict : Type 0 where
  pub cluster_id : Str
  pub rule : Str
  pub families : List Str
  pub stage : Option Stage

-- `[fam] if fam else []`
unfoldable pub one_family : Option Str → List Str
one_family none = []
one_family (some fam) = if fam == [] then [] else fam ∷ []

-- `by_cluster.get(cid, {}).get("family_id")`
unfoldable pub family_of : Option MapEntry → Option Str
family_of none = none
family_of (some e) = e.family_id

-- `_classify`
unfoldable pub classify : Shape → List Str → Str → Mapping → Verdict
classify shape cmds fingerprint m =
    let (cid, desc) = apply_rules shape in
    let fam = family_of (get cid m.by_cluster) in
    if cid == lit "C08"
    then record {
      cluster_id = cid;
      rule = desc;
      families = one_family (get fingerprint m.c08_fid_family);
      stage = none;
    }
    else if cid == lit "C14"
    then record {
      cluster_id = cid;
      rule = desc;
      families = lit "F7" ∷ lit "F12" ∷ [];
      stage = none;
    }
    else if cid == lit "C09"
    then record {
      cluster_id = cid;
      rule = desc;
      families = one_family fam;
      stage = some (c09_stage cmds);
    }
    else record { cluster_id = cid; rule = desc; families = one_family fam; stage = none }
