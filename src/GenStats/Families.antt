-- ===== src/GenStats/Families.antt =====
-- `count_families` of analysis/gen_stats.py, over the entries of family_mapping.json, and nothing where
-- the file is missing or cannot be parsed.
use ssh_honeypot.Base.{
  ℕ, Option, none, some, List, [], ◌∷◌, length, if◌then◌else◌, ◌==◌, nat_eq, list_eq,
}
use ssh_honeypot.Base.Distinct.{add_new, distinct_onto}
use ssh_honeypot.Base.Text.{Str}

-- A family id is missing, a text, or a list of texts.
pub data FamilyId : Type 0 where
  no_family : FamilyId
  one_family : Str → FamilyId
  many_families : List Str → FamilyId

pub record Entry : Type 0 where
  pub family_id : FamilyId
  pub sub_splits : List (Option Str)

abbrev pub add_some : List Str → Str → List Str
add_some fams fam = if fam == [] then fams else add_new fams fam

unfoldable pub add_family : List Str → FamilyId → List Str
add_family fams no_family = fams
add_family fams (one_family fam) = add_some fams fam
add_family fams (many_families fs) = distinct_onto fams fs

unfoldable pub add_splits : List Str → List (Option Str) → List Str
add_splits fams [] = fams
add_splits fams (none ∷ splits) = add_splits fams splits
add_splits fams (some fam ∷ splits) = add_splits (add_some fams fam) splits

unfoldable pub add_entries : List Str → List Entry → List Str
add_entries fams [] = fams
add_entries fams (e ∷ es) = add_entries (add_splits (add_family fams e.family_id) e.sub_splits) es

unfoldable pub count_families : Option (List Entry) → Option ℕ
count_families none = none
count_families (some entries) = some (length (add_entries [] entries))
