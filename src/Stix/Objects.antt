-- ===== src/Stix/Objects.antt =====
-- The STIX objects that `build_bundle` of analysis/gen_stix_bundle.py makes, with the arguments that
-- it passes to the constructors of stix2. The same for all of a type, and left out: pattern type and
-- indicator types, `valid_from` and `start_time` (CAMPAIGN_START), and `is_family=False`.
use Prim.Native.String.{String}
use ssh_honeypot.Base.{ℕ, ◌+◌, Option, none, some, List, [], ◌∷◌, ◌++◌, map, nat_eq, list_eq}
use ssh_honeypot.Base.Dict.{Dict, upsert}
use ssh_honeypot.Base.Text.{Str, lit}
use ssh_honeypot.Stix.Ids.{Reference}

pub record AttackPattern : Type 0 where
  pub id : Str
  pub name : Str
  pub description : Str
  pub external_references : List Reference

pub record Indicator : Type 0 where
  pub id : Str
  pub name : Str
  pub description : Str
  pub pattern : Str

pub record Relationship : Type 0 where
  pub id : Str
  pub relationship_type : Str
  pub source_ref : Str
  pub target_ref : Str
  pub description : Option Str

-- A note gets a fresh id from the library, to which nothing refers.
pub record Note : Type 0 where
  pub abstract : Str
  pub content : Str
  pub object_refs : List Str

pub record File : Type 0 where
  pub name : Str
  pub sha256 : Str
  pub size : Option ℕ
  pub mime_type : Option Str

pub record Malware : Type 0 where
  pub id : Str
  pub name : Str
  pub malware_types : List Str
  pub description : Str
  pub sample_refs : List Str

pub data Object : Type 0 where
  attack_pattern : AttackPattern → Object
  ipv4_addr : Str → Object
  url : Str → Object
  file : File → Object
  indicator : Indicator → Object
  malware : Malware → Object
  note : Note → Object
  relationship : Relationship → Object

-- What `build_bundle` does to its two variables: `objects.append(o)` and `counts[key] += n`.
pub data Step : Type 0 where
  append : Object → Step
  raise : String → ℕ → Step

-- `objects` after the steps.
unfoldable pub objects_of : List Step → List Object
objects_of [] = []
objects_of (append o ∷ es) = o ∷ objects_of es
objects_of (raise key n ∷ es) = objects_of es

abbrev pub raised_by : ℕ → Option ℕ → ℕ
raised_by n none = n
raised_by n (some m) = m + n

-- `counts` after the steps. A step under a key that is not there would be a KeyError in the source.
unfoldable pub count_steps : Dict Str ℕ → List Step → Dict Str ℕ
count_steps counts [] = counts
count_steps counts (append o ∷ es) = count_steps counts es
count_steps counts (raise key n ∷ es) = count_steps (upsert (lit key) (raised_by n) counts) es

unfoldable pub concat : List (List Step) → List Step
concat [] = []
concat (es ∷ ess) = es ++ concat ess

-- `counts` at the start.
unfoldable pub no_counts : Dict Str ℕ
no_counts =
    map (λ k. (lit k, 0))
      ("attack_pattern" ∷ "ipv4_addr" ∷ "url" ∷ "file" ∷ "indicator" ∷ "malware" ∷ "note"
        ∷ "relationship" ∷ [])

-- A family of families.json, as classify.py writes it.
pub record Family : Type 0 where
  pub ip_count : ℕ
  pub session_count : ℕ
  pub ips : List Str
  pub stage_breakdown : Dict Str ℕ

abbrev pub Families : Type 0
Families = Dict Str Family

-- `uuid.uuid5` in the project's namespace, as bytes, `str` of a UUID with given bytes, and the ids that
-- the stix2 library gives to files.
pub record Library : Type 0 where
  pub uuid5 : Str → List ℕ
  pub uuid_text : List ℕ → Str
  pub file_id : File → Str
