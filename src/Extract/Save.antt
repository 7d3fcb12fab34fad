-- ===== src/Extract/Save.antt =====
-- The last loop of analysis/extract_all_binaries.py, which saves a binary for each target, and the files
-- that analysis/extract_binary.py writes. The files of the directory are a dictionary by name; a
-- target that ends in a slash, which has no name, is not modelled.
use ssh_honeypot.Base.{ℕ, Bool, ◌≡◌, ◌∙◌, ap, refl, inl, inr, true, false, Bool-cases}
use ssh_honeypot.Base.{Option, none, some, List, [], ◌∷◌, ◌++◌, map, length, take, ◌==◌, ==_iff}
use ssh_honeypot.Base.{if◌then◌else◌, nat_eq, list_eq, option_eq}
use ssh_honeypot.Base.Dict.{Dict, get, put, get-upsert}
use ssh_honeypot.Base.Text.{Str, lit}
use ssh_honeypot.Extract.{Bytes}
use ssh_honeypot.Extract.All.{Sessions, best, joined, by_target, elf_magic}
use ssh_honeypot.Extract.One.{basename}
use ssh_honeypot.GenStats.Output.{hex_fixed}

abbrev pub Files : Type 0
Files = Dict Str Bytes

-- What is printed of a target.
pub data Saved : Type 0 where
  dup elf non_elf : Saved

pub record Line : Type 0 where
  pub target : Str
  pub sessions : ℕ
  pub best_sid : Str
  pub bytes : ℕ
  pub sha : Str
  pub saved : Saved

module _ (sha256 : Bytes → Str) where
  -- The hash of a file where there is one.
  abbrev hash_of : Option Bytes → Option Str
  hash_of none = none
  hash_of (some old) = some (sha256 old)

  unfoldable pub hash_at : Str → Files → Option Str
  hash_at name files = hash_of (get name files)

  unfoldable pub verdict : Bool → Bytes → Saved
  verdict true binary = dup
  verdict false binary = if take 4 binary == elf_magic then elf else non_elf

  -- A file with the hash of the binary is left as it is, any other file of that name is replaced.
  unfoldable pub save : Str → Bytes → Files → Files
  save name binary files =
      if hash_at name files == some (sha256 binary) then files else put name binary files

  unfoldable pub line_of : Str → ℕ → Str × List Bytes → Files → Line
  line_of target n (best_sid, chunks) files =
      let binary = joined chunks in
      record {
        target = target;
        sessions = n;
        best_sid = take 10 best_sid;
        bytes = length binary;
        sha = take 32 (sha256 binary);
        saved = verdict (hash_at (basename target) files == some (sha256 binary)) binary;
      }

  -- Nothing where a target has no session, for which `max` raises: the targets after it are not saved.
  unfoldable pub save_targets : Dict Str Sessions → Files → Option (Files × List Line)
  save_targets [] files = some (files, [])
  save_targets ((target, sessions) ∷ ts) files = elim (best sessions) [
    | none ↦ none
    | some b ↦ elim (save_targets ts (save (basename target) (joined b.1) files)) [
      | none ↦ none
      | some r ↦ some (r.0, line_of target (length sessions) b files ∷ r.1)
    ]
  ]

  unfoldable pub save_all : Dict Str Sessions → Files → Option (Files × List Line)
  save_all targets files = save_targets (by_target targets) files

-- `binary.hex()`
unfoldable pub hex : Bytes → Str
hex [] = []
hex (b ∷ bs) = hex_fixed 2 b ++ hex bs

-- `name + '.txt'` and the text that the other script writes there.
unfoldable pub text_of : Str × List Bytes → Str × Str
text_of (name, parts) = (name ++ lit ".txt", hex (joined parts))

-- Nothing where there are no chunks, and the script exits with status 1.
unfoldable pub texts : Dict Str (List Bytes) → Option (List (Str × Str))
texts [] = none
texts (c ∷ cs) = some (map text_of (c ∷ cs))

module _ (sha256 : Bytes → Str) where
  hash_at-put :
      (name : Str) (binary : Bytes) (files : Files)
      → hash_at sha256 name (put name binary files) ≡ some (sha256 binary)
  unfolding hash_at
  hash_at-put name binary files = ap (hash_of sha256) there
    where
      there : get name (put name binary files) ≡ some binary
      there = get-upsert name name (λ o. binary) files ∙ rw ((==_iff name name).1 refl) refl

  -- After a target is saved the file of its name has the hash of its binary, written or not.
  pub hash_at-save :
      (name : Str) (binary : Bytes) (files : Files)
      → hash_at sha256 name (save sha256 name binary files) ≡ some (sha256 binary)
  unfolding save
  hash_at-save name binary files =
      elim (Bool-cases (hash_at sha256 name files == some (sha256 binary))) [
        | inl same ↦ rw same ((==_iff (hash_at sha256 name files) (some (sha256 binary))).0 same)
        | inr other ↦ rw other (hash_at-put name binary files)
      ]

  -- The files of other names stay as they are.
  pub get-save :
      (k name : Str) (binary : Bytes) (files : Files)
      → (k == name) ≡ false
      → get k (save sha256 name binary files) ≡ get k files
  unfolding save
  get-save k name binary files h =
      elim (Bool-cases (hash_at sha256 name files == some (sha256 binary))) [
        | inl same ↦ rw same refl
        | inr other ↦ rw (other, get-upsert k name (λ o. binary) files, h) refl
      ]
