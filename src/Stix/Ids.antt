-- ===== src/Stix/Ids.antt =====
-- `_det_id` and `_att_ref` of analysis/gen_stix_bundle.py.
-- `uuid5` is `uuid.uuid5` in the project's namespace, as 16 bytes, and `uuid_text` is `str` of a UUID
-- with given bytes.
pub mod Bits
use Prim.Native.Nat.{bit_and, bit_or}
use ssh_honeypot.Base.{ℕ, zero, suc, Bool, List, [], ◌∷◌, ◌++◌, if◌then◌else◌, ◌==◌, nat_eq}
use ssh_honeypot.Base.Text.{Str, lit, join}

-- `b[i] = f(b[i])`
unfoldable pub set_at : ℕ → (ℕ → ℕ) → List ℕ → List ℕ
set_at i f [] = []
set_at zero f (b ∷ bs) = f b ∷ bs
set_at (suc i) f (b ∷ bs) = b ∷ set_at i f bs

-- `(b & 0x0F) | 0x40` and `(b & 0x3F) | 0x80`
unfoldable pub version_byte : ℕ → ℕ
version_byte b = bit_or (bit_and b 0x0f) 0x40

unfoldable pub variant_byte : ℕ → ℕ
variant_byte b = bit_or (bit_and b 0x3f) 0x80

unfoldable pub force_v4 : List ℕ → List ℕ
force_v4 bytes = set_at 8 variant_byte (set_at 6 version_byte bytes)

unfoldable pub slug_of : Str → List Str → Str
slug_of stix_type parts = stix_type ++ lit ":" ++ join (lit ":") parts

unfoldable pub det_id : (Str → List ℕ) → (List ℕ → Str) → Str → List Str → Str
det_id uuid5 uuid_text stix_type parts =
    stix_type ++ lit "--" ++ uuid_text (force_v4 (uuid5 (slug_of stix_type parts)))

-- `technique_id.replace(".", "/")`
unfoldable pub dots_to_slashes : Str → Str
dots_to_slashes [] = []
dots_to_slashes (c ∷ s) = (if c == 46 then 47 else c) ∷ dots_to_slashes s

-- `_att_ref`
pub record Reference : Type 0 where
  pub source_name : Str
  pub external_id : Str
  pub url : Str

unfoldable pub att_ref : Str → Reference
att_ref technique_id = record {
  source_name = lit "mitre-attack";
  external_id = technique_id;
  url = lit "https://attack.mitre.org/techniques/" ++ dots_to_slashes technique_id ++ lit "/";
}
