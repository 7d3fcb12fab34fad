-- ===== src/Extract.antt =====
-- analysis/extract_binary.py and analysis/extract_all_binaries.py: the bytes that echo commands write.
-- Both scripts have `parse_hex`. A byte is a number, and `parse_hex` has no value where it raises an
-- error. `int16` is `int(…, 16)` of two characters, nothing where it raises or is negative, for which
-- `bytearray.append` raises. One and All are the loops of the two scripts.
pub mod RoundTrip
pub mod Save
pub mod Fuel
pub mod One
pub mod All
pub mod Best
use ssh_honeypot.Base.{ℕ, zero, suc, Bool, not, Option, none, some, List, [], ◌∷◌}
use ssh_honeypot.Base.{if◌then◌else◌, ltb, length, ◌==◌, nat_eq}
use ssh_honeypot.Base.Text.{Str, lit, contains}
use ssh_honeypot.Regex.{Re, seq, star, chr, group, ◌·◌, text, Place, search_re}

abbrev pub Bytes : Type 0
Bytes = List ℕ

-- `echo -e -n "([^"]*)"`
unfoldable pub payload_re : Re
payload_re = text (lit "echo -e -n \"") · group (star (chr (λ c. not (c == 34)))) · text (lit "\"")

-- `out.append(n)` in front of what the rest of the loop appends.
abbrev pub append_byte : Option ℕ → Option Bytes → Option Bytes
append_byte none rest = none
append_byte (some n) none = none
append_byte (some n) (some bs) = some (n ∷ bs)

-- A byte, for `bytearray.append` raises above 255.
abbrev pub byte : ℕ → Option ℕ
byte n = if ltb n 256 then some n else none

module _ (int16 : Str → Option ℕ) where
  -- The loop over `raw[i:]`, on fuel: what it appends from there on.
  unfoldable pub decode : ℕ → Str → Option Bytes
  decode zero raw = some []
  decode (suc fuel) [] = some []
  decode (suc fuel) (c ∷ []) = append_byte (byte c) (some [])
  decode (suc fuel) (c ∷ d ∷ []) =
      let skip = decode fuel [] in
      let plain = append_byte (byte c) (decode fuel (d ∷ [])) in if c == 92 then skip else plain
  decode (suc fuel) (c ∷ d ∷ e ∷ []) =
      let skip = decode fuel (e ∷ []) in
      let plain = append_byte (byte c) (decode fuel (d ∷ e ∷ [])) in if c == 92 then skip else plain
  decode (suc fuel) (c ∷ d ∷ e ∷ f ∷ s) =
      let hex = append_byte (int16 (e ∷ f ∷ [])) (decode fuel s) in
      let skip = decode fuel (e ∷ f ∷ s) in
      let plain = append_byte (byte c) (decode fuel (d ∷ e ∷ f ∷ s)) in
      if c == 92 then (if d == 120 then hex else skip) else plain

  -- Every round takes a character.
  unfoldable pub decode_all : Str → Option Bytes
  decode_all raw = decode (length raw) raw

  -- `parse_hex`: nothing where no payload is found. The callers treat an error like no payload.
  unfoldable pub parse_found : Option Place → Option Bytes
  parse_found none = none
  parse_found (some q) = elim q.captured [ none ↦ none | some raw ↦ decode_all raw ]

  unfoldable pub parse_hex : Str → Option Bytes
  parse_hex cmd = parse_found (search_re payload_re cmd)

-- The test that both loops begin with.
unfoldable pub echoes : Str → Bool
echoes cmd = contains cmd (lit "echo -e -n")
