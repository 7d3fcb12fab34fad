-- ===== src/Extract/RoundTrip.antt =====
-- The loop of `parse_hex` and the encoding of bytes as `\xNN`.
use ssh_honeypot.Base.{ℕ, zero, suc, ◌+◌, ◌/◌, ◌%◌, ◌≤◌, ◌≡◌, refl, Option, some, [], ◌∷◌, arith}
use ssh_honeypot.Base.{length, All, if◌then◌else◌, ltb, nat_eq}
use ssh_honeypot.Base.Text.{Str}
use ssh_honeypot.Extract.{Bytes, decode, decode_all}

abbrev pub hex_digit_of : ℕ → ℕ
hex_digit_of n = if ltb n 10 then 48 + n else 87 + n

-- The two hexadecimal digits of a byte.
abbrev pub hex_of : ℕ → Str
hex_of b = hex_digit_of (b / 16) ∷ hex_digit_of (b % 16) ∷ []

-- `\xNN` for every byte.
abbrev pub encode : Bytes → Str
encode [] = []
encode (b ∷ bs) = 92 ∷ 120 ∷ hex_digit_of (b / 16) ∷ hex_digit_of (b % 16) ∷ encode bs

module _ (int16 : Str → Option ℕ) where
  abbrev pub Reads : ℕ → Type 0
  Reads b = int16 (hex_of b) ≡ some b

  decode-encode :
      (fuel : ℕ) (bs : Bytes)
      → length (encode bs) ≤ fuel
      → All Reads bs
      → decode int16 fuel (encode bs) ≡ some bs
  unfolding decode nat_eq
  decode-encode zero [] h reads = refl
  decode-encode (suc fuel) [] h reads = refl
  decode-encode zero (b ∷ bs) h reads = absurd (omega arith)
  decode-encode (suc fuel) (b ∷ bs) h (read, reads) =
      rw (read, decode-encode fuel bs (omega arith) reads)

  -- Bytes that are written as `\xNN`, and whose two digits are read as the byte, are decoded to
  -- themselves, whatever the number of them.
  pub decode_all-encode : (bs : Bytes) → All Reads bs → decode_all int16 (encode bs) ≡ some bs
  unfolding decode_all
  decode_all-encode bs reads = decode-encode (length (encode bs)) bs (omega arith) reads
