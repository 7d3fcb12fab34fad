-- ===== src/Extract/Fuel.antt =====
-- The loop of `parse_hex` in analysis/extract_binary.py ends.
use ssh_honeypot.Base.{ℕ, zero, suc, ◌≤◌, ◌≡◌, refl, Option, [], ◌∷◌}
use ssh_honeypot.Base.{arith, length}
use ssh_honeypot.Base.Text.{Str}
use ssh_honeypot.Extract.{decode, decode_all}

module _ (int16 : Str → Option ℕ) where
  -- Two fuels that are both enough give the same.
  decode_fuels :
      (n m : ℕ) (raw : Str)
      → length raw ≤ n
      → length raw ≤ m
      → decode int16 n raw ≡ decode int16 m raw
  unfolding decode
  decode_fuels zero zero raw h k = refl
  decode_fuels zero (suc m) [] h k = refl
  decode_fuels zero (suc m) (c ∷ s) h k = absurd (omega arith)
  decode_fuels (suc n) zero [] h k = refl
  decode_fuels (suc n) zero (c ∷ s) h k = absurd (omega arith)
  decode_fuels (suc n) (suc m) [] h k = refl
  decode_fuels (suc n) (suc m) (c ∷ []) h k = refl
  decode_fuels (suc n) (suc m) (c ∷ d ∷ []) h k = cc (
    decode_fuels n m [] (omega arith) (omega arith),
    decode_fuels n m (d ∷ []) (omega arith) (omega arith),
  )
  decode_fuels (suc n) (suc m) (c ∷ d ∷ e ∷ []) h k = cc (
    decode_fuels n m (e ∷ []) (omega arith) (omega arith),
    decode_fuels n m (d ∷ e ∷ []) (omega arith) (omega arith),
  )
  decode_fuels (suc n) (suc m) (c ∷ d ∷ e ∷ f ∷ s) h k = cc (
    decode_fuels n m s (omega arith) (omega arith),
    decode_fuels n m (e ∷ f ∷ s) (omega arith) (omega arith),
    decode_fuels n m (d ∷ e ∷ f ∷ s) (omega arith) (omega arith),
  )

  -- The loop over a text ends within as many rounds as it has characters: with any number of rounds from
  -- there on its result is that of `decode_all`.
  pub decode-eq-decode_all :
      (n : ℕ) (raw : Str) → length raw ≤ n → decode int16 n raw ≡ decode_all int16 raw
  unfolding decode_all
  decode-eq-decode_all n raw h = decode_fuels n (length raw) raw h (omega arith)
