-- ===== src/Passwords/Split.antt =====
-- The split of a password into its base word and its trailing digits.
use ssh_honeypot.Base.{
  ℕ, zero, suc, ◌≤◌, ◌≡◌, refl, ap, inl, inr, Bool, true, not, [], ◌∷◌, ◌++◌, arith,
}
use ssh_honeypot.Base.{length, take, drop, all, take-append-drop, Bool-cases}
use ssh_honeypot.Base.Text.{Str, Unicode}
use ssh_honeypot.Passwords.{head_test, back_up, tail_of, base_of}

module _ ⦃u : Unicode⦄ where
  all-drop :
      (i : ℕ) (pw : Str)
      → head_test u.digit (drop i pw) ≡ true
      → all u.digit (drop (suc i) pw) ≡ true
      → all u.digit (drop i pw) ≡ true
  all-drop zero [] h hs = refl
  all-drop zero (c ∷ pw) h hs = ground arith
  all-drop (suc i) [] h hs = refl
  all-drop (suc i) (c ∷ pw) h hs = all-drop i pw h hs

  drop-length : (pw : Str) → drop (length pw) pw ≡ []
  drop-length [] = refl
  drop-length (c ∷ pw) = drop-length pw

  -- The character before an index is no digit, or the index is 0.
  abbrev pub stops_at : ℕ → Str → Bool
  stops_at zero pw = true
  stops_at (suc i) pw = not (head_test u.digit (drop i pw))

  back_up_stops :
      (i : ℕ) (pw : Str)
      → all u.digit (drop i pw) ≡ true
      → (all u.digit (drop (back_up i pw) pw) ≡ true)
        × (stops_at (back_up i pw) pw ≡ true)
        × (back_up i pw ≤ i)
  unfolding back_up
  back_up_stops zero pw h = (h, refl, omega arith)
  back_up_stops (suc i) pw h = elim (Bool-cases (head_test u.digit (drop i pw))) [
    | inl is_digit ↦
        let (a, s, le) = back_up_stops i pw (all-drop i pw is_digit h) in
        rw is_digit (a, s, omega (arith, le))
    | inr other ↦ rw other (h, rw other refl, omega arith)
  ]

  length-take : (n : ℕ) (pw : Str) → n ≤ length pw → length (take n pw) ≡ n
  length-take zero pw h = refl
  length-take (suc n) [] h = absurd (omega arith)
  length-take (suc n) (c ∷ pw) h = ap suc (length-take n pw (omega arith))

  -- Base word and suffix make up the password, the suffix is all digits, and the base word does not end
  -- in a digit: no digit at the end is left out of the suffix.
  pub base_of-tail_of :
      (pw : Str)
      → (base_of pw ++ tail_of pw ≡ pw)
        × (all u.digit (tail_of pw) ≡ true)
        × (stops_at (length (base_of pw)) pw ≡ true)
  unfolding base_of tail_of
  base_of-tail_of pw =
      let (digits, stops, le) = back_up_stops (length pw) pw (rw drop-length refl) in
      (
        take-append-drop (back_up (length pw) pw) pw,
        digits,
        rw (length-take (back_up (length pw) pw) pw le) stops,
      )
