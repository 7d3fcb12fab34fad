-- ===== src/Passwords.antt =====
-- analysis/passwords.py: the passwords of auth.log by length, character class, and trailing digits.
pub mod Output
pub mod Lengths
pub mod Split
pub mod Totals
use ssh_honeypot.Base.{ℕ, zero, suc, ◌*◌, ◌/◌, Bool, true, false, ◌&&◌, ◌||◌, not, List, [], ◌∷◌}
use ssh_honeypot.Base.{if◌then◌else◌, leb, length, take, drop, any, ◌==◌, nat_eq, list_eq}
use ssh_honeypot.Base.Dict.{Dict, incr}
use ssh_honeypot.Base.Text.{Str, Unicode, lit}
use ssh_honeypot.Log.{Rec, field, kind, Kind, auth_attempt, load_jsonlines}

-- `rec.get("msg") == "auth attempt"`
abbrev pub is_attempt : Kind → Bool
is_attempt auth_attempt = true
is_attempt _ = false

-- `load_passwords`, over the records.
unfoldable pub passwords_of : List Rec → List Str
passwords_of [] = []
passwords_of (r ∷ rs) =
    let rest = passwords_of rs in
    let pw = field "password" "" r in
    if is_attempt (kind r) && not (pw == []) then pw ∷ rest else rest

module _ ⦃u : Unicode⦄ where
  unfoldable pub charset : Str → Str
  charset pw =
      let has_digit = any u.digit pw in
      let has_lower = any u.lower pw in
      let has_upper = any u.upper pw in
      let has_special = any (λ c. not (u.alnum c)) pw in
      if has_special
      then lit "special"
      else if has_upper && (has_lower || has_digit)
      then lit "mixed-case"
      else if has_digit && not has_lower && not has_upper
      then lit "digits-only"
      else if (has_lower || has_upper) && not has_digit
      then lit "alpha-only"
      else lit "alphanumeric"

-- The label of the length buckets.
unfoldable pub length_label : Str → Str
length_label pw =
    let n = length pw in
    if leb n 4
    then lit "1-4"
    else if leb n 8
    then lit "5-8"
    else if leb n 12
    then lit "9-12"
    else lit "13+"

-- `Counter(f(pw) for pw in attempts)`, for the buckets and the classes.
unfoldable pub tally : (Str → Str) → Dict Str ℕ → List Str → Dict Str ℕ
tally f d [] = d
tally f d (pw ∷ pws) = tally f (incr (f pw) d) pws

unfoldable pub length_buckets : List Str → Dict Str ℕ
length_buckets = tally length_label []

unfoldable pub classes : ⦃u : Unicode⦄ → List Str → Dict Str ℕ
classes = tally charset []

-- `pw[i].isdigit()`, for an index in range.
abbrev pub head_test : (ℕ → Bool) → Str → Bool
head_test p [] = false
head_test p (c ∷ s) = p c

module _ ⦃u : Unicode⦄ where
  -- The loop `while i > 0 and pw[i-1].isdigit(): i -= 1`.
  unfoldable pub back_up : ℕ → Str → ℕ
  back_up zero pw = 0
  back_up (suc i) pw =
      let less = back_up i pw in if head_test u.digit (drop i pw) then less else suc i

  unfoldable pub tail_of : Str → Str
  tail_of pw = drop (back_up (length pw) pw) pw

  unfoldable pub base_of : Str → Str
  base_of pw = take (back_up (length pw) pw) pw

-- `suffixes` and `bases`: parts that are not empty are counted.
unfoldable pub count_parts : (Str → Str) → Dict Str ℕ → List Str → Dict Str ℕ
count_parts part d [] = d
count_parts part d (pw ∷ pws) = count_parts part (if part pw == [] then d else incr (part pw) d) pws

unfoldable pub suffixes : ⦃u : Unicode⦄ → List Str → Dict Str ℕ
suffixes = count_parts tail_of []

unfoldable pub bases : ⦃u : Unicode⦄ → List Str → Dict Str ℕ
bases = count_parts base_of []

-- The bar of a bucket: `count * 30 // total` characters.
unfoldable pub bar_width : ℕ → ℕ → ℕ
bar_width count zero = 0
bar_width count (suc n) = count * 30 / suc n
