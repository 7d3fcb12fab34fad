-- ===== src/Passwords/Lengths.antt =====
-- The table of lengths that analysis/passwords.py prints.
use ssh_honeypot.Base.{ℕ, ◌+◌, ◌≡◌, refl, ◌∙◌, ap, inl, inr, Bool, true, false, ◌&&◌}
use ssh_honeypot.Base.{List, [], ◌∷◌, arith, not, if◌then◌else◌}
use ssh_honeypot.Base.{length, leb, count_by, All, ◌==◌, nat_eq, list_eq, Bool-cases}
use ssh_honeypot.Base.Dict.{count_of, total, get}
use ssh_honeypot.Base.Text.{Str, lit}
use ssh_honeypot.Log.{Rec, field, kind}
use ssh_honeypot.Passwords.{is_attempt, passwords_of, length_label, length_buckets}
use ssh_honeypot.Passwords.Totals.{total-tally, count_of-tally}

abbrev pub between : ℕ → ℕ → Str → Bool
between low high pw = leb low (length pw) && leb (length pw) high

abbrev pub longer : ℕ → Str → Bool
longer low pw = leb low (length pw)

-- The label by the outcome of the three tests.
abbrev chosen : Bool → Bool → Bool → Str
chosen le4 le8 le12 =
    if le4 then lit "1-4" else if le8 then lit "5-8" else if le12 then lit "9-12" else lit "13+"

-- Each label is chosen by one outcome of the tests.
chosen_lem :
    (le4 le8 le12 : Bool)
    → ((lit "1-4" == chosen le4 le8 le12) ≡ le4)
      × ((lit "5-8" == chosen le4 le8 le12) ≡ (not le4 && le8))
      × ((lit "9-12" == chosen le4 le8 le12) ≡ (not le4 && not le8 && le12))
      × ((lit "13+" == chosen le4 le8 le12) ≡ (not le4 && not le8 && not le12))
unfolding lit nat_eq list_eq
chosen_lem true le8 le12 = (refl, refl, refl, refl)
chosen_lem false true le12 = (refl, refl, refl, refl)
chosen_lem false false true = (refl, refl, refl, refl)
chosen_lem false false false = (refl, refl, refl, refl)

-- The labels of a password that is not empty.
abbrev Labelled : Str → Type 0
Labelled pw =
    ((lit "1-4" == length_label pw) ≡ between 1 4 pw)
    × ((lit "5-8" == length_label pw) ≡ between 5 8 pw)
    × ((lit "9-12" == length_label pw) ≡ between 9 12 pw)
    × ((lit "13+" == length_label pw) ≡ longer 13 pw)

length_label-Labelled : (pw : Str) → (pw == []) ≡ false → Labelled pw
unfolding length_label list_eq
length_label-Labelled [] h = absurd cc
length_label-Labelled (c ∷ s) h =
    let n : ℕ = length (c ∷ s) in
    let (a, b, d, e) = chosen_lem (leb n 4) (leb n 8) (leb n 12) in
    (a ∙ ground arith, b ∙ ground arith, d ∙ ground arith, e ∙ ground arith)

-- No password that is read is empty.
passwords_of-Labelled : (rs : List Rec) → All Labelled (passwords_of rs)
unfolding passwords_of
passwords_of-Labelled [] = tt
passwords_of-Labelled (r ∷ rs) =
    let pw : Str = field "password" "" r in
    let rest : All Labelled (passwords_of rs) = passwords_of-Labelled rs in
    elim (Bool-cases (is_attempt (kind r) && not (pw == []))) [
      | inl kept ↦ rw kept (length_label-Labelled pw (ground (arith, kept)), rest)
      | inr left_out ↦ rw left_out rest
    ]

count_by-eq :
    (p q : Str → Bool) (pws : List Str)
    → All (λ pw. p pw ≡ q pw) pws
    → count_by p pws ≡ count_by q pws
count_by-eq p q [] h = refl
count_by-eq p q (pw ∷ pws) (h, hs) =
    rw h (ap (λ n. (if q pw then 1 else 0) + n) (count_by-eq p q pws hs))

All-map : (P Q : Str → Type 0) (pws : List Str) → ((pw : Str) → P pw → Q pw) → All P pws → All Q pws
All-map P Q [] f h = tt
All-map P Q (pw ∷ pws) f (h, hs) = (f pw h, All-map P Q pws f hs)

-- A row of the table counts the attempts that a test of their lengths holds for.
row_counts :
    (label : Str) (p : Str → Bool) (pws : List Str)
    → All (λ pw. (label == length_label pw) ≡ p pw) pws
    → count_of label (length_buckets pws) ≡ count_by p pws
unfolding length_buckets get
row_counts label p pws h =
    count_of-tally length_label label [] pws
    ∙ omega (arith, count_by-eq (λ pw. label == length_label pw) p pws h)

-- The four rows of the table of lengths count the attempts of the log with a password of 1 to 4
-- characters, of 5 to 8, of 9 to 12 and of 13 or more, and add up to all attempts with a password.
pub count_of-length_buckets :
    (rs : List Rec)
    → (count_of (lit "1-4") (length_buckets (passwords_of rs))
        ≡ count_by (between 1 4) (passwords_of rs))
      × (count_of (lit "5-8") (length_buckets (passwords_of rs))
          ≡ count_by (between 5 8) (passwords_of rs))
      × (count_of (lit "9-12") (length_buckets (passwords_of rs))
          ≡ count_by (between 9 12) (passwords_of rs))
      × (count_of (lit "13+") (length_buckets (passwords_of rs))
          ≡ count_by (longer 13) (passwords_of rs))
      × (total (length_buckets (passwords_of rs)) ≡ length (passwords_of rs))
count_of-length_buckets rs =
    let pws : List Str = passwords_of rs in
    let h : All Labelled pws = passwords_of-Labelled rs in
    (
      row_counts (lit "1-4") (between 1 4) pws (All-map Labelled _ pws (λ pw (a, _, _, _). a) h),
      row_counts (lit "5-8") (between 5 8) pws (All-map Labelled _ pws (λ pw (_, b, _, _). b) h),
      row_counts (lit "9-12") (between 9 12) pws (All-map Labelled _ pws (λ pw (_, _, a, _). a) h),
      row_counts (lit "13+") (longer 13) pws (All-map Labelled _ pws (λ pw (_, _, _, a). a) h),
      (unfold length_buckets in total-tally length_label [] pws ∙ omega arith),
    )
