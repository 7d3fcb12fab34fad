-- ===== src/Timeline/Extremes.antt =====
-- First and last of analysis/timeline.py, against the timestamps of the log.
use ssh_honeypot.Base.{
  ◌+◌, ◌≡◌, refl, ap, ◌∙◌, ◌⊎◌, inl, inr, Bool, true, false, ◌&&◌, ◌||◌, not, Option, none, some,
  List, [], ◌∷◌, arith,
}
use ssh_honeypot.Base.{
  if◌then◌else◌, member, all, length, ◌==◌, ==_iff, ==_refl, nat_eq, list_eq, Bool-cases,
  List-cases,
}
use ssh_honeypot.Base.Dict.{get, count_of, get-upsert, count_of-incr}
use ssh_honeypot.Base.Text.{Str, str_ltb}
use ssh_honeypot.Log.{Rec, field, kind}
use ssh_honeypot.Passwords.{is_attempt}
use ssh_honeypot.Timeline.{Seen, nothing_seen, earlier, later, see, see_password, see_passwords}

pub str_ltb_trans : (a b c : Str) → str_ltb a b ≡ true → str_ltb b c ≡ true → str_ltb a c ≡ true
unfolding str_ltb
str_ltb_trans a b [] h k = k
str_ltb_trans [] b (z ∷ c) h k = refl
str_ltb_trans (x ∷ a) [] (z ∷ c) h k = ground arith
str_ltb_trans (x ∷ a) (y ∷ b) (z ∷ c) h k = ground (arith, str_ltb_trans a b c)

str_ltb-total : (a b : Str) → str_ltb a b ≡ false → (b == a || str_ltb b a) ≡ true
unfolding str_ltb list_eq
str_ltb-total [] [] h = refl
str_ltb-total [] (y ∷ b) h = ground arith
str_ltb-total (x ∷ a) [] h = refl
str_ltb-total (x ∷ a) (y ∷ b) h = ground (arith, str_ltb-total a b)

-- The best of some timestamps by an order, from the best of the ones before.
module _ (lt : Str → Str → Bool) where
  abbrev pub best : Option Str → List Str → Option Str
  best o [] = o
  best none (t ∷ ts) = best (some t) ts
  best (some old) (t ∷ ts) = best (some (if lt t old then t else old)) ts

  -- `f` comes before `t`, or is it.
  abbrev pub leads : Str → Str → Bool
  leads f t = f == t || lt f t

  -- A timestamp that is one of the list and leads all of it.
  pub record IsBest (ts : List Str) (f : Str) : Type 0 where
    pub listed : member f ts ≡ true
    pub leads_all : all (leads f) ts ≡ true

  module _ (trans : (a b c : Str) → lt a b ≡ true → lt b c ≡ true → lt a c ≡ true)
      (total : (a b : Str) → lt a b ≡ false → leads b a ≡ true) where
    leads_trans : (f a b : Str) → leads f a ≡ true → leads a b ≡ true → leads f b ≡ true
    leads_trans f a b h k = ground (arith, trans f a b)

    best-some :
        (old : Str) (ts : List Str)
        → (f : Str) × (best (some old) ts ≡ some f)
          × ((f == old || member f ts) ≡ true)
          × (leads f old ≡ true)
          × (all (leads f) ts ≡ true)
    best-some old [] = (old, refl, ground (arith, ==_refl old), ground (arith, ==_refl old), refl)
    best-some old (t ∷ ts) = elim (Bool-cases (lt t old)) [
      | inl e ↦
          let (f, p, m, l, a) = best-some t ts in
          let l' = leads_trans f t old l (ground arith) in
          rw e (f, p, ground arith, l', ground arith)
      | inr e ↦
          let (f, p, m, l, a) = best-some old ts in
          let l' = leads_trans f old t l (total t old e) in
          rw e (f, p, ground arith, l, ground arith)
    ]

    best-IsBest :
        (t : Str) (ts : List Str) → (f : Str) × (best none (t ∷ ts) ≡ some f) × IsBest (t ∷ ts) f
    best-IsBest t ts =
        let (f, p, m, l, a) = best-some t ts in
        (f, p, record { listed = m; leads_all = ground arith })

-- The timestamps of the attempts with a password.
abbrev pub times_of : Str → List Rec → List Str
times_of pw [] = []
times_of pw (r ∷ rs) =
    let rest = times_of pw rs in
    let here = field "password" "" r in
    if is_attempt (kind r) && not (here == []) && not (field "time" "" r == []) && pw == here
    then field "time" "" r ∷ rest
    else rest

-- The record is an attempt with this password and a timestamp.
abbrev names : Str → Rec → Bool
names pw r =
    let here = field "password" "" r in
    is_attempt (kind r) && not (here == []) && not (field "time" "" r == []) && pw == here

first-see_password :
    (pw : Str) (r : Rec) (s : Seen)
    → get pw (see_password r s).first
      ≡ (if names pw r then some (earlier (field "time" "" r) (get pw s.first)) else get pw s.first)
unfolding see_password see
first-see_password pw r s =
    let here = field "password" "" r in
    ground (arith, get-upsert pw here (earlier (field "time" "" r)) s.first, ==_iff pw here)

last-see_password :
    (pw : Str) (r : Rec) (s : Seen)
    → get pw (see_password r s).last
      ≡ (if names pw r then some (later (field "time" "" r) (get pw s.last)) else get pw s.last)
unfolding see_password see
last-see_password pw r s =
    let here = field "password" "" r in
    ground (arith, get-upsert pw here (later (field "time" "" r)) s.last, ==_iff pw here)

count-see_password :
    (pw : Str) (r : Rec) (s : Seen)
    → count_of pw (see_password r s).count ≡ count_of pw s.count + (if names pw r then 1 else 0)
unfolding see_password see
count-see_password pw r s = ground (arith, count_of-incr pw (field "password" "" r) s.count)

-- The order for the last one.
abbrev pub is_later : Str → Str → Bool
is_later a b = str_ltb b a

best-earlier :
    (b : Bool) (t : Str) (o : Option Str) (ts : List Str)
    → best str_ltb (if b then some (earlier t o) else o) ts
      ≡ best str_ltb o (if b then t ∷ ts else ts)
best-earlier true t none ts = refl
best-earlier true t (some old) ts = refl
best-earlier false t o ts = refl

best-later :
    (b : Bool) (t : Str) (o : Option Str) (ts : List Str)
    → best is_later (if b then some (later t o) else o) ts
      ≡ best is_later o (if b then t ∷ ts else ts)
best-later true t none ts = refl
best-later true t (some old) ts = refl
best-later false t o ts = refl

first-see_passwords :
    (pw : Str) (rs : List Rec) (s : Seen)
    → get pw (see_passwords s rs).first ≡ best str_ltb (get pw s.first) (times_of pw rs)
unfolding see_passwords
first-see_passwords pw [] s = refl
first-see_passwords pw (r ∷ rs) s =
    first-see_passwords pw rs (see_password r s)
    ∙ ap (λ o. best str_ltb o (times_of pw rs)) (first-see_password pw r s)
    ∙ best-earlier (names pw r) (field "time" "" r) (get pw s.first) (times_of pw rs)

last-see_passwords :
    (pw : Str) (rs : List Rec) (s : Seen)
    → get pw (see_passwords s rs).last ≡ best is_later (get pw s.last) (times_of pw rs)
unfolding see_passwords
last-see_passwords pw [] s = refl
last-see_passwords pw (r ∷ rs) s =
    last-see_passwords pw rs (see_password r s)
    ∙ ap (λ o. best is_later o (times_of pw rs)) (last-see_password pw r s)
    ∙ best-later (names pw r) (field "time" "" r) (get pw s.last) (times_of pw rs)

length-times_of :
    (pw : Str) (r : Rec) (rs : List Rec)
    → length (times_of pw (r ∷ rs)) ≡ (if names pw r then 1 else 0) + length (times_of pw rs)
length-times_of pw r rs = elim (Bool-cases (names pw r)) [
  | inl e ↦ rw e (omega arith)
  | inr e ↦ rw e (omega arith)
]

count-see_passwords :
    (pw : Str) (rs : List Rec) (s : Seen)
    → count_of pw (see_passwords s rs).count ≡ count_of pw s.count + length (times_of pw rs)
unfolding see_passwords
count-see_passwords pw [] s = omega arith
count-see_passwords pw (r ∷ rs) s =
    count-see_passwords pw rs (see_password r s)
    ∙ omega (arith, count-see_password pw r s, length-times_of pw r rs)

-- What is known of a password after the log, from the timestamps of its attempts.
pub record Known (pw : Str) (ts : List Str) (s : Seen) : Type 0 where
  pub first : (f : Str) × (get pw s.first ≡ some f) × IsBest str_ltb ts f
  pub last : (f : Str) × (get pw s.last ≡ some f) × IsBest is_later ts f
  pub count : count_of pw s.count ≡ length ts

later_trans : (a b c : Str) → is_later a b ≡ true → is_later b c ≡ true → is_later a c ≡ true
later_trans a b c h k = str_ltb_trans c b a k h

later-total : (a b : Str) → is_later a b ≡ false → leads is_later b a ≡ true
later-total a b h = ground (arith, str_ltb-total b a, ==_iff a b, ==_iff b a)

Known-times :
    (pw : Str) (rs : List Rec) (t : Str) (ts : List Str)
    → times_of pw rs ≡ t ∷ ts
    → Known pw (t ∷ ts) (see_passwords nothing_seen rs)
unfolding get
Known-times pw rs t ts p =
    let (f, q, first) = best-IsBest str_ltb str_ltb_trans str_ltb-total t ts in
    let (l, q', last) = best-IsBest is_later later_trans later-total t ts in
    record {
      first = (f, first-see_passwords pw rs nothing_seen ∙ ap (best str_ltb none) p ∙ q, first);
      last = (l, last-see_passwords pw rs nothing_seen ∙ ap (best is_later none) p ∙ q', last);
      count = count-see_passwords pw rs nothing_seen ∙ ap (λ xs. 0 + length xs) p ∙ omega arith;
    }

-- A password with timestamped attempts is listed with the least and the greatest of their timestamps,
-- each of which is one of them, and with their number. Any other password is not listed.
pub see_passwords-Known :
    (pw : Str) (rs : List Rec)
    → Known pw (times_of pw rs) (see_passwords nothing_seen rs)
      ⊎ ((times_of pw rs ≡ []) × (get pw (see_passwords nothing_seen rs).first ≡ none))
unfolding get
see_passwords-Known pw rs = elim (List-cases (times_of pw rs)) [
  | inl p ↦ inr (p, first-see_passwords pw rs nothing_seen ∙ ap (best str_ltb none) p)
  | inr (t, ts, p) ↦ inl (rw p (Known-times pw rs t ts p))
]
