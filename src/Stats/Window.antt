-- ===== src/Stats/Window.antt =====
-- The counters of the sliding window of analysis/stats.py, against the events in the window.
use ssh_honeypot.Base.{
  ℕ, ◌+◌, ◌-◌, ◌≤◌, ◌≡◌, refl, inl, inr, false, Option, none, some, List, [], ◌∷◌, ◌++◌, arith,
}
use ssh_honeypot.Base.{
  if◌then◌else◌, ltb, length, count_by, count_by-append, ◌==◌, ==_iff, ==_refl, nat_eq, list_eq,
  Bool-cases, Option-cases, if_both,
}
use ssh_honeypot.Base.Dict.{
  Dict, get, upsert, remove, incr, bump, count_of, get-upsert, count_of-incr,
}
use ssh_honeypot.Base.Text.{Str}
use ssh_honeypot.Stats.Sprays.{
  Event, Window, window_secs, lower, uncount, shrink, slide, slide_all, spray_of,
}

-- The keys are distinct and their counts positive.
abbrev pub Proper : Dict Str ℕ → Type 0
Proper [] = Unit
Proper ((k, n) ∷ d) = (get k d ≡ none) × ((1 ≤ n) × Proper d)

get_other :
    (j k : Str) (f : Option ℕ → ℕ) (d : Dict Str ℕ)
    → (k == j) ≡ false
    → get j d ≡ none
    → get j (upsert k f d) ≡ none
get_other j k f d e h = ground (arith, get-upsert j k f d, ==_iff j k, ==_iff k j)

upsert-Proper :
    (k : Str) (f : Option ℕ → ℕ) (d : Dict Str ℕ)
    → 1 ≤ f (get k d)
    → Proper d
    → Proper (upsert k f d)
unfolding get upsert
upsert-Proper k f [] new h = (refl, (new, tt))
upsert-Proper k f ((j, n) ∷ d) new (fresh, (pos, h)) = elim (Bool-cases (k == j)) [
  | inl e ↦ rw e (fresh, (rw e at new, h))
  | inr e ↦ rw e (get_other j k f d e fresh, (pos, upsert-Proper k f d (rw e at new) h))
]

get-remove :
    (j k : Str) (d : Dict Str ℕ)
    → Proper d
    → get j (remove k d) ≡ (if j == k then none else get j d)
unfolding get remove
get-remove j k [] h = ground arith
get-remove j k ((i, n) ∷ d) (fresh, (pos, h)) =
    ground (arith, get-remove j k d h, ==_iff j k, ==_iff k i, ==_iff j i)

remove-Proper : (k : Str) (d : Dict Str ℕ) → Proper d → Proper (remove k d)
unfolding remove
remove-Proper k [] h = tt
remove-Proper k ((j, n) ∷ d) (fresh, (pos, h)) = elim (Bool-cases (k == j)) [
  | inl e ↦ rw e h
  | inr e ↦ rw e (ground (arith, get-remove j k d h), (pos, remove-Proper k d h))
]

lower-Proper : (ip : Str) (o : Option ℕ) (d : Dict Str ℕ) → Proper d → Proper (lower ip o d)
unfolding lower
lower-Proper ip none d h = h
lower-Proper ip (some n) d h = elim (Bool-cases (n - 1 == 0)) [
  | inl e ↦ rw e (remove-Proper ip d h)
  | inr e ↦ rw e (upsert-Proper ip (λ _. n - 1) d (ground arith) h)
]

count_of-uncount :
    (j ip : Str) (d : Dict Str ℕ)
    → Proper d
    → 1 ≤ count_of ip d
    → count_of j (uncount ip d) + (if j == ip then 1 else 0) ≡ count_of j d
unfolding uncount lower
count_of-uncount j ip d h pos = elim (Option-cases (get ip d)) [
  | inl p ↦ ground arith
  | inr (n, p) ↦ rw p (elim (Bool-cases (n - 1 == 0)) [
    | inl e ↦ rw e (ground (arith, get-remove j ip d h, ==_iff j ip))
    | inr e ↦ rw e (ground (arith, get-upsert j ip (λ _. n - 1) d, ==_iff j ip))
  ])
]

-- How often an address is in a window.
abbrev pub times_in : Str → List Event → ℕ
times_in j = count_by (λ e. j == e.1)

-- The counters are those of the window.
pub record IsCensus (w : List Event) (d : Dict Str ℕ) : Type 0 where
  pub proper : Proper d
  pub counts : (j : Str) → count_of j d ≡ times_in j w

uncount-IsCensus :
    (e : Event) (es : List Event) (d : Dict Str ℕ)
    → IsCensus (e ∷ es) d
    → IsCensus es (uncount e.1 d)
unfolding uncount
uncount-IsCensus e es d h =
    let here : 1 ≤ count_of e.1 d = rw (h.counts e.1, ==_refl e.1) (omega arith) in
    record {
      proper = lower-Proper e.1 (get e.1 d) d h.proper;
      counts = λ j. omega (arith, count_of-uncount j e.1 d h.proper here, h.counts j);
    }

shrink-IsCensus :
    (epoch : ℕ) (es : List Event) (d : Dict Str ℕ)
    → IsCensus es d
    → IsCensus (shrink epoch es d).0 (shrink epoch es d).1
unfolding shrink
shrink-IsCensus epoch [] d h = h
shrink-IsCensus epoch (e ∷ es) d h =
    if_both (λ (p : List Event × Dict Str ℕ). IsCensus p.0 p.1) (ltb window_secs (epoch - e.0))
      (shrink-IsCensus epoch es (uncount e.1 d) (uncount-IsCensus e es d h)) h

one-le-bump : (o : Option ℕ) → 1 ≤ bump o
one-le-bump none = omega arith
one-le-bump (some n) = omega arith

incr-IsCensus :
    (e : Event) (es : List Event) (d : Dict Str ℕ)
    → IsCensus es d
    → IsCensus (es ++ (e ∷ [])) (incr e.1 d)
incr-IsCensus e es d h = record {
  proper = upsert-Proper e.1 bump d (one-le-bump (get e.1 d)) h.proper;
  counts = λ j. omega (
    arith,
    count_of-incr j e.1 d,
    h.counts j,
    count_by-append (λ (x : Event). j == x.1) es (e ∷ []),
  );
}

-- The window of a state is counted right, and its number of addresses is at most the best one.
pub record IsTrue (w : Window) : Type 0 where
  pub census : IsCensus w.window w.ip_counts
  pub best : length w.ip_counts ≤ w.best_n

slide-IsTrue : (e : Event) (w : Window) → IsTrue w → IsTrue (slide e w)
unfolding slide
slide-IsTrue e w h = record {
  census =
      shrink-IsCensus e.0 (w.window ++ (e ∷ [])) (incr e.1 w.ip_counts)
        (incr-IsCensus e w.window w.ip_counts h.census);
  best = ground arith;
}

slide_all-IsTrue : (es : List Event) (w : Window) → IsTrue w → IsTrue (slide_all w es)
unfolding slide_all
slide_all-IsTrue [] w h = h
slide_all-IsTrue (e ∷ es) w h = slide_all-IsTrue es (slide e w) (slide-IsTrue e w h)

-- After any events the counters hold each address of the window once, with the number of times that it
-- is in the window, and the best number is at least that of the addresses in the window.
pub spray_of-IsTrue : (es : List Event) → IsTrue (spray_of es)
unfolding spray_of get
spray_of-IsTrue es =
    slide_all-IsTrue es (record { window = []; ip_counts = []; best_n = 0; best_span = 0 })
      (record { census = record { proper = tt; counts = λ j. refl }; best = omega arith })
