-- ===== src/Fingerprint/Collapse.antt =====
-- The shape of a session without the loops over indices: each event that is shown has an entry, and
-- equal neighbours among the entries are one.
use ssh_honeypot.Base.{
  ℕ, zero, suc, ◌≤◌, ◌≡◌, refl, sym, ap, ◌∙◌, inl, inr, Bool, true, false, ◌&&◌, not,
}
use ssh_honeypot.Base.{
  Option, none, some, List, [], ◌∷◌, ◌++◌, arith, if◌then◌else◌, ltb, length, Bool-cases,
}
use ssh_honeypot.Base.{◌==◌, ==_iff, nat_eq, list_eq, option_eq, length-append}
use mathlib.Core.List.{append-nil}
use ssh_honeypot.Base.Text.{Str, Unicode, lit}
use ssh_honeypot.Log.{
  Rec, field, Kind, shell, exec, wget_fetch, curl_fetch, scp_receive, scp_file, scp_saved, kind,
}
use ssh_honeypot.Fingerprint.{norm_url, norm_cmd, rand_name}
use ssh_honeypot.Regex.{matches}
use ssh_honeypot.Fingerprint.Shape.{
  command_of, injects, target_of, span_run, Out, emit, inject_entry, inject_raw, emit_event, walk,
  last?, keep_new, collapse_onto, shape_and_raw,
}

last-snoc : (xs : List Str) (x : Str) → last? (xs ++ (x ∷ [])) ≡ some x
last-snoc [] x = refl
last-snoc (y ∷ []) x = refl
last-snoc (y ∷ z ∷ ys) x = last-snoc (z ∷ ys) x

last-keep_new : (kept : List Str) (x : Str) → last? (keep_new kept x) ≡ some x
last-keep_new kept x = elim (Bool-cases (last? kept == some x)) [
  | inl same ↦ rw same ((==_iff (last? kept) (some x)).0 same)
  | inr other ↦ rw other (last-snoc kept x)
]

keep_new_same : (kept : List Str) (x : Str) → last? kept ≡ some x → keep_new kept x ≡ kept
keep_new_same kept x h = rw ((==_iff (last? kept) (some x)).1 h)

collapse_onto-append :
    (kept xs ys : List Str)
    → collapse_onto kept (xs ++ ys) ≡ collapse_onto (collapse_onto kept xs) ys
unfolding collapse_onto
collapse_onto-append kept [] ys = refl
collapse_onto-append kept (x ∷ xs) ys = collapse_onto-append (keep_new kept x) xs ys

emit-collapse :
    (x y : Str) (o : Out)
    → collapse_onto [] (emit x y o).shape ≡ keep_new (collapse_onto [] o.shape) x
unfolding emit
emit-collapse x y o = collapse_onto-append [] o.shape (x ∷ []) ∙ (unfold collapse_onto in refl)

emit_bound : (x y : Str) (o : Out) → length o.raw ≤ 60 → length (emit x y o).raw ≤ 60
unfolding emit
emit_bound x y o h = elim (Bool-cases (ltb (length o.raw) 60)) [
  | inl room ↦ rw room (ground (arith, length-append o.raw (y ∷ [])))
  | inr full ↦ rw full h
]

-- No two neighbours are equal.
abbrev pub no_repeats : List Str → Bool
no_repeats [] = true
no_repeats (x ∷ []) = true
no_repeats (x ∷ y ∷ ys) = not (x == y) && no_repeats (y ∷ ys)

no_repeats-snoc :
    (xs : List Str) (x : Str)
    → no_repeats xs ≡ true
    → (last? xs == some x) ≡ false
    → no_repeats (xs ++ (x ∷ [])) ≡ true
no_repeats-snoc [] x h d = refl
no_repeats-snoc (y ∷ []) x h d = ground arith
no_repeats-snoc (y ∷ z ∷ ys) x h d = ground (arith, no_repeats-snoc (z ∷ ys) x)

no_repeats-collapse_onto :
    (kept xs : List Str) → no_repeats kept ≡ true → no_repeats (collapse_onto kept xs) ≡ true
unfolding collapse_onto
no_repeats-collapse_onto kept [] h = h
no_repeats-collapse_onto kept (x ∷ xs) h =
    no_repeats-collapse_onto (keep_new kept x) xs (elim (Bool-cases (last? kept == some x)) [
      | inl same ↦ rw same h
      | inr other ↦ rw other (no_repeats-snoc kept x h other)
    ])

module _ ⦃u : Unicode⦄ where
  -- The entry of an event that is no hex injection.
  unfoldable plain_entry : Kind → Rec → Option Str
  plain_entry shell e = some (norm_cmd (command_of e))
  plain_entry exec e = some (norm_cmd (command_of e))
  plain_entry wget_fetch e = some (lit "[wget -> " ++ norm_url (field "url" "?" e) ++ lit "]")
  plain_entry curl_fetch e = some (lit "[curl -> " ++ norm_url (field "url" "?" e) ++ lit "]")
  plain_entry scp_receive e = some (lit "[scp upload started]")
  plain_entry scp_file e =
      let name = field "name" "?" e in
      some (lit "[scp file: " ++ (if matches rand_name name then lit "<RAND>" else name) ++ lit "]")
  plain_entry scp_saved e = some (lit "[quarantined]")
  plain_entry _ e = none

  pub entry_of : Rec → Option Str
  entry_of e = if injects e then some (inject_entry (target_of e)) else plain_entry (kind e) e

  abbrev consider : Option Str → List Str → List Str
  consider none xs = xs
  consider (some x) xs = x ∷ xs

  pub entries : List Rec → List Str
  entries [] = []
  entries (e ∷ es) = consider (entry_of e) (entries es)

  entry_of_inject : (e : Rec) → injects e ≡ true → entry_of e ≡ some (inject_entry (target_of e))
  unfolding entry_of
  entry_of_inject e h = rw h

  entry_of_plain : (e : Rec) → injects e ≡ false → entry_of e ≡ plain_entry (kind e) e
  unfolding entry_of
  entry_of_plain e h = rw h

  entry_of_run :
      (t : Str) (e : Rec)
      → (injects e && target_of e == t) ≡ true
      → entry_of e ≡ some (inject_entry t)
  entry_of_run t e h = cc (same, entry_of_inject e (ground arith))
    where
      same : target_of e ≡ t
      same = ground arith

  -- The events of a run add nothing behind the entry of the run.
  span_run-entries :
      (t : Str) (es : List Rec) (kept : List Str)
      → last? kept ≡ some (inject_entry t)
      → collapse_onto kept (entries es) ≡ collapse_onto kept (entries (span_run t es).1)
  unfolding span_run entries collapse_onto
  span_run-entries t [] kept h = refl
  span_run-entries t (e ∷ es) kept h = elim (Bool-cases (injects e && target_of e == t)) [
    | inl run ↦
        rw (run, entry_of_run t e run)
          (ap (λ k. collapse_onto k (entries es)) (keep_new_same kept (inject_entry t) h)
            ∙ span_run-entries t es kept h)
    | inr stop ↦ rw stop
  ]

  pub length-span_run : (t : Str) (es : List Rec) → length (span_run t es).1 ≤ length es
  unfolding span_run
  length-span_run t [] = omega arith
  length-span_run t (e ∷ es) = ground (arith, length-span_run t es)

  shape-emit_event :
      (k : Kind) (e : Rec) (o : Out)
      → (emit_event k e o).shape ≡ o.shape ++ consider (plain_entry k e) []
  unfolding emit_event plain_entry emit
  shape-emit_event shell e o = refl
  shape-emit_event exec e o = refl
  shape-emit_event wget_fetch e o = refl
  shape-emit_event curl_fetch e o = refl
  shape-emit_event scp_receive e o = refl
  shape-emit_event scp_file e o = refl
  shape-emit_event scp_saved e o = refl
  shape-emit_event _ e o = sym (append-nil o.shape)

  collapse_onto-consider :
      (kept : List Str) (x : Option Str) (xs : List Str)
      → collapse_onto (collapse_onto kept (consider x [])) xs ≡ collapse_onto kept (consider x xs)
  unfolding collapse_onto
  collapse_onto-consider kept none xs = refl
  collapse_onto-consider kept (some x) xs = refl

  walk-collapse :
      (fuel : ℕ) (evs : List Rec) (o : Out)
      → length evs ≤ fuel
      → collapse_onto [] (walk fuel evs o).shape
        ≡ collapse_onto (collapse_onto [] o.shape) (entries evs)
  unfolding walk entries collapse_onto
  walk-collapse zero [] o h = refl
  walk-collapse zero (e ∷ es) o h = absurd (omega arith)
  walk-collapse (suc fuel) [] o h = refl
  walk-collapse (suc fuel) (e ∷ es) o h = elim (Bool-cases (injects e)) [
    | inl inject ↦
        let t = target_of e in
        let x = inject_entry t in
        rw (inject, entry_of_inject e inject, walk)
          (walk-collapse fuel (span_run t es).1 (emit x (inject_raw (suc (span_run t es).0) t) o)
              (omega (arith, length-span_run t es))
            ∙ ap (λ k. collapse_onto k (entries (span_run t es).1)) (emit-collapse x _ o)
            ∙ sym (
                span_run-entries t es (keep_new (collapse_onto [] o.shape) x)
                  (last-keep_new (collapse_onto [] o.shape) x)))
    | inr plain ↦
        rw (plain, entry_of_plain e plain, walk)
          (walk-collapse fuel es (emit_event (kind e) e o) (omega arith)
            ∙ rw (shape-emit_event, collapse_onto-append)
                (collapse_onto-consider (collapse_onto [] o.shape) (plain_entry (kind e) e)
                  (entries es)))
  ]

  -- For every session the shape is the entries of its events with equal neighbours merged, so that the
  -- number of chunks of an injection does not show, and no two neighbours in it are equal.
  pub shape-eq-collapse :
      (evs : List Rec)
      → ((shape_and_raw evs).shape ≡ collapse_onto [] (entries evs))
        × (no_repeats (shape_and_raw evs).shape ≡ true)
  unfolding shape_and_raw
  shape-eq-collapse evs = (
    walk-collapse (length evs) evs (record { shape = []; raw = [] }) (omega arith)
        ∙ (unfold collapse_onto in refl),
    no_repeats-collapse_onto [] _ refl,
  )

  emit_event_bound :
      (k : Kind) (e : Rec) (o : Out) → length o.raw ≤ 60 → length (emit_event k e o).raw ≤ 60
  unfolding emit_event
  emit_event_bound shell e o h = emit_bound _ _ o h
  emit_event_bound exec e o h = emit_bound _ _ o h
  emit_event_bound wget_fetch e o h = emit_bound _ _ o h
  emit_event_bound curl_fetch e o h = emit_bound _ _ o h
  emit_event_bound scp_receive e o h = emit_bound _ _ o h
  emit_event_bound scp_file e o h = emit_bound _ _ o h
  emit_event_bound scp_saved e o h = emit_bound _ _ o h
  emit_event_bound _ e o h = h

  walk_bound :
      (fuel : ℕ) (evs : List Rec) (o : Out) → length o.raw ≤ 60 → length (walk fuel evs o).raw ≤ 60
  unfolding walk
  walk_bound zero evs o h = h
  walk_bound (suc fuel) [] o h = h
  walk_bound (suc fuel) (e ∷ es) o h = elim (Bool-cases (injects e)) [
    | inl inject ↦
        rw (inject, walk) (walk_bound fuel (span_run (target_of e) es).1 _ (emit_bound _ _ o h))
    | inr plain ↦
        rw (plain, walk)
          (walk_bound fuel es (emit_event (kind e) e o) (emit_event_bound (kind e) e o h))
  ]

  -- At most 60 raw commands are kept.
  pub raw-le-60 : (evs : List Rec) → length (shape_and_raw evs).raw ≤ 60
  unfolding shape_and_raw
  raw-le-60 evs = walk_bound (length evs) evs (record { shape = []; raw = [] }) (omega arith)
