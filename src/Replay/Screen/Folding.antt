-- ===== src/Replay/Screen/Folding.antt =====
-- The folding of echo runs in analysis/replay.py.
use mathlib.Core.Path.{subst}
use ssh_honeypot.Base.{
  ℕ, zero, suc, ◌+◌, ◌≤◌, ◌≡◌, refl, ap, sym, ◌∙◌, Bool, true, false, ◌&&◌, List, [], ◌∷◌, inl, inr,
  arith,
}
use ssh_honeypot.Base.{
  if◌then◌else◌, leb, length, Bool-cases, ◌==◌, ==_iff, nat_eq, list_eq, sum_by,
}
use ssh_honeypot.Base.Text.{Str, lit}
use ssh_honeypot.Replay.Screen.{
  Item, log, typed, chunk, next_dir, Line, log_line, folded, chunk_line, typed_line, span_chunks,
  walk, lines_of,
}

-- The two branches for a chunk.
module _ (fold : Bool) (fuel : ℕ) (cwd target : Str) (n : ℕ) (items : List Item) where
  abbrev run_of : List ℕ
  run_of = (span_chunks target items).0

  pub walk-run :
      (fold && leb 5 (suc (length run_of))) ≡ true
      → walk fold (suc fuel) cwd (chunk target n ∷ items)
        ≡ folded (suc (length run_of)) target (n + sum_by (λ k. k) run_of)
          ∷ walk fold fuel cwd (span_chunks target items).1
  unfolding walk
  walk-run h = rw (h, walk) refl

  pub walk-one :
      (fold && leb 5 (suc (length run_of))) ≡ false
      → walk fold (suc fuel) cwd (chunk target n ∷ items)
        ≡ chunk_line cwd target n ∷ walk fold fuel cwd items
  unfolding walk
  walk-one h = rw (h, walk) refl

-- The chunks for a target and their bytes, in the entries and in the lines.
abbrev pub chunks_in : Str → List Item → ℕ
chunks_in t =
    sum_by (λ x. elim x [ log s ↦ 0 | typed b s ↦ 0 | chunk u n ↦ if u == t then 1 else 0 ])

abbrev pub bytes_in : Str → List Item → ℕ
bytes_in t =
    sum_by (λ x. elim x [ log s ↦ 0 | typed b s ↦ 0 | chunk u n ↦ if u == t then n else 0 ])

abbrev pub chunks_shown : Str → List Line → ℕ
chunks_shown t = sum_by (λ x. elim x [
  | log_line s ↦ 0
  | folded k u n ↦ if u == t then k else 0
  | chunk_line d u n ↦ if u == t then 1 else 0
  | typed_line d b s ↦ 0
])

abbrev pub bytes_shown : Str → List Line → ℕ
bytes_shown t = sum_by (λ x. elim x [
  | log_line s ↦ 0
  | folded k u n ↦ if u == t then n else 0
  | chunk_line d u n ↦ if u == t then n else 0
  | typed_line d b s ↦ 0
])

-- The log entries and the commands, in their order.
abbrev pub others_in : List Item → List Item
others_in [] = []
others_in (log s ∷ items) = log s ∷ others_in items
others_in (typed x s ∷ items) = typed x s ∷ others_in items
others_in (chunk t n ∷ items) = others_in items

abbrev pub others_shown : List Line → List Item
others_shown [] = []
others_shown (log_line s ∷ lines) = log s ∷ others_shown lines
others_shown (typed_line d x s ∷ lines) = typed x s ∷ others_shown lines
others_shown (folded k t n ∷ lines) = others_shown lines
others_shown (chunk_line d t n ∷ lines) = others_shown lines

-- The lines show every entry: of each target all chunks and all bytes, and the others in order.
pub record Shows (items : List Item) (lines : List Line) : Type 0 where
  pub chunks : (t : Str) → chunks_shown t lines ≡ chunks_in t items
  pub bytes : (t : Str) → bytes_shown t lines ≡ bytes_in t items
  pub others : others_shown lines ≡ others_in items

-- What a run takes from the front.
record Spanned (target : Str) (items : List Item) : Type 0 where
  run : List ℕ
  rest : List Item
  split : span_chunks target items ≡ (run, rest)
  shorter : length run + length rest ≡ length items
  same_others : others_in rest ≡ others_in items
  same_chunks :
      (t : Str) → chunks_in t items ≡ (if target == t then length run else 0) + chunks_in t rest
  same_bytes :
      (t : Str)
      → bytes_in t items ≡ (if target == t then sum_by (λ k. k) run else 0) + bytes_in t rest

stopped :
    (target : Str) (items : List Item)
    → span_chunks target items ≡ ([], items)
    → Spanned target items
stopped target items e = record {
  run = [];
  rest = items;
  split = e;
  shorter = omega arith;
  same_others = refl;
  same_chunks = λ t. ground arith;
  same_bytes = λ t. ground arith;
}

spanned : (target : Str) (items : List Item) → Spanned target items
unfolding span_chunks
spanned target [] = stopped target [] refl
spanned target (log s ∷ items) = stopped target (log s ∷ items) refl
spanned target (typed x s ∷ items) = stopped target (typed x s ∷ items) refl
spanned target (chunk u n ∷ items) =
    let more : Spanned target items = spanned target items in
    elim (Bool-cases (u == target)) [
      | inl e ↦ record {
        run = n ∷ more.run;
        rest = more.rest;
        split = rw (e, more.split) refl;
        shorter = omega (arith, more.shorter);
        same_others = more.same_others;
        same_chunks = λ t. ground (arith, more.same_chunks t, ==_iff u target);
        same_bytes = λ t. ground (arith, more.same_bytes t, ==_iff u target);
      }
      | inr e ↦ stopped target (chunk u n ∷ items) (rw e refl)
    ]

nothing-Shows : Shows [] []
nothing-Shows = record { chunks = λ t. refl; bytes = λ t. refl; others = refl }

run-Shows :
    (target : Str) (n : ℕ) (items : List Item) (s : Spanned target items) (lines : List Line)
    → Shows s.rest lines
    → Shows
        (chunk target n ∷ items)
        (folded (suc (length s.run)) target (n + sum_by (λ k. k) s.run) ∷ lines)
run-Shows target n items s lines h = record {
  chunks = λ t. ground (arith, s.same_chunks t, h.chunks t);
  bytes = λ t. ground (arith, s.same_bytes t, h.bytes t);
  others = h.others ∙ s.same_others;
}

walk-Shows :
    (fold : Bool) (fuel : ℕ) (cwd : Str) (items : List Item)
    → length items ≤ fuel
    → Shows items (walk fold fuel cwd items)
unfolding walk
walk-Shows fold zero cwd [] h = nothing-Shows
walk-Shows fold zero cwd (x ∷ items) h = absurd (omega arith)
walk-Shows fold (suc fuel) cwd [] h = nothing-Shows
walk-Shows fold (suc fuel) cwd (log s ∷ items) h =
    let rest : Shows items (walk fold fuel cwd items) =
      walk-Shows fold fuel cwd items (omega arith) in
    record {
      chunks = λ t. omega (arith, rest.chunks t);
      bytes = λ t. omega (arith, rest.bytes t);
      others = ap (◌∷◌ (log s)) rest.others;
    }
walk-Shows fold (suc fuel) cwd (typed x cmd ∷ items) h =
    let rest : Shows items (walk fold fuel (next_dir cwd cmd) items) =
      walk-Shows fold fuel (next_dir cwd cmd) items (omega arith) in
    record {
      chunks = λ t. omega (arith, rest.chunks t);
      bytes = λ t. omega (arith, rest.bytes t);
      others = ap (◌∷◌ (typed x cmd)) rest.others;
    }
walk-Shows fold (suc fuel) cwd (chunk target n ∷ items) h =
    let s : Spanned target items = spanned target items in
    let rest : Shows s.rest (walk fold fuel cwd s.rest) =
      walk-Shows fold fuel cwd s.rest (omega (arith, s.shorter)) in
    let next : Shows items (walk fold fuel cwd items) =
      walk-Shows fold fuel cwd items (omega arith) in
    elim (Bool-cases (fold && leb 5 (suc (length (span_chunks target items).0)))) [
      | inl e ↦
          subst (Shows (chunk target n ∷ items)) (sym (walk-run fold fuel cwd target n items e)) (
            subst
              (λ (p : List ℕ × List Item). Shows (chunk target n ∷ items) (
                folded (suc (length p.0)) target (n + sum_by (λ k. k) p.0)
                ∷ walk fold fuel cwd p.1))
              (sym s.split) (run-Shows target n items s (walk fold fuel cwd s.rest) rest))
      | inr e ↦
          subst (Shows (chunk target n ∷ items)) (sym (walk-one fold fuel cwd target n items e))
            (record {
              chunks = λ t. ap (λ k. (if target == t then 1 else 0) + k) (next.chunks t);
              bytes = λ t. ap (λ k. (if target == t then n else 0) + k) (next.bytes t);
              others = next.others;
            })
    ]

-- Folded or not, the lines of a session show all its entries: of each target the numbers of chunks and of
-- bytes add up to those of its echo chunks, and the log entries and commands are there in their order.
pub lines_of-Shows : (fold : Bool) (items : List Item) → Shows items (lines_of fold items)
unfolding lines_of
lines_of-Shows fold items = walk-Shows fold (length items) (lit "/root") items (omega arith)
