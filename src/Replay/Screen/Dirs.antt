-- ===== src/Replay/Screen/Dirs.antt =====
-- The working directory in the prompts of analysis/replay.py.
use ssh_honeypot.Base.{
  ℕ, zero, suc, ◌≡◌, refl, Bool, true, ◌&&◌, List, [], ◌∷◌, ◌++◌, inl, inr, arith,
}
use mathlib.Core.List.{reverse, reverse-append, reverse-cons}
use mathlib.Core.Path.{subst}
use ssh_honeypot.Replay.Screen.Folding.{walk-run, walk-one}
use ssh_honeypot.Base.{
  sym, ◌⊎◌, ap, ◌∙◌, ==_iff, All, if_both, leb, length, Bool-cases, ◌==◌, nat_eq, list_eq,
}
use ssh_honeypot.Base.Text.{Str, lit, starts_with, rstrip_char, drop_while}
use ssh_honeypot.Regex.{matches}
use ssh_honeypot.Replay.Screen.{
  Item, log, typed, chunk, cd_re, second_word, change_dir, next_dir, or_root, Line, log_line,
  folded, chunk_line, typed_line, span_chunks, walk, lines_of,
}

abbrev pub IsAbsolute : Str → Type 0
IsAbsolute [] = ⊥
IsAbsolute (c ∷ s) = c ≡ 47

-- The directory in a line's prompt begins with a slash.
abbrev pub InAbsolute : Line → Type 0
InAbsolute (log_line s) = Unit
InAbsolute (folded n t b) = Unit
InAbsolute (chunk_line cwd t n) = IsAbsolute cwd
InAbsolute (typed_line cwd x s) = IsAbsolute cwd

drop_while-last :
    (p : ℕ → Bool) (xs : Str) (c : ℕ)
    → (drop_while p (xs ++ (c ∷ [])) ≡ [])
      ⊎ ((ys : Str) × (drop_while p (xs ++ (c ∷ [])) ≡ ys ++ (c ∷ [])))
unfolding drop_while
drop_while-last p [] c = elim (Bool-cases (p c)) [
  | inl e ↦ inl (rw e refl)
  | inr e ↦ inr ([], rw e refl)
]
drop_while-last p (x ∷ xs) c =
    let rest : (drop_while p (xs ++ (c ∷ [])) ≡ [])
        ⊎ ((ys : Str) × (drop_while p (xs ++ (c ∷ [])) ≡ ys ++ (c ∷ []))) =
      drop_while-last p xs c in
    elim (Bool-cases (p x)) [ inl e ↦ rw e rest | inr e ↦ inr (x ∷ xs, rw e refl) ]

-- Stripped at its end, a text is empty or begins as before.
abbrev Begins : ℕ → Str → Type 0
Begins c t = (t ≡ []) ⊎ ((ys : Str) × (t ≡ c ∷ ys))

reverse-Begins :
    (c : ℕ) (t : Str) → (t ≡ []) ⊎ ((ys : Str) × (t ≡ ys ++ (c ∷ []))) → Begins c (reverse t)
reverse-Begins c t (inl e) = inl (ap reverse e)
reverse-Begins c t (inr (ys, e)) = inr (reverse ys, ap reverse e ∙ reverse-append ys (c ∷ []))

rstrip_char-Begins : (d c : ℕ) (s : Str) → Begins c (rstrip_char d (c ∷ s))
unfolding rstrip_char
rstrip_char-Begins d c s = rw (reverse-cons c s) (
    reverse-Begins c (drop_while (λ k. k == d) (reverse s ++ (c ∷ [])))
      (drop_while-last (λ k. k == d) (reverse s) c))

join-IsAbsolute : (t dest : Str) → Begins 47 t → IsAbsolute (t ++ lit "/" ++ dest)
unfolding lit
join-IsAbsolute t dest (inl e) = rw e refl
join-IsAbsolute t dest (inr (ys, e)) = rw e refl

or_root-IsAbsolute : (t : Str) → Begins 47 t → IsAbsolute (or_root t)
unfolding lit
or_root-IsAbsolute t (inl e) = rw e refl
or_root-IsAbsolute t (inr (ys, e)) = rw e refl

starts_with-IsAbsolute : (s : Str) → starts_with s (lit "/") ≡ true → IsAbsolute s
unfolding lit starts_with
starts_with-IsAbsolute [] h = cc
starts_with-IsAbsolute (c ∷ s) h = ground (arith, ==_iff c 47)

stripped : (s : Str) → IsAbsolute s → Begins 47 (rstrip_char 47 s)
stripped [] h = elim h [ ]
stripped (c ∷ s) h = rw h (rstrip_char-Begins 47 47 s)

change_dir-IsAbsolute : (cwd dest : Str) → IsAbsolute cwd → IsAbsolute (change_dir cwd dest)
unfolding change_dir lit
change_dir-IsAbsolute cwd dest h = elim (Bool-cases (starts_with dest (lit "/"))) [
  | inl e ↦
      rw e
        (or_root-IsAbsolute (rstrip_char 47 dest) (stripped dest (starts_with-IsAbsolute dest e)))
  | inr e ↦ rw e (
      if_both IsAbsolute (dest == lit "~") refl
        (join-IsAbsolute (rstrip_char 47 cwd) dest (stripped cwd h)))
]

next_dir-IsAbsolute : (cwd cmd : Str) → IsAbsolute cwd → IsAbsolute (next_dir cwd cmd)
unfolding next_dir
next_dir-IsAbsolute cwd cmd h =
    if_both IsAbsolute (matches cd_re cmd) (change_dir-IsAbsolute cwd (second_word cmd) h) h

walk-InAbsolute :
    (fold : Bool) (fuel : ℕ) (cwd : Str) (items : List Item)
    → IsAbsolute cwd
    → All InAbsolute (walk fold fuel cwd items)
unfolding walk
walk-InAbsolute fold zero cwd items h = tt
walk-InAbsolute fold (suc fuel) cwd [] h = tt
walk-InAbsolute fold (suc fuel) cwd (log s ∷ items) h = (tt, walk-InAbsolute fold fuel cwd items h)
walk-InAbsolute fold (suc fuel) cwd (typed x cmd ∷ items) h =
    let here : IsAbsolute (next_dir cwd cmd) = next_dir-IsAbsolute cwd cmd h in
    (here, walk-InAbsolute fold fuel (next_dir cwd cmd) items here)
walk-InAbsolute fold (suc fuel) cwd (chunk t n ∷ items) h =
    let later : All InAbsolute (walk fold fuel cwd (span_chunks t items).1) =
      walk-InAbsolute fold fuel cwd (span_chunks t items).1 h in
    let next : All InAbsolute (walk fold fuel cwd items) = walk-InAbsolute fold fuel cwd items h in
    elim (Bool-cases (fold && leb 5 (suc (length (span_chunks t items).0)))) [
      | inl e ↦ subst (All InAbsolute) (sym (walk-run fold fuel cwd t n items e)) (tt, later)
      | inr e ↦ subst (All InAbsolute) (sym (walk-one fold fuel cwd t n items e)) (h, next)
    ]

-- In every prompt that is printed the working directory begins with a slash.
pub lines_of-InAbsolute : (fold : Bool) (items : List Item) → All InAbsolute (lines_of fold items)
unfolding lines_of lit
lines_of-InAbsolute fold items = walk-InAbsolute fold (length items) (lit "/root") items refl
