-- ===== src/Extract/Best.antt =====
-- The session that analysis/extract_all_binaries.py saves for a target.
use ssh_honeypot.Base.{◌≤◌, ◌≡◌, refl, inl, inr, Bool, true, some, List, [], ◌∷◌, arith}
use ssh_honeypot.Base.{false, sym, ◌∙◌, nat_eq, list_eq, pair_eq}
use ssh_honeypot.Base.{All, any, ltb, select, Bool-cases, if_both, List-cases}
use mathlib.Core.Option.{some-injective}
use mathlib.Core.Path.{subst}
use ssh_honeypot.Base.Members.{IsIn, All-IsIn}
use ssh_honeypot.Base.Text.{Str}
use ssh_honeypot.Extract.{Bytes}
use ssh_honeypot.Extract.All.{
  Sessions, is_elf, elf_sessions, or_all, pool, size_of, larger, largest_onto, largest, best,
}

abbrev pub elf : Str × List Bytes → Bool
elf s = is_elf s.1

-- What the chosen session has: the largest size among a list, and a property all of them have.
abbrev pub Tops : Str × List Bytes → Sessions → Type 0
Tops b = All (λ s. size_of s ≤ size_of b)

larger_lem :
    (b s : Str × List Bytes)
    → (size_of b ≤ size_of (larger b s)) × (size_of s ≤ size_of (larger b s))
unfolding larger
larger_lem b s = ground arith

largest_onto-Tops :
    (b : Str × List Bytes) (ss : Sessions)
    → (size_of b ≤ size_of (largest_onto b ss)) × Tops (largest_onto b ss) ss
unfolding largest_onto
largest_onto-Tops b [] = (omega arith, tt)
largest_onto-Tops b (s ∷ ss) =
    let (le, tops) = largest_onto-Tops (larger b s) ss in
    let (old, new) = larger_lem b s in (omega (arith, le, old), (omega (arith, le, new), tops))

-- What holds of all that are compared holds of the one that is chosen.
largest_onto-All :
    (P : Str × List Bytes → Type 0) (b : Str × List Bytes) (ss : Sessions)
    → P b
    → All P ss
    → P (largest_onto b ss)
unfolding largest_onto larger
largest_onto-All P b [] h hs = h
largest_onto-All P b (s ∷ ss) h (hs, hss) =
    largest_onto-All P (larger b s) ss (if_both P (ltb (size_of b) (size_of s)) hs h) hss

-- What holds of all sessions holds of the ELF files among them, which are ELF files.
select-All :
    (P : Str × List Bytes → Type 0) (ss : Sessions)
    → All P ss
    → All (λ s. P s × (elf s ≡ true)) (select elf ss)
select-All P [] h = tt
select-All P (s ∷ ss) (h, hs) = elim (Bool-cases (elf s)) [
  | inl yes_elf ↦ rw yes_elf ((h, yes_elf), select-All P ss hs)
  | inr no_elf ↦ rw no_elf (select-All P ss hs)
]

All-select :
    (P : Str × List Bytes → Type 0) (ss : Sessions)
    → All P (select elf ss)
    → All (λ s. elf s ≡ true → P s) ss
All-select P [] h = tt
All-select P (s ∷ ss) h = elim (Bool-cases (elf s)) [
  | inl yes_elf ↦ let (here, rest) = rw yes_elf at h in ((λ _. here), All-select P ss rest)
  | inr no_elf ↦ ((λ yes_elf. cc), All-select P ss (rw no_elf at h))
]

select_none :
    (ss : Sessions) → select elf ss ≡ [] → (any elf ss ≡ false) × All (λ s. elf s ≡ false) ss
select_none [] e = (refl, tt)
select_none (s ∷ ss) e = elim (Bool-cases (elf s)) [
  | inl yes_elf ↦ let lost : s ∷ select elf ss ≡ [] = rw yes_elf at e in cc
  | inr no_elf ↦
      let (none_is, all_not) = select_none ss (rw no_elf at e) in
      (rw no_elf none_is, (no_elf, all_not))
]

select_some :
    (ss : Sessions) (f : Str × List Bytes) (fs : Sessions)
    → select elf ss ≡ f ∷ fs
    → any elf ss ≡ true
select_some [] f fs e = cc
select_some (s ∷ ss) f fs e = elim (Bool-cases (elf s)) [
  | inl yes_elf ↦ rw yes_elf refl
  | inr no_elf ↦ rw no_elf (select_some ss f fs (rw no_elf at e))
]

weaken :
    (b : Str × List Bytes) (ss : Sessions)
    → Tops b ss
    → All (λ s. elf s ≡ elf b → size_of s ≤ size_of b) ss
weaken b [] h = tt
weaken b (s ∷ ss) (h, hs) = ((λ _. h), weaken b ss hs)

like :
    (b : Str × List Bytes)
    → elf b ≡ true
    → (ss : Sessions) → All (λ s. elf s ≡ true → size_of s ≤ size_of b) ss
    → All (λ s. elf s ≡ elf b → size_of s ≤ size_of b) ss
like b is_elf_file [] h = tt
like b is_elf_file (s ∷ ss) (h, hs) = ((λ same. h (same ∙ is_elf_file)), like b is_elf_file ss hs)

-- The session `b` is one of the target's, it is an ELF file exactly where one of them is, and it is as
-- large as any of them that is an ELF file like it, or none like it.
pub record IsBest (ss : Sessions) (b : Str × List Bytes) : Type 0 where
  pub saved : IsIn ss b
  pub elf_first : elf b ≡ any elf ss
  pub tops : All (λ s. elf s ≡ elf b → size_of s ≤ size_of b) ss

largest-IsBest_none :
    (ss : Sessions) (b : Str × List Bytes) → select elf ss ≡ [] → largest ss ≡ some b → IsBest ss b
unfolding largest
largest-IsBest_none [] b e h = cc
largest-IsBest_none (s ∷ ss) b e h =
    let (none_is, all_not) = select_none (s ∷ ss) e in
    subst (IsBest (s ∷ ss)) (some-injective _ _ h) (record {
      saved = largest_onto-All (IsIn (s ∷ ss)) s ss (All-IsIn (s ∷ ss)).0 (All-IsIn (s ∷ ss)).1;
      elf_first = largest_onto-All (λ x. elf x ≡ false) s ss all_not.0 all_not.1 ∙ sym none_is;
      tops = weaken (largest_onto s ss) (s ∷ ss) (largest_onto-Tops s ss);
    })

largest-IsBest_some :
    (ss : Sessions) (f : Str × List Bytes) (fs : Sessions) (b : Str × List Bytes)
    → select elf ss ≡ f ∷ fs
    → largest (f ∷ fs) ≡ some b
    → IsBest ss b
unfolding largest
largest-IsBest_some ss f fs b e h =
    let P : Str × List Bytes → Type 0 = λ s. IsIn ss s × (elf s ≡ true) in
    let (hf, hfs) = subst (All P) e (select-All (IsIn ss) ss (All-IsIn ss)) in
    let (inside, is_elf_file) = largest_onto-All P f fs hf hfs in
    let c : Str × List Bytes = largest_onto f fs in
    subst (IsBest ss) (some-injective _ _ h) (record {
      saved = inside;
      elf_first = is_elf_file ∙ sym (select_some ss f fs e);
      tops = like c is_elf_file ss (
          All-select (λ s. size_of s ≤ size_of c) ss
            (subst (Tops c) (sym e) (largest_onto-Tops f fs)));
    })

best_lem : (ss : Sessions) (b : Str × List Bytes) → best ss ≡ some b → IsBest ss b
unfolding best pool elf_sessions or_all
best_lem ss b h = elim (List-cases (select elf ss)) [
  | inl e ↦ largest-IsBest_none ss b e (rw e at h)
  | inr (f, fs, e) ↦ largest-IsBest_some ss f fs b e (rw e at h)
]

best_exists :
    (s : Str × List Bytes) (ss : Sessions) → (b : Str × List Bytes) × (best (s ∷ ss) ≡ some b)
unfolding best pool or_all largest
best_exists s ss = elim (List-cases (elf_sessions (s ∷ ss))) [
  | inl p ↦ rw p (largest_onto s ss, refl)
  | inr (f, fs, p) ↦ rw p (largest_onto f fs, refl)
]

pub best-IsBest :
    (s : Str × List Bytes) (ss : Sessions)
    → (b : Str × List Bytes) × (best (s ∷ ss) ≡ some b) × IsBest (s ∷ ss) b
best-IsBest s ss = let (b, p) = best_exists s ss in (b, p, best_lem (s ∷ ss) b p)
