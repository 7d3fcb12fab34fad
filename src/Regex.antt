-- ===== src/Regex.antt =====
-- The part of Python's `re` that analysis/*.py uses: a backtracking matcher that lists the ways to
-- match in the order of preference, and `search`, `match`, `sub` and the length of `findall`.
use ssh_honeypot.Base.{ℕ, zero, suc, ◌-◌, Bool, true, false, not, ◌||◌, Option, none, some}
use ssh_honeypot.Base.{List, [], ◌∷◌, ◌++◌, length, take, map, ltb, if◌then◌else◌, ◌==◌, nat_eq}
use ssh_honeypot.Base.{select, member, list_eq}
use ssh_honeypot.Base.Text.{Str, lit, in_range, is_space}

pub data Re : Type 0 where
  eps : Re
  chr : (ℕ → Bool) → Re
  seq alt : Re → Re → Re
  star : Re → Re
  group : Re → Re
  line_start line_end : Re
  bound : (ℕ → Bool) → Re

-- A position in the text: what lies before it, last character first, what follows, and group 1.
pub record Place : Type 0 where
  pub before : Str
  pub rest : Str
  pub captured : Option Str

abbrev pub at_start : Str → Place
at_start s = record { before = []; rest = s; captured = none }

unfoldable pub flat_map {ℓ} : {A B : Type ℓ} → (A → List B) → List A → List B
flat_map f [] = []
flat_map f (x ∷ xs) = f x ++ flat_map f xs

-- The text between two positions.
abbrev pub consumed : Place → Place → Str
consumed p q = take (length p.rest - length q.rest) p.rest

-- One character that passes the test.
unfoldable pub step_chr : (ℕ → Bool) → Place → Str → List Place
step_chr ok p [] = []
step_chr ok p (c ∷ s) = if ok c then record p { before = c ∷ p.before; rest = s } ∷ [] else []

abbrev head_is : (ℕ → Bool) → Str → Bool
head_is w [] = false
head_is w (c ∷ s) = w c

-- `\b`: exactly one of the two neighbours is a word character.
unfoldable pub at_bound : (ℕ → Bool) → Place → Bool
at_bound w p = if head_is w p.before then not (head_is w p.rest) else head_is w p.rest

abbrev pub when : Bool → Place → List Place
when b p = if b then p ∷ [] else []

abbrev pub capture : Place → Place → Place
capture p q = record q { captured = some (consumed p q) }

-- Greedy repetition. A round that consumes nothing is not repeated, so that as many rounds as
-- there are characters are enough.
unfoldable pub repeat : ℕ → (Place → List Place) → Place → List Place
repeat zero step p = p ∷ []
repeat (suc fuel) step p =
    flat_map (repeat fuel step) (select (λ q. ltb (length q.rest) (length p.rest)) (step p))
    ++ (p ∷ [])

-- All ways to match at a position, the preferred one first.
unfoldable pub run : Re → Place → List Place
run eps p = p ∷ []
run (chr ok) p = step_chr ok p p.rest
run (seq a b) p = flat_map (run b) (run a p)
run (alt a b) p = run a p ++ run b p
run (star a) p = repeat (length p.rest) (run a) p
run (group a) p = map (capture p) (run a p)
run line_start p = when (p.before == []) p
run line_end p = when (p.rest == [] || p.rest == (10 ∷ [])) p
run (bound w) p = when (at_bound w p) p

abbrev pub first {ℓ} : {A : Type ℓ} → List A → Option A
first [] = none
first (x ∷ xs) = some x

-- `re.match`
unfoldable pub match_at : Re → Place → Option Place
match_at r p = first (run r p)

abbrev pub is_some {ℓ} : {A : Type ℓ} → Option A → Bool
is_some none = false
is_some (some a) = true

unfoldable pub matches : Re → Str → Bool
matches r s = is_some (match_at r (at_start s))

unfoldable pub search_from : Re → Str → Str → Option Place
search_from r before [] = match_at r (record { before = before; rest = []; captured = none })
search_from r before (c ∷ s) =
    let next = search_from r (c ∷ before) s in
    elim (match_at r (record { before = before; rest = c ∷ s; captured = none })) [
      | none ↦ next
      | some q ↦ some q
    ]

-- `re.search`
unfoldable pub search_re : Re → Str → Option Place
search_re r s = search_from r [] s

-- `bool(r.search(s))`
unfoldable pub found : Re → Str → Bool
found r s = is_some (search_re r s)

-- `m.group(1)`, with what the code uses where nothing matched.
unfoldable pub group_or : Str → Option Place → Str
group_or default none = default
group_or default (some q) = elim q.captured [ none ↦ default | some s ↦ s ]

-- The scan of `sub` and `findall`, over patterns that match no empty text: the pieces between the
-- matches are single characters, a match is given with its place.
unfoldable pub scan {ℓ} : {A : Type ℓ} → (ℕ → A) → (Place → A) → Re → ℕ → Place → List A
scan keep hit r zero p = []
scan keep hit r (suc fuel) p = elim p.rest [
  | [] ↦ []
  | c ∷ s ↦
      let here : Place = record { before = p.before; rest = c ∷ s; captured = none } in
      let skip =
        keep c
        ∷ scan keep hit r fuel (record { before = c ∷ p.before; rest = s; captured = none }) in
      elim (match_at r here) [
        | none ↦ skip
        | some q ↦
            let rest = hit q ∷ scan keep hit r fuel q in
            if ltb (length q.rest) (length (c ∷ s)) then rest else skip
      ]
]

unfoldable pub concat : List Str → Str
concat [] = []
concat (x ∷ xs) = x ++ concat xs

-- `r.sub(replacement, s)`
unfoldable pub sub : Re → (Place → Str) → Str → Str
sub r replacement s = concat (scan (λ c. c ∷ []) replacement r (length s) (at_start s))

-- `len(r.findall(s))`
unfoldable pub count_matches : Re → Str → ℕ
count_matches r s =
    length (select (λ b. b) (scan (λ _. false) (λ _. true) r (length s) (at_start s)))

-- Notation for patterns.
infixr 60 ◌·◌
abbrev pub ◌·◌ : Re → Re → Re
a · b = seq a b

abbrev pub plus : Re → Re
plus r = r · star r

abbrev pub opt : Re → Re
opt r = alt r eps

-- `r{n}`, `r{lo,lo+more}` and `r{n,}`
abbrev pub times : ℕ → Re → Re
times zero r = eps
times (suc n) r = r · times n r

abbrev pub up_to : ℕ → Re → Re
up_to zero r = eps
up_to (suc n) r = opt (r · up_to n r)

abbrev pub at_least : ℕ → Re → Re
at_least n r = times n r · star r

-- A literal text, and one of its characters.
unfoldable pub text : Str → Re
text [] = eps
text (c ∷ s) = chr (λ d. d == c) · text s

unfoldable pub one_of : Str → Re
one_of cs = chr (λ c. member c cs)

abbrev pub space : Re
space = chr is_space

abbrev pub non_space : Re
non_space = chr (λ c. not (is_space c))

-- `[a-zA-Z]`, `[0-9a-fA-F]`, `[a-zA-Z0-9]`
abbrev pub letter : ℕ → Bool
letter c = in_range 97 122 c || in_range 65 90 c

abbrev pub hex_digit : ℕ → Bool
hex_digit c = in_range 48 57 c || in_range 97 102 c || in_range 65 70 c

abbrev pub letter_or_digit : ℕ → Bool
letter_or_digit c = letter c || in_range 48 57 c

-- `\\x[0-9a-fA-F]{2}`
unfoldable pub hex_byte : Re
hex_byte = text (lit "\\x") · times 2 (chr hex_digit)
