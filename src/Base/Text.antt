-- ===== src/Base/Text.antt =====
-- Python's `str` as its list of code points, with the methods that the scripts use.
use Prim.Native.Nat.{ℕ, zero, suc, ◌+◌, ◌-◌, ◌/◌, ◌%◌}
use Prim.Native.Char.{code}
use Prim.Native.String.{String}
use mathlib.Core.Bool.{Bool, true, false, ◌&&◌, ◌||◌, not}
use mathlib.Core.Option.{Option, none, some}
use mathlib.Core.List.{List, [], ◌∷◌, ◌++◌, reverse}
use ssh_honeypot.Base.Tests.{ltb, leb, if◌then◌else◌}
use ssh_honeypot.Base.Lists.{length, replicate}
use ssh_honeypot.Base.Equality.{◌==◌, nat_eq, list_eq}

abbrev pub Str : Type 0
Str = List ℕ

-- A literal. Shut, so that the literals in a definition stay short in proofs.
unfoldable pub lit : String → Str
lit String.[] = []
lit (String.◌∷◌ c s) = code c ∷ lit s

-- The predicates on characters that depend on the Unicode database: `re`'s `\d` and `\w`, and the
-- methods `isdigit`, `islower`, `isupper`, `isalnum`.
pub record Unicode : Type 0 where
  pub decimal : ℕ → Bool
  pub word : ℕ → Bool
  pub digit : ℕ → Bool
  pub lower : ℕ → Bool
  pub upper : ℕ → Bool
  pub alnum : ℕ → Bool

abbrev pub in_range : ℕ → ℕ → ℕ → Bool
in_range lo hi c = leb lo c && leb c hi

-- `str.isspace` of one character, which is `\s` of `re` too.
unfoldable pub is_space : ℕ → Bool
is_space c =
    in_range 9 13 c
    || in_range 28 32 c
    || c == 133
    || c == 160
    || c == 5760
    || in_range 8192 8202 c
    || c == 8232
    || c == 8233
    || c == 8239
    || c == 8287
    || c == 12288

unfoldable pub drop_while : (ℕ → Bool) → Str → Str
drop_while p [] = []
drop_while p (c ∷ s) = let rest = drop_while p s in if p c then rest else c ∷ s

unfoldable pub take_while : (ℕ → Bool) → Str → Str
take_while p [] = []
take_while p (c ∷ s) = let rest = take_while p s in if p c then c ∷ rest else []

unfoldable pub lstrip : Str → Str
lstrip = drop_while is_space

unfoldable pub rstrip : Str → Str
rstrip s = reverse (drop_while is_space (reverse s))

-- `s.strip()`
unfoldable pub strip : Str → Str
strip s = rstrip (lstrip s)

-- `s.startswith(p)`
unfoldable pub starts_with : Str → Str → Bool
starts_with s [] = true
starts_with [] (c ∷ p) = false
starts_with (d ∷ s) (c ∷ p) = d == c && starts_with s p

-- `s.endswith(p)`
unfoldable pub ends_with : Str → Str → Bool
ends_with s p = starts_with (reverse s) (reverse p)

-- `p in s`
unfoldable pub contains : Str → Str → Bool
contains [] p = starts_with [] p
contains (c ∷ s) p = starts_with (c ∷ s) p || contains s p

-- `s.split(sep)[0]` for a separator of one character.
unfoldable pub before_first : ℕ → Str → Str
before_first sep = take_while (λ c. not (c == sep))

unfoldable pub behind_first : ℕ → Str → Option Str
behind_first sep [] = none
behind_first sep (c ∷ r) = let rest = behind_first sep r in if c == sep then some r else rest

unfoldable pub reverse_or : Str → Option Str → Str
reverse_or s none = s
reverse_or s (some r) = reverse r

-- `s.rsplit(sep, 1)[0]`: the text before the last separator, all of it if there is none.
unfoldable pub before_last : ℕ → Str → Str
before_last sep s = reverse_or s (behind_first sep (reverse s))

-- `s.split()[0]` of a text that does not begin with a space.
unfoldable pub first_word : Str → Str
first_word = take_while (λ c. not (is_space c))

-- `sep.join(parts)`
unfoldable pub join : Str → List Str → Str
join sep [] = []
join sep (x ∷ []) = x
join sep (x ∷ y ∷ ys) = x ++ sep ++ join sep (y ∷ ys)

-- `s < t`, the order of code points.
unfoldable pub str_ltb : Str → Str → Bool
str_ltb s [] = false
str_ltb [] (d ∷ t) = true
str_ltb (c ∷ s) (d ∷ t) = let rest = str_ltb s t in if c == d then rest else ltb c d

unfoldable pub digits : ℕ → ℕ → Str
digits zero n = []
digits (suc fuel) n =
    let more = digits fuel (n / 10) ++ ((48 + n % 10) ∷ []) in
    if ltb n 10 then (48 + n) ∷ [] else more

-- `"%d" % n`. There are at most `n + 1` digits.
unfoldable pub show : ℕ → Str
show n = digits (n + 1) n

-- `s.rstrip(c)` for one character.
unfoldable pub rstrip_char : ℕ → Str → Str
rstrip_char c s = reverse (drop_while (λ d. d == c) (reverse s))

-- `"%-*s" % (n, s)` and `"%*s" % (n, s)`
unfoldable pub ljust : ℕ → Str → Str
ljust n s = s ++ replicate (n - length s) 32

unfoldable pub rjust : ℕ → Str → Str
rjust n s = replicate (n - length s) 32 ++ s
