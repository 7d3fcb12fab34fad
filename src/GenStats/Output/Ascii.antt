-- ===== src/GenStats/Output/Ascii.antt =====
-- The tables of analysis/gen_stats.py are pure ASCII.
use ssh_honeypot.Base.{
  ℕ, zero, suc, ◌+◌, ◌/◌, ◌%◌, ◌<◌, ◌≡◌, refl, Bool, true, List, [], ◌∷◌, ◌++◌, map, inl, inr,
  arith,
}
use ssh_honeypot.Base.{
  all, All, if◌then◌else◌, if_both, ltb, ltb→lt, take, Bool-cases, ◌==◌, nat_eq,
}
use ssh_honeypot.Base.Dict.{Dict}
use ssh_honeypot.Base.Text.{Str, lit, join, show, digits}
use ssh_honeypot.GenStats.Output.{
  hex_digit_of, hex_fixed, escaped, ascii_safe, escape_pipes, row_text, rows, fmt_top,
}
use ssh_honeypot.Report.Sources.{by_count}

abbrev pub is_ascii : Str → Bool
is_ascii s = all (λ c. ltb c 128) s

abbrev pub IsAscii : Str → Type 0
IsAscii s = is_ascii s ≡ true

append-IsAscii : (s t : Str) → IsAscii s → IsAscii t → IsAscii (s ++ t)
append-IsAscii [] t h k = k
append-IsAscii (c ∷ s) t h k = ground (arith, append-IsAscii s t)

one-IsAscii : (c : ℕ) → c < 128 → IsAscii (c ∷ [])
one-IsAscii c h = ground arith

hex_digit-IsAscii : (d : ℕ) → d < 16 → IsAscii (hex_digit_of d ∷ [])
unfolding hex_digit_of
hex_digit-IsAscii d h = ground arith

hex_fixed-IsAscii : (width n : ℕ) → IsAscii (hex_fixed width n)
unfolding hex_fixed
hex_fixed-IsAscii zero n = refl
hex_fixed-IsAscii (suc width) n =
    append-IsAscii (hex_fixed width (n / 16)) (hex_digit_of (n % 16) ∷ [])
      (hex_fixed-IsAscii width (n / 16)) (hex_digit-IsAscii (n % 16) (omega arith))

escaped-IsAscii : (c : ℕ) → IsAscii (escaped c)
unfolding escaped lit
escaped-IsAscii c = elim (Bool-cases (ltb c 128)) [
  | inl h ↦ rw h (one-IsAscii c (ltb→lt c 128 h))
  | inr h ↦ rw h (
      if_both IsAscii (ltb c 256)
        (append-IsAscii (lit "\\x") (hex_fixed 2 c) refl (hex_fixed-IsAscii 2 c))
        (if_both IsAscii (ltb c 65536)
          (append-IsAscii (lit "\\u") (hex_fixed 4 c) refl (hex_fixed-IsAscii 4 c))
          (append-IsAscii (lit "\\U") (hex_fixed 8 c) refl (hex_fixed-IsAscii 8 c))))
]

ascii_safe-IsAscii : (s : Str) → IsAscii (ascii_safe s)
unfolding ascii_safe
ascii_safe-IsAscii [] = refl
ascii_safe-IsAscii (c ∷ s) =
    append-IsAscii (escaped c) (ascii_safe s) (escaped-IsAscii c) (ascii_safe-IsAscii s)

escape_pipes-IsAscii : (s : Str) → IsAscii s → IsAscii (escape_pipes s)
unfolding escape_pipes lit
escape_pipes-IsAscii [] h = refl
escape_pipes-IsAscii (c ∷ s) h =
    let rest : IsAscii (escape_pipes s) = escape_pipes-IsAscii s (ground arith) in
    let here : IsAscii (c ∷ []) = ground arith in
    append-IsAscii (if c == 124 then lit "\\|" else c ∷ []) (escape_pipes s)
      (if_both IsAscii (c == 124) refl here) rest

digits-IsAscii : (fuel n : ℕ) → IsAscii (digits fuel n)
unfolding digits
digits-IsAscii zero n = refl
digits-IsAscii (suc fuel) n =
    let more : IsAscii (digits fuel (n / 10)) = digits-IsAscii fuel (n / 10) in
    elim (Bool-cases (ltb n 10)) [
      | inl h ↦ rw h (one-IsAscii (48 + n) (omega (arith, ltb→lt n 10 h)))
      | inr h ↦ rw h (
          append-IsAscii (digits fuel (n / 10)) ((48 + n % 10) ∷ []) more
            (one-IsAscii (48 + n % 10) (omega arith)))
    ]

row_text-IsAscii : (k : Str) (v : ℕ) → IsAscii (row_text (k, v))
unfolding row_text lit show
row_text-IsAscii k v =
    let key : IsAscii (escape_pipes (ascii_safe k)) =
      escape_pipes-IsAscii (ascii_safe k) (ascii_safe-IsAscii k) in
    let a : IsAscii (lit "| `" ++ escape_pipes (ascii_safe k)) =
      append-IsAscii (lit "| `") (escape_pipes (ascii_safe k)) refl key in
    let b : IsAscii (lit "| `" ++ escape_pipes (ascii_safe k) ++ lit "` | ") =
      append-IsAscii (lit "| `" ++ escape_pipes (ascii_safe k)) (lit "` | ") a refl in
    let c : IsAscii (lit "| `" ++ escape_pipes (ascii_safe k) ++ lit "` | " ++ show v) =
      append-IsAscii (lit "| `" ++ escape_pipes (ascii_safe k) ++ lit "` | ") (show v) b
        (digits-IsAscii (v + 1) v) in
    append-IsAscii (lit "| `" ++ escape_pipes (ascii_safe k) ++ lit "` | " ++ show v) (lit " |") c
      refl

map-IsAscii : (d : Dict Str ℕ) → All IsAscii (map row_text d)
map-IsAscii [] = tt
map-IsAscii ((k, v) ∷ d) = (row_text-IsAscii k v, map-IsAscii d)

rows-IsAscii : (d : Dict Str ℕ) → All IsAscii (rows d)
unfolding rows lit
rows-IsAscii [] = (refl, tt)
rows-IsAscii (e ∷ d) = map-IsAscii (e ∷ d)

join-IsAscii : (lines : List Str) → All IsAscii lines → IsAscii (join (10 ∷ []) lines)
unfolding join
join-IsAscii [] h = refl
join-IsAscii (x ∷ []) (h, _) = h
join-IsAscii (x ∷ y ∷ ys) (h, hs) =
    append-IsAscii (x ++ (10 ∷ [])) (join (10 ∷ []) (y ∷ ys)) (append-IsAscii x (10 ∷ []) h refl)
      (join-IsAscii (y ∷ ys) hs)

-- Whatever texts the log has, a table of the most frequent ones is pure ASCII.
pub fmt_top-IsAscii : (counter : Dict Str ℕ) (n : ℕ) → IsAscii (fmt_top counter n)
unfolding fmt_top lit
fmt_top-IsAscii counter n =
    join-IsAscii (lit "| value | count |" ∷ lit "| --- | --- |" ∷ rows (take n (by_count counter)))
      (refl, (refl, rows-IsAscii (take n (by_count counter))))
