-- ===== src/Seqgroup.antt =====
-- analysis/seqgroup.py: sessions grouped by their exact command sequence. This module has the
-- patterns, the class `Session` and `ingest`; Groups has `cluster`.
pub mod Ingest
pub mod Groups
pub mod Output
pub mod Main
pub mod Dedup
pub mod Runs
pub mod Sequence
pub mod Counts
use ssh_honeypot.Base.{
  ℕ, ◌+◌, ◌*◌, ◌/◌, ◌%◌, Bool, true, false, ◌&&◌, ◌||◌, not, Option, none, some,
}
use ssh_honeypot.Base.{List, [], ◌∷◌, ◌++◌, take, map, ltb, if◌then◌else◌, ◌==◌, nat_eq, list_eq}
use ssh_honeypot.Base.{option_eq}
use ssh_honeypot.Base.Dict.{Dict, get, put, upsert}
use ssh_honeypot.Base.Text.{Str, Unicode, lit, strip, before_first, show}
use ssh_honeypot.Log.{Rec, field}
use ssh_honeypot.Patterns.{echo_re, target_re, ip_re}
use ssh_honeypot.Regex.{
  Re, eps, chr, seq, alt, star, group, line_start, bound, ◌·◌, plus, times, up_to, at_least, text,
  one_of, space, non_space, letter, hex_digit, hex_byte, matches, search_re, group_or, sub,
  count_matches,
}

module _ ⦃u : Unicode⦄ where
  -- `\b[0-9a-fA-F]{16,}\b`
  unfoldable pub hexblob_re : Re
  hexblob_re = bound u.word · at_least 16 (chr hex_digit) · bound u.word

  -- `\b\d{5,}\b`
  unfoldable pub digits_re : Re
  digits_re = bound u.word · at_least 5 (chr u.decimal) · bound u.word

  unfoldable pub normalize : Str → Str
  normalize cmd =
      sub digits_re (λ _. lit "<N>")
        (sub hexblob_re (λ _. lit "<HEX>") (sub ip_re (λ _. lit "<IP>") cmd))

unfoldable pub is_echo_inject : Str → Bool
is_echo_inject cmd = matches echo_re cmd

unfoldable pub echo_target : Str → Str
echo_target cmd = group_or (lit "?") (search_re target_re cmd)

abbrev pub dirty_dates : List Str
dirty_dates =
    map lit
      ("2026-05-26" ∷ "2026-05-27" ∷ "2026-05-28" ∷ "2026-05-29" ∷ "2026-05-30" ∷ "2026-07-29" ∷ [])

-- `seen_ts` is created empty at its first use, so that `None` and the empty set are one here.
pub record Session : Type 0 where
  pub seq : List Str
  pub ip : Str
  pub client : Str
  pub user : Str
  pub first : Str
  pub last : Str
  pub echo_target : Option Str
  pub echo_count : ℕ
  pub echo_bytes : ℕ
  pub seen_ts : List (Str × Str)

unfoldable pub new_session : Session
new_session = record {
  seq = [];
  ip = lit "?";
  client = lit "?";
  user = lit "?";
  first = [];
  last = [];
  echo_target = none;
  echo_count = 0;
  echo_bytes = 0;
  seen_ts = [];
}

-- `"%.1f" % (n / 1024)`: tenths, rounded half to even. The quotient is exact in binary.
unfoldable pub tenths_of_kb : ℕ → ℕ
tenths_of_kb n =
    let q = n * 10 / 1024 in
    let r = n * 10 % 1024 in if ltb r 512 || (r == 512 && q % 2 == 0) then q else q + 1

unfoldable pub show_kb : ℕ → Str
show_kb n = let t = tenths_of_kb n in show (t / 10) ++ lit "." ++ show (t % 10)

unfoldable pub echo_line : ℕ → Str → ℕ → Str
echo_line count target bytes =
    lit "["
    ++ show count
    ++ lit " echo chunks -> "
    ++ target
    ++ lit " (~"
    ++ show_kb bytes
    ++ lit " KB)]"

unfoldable pub flush_target : Option Str → Session → Session
flush_target none s = s
flush_target (some target) s = record s {
  seq = s.seq ++ (echo_line s.echo_count target s.echo_bytes ∷ []);
  echo_target = none;
  echo_count = 0;
  echo_bytes = 0;
}

-- `Session.flush_echo`
unfoldable pub flush_echo : Session → Session
flush_echo s = flush_target s.echo_target s

-- `Session.push`
unfoldable pub push : Str → Session → Session
push line s = let s' = flush_echo s in record s' { seq = s'.seq ++ (line ∷ []) }

-- `Session.push_echo`
unfoldable pub push_echo : Str → ℕ → Session → Session
push_echo target nbytes s =
    let s' : Session =
      if some target == s.echo_target
      then s
      else record (flush_echo s) { echo_target = some target } in
    record s' { echo_count = s'.echo_count + 1; echo_bytes = s'.echo_bytes + nbytes }
