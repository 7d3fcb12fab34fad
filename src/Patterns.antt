-- ===== src/Patterns.antt =====
-- The patterns that several scripts of analysis/ spell alike: seqgroup.py, replay.py, fingerprint.py.
use ssh_honeypot.Base.{ℕ, [], ◌∷◌}
use ssh_honeypot.Base.Text.{Unicode, lit}
use ssh_honeypot.Regex.{
  Re, chr, star, group, line_start, bound, ◌·◌, plus, up_to, text, one_of, space, non_space, letter,
}

-- `^echo(\s+-[a-zA-Z]+)+\s+["\']`
unfoldable pub echo_re : Re
echo_re =
    line_start
    · text (lit "echo")
    · plus (group (plus space · text (lit "-") · plus (chr letter)))
    · plus space
    · one_of (34 ∷ 39 ∷ [])

-- `>>\s*(\S+)`
unfoldable pub target_re : Re
target_re = text (lit ">>") · star space · group (plus non_space)

module _ ⦃u : Unicode⦄ where
  abbrev digits_upto : ℕ → Re
  digits_upto n = chr u.decimal · up_to n (chr u.decimal)

  -- `\b\d{1,3}\.\d{1,3}\.\d{1,3}\.\d{1,3}\b`
  unfoldable pub ip_re : Re
  ip_re =
      bound u.word
      · digits_upto 2
      · text (lit ".")
      · digits_upto 2
      · text (lit ".")
      · digits_upto 2
      · text (lit ".")
      · digits_upto 2
      · bound u.word
