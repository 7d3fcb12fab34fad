-- ===== src/Stats/Output.antt =====
-- The report that `main` of analysis/stats.py prints.
use Prim.Native.String.{String}
use ssh_honeypot.Base.{ℕ, ◌+◌, Bool, ◌&&◌, ◌||◌, Option, none, some, List, [], ◌∷◌, ◌++◌, map}
use ssh_honeypot.Base.{if◌then◌else◌, length, take, ltb, select, replicate, ◌==◌, nat_eq, list_eq}
use ssh_honeypot.Base.Dict.{Dict, total}
use ssh_honeypot.Base.Sort.{sort}
use ssh_honeypot.Base.Text.{Str, lit, show, ljust, rjust, str_ltb}
use ssh_honeypot.Log.{Rec, field}
use ssh_honeypot.Report.Header.{most}
use ssh_honeypot.Report.Sources.{by_count}
use ssh_honeypot.Stats.{Auth, Shell}
use ssh_honeypot.Stats.Sprays.{sprays}

unfoldable pub heading : Str → List Str
heading title = [] ∷ title ∷ replicate (length title) 45 ∷ []

-- `counter.most_common(n)`, of all where there is no number.
unfoldable pub most_common : Option ℕ → Dict Str ℕ → Dict Str ℕ
most_common none counter = by_count counter
most_common (some n) counter = take n (by_count counter)

unfoldable pub top_row : ℕ → ℕ → Str × ℕ → Str
top_row key_width count_width (k, v) =
    lit "  " ++ ljust key_width k ++ lit "  " ++ rjust count_width (show v)

unfoldable pub top_rows : Dict Str ℕ → List Str
top_rows [] = lit "  (none)" ∷ []
top_rows ((k, v) ∷ d) =
    let key_width = most 0 (map (λ e. length e.0) ((k, v) ∷ d)) in
    map (top_row key_width (length (show v))) ((k, v) ∷ d)

unfoldable pub print_top : Dict Str ℕ → Option ℕ → List Str
print_top counter n = top_rows (most_common n counter)

-- The loop over server.log.
unfoldable pub add_stamp : Str → List Str → List Str
add_stamp ts stamps = if ts == [] then stamps else stamps ++ (ts ∷ [])

unfoldable pub read_server : List Str → List Rec → List Str
read_server stamps [] = stamps
read_server stamps (r ∷ rs) = read_server (add_stamp (field "time" "" r) stamps) rs

unfoldable pub last_of : Str → List Str → Str
last_of s [] = s
last_of s (t ∷ ts) = last_of t ts

unfoldable pub time_range : List Str → List Str
time_range [] = lit "  (no timestamps found)" ∷ []
time_range (t ∷ ts) = (lit "  Earliest : " ++ t) ∷ (lit "  Latest   : " ++ last_of t ts) ∷ []

-- `name if not args.full else full`, and the number of rows.
unfoldable pub title : Bool → String → String → Str
title full top all = if full then lit all else lit top

unfoldable pub rows_of : Bool → ℕ → Option ℕ
rows_of full n = if full then some 1000000000 else some n

unfoldable pub echo_lines : Dict Str ℕ → List Str
echo_lines [] = lit "  (none)" ∷ []
echo_lines (e ∷ d) =
    print_top (e ∷ d) none ++ (lit "  --" ∷ (lit "  total chunks : " ++ show (total (e ∷ d))) ∷ [])

-- `sprays.sort(reverse=True)` on the number of addresses, the span, the user and the password.
abbrev pub Spray : Type 0
Spray = ℕ × ℕ × Str × Str

unfoldable pub spray_after : Spray → Spray → Bool
spray_after (n, m, u, p) (n', m', u', p') =
    ltb n' n || (n == n' && (ltb m' m || (m == m' && (str_ltb u' u || (u == u' && str_ltb p' p)))))

-- `minutes` is `"%5.0f"` of a span.
unfoldable pub spray_line : (ℕ → Str) → Spray → Str
spray_line minutes (n, m, user, pw) =
    lit "  "
    ++ rjust 3 (show n)
    ++ lit " IPs  "
    ++ minutes m
    ++ lit " min  "
    ++ user
    ++ lit " / "
    ++ pw

unfoldable pub spray_lines : (ℕ → Str) → List Spray → List Str
spray_lines minutes [] = lit "  (none)" ∷ []
spray_lines minutes (s ∷ ss) = map (spray_line minutes) (sort spray_after (s ∷ ss))

-- The families with a session, the largest first.
unfoldable pub active : Dict Str (List Str) → Dict Str ℕ
active d = by_count (map (λ (name, sids). (name, length sids)) (select (λ e. ltb 0 (length e.1)) d))

unfoldable pub family_row : ℕ → Str × ℕ → Str
family_row width (name, n) = lit "  " ++ ljust width name ++ lit "  " ++ show n ++ lit " sessions"

unfoldable pub family_rows : Dict Str ℕ → List Str
family_rows [] = lit "  (none identified)" ∷ []
family_rows (e ∷ d) =
    let width = most 0 (map (λ f. length f.0) (e ∷ d)) in map (family_row width) (e ∷ d)

unfoldable pub summary_lines : Auth → Shell → List Str
summary_lines auth sess =
    (lit "  Total auth attempts    : " ++ show (auth.accepted + auth.rejected))
    ∷ (lit "  Unique source IPs      : " ++ show (length auth.source_ips))
    ∷ (lit "  Unique passwords tried : " ++ show (length auth.passwords))
    ∷ (lit "  Accepted               : " ++ show auth.accepted)
    ∷ (lit "  Rejected               : " ++ show auth.rejected)
    ∷ (lit "  Commands captured      : " ++ show (total sess.commands))
    ∷ []

unfoldable pub tables : Bool → Auth → Shell → List Str
tables full auth sess =
    heading (title full "TOP 15 PASSWORDS" "ALL PASSWORDS")
    ++ print_top auth.passwords (rows_of full 15)
    ++ heading (title full "TOP 15 USERNAMES" "ALL USERNAMES")
    ++ print_top auth.usernames (rows_of full 15)
    ++ heading (title full "TOP 15 SOURCE IPs" "ALL SOURCE IPs")
    ++ print_top auth.source_ips (rows_of full 15)
    ++ heading (title full "TOP 10 CLIENT BANNERS" "ALL CLIENT BANNERS")
    ++ print_top auth.banners (rows_of full 10)
    ++ heading (title full "TOP 20 COMMANDS" "ALL COMMANDS")
    ++ print_top sess.commands (rows_of full 20)

module _ (parse_ts : Str → ℕ) (minutes : ℕ → Str) (log_dir : Str) (full : Bool) where
  -- `main` from `# --- report ---` on, with the timestamps of server.log behind the others.
  unfoldable pub report : Auth → Shell → List Rec → List Str
  report auth sess server =
      (replicate 52 61
        ∷ lit "SSH HONEYPOT REPORT"
        ∷ (lit "Log dir: " ++ log_dir)
        ∷ replicate 52 61
        ∷ [])
      ++ heading (lit "SUMMARY")
      ++ summary_lines auth sess
      ++ tables full auth sess
      ++ heading (lit "TIME RANGE")
      ++ time_range (sort str_ltb (read_server (auth.timestamps ++ sess.stamps) server))
      ++ heading (lit "ECHO INJECTION TARGETS")
      ++ echo_lines sess.echo_targets
      ++ heading (lit "CREDENTIAL SPRAYS  (>=3 IPs in <=60 min window)")
      ++ spray_lines minutes (sprays parse_ts auth.spray_buckets)
      ++ heading (lit "ATTACK FAMILIES (unique sessions)")
      ++ family_rows (active sess.family_sids)
      ++ ([] ∷ [])
