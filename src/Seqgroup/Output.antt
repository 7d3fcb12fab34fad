-- ===== src/Seqgroup/Output.antt =====
-- `write_output` of analysis/seqgroup.py: the lines of summary.txt and clusters.txt, and the rows of
-- clusters.json.
pub mod Totals
use Prim.Native.String.{String}
use ssh_honeypot.Base.{ℕ, suc, ◌+◌, ◌-◌, Bool, Option, none, some, List, [], ◌∷◌, ◌++◌, map}
use ssh_honeypot.Base.{if◌then◌else◌, length, take, ltb, replicate, ◌==◌, nat_eq}
use ssh_honeypot.Base.Dict.{Dict}
use ssh_honeypot.Base.Sort.{sort}
use ssh_honeypot.Base.Text.{Str, lit, join, show, ljust, rjust}
use ssh_honeypot.Periods.{replace_z}
use ssh_honeypot.Seqgroup.Groups.{Group, State, ordered}

-- `datetime.fromisoformat` in microseconds, and `strftime("%Y-%m-%d %H:%M")`.
pub record Host : Type 0 where
  pub parse_iso : Str → Option ℕ
  pub stamp : ℕ → Str

-- `opts`
pub record Options : Type 0 where
  pub min_cmds : ℕ
  pub top : ℕ
  pub max_seq_lines : ℕ
  pub max_sids : ℕ
  pub max_ips : ℕ

unfoldable pub defaults : Options
defaults = record { min_cmds = 1; top = 0; max_seq_lines = 60; max_sids = 5; max_ips = 10 }

-- One hour ahead of UTC.
unfoldable pub one_hour_on : (ℕ → Str) → Option ℕ → Str
one_hour_on stamp none = lit "?"
one_hour_on stamp (some t) = stamp (t + 3600000000)

unfoldable pub rabat : Host → Str → Str
rabat host ts = one_hour_on host.stamp (host.parse_iso (replace_z ts))

-- The most frequent first.
unfoldable pub by_count : Dict Str ℕ → Dict Str ℕ
by_count = sort (λ a b. ltb b.1 a.1)

-- `enumerate(…, 1)`
unfoldable pub number_from {ℓ} : {A : Type ℓ} → ℕ → List A → List (ℕ × A)
number_from n [] = []
number_from n (x ∷ xs) = (n, x) ∷ number_from (n + 1) xs

-- `"%s x%d"`
unfoldable pub times_text : Str × ℕ → Str
times_text (s, n) = s ++ lit " x" ++ show n

-- The first `n`, joined, with a mark where there are more.
unfoldable pub first_few : ℕ → List Str → Str
first_few n xs = join (lit ", ") (take n xs) ++ (if ltb n (length xs) then lit " ..." else [])

module _ (host : Host) where
  -- A row of summary.txt.
  unfoldable pub summary_line : ℕ × Group → Str
  summary_line (n, g) =
      ljust 4 (show n)
      ++ lit " "
      ++ ljust 11 g.hash
      ++ lit " "
      ++ rjust 8 (show g.count)
      ++ lit " "
      ++ rjust 6 (show g.ncmds)
      ++ lit " "
      ++ rjust 6 (show (length g.ips))
      ++ lit "  "
      ++ ljust 16 (rabat host g.first)
      ++ lit " "
      ++ ljust 16 (rabat host g.last)

  unfoldable pub head_line : ℕ → ℕ → ℕ → ℕ → Str
  head_line total skipped min_cmds distinct =
      lit "sessions ingested: "
      ++ show total
      ++ lit "   with >="
      ++ show min_cmds
      ++ lit " cmds: "
      ++ show (total - skipped)
      ++ lit "   distinct sequences: "
      ++ show distinct

  unfoldable pub title_line : Str
  title_line =
      ljust 4 (lit "#")
      ++ lit " "
      ++ ljust 11 (lit "hash")
      ++ lit " "
      ++ rjust 8 (lit "sessions")
      ++ lit " "
      ++ rjust 6 (lit "cmds")
      ++ lit " "
      ++ rjust 6 (lit "ips")
      ++ lit "  "
      ++ ljust 16 (lit "first")
      ++ lit " "
      ++ ljust 16 (lit "last")

  unfoldable pub summary : State → ℕ → Options → List Str
  summary st total o =
      let groups = ordered st.groups in
      head_line total st.skipped o.min_cmds (length groups)
      ∷ title_line
      ∷ map summary_line (number_from 1 groups)

  -- The sequence of a group in clusters.txt.
  unfoldable pub seq_lines : ℕ → List Str → List Str
  seq_lines cap seq =
      map (λ l. lit "  " ++ l) (take cap seq)
      ++ (if ltb cap (length seq)
          then (lit "  ... (" ++ show (length seq - cap) ++ lit " more lines)") ∷ []
          else [])

  unfoldable pub group_lines : Options → ℕ × Group → List Str
  group_lines o (n, g) =
      replicate 70 61
      ∷ (lit "#"
          ++ show n
          ++ lit "  "
          ++ g.hash
          ++ lit "   seen "
          ++ show g.count
          ++ lit " time(s)   "
          ++ show g.ncmds
          ++ lit " command(s)")
      ∷ (lit "first "
          ++ rabat host g.first
          ++ lit "   last "
          ++ rabat host g.last
          ++ lit "   Rabat")
      ∷ (lit "ips ("
          ++ show (length g.ips)
          ++ lit "): "
          ++ first_few o.max_ips (map times_text (by_count g.ips)))
      ∷ (lit "clients: " ++ join (lit ", ") (map times_text (take 3 (by_count g.clients))))
      ∷ (lit "users: " ++ join (lit ", ") (map times_text (take 3 (by_count g.users))))
      ∷ (lit "sids: " ++ first_few o.max_sids g.sids)
      ∷ replicate 70 45
      ∷ (seq_lines o.max_seq_lines g.seq ++ ([] ∷ []))

  -- `args["top"] or len(ordered)`
  unfoldable pub limit_of : ℕ → List Group → ℕ
  limit_of top groups = if top == 0 then length groups else top

  unfoldable pub all_lines : Options → List (ℕ × Group) → List Str
  all_lines o [] = []
  all_lines o (g ∷ gs) = group_lines o g ++ all_lines o gs

  unfoldable pub clusters_text : State → Options → List Str
  clusters_text st o =
      let groups = ordered st.groups in
      all_lines o (number_from 1 (take (limit_of o.top groups) groups))

-- A row of clusters.json.
unfoldable pub json_row : Group → Group
json_row g = record g { ips = by_count g.ips; sids = take 50 g.sids }

unfoldable pub json_rows : State → List Group
json_rows st = map json_row (ordered st.groups)
