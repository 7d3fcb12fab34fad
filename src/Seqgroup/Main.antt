-- ===== src/Seqgroup/Main.antt =====
-- `main` of analysis/seqgroup.py behind the reading of the log: the options, and what is written.
-- `int_of` is `int` on the numbers that are not negative, nothing where it raises ValueError; `dated` is the
-- name of the output directory with the date.
use ssh_honeypot.Base.{ℕ, ◌-◌, Bool, true, false, Option, none, some, List, [], ◌∷◌, ◌++◌}
use ssh_honeypot.Base.{if◌then◌else◌, length, ltb, ◌==◌, nat_eq, list_eq}
use ssh_honeypot.Base.Dict.{Dict}
use ssh_honeypot.Base.Text.{Str, Unicode, lit, show, starts_with}
use ssh_honeypot.Log.{Rec}
use ssh_honeypot.Seqgroup.{Session}
use ssh_honeypot.Seqgroup.Ingest.{ingest}
use ssh_honeypot.Seqgroup.Groups.{Group, State, cluster, ordered}
use ssh_honeypot.Seqgroup.Output.{Host, Options, defaults, summary, clusters_text, json_rows}

pub record Settings : Type 0 where
  pub opts : Options
  pub outdir : Option Str
  pub do_normalize : Bool
  pub dedup_all : Bool

abbrev pub no_settings : Settings
no_settings = record { opts = defaults; outdir = none; do_normalize = false; dedup_all = false }

pub data Flag : Type 0 where
  out_flag min_flag top_flag lines_flag sids_flag ips_flag normalize_flag dedup_flag unknown : Flag

unfoldable pub flag_of : Str → Flag
flag_of a =
    if a == lit "--out"
    then out_flag
    else if a == lit "--min-cmds"
    then min_flag
    else if a == lit "--top"
    then top_flag
    else if a == lit "--max-seq-lines"
    then lines_flag
    else if a == lit "--max-sids"
    then sids_flag
    else if a == lit "--max-ips"
    then ips_flag
    else if a == lit "--normalize"
    then normalize_flag
    else if a == lit "--dedup-all"
    then dedup_flag
    else unknown

unfoldable pub switch : Flag → Settings → Settings
switch normalize_flag s = record s { do_normalize = true }
switch dedup_flag s = record s { dedup_all = true }
switch _ s = s

abbrev pub set_opts : Settings → (ℕ → Options) → Option ℕ → Option Settings
set_opts s f none = none
set_opts s f (some n) = some (record s { opts = f n })

abbrev pub then_read : (Settings → Option Settings) → Option Settings → Option Settings
then_read k none = none
then_read k (some s) = k s

module _ (int_of : Str → Option ℕ) where
  -- An option that needs a value and is the last argument is passed over.
  unfoldable pub read_settings : List Str → Settings → Option Settings
  read_settings [] s = some s
  read_settings (a ∷ []) s = some (switch (flag_of a) s)
  read_settings (a ∷ v ∷ rest) s = elim (flag_of a) [
    | out_flag ↦ read_settings rest (record s { outdir = some v })
    | min_flag ↦
        then_read (λ t. read_settings rest t)
          (set_opts s (λ n. record s.opts { min_cmds = n }) (int_of v))
    | top_flag ↦
        then_read (λ t. read_settings rest t)
          (set_opts s (λ n. record s.opts { top = n }) (int_of v))
    | lines_flag ↦
        then_read (λ t. read_settings rest t)
          (set_opts s (λ n. record s.opts { max_seq_lines = n }) (int_of v))
    | sids_flag ↦
        then_read (λ t. read_settings rest t)
          (set_opts s (λ n. record s.opts { max_sids = n }) (int_of v))
    | ips_flag ↦
        then_read (λ t. read_settings rest t)
          (set_opts s (λ n. record s.opts { max_ips = n }) (int_of v))
    | normalize_flag ↦ read_settings (v ∷ rest) (switch normalize_flag s)
    | dedup_flag ↦ read_settings (v ∷ rest) (switch dedup_flag s)
    | unknown ↦ read_settings (v ∷ rest) s
  ]

  abbrev with_dir : Str → Option Settings → Option (Str × Settings)
  with_dir dir none = none
  with_dir dir (some s) = some (dir, s)

  -- `logdir` and the settings.
  unfoldable pub read_args : List Str → Option (Str × Settings)
  read_args [] = some (lit "./logs", no_settings)
  read_args (a ∷ args) =
      if starts_with a (lit "--")
      then with_dir (lit "./logs") (read_settings (a ∷ args) no_settings)
      else with_dir a (read_settings args no_settings)

abbrev pub or_dated : Str → Option Str → Str
or_dated dated none = dated
or_dated dated (some dir) = dir

-- The exit with status 1, or the three files and what is printed.
pub data Outcome : Type 0 where
  no_groups : Outcome
  written : (summary clusters : List Str) → (rows : List Group) → (printed : List Str) → Outcome

module _ (host : Host) (dated : Str) (s : Settings) where
  unfoldable pub printed_lines : ℕ → ℕ → State → List Str
  printed_lines total dups st =
      (if ltb 0 dups then (lit "dropped " ++ show dups ++ lit " duplicate records") ∷ [] else [])
      ++ ((show (total - st.skipped)
            ++ lit " sessions -> "
            ++ show (length (ordered st.groups))
            ++ lit " distinct sequences")
          ∷ (lit "wrote "
              ++ or_dated dated s.outdir
              ++ lit "/{summary.txt,clusters.txt,clusters.json}")
          ∷ [])

  unfoldable pub write_groups : ℕ → ℕ → State → Outcome
  write_groups total dups st = elim st.groups [
    | [] ↦ no_groups
    | _ ∷ _ ↦
        written (summary host st total s.opts) (clusters_text host st s.opts) (json_rows st)
          (printed_lines total dups st)
  ]

  unfoldable pub write_sessions : (Str → Str) → Dict Str Session → ℕ → Outcome
  write_sessions sha1 sessions dups =
      write_groups (length sessions) dups (cluster sha1 s.opts.min_cmds sessions)

  -- `main` on the lines of session.log; nothing where the file is missing, and the script exits with
  -- status 1.
  unfoldable pub write_records : ⦃u : Unicode⦄ → (Str → Str) → Option (List Rec) → Option Outcome
  write_records sha1 none = none
  write_records sha1 (some rs) =
      let st = ingest s.do_normalize s.dedup_all rs in
      some (write_sessions sha1 st.sessions st.dups)
