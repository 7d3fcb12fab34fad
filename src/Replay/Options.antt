-- ===== src/Replay/Options.antt =====
-- The loop over the options in `main` of analysis/replay.py.
-- `int_of` is `int`, nothing where it raises ValueError; as the number is only compared with a count, a
-- negative one may stand as 0.
pub mod RoundTrip
use ssh_honeypot.Base.{ℕ, Bool, true, false, Option, none, some, List, [], ◌∷◌, ◌++◌, ◌||◌}
use ssh_honeypot.Base.{if◌then◌else◌, ◌==◌, nat_eq, list_eq}
use ssh_honeypot.Base.Text.{Str, lit, starts_with}

pub record Options : Type 0 where
  pub session : Option Str
  pub ip : Option Str
  pub min_cmds : ℕ
  pub fold : Bool
  pub color : Bool

unfoldable pub defaults : Options
defaults = record { session = none; ip = none; min_cmds = 1; fold = true; color = true }

-- What an argument is.
pub data Flag : Type 0 where
  session_flag ip_flag min_flag no_fold no_color unknown : Flag

unfoldable pub flag_of : Str → Flag
flag_of a =
    if a == lit "--session"
    then session_flag
    else if a == lit "--ip"
    then ip_flag
    else if a == lit "--min-cmds"
    then min_flag
    else if a == lit "--no-fold"
    then no_fold
    else if a == lit "--no-color"
    then no_color
    else unknown

module _ (int_of : Str → Option ℕ) where
  unfoldable pub set_min : Options → Option ℕ → Option Options
  set_min o none = none
  set_min o (some n) = some (record o { min_cmds = n })

  abbrev pub then_read : (Options → Option Options) → Option Options → Option Options
  then_read k none = none
  then_read k (some o) = k o

  -- An argument that needs a value and is the last one is passed over.
  unfoldable pub read_options : List Str → Options → Option Options
  read_options [] o = some o
  read_options (a ∷ []) o = elim (flag_of a) [
    | no_fold ↦ some (record o { fold = false })
    | no_color ↦ some (record o { color = false })
    | _ ↦ some o
  ]
  read_options (a ∷ v ∷ rest) o = elim (flag_of a) [
    | session_flag ↦ read_options rest (record o { session = some v })
    | ip_flag ↦ read_options rest (record o { ip = some v })
    | min_flag ↦ then_read (λ p. read_options rest p) (set_min o (int_of v))
    | no_fold ↦ read_options (v ∷ rest) (record o { fold = false })
    | no_color ↦ read_options (v ∷ rest) (record o { color = false })
    | unknown ↦ read_options (v ∷ rest) o
  ]

  abbrev with_dir : Str → Option Options → Option (Str × Options)
  with_dir dir none = none
  with_dir dir (some o) = some (dir, o)

  -- `logdir` and the options.
  unfoldable pub read_args : List Str → Option (Str × Options)
  read_args [] = some (lit "./logs", defaults)
  read_args (a ∷ args) =
      if starts_with a (lit "--")
      then with_dir (lit "./logs") (read_options (a ∷ args) defaults)
      else with_dir a (read_options args defaults)
