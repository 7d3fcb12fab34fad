-- ===== src/Replay/Options/RoundTrip.antt =====
-- Options of analysis/replay.py that are written out and read.
use Prim.Native.String.{String}
use ssh_honeypot.Base.{
  ℕ, ◌≡◌, refl, ap, ◌∙◌, Bool, true, false, Option, none, some, List, [], ◌∷◌, ◌++◌,
}
use ssh_honeypot.Base.{if◌then◌else◌, nat_eq, list_eq}
use ssh_honeypot.Base.Text.{Str, lit, show}
use ssh_honeypot.Replay.Options.{
  Options, defaults, session_flag, ip_flag, min_flag, no_fold, no_color, flag_of, set_min,
  read_options,
}

-- An option with its value, if there is one.
abbrev pub valued : String → Option Str → List Str
valued flag none = []
valued flag (some v) = lit flag ∷ v ∷ []

-- The arguments for some options.
abbrev pub args_of : Options → List Str
args_of o =
    valued "--session" o.session
    ++ (valued "--ip" o.ip
        ++ (lit "--min-cmds"
            ∷ show o.min_cmds
            ∷ ((if o.fold then [] else lit "--no-fold" ∷ [])
                ++ (if o.color then [] else lit "--no-color" ∷ []))))

flag_session : flag_of (lit "--session") ≡ session_flag
unfolding flag_of lit nat_eq list_eq
flag_session = refl

flag_ip : flag_of (lit "--ip") ≡ ip_flag
unfolding flag_of lit nat_eq list_eq
flag_ip = refl

flag_min : flag_of (lit "--min-cmds") ≡ min_flag
unfolding flag_of lit nat_eq list_eq
flag_min = refl

flag_no_fold : flag_of (lit "--no-fold") ≡ no_fold
unfolding flag_of lit nat_eq list_eq
flag_no_fold = refl

flag_no_color : flag_of (lit "--no-color") ≡ no_color
unfolding flag_of lit nat_eq list_eq
flag_no_color = refl

module _ (int_of : Str → Option ℕ) where
  step_session :
      (a v : Str) (rest : List Str) (o : Options)
      → flag_of a ≡ session_flag
      → read_options int_of (a ∷ v ∷ rest) o
        ≡ read_options int_of rest (record o { session = some v })
  unfolding read_options
  step_session a v rest o h = rw (h, read_options) refl

  step_ip :
      (a v : Str) (rest : List Str) (o : Options)
      → flag_of a ≡ ip_flag
      → read_options int_of (a ∷ v ∷ rest) o ≡ read_options int_of rest (record o { ip = some v })
  unfolding read_options
  step_ip a v rest o h = rw (h, read_options) refl

  step_min :
      (a v : Str) (rest : List Str) (o : Options) (n : ℕ)
      → flag_of a ≡ min_flag
      → int_of v ≡ some n
      → read_options int_of (a ∷ v ∷ rest) o ≡ read_options int_of rest (record o { min_cmds = n })
  unfolding read_options set_min
  step_min a v rest o n h k = rw (h, k, read_options) refl

  last_no_color :
      (a : Str) (o : Options)
      → flag_of a ≡ no_color
      → read_options int_of (a ∷ []) o ≡ some (record o { color = false })
  unfolding read_options
  last_no_color a o h = rw (h, read_options) refl

  last_no_fold :
      (a : Str) (o : Options)
      → flag_of a ≡ no_fold
      → read_options int_of (a ∷ []) o ≡ some (record o { fold = false })
  unfolding read_options
  last_no_fold a o h = rw (h, read_options) refl

  step_no_fold :
      (a v : Str) (rest : List Str) (o : Options)
      → flag_of a ≡ no_fold
      → read_options int_of (a ∷ v ∷ rest) o
        ≡ read_options int_of (v ∷ rest) (record o { fold = false })
  unfolding read_options
  step_no_fold a v rest o h = rw (h, read_options) refl

  read_tail :
      (o : Options) (fold color : Bool)
      → read_options int_of
          ((if fold then [] else lit "--no-fold" ∷ [])
            ++ (if color then [] else lit "--no-color" ∷ []))
          (record o { fold = true; color = true })
        ≡ some (record o { fold = fold; color = color })
  unfolding read_options
  read_tail o true true = refl
  read_tail o true false =
      last_no_color (lit "--no-color") (record o { fold = true; color = true }) flag_no_color
  read_tail o false true =
      last_no_fold (lit "--no-fold") (record o { fold = true; color = true }) flag_no_fold
  read_tail o false false =
      step_no_fold (lit "--no-fold") (lit "--no-color") [] (record o { fold = true; color = true })
        flag_no_fold
      ∙ last_no_color (lit "--no-color") (record o { fold = false; color = true }) flag_no_color

  read_min :
      (o : Options) (n : ℕ) (rest : List Str)
      → int_of (show n) ≡ some n
      → read_options int_of (lit "--min-cmds" ∷ show n ∷ rest) o
        ≡ read_options int_of rest (record o { min_cmds = n })
  read_min o n rest h = step_min (lit "--min-cmds") (show n) rest o n flag_min h

  read_ip :
      (o : Options) (ip : Option Str) (rest : List Str)
      → o.ip ≡ none
      → read_options int_of (valued "--ip" ip ++ rest) o
        ≡ read_options int_of rest (record o { ip = ip })
  unfolding read_options
  read_ip o none rest h = ap (λ x. read_options int_of rest (record o { ip = x })) h
  read_ip o (some v) rest h = step_ip (lit "--ip") v rest o flag_ip

  read_session :
      (o : Options) (s : Option Str) (rest : List Str)
      → o.session ≡ none
      → read_options int_of (valued "--session" s ++ rest) o
        ≡ read_options int_of rest (record o { session = s })
  unfolding read_options
  read_session o none rest h = ap (λ x. read_options int_of rest (record o { session = x })) h
  read_session o (some v) rest h = step_session (lit "--session") v rest o flag_session

  -- Where `int` reads back the number that is printed, the arguments written for any options are read as
  -- these options.
  pub read_options-args_of :
      (o : Options)
      → int_of (show o.min_cmds) ≡ some o.min_cmds
      → read_options int_of (args_of o) defaults ≡ some o
  unfolding defaults
  read_options-args_of o h =
      read_session defaults o.session _ refl
      ∙ read_ip (record defaults { session = o.session }) o.ip _ refl
      ∙ read_min (record defaults { session = o.session; ip = o.ip }) o.min_cmds _ h
      ∙ read_tail o o.fold o.color
