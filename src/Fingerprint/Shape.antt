-- ===== src/Fingerprint/Shape.antt =====
-- `_shape_and_raw` of analysis/fingerprint.py. An event is its record: its time and its message are
-- fields of it.
use ssh_honeypot.Base.{
  ℕ, zero, suc, Bool, true, false, ◌&&◌, Option, none, some, List, [], ◌∷◌, ◌++◌,
}
use ssh_honeypot.Base.{if◌then◌else◌, length, ltb, ◌==◌, nat_eq, list_eq, option_eq}
use ssh_honeypot.Base.Text.{Str, Unicode, lit, strip, show}
use ssh_honeypot.Log.{
  Rec, field, Kind, shell, exec, wget_fetch, curl_fetch, scp_receive, scp_file, scp_saved, kind,
  is_command,
}
use ssh_honeypot.Fingerprint.{is_hex_inject, hide_random_path, norm_url, norm_cmd, rand_name}
use ssh_honeypot.Regex.{matches}
use ssh_honeypot.Replay.{echo_target}

abbrev pub command_of : Rec → Str
command_of r = strip (field "command" "" r)

-- A `shell` or `exec` event that is a hex injection.
unfoldable pub injects : Rec → Bool
injects r = is_command (kind r) && is_hex_inject (command_of r)

unfoldable pub target_of : Rec → Str
target_of r = echo_target (command_of r)

-- The inner loop: the number of events at the front that inject into the same file, and the rest.
unfoldable pub span_run : Str → List Rec → ℕ × List Rec
span_run target [] = (0, [])
span_run target (e ∷ es) =
    let more : ℕ × List Rec = let (n, rest) = span_run target es in (suc n, rest) in
    if injects e && target_of e == target then more else (0, e ∷ es)

-- The two lists that the loop builds.
pub record Out : Type 0 where
  pub shape : List Str
  pub raw : List Str

-- `shape.append(x)`, and `raw.append(y)` while there are fewer than 60.
unfoldable pub emit : Str → Str → Out → Out
emit x y o = record {
  shape = o.shape ++ (x ∷ []);
  raw = if ltb (length o.raw) 60 then o.raw ++ (y ∷ []) else o.raw;
}

-- The entry of a hex injection.
unfoldable pub inject_entry : Str → Str
inject_entry target = lit "[HEX_INJECT -> " ++ hide_random_path target ++ lit "]"

unfoldable pub inject_raw : ℕ → Str → Str
inject_raw n target = lit "[... " ++ show n ++ lit " echo chunks -> " ++ target ++ lit "]"

module _ ⦃u : Unicode⦄ where
  -- The branches for the other events.
  unfoldable pub emit_event : Kind → Rec → Out → Out
  emit_event shell e o = emit (norm_cmd (command_of e)) (command_of e) o
  emit_event exec e o = emit (norm_cmd (command_of e)) (command_of e) o
  emit_event wget_fetch e o =
      let url = field "url" "?" e in
      emit (lit "[wget -> " ++ norm_url url ++ lit "]") (lit "[wget -> " ++ url ++ lit "]") o
  emit_event curl_fetch e o =
      let url = field "url" "?" e in
      emit (lit "[curl -> " ++ norm_url url ++ lit "]") (lit "[curl -> " ++ url ++ lit "]") o
  emit_event scp_receive e o = emit (lit "[scp upload started]") (lit "[scp upload started]") o
  emit_event scp_file e o =
      let name = field "name" "?" e in
      let norm : Str = if matches rand_name name then lit "<RAND>" else name in
      emit (lit "[scp file: " ++ norm ++ lit "]")
        (lit "[scp file: " ++ name ++ lit "  " ++ field "size" "?" e ++ lit " bytes]") o
  emit_event scp_saved e o =
      emit (lit "[quarantined]") (lit "[quarantined: sha256=" ++ field "sha256" "?" e ++ lit "]") o
  emit_event _ e o = o

  -- The outer loop over `evs[i:]`, on fuel.
  unfoldable pub walk : ℕ → List Rec → Out → Out
  walk zero evs o = o
  walk (suc fuel) [] o = o
  walk (suc fuel) (e ∷ es) o = elim (injects e) [
    | true ↦
        let (n, rest) = span_run (target_of e) es in
        walk fuel rest (emit (inject_entry (target_of e)) (inject_raw (suc n) (target_of e)) o)
    | false ↦ walk fuel es (emit_event (kind e) e o)
  ]

-- `deduped`: an entry that equals the last one kept is dropped.
abbrev pub last? {ℓ} : {A : Type ℓ} → List A → Option A
last? [] = none
last? (x ∷ []) = some x
last? (x ∷ y ∷ ys) = last? (y ∷ ys)

abbrev pub keep_new : List Str → Str → List Str
keep_new kept x = if last? kept == some x then kept else kept ++ (x ∷ [])

unfoldable pub collapse_onto : List Str → List Str → List Str
collapse_onto kept [] = kept
collapse_onto kept (x ∷ xs) = collapse_onto (keep_new kept x) xs

module _ ⦃u : Unicode⦄ where
  unfoldable pub shape_and_raw : List Rec → Out
  shape_and_raw evs =
      let o = walk (length evs) evs (record { shape = []; raw = [] }) in
      record o { shape = collapse_onto [] o.shape }
