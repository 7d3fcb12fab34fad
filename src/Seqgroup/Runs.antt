-- ===== src/Seqgroup/Runs.antt =====
-- The sequence of a session as a grouping of its events: consecutive echo chunks for one target are
-- one line. `blocks` says so with no pending state.
use ssh_honeypot.Base.{ℕ, ◌+◌, ◌≡◌, refl, sym, ◌∙◌, inl, inr, Bool, true, false, ◌&&◌, not}
use ssh_honeypot.Base.{Option, none, some, List, [], ◌∷◌, ◌++◌, map, arith, if◌then◌else◌}
use ssh_honeypot.Base.{◌==◌, nat_eq, list_eq, option_eq, Bool-cases, Option-cases, sum_by, count_by}
use mathlib.Core.List.{append-nil, append_assoc, map-append}
use native.Mathlib.Nat.{zero-add}
use ssh_honeypot.Base.Text.{Str}
use ssh_honeypot.Seqgroup.{Session, flush_target, flush_echo, push, push_echo, echo_line}

-- What the records of a session push: a line, or a chunk of so many bytes for a target.
pub data Event : Type 0 where
  line : Str → Event
  chunk : Str → ℕ → Event

-- A line of the sequence: as pushed, or a run of chunks with its target, chunk count and bytes.
pub data Block : Type 0 where
  plain : Str → Block
  run : Str → ℕ → ℕ → Block

abbrev pub render : Block → Str
render (plain l) = l
render (run target count bytes) = echo_line count target bytes

-- A run of chunks before the blocks of what follows: joined to a run for the same target.
unfoldable pub before_run : Str → ℕ → ℕ → List Block → List Block
before_run t c n (run t' c' n' ∷ bs) =
    if t == t' then run t (c + c') (n + n') ∷ bs else run t c n ∷ run t' c' n' ∷ bs
before_run t c n bs = run t c n ∷ bs

unfoldable pub blocks : List Event → List Block
blocks [] = []
blocks (line l ∷ es) = plain l ∷ blocks es
blocks (chunk t n ∷ es) = before_run t 1 n (blocks es)

abbrev pub apply_event : Event → Session → Session
apply_event (line l) s = push l s
apply_event (chunk t n) s = push_echo t n s

abbrev pub apply_events : List Event → Session → Session
apply_events [] s = s
apply_events (e ∷ es) s = apply_events es (apply_event e s)

abbrev pub pend : Option Str → ℕ → ℕ → List Block → List Block
pend none c n bs = bs
pend (some t) c n bs = before_run t c n bs

-- The blocks of a pending run and of what follows.
abbrev pub pending : Session → List Block → List Block
pending s bs = pend s.echo_target s.echo_count s.echo_bytes bs

before_run-before_run :
    (t : Str) (c n k m : ℕ) (bs : List Block)
    → before_run t c n (before_run t k m bs) ≡ before_run t (c + k) (n + m) bs
unfolding before_run
before_run-before_run t c n k m [] = ground arith
before_run-before_run t c n k m (plain l ∷ bs) = ground arith
before_run-before_run t c n k m (run t' c' n' ∷ bs) = ground arith

before_run_ne :
    (t t' : Str) (c n k m : ℕ) (bs : List Block)
    → (t == t') ≡ false
    → before_run t c n (before_run t' k m bs) ≡ run t c n ∷ before_run t' k m bs
unfolding before_run
before_run_ne t t' c n k m [] h = ground arith
before_run_ne t t' c n k m (plain l ∷ bs) h = ground arith
before_run_ne t t' c n k m (run t'' c' n' ∷ bs) h = ground arith

pub seq-flush_echo : (s : Session) → (flush_echo s).seq ≡ s.seq ++ map render (pending s [])
unfolding flush_echo flush_target before_run
seq-flush_echo s = elim (Option-cases s.echo_target) [
  | inl none_pending ↦ rw (none_pending, flush_target) (rw append-nil)
  | inr (t, p) ↦ rw (p, flush_target)
]

-- Where no run is pending, the counters are 0.
abbrev pub IsTidy : Session → Type 0
IsTidy s = s.echo_target ≡ none → (s.echo_count ≡ 0) × (s.echo_bytes ≡ 0)

flush_echo_idle :
    (s : Session)
    → IsTidy s
    → ((flush_echo s).echo_target ≡ none)
      × ((flush_echo s).echo_count ≡ 0)
      × ((flush_echo s).echo_bytes ≡ 0)
unfolding flush_echo flush_target
flush_echo_idle s tidy = ground (arith)

pub push-IsTidy : (l : Str) (s : Session) → IsTidy s → IsTidy (push l s)
unfolding push
push-IsTidy l s tidy _ = let (_, c, b) = flush_echo_idle s tidy in (c, b)

pub push_echo-IsTidy : (t : Str) (n : ℕ) (s : Session) → IsTidy s → IsTidy (push_echo t n s)
unfolding push_echo
push_echo-IsTidy t n s tidy = ground arith

pend_plain :
    (o : Option Str) (c n : ℕ) (l : Str) (bs : List Block)
    → pend o c n (plain l ∷ bs) ≡ pend o c n [] ++ (plain l ∷ bs)
unfolding before_run
pend_plain none c n l bs = refl
pend_plain (some t) c n l bs = refl

pend_same :
    (o : Option Str) (t : Str) (c m n : ℕ) (bs : List Block)
    → (some t == o) ≡ true
    → pend o (c + 1) (m + n) bs ≡ pend o c m (before_run t 1 n bs)
pend_same none t c m n bs h = ground arith
pend_same (some t') t c m n bs h =
    let p : t ≡ t' = ground arith in rw p (sym (before_run-before_run t' c m 1 n bs))

pend_other :
    (o : Option Str) (t : Str) (c m n : ℕ) (bs : List Block)
    → (some t == o) ≡ false
    → pend o c m (before_run t 1 n bs) ≡ pend o c m [] ++ before_run t 1 n bs
unfolding before_run
pend_other none t c m n bs h = refl
pend_other (some t') t c m n bs h = before_run_ne t' t c m 1 n bs (ground arith)

pub push_blocks :
    (l : Str) (s : Session) (bs : List Block)
    → IsTidy s
    → (push l s).seq ++ map render (pending (push l s) bs)
      ≡ s.seq ++ map render (pending s (plain l ∷ bs))
unfolding push
push_blocks l s bs tidy =
    let (idle, _, _) = flush_echo_idle s tidy in
    rw (idle, seq-flush_echo s, pend_plain) (simp (map-append, append_assoc))

pub push_echo_blocks :
    (t : Str) (n : ℕ) (s : Session) (bs : List Block)
    → IsTidy s
    → (push_echo t n s).seq ++ map render (pending (push_echo t n s) bs)
      ≡ s.seq ++ map render (pending s (before_run t 1 n bs))
unfolding push_echo
push_echo_blocks t n s bs tidy = elim (Bool-cases (some t == s.echo_target)) [
  | inl same ↦ rw same (rw (pend_same s.echo_target t s.echo_count s.echo_bytes n bs same))
  | inr other ↦
      let (_, c, b) = flush_echo_idle s tidy in
      rw
        (
          other,
          c,
          b,
          seq-flush_echo s,
          pend_other s.echo_target t s.echo_count s.echo_bytes n bs other,
        )
        (simp (map-append, append_assoc, zero-add))
]

apply_event-blocks :
    (e : Event) (es : List Event) (s : Session)
    → IsTidy s
    → (apply_event e s).seq ++ map render (pending (apply_event e s) (blocks es))
      ≡ s.seq ++ map render (pending s (blocks (e ∷ es)))
unfolding blocks
apply_event-blocks (line l) es s tidy = push_blocks l s (blocks es) tidy
apply_event-blocks (chunk t n) es s tidy = push_echo_blocks t n s (blocks es) tidy

apply_event-IsTidy : (e : Event) (s : Session) → IsTidy s → IsTidy (apply_event e s)
apply_event-IsTidy (line l) s tidy = push-IsTidy l s tidy
apply_event-IsTidy (chunk t n) s tidy = push_echo-IsTidy t n s tidy

pub apply_events-blocks :
    (es : List Event) (s : Session)
    → IsTidy s
    → (flush_echo (apply_events es s)).seq ≡ s.seq ++ map render (pending s (blocks es))
apply_events-blocks [] s tidy = unfold blocks in seq-flush_echo s
apply_events-blocks (e ∷ es) s tidy =
    apply_events-blocks es (apply_event e s) (apply_event-IsTidy e s tidy)
    ∙ apply_event-blocks e es s tidy

-- What a block holds of a target: chunks and bytes.
abbrev pub chunks_for : Str → Block → ℕ
chunks_for t (plain l) = 0
chunks_for t (run t' c n) = if t == t' then c else 0

abbrev pub bytes_for : Str → Block → ℕ
bytes_for t (plain l) = 0
bytes_for t (run t' c n) = if t == t' then n else 0

abbrev pub is_chunk_for : Str → Event → Bool
is_chunk_for t (line l) = false
is_chunk_for t (chunk t' n) = t == t'

abbrev pub event_bytes_for : Str → Event → ℕ
event_bytes_for t (line l) = 0
event_bytes_for t (chunk t' n) = if t == t' then n else 0

chunks-before_run :
    (t t' : Str) (c n : ℕ) (bs : List Block)
    → sum_by (chunks_for t) (before_run t' c n bs)
      ≡ (if t == t' then c else 0) + sum_by (chunks_for t) bs
unfolding before_run
chunks-before_run t t' c n [] = refl
chunks-before_run t t' c n (plain l ∷ bs) = refl
chunks-before_run t t' c n (run t'' c' n' ∷ bs) = ground arith

bytes-before_run :
    (t t' : Str) (c n : ℕ) (bs : List Block)
    → sum_by (bytes_for t) (before_run t' c n bs)
      ≡ (if t == t' then n else 0) + sum_by (bytes_for t) bs
unfolding before_run
bytes-before_run t t' c n [] = refl
bytes-before_run t t' c n (plain l ∷ bs) = refl
bytes-before_run t t' c n (run t'' c' n' ∷ bs) = ground arith

-- No two neighbours are runs for one target.
abbrev pub apart : Block → List Block → Bool
apart (run t c n) (run t' c' n' ∷ bs) = not (t == t')
apart _ _ = true

abbrev pub all_apart : List Block → Bool
all_apart [] = true
all_apart (b ∷ bs) = apart b bs && all_apart bs

all_apart-before_run :
    (t : Str) (c n : ℕ) (bs : List Block)
    → all_apart bs ≡ true
    → all_apart (before_run t c n bs) ≡ true
unfolding before_run
all_apart-before_run t c n [] h = refl
all_apart-before_run t c n (plain l ∷ bs) h = h
all_apart-before_run t c n (run t' c' n' ∷ []) h = ground arith
all_apart-before_run t c n (run t' c' n' ∷ plain l ∷ bs) h = ground arith
all_apart-before_run t c n (run t' c' n' ∷ run t'' c'' n'' ∷ bs) h = ground arith

-- Folding loses nothing and folds all: for each target the blocks hold as many chunks and bytes as
-- the events, and no two neighbouring blocks are runs for one target.
pub blocks_complete :
    (t : Str) (es : List Event)
    → (sum_by (chunks_for t) (blocks es) ≡ count_by (is_chunk_for t) es)
      × (sum_by (bytes_for t) (blocks es) ≡ sum_by (event_bytes_for t) es)
      × (all_apart (blocks es) ≡ true)
unfolding blocks
blocks_complete t [] = (refl, refl, refl)
blocks_complete t (line l ∷ es) =
    let (c, b, a) = blocks_complete t es in (omega (arith, c), omega (arith, b), a)
blocks_complete t (chunk t' n ∷ es) =
    let (c, b, a) = blocks_complete t es in
    (rw (chunks-before_run, c), rw (bytes-before_run, b), all_apart-before_run t' 1 n (blocks es) a)
