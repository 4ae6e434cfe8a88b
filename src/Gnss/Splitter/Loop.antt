-- ===== src/Gnss/Splitter/Loop.antt =====
-- The loops of `splitter_process_bytes` end: every replay is shorter than the one before it.
use rtkbase.Prelude.{
  ℕ, zero, suc, ◌+◌, ◌-◌, ◌*◌, ◌<◌, ◌≤◌, ◌≡◌, refl, ap, subst, inl, inr, List, [], ◌∷◌, Option,
  none, some, arith, take, drop, length, length-take, length-drop, All, Option-cases, ◌==◌, ltb,
  lt→ltb, true, false,
}
use rtkbase.Gnss.Splitter.{
  Splitter, Event, splitter_init, splitter_push_byte, Source, from_data, from_replay, Cursor,
  start_replay, resume_from, process_byte, process_from, process_step, process_loop,
  rounds_per_byte, Reader, cursor_at, reader_of, end_of, splitter_process_bytes,
}
use rtkbase.Gnss.Splitter.Inv.{IsByte, IsValid, CanReplay, Outcome, splitter_push_byte-Outcome}

-- A replay is shorter than the buffer, with what the splitter has collected of it counted in.
abbrev pub SourceOk : Source → Cursor → Type 0
SourceOk from_data c = Unit {0}
SourceOk (from_replay resume) c = All IsByte resume × (c.splitter.buf_pos + length c.src ≤ 1028)

pub record IsCursor (c : Cursor) : Type 0 where
  pub valid : IsValid c.splitter
  pub bytes : All IsByte c.src
  pub source_ok : SourceOk c.source c

abbrev rounds_in : Source → ℕ → ℕ → ℕ
rounds_in from_data pos n = rounds_per_byte * n
rounds_in (from_replay resume) pos n = rounds_per_byte * length resume + 1029 * (pos + n) + n + 1

-- How many rounds are left at most.
pub rounds_left : Cursor → ℕ
rounds_left c = rounds_in c.source c.splitter.buf_pos (length c.src)

All-take : (P : ℕ → Type 0) (n : ℕ) (xs : List ℕ) → All P xs → All P (take n xs)
All-take P zero xs h = tt
All-take P (suc n) [] h = tt
All-take P (suc n) (x ∷ xs) h = (h.0, All-take P n xs h.1)

All-drop : (P : ℕ → Type 0) (n : ℕ) (xs : List ℕ) → All P xs → All P (drop n xs)
All-drop P zero xs h = h
All-drop P (suc n) [] h = tt
All-drop P (suc n) (x ∷ xs) h = All-drop P n xs h.1

init-IsValid : (s : Splitter) → length s.buf ≡ 1029 → All IsByte s.buf → IsValid (splitter_init s)
unfolding splitter_init
init-IsValid s size bytes = record { size = size; bytes = bytes; collected = refl }

-- The replay that a push of a byte of `src` asks for.
pub replayed : Splitter → List ℕ
replayed s = take (s.buf_pos - 1) (drop 1 s.buf)

length-replayed : (s : Splitter) → CanReplay s → length (replayed s) ≡ s.buf_pos - 1
unfolding replayed
length-replayed s v = omega (
  arith,
  length-take (s.buf_pos - 1) (drop 1 s.buf),
  length-drop 1 s.buf,
  v.size,
  v.fits,
  v.some_bytes,
)

pub start_replay-eq :
    (c : Cursor) (s : Splitter) (rest : List ℕ) (events : List Event)
    → CanReplay s
    → start_replay c s 1 rest events ≡ record {
      splitter = splitter_init s;
      source = resume_from c.source rest;
      src = replayed s;
      events = events;
    }
unfolding start_replay replayed
start_replay-eq c s rest events v =
    let more : ltb 1 s.buf_pos ≡ true = lt→ltb 1 s.buf_pos (omega (arith, v.some_bytes)) in
    let some_left : (s.buf_pos - 1 == 0) ≡ false = ground (arith, v.some_bytes) in
    rw (more, some_left)

replayed-IsByte : (s : Splitter) → CanReplay s → All IsByte (replayed s)
unfolding replayed
replayed-IsByte s v =
    All-take IsByte (s.buf_pos - 1) (drop 1 s.buf) (All-drop IsByte 1 s.buf v.bytes)

-- One round from a byte: the cursor stays good, and fewer rounds are left.
abbrev Shrinks : Cursor → Cursor → Type 0
Shrinks c c' = IsCursor c' × (rounds_left c' < rounds_left c)

replay-Shrinks :
    (c : Cursor) (src : Source) (s : Splitter) (b : ℕ) (rest : List ℕ) (events : List Event)
    → c.source ≡ src
    → c.src ≡ b ∷ rest
    → SourceOk src c
    → All IsByte rest
    → CanReplay s
    → s.buf_pos ≡ c.splitter.buf_pos + 1
    → Shrinks c (record {
      splitter = splitter_init s;
      source = resume_from src rest;
      src = replayed s;
      events = events;
    })
unfolding rounds_left splitter_init
replay-Shrinks c from_data s b rest events e f ok hb v p = (
  record {
    valid = init-IsValid s v.size v.bytes;
    bytes = replayed-IsByte s v;
    source_ok = (hb, omega (arith, length-replayed s v, v.fits));
  },
  omega (
    arith,
    length-replayed s v,
    v.fits,
    ap (λ src. rounds_in src c.splitter.buf_pos (length c.src)) e,
    ap length f,
  ),
)
replay-Shrinks c (from_replay resume) s b rest events e f ok hb v p = (
  record {
    valid = init-IsValid s v.size v.bytes;
    bytes = replayed-IsByte s v;
    source_ok = (ok.0, omega (arith, length-replayed s v, ok.1, ap length f));
  },
  omega (
    arith,
    length-replayed s v,
    v.some_bytes,
    ok.1,
    ap (λ src. rounds_in src c.splitter.buf_pos (length c.src)) e,
    ap length f,
  ),
)

quiet-Shrinks :
    (c : Cursor) (src : Source) (s : Splitter) (b : ℕ) (rest : List ℕ) (events : List Event)
    → c.source ≡ src
    → c.src ≡ b ∷ rest
    → SourceOk src c
    → All IsByte rest
    → IsValid s
    → s.buf_pos ≤ c.splitter.buf_pos + 1
    → Shrinks c (record { splitter = s; source = src; src = rest; events = events })
unfolding rounds_left
quiet-Shrinks c from_data s b rest events e f ok hb v p = (
  record { valid = v; bytes = hb; source_ok = tt },
  omega (arith, ap (λ src. rounds_in src c.splitter.buf_pos (length c.src)) e, ap length f),
)
quiet-Shrinks c (from_replay resume) s b rest events e f ok hb v p = (
  record { valid = v; bytes = hb; source_ok = (ok.0, omega (arith, ok.1, ap length f)) },
  omega (arith, ap (λ src. rounds_in src c.splitter.buf_pos (length c.src)) e, ap length f),
)

process_byte-Shrinks :
    (c : Cursor) (b : ℕ) (rest : List ℕ)
    → IsCursor c
    → c.src ≡ b ∷ rest
    → Shrinks c (process_byte c b rest)
unfolding process_byte
process_byte-Shrinks c b rest v f =
    let p = splitter_push_byte c.splitter b in
    let hb : IsByte b × All IsByte rest = subst (All IsByte) f v.bytes in
    let out : Outcome c.splitter.buf_pos p p.replay_start =
      splitter_push_byte-Outcome c.splitter b v.valid hb.0 in
    elim (Option-cases p.replay_start) [
      | inl e ↦
          let (ok, le) = subst (Outcome c.splitter.buf_pos p) e out in
          rw (e, process_byte)
            (quiet-Shrinks c c.source p.splitter b rest _ refl f v.source_ok hb.1 ok le)
      | inr (k, e) ↦
          let (one, ok, pos) = subst (Outcome c.splitter.buf_pos p) e out in
          rw (e, one, process_byte, start_replay-eq c p.splitter rest _ ok)
            (replay-Shrinks c c.source p.splitter b rest _ refl f v.source_ok hb.1 ok pos)
    ]

-- A round that is not the last: its cursor is good, and fewer rounds are left.
StepOk : Cursor → Option Cursor → Type 0
StepOk c none = Unit {0}
StepOk c (some c') = Shrinks c c'

end-StepOk :
    (c : Cursor) (src : Source)
    → IsCursor c
    → c.source ≡ src
    → c.src ≡ []
    → SourceOk src c
    → StepOk c (end_of c src)
unfolding StepOk rounds_left
end-StepOk c from_data v e f ok = tt
end-StepOk c (from_replay resume) v e f ok = (
  record { valid = v.valid; bytes = ok.0; source_ok = tt },
  omega (arith, ap (λ src. rounds_in src c.splitter.buf_pos (length c.src)) e, ap length f),
)

process_from-StepOk :
    (c : Cursor) (src : List ℕ) → IsCursor c → c.src ≡ src → StepOk c (process_from c src)
unfolding StepOk
process_from-StepOk c [] v f = end-StepOk c c.source v refl f v.source_ok
process_from-StepOk c (b ∷ rest) v f = process_byte-Shrinks c b rest v f

-- A round keeps the cursor good.
pub process_step-IsCursor : (c c' : Cursor) → IsCursor c → process_step c ≡ some c' → IsCursor c'
unfolding process_step StepOk
process_step-IsCursor c c' v e = (subst (StepOk c) e (process_from-StepOk c c.src v refl)).0

process_loop-total :
    (fuel : ℕ) (c : Cursor)
    → IsCursor c
    → rounds_left c < fuel
    → (c' : Cursor) × (process_loop fuel c ≡ some c') × IsCursor c' × (process_step c' ≡ none)
unfolding process_loop process_step StepOk
process_loop-total zero c v h = absurd (omega arith)
process_loop-total (suc fuel) c v h =
    let ok : StepOk c (process_step c) = process_from-StepOk c c.src v refl in
    elim (Option-cases (process_step c)) [
      | inl e ↦ (c, rw (e, process_loop), v, e)
      | inr (c', e) ↦
          let (v', less) = subst (StepOk c) e ok in
          let (r, run, fine, last) = process_loop-total fuel c' v' (omega arith) in
          (r, rw (e, process_loop) run, fine, last)
    ]

pub cursor_at-IsCursor :
    (r : Reader) (bytes : List ℕ)
    → IsValid r.splitter
    → All IsByte bytes
    → IsCursor (cursor_at r bytes)
cursor_at-IsCursor r bytes v h = record { valid = v; bytes = h; source_ok = tt }

-- The loop of `splitter_process_bytes` ends within its fuel, at the end of the caller's data.
pub process_loop-ends :
    (r : Reader) (bytes : List ℕ)
    → IsValid r.splitter
    → All IsByte bytes
    → (c : Cursor) × (process_loop (rounds_per_byte * length bytes + 1) (cursor_at r bytes)
        ≡ some c)
      × IsCursor c
      × (process_step c ≡ none)
unfolding rounds_left
process_loop-ends r bytes v h =
    process_loop-total _ (cursor_at r bytes) (cursor_at-IsCursor r bytes v h) (omega arith)

-- From a valid splitter, `splitter_process_bytes` ends on every sequence of bytes, within 1029 * 1029
-- + 1 rounds for each byte, however its replays nest, and leaves a valid splitter.
pub splitter_process_bytes-total :
    (r : Reader) (bytes : List ℕ)
    → IsValid r.splitter
    → All IsByte bytes
    → (r' : Reader) × (splitter_process_bytes r bytes ≡ some r') × IsValid r'.splitter
unfolding splitter_process_bytes
splitter_process_bytes-total r bytes v h =
    let (c, run, ok, _) = process_loop-ends r bytes v h in
    (reader_of c, rw (run, splitter_process_bytes), ok.valid)
