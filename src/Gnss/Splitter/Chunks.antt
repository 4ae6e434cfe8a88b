-- ===== src/Gnss/Splitter/Chunks.antt =====
-- How the UART cuts the stream into reads does not matter to the splitter.
use rtkbase.Prelude.{
  ℕ, zero, suc, ◌+◌, ◌-◌, ◌*◌, ◌<◌, ◌≤◌, ◌≡◌, refl, ap, subst, sym, inl, inr, List, [], ◌∷◌, ◌++◌,
  Option, none, some, arith, length, length-append, All, Option-cases, Bool-cases, ◌==◌, ltb,
  if◌then◌else◌,
}
use rtkbase.Gnss.Splitter.{
  Splitter, Event, splitter_push_byte, Source, from_data, from_replay, Cursor, start_replay,
  process_byte, process_step, process_loop, rounds_per_byte, Reader, cursor_at, reader_of,
  splitter_process_bytes,
}
use rtkbase.Gnss.Splitter.Inv.{IsByte, IsValid}
use rtkbase.Gnss.Splitter.Loop.{process_loop-ends}

-- The same cursor, where the caller's data goes on with `more`.
abbrev extend_in : Source → Cursor → List ℕ → Cursor
extend_in from_data c more = record c { src = c.src ++ more }
extend_in (from_replay resume) c more = record c { source = from_replay (resume ++ more) }

abbrev extend : Cursor → List ℕ → Cursor
extend c more = extend_in c.source c more

data_cursor : Splitter → List ℕ → List Event → Cursor
data_cursor s src ev = record { splitter = s; source = from_data; src = src; events = ev }

replay_cursor : Splitter → List ℕ → List ℕ → List Event → Cursor
replay_cursor s resume src ev = record {
  splitter = s;
  source = from_replay resume;
  src = src;
  events = ev;
}

process_byte-extend_data :
    (s : Splitter) (b : ℕ) (rest more : List ℕ) (ev : List Event)
    → process_byte (data_cursor s (b ∷ rest ++ more) ev) b (rest ++ more)
      ≡ extend (process_byte (data_cursor s (b ∷ rest) ev) b rest) more
unfolding process_byte data_cursor start_replay
process_byte-extend_data s b rest more ev =
    elim (Option-cases (splitter_push_byte s b).replay_start) [
      | inl e ↦ rw (e, process_byte)
      | inr (k, e) ↦
          let t = (splitter_push_byte s b).splitter in
          elim (Bool-cases ((if ltb k t.buf_pos then t.buf_pos - k else 0) == 0)) [
            | inl f ↦ rw (e, process_byte, f)
            | inr f ↦ rw (e, process_byte, f)
          ]
    ]

process_byte-extend_replay :
    (s : Splitter) (b : ℕ) (rest resume more : List ℕ) (ev : List Event)
    → process_byte (replay_cursor s (resume ++ more) (b ∷ rest) ev) b rest
      ≡ extend (process_byte (replay_cursor s resume (b ∷ rest) ev) b rest) more
unfolding process_byte replay_cursor start_replay
process_byte-extend_replay s b rest resume more ev =
    elim (Option-cases (splitter_push_byte s b).replay_start) [
      | inl e ↦ rw (e, process_byte)
      | inr (k, e) ↦
          let t = (splitter_push_byte s b).splitter in
          elim (Bool-cases ((if ltb k t.buf_pos then t.buf_pos - k else 0) == 0)) [
            | inl f ↦ rw (e, process_byte, f)
            | inr f ↦ rw (e, process_byte, f)
          ]
    ]

some_cursor : {a b : Cursor} → ◌≡◌ {A = Option Cursor} (some a) (some b) → a ≡ b
some_cursor e = cc

step-extend_in :
    (s : Splitter) (source : Source) (src : List ℕ) (ev : List Event) (more : List ℕ) (c' : Cursor)
    → process_step (record { splitter = s; source = source; src = src; events = ev }) ≡ some c'
    → process_step (extend (record { splitter = s; source = source; src = src; events = ev }) more)
      ≡ some (extend c' more)
unfolding process_step data_cursor replay_cursor
step-extend_in s from_data [] ev more c' e = absurd (cc)
step-extend_in s from_data (b ∷ rest) ev more c' e =
    subst
      (λ c.
        some (process_byte (data_cursor s (b ∷ rest ++ more) ev) b (rest ++ more))
        ≡ some (extend c more))
      (some_cursor e) (ap some (process_byte-extend_data s b rest more ev))
step-extend_in s (from_replay resume) [] ev more c' e =
    subst (λ c. some (data_cursor s (resume ++ more) ev) ≡ some (extend c more)) (some_cursor e)
      refl
step-extend_in s (from_replay resume) (b ∷ rest) ev more c' e =
    subst
      (λ c.
        some (process_byte (replay_cursor s (resume ++ more) (b ∷ rest) ev) b rest)
        ≡ some (extend c more))
      (some_cursor e) (ap some (process_byte-extend_replay s b rest resume more ev))

-- A round is the same whatever data will follow.
step-extend :
    (c : Cursor) (more : List ℕ) (c' : Cursor)
    → process_step c ≡ some c'
    → process_step (extend c more) ≡ some (extend c' more)
step-extend c more c' e = step-extend_in c.splitter c.source c.src c.events more c' e

last-extend_in :
    (s : Splitter) (source : Source) (src : List ℕ) (ev : List Event) (more : List ℕ)
    → process_step (record { splitter = s; source = source; src = src; events = ev }) ≡ none
    → extend (record { splitter = s; source = source; src = src; events = ev }) more
      ≡ data_cursor s more ev
unfolding process_step data_cursor
last-extend_in s from_data [] ev more e = refl
last-extend_in s from_data (b ∷ rest) ev more e = absurd (cc)
last-extend_in s (from_replay resume) [] ev more e = absurd (cc)
last-extend_in s (from_replay resume) (b ∷ rest) ev more e = absurd (cc)

-- At the end of the data the loop is ready for more.
last-extend :
    (c : Cursor) (more : List ℕ)
    → process_step c ≡ none
    → extend c more ≡ cursor_at (reader_of c) more
unfolding data_cursor
last-extend c more e = last-extend_in c.splitter c.source c.src c.events more e

-- More fuel gives the same result.
pub process_loop_mono :
    (f g : ℕ) (c r : Cursor) → f ≤ g → process_loop f c ≡ some r → process_loop g c ≡ some r
unfolding process_loop
process_loop_mono zero g c r h e = absurd (cc)
process_loop_mono (suc f) zero c r h e = absurd (omega arith)
process_loop_mono (suc f) (suc g) c r h e = elim (Option-cases (process_step c)) [
  | inl last ↦ rw (last, process_loop) (rw (last, process_loop) at e)
  | inr (c', more) ↦
      rw (more, process_loop)
        (process_loop_mono f g c' r (omega arith) (rw (more, process_loop) at e))
]

process_loop-pos : (g : ℕ) (c r : Cursor) → process_loop g c ≡ some r → 0 < g
unfolding process_loop
process_loop-pos zero c r e = absurd (cc)
process_loop-pos (suc g) c r e = omega arith

-- The round that ends the first part is not made again.
process_loop-join :
    (f g h : ℕ) (c r t : Cursor) (more : List ℕ)
    → f + g ≤ suc h
    → process_loop f c ≡ some r
    → process_loop g (extend r more) ≡ some t
    → process_loop h (extend c more) ≡ some t
unfolding process_loop
process_loop-join zero g h c r t more le e k = absurd (cc)
process_loop-join (suc f) g h c r t more le e k = elim (Option-cases (process_step c)) [
  | inl last ↦
      let same : c ≡ r = some_cursor (rw (last, process_loop) at e) in
      process_loop_mono g h (extend c more) t (omega arith)
        (subst (λ (x : Cursor). process_loop g (extend x more) ≡ some t) (sym same) k)
  | inr (c', next) ↦
      let e' : process_loop f c' ≡ some r = rw (next, process_loop) at e in
      let h' : ℕ = h - 1 in
      let eh : h ≡ suc h' =
        omega (arith, process_loop-pos f c' r e', process_loop-pos g (extend r more) t k) in
      rw (eh, step-extend c more c' next, process_loop)
        (process_loop-join f g h' c' r t more (omega arith) e' k)
]

-- The rest of the stream, after an outcome of its first part.
abbrev pub then_process : Option Reader → List ℕ → Option Reader
then_process none bytes = none
then_process (some r) bytes = splitter_process_bytes r bytes

-- From a valid splitter, two reads of the UART one after the other leave the splitter, and report
-- the frames and errors, as one read of all their bytes does, also where the first read ends in the
-- middle of a frame or where replays span the cut.
pub splitter_process_bytes-append :
    (r : Reader) (xs ys : List ℕ)
    → IsValid r.splitter
    → All IsByte xs
    → All IsByte ys
    → splitter_process_bytes r (xs ++ ys) ≡ then_process (splitter_process_bytes r xs) ys
unfolding splitter_process_bytes
splitter_process_bytes-append r xs ys v hx hy =
    let (c, run, ok, last) = process_loop-ends r xs v hx in
    let (t, go, _, _) = process_loop-ends (reader_of c) ys ok.valid hy in
    let whole : process_loop (rounds_per_byte * length (xs ++ ys) + 1) (cursor_at r (xs ++ ys))
        ≡ some t =
      process_loop-join (rounds_per_byte * length xs + 1) (rounds_per_byte * length ys + 1) _
        (cursor_at r xs) c t ys (omega (arith, length-append xs ys)) run
        (subst (λ (x : Cursor). process_loop (rounds_per_byte * length ys + 1) x ≡ some t)
          (sym (last-extend c ys last)) go) in
    rw (whole, splitter_process_bytes, run, go)
