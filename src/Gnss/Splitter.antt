-- ===== src/Gnss/Splitter.antt =====
-- main/gnss_uart.c: the frame splitter, a state machine over the bytes of the UART, with the
-- replay of the bytes of a frame that turns out to be false.
pub mod Inv
pub mod Loop
pub mod Frames
pub mod Chunks
pub mod Roundtrip
pub mod Nested
pub mod Tests
use rtkbase.Prelude.{
  ℕ, zero, suc, ◌+◌, ◌-◌, ◌*◌, ◌%◌, ◌^◌, Bool, true, false, ◌||◌, List, [], ◌∷◌, ◌++◌, Option, none,
  some, ◌==◌, ltb, leb, get_or, set, take, drop, if◌then◌else◌, length,
}
use rtkbase.Pool.{max_rtcm_frame}
use rtkbase.Gnss.Crc.{crc24q}

-- `splitter_state_t`.
pub data SplitterState : Type 0 where
  hunt rtcm_hdr rtcm_body : SplitterState

-- `splitter_t`.
pub record Splitter : Type 0 where
  pub state : SplitterState
  pub buf : List ℕ
  pub buf_pos : ℕ
  pub rtcm_payload_len : ℕ
  pub rtcm_total_len : ℕ

-- What the splitter reports: a frame handed to `publish_rtcm_frame`, a call of `log_rtcm_bad_len` or
-- of `log_rtcm_crc_fail`, or the logged overflow.
pub data Event : Type 0 where
  published : List ℕ → Event
  bad_len : ℕ → Event
  crc_fail overflow : Event

-- The result of one byte: `replay_start` is the returned index, `none` for -1.
pub record Pushed : Type 0 where
  pub splitter : Splitter
  pub replay_start : Option ℕ
  pub events : List Event

abbrev pub byte_at : List ℕ → ℕ → ℕ
byte_at buf i = get_or buf i 0

unfoldable pub splitter_init : Splitter → Splitter
splitter_init s = record s { state = hunt; buf_pos = 0 }

abbrev pub quiet : Splitter → Pushed
quiet s = record { splitter = s; replay_start = none; events = [] }

-- `s->buf[s->buf_pos++] = b`
abbrev pub append_byte : Splitter → ℕ → Splitter
append_byte s b = record s { buf = set s.buf s.buf_pos b; buf_pos = s.buf_pos + 1 }

unfoldable pub push_hunt : Splitter → ℕ → Pushed
push_hunt s b =
    if b == 0xd3
    then quiet (record s { buf = set s.buf 0 b; buf_pos = 1; state = rtcm_hdr })
    else quiet s

-- The ten-bit length: the two fields of the `|` are disjoint, so their sum is the same.
abbrev pub header_len : List ℕ → ℕ
header_len buf = byte_at buf 1 % 4 * 256 + byte_at buf 2

unfoldable pub push_hdr : Splitter → ℕ → Pushed
push_hdr s b =
    let t = append_byte s b in
    let len = header_len t.buf in
    if t.buf_pos == 3
    then if len == 0 || ltb 1023 len
      then record { splitter = t; replay_start = some 1; events = bad_len len ∷ [] }
      else quiet
          (record t { rtcm_payload_len = len; rtcm_total_len = 3 + len + 3; state = rtcm_body })
    else quiet t

-- The three checksum bytes that end a frame of `n` bytes.
abbrev pub received_crc : List ℕ → ℕ → ℕ
received_crc buf n =
    byte_at buf (n - 3) * 2 ^ 16 + byte_at buf (n - 2) * 2 ^ 8 + byte_at buf (n - 1)

unfoldable pub push_body : Splitter → ℕ → Pushed
unfolding push_hunt splitter_init
push_body s b =
    let again = push_hunt (splitter_init s) b in
    let t = append_byte s b in
    let n = s.rtcm_total_len in
    if leb max_rtcm_frame s.buf_pos
    then record again { events = overflow ∷ again.events }
    else if t.buf_pos == n
    then if crc24q (take (n - 3) t.buf) == received_crc t.buf n
      then record {
        splitter = splitter_init t;
        replay_start = none;
        events = published (take n t.buf) ∷ [];
      }
      else record { splitter = t; replay_start = some 1; events = crc_fail ∷ [] }
    else quiet t

-- The `switch` on the state.
abbrev pub push_in : SplitterState → Splitter → ℕ → Pushed
push_in hunt s b = push_hunt s b
push_in rtcm_hdr s b = push_hdr s b
push_in rtcm_body s b = push_body s b

unfoldable pub splitter_push_byte : Splitter → ℕ → Pushed
splitter_push_byte s b = push_in s.state s b

-- Where `src` points: to the caller's data, or to `replay_buf`, with the caller's bytes from
-- `resume_i` on.
pub data Source : Type 0 where
  from_data : Source
  from_replay : List ℕ → Source

-- The loop's variables: `src` is what is left of the source, and `events` what has been reported.
pub record Cursor : Type 0 where
  pub splitter : Splitter
  pub source : Source
  pub src : List ℕ
  pub events : List Event

-- `resume_i = i` only where the source is the caller's data.
abbrev pub resume_from : Source → List ℕ → Source
resume_from from_data rest = from_replay rest
resume_from (from_replay resume) rest = from_replay resume

-- After a push that asks for a replay from index `k`. What was left of an older replay is
-- overwritten.
unfoldable pub start_replay : Cursor → Splitter → ℕ → List ℕ → List Event → Cursor
unfolding splitter_init
start_replay c s k rest events =
    let replay_len = if ltb k s.buf_pos then s.buf_pos - k else 0 in
    if replay_len == 0
    then record c { splitter = splitter_init s; src = rest; events = events }
    else record {
      splitter = splitter_init s;
      source = resume_from c.source rest;
      src = take replay_len (drop k s.buf);
      events = events;
    }

-- One round of the inner loop.
unfoldable pub process_byte : Cursor → ℕ → List ℕ → Cursor
process_byte c b rest =
    let p = splitter_push_byte c.splitter b in
    let events = c.events ++ p.events in
    elim p.replay_start [
      | none ↦ record c { splitter = p.splitter; src = rest; events = events }
      | some k ↦ start_replay c p.splitter k rest events
    ]

-- The end of the source: `none` is the `break`.
abbrev pub end_of : Cursor → Source → Option Cursor
end_of c from_data = none
end_of c (from_replay resume) = some (record c { source = from_data; src = resume })

abbrev pub process_from : Cursor → List ℕ → Option Cursor
process_from c [] = end_of c c.source
process_from c (b ∷ rest) = some (process_byte c b rest)

unfoldable pub process_step : Cursor → Option Cursor
process_step c = process_from c c.src

-- Both loops, on fuel: `none` means that the fuel ran out.
unfoldable pub process_loop : ℕ → Cursor → Option Cursor
process_loop zero c = none
process_loop (suc fuel) c = elim (process_step c) [ none ↦ some c | some c' ↦ process_loop fuel c' ]

-- A byte of the data costs at most this many rounds, replays included.
abbrev pub rounds_per_byte : ℕ
rounds_per_byte = 1029 * 1029 + 1

-- The splitter, and what it has reported so far.
pub record Reader : Type 0 where
  pub splitter : Splitter
  pub events : List Event

abbrev pub cursor_at : Reader → List ℕ → Cursor
cursor_at r bytes = record {
  splitter = r.splitter;
  source = from_data;
  src = bytes;
  events = r.events;
}

abbrev pub reader_of : Cursor → Reader
reader_of c = record { splitter = c.splitter; events = c.events }

unfoldable pub splitter_process_bytes : Reader → List ℕ → Option Reader
splitter_process_bytes r bytes =
    elim (process_loop (rounds_per_byte * length bytes + 1) (cursor_at r bytes)) [
      | none ↦ none
      | some c ↦ some (reader_of c)
    ]
