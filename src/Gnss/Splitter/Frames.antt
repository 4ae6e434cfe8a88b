-- ===== src/Gnss/Splitter/Frames.antt =====
-- Whatever the splitter publishes is a well-formed RTCM3 frame with the right checksum.
use rtkbase.Prelude.{
  ℕ, zero, suc, ◌+◌, ◌-◌, ◌*◌, ◌≤◌, ◌≡◌, refl, subst, ◌∙◌, inl, inr, List, [], ◌∷◌, ◌++◌, Option,
  none, some, arith, length, take, All, All-append, Option-cases, Bool-cases, ◌==◌, ltb,
  if◌then◌else◌, length-take, length-set, get_or-take, take-take, set,
}
use rtkbase.Gnss.Crc.{crc24q}
use rtkbase.Gnss.Splitter.{
  Splitter, SplitterState, hunt, rtcm_hdr, rtcm_body, Event, published, bad_len, crc_fail, overflow,
  byte_at, header_len, received_crc, push_hunt, push_hdr, push_body, push_in, splitter_push_byte,
  Source, from_data, from_replay, Cursor, start_replay, process_byte, process_from, end_of,
  process_step, process_loop, rounds_per_byte, Reader, cursor_at, reader_of, splitter_process_bytes,
}
use rtkbase.Gnss.Splitter.Inv.{IsByte, IsValid, Collected, byte_at-set_lt}
use rtkbase.Gnss.Splitter.Loop.{IsCursor, cursor_at-IsCursor, process_step-IsCursor}

-- An RTCM3 frame: preamble, ten-bit length of the payload, and CRC-24Q of all that stands before it.
pub record IsFrame (f : List ℕ) : Type 0 where
  pub preamble : byte_at f 0 ≡ 0xd3
  pub sized : length f ≡ header_len f + 6
  pub nonempty : 1 ≤ header_len f
  pub small : header_len f ≤ 1023
  pub checked : crc24q (take (length f - 3) f) ≡ received_crc f (length f)

-- A published frame is well formed.
abbrev pub EventOk : Event → Type 0
EventOk (published f) = IsFrame f
EventOk (bad_len n) = Unit {0}
EventOk crc_fail = Unit {0}
EventOk overflow = Unit {0}

-- The first `n` bytes of a buffer whose header asks for `n`, and whose checksum fits.
take-IsFrame :
    (buf : List ℕ) (n : ℕ)
    → length buf ≡ 1029
    → n ≤ 1029
    → n ≡ header_len buf + 6
    → 1 ≤ header_len buf
    → header_len buf ≤ 1023
    → byte_at buf 0 ≡ 0xd3
    → crc24q (take (n - 3) buf) ≡ received_crc buf n
    → IsFrame (take n buf)
take-IsFrame buf n size fits total pos small pre crc =
    let len : length (take n buf) ≡ n = omega (arith, length-take n buf) in
    let b0 : byte_at (take n buf) 0 ≡ byte_at buf 0 = get_or-take buf n 0 0 (omega arith) in
    let b1 : byte_at (take n buf) 1 ≡ byte_at buf 1 = get_or-take buf n 1 0 (omega arith) in
    let b2 : byte_at (take n buf) 2 ≡ byte_at buf 2 = get_or-take buf n 2 0 (omega arith) in
    record {
      preamble = b0 ∙ pre;
      sized = omega arith;
      nonempty = omega arith;
      small = omega arith;
      checked =
          rw (len, take-take buf (n - 3) n (omega arith))
            (omega (
              arith,
              crc,
              get_or-take buf n (n - 3) 0 (omega arith),
              get_or-take buf n (n - 2) 0 (omega arith),
              get_or-take buf n (n - 1) 0 (omega arith),
            ));
    }

push_body-EventOk :
    (s : Splitter) (b : ℕ)
    → length s.buf ≡ 1029
    → Collected rtcm_body s
    → All EventOk (push_body s b).events
unfolding push_body
push_body-EventOk s b size c = ground (
  arith,
  length-set s.buf s.buf_pos b,
  byte_at-set_lt s.buf s.buf_pos 0 b,
  byte_at-set_lt s.buf s.buf_pos 1 b,
  byte_at-set_lt s.buf s.buf_pos 2 b,
  take-IsFrame (set s.buf s.buf_pos b) s.rtcm_total_len,
)

push_in-EventOk :
    (st : SplitterState) (s : Splitter) (b : ℕ)
    → s.state ≡ st
    → IsValid s
    → All EventOk (push_in st s b).events
unfolding push_hunt push_hdr
push_in-EventOk hunt s b e v = ground arith
push_in-EventOk rtcm_hdr s b e v = ground arith
push_in-EventOk rtcm_body s b e v =
    push_body-EventOk s b v.size (subst (λ st. Collected st s) e v.collected)

process_byte-EventOk :
    (c : Cursor) (b : ℕ) (rest : List ℕ)
    → IsValid c.splitter
    → All EventOk c.events
    → All EventOk (process_byte c b rest).events
unfolding process_byte splitter_push_byte start_replay
process_byte-EventOk c b rest v ok =
    let p = splitter_push_byte c.splitter b in
    let all : All EventOk (c.events ++ p.events) =
      All-append EventOk c.events p.events ok
        (push_in-EventOk c.splitter.state c.splitter b refl v) in
    elim (Option-cases p.replay_start) [
      | inl e ↦ rw (e, process_byte) all
      | inr (k, e) ↦
          let pos = p.splitter.buf_pos in
          elim (Bool-cases ((if ltb k pos then pos - k else 0) == 0)) [
            | inl f ↦ rw (e, process_byte, f) all
            | inr f ↦ rw (e, process_byte, f) all
          ]
    ]

some_cursor : {a b : Cursor} → ◌≡◌ {A = Option Cursor} (some a) (some b) → a ≡ b
some_cursor e = cc

some_reader : {a b : Reader} → ◌≡◌ {A = Option Reader} (some a) (some b) → a ≡ b
some_reader e = cc

end-EventOk :
    (c : Cursor) (src : Source) (c' : Cursor)
    → All EventOk c.events
    → end_of c src ≡ some c'
    → All EventOk c'.events
end-EventOk c from_data c' ok e = absurd (cc)
end-EventOk c (from_replay resume) c' ok e =
    subst (λ (x : Cursor). All EventOk x.events) (some_cursor e) ok

process_from-EventOk :
    (c : Cursor) (src : List ℕ) (c' : Cursor)
    → IsValid c.splitter
    → All EventOk c.events
    → process_from c src ≡ some c'
    → All EventOk c'.events
process_from-EventOk c [] c' v ok e = end-EventOk c c.source c' ok e
process_from-EventOk c (b ∷ rest) c' v ok e =
    subst (λ (x : Cursor). All EventOk x.events) (some_cursor e)
      (process_byte-EventOk c b rest v ok)

process_loop-EventOk :
    (fuel : ℕ) (c r : Cursor)
    → IsCursor c
    → All EventOk c.events
    → process_loop fuel c ≡ some r
    → All EventOk r.events
unfolding process_loop process_step
process_loop-EventOk zero c r v ok e = absurd (cc)
process_loop-EventOk (suc fuel) c r v ok e = elim (Option-cases (process_step c)) [
  | inl last ↦
      subst (λ (x : Cursor). All EventOk x.events) (some_cursor (rw (last, process_loop) at e)) ok
  | inr (c', next) ↦
      process_loop-EventOk fuel c' r (process_step-IsCursor c c' v next)
        (process_from-EventOk c c.src c' v.valid ok next) (rw (next, process_loop) at e)
]

-- Every frame that `splitter_process_bytes` hands to `publish_rtcm_frame`, from a valid splitter and
-- on whatever bytes, replays included, begins with the preamble, has the length that its header
-- states, between 1 and 1023 bytes of payload, and ends in the CRC-24Q of the bytes before it.
pub splitter_process_bytes-EventOk :
    (r r' : Reader) (bytes : List ℕ)
    → IsValid r.splitter
    → All IsByte bytes
    → All EventOk r.events
    → splitter_process_bytes r bytes ≡ some r'
    → All EventOk r'.events
unfolding splitter_process_bytes
splitter_process_bytes-EventOk r r' bytes v hb ok e =
    let fuel : ℕ = rounds_per_byte * length bytes + 1 in
    elim (Option-cases (process_loop fuel (cursor_at r bytes))) [
      | inl out ↦
          absurd (let no_result : none ≡ some r' = rw (out, splitter_process_bytes) at e in cc)
      | inr (c, run) ↦
          let same : reader_of c ≡ r' = some_reader (rw (run, splitter_process_bytes) at e) in
          subst (λ (x : Reader). All EventOk x.events) same
            (process_loop-EventOk fuel (cursor_at r bytes) c (cursor_at-IsCursor r bytes v hb) ok
              run)
    ]
