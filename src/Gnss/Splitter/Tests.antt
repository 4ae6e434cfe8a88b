-- ===== src/Gnss/Splitter/Tests.antt =====
-- The splitter on concrete streams.
use rtkbase.Prelude.{
  ℕ, zero, suc, ◌≡◌, refl, List, [], ◌∷◌, ◌++◌, Option, none, some, arith, All, length,
  length-replicate, replicate,
}
use rtkbase.Gnss.Crc.{crc24q}
use rtkbase.Gnss.Splitter.{
  Splitter, hunt, rtcm_hdr, Event, bad_len, crc_fail, splitter_init, splitter_push_byte, push_hunt,
  push_hdr, push_body, start_replay, process_byte, process_step, process_loop, Reader,
  splitter_process_bytes,
}
use rtkbase.Gnss.Splitter.Inv.{IsByte, IsValid, Outcome, splitter_push_byte-Outcome}
use rtkbase.Gnss.Splitter.Loop.{splitter_process_bytes-total}
use rtkbase.Gnss.Splitter.Chunks.{then_process, splitter_process_bytes-append}
use rtkbase.Gnss.Splitter.Frames.{EventOk, splitter_process_bytes-EventOk}
use rtkbase.Gnss.Splitter.Roundtrip.{
  encode, encode-IsFrame, Stream, stream_bytes, stream_events, splitter_process_bytes-stream,
}
use rtkbase.Gnss.Splitter.Nested.{replaying, process_byte-forgets}

abbrev pub zeros : List ℕ
zeros = replicate 1029 0

abbrev pub fresh : Splitter
fresh = record { state = hunt; buf = zeros; buf_pos = 0; rtcm_payload_len = 0; rtcm_total_len = 0 }

abbrev pub start : Reader
start = record { splitter = fresh; events = [] }

zeros_are_bytes : (n : ℕ) → All IsByte (replicate n 0)
zeros_are_bytes zero = tt
zeros_are_bytes (suc n) = (omega arith, zeros_are_bytes n)

zeros-length : length zeros ≡ 1029
zeros-length = length-replicate {A = ℕ} 1029 0

pub fresh-IsValid : IsValid fresh
fresh-IsValid = record { size = zeros-length; bytes = zeros_are_bytes 1029; collected = refl }

-- A text line, a frame of two bytes of payload, another of one byte.
abbrev two_frames : Stream
two_frames = (0x24 ∷ 0x47 ∷ 0x0a ∷ [], encode (1 ∷ 2 ∷ [])) ∷ ([], encode (0xd3 ∷ [])) ∷ []

splitter_process_bytes-stream_example :
    (r' : Reader) × (splitter_process_bytes start (stream_bytes two_frames) ≡ some r')
    × (r'.events ≡ [] ++ stream_events two_frames)
    × (r'.splitter.state ≡ hunt)
splitter_process_bytes-stream_example =
    splitter_process_bytes-stream two_frames start refl zeros-length (
      (omega arith, (omega arith, (omega arith, tt))),
      encode-IsFrame (1 ∷ 2 ∷ []) (omega arith) (omega arith),
      (tt, encode-IsFrame (0xd3 ∷ []) (omega arith) (omega arith), tt),
    )

-- A false header whose checksum fails: three bytes of header, one of payload, three of checksum.
abbrev false_frame : List ℕ
false_frame = 0xd3 ∷ 0 ∷ 1 ∷ 0xd3 ∷ 0 ∷ 0 ∷ 9 ∷ []

splitter_process_bytes-total_example :
    (r' : Reader) × (splitter_process_bytes start false_frame ≡ some r') × IsValid r'.splitter
splitter_process_bytes-total_example =
    splitter_process_bytes-total start false_frame fresh-IsValid (omega arith)

-- The cut falls into the replay of the false frame.
splitter_process_bytes-append_example :
    splitter_process_bytes start (false_frame ++ (1 ∷ 2 ∷ []))
    ≡ then_process (splitter_process_bytes start false_frame) (1 ∷ 2 ∷ [])
splitter_process_bytes-append_example =
    splitter_process_bytes-append start false_frame (1 ∷ 2 ∷ []) fresh-IsValid (omega arith)
      (omega arith)

splitter_push_byte-Outcome_example :
    let p = splitter_push_byte fresh 0xd3 in Outcome 0 p p.replay_start
splitter_push_byte-Outcome_example =
    splitter_push_byte-Outcome fresh 0xd3 fresh-IsValid (omega arith)

abbrev events_of : Option Reader → List Event
events_of none = []
events_of (some r) = r.events

-- The example message, and the one after a false frame in which it lies: this one is lost, since the
-- replay of the false frame meets another false header before it.
abbrev inner : List ℕ
inner = encode (0x2a ∷ [])

abbrev lost_stream : List ℕ
lost_stream = (0xd3 ∷ 0 ∷ 10 ∷ 0xd3 ∷ 0 ∷ 0 ∷ []) ++ (inner ++ (0 ∷ 0 ∷ 0 ∷ []))

lost_frame : events_of (splitter_process_bytes start lost_stream) ≡ crc_fail ∷ bad_len 0 ∷ []
unfolding splitter_process_bytes process_loop process_step process_byte start_replay
    splitter_push_byte push_hunt push_hdr push_body splitter_init crc24q encode
lost_frame = refl

-- Two bytes of a false header, the second time round.
abbrev in_header : Splitter
in_header = record fresh { state = rtcm_hdr; buf = 0xd3 ∷ replicate 1028 0; buf_pos = 2 }

in_header-IsValid : IsValid in_header
in_header-IsValid = record {
  size = zeros-length;
  bytes = (omega arith, zeros_are_bytes 1028);
  collected = (omega arith, omega arith, refl);
}

asks_for_replay : (splitter_push_byte in_header 0).replay_start ≡ some 1
unfolding splitter_push_byte push_hdr
asks_for_replay = refl

process_byte-forgets_example :
    process_byte (replaying in_header [] (0 ∷ inner) []) 0 inner
    ≡ process_byte (replaying in_header [] (0 ∷ []) []) 0 []
process_byte-forgets_example =
    process_byte-forgets in_header 0 1 [] inner [] [] in_header-IsValid (omega arith)
      asks_for_replay

inner_bytes : All IsByte inner
unfolding encode crc24q
inner_bytes = omega arith

-- After one frame, the splitter on bytes that end in the middle of another.
after_frame : (r' : Reader) × (splitter_process_bytes start inner ≡ some r') × IsValid r'.splitter
after_frame = splitter_process_bytes-total start inner fresh-IsValid inner_bytes

splitter_process_bytes-EventOk_example : All EventOk after_frame.0.events
splitter_process_bytes-EventOk_example =
    splitter_process_bytes-EventOk start after_frame.0 inner fresh-IsValid inner_bytes tt
      after_frame.1
