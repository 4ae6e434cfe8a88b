-- ===== src/Caster/Stream.antt =====
-- The sending side of main/ntrip_caster.c: send_bytes_to_rover, flush_rover_pending,
-- send_frame_to_rover, close_rover, and the loop that forwards frames.
use rtkbase.Prelude.{
  ◌>>=◌, ℕ, ◌+◌, ◌%◌, ◌^◌, Bool, true, false, not, List, [], ◌∷◌, Option, none, some, length, drop,
  ltb, leb, ◌==◌, if◌then◌else◌,
}
use rtkbase.Lwip.{Socket}
use rtkbase.Lwip.SendLoop.{all_sent, blocked, sent_zero, send_failed, Sending, send_from}

abbrev pub max_rtcm_frame : ℕ
max_rtcm_frame = 1029

abbrev pub rover_stream_send_retries : ℕ
rover_stream_send_retries = 5

pub data RoverState : Type 0 where
  rover_empty : RoverState
  rover_handshake : RoverState
  rover_streaming : RoverState

-- The results 1, 0 and -1 of `send_bytes_to_rover`.
pub data SendResult : Type 0 where
  send_complete : SendResult
  send_blocked : SendResult
  send_closed : SendResult

-- The counters of `s_diag` that the sending changes, each a uint32_t.
pub record Diag : Type 0 where
  pub rover_block_events : ℕ
  pub rover_slow_drops : ℕ
  pub rover_send_errors : ℕ

abbrev pub is_streaming : RoverState → Bool
is_streaming rover_empty = false
is_streaming rover_handshake = false
is_streaming rover_streaming = true

abbrev count_blocks : Diag → ℕ → Diag
count_blocks d n = record d { rover_block_events = (d.rover_block_events + n) % 2 ^ 32 }

abbrev count_error : Diag → Diag
count_error d = record d { rover_send_errors = (d.rover_send_errors + 1) % 2 ^ 32 }

abbrev pub count_slow : Diag → Diag
count_slow d = record d { rover_slow_drops = (d.rover_slow_drops + 1) % 2 ^ 32 }

module _ (socket : Socket) where
  open socket use {State}

  -- `fd` is `none` for -1; `rx_buf` has the bytes below `rx_pos`, `tx_pending` those below
  -- `tx_pending_len`.
  pub record Rover : Type 0 where
    pub fd : Option State
    pub state : RoverState
    pub rx_buf : List ℕ
    pub is_ntrip_v2 : Bool
    pub tx_pending : List ℕ
    pub tx_pending_pos : ℕ

  unfoldable pub close_rover : Rover
  close_rover = record {
    fd = none;
    state = rover_empty;
    rx_buf = [];
    is_ntrip_v2 = false;
    tx_pending = [];
    tx_pending_pos = 0;
  }

  -- What a sending call leaves: its result, the offset, the rover and the counters.
  pub record Outcome : Type 0 where
    pub result : SendResult
    pub offset : ℕ
    pub rover : Rover
    pub diag : Diag

  -- How a sending loop that ended closes the rover or goes on with it.
  unfoldable pub after_send : Rover → Diag → Sending socket → Outcome
  unfolding close_rover
  after_send r d s =
      let counted = count_blocks d s.blocks in
      let closed : Outcome = record {
        result = send_closed;
        offset = s.offset;
        rover = close_rover;
        diag = count_error counted;
      } in
      elim s.ending [
        | all_sent ↦ record {
          result = send_complete;
          offset = s.offset;
          rover = record r { fd = some s.net };
          diag = counted;
        }
        | blocked ↦ record {
          result = send_blocked;
          offset = s.offset;
          rover = record r { fd = some s.net };
          diag = counted;
        }
        | sent_zero ↦ closed
        | send_failed errno ↦ closed
      ]

  -- On an fd of -1, send() fails.
  unfoldable pub send_bytes_to_rover : Rover → Diag → List ℕ → ℕ → Option Outcome
  unfolding close_rover after_send
  send_bytes_to_rover r d bytes offset = elim r.fd [
    | none ↦ some (
        if ltb offset (length bytes)
        then record {
          result = send_closed;
          offset = offset;
          rover = close_rover;
          diag = count_error d;
        }
        else record { result = send_complete; offset = offset; rover = r; diag = d })
    | some net ↦ do
      s ← send_from socket rover_stream_send_retries net bytes offset
      some (after_send r d s)
  ]

  abbrev no_pending : Rover → Rover
  no_pending r = record r { tx_pending = []; tx_pending_pos = 0 }

  -- `flush_rover_pending`: true once nothing is left over.
  unfoldable pub flush_rover_pending : Rover → Diag → Option (Bool × Rover × Diag)
  unfolding send_bytes_to_rover
  flush_rover_pending r d =
      let sent = (do
        o ← send_bytes_to_rover r d r.tx_pending r.tx_pending_pos
        some (elim o.result [
          | send_closed ↦ (false, no_pending o.rover, o.diag)
          | send_blocked ↦ (false, record o.rover { tx_pending_pos = o.offset }, o.diag)
          | send_complete ↦ (true, no_pending o.rover, o.diag)
        ])) in
      if leb (length r.tx_pending) r.tx_pending_pos then some (true, no_pending r, d) else sent

  -- What is left of a frame goes to `tx_pending`; `memcpy` past its end is `none`.
  unfoldable pub defer_tail : Outcome → List ℕ → Option (Bool × Rover × Diag)
  defer_tail o frame =
      let tail = drop o.offset frame in
      if leb (length tail) max_rtcm_frame
      then some (true, record o.rover { tx_pending = tail; tx_pending_pos = 0 }, o.diag)
      else none

  -- `send_frame_to_rover` once the older tail has gone out.
  unfoldable pub send_flushed : Rover → Diag → List ℕ → Option (Bool × Rover × Diag)
  unfolding send_bytes_to_rover defer_tail
  send_flushed r d frame = do
    o ← send_bytes_to_rover r d frame 0
    elim o.result [
      | send_complete ↦ some (true, o.rover, o.diag)
      | send_closed ↦ some (false, o.rover, o.diag)
      | send_blocked ↦
          if not (is_streaming o.rover.state)
          then some (false, o.rover, o.diag)
          else if o.offset == 0
          then some (false, o.rover, count_slow o.diag)
          else defer_tail o frame
    ]

  unfoldable pub send_frame_to_rover : Rover → Diag → List ℕ → Option (Bool × Rover × Diag)
  unfolding flush_rover_pending send_flushed
  send_frame_to_rover r d frame = flush_rover_pending r d >>= (λ flushed.
      if flushed.0
      then send_flushed flushed.1 flushed.2 frame
      else some (
        false,
        flushed.1,
        if is_streaming flushed.1.state then count_slow flushed.2 else flushed.2,
      ))

  -- The loop over the rovers for one frame.
  unfoldable pub forward_frame : List Rover → Diag → List ℕ → Option (List Rover × Diag)
  unfolding send_frame_to_rover
  forward_frame [] d frame = some ([], d)
  forward_frame (r ∷ rovers) d frame =
      if is_streaming r.state
      then send_frame_to_rover r d frame
        >>= (λ done. forward_frame rovers done.2 frame >>= (λ rest. some (done.1 ∷ rest.0, rest.1)))
      else forward_frame rovers d frame >>= (λ rest. some (r ∷ rest.0, rest.1))
