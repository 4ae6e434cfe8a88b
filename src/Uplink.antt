-- ===== src/Uplink.antt =====
-- The task of an uplink of main/ntrip_client.c: connecting with growing waits, sending the frames of
-- its queue, and closing. The results of ntrip_connect, of the receive from the queue and of
-- the peek at the socket are arguments; what happens to the pool and the queue is in Bus.
pub mod Backoff
pub mod Frames
pub mod Connect
pub mod Handshake
pub mod Start
mod Tests
use rtkbase.Prelude.{
  ℕ, zero, suc, ◌+◌, ◌*◌, ◌%◌, ◌^◌, Bool, true, false, List, [], ◌∷◌, Option, none, some, ltb,
  if◌then◌else◌, ◌>>=◌,
}
use rtkbase.Lwip.{Socket}
use rtkbase.Lwip.SendLoop.{all_sent, blocked, sent_zero, send_failed, Sending, send_from}

abbrev pub ntrip_reconnect_ms_min : ℕ
ntrip_reconnect_ms_min = 2000

abbrev pub ntrip_reconnect_ms_max : ℕ
ntrip_reconnect_ms_max = 60000

abbrev pub ntrip_send_retry_limit : ℕ
ntrip_send_retry_limit = 20

-- The wait after the one of `delay` milliseconds.
unfoldable pub next_delay : ℕ → ℕ
next_delay delay =
    if ltb ((delay * 2) % 2 ^ 32) ntrip_reconnect_ms_max
    then (delay * 2) % 2 ^ 32
    else ntrip_reconnect_ms_max

-- What the peek at the socket says: bytes or nothing yet, the end of the stream, or an error.
pub data Peek : Type 0 where
  peer_open : Peek
  peer_closed : Peek
  peek_failed : ℕ → Peek

module _ (socket : Socket) where
  open socket use {State}

  -- The task's variables with what it owns in `s_diag`, each counter a uint32_t; `sock` is `none`
  -- below 0, `connected` is the uplink's bit of `connected_mask`.
  pub record Uplink : Type 0 where
    pub sock : Option State
    pub reconnect_delay_ms : ℕ
    pub connected : Bool
    pub reconnect_events : ℕ
    pub send_block_events : ℕ
    pub send_fatal_errors : ℕ

  unfoldable pub uplink_close_socket : Uplink → Uplink
  uplink_close_socket u = elim u.sock [
    | none ↦ u
    | some net ↦ record u { sock = none; connected = false }
  ]

  -- The head of the loop where there is no socket: the uplink, and the wait before the next attempt.
  unfoldable pub connect_round : Uplink → Option State → Uplink × ℕ
  unfolding next_delay
  connect_round u connection = elim u.sock [
    | some net ↦ (u, 0)
    | none ↦ elim connection [
      | none ↦ (
        record u {
          reconnect_events = (u.reconnect_events + 1) % 2 ^ 32;
          reconnect_delay_ms = next_delay u.reconnect_delay_ms;
        },
        u.reconnect_delay_ms,
      )
      | some net ↦ (
        record u { sock = some net; connected = true; reconnect_delay_ms = ntrip_reconnect_ms_min },
        0,
      )
    ]
  ]

  -- How a sending loop that ended leaves the uplink; each ending but the first closes the socket.
  unfoldable pub after_frame : Uplink → Sending socket → Uplink
  unfolding uplink_close_socket
  after_frame u s =
      let counted = record u {
        sock = some s.net;
        send_block_events = (u.send_block_events + s.blocks) % 2 ^ 32;
      } in
      let closed =
        uplink_close_socket
          (record counted { send_fatal_errors = (u.send_fatal_errors + 1) % 2 ^ 32 }) in
      elim s.ending [
        | all_sent ↦ counted
        | blocked ↦ closed
        | sent_zero ↦ closed
        | send_failed errno ↦ closed
      ]

  unfoldable pub send_frame : Uplink → List ℕ → Option Uplink
  unfolding after_frame
  send_frame u frame = elim u.sock [
    | none ↦ some u
    | some net ↦
        send_from socket ntrip_send_retry_limit net frame 0 >>= (λ s. some (after_frame u s))
  ]

  unfoldable pub peek_round : Uplink → Peek → Uplink
  unfolding uplink_close_socket
  peek_round u peer_open = u
  peek_round u peer_closed = uplink_close_socket u
  peek_round u (peek_failed errno) = uplink_close_socket u

  -- One round of the task with a socket: the frame, if one came within the wait, then the peek.
  unfoldable pub uplink_round : Uplink → Option (List ℕ) → Peek → Option Uplink
  unfolding send_frame peek_round
  uplink_round u none peek = some (peek_round u peek)
  uplink_round u (some frame) peek = send_frame u frame >>= (λ u'. some (peek_round u' peek))
