-- ===== src/TcpServer.antt =====
-- main/tcp_server.c: the queue of raw receiver bytes for the one TCP client. The queue is the
-- parameter `fifo` of 64 entries, a frame its bytes. Client and Session have the task of the server.
pub mod Newest
pub mod Client
pub mod Progress
pub mod Stream
pub mod Session
pub mod Accept
pub mod Passes
pub mod OneClient
mod Tests
use rtkbase.Prelude.{
  ℕ, zero, suc, ◌+◌, ◌%◌, ◌^◌, Bool, true, false, List, [], ◌∷◌, Option, none, some, length,
  if◌then◌else◌,
}
use rtkbase.Rtos.{Fifo}

abbrev pub tcp_queue_depth : ℕ
tcp_queue_depth = 64

-- The counters of `s_diag` that dropping changes, each a uint32_t.
pub record Drops : Type 0 where
  pub dropped_frames : ℕ
  pub dropped_bytes : ℕ

-- `tcp_diag_log_drop`.
unfoldable pub tcp_diag_log_drop : Drops → ℕ → Drops
tcp_diag_log_drop d dropped_len = record {
  dropped_frames = (d.dropped_frames + 1) % 2 ^ 32;
  dropped_bytes = (d.dropped_bytes + dropped_len) % 2 ^ 32;
}

module _ (fifo : Fifo (List ℕ) 64) where
  open fifo use {Queue, send, receive, waiting}

  -- `q_tcp_server` is `none` for NULL.
  pub record Server : Type 0 where
    pub q_tcp_server : Option Queue
    pub client_connected : Bool
    pub drops : Drops

  -- The loop of `post_raw_gnss_data_tcp`; one receive makes room, so that two rounds are enough.
  unfoldable pub post_loop : ℕ → Queue → Drops → List ℕ → Option (Queue × Drops)
  unfolding tcp_diag_log_drop
  post_loop zero q d frame = none
  post_loop (suc fuel) q d frame = elim (send q frame) [
    | some q' ↦ some (q', d)
    | none ↦ elim (receive q) [
      | none ↦ some (q, d)
      | some dropped ↦ post_loop fuel dropped.1 (tcp_diag_log_drop d (length dropped.0)) frame
    ]
  ]

  unfoldable pub post_raw_gnss_data_tcp : Server → List ℕ → Option Server
  unfolding post_loop
  post_raw_gnss_data_tcp s frame = elim s.q_tcp_server [
    | none ↦ some s
    | some q ↦
        if s.client_connected
        then (elim (post_loop 2 q s.drops frame) [
          | none ↦ none
          | some done ↦ some (record s { q_tcp_server = some done.0; drops = done.1 })
        ])
        else some s
  ]

  -- The loop of `tcp_server_drain_queue`, a round for each entry and one more.
  unfoldable pub drain_loop : ℕ → Queue → Drops → Option (Queue × Drops)
  unfolding tcp_diag_log_drop
  drain_loop zero q d = none
  drain_loop (suc fuel) q d = elim (receive q) [
    | none ↦ some (q, d)
    | some dropped ↦ drain_loop fuel dropped.1 (tcp_diag_log_drop d (length dropped.0))
  ]

  unfoldable pub tcp_server_drain_queue : Server → Option Server
  unfolding drain_loop
  tcp_server_drain_queue s = elim s.q_tcp_server [
    | none ↦ some s
    | some q ↦ elim (drain_loop (waiting q + 1) q s.drops) [
      | none ↦ none
      | some done ↦ some (record s { q_tcp_server = some done.0; drops = done.1 })
    ]
  ]
