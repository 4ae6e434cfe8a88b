-- ===== src/TcpServer/Client.antt =====
-- The task of main/tcp_server.c that serves the one TCP client: task_tcp_server with socket_send,
-- try_receive and the entries that other tasks call. The listening socket, accept() and recv() are
-- seen by their results.
use rtkbase.Prelude.{
  ℕ, zero, suc, ◌+◌, ◌%◌, ◌^◌, Bool, true, false, List, [], Option, none, some, if◌then◌else◌,
  ◌>>=◌,
}
use rtkbase.Rtos.{Fifo}
use rtkbase.Lwip.{Socket}
use rtkbase.Lwip.SendLoop.{all_sent, blocked, sent_zero, send_failed, Sending, send_from}
use rtkbase.TcpServer.{Drops}

abbrev pub socket_max_retries : ℕ
socket_max_retries = 40

-- What recv() says: bytes, the end of the stream, nothing yet, not connected any more, or an error.
pub data Received : Type 0 where
  bytes : List ℕ → Received
  closed : Received
  nothing : Received
  not_connected : Received
  recv_failed : Received

-- The results 1, 0 and -1 of `socket_send`.
pub data Sent : Type 0 where
  complete : Sent
  temporarily_blocked : Sent
  fatal : Sent

pub record Counters : Type 0 where
  pub send_block_events : ℕ
  pub send_deferred_events : ℕ
  pub send_fatal_errors : ℕ

-- What `tcp_server_get_diagnostics` copies out.
pub record Diagnostics : Type 0 where
  pub drops : Drops
  pub counters : Counters
  pub pending_bytes : ℕ
  pub queue_fill : ℕ
  pub queue_depth : ℕ

abbrev pub is_pending : Option (List ℕ) → Bool
is_pending none = false
is_pending (some frame) = true

module _ (socket : Socket) (fifo : Fifo (List ℕ) 64) where
  open socket use {State}
  open fifo use {Queue, receive, waiting}

  -- A connection that accept() gave: the socket, the address as text, whether TCP_NODELAY, F_GETFL and
  -- F_SETFL succeed on it, and whether the n-th recv() on it gives bytes where it is only closed.
  pub record Connection : Type 0 where
    pub sock : State
    pub address : List ℕ
    pub nodelay_ok : Bool
    pub getfl_ok : Bool
    pub setfl_ok : Bool
    pub sends_more : ℕ → Bool

  -- What accept() says; `again` stands for the errors after which the code tries again.
  pub data Accepted : Type 0 where
    connection : Connection → Accepted
    again : Accepted
    accept_failed : Accepted

  -- `client` is `client_socket`; `pending` is `pending_tx_frame` where `pending_tx_valid`; `uart` are the
  -- bytes written to the receiver.
  pub record Task : Type 0 where
    pub client : Option State
    pub endpoint : List ℕ
    pub disconnect_requested : Bool
    pub pending : Option (List ℕ)
    pub offset : ℕ
    pub queue : Queue
    pub drops : Drops
    pub counters : Counters
    pub uart : List ℕ

  -- `close(client_socket)` with what follows it wherever the client's work has ended.
  unfoldable pub close_client : Task → Task
  close_client t = record t { client = none; endpoint = []; pending = none; offset = 0 }

  abbrev count_fatal : Counters → Counters
  count_fatal c = record c { send_fatal_errors = (c.send_fatal_errors + 1) % 2 ^ 32 }

  -- The counters after the sending loop.
  unfoldable pub count_send : Counters → Sending socket → Counters
  count_send c s =
      let counted = record c { send_block_events = (c.send_block_events + s.blocks) % 2 ^ 32 } in
      elim s.ending [
        | all_sent ↦ counted
        | blocked ↦ record counted { send_deferred_events = (c.send_deferred_events + 1) % 2 ^ 32 }
        | sent_zero ↦ count_fatal counted
        | send_failed errno ↦ count_fatal counted
      ]

  unfoldable pub sent_of : Sending socket → Sent
  sent_of s = elim s.ending [
    | all_sent ↦ complete
    | blocked ↦ temporarily_blocked
    | sent_zero ↦ fatal
    | send_failed errno ↦ fatal
  ]

  -- `socket_send` of the pending frame, and what its result does to the task.
  unfoldable pub after_send : Task → Sending socket → Task
  unfolding count_send sent_of close_client
  after_send t s =
      let counted = record t {
        client = some s.net;
        offset = s.offset;
        counters = count_send t.counters s;
      } in
      elim (sent_of s) [
        | complete ↦ record counted { pending = none; offset = 0 }
        | temporarily_blocked ↦ counted
        | fatal ↦ close_client counted
      ]

  unfoldable pub send_pending : Task → State → List ℕ → Option Task
  unfolding after_send
  send_pending t net frame =
      send_from socket socket_max_retries net frame t.offset >>= (λ s. some (after_send t s))

  -- The pending frame `p` goes to the client `c`.
  unfoldable pub serve_with : Task → Option State → Option (List ℕ) → Option Task
  unfolding send_pending
  serve_with t none p = some t
  serve_with t (some net) none = some t
  serve_with t (some net) (some frame) = send_pending t net frame

  -- The send before the queue is looked at.
  unfoldable pub serve_pending : Task → Option Task
  unfolding serve_with
  serve_pending t = serve_with t t.client t.pending

  -- A frame from the queue: without a client it is thrown away.
  unfoldable pub serve_client : Task → Option State → List ℕ → Option Task
  unfolding send_pending
  serve_client t none frame = some t
  serve_client t (some net) frame =
      send_pending (record t { pending = some frame; offset = 0 }) net frame

  unfoldable pub serve_frame : Task → List ℕ → Option Task
  unfolding serve_client
  serve_frame t frame = serve_client t t.client frame

  -- The loop over the queue, a round for each entry and one more.
  unfoldable pub serve_loop : ℕ → Task → Option Task
  unfolding serve_frame
  serve_loop zero t = none
  serve_loop (suc fuel) t = if is_pending t.pending then some t else (elim (receive t.queue) [
    | none ↦ some t
    | some taken ↦ serve_frame (record t { queue = taken.1 }) taken.0 >>= (λ t'. serve_loop fuel t')
  ])

  unfoldable pub serve_queue : Task → Option Task
  unfolding serve_loop
  serve_queue t = serve_loop (waiting t.queue + 1) t

  -- The sending part of a pass.
  unfoldable pub serve : Task → Option Task
  unfolding serve_pending serve_queue
  serve t = serve_pending t >>= serve_queue
