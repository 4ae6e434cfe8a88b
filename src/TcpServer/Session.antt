-- ===== src/TcpServer/Session.antt =====
-- The passes of task_tcp_server in main/tcp_server.c: the set-up, a requested disconnect, accept, receive
-- and send, and what other tasks call meanwhile.
use rtkbase.Prelude.{
  ℕ, zero, suc, ◌+◌, ◌-◌, Bool, true, false, not, ◌&&◌, List, [], ◌++◌, Option, none, some, length,
  if◌then◌else◌, ◌>>=◌,
}
use rtkbase.Rtos.{Fifo}
use rtkbase.Lwip.{Socket}
use rtkbase.TcpServer.{Server, drain_loop, post_raw_gnss_data_tcp, tcp_queue_depth}
use rtkbase.TcpServer.Client.{
  Received, bytes, closed, nothing, not_connected, recv_failed, Counters, Diagnostics, Connection,
  Accepted, connection, again, accept_failed, Task, close_client, serve,
}

-- Whether the calls that set up the listening socket and the queue succeed.
pub record Setup : Type 0 where
  pub socket_ok : Bool
  pub reuse_ok : Bool
  pub getfl_ok : Bool
  pub setfl_ok : Bool
  pub bind_ok : Bool
  pub listen_ok : Bool
  pub queue_ok : Bool

abbrev pub no_counts : Counters
no_counts = record { send_block_events = 0; send_deferred_events = 0; send_fatal_errors = 0 }

abbrev pub is_some {ℓ} : {A : Type ℓ} → Option A → Bool
is_some none = false
is_some (some a) = true

module _ (socket : Socket) (fifo : Fifo (List ℕ) 64) where
  open socket use {State}
  open fifo use {create, waiting}

  -- The task when its main loop begins; `none` where the set-up fails.
  unfoldable pub start : Setup → Option (Task socket fifo)
  start s =
      if s.socket_ok && s.reuse_ok && s.getfl_ok && s.setfl_ok && s.bind_ok && s.listen_ok
        && s.queue_ok
      then some (record {
        client = none;
        endpoint = [];
        disconnect_requested = false;
        pending = none;
        offset = 0;
        queue = create;
        drops = record { dropped_frames = 0; dropped_bytes = 0 };
        counters = no_counts;
        uart = [];
      })
      else none

  -- `tcp_server_drain_queue` in the task.
  unfoldable pub drain : Task socket fifo → Option (Task socket fifo)
  unfolding drain_loop
  drain t =
      drain_loop fifo (waiting t.queue + 1) t.queue t.drops
      >>= (λ d. some (record t { queue = d.0; drops = d.1 }))

  -- A requested disconnect, at the beginning of a pass.
  unfoldable pub disconnect_step : Task socket fifo → Option (Task socket fifo)
  unfolding drain
  disconnect_step t =
      if t.disconnect_requested && is_some t.client
      then drain (record t { client = none; disconnect_requested = false })
        >>= (λ t'. some (record t' { pending = none; offset = 0; endpoint = [] }))
      else some (record t { disconnect_requested = false })

  -- Where a pass goes after accept(): on, to the next pass (`continue`), or to the end (`goto error`).
  pub data Admitted : Type 0 where
    proceed : Task socket fifo → Admitted
    next_pass : Task socket fifo → Admitted
    give_up : Task socket fifo → Admitted

  -- A new client; where an option cannot be set its socket is closed again, but the endpoint stays.
  unfoldable pub admit : Task socket fifo → Connection socket fifo → Admitted
  admit t c =
      let named = record t { client = some c.sock; endpoint = c.address } in
      let dropped = record named { client = none; pending = none; offset = 0 } in
      if not c.nodelay_ok
      then next_pass dropped
      else if not c.getfl_ok
      then next_pass dropped
      else if not c.setfl_ok
      then give_up named
      else proceed named

  -- The loop of `close_socket_gracefully` from the n-th recv() on: the number of calls that gave bytes. It
  -- has no bound in the code; `none` is a loop that is still going after `fuel` calls.
  unfoldable pub close_socket_gracefully : ℕ → (ℕ → Bool) → ℕ → Option ℕ
  close_socket_gracefully zero sends_more n = none
  close_socket_gracefully (suc fuel) sends_more n =
      let rest = close_socket_gracefully fuel sends_more (n + 1) in
      if sends_more n then rest else some n

  -- With a client, a further connection is accepted only to be closed; errors are only logged.
  unfoldable pub reject_pending_client : ℕ → Accepted socket fifo → Option ℕ
  unfolding close_socket_gracefully
  reject_pending_client fuel (connection c) = close_socket_gracefully fuel c.sends_more 0
  reject_pending_client fuel again = some 0
  reject_pending_client fuel accept_failed = some 0

  unfoldable pub accept_step :
      ℕ → Task socket fifo → Option State → Accepted socket fifo → Option Admitted
  unfolding admit reject_pending_client
  accept_step fuel t (some net) a = reject_pending_client fuel a >>= (λ n. some (proceed t))
  accept_step fuel t none (connection c) = some (admit t c)
  accept_step fuel t none again = some (proceed t)
  accept_step fuel t none accept_failed = some (give_up t)

  unfoldable pub receive_step :
      Task socket fifo → Option State → Received → Option (Task socket fifo)
  unfolding drain close_client
  receive_step t none r = some t
  receive_step t (some net) (bytes command) =
      drain t >>= (λ t'. some (record t' { uart = t'.uart ++ command }))
  receive_step t (some net) closed = some (close_client socket fifo t)
  receive_step t (some net) nothing = some t
  receive_step t (some net) not_connected = some (close_client socket fifo t)
  receive_step t (some net) recv_failed = some (close_client socket fifo t)

  -- After a pass the task goes on, or it has ended and deleted its queue.
  pub data Passed : Type 0 where
    running : Task socket fifo → Passed
    ended : Task socket fifo → Passed

  -- The rest of a pass after accept().
  unfoldable pub serve_admitted : Admitted → Received → Option Passed
  unfolding receive_step close_client
  serve_admitted (proceed t) r =
      receive_step t t.client r >>= (λ t'. serve socket fifo t' >>= (λ t2. some (running t2)))
  serve_admitted (next_pass t) r = some (running t)
  serve_admitted (give_up t) r = some (ended (close_client socket fifo t))

  -- One pass of the main loop, with what accept() and recv() say in it; `fuel` is for the closing of a
  -- rejected connection.
  unfoldable pub pass : ℕ → Task socket fifo → Accepted socket fifo → Received → Option Passed
  unfolding disconnect_step accept_step serve_admitted
  pass fuel t a r =
      disconnect_step t >>= (λ t'. accept_step fuel t' t'.client a >>= (λ s. serve_admitted s r))

  unfoldable pub tcp_server_client_connected : Task socket fifo → Bool
  tcp_server_client_connected t = is_some t.client

  -- The shutdown() is seen by what recv() says later.
  unfoldable pub tcp_server_disconnect_client : Task socket fifo → Bool × Task socket fifo
  tcp_server_disconnect_client t =
      if is_some t.client then (true, record t { disconnect_requested = true }) else (false, t)

  unfoldable pub tcp_server_get_diagnostics : Task socket fifo → Diagnostics
  tcp_server_get_diagnostics t = record {
    drops = t.drops;
    counters = t.counters;
    pending_bytes = elim t.pending [ none ↦ 0 | some frame ↦ length frame - t.offset ];
    queue_fill = waiting t.queue;
    queue_depth = tcp_queue_depth;
  }

  -- A chunk that the receiver's task posts between two passes.
  unfoldable pub post : Task socket fifo → List ℕ → Option (Task socket fifo)
  unfolding post_raw_gnss_data_tcp
  post t chunk =
      let server : Server fifo = record {
        q_tcp_server = some t.queue;
        client_connected = is_some t.client;
        drops = t.drops;
      } in
      post_raw_gnss_data_tcp fifo server chunk >>= (λ s. elim s.q_tcp_server [
        | none ↦ none
        | some q ↦ some (record t { queue = q; drops = s.drops })
      ])
