-- ===== src/TcpServer/Tests.antt =====
-- The server with an empty queue, and its task with a client on a scripted socket.
use rtkbase.Prelude.{
  ℕ, ◌≡◌, refl, true, List, [], ◌∷◌, ◌++◌, none, some, false, inl, arith, length, ap, keep_last,
  ltb, if◌then◌else◌,
}
use rtkbase.Rtos.{Fifo}
use rtkbase.Rtos.ListQueue.{list_fifo}
use rtkbase.TcpServer.{Server, post_raw_gnss_data_tcp}
use rtkbase.Lwip.Script.{scripted}
use rtkbase.TcpServer.Client.{bytes, nothing, connection, again, Connection, Task}
use rtkbase.TcpServer.Progress.{Serves}
use rtkbase.TcpServer.Session.{no_counts, Passed, running, pass, tcp_server_disconnect_client}
use rtkbase.TcpServer.Passes.{PassedOk, pass-Consistent}
use rtkbase.TcpServer.OneClient.{pass-one_client, tcp_server_disconnect_client-served}
use rtkbase.TcpServer.Newest.{post_raw_gnss_data_tcp-newest}

abbrev fifo : Fifo (List ℕ) 64
fifo = list_fifo (List ℕ) 64

abbrev connected : Server fifo
connected = record {
  q_tcp_server = some fifo.create;
  client_connected = true;
  drops = record { dropped_frames = 0; dropped_bytes = 0 };
}

post_raw_gnss_data_tcp-newest_example :
    (s' : Server fifo) × (q' : fifo.Queue) × (post_raw_gnss_data_tcp fifo connected (7 ∷ [])
      ≡ some s')
    × (s'.q_tcp_server ≡ some q')
    × (fifo.contents q' ≡ keep_last 64 (fifo.contents fifo.create ++ (7 ∷ []) ∷ []))
    × (s'.client_connected ≡ true)
post_raw_gnss_data_tcp-newest_example =
    post_raw_gnss_data_tcp-newest fifo connected fifo.create (7 ∷ []) refl refl
      (omega (arith, ap length fifo.contents-create))

abbrev busy : Task scripted fifo
unfolding list_fifo
busy = record {
  client = some (record { taken = []; script = 2 ∷ 0 ∷ 9 ∷ [] });
  endpoint = 49 ∷ [];
  disconnect_requested = false;
  pending = some (1 ∷ 2 ∷ 3 ∷ []);
  offset = 1;
  queue = (4 ∷ 5 ∷ []) ∷ (6 ∷ []) ∷ [];
  drops = record { dropped_frames = 0; dropped_bytes = 0 };
  counters = no_counts;
  uart = [];
}

busy-Serves : Serves scripted fifo busy (2 ∷ 3 ∷ 4 ∷ 5 ∷ 6 ∷ [])
unfolding list_fifo
busy-Serves = record {
  net = record { taken = []; script = 2 ∷ 0 ∷ 9 ∷ [] };
  connected = refl;
  offset_in = omega arith;
  carried = refl;
}

-- Another peer, which sends for two calls of recv().
abbrev extra : Connection scripted fifo
extra = record {
  sock = record { taken = []; script = [] };
  address = 50 ∷ [];
  nodelay_ok = true;
  getfl_ok = true;
  setfl_ok = true;
  sends_more = λ k. ltb k 2;
}

pass-Consistent_example :
    (p : Passed scripted fifo) × (pass scripted fifo 3 busy (connection extra) (bytes (65 ∷ []))
      ≡ some p)
    × PassedOk scripted fifo p
pass-Consistent_example =
    pass-Consistent scripted fifo 3 busy (connection extra) (bytes (65 ∷ []))
      (inl (2 ∷ 3 ∷ 4 ∷ 5 ∷ 6 ∷ [], busy-Serves)) (2, omega arith, refl)

-- While the other peer sends, the pass does not get past it.
still_reading : pass scripted fifo 2 busy (connection extra) nothing ≡ none
unfolding list_fifo pass
still_reading = refl

pass-one_client_example :
    pass scripted fifo 3 busy (connection extra) nothing
    ≡ (if ltb 2 3 then pass scripted fifo 3 busy again nothing else none)
unfolding list_fifo
pass-one_client_example =
    pass-one_client scripted fifo 3 2 busy (record { taken = []; script = 2 ∷ 0 ∷ 9 ∷ [] }) extra
      nothing refl refl (λ k lt. ground arith) refl

tcp_server_disconnect_client-served_example :
    (t' : Task scripted fifo) × (pass scripted fifo 1
        (tcp_server_disconnect_client scripted fifo busy).1
        again
        nothing
      ≡ some (running t'))
    × (t'.client ≡ none)
    × (t'.pending ≡ none)
    × (t'.endpoint ≡ [])
    × (fifo.contents t'.queue ≡ [])
unfolding list_fifo
tcp_server_disconnect_client-served_example =
    tcp_server_disconnect_client-served scripted fifo 1 busy nothing refl
