-- ===== src/TcpServer/Newest.antt =====
-- The queue keeps the newest frames.
use rtkbase.Prelude.{
  ℕ, zero, suc, ◌+◌, ◌-◌, ◌<◌, ◌≤◌, ◌≡◌, refl, ap, sym, ◌∙◌, inl, inr, true, List, [], ◌∷◌, ◌++◌,
  some, arith, length, length-append, drop, keep_last,
}
use rtkbase.Rtos.{Fifo, send_cases, receive_cases}
use rtkbase.TcpServer.{
  Drops, tcp_diag_log_drop, Server, post_loop, post_raw_gnss_data_tcp, drain_loop,
  tcp_server_drain_queue,
}

module _ (fifo : Fifo (List ℕ) 64) where
  open fifo use {Queue, contents, send, receive, waiting, waiting_lem}

  -- With a client, a posted frame is always queued as the newest, and of the queue's frames and the new
  -- one the newest 64 are kept, in order; the loop ends.
  pub post_raw_gnss_data_tcp-newest :
      (s : Server fifo) (q : Queue) (frame : List ℕ)
      → s.q_tcp_server ≡ some q
      → s.client_connected ≡ true
      → length (contents q) ≤ 64
      → (s' : Server fifo) × (q' : Queue) × (post_raw_gnss_data_tcp fifo s frame ≡ some s')
        × (s'.q_tcp_server ≡ some q')
        × (contents q' ≡ keep_last 64 (contents q ++ frame ∷ []))
        × (s'.client_connected ≡ true)
  unfolding post_raw_gnss_data_tcp post_loop
  post_raw_gnss_data_tcp-newest s q frame made client full = elim (send_cases fifo q frame) [
    | inr (q', e, added, room) ↦
        let none_over : 0 ≡ length (contents q ++ frame ∷ []) - 64 =
          omega (arith, length-append (contents q) (frame ∷ [])) in
        (
          record { q_tcp_server = some q'; client_connected = true; drops = s.drops },
          q',
          rw (made, client, e)
              (ap
                (λ c.
                  some (record { q_tcp_server = some q'; client_connected = c; drops = s.drops }))
                client),
          refl,
          added ∙ ap (λ k. drop k (contents q ++ frame ∷ [])) none_over,
          refl,
        )
    | inl (e, no_room) ↦ elim (receive_cases fifo q) [
      | inl (f, empty) ↦ absurd (omega (arith, ap length empty))
      | inr (oldest, q1, f, rest) ↦
          let one : 1 ≡ length (contents q ++ frame ∷ []) - 64 =
            omega (arith, length-append (contents q) (frame ∷ [])) in
          let shorter : length (contents q) ≡ suc (length (contents q1)) = ap length rest in
          elim (send_cases fifo q1 frame) [
            | inl (g, still_full) ↦ absurd (omega arith)
            | inr (q2, g, added, room) ↦ (
              record {
                q_tcp_server = some q2;
                client_connected = true;
                drops = tcp_diag_log_drop s.drops (length oldest);
              },
              q2,
              rw (made, client, e, f, g)
                  (ap
                    (λ c. some (record {
                      q_tcp_server = some q2;
                      client_connected = c;
                      drops = tcp_diag_log_drop s.drops (length oldest);
                    }))
                    client),
              refl,
              added
                  ∙ (ap (λ (x : List (List ℕ)). drop 1 (x ++ frame ∷ [])) (sym rest)
                      ∙ ap (λ k. drop k (contents q ++ frame ∷ [])) one),
              refl,
            )
          ]
    ]
  ]

  pub drain_loop_lem :
      (fuel : ℕ) (q : Queue) (d : Drops)
      → length (contents q) < fuel
      → (q' : Queue) × (d' : Drops) × (drain_loop fifo fuel q d ≡ some (q', d'))
        × (contents q' ≡ [])
  unfolding drain_loop
  drain_loop_lem zero q d h = absurd (omega arith)
  drain_loop_lem (suc fuel) q d h = elim (receive_cases fifo q) [
    | inl (f, empty) ↦ (q, d, rw (f, drain_loop), empty)
    | inr (oldest, q1, f, rest) ↦
        let (q', d', run, empty) =
          drain_loop_lem fuel q1 (tcp_diag_log_drop d (length oldest))
            (omega (arith, ap length rest)) in
        (q', d', rw (f, drain_loop) run, empty)
  ]

  -- Draining ends for any queue, leaves it empty, and does not change whether a client is connected.
  pub tcp_server_drain_queue-empty :
      (s : Server fifo) (q : Queue)
      → s.q_tcp_server ≡ some q
      → (s' : Server fifo) × (q' : Queue) × (tcp_server_drain_queue fifo s ≡ some s')
        × (s'.q_tcp_server ≡ some q')
        × (contents q' ≡ [])
        × (s'.client_connected ≡ s.client_connected)
  unfolding tcp_server_drain_queue
  tcp_server_drain_queue-empty s q made =
      let (q', d', run, empty) =
        drain_loop_lem (waiting q + 1) q s.drops (omega (arith, waiting_lem q)) in
      (
        record s { q_tcp_server = some q'; drops = d' },
        q',
        rw (made, run, tcp_server_drain_queue),
        refl,
        empty,
        refl,
      )
