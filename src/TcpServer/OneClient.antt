-- ===== src/TcpServer/OneClient.antt =====
-- The TCP server serves one client, until it is told to disconnect it.
use rtkbase.Prelude.{
  ltb, ◌==◌, ◌<◌, ◌≤◌, ◌+◌, zero, suc, inl, inr, arith, Bool-cases, ℕ, ◌≡◌, refl, ap, ◌∙◌, Bool,
  true, false, List, [], Option, none, some, ◌>>=◌, if◌then◌else◌,
}
use rtkbase.Rtos.{Fifo}
use rtkbase.Lwip.{Socket}
use rtkbase.TcpServer.Client.{Received, Accepted, Connection, connection, again, Task, serve}
use rtkbase.TcpServer.Stream.{serve-IsIdle}
use rtkbase.TcpServer.Session.{
  is_some, proceed, disconnect_step, accept_step, receive_step, Passed, running, serve_admitted,
  pass, tcp_server_disconnect_client, close_socket_gracefully, reject_pending_client,
}
use rtkbase.TcpServer.Passes.{drain_lem}

module _ (socket : Socket) (fifo : Fifo (List ℕ) 64) where
  open socket use {State}
  open fifo use {contents}

  close_socket_gracefully-counts :
      (fuel : ℕ) (sends_more : ℕ → Bool) (n first : ℕ)
      → n ≤ first
      → ((k : ℕ) → k < first → sends_more k ≡ true)
      → sends_more first ≡ false
      → close_socket_gracefully socket fifo fuel sends_more n
        ≡ (if ltb first (n + fuel) then some first else none)
  unfolding close_socket_gracefully
  close_socket_gracefully-counts zero sends_more n first le sending ends =
      let out : ltb first (n + 0) ≡ false = ground arith in rw out refl
  close_socket_gracefully-counts (suc fuel) sends_more n first le sending ends =
      elim (Bool-cases (n == first)) [
        | inl e ↦
            let is : n ≡ first = ground arith in
            let quiet : sends_more n ≡ false = ap sends_more is ∙ ends in
            let inside : ltb first (n + suc fuel) ≡ true = ground arith in
            rw (quiet, inside) (ap (λ (k : ℕ). some k) is)
        | inr e ↦
            let loud : sends_more n ≡ true = sending n (ground arith) in
            let next : n + 1 + fuel ≡ n + suc fuel = omega arith in
            rw loud (
              close_socket_gracefully-counts fuel sends_more (n + 1) first (ground arith) sending
                ends
              ∙ ap (λ k. if ltb first k then some first else none) next)
      ]

  -- While a client is connected and nobody asked to disconnect it, accept() gives a further connection,
  -- whose first call of recv() without bytes is the call `first`, counted from 0. A pass then does what it
  -- does without a connection, where it is given more than `first` calls of recv(), and has not ended
  -- where it is given `first` or fewer: as long as that peer sends, the pass does not go on.
  pub pass-one_client :
      (fuel first : ℕ) (t : Task socket fifo) (net : State) (c : Connection socket fifo)
      (r : Received)
      → t.client ≡ some net
      → t.disconnect_requested ≡ false
      → ((k : ℕ) → k < first → c.sends_more k ≡ true)
      → c.sends_more first ≡ false
      → pass socket fifo fuel t (connection c) r
        ≡ (if ltb first fuel then pass socket fifo fuel t again r else none)
  unfolding pass disconnect_step accept_step reject_pending_client
  pass-one_client fuel first t net c r connected calm sending ends =
      let t0 : Task socket fifo = record t { disconnect_requested = false } in
      let kept : disconnect_step socket fifo t ≡ some t0 = rw (disconnect_step, calm) refl in
      let from_zero : 0 + fuel ≡ fuel = omega arith in
      let closes : close_socket_gracefully socket fifo fuel c.sends_more 0
          ≡ (if ltb first fuel then some first else none) =
        close_socket_gracefully-counts fuel c.sends_more 0 first (omega arith) sending ends
        ∙ ap (λ k. if ltb first k then some first else none) from_zero in
      let at_client : (a : Accepted socket fifo)
          → accept_step socket fifo fuel t0 t.client a
            ≡ (reject_pending_client socket fifo fuel a >>= (λ n. some (proceed t0))) =
        λ a. ap (λ x. accept_step socket fifo fuel t0 x a) connected in
      elim (Bool-cases (ltb first fuel)) [
        | inl e ↦ rw (kept, at_client (connection c), at_client again, closes, e) refl
        | inr e ↦ rw (kept, at_client (connection c), closes, e) refl
      ]

  -- A disconnect that is asked for while a client is connected is carried out by the next pass: when
  -- accept() has no new connection, it ends with no client, no endpoint and an empty queue.
  pub tcp_server_disconnect_client-served :
      (fuel : ℕ) (t : Task socket fifo) (r : Received)
      → is_some t.client ≡ true
      → (t' : Task socket fifo) × (pass socket fifo fuel
            (tcp_server_disconnect_client socket fifo t).1
            again
            r
          ≡ some (running t'))
        × (t'.client ≡ none)
        × (t'.pending ≡ none)
        × (t'.endpoint ≡ [])
        × (contents t'.queue ≡ [])
  unfolding pass disconnect_step accept_step tcp_server_disconnect_client serve_admitted
      receive_step
  tcp_server_disconnect_client-served fuel t r connected =
      let t0 : Task socket fifo = record t { client = none; disconnect_requested = false } in
      let (t1, run, c, p, o, empty) = drain_lem socket fifo t0 in
      let t2 : Task socket fifo = record t1 { pending = none; offset = 0; endpoint = [] } in
      let (t3, more, idle, emptied, named) =
        serve-IsIdle socket fifo t2
          (record { no_client = c; no_pending = refl; no_offset = refl }) in
      let waited : accept_step socket fifo fuel t2 t2.client again ≡ some (proceed t2) =
        ap (λ client. accept_step socket fifo fuel t2 client again) c in
      let unheard : receive_step socket fifo t2 t2.client r ≡ some t2 =
        ap (λ client. receive_step socket fifo t2 client r) c in
      let asked : Task socket fifo = (tcp_server_disconnect_client socket fifo t).1 in
      let marked : asked ≡ record t { disconnect_requested = true } =
        ap
          (λ b.
            let answer : Bool × Task socket fifo =
              (if b then (true, record t { disconnect_requested = true }) else (false, t)) in
            answer.1)
          connected in
      let step : disconnect_step socket fifo asked ≡ some t2 =
        ap (disconnect_step socket fifo) marked ∙ rw (connected, run) refl in
      let finish : Task socket fifo → Option (Passed socket fifo) =
        λ x. serve socket fifo x >>= (λ x'. some (running x')) in
      (
        t3,
        ap
              (λ x. x >>= (λ x'.
                accept_step socket fifo fuel x' x'.client again
                >>= (λ s. serve_admitted socket fifo s r)))
              step
            ∙ (ap (λ x. x >>= (λ s. serve_admitted socket fifo s r)) waited
                ∙ (ap (λ x. x >>= finish) unheard
                    ∙ ap (λ x. x >>= (λ x'. some (running x'))) more)),
        idle.no_client,
        idle.no_pending,
        named,
        emptied,
      )
