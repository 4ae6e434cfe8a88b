-- ===== src/TcpServer/Passes.antt =====
-- What every pass of task_tcp_server keeps, whatever accept(), recv() and send() answer, where a rejected
-- connection stops sending.
use rtkbase.Prelude.{
  ℕ, ◌+◌, ◌≤◌, ◌≡◌, refl, subst, sym, ◌∙◌, inl, inr, false, List, [], ◌++◌, ◌&&◌, Option, none,
  some, arith, length, Bool-cases,
}
use rtkbase.Rtos.{Fifo}
use rtkbase.Lwip.{Socket}
use rtkbase.TcpServer.Newest.{drain_loop_lem}
use rtkbase.TcpServer.Client.{
  Received, bytes, closed, nothing, not_connected, recv_failed, Accepted, Task, close_client, serve,
}
use rtkbase.TcpServer.Progress.{IsIdle, backlog, frame_of}
use rtkbase.TcpServer.Stream.{serve-Serves, serve-IsIdle}
use rtkbase.TcpServer.Accept.{Quiet, Consistent, AdmittedOk, accept_step-AdmittedOk}
use rtkbase.TcpServer.Session.{
  is_some, drain, disconnect_step, receive_step, Passed, running, ended, serve_admitted, pass,
  Admitted, proceed, next_pass, give_up,
}

module _ (socket : Socket) (fifo : Fifo (List ℕ) 64) where
  open socket use {State, wire}
  open fifo use {Queue, contents, waiting, waiting_lem}

  abbrev pub PassedOk : Passed socket fifo → Type 0
  PassedOk (running t) = Consistent socket fifo t
  PassedOk (ended t) = IsIdle socket fifo t

  -- Queue, drop counters, request and receiver bytes are free.
  Consistent-other :
      (t t' : Task socket fifo)
      → t'.client ≡ t.client
      → t'.pending ≡ t.pending
      → t'.offset ≡ t.offset
      → Consistent socket fifo t
      → Consistent socket fifo t'
  Consistent-other t t' c p o (inr v) = inr (record {
    no_client = c ∙ v.no_client;
    no_pending = p ∙ v.no_pending;
    no_offset = o ∙ v.no_offset;
  })
  Consistent-other t t' c p o (inl (text, v)) = inl (
    wire v.net ++ backlog socket fifo t',
    record {
      net = v.net;
      connected = c ∙ v.connected;
      offset_in =
          subst (λ n. n ≤ length (frame_of t'.pending)) (sym o)
            (subst (λ q. t.offset ≤ length (frame_of q)) (sym p) v.offset_in);
      carried = refl;
    },
  )

  pub drain_lem :
      (t : Task socket fifo)
      → (t' : Task socket fifo) × (drain socket fifo t ≡ some t')
        × (t'.client ≡ t.client)
        × (t'.pending ≡ t.pending)
        × (t'.offset ≡ t.offset)
        × (contents t'.queue ≡ [])
  unfolding drain
  drain_lem t =
      let (q', d', run, empty) =
        drain_loop_lem fifo (waiting t.queue + 1) t.queue t.drops
          (omega (arith, waiting_lem t.queue)) in
      (record t { queue = q'; drops = d' }, rw run refl, refl, refl, refl, empty)

  disconnect_step-Consistent :
      (t : Task socket fifo)
      → Consistent socket fifo t
      → (t' : Task socket fifo) × (disconnect_step socket fifo t ≡ some t')
        × Consistent socket fifo t'
  unfolding disconnect_step
  disconnect_step-Consistent t v = elim (Bool-cases (t.disconnect_requested && is_some t.client)) [
    | inr e ↦ (
      record t { disconnect_requested = false },
      rw e refl,
      Consistent-other t (record t { disconnect_requested = false }) refl refl refl v,
    )
    | inl e ↦
        let t0 : Task socket fifo = record t { client = none; disconnect_requested = false } in
        let (t1, run, c, p, o, empty) = drain_lem t0 in
        (
          record t1 { pending = none; offset = 0; endpoint = [] },
          rw (e, run) refl,
          inr (record { no_client = c; no_pending = refl; no_offset = refl }),
        )
  ]

  receive_step-Consistent :
      (t : Task socket fifo) (client : Option State) (r : Received)
      → Consistent socket fifo t
      → (t' : Task socket fifo) × (receive_step socket fifo t client r ≡ some t')
        × Consistent socket fifo t'
  unfolding receive_step close_client
  receive_step-Consistent t none r v = (t, refl, v)
  receive_step-Consistent t (some net) (bytes command) v =
      let (t1, run, c, p, o, empty) = drain_lem t in
      (
        record t1 { uart = t1.uart ++ command },
        rw run refl,
        Consistent-other t (record t1 { uart = t1.uart ++ command }) c p o v,
      )
  receive_step-Consistent t (some net) closed v = (
    close_client socket fifo t,
    refl,
    inr (record { no_client = refl; no_pending = refl; no_offset = refl }),
  )
  receive_step-Consistent t (some net) nothing v = (t, refl, v)
  receive_step-Consistent t (some net) not_connected v = (
    close_client socket fifo t,
    refl,
    inr (record { no_client = refl; no_pending = refl; no_offset = refl }),
  )
  receive_step-Consistent t (some net) recv_failed v = (
    close_client socket fifo t,
    refl,
    inr (record { no_client = refl; no_pending = refl; no_offset = refl }),
  )

  serve-Consistent :
      (t : Task socket fifo)
      → Consistent socket fifo t
      → (t' : Task socket fifo) × (serve socket fifo t ≡ some t') × Consistent socket fifo t'
  serve-Consistent t (inr v) =
      let (t', run, idle, empty, named) = serve-IsIdle socket fifo t v in (t', run, inr idle)
  serve-Consistent t (inl (text, v)) =
      let (t', run, out) = serve-Serves socket fifo t text v in
      (
        t',
        run,
        elim out [
          | inl (w, free, empty, all) ↦ inl (text, w)
          | inr (inl (w, stalled)) ↦ inl (text, w)
          | inr (inr (broken, empty)) ↦ inr broken.idle
        ],
      )

  -- A pass of the main loop ends, whatever accept(), recv() and send() answer, where a connection that
  -- accept() gives stops sending within `fuel` calls of recv(); and it keeps the state consistent: a pending
  -- frame belongs to a connected client and its offset is inside it.
  pub pass-Consistent :
      (fuel : ℕ) (t : Task socket fifo) (a : Accepted socket fifo) (r : Received)
      → Consistent socket fifo t
      → Quiet socket fifo fuel a
      → (p : Passed socket fifo) × (pass socket fifo fuel t a r ≡ some p) × PassedOk p
  unfolding pass serve_admitted close_client
  pass-Consistent fuel t a r v q =
      let (t1, run, v1) = disconnect_step-Consistent t v in
      let (s, took, ok1) = accept_step-AdmittedOk socket fifo fuel t1 t1.client a refl v1 q in
      let (p, more, ok) = rest s ok1 in (p, rw (run, took) more, ok)
    where
      rest :
          (s : Admitted socket fifo)
          → AdmittedOk socket fifo s
          → (p : Passed socket fifo) × (serve_admitted socket fifo s r ≡ some p) × PassedOk p
      rest (proceed t1) v1 =
          let (t2, run, v2) = receive_step-Consistent t1 t1.client r v1 in
          let (t3, more, v3) = serve-Consistent t2 v2 in (running t3, rw (run, more) refl, v3)
      rest (next_pass t1) idle = (running t1, refl, inr idle)
      rest (give_up t1) u = (
        ended (close_client socket fifo t1),
        refl,
        record { no_client = refl; no_pending = refl; no_offset = refl },
      )
