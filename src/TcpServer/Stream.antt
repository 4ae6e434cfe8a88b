-- ===== src/TcpServer/Stream.antt =====
-- What the connection to the TCP client carries: while it stays open, the bytes of the pending frame and
-- of the queue, in order and once each.
use rtkbase.Prelude.{
  ℕ, zero, suc, ◌+◌, ◌<◌, ◌≤◌, ◌≡◌, refl, ap, ap₂, sym, subst, ◌∙◌, ◌⊎◌, inl, inr, true, false,
  List, [], ◌∷◌, ◌++◌, none, some, arith, length, drop, concat, Option-cases, append-nil, drop-nil,
}
use rtkbase.Rtos.{Fifo, receive_cases}
use rtkbase.Lwip.{Socket}
use rtkbase.Lwip.SendLoop.{drop_whole}
use rtkbase.TcpServer.Client.{
  Task, serve_pending, is_pending, serve_frame, serve_loop, serve_queue, serve, serve_with,
  serve_client,
}
use rtkbase.TcpServer.Progress.{
  frame_of, Serves, IsIdle, Stalled, Broken, Progress, backlog, send_pending-Serves,
}

module _ (socket : Socket) (fifo : Fifo (List ℕ) 64) where
  open socket use {State, wire}
  open fifo use {Queue, contents, receive, waiting, waiting_lem}

  -- The send before the queue.
  serve_pending-Serves :
      (t : Task socket fifo) (text : List ℕ)
      → Serves socket fifo t text
      → (t' : Task socket fifo) × (serve_pending socket fifo t ≡ some t')
        × (Progress socket fifo t' text)
  unfolding serve_pending serve_with
  serve_pending-Serves t text v = elim (Option-cases t.pending) [
    | inl e ↦ (t, ap₂ (serve_with socket fifo t) v.connected e, inl (v, e))
    | inr (frame, e) ↦
        let (t', run, same, out) =
          send_pending-Serves socket fifo t v.net frame e
            (subst (λ p. t.offset ≤ length (frame_of p)) e v.offset_in) in
        (
          t',
          ap₂ (serve_with socket fifo t) v.connected e ∙ run,
          subst (Progress socket fifo t')
              (sym (
                  ap (λ p. wire v.net ++ (drop t.offset (frame_of p) ++ concat (contents t.queue)))
                    e)
                ∙ v.carried)
              out,
        )
  ]

  -- The loop over the queue ends with a frame pending or the queue empty.
  serve_loop-Serves :
      (fuel : ℕ) (t : Task socket fifo) (text : List ℕ)
      → length (contents t.queue) < fuel
      → Progress socket fifo t text
      → (t' : Task socket fifo) × (serve_loop socket fifo fuel t ≡ some t')
        × (Progress socket fifo t' text)
        × (t'.pending ≡ none → contents t'.queue ≡ [])
  unfolding serve_loop serve_frame serve_client
  serve_loop-Serves zero t text enough v = absurd (omega arith)
  serve_loop-Serves (suc fuel) t text enough v = elim (Option-cases t.pending) [
    | inr (frame, e) ↦
        let waits : is_pending t.pending ≡ true = ap is_pending e in
        (t, rw waits refl, v, λ n. ground arith)
    | inl e ↦
        let free : is_pending t.pending ≡ false = ap is_pending e in
        elim (receive_cases fifo t.queue) [
          | inl (f, empty) ↦ (t, rw (free, f) refl, v, λ n. empty)
          | inr (frame, q', f, rest) ↦
              let (t1, run, same, out) = served frame q' e rest v in
              let shorter : length (contents t.queue) ≡ suc (length (contents q')) =
                ap length rest in
              let (t2, more, res, drained) =
                serve_loop-Serves fuel t1 text
                  (subst (λ q. length (contents q) < fuel) (sym same) (omega arith)) out in
              (t2, rw (free, f, run) more, res, drained)
        ]
  ]
    where
      none_is_some : {A : Type 0} → {x : A} → none ≡ some x → ⊥
      none_is_some h = ground (arith, h)

      served :
          (frame : List ℕ) (q' : Queue)
          → t.pending ≡ none
          → contents t.queue ≡ frame ∷ contents q'
          → Progress socket fifo t text
          → (t' : Task socket fifo) × (serve_frame socket fifo (record t { queue = q' }) frame
              ≡ some t')
            × (t'.queue ≡ q')
            × (Progress socket fifo t' text)
      served frame q' e rest (inr (inr broken)) = (
        record t { queue = q' },
        ap (λ c. serve_client socket fifo (record t { queue = q' }) c frame) broken.idle.no_client,
        refl,
        inr (
            inr (record {
              attempt = broken.attempt;
              failed = broken.failed;
              idle = record {
                no_client = broken.idle.no_client;
                no_pending = broken.idle.no_pending;
                no_offset = broken.idle.no_offset;
              };
            })),
      )
      served frame q' e rest (inr (inl (v, stalled))) =
          absurd (none_is_some (sym e ∙ stalled.pending_is))
      served frame q' e rest (inl (v, n)) =
          let t0 : Task socket fifo = record t { queue = q'; pending = some frame; offset = 0 } in
          let empty_left : drop t.offset (frame_of t.pending) ≡ [] =
            drop_whole (frame_of t.pending) t.offset
              (omega (arith, v.offset_in, ap (λ p. length (frame_of p)) e)) in
          let begins : wire v.net ++ (frame ++ concat (contents q')) ≡ text =
            sym (ap (λ fs. wire v.net ++ concat fs) rest)
            ∙ (sym (ap (λ (x : List ℕ). wire v.net ++ (x ++ concat (contents t.queue))) empty_left)
                ∙ v.carried) in
          let (t1, run, same, out) =
            send_pending-Serves socket fifo t0 v.net frame refl (omega arith) in
          (
            t1,
            ap (λ c. serve_client socket fifo (record t { queue = q' }) c frame) v.connected ∙ run,
            same,
            subst (Progress socket fifo t1) begins out,
          )

  pub serve-Serves :
      (t : Task socket fifo) (text : List ℕ)
      → Serves socket fifo t text
      → (t' : Task socket fifo) × (serve socket fifo t ≡ some t')
        × (((v : Serves socket fifo t' text) × (t'.pending ≡ none)
              × (contents t'.queue ≡ [])
              × (wire v.net ≡ text))
            ⊎ ((Serves socket fifo t' text × Stalled socket fifo t' text)
                ⊎ (Broken socket fifo t' text × (contents t'.queue ≡ []))))
  unfolding serve serve_queue
  serve-Serves t text v =
      let (t1, run, out) = serve_pending-Serves t text v in
      let (t2, more, res, drained) =
        serve_loop-Serves (waiting t1.queue + 1) t1 text (omega (arith, waiting_lem t1.queue))
          out in
      (
        t2,
        rw run more,
        elim res [
          | inl (w, free) ↦ inl (w, free, drained free, all_carried t2 text w free (drained free))
          | inr (inl stalled) ↦ inr (inl stalled)
          | inr (inr broken) ↦ inr (inr (broken, drained broken.idle.no_pending))
        ],
      )
    where
      all_carried :
          (t2 : Task socket fifo) (text : List ℕ) (w : Serves socket fifo t2 text)
          → t2.pending ≡ none
          → contents t2.queue ≡ []
          → wire w.net ≡ text
      all_carried t2 text w free empty =
          let nothing : backlog socket fifo t2 ≡ [] =
            ap (λ q. drop t2.offset (frame_of t2.pending) ++ concat q) empty
            ∙ (append-nil (drop t2.offset (frame_of t2.pending))
                ∙ (ap (λ p. drop t2.offset (frame_of p)) free ∙ drop-nil t2.offset)) in
          sym (append-nil (wire w.net))
          ∙ (ap (λ (x : List ℕ). wire w.net ++ x) (sym nothing) ∙ w.carried)

  serve_loop-IsIdle :
      (fuel : ℕ) (t : Task socket fifo)
      → length (contents t.queue) < fuel
      → IsIdle socket fifo t
      → (t' : Task socket fifo) × (serve_loop socket fifo fuel t ≡ some t')
        × IsIdle socket fifo t'
        × (contents t'.queue ≡ [])
        × (t'.endpoint ≡ t.endpoint)
  unfolding serve_loop serve_frame serve_client
  serve_loop-IsIdle zero t enough v = absurd (omega arith)
  serve_loop-IsIdle (suc fuel) t enough v =
      let free : is_pending t.pending ≡ false = ap is_pending v.no_pending in
      elim (receive_cases fifo t.queue) [
        | inl (f, empty) ↦ (t, rw (free, f) refl, v, empty, refl)
        | inr (frame, q', f, rest) ↦
            let t1 : Task socket fifo = record t { queue = q' } in
            let thrown = ap (λ c. serve_client socket fifo t1 c frame) v.no_client in
            let (t2, run, idle, empty, named) =
              serve_loop-IsIdle fuel t1 (omega (arith, ap length rest)) (record {
                no_client = v.no_client;
                no_pending = v.no_pending;
                no_offset = v.no_offset;
              }) in
            (t2, rw (free, f, thrown) run, idle, empty, named)
      ]

  -- Without a client the queue is emptied and the endpoint stays.
  pub serve-IsIdle :
      (t : Task socket fifo)
      → IsIdle socket fifo t
      → (t' : Task socket fifo) × (serve socket fifo t ≡ some t')
        × IsIdle socket fifo t'
        × (contents t'.queue ≡ [])
        × (t'.endpoint ≡ t.endpoint)
  unfolding serve serve_queue serve_pending serve_with
  serve-IsIdle t v =
      let (t', run, idle, empty, named) =
        serve_loop-IsIdle (waiting t.queue + 1) t (omega (arith, waiting_lem t.queue)) v in
      let nothing_sent = ap (λ c. serve_with socket fifo t c t.pending) v.no_client in
      (t', rw nothing_sent run, idle, empty, named)
