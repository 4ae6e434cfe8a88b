-- ===== src/Caster/Frame.antt =====
-- One frame offered to a rover by send_frame_to_rover: kept, with its tail possibly deferred, dropped as a
-- whole, or the connection is closed.
use rtkbase.Prelude.{
  ℕ, ◌≤◌, ◌<◌, ◌≡◌, refl, sym, ◌∙◌, ◌⊎◌, inl, inr, Bool, true, false, List, ◌++◌, some, arith,
  length, drop, if◌then◌else◌, subst,
}
use rtkbase.Lwip.{Socket}
use rtkbase.Lwip.SendLoop.{IsFatal, all_sent, blocked, Sending, send_from}
use rtkbase.Caster.Flush.{Carries, Flush, TailStalled, flush_rover_pending-Carries}
use rtkbase.Caster.Flushed.{send_flushed-FlushedResult}
use rtkbase.Caster.Stream.{Rover, Diag, close_rover, is_streaming, send_frame_to_rover, count_slow}

module _ (socket : Socket) where
  open socket use {State, wire}

  -- A frame is kept: all of the tail before it went out first, and the frame went out, up to what is now
  -- the tail, which is not the whole frame.
  pub record Delivered (r : Rover socket) (frame : List ℕ) (r' : Rover socket) : Type 0 where
    pub tail : Sending socket
    pub flush : Flush socket r tail
    pub tail_sent : tail.ending ≡ all_sent
    pub sending : Sending socket
    pub run : send_from socket 5 tail.net frame 0 ≡ some sending
    pub begun : (sending.ending ≡ all_sent) ⊎ ((sending.ending ≡ blocked) × (0 < sending.offset))
    pub fd_is : r'.fd ≡ some sending.net
    pub rest_is : drop r'.tx_pending_pos r'.tx_pending ≡ drop sending.offset frame

  -- A frame is dropped because the socket was full for all the retries in this call: while the tail was
  -- sent, or before the first byte of the frame.
  pub record Refused (r : Rover socket) (frame : List ℕ) (r' : Rover socket) : Type 0 where
    pub tail : Sending socket
    pub flush : Flush socket r tail
    pub full :
        TailStalled socket r r' tail
        ⊎ ((tail.ending ≡ all_sent)
            × (s : Sending socket) × (send_from socket 5 tail.net frame 0 ≡ some s)
            × (s.ending ≡ blocked)
            × (s.offset ≡ 0)
            × (r'.fd ≡ some s.net)
            × (length r'.tx_pending ≡ 0))

  -- The connection is closed because send() failed, or took nothing, for the tail or the frame.
  pub record Lost (r : Rover socket) (frame : List ℕ) : Type 0 where
    pub tail : Sending socket
    pub flush : Flush socket r tail
    pub failed :
        IsFatal tail.ending
        ⊎ ((tail.ending ≡ all_sent)
            × (s : Sending socket) × (send_from socket 5 tail.net frame 0 ≡ some s)
            × IsFatal s.ending)

  -- How a frame goes: kept, dropped as a whole, or the connection is closed.
  abbrev pub FrameResult : Bool → Rover socket → Rover socket → List ℕ → List ℕ → List ℕ → Type 0
  FrameResult kept r r' request text frame =
      ((kept ≡ true) × Carries socket r' request (text ++ frame) × Delivered r frame r')
      ⊎ (((kept ≡ false) × Carries socket r' request text × Refused r frame r')
          ⊎ ((kept ≡ false) × (r' ≡ close_rover socket) × Lost r frame))

  some_inj : {A : Type 0} → {x y : A} → some x ≡ some y → x ≡ y
  some_inj h = ground (arith, h)

  -- A frame of at most 1029 bytes offered to a streaming rover: it is kept, once all of the older tail has
  -- gone out and at least a byte of it, with the rest as the new tail; or it is dropped, and the
  -- connection carries no byte of it, because the socket was full in this call; or the connection is
  -- closed because send() failed or took nothing. `text` and the frame count a tail as carried.
  pub send_frame_to_rover-whole :
      (r : Rover socket) (d : Diag) (request text frame : List ℕ)
      → Carries socket r request text
      → length frame ≤ 1029
      → (kept : Bool) × (r' : Rover socket) × (d' : Diag) × (send_frame_to_rover socket r d frame
          ≡ some (kept, r', d'))
        × FrameResult kept r r' request text frame
  unfolding send_frame_to_rover
  send_frame_to_rover-whole r d request text frame v short =
      let (ok, r1, d1, run, tail, flush, res) =
        flush_rover_pending-Carries socket r d request text v in
      elim res [
        | inl (flushed, v1, empty, tail_sent, fd1) ↦
            let (kept, r', d', run', s, sent_at, res') =
              send_flushed-FlushedResult socket r1 d1 request text frame v1 empty short in
            let same_net : v1.net ≡ tail.net = some_inj (sym v1.connected ∙ fd1) in
            let sending = subst (λ n. send_from socket 5 n frame 0 ≡ some s) same_net sent_at in
            (
              kept,
              r',
              d',
              rw (run, flushed) run',
              elim res' [
                | inl (k, w, begun, fd_is, rest_is) ↦ inl (
                  k,
                  w,
                  record {
                    tail = tail;
                    flush = flush;
                    tail_sent = tail_sent;
                    sending = s;
                    run = sending;
                    begun = begun;
                    fd_is = fd_is;
                    rest_is = rest_is;
                  },
                )
                | inr (inl (k, w, full, at_start, fd_is, no_tail)) ↦ inr (
                    inl (
                      k,
                      w,
                      record {
                        tail = tail;
                        flush = flush;
                        full = inr (tail_sent, s, sending, full, at_start, fd_is, no_tail);
                      },
                    ))
                | inr (inr (k, same, fatal)) ↦ inr (
                    inr (
                      k,
                      same,
                      record {
                        tail = tail;
                        flush = flush;
                        failed = inr (tail_sent, s, sending, fatal);
                      },
                    ))
              ],
            )
        | inr (inl (stuck, v1, stalled)) ↦ (
          false,
          r1,
          if is_streaming r1.state then count_slow d1 else d1,
          rw (run, stuck),
          inr (inl (refl, v1, record { tail = tail; flush = flush; full = inl stalled })),
        )
        | inr (inr (stuck, same, fatal)) ↦ (
          false,
          r1,
          if is_streaming r1.state then count_slow d1 else d1,
          rw (run, stuck),
          inr (inr (refl, same, record { tail = tail; flush = flush; failed = inl fatal })),
        )
      ]
