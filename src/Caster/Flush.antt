-- ===== src/Caster/Flush.antt =====
-- The sending of a rover's deferred tail: how flush_rover_pending and its sending loop end.
use rtkbase.Prelude.{
  ℕ, suc, ◌+◌, ◌-◌, ◌≤◌, ◌≡◌, refl, ap, sym, ◌∙◌, ◌⊎◌, inl, inr, Bool, true, false, List, [], ◌++◌,
  some, arith, length, drop, leb, ltb, Bool-cases, append-nil,
}
use rtkbase.Lwip.{Socket}
use rtkbase.Lwip.SendLoop.{
  IsFatal, all_sent, blocked, Sending, send_loop, rounds, send_from, send_from-Sent, Ending-cases,
  drop_whole,
}
use rtkbase.Caster.Stream.{
  rover_streaming, send_complete, send_blocked, send_closed, Rover, Diag, close_rover, Outcome,
  after_send, send_bytes_to_rover, flush_rover_pending,
}

module _ (socket : Socket) where
  open socket use {State, wire}

  -- The ways a sending call on a connected rover ends, as its sending loop `s` did.
  abbrev pub Result : Rover socket → State → List ℕ → ℕ → Outcome socket → Sending socket → Type 0
  Result r net bytes offset o s =
      ((s.ending ≡ all_sent)
        × (o.result ≡ send_complete)
        × (o.rover ≡ record r { fd = some s.net })
        × (wire s.net ≡ wire net ++ drop offset bytes)
        × (s.offset ≡ length bytes))
      ⊎ (((s.ending ≡ blocked)
            × (o.result ≡ send_blocked)
            × (o.rover ≡ record r { fd = some s.net })
            × (wire s.net ++ drop o.offset bytes ≡ wire net ++ drop offset bytes)
            × (o.offset ≤ length bytes)
            × (s.offset ≡ o.offset)
            × (offset ≤ s.offset))
          ⊎ (IsFatal s.ending × (o.result ≡ send_closed) × (o.rover ≡ close_rover socket)))

  pub send_bytes_to_rover-Result :
      (r : Rover socket) (d : Diag) (bytes : List ℕ) (offset : ℕ) (net : State)
      → r.fd ≡ some net
      → offset ≤ length bytes
      → (o : Outcome socket) × (s : Sending socket) × (send_bytes_to_rover socket r d bytes offset
          ≡ some o)
        × (send_from socket 5 net bytes offset ≡ some s)
        × Result r net bytes offset o s
  unfolding send_bytes_to_rover after_send
  send_bytes_to_rover-Result r d bytes offset net connected le =
      let (s, run, ok) = send_from-Sent socket 5 net bytes offset le in
      let sent_all : s.ending ≡ all_sent → wire s.net ≡ wire net ++ drop offset bytes = λ e.
        sym (append-nil (wire s.net))
        ∙ (ap (λ (x : List ℕ). wire s.net ++ x) (sym (drop_whole bytes s.offset (ok.all_if e)))
            ∙ ok.on_wire) in
      (
        after_send socket r d s,
        s,
        rw (connected, run),
        run,
        elim (Ending-cases s.ending) [
          | inl e ↦ rw (e, after_send) (inl (refl, refl, refl, sent_all e, ok.all_if e))
          | inr (inl e) ↦
              rw (e, after_send)
                (inr (inl (refl, refl, refl, ok.on_wire, ok.to_length, refl, ok.from_offset)))
          | inr (inr (inl e)) ↦ rw (e, after_send) (inr (inr (inl refl, refl, refl)))
          | inr (inr (inr (errno, e))) ↦
              rw (e, after_send) (inr (inr (inr (errno, refl), refl, refl)))
        ],
      )

  -- A streaming rover that has sent `request`, whose connection has carried `text`, once the deferred tail is counted in.
  pub record Carries (r : Rover socket) (request text : List ℕ) : Type 0 where
    pub net : State
    pub connected : r.fd ≡ some net
    pub streaming : r.state ≡ rover_streaming
    pub asked : r.rx_buf ≡ request
    pub pos_in : r.tx_pending_pos ≤ length r.tx_pending
    pub pending_in : length r.tx_pending ≤ 1029
    pub carried : wire net ++ drop r.tx_pending_pos r.tx_pending ≡ text

  -- The flush's sending loop `s`: it begins at the rover's socket, with what is left of the tail.
  pub record Flush (r : Rover socket) (s : Sending socket) : Type 0 where
    pub net : State
    pub connected : r.fd ≡ some net
    pub run : send_from socket 5 net r.tx_pending r.tx_pending_pos ≡ some s

  -- The socket was full for all the retries while the tail was sent.
  pub record TailStalled (r r' : Rover socket) (s : Sending socket) : Type 0 where
    pub socket_full : s.ending ≡ blocked
    pub fd_is : r'.fd ≡ some s.net
    pub tail_is : r'.tx_pending ≡ r.tx_pending
    pub pos_is : r'.tx_pending_pos ≡ s.offset
    pub pos_le : r.tx_pending_pos ≤ s.offset

  -- With no tail left the sending loop ends at once.
  send_from-nothing :
      (net : State) (bytes : List ℕ) (offset : ℕ)
      → length bytes ≤ offset
      → send_from socket 5 net bytes offset
        ≡ some (record { ending = all_sent; net = net; offset = offset; blocks = 0 })
  unfolding send_from send_loop
  send_from-nothing net bytes offset le =
      let done : ltb offset (length bytes) ≡ false = ground arith in
      let fuel : rounds (length bytes - offset) 5 + 5 + 2
          ≡ suc (rounds (length bytes - offset) 5 + 5 + 1) =
        omega arith in
      rw (fuel, done) refl

  -- A flush sends the tail, or a part of it, or closes the connection.
  pub flush_rover_pending-Carries :
      (r : Rover socket) (d : Diag) (request text : List ℕ)
      → Carries r request text
      → (ok : Bool) × (r' : Rover socket) × (d' : Diag) × (flush_rover_pending socket r d
          ≡ some (ok, r', d'))
        × (s : Sending socket) × Flush r s
        × (((ok ≡ true)
              × Carries r' request text
              × (length r'.tx_pending ≡ 0)
              × (s.ending ≡ all_sent)
              × (r'.fd ≡ some s.net))
            ⊎ (((ok ≡ false) × Carries r' request text × TailStalled r r' s)
                ⊎ ((ok ≡ false) × (r' ≡ close_rover socket) × IsFatal s.ending)))
  unfolding flush_rover_pending close_rover
  flush_rover_pending-Carries r d request text v =
      elim (Bool-cases (leb (length r.tx_pending) r.tx_pending_pos)) [
        | inl e ↦ (
          true,
          record r { tx_pending = []; tx_pending_pos = 0 },
          d,
          rw e,
          record { ending = all_sent; net = v.net; offset = r.tx_pending_pos; blocks = 0 },
          record {
            net = v.net;
            connected = v.connected;
            run = send_from-nothing v.net r.tx_pending r.tx_pending_pos (ground arith);
          },
          inl (
            refl,
            record {
              net = v.net;
              connected = v.connected;
              streaming = v.streaming;
              asked = v.asked;
              pos_in = omega arith;
              pending_in = omega arith;
              carried =
                  ap (λ (x : List ℕ). wire v.net ++ x)
                    (sym (drop_whole r.tx_pending r.tx_pending_pos (ground (arith, v.pos_in))))
                  ∙ v.carried;
            },
            refl,
            refl,
            v.connected,
          ),
        )
        | inr e ↦
            let (o, s, run, sending, res) =
              send_bytes_to_rover-Result r d r.tx_pending r.tx_pending_pos v.net v.connected
                v.pos_in in
            let flush : Flush r s = record {
              net = v.net;
              connected = v.connected;
              run = sending;
            } in
            elim res [
              | inl (ends, is_complete, same, on_wire, whole) ↦ (
                true,
                record o.rover { tx_pending = []; tx_pending_pos = 0 },
                o.diag,
                rw (e, run, is_complete),
                s,
                flush,
                inl (
                  refl,
                  record {
                    net = s.net;
                    connected = ap (λ (x : Rover socket). x.fd) same;
                    streaming = ap (λ (x : Rover socket). x.state) same ∙ v.streaming;
                    asked = ap (λ (x : Rover socket). x.rx_buf) same ∙ v.asked;
                    pos_in = omega arith;
                    pending_in = omega arith;
                    carried = append-nil (wire s.net) ∙ (on_wire ∙ v.carried);
                  },
                  refl,
                  ends,
                  ap (λ (x : Rover socket). x.fd) same,
                ),
              )
              | inr (inl (ends, is_blocked, same, on_wire, le, reached, further)) ↦
                  let pending = ap (λ (x : Rover socket). x.tx_pending) same in
                  (
                    false,
                    record o.rover { tx_pending_pos = o.offset },
                    o.diag,
                    rw (e, run, is_blocked),
                    s,
                    flush,
                    inr (
                        inl (
                          refl,
                          record {
                            net = s.net;
                            connected = ap (λ (x : Rover socket). x.fd) same;
                            streaming = ap (λ (x : Rover socket). x.state) same ∙ v.streaming;
                            asked = ap (λ (x : Rover socket). x.rx_buf) same ∙ v.asked;
                            pos_in = omega (arith, ap length pending);
                            pending_in = omega (arith, ap length pending, v.pending_in);
                            carried =
                                ap (λ (x : List ℕ). wire s.net ++ drop o.offset x) pending
                                ∙ (on_wire ∙ v.carried);
                          },
                          record {
                            socket_full = ends;
                            fd_is = ap (λ (x : Rover socket). x.fd) same;
                            tail_is = pending;
                            pos_is = sym reached;
                            pos_le = further;
                          },
                        )),
                  )
              | inr (inr (ends, is_closed, same)) ↦ (
                false,
                record o.rover { tx_pending = []; tx_pending_pos = 0 },
                o.diag,
                rw (e, run, is_closed),
                s,
                flush,
                inr (
                    inr (
                      refl,
                      ap (λ (x : Rover socket). record x { tx_pending = []; tx_pending_pos = 0 })
                          same,
                      ends,
                    )),
              )
            ]
      ]
