-- ===== src/Caster/Flushed.antt =====
-- One frame sent to a rover whose tail has gone out: send_flushed keeps it, drops it as a whole, or closes the
-- connection.
use mathlib.Core.List.{append_cancel_right}
use rtkbase.Prelude.{
  ℕ, ◌≤◌, ◌<◌, ◌≡◌, refl, ap, sym, ◌∙◌, ◌⊎◌, inl, inr, Bool, true, false, List, [], ◌++◌, some,
  arith, length, length-drop, drop, leb, ◌==◌, Bool-cases, append-nil, ◌>>=◌,
}
use rtkbase.Lwip.{Socket}
use rtkbase.Lwip.SendLoop.{IsFatal, all_sent, blocked, Sending, send_from, drop_whole}
use rtkbase.Caster.Flush.{Carries, send_bytes_to_rover-Result}
use rtkbase.Caster.Stream.{Rover, Diag, close_rover, defer_tail, send_flushed, count_slow}

module _ (socket : Socket) where
  open socket use {State, wire}

  -- How a frame goes, with its sending loop `s`.
  abbrev pub FlushedResult :
      Bool → Rover socket → List ℕ → List ℕ → List ℕ → Sending socket → Type 0
  FlushedResult kept r' request text frame s =
      ((kept ≡ true)
        × Carries socket r' request (text ++ frame)
        × ((s.ending ≡ all_sent) ⊎ ((s.ending ≡ blocked) × (0 < s.offset)))
        × (r'.fd ≡ some s.net)
        × (drop r'.tx_pending_pos r'.tx_pending ≡ drop s.offset frame))
      ⊎ (((kept ≡ false)
            × Carries socket r' request text
            × (s.ending ≡ blocked)
            × (s.offset ≡ 0)
            × (r'.fd ≡ some s.net)
            × (length r'.tx_pending ≡ 0))
          ⊎ ((kept ≡ false) × (r' ≡ close_rover socket) × IsFatal s.ending))

  pub send_flushed-FlushedResult :
      (r : Rover socket) (d : Diag) (request text frame : List ℕ)
      → (v : Carries socket r request text) → length r.tx_pending ≡ 0
      → length frame ≤ 1029
      → (kept : Bool) × (r' : Rover socket) × (d' : Diag) × (send_flushed socket r d frame
          ≡ some (kept, r', d'))
        × (s : Sending socket) × (send_from socket 5 v.net frame 0 ≡ some s)
        × FlushedResult kept r' request text frame s
  unfolding send_flushed defer_tail
  send_flushed-FlushedResult r d request text frame v empty short =
      let (o, s, run, sending, res) =
        send_bytes_to_rover-Result socket r d frame 0 v.net v.connected (omega arith) in
      let none_left : drop r.tx_pending_pos r.tx_pending ≡ [] =
        drop_whole r.tx_pending r.tx_pending_pos (omega (arith, v.pos_in)) in
      let before : wire v.net ≡ text =
        sym (append-nil (wire v.net))
        ∙ (ap (λ (x : List ℕ). wire v.net ++ x) (sym none_left) ∙ v.carried) in
      elim res [
        | inl (ends, is_complete, same, on_wire, whole) ↦
            let pending = ap (λ (x : Rover socket). x.tx_pending) same in
            let pos = ap (λ (x : Rover socket). x.tx_pending_pos) same in
            (
              true,
              o.rover,
              o.diag,
              rw (run, ◌>>=◌, is_complete),
              s,
              sending,
              inl (
                refl,
                record {
                  net = s.net;
                  connected = ap (λ (x : Rover socket). x.fd) same;
                  streaming = ap (λ (x : Rover socket). x.state) same ∙ v.streaming;
                  asked = ap (λ (x : Rover socket). x.rx_buf) same ∙ v.asked;
                  pos_in = omega (arith, ap length pending, pos, v.pos_in);
                  pending_in = omega (arith, ap length pending);
                  carried =
                      ap (λ (x : List ℕ). wire s.net ++ x)
                        (drop_whole o.rover.tx_pending o.rover.tx_pending_pos
                          (omega (arith, ap length pending, pos, v.pos_in)))
                      ∙ (append-nil (wire s.net)
                          ∙ (on_wire ∙ ap (λ (x : List ℕ). x ++ frame) before));
                },
                inl ends,
                ap (λ (x : Rover socket). x.fd) same,
                drop_whole o.rover.tx_pending o.rover.tx_pending_pos
                      (omega (arith, ap length pending, pos, v.pos_in))
                    ∙ sym (drop_whole frame s.offset whole),
              ),
            )
        | inr (inl (ends, is_blocked, same, on_wire, le, reached, further)) ↦
            let pending = ap (λ (x : Rover socket). x.tx_pending) same in
            let pos = ap (λ (x : Rover socket). x.tx_pending_pos) same in
            let state = ap (λ (x : Rover socket). x.state) same ∙ v.streaming in
            elim (Bool-cases (o.offset == 0)) [
              | inl e ↦
                  let none_sent : 0 ≡ o.offset = ground arith in
                  (
                    false,
                    o.rover,
                    count_slow o.diag,
                    rw (run, ◌>>=◌, is_blocked, state, e),
                    s,
                    sending,
                    inr (
                        inl (
                          refl,
                          record {
                            net = s.net;
                            connected = ap (λ (x : Rover socket). x.fd) same;
                            streaming = state;
                            asked = ap (λ (x : Rover socket). x.rx_buf) same ∙ v.asked;
                            pos_in = omega (arith, ap length pending, pos, v.pos_in);
                            pending_in = omega (arith, ap length pending);
                            carried =
                                ap (λ (x : List ℕ). wire s.net ++ x)
                                  (drop_whole o.rover.tx_pending o.rover.tx_pending_pos
                                    (omega (arith, ap length pending, pos, v.pos_in)))
                                ∙ (append-nil (wire s.net)
                                    ∙ (append_cancel_right (wire s.net) (wire v.net) frame
                                          (ap (λ k. wire s.net ++ drop k frame) none_sent ∙ on_wire)
                                        ∙ before));
                          },
                          ends,
                          reached ∙ sym none_sent,
                          ap (λ (x : Rover socket). x.fd) same,
                          omega (arith, ap length pending),
                        )),
                  )
              | inr e ↦
                  let tail = drop o.offset frame in
                  let fits : leb (length tail) 1029 ≡ true =
                    ground (arith, length-drop o.offset frame) in
                  (
                    true,
                    record o.rover { tx_pending = tail; tx_pending_pos = 0 },
                    o.diag,
                    rw (run, ◌>>=◌, is_blocked, state, e, fits),
                    s,
                    sending,
                    inl (
                      refl,
                      record {
                        net = s.net;
                        connected = ap (λ (x : Rover socket). x.fd) same;
                        streaming = state;
                        asked = ap (λ (x : Rover socket). x.rx_buf) same ∙ v.asked;
                        pos_in = omega arith;
                        pending_in = ground arith;
                        carried = on_wire ∙ ap (λ (x : List ℕ). x ++ frame) before;
                      },
                      inr (ends, ground (arith, reached)),
                      ap (λ (x : Rover socket). x.fd) same,
                      ap (λ k. drop k frame) (sym reached),
                    ),
                  )
            ]
        | inr (inr (ends, is_closed, same)) ↦ (
          false,
          o.rover,
          o.diag,
          rw (run, ◌>>=◌, is_closed),
          s,
          sending,
          inr (inr (refl, same, ends)),
        )
      ]
