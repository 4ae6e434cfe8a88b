-- ===== src/Caster/Whole.antt =====
-- A rover's connection carries whole frames: a frame that does not fit is dropped as a whole, or its
-- tail is kept and sent before anything else.
use rtkbase.Prelude.{
  ℕ, ◌+◌, ◌-◌, ◌≤◌, ◌≡◌, refl, ap, sym, ◌∙◌, ◌⊎◌, inl, inr, true, false, List, [], ◌∷◌, ◌++◌,
  Option, some, arith, All, length, drop, drop-nil, drop-drop, concat, if◌then◌else◌, append-nil,
  append_assoc, ◌>>=◌, subst,
}
use rtkbase.Lwip.{Socket}
use rtkbase.Lwip.SendLoop.{drop_whole}
use rtkbase.Caster.Stream.{Rover, Diag, close_rover, is_streaming, send_frame_to_rover}
use rtkbase.Caster.Flush.{Carries}
use rtkbase.Caster.Frame.{Delivered, Refused, Lost, send_frame_to_rover-whole}

module _ (socket : Socket) where
  -- Frames offered one after another, with those that were kept; a closed rover takes no more.
  unfoldable pub send_frames :
      Rover socket → Diag → List (List ℕ) → Option (Rover socket × List (List ℕ))
  send_frames r d [] = some (r, [])
  send_frames r d (frame ∷ frames) =
      let first = send_frame_to_rover socket r d frame in
      if is_streaming r.state
      then first >>= (λ done.
        send_frames done.1 done.2 frames
        >>= (λ rest. some (rest.0, if done.0 then frame ∷ rest.1 else rest.1)))
      else some (r, [])

  -- What becomes of the frames, one after another: `Deliveries r frames kept r'`.
  pub data Deliveries : Rover socket → List (List ℕ) → List (List ℕ) → Rover socket → Type 0 where
    finished : (r : Rover socket) → Deliveries r [] [] r
    delivered :
        (r r1 r' : Rover socket) (frame : List ℕ) (frames kept : List (List ℕ))
        → Delivered socket r frame r1
        → Deliveries r1 frames kept r'
        → Deliveries r (frame ∷ frames) (frame ∷ kept) r'
    refused :
        (r r1 r' : Rover socket) (frame : List ℕ) (frames kept : List (List ℕ))
        → Refused socket r frame r1
        → Deliveries r1 frames kept r'
        → Deliveries r (frame ∷ frames) kept r'
    lost :
        (r r' : Rover socket) (frame : List ℕ) (frames : List (List ℕ))
        → Lost socket r frame
        → r' ≡ close_rover socket
        → Deliveries r (frame ∷ frames) [] r'

  -- What is still to be sent is an end of `frame`.
  pub record TailOf (r : Rover socket) (frame : List ℕ) : Type 0 where
    pub sent_before : ℕ
    pub rest_is : drop r.tx_pending_pos r.tx_pending ≡ drop sent_before frame

  abbrev pub last_of : List ℕ → List (List ℕ) → List ℕ
  last_of frame [] = frame
  last_of frame (next ∷ frames) = last_of next frames

  send_frames-closed :
      (frames : List (List ℕ)) (r : Rover socket) (d : Diag)
      → r ≡ close_rover socket
      → send_frames r d frames ≡ some (r, [])
  unfolding send_frames close_rover
  send_frames-closed [] r d same = refl
  send_frames-closed (frame ∷ frames) r d same =
      let off : is_streaming r.state ≡ false =
        ap (λ (x : Rover socket). is_streaming x.state) same in
      rw off

  Refused-TailOf :
      (r r' : Rover socket) (frame older : List ℕ)
      → Refused socket r frame r'
      → TailOf r older
      → TailOf r' older
  Refused-TailOf r r' frame older refusal t = elim refusal.full [
    | inl stalled ↦
        let pos = r.tx_pending_pos in
        let more = refusal.tail.offset - pos in
        record {
          sent_before = t.sent_before + more;
          rest_is =
              ap (λ p. drop p r'.tx_pending) stalled.pos_is
              ∙ (ap (λ (x : List ℕ). drop refusal.tail.offset x) stalled.tail_is
                  ∙ (sym (
                        drop-drop r.tx_pending pos more refusal.tail.offset
                          (omega (arith, stalled.pos_le)))
                      ∙ (ap (λ (x : List ℕ). drop more x) t.rest_is
                          ∙ drop-drop older t.sent_before more (t.sent_before + more) refl)));
        }
    | inr (tail_sent, s, run, full, at_start, fd_is, no_tail) ↦ record {
      sent_before = length older;
      rest_is =
          nothing_left r'.tx_pending r'.tx_pending_pos no_tail
          ∙ sym (drop_whole older (length older) refl);
    }
  ]
    where
      nothing_left : (xs : List ℕ) (n : ℕ) → length xs ≡ 0 → drop n xs ≡ []
      nothing_left [] n h = drop-nil n
      nothing_left (x ∷ xs) n h = absurd (omega arith)

  -- A tail that is an end of `older` stays one until a frame is kept.
  send_frames-from :
      (frames : List (List ℕ)) (r : Rover socket) (d : Diag) (request text older : List ℕ)
      → Carries socket r request text
      → All (λ frame. length frame ≤ 1029) frames
      → TailOf r older
      → (r' : Rover socket) × (kept : List (List ℕ)) × (send_frames r d frames ≡ some (r', kept))
        × Deliveries r frames kept r'
        × ((Carries socket r' request (text ++ concat kept) × TailOf r' (last_of older kept))
            ⊎ (r' ≡ close_rover socket))
  unfolding send_frames
  send_frames-from [] r d request text older v short t =
      (r, [], refl, finished r, inl (subst (Carries socket r request) (sym (append-nil text)) v, t))
  send_frames-from (frame ∷ frames) r d request text older v short t =
      let on : is_streaming r.state ≡ true = ap is_streaming v.streaming in
      let (kept, r1, d1, run, res) =
        send_frame_to_rover-whole socket r d request text frame v short.0 in
      elim res [
        | inl (is_kept, v1, delivery) ↦
            let left : TailOf r1 frame = record {
              sent_before = delivery.sending.offset;
              rest_is = delivery.rest_is;
            } in
            let (r', more, run', steps, res') =
              send_frames-from frames r1 d1 request (text ++ frame) frame v1 short.1 left in
            (
              r',
              frame ∷ more,
              rw (on, run, ◌>>=◌, run', is_kept),
              delivered r r1 r' frame frames more delivery steps,
              subst
                  (λ (x : List ℕ).
                    (Carries socket r' request x × TailOf r' (last_of frame more))
                    ⊎ (r' ≡ close_rover socket))
                  (append_assoc text frame (concat more)) res',
            )
        | inr (inl (is_dropped, v1, refusal)) ↦
            let (r', more, run', steps, res') =
              send_frames-from frames r1 d1 request text older v1 short.1
                (Refused-TailOf r r1 frame older refusal t) in
            (
              r',
              more,
              rw (on, run, ◌>>=◌, run', is_dropped),
              refused r r1 r' frame frames more refusal steps,
              res',
            )
        | inr (inr (is_dropped, same, loss)) ↦ (
          r1,
          [],
          rw (on, run, ◌>>=◌, send_frames-closed frames r1 d1 same, is_dropped),
          lost r r1 frame frames loss same,
          inr same,
        )
      ]

  -- Whatever frames of at most 1029 bytes are offered one after another to a rover that streams, and whatever
  -- the socket does, the calls end without a write past `tx_pending`. Each frame is kept, once all of
  -- the tail before it has gone out in its call; or dropped, because the socket was full for all the
  -- retries of its call; or the rover is closed, because send() failed or took nothing. Until then the
  -- connection has carried, after its earlier text, exactly the frames that were kept, in order and
  -- without a byte of another, all but a tail that is still to be sent: an end of the last kept frame, or
  -- of the older tail while no frame was kept.
  pub send_frames-whole :
      (frames : List (List ℕ)) (r : Rover socket) (d : Diag) (request text : List ℕ)
      → Carries socket r request text
      → All (λ frame. length frame ≤ 1029) frames
      → (r' : Rover socket) × (kept : List (List ℕ)) × (send_frames r d frames ≡ some (r', kept))
        × Deliveries r frames kept r'
        × ((Carries socket r' request (text ++ concat kept) × TailOf r' (last_of r.tx_pending kept))
            ⊎ (r' ≡ close_rover socket))
  send_frames-whole frames r d request text v short =
      send_frames-from frames r d request text r.tx_pending v short
        (record { sent_before = r.tx_pending_pos; rest_is = refl })
