-- ===== src/Uplink/Frames.antt =====
-- What an uplink's connection carries: whole frames, as long as it is open.
use rtkbase.Prelude.{
  ℕ, ◌≡◌, refl, ap, sym, subst, ◌∙◌, ◌⊎◌, inl, inr, true, false, List, [], ◌∷◌, ◌++◌, Option, none,
  some, arith, append-nil, append_assoc, ◌>>=◌, concat,
}
use rtkbase.Lwip.{Socket}
use rtkbase.Lwip.SendLoop.{all_sent, send_from, send_from-Sent, Ending-cases, drop_whole}
use rtkbase.Uplink.{Uplink, uplink_close_socket, after_frame, send_frame}

module _ (socket : Socket) where
  open socket use {State, wire}

  -- A connected uplink whose connection has carried `text`.
  pub record Carried (u : Uplink socket) (text : List ℕ) : Type 0 where
    pub net : State
    pub open_socket : u.sock ≡ some net
    pub bit : u.connected ≡ true
    pub on_wire : wire net ≡ text

  abbrev pub IsClosed : Uplink socket → Type 0
  IsClosed u = (u.sock ≡ none) × (u.connected ≡ false)

  send_frame-Carried :
      (u : Uplink socket) (text frame : List ℕ)
      → Carried u text
      → (u' : Uplink socket) × (send_frame socket u frame ≡ some u')
        × (Carried u' (text ++ frame) ⊎ IsClosed u')
  unfolding send_frame after_frame uplink_close_socket
  send_frame-Carried u text frame v =
      let (s, run, ok) = send_from-Sent socket 20 v.net frame 0 (omega arith) in
      let sent_all : s.ending ≡ all_sent → wire s.net ≡ text ++ frame = λ e.
        sym (append-nil (wire s.net))
        ∙ (ap (λ (x : List ℕ). wire s.net ++ x) (sym (drop_whole frame s.offset (ok.all_if e)))
            ∙ (ok.on_wire ∙ ap (λ (x : List ℕ). x ++ frame) v.on_wire)) in
      (
        after_frame socket u s,
        rw (v.open_socket, run),
        elim (Ending-cases s.ending) [
          | inl e ↦
              rw (e, after_frame)
                (inl
                  (record { net = s.net; open_socket = refl; bit = v.bit; on_wire = sent_all e }))
          | inr (inl e) ↦ rw (e, after_frame) (inr (refl, refl))
          | inr (inr (inl e)) ↦ rw (e, after_frame) (inr (refl, refl))
          | inr (inr (inr (errno, e))) ↦ rw (e, after_frame) (inr (refl, refl))
        ],
      )

  -- Frames taken from the queue one after another.
  unfoldable pub send_all_frames : Uplink socket → List (List ℕ) → Option (Uplink socket)
  send_all_frames u [] = some u
  send_all_frames u (frame ∷ frames) =
      send_frame socket u frame >>= (λ u'. send_all_frames u' frames)

  send_frame-closed :
      (u : Uplink socket) (frame : List ℕ) → u.sock ≡ none → send_frame socket u frame ≡ some u
  unfolding send_frame
  send_frame-closed u frame down = go u.sock down
    where
      go :
          (k : Option State)
          → k ≡ none
          → (elim k [
            | none ↦ some u
            | some net ↦ send_from socket 20 net frame 0 >>= (λ s. some (after_frame socket u s))
          ])
            ≡ some u
      go none e = refl
      go (some net) e = absurd (ground arith)

  send_all_frames-closed :
      (frames : List (List ℕ)) (u : Uplink socket)
      → u.sock ≡ none
      → send_all_frames u frames ≡ some u
  unfolding send_all_frames
  send_all_frames-closed [] u down = refl
  send_all_frames-closed (frame ∷ frames) u down =
      rw (send_frame-closed u frame down, ◌>>=◌) (send_all_frames-closed frames u down)

  -- Whatever frames a connected uplink takes from its queue, and whatever the socket does, the sending
  -- ends; then either the connection is closed and its bit is cleared, or it is open and has carried,
  -- after its earlier text, every one of the frames as a whole and in order.
  pub send_all_frames-whole :
      (frames : List (List ℕ)) (u : Uplink socket) (text : List ℕ)
      → Carried u text
      → (u' : Uplink socket) × (send_all_frames u frames ≡ some u')
        × (Carried u' (text ++ concat frames) ⊎ IsClosed u')
  unfolding send_all_frames
  send_all_frames-whole [] u text v = (u, refl, inl (subst (Carried u) (sym (append-nil text)) v))
  send_all_frames-whole (frame ∷ frames) u text v =
      let (u1, run, res) = send_frame-Carried u text frame v in
      elim res [
        | inl v1 ↦
            let (u', run', res') = send_all_frames-whole frames u1 (text ++ frame) v1 in
            (
              u',
              rw (run, ◌>>=◌) run',
              subst (λ (x : List ℕ). Carried u' x ⊎ IsClosed u')
                  (append_assoc text frame (concat frames)) res',
            )
        | inr closed ↦ (u1, rw (run, ◌>>=◌) (send_all_frames-closed frames u1 closed.0), inr closed)
      ]
