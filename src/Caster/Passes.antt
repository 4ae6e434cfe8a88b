-- ===== src/Caster/Passes.antt =====
-- Every pass of the caster's task keeps the slots good.
use rtkbase.Prelude.{
  ℕ, ◌≤◌, ◌≡◌, refl, ap, sym, subst, ◌⊎◌, inl, inr, true, false, List, [], ◌∷◌, ◌++◌, Option, none,
  some, All, length, Bool-cases, ◌>>=◌,
}
use rtkbase.CText.{codes}
use rtkbase.Lwip.{Socket}
use rtkbase.Caster.Stream.{rover_handshake, is_streaming, Rover, Diag, forward_frame}
use rtkbase.Caster.Frame.{send_frame_to_rover-whole}
use rtkbase.Caster.Settings.{CasterConfig}
use rtkbase.Caster.Serve.{
  Heard, is_empty_slot, place_rover, accept_rover, forward_frames, caster_pass,
}
use rtkbase.Caster.Authorized.{Good, respond_lem, closed-Good, serve_rovers-Good}

module _ (socket : Socket) (decode : ℕ → List ℕ → Option (List ℕ)) (cfg : CasterConfig) where
  open socket use {State}

  abbrev GoodSlots : List (Rover socket) → Type 0
  GoodSlots rovers = All (Good socket decode cfg) rovers

  place_rover-Good :
      (rovers : List (Rover socket)) (net : State)
      → GoodSlots rovers
      → (place_rover socket decode rovers net ≡ none)
        ⊎ ((rs : List (Rover socket)) × (place_rover socket decode rovers net ≡ some rs)
            × GoodSlots rs)
  unfolding place_rover
  place_rover-Good [] net good = inl refl
  place_rover-Good (r ∷ rovers) net good = elim (Bool-cases (is_empty_slot r.state)) [
    | inl e ↦
        let placed : Rover socket = record r {
          fd = some net;
          state = rover_handshake;
          rx_buf = [];
          tx_pending = [];
          tx_pending_pos = 0;
        } in
        inr (placed ∷ rovers, rw e refl, (inr (inl (net, refl, refl, refl, refl)), good.1))
    | inr e ↦ elim (place_rover-Good rovers net good.1) [
      | inl f ↦ inl (rw (e, f) refl)
      | inr (rs, f, rest) ↦ inr (r ∷ rs, rw (e, f) refl, (good.0, rest))
    ]
  ]

  accept_rover-Good :
      (rovers : List (Rover socket)) (new : Option State)
      → GoodSlots rovers
      → (rs : List (Rover socket)) × (accept_rover socket decode rovers new ≡ some rs)
        × GoodSlots rs
  unfolding accept_rover
  accept_rover-Good rovers none good = (rovers, refl, good)
  accept_rover-Good rovers (some net) good = elim (place_rover-Good rovers net good) [
    | inr (rs, e, fine) ↦ (rs, rw (accept_rover, e) refl, fine)
    | inl e ↦
        let busy = (codes "HTTP/1.1 503 Service Unavailable" ++ 13 ∷ 10 ∷ 13 ∷ 10 ∷ []) ∷ [] in
        let (net', run) = respond_lem socket decode cfg busy net in
        (rovers, rw (accept_rover, e, run) refl, good)
  ]

  forward_frame-Good :
      (rovers : List (Rover socket)) (d : Diag) (frame : List ℕ)
      → GoodSlots rovers
      → length frame ≤ 1029
      → (rs : List (Rover socket)) × (d' : Diag) × (forward_frame socket rovers d frame
          ≡ some (rs, d'))
        × GoodSlots rs
  unfolding forward_frame
  forward_frame-Good [] d frame good short = ([], d, refl, good)
  forward_frame-Good (r ∷ rovers) d frame good short = elim good.0 [
    | inl e ↦ skipped (ap is_streaming e) (forward_frame-Good rovers d frame good.1 short)
    | inr (inl (net, e, fd, clean, pos)) ↦
        skipped (ap is_streaming e) (forward_frame-Good rovers d frame good.1 short)
    | inr (inr (request, text, v, a)) ↦
        let (kept, r', d1, run, res) =
          send_frame_to_rover-whole socket r d request text frame v short in
        let (rs, d', more, rest) = forward_frame-Good rovers d1 frame good.1 short in
        let on : is_streaming r.state ≡ true = ap is_streaming v.streaming in
        (
          r' ∷ rs,
          d',
          rw (on, run, ◌>>=◌, more) refl,
          (
            elim res [
              | inl (k, w, delivered) ↦ inr (inr (request, text ++ frame, w, a))
              | inr (inl (k, w, refused)) ↦ inr (inr (request, text, w, a))
              | inr (inr (k, e, lost)) ↦
                  subst (Good socket decode cfg) (sym e) (closed-Good socket decode cfg)
            ],
            rest,
          ),
        )
  ]
    where
      Forwarded : List (Rover socket) → Type 0
      Forwarded slots =
          (rs : List (Rover socket)) × (d' : Diag) × (forward_frame socket slots d frame
            ≡ some (rs, d'))
          × GoodSlots rs

      skipped : is_streaming r.state ≡ false → Forwarded rovers → Forwarded (r ∷ rovers)
      skipped off (rs, d', more, rest) = (r ∷ rs, d', rw (off, more) refl, (good.0, rest))

  forward_frames-Good :
      (frames : List (List ℕ)) (rovers : List (Rover socket)) (d : Diag)
      → GoodSlots rovers
      → All (λ frame. length frame ≤ 1029) frames
      → (rs : List (Rover socket)) × (d' : Diag) × (forward_frames socket decode rovers d frames
          ≡ some (rs, d'))
        × GoodSlots rs
  unfolding forward_frames
  forward_frames-Good [] rovers d good short = (rovers, d, refl, good)
  forward_frames-Good (frame ∷ frames) rovers d good short =
      let (rs, d1, run, fine) = forward_frame-Good rovers d frame good short.0 in
      let (rs', d', more, last) = forward_frames-Good frames rs d1 fine short.1 in
      (rs', d', rw (run, ◌>>=◌, more) refl, last)

  -- From good slots a pass of the caster ends, whatever connections and bytes arrive and however the
  -- sockets block, with frames of at most 1029 bytes, and leaves good slots: each is empty, or in its
  -- handshake, or streams after an authorized request, its deferred tail inside its buffer.
  pub caster_pass-Good :
      (rovers : List (Rover socket)) (d : Diag) (new : Option State) (heards : List (Option Heard))
      (frames : List (List ℕ))
      → All (Good socket decode cfg) rovers
      → All (λ frame. length frame ≤ 1029) frames
      → (rs : List (Rover socket)) × (d' : Diag) × (caster_pass socket decode cfg rovers d new
            heards frames
          ≡ some (rs, d'))
        × All (Good socket decode cfg) rs
  unfolding caster_pass
  caster_pass-Good rovers d new heards frames good short =
      let (r1, a, good1) = accept_rover-Good rovers new good in
      let (r2, b, good2) = serve_rovers-Good socket decode cfg r1 heards good1 in
      let (r3, d', c, good3) = forward_frames-Good frames r2 d good2 short in
      (r3, d', rw (a, ◌>>=◌, b, c) refl, good3)
