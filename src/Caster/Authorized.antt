-- ===== src/Caster/Authorized.antt =====
-- A rover streams only after an authorized request, and every pass of the caster ends.
use rtkbase.Prelude.{
  ℕ, ◌-◌, ◌≡◌, refl, ap, ap₂, sym, ◌∙◌, ◌⊎◌, inl, inr, Bool, true, false, not, List, [], ◌∷◌, ◌++◌,
  Option, none, some, arith, All, length, take, drop, leb, Bool-cases, Option-cases, append-nil,
  ◌>>=◌, if◌then◌else◌,
}
use rtkbase.CText.{codes, contains, same_text, same_text-true, same_text_nocase}
use rtkbase.Lwip.{Socket}
use rtkbase.Lwip.SendLoop.{send_from-Sent, Ending-cases}
use rtkbase.Caster.Stream.{rover_empty, rover_handshake, rover_streaming, Rover, close_rover}
use rtkbase.Caster.Flush.{Carries}
use rtkbase.Caster.Settings.{CasterConfig}
use rtkbase.Caster.Request.{
  until_nul, stristr, token_of, scan_request, credentials, Answer, bad_request, sourcetable,
  not_found, unauthorized, accept, auth_valid, passes_auth, answer_of, answer_texts, asks_v2,
}
use rtkbase.Caster.Serve.{
  Heard, bytes, closed, nothing, recv_failed, is_accept, send_all_nonblocking, respond,
  handle_request, check_request, take_bytes, hear_handshake, hear_streaming, hear_rover,
  serve_rovers,
}

module _ (decode : ℕ → List ℕ → Option (List ℕ)) (cfg : CasterConfig) where
  -- The request asks for the configured stream, with the configured credentials where there are any.
  pub record Authorized (request : List ℕ) : Type 0 where
    pub method : same_text_nocase (scan_request request).0 (codes "GET") ≡ true
    pub path : same_text_nocase (scan_request request).1 (b'/' ∷ cfg.mountpoint) ≡ true
    pub known :
        cfg.auth_required ≡ true
        → (found : List ℕ) × (decoded : List ℕ) × (stristr request (codes "Authorization: Basic ")
            ≡ some found)
          × (decode 127 (token_of (drop 21 found)) ≡ some decoded)
          × (until_nul decoded ≡ take 127 (credentials cfg))

  auth_valid_known :
      (token : List ℕ)
      → auth_valid decode cfg token ≡ true
      → cfg.auth_required ≡ true
      → (decoded : List ℕ) × (decode 127 token ≡ some decoded)
        × (until_nul decoded ≡ take 127 (credentials cfg))
  unfolding auth_valid
  auth_valid_known token ok required = elim (Option-cases (decode 127 token)) [
    | inl e ↦ absurd (ground arith)
    | inr (decoded, e) ↦
        (decoded, e, same_text-true (until_nul decoded) (take 127 (credentials cfg)) (ground arith))
  ]

  passes_auth_known :
      (req : List ℕ)
      → passes_auth decode cfg req ≡ true
      → cfg.auth_required ≡ true
      → (found : List ℕ) × (decoded : List ℕ) × (stristr req (codes "Authorization: Basic ")
          ≡ some found)
        × (decode 127 (token_of (drop 21 found)) ≡ some decoded)
        × (until_nul decoded ≡ take 127 (credentials cfg))
  unfolding passes_auth
  passes_auth_known req ok required =
      elim (Option-cases (stristr req (codes "Authorization: Basic "))) [
        | inl e ↦
            let refused : passes_auth decode cfg req ≡ false = rw (passes_auth, required, e) refl in
            absurd (ground arith)
        | inr (found, e) ↦
            let token = token_of (drop 21 found) in
            let asked : passes_auth decode cfg req ≡ auth_valid decode cfg token =
              ap₂
                (λ (b : Bool) (o : Option (List ℕ)). if not b then true else (elim o [
                  | none ↦ false
                  | some f ↦ auth_valid decode cfg (token_of (drop 21 f))
                ]))
                required e in
            let (decoded, f, same) = auth_valid_known token (sym asked ∙ ok) required in
            (found, decoded, e, f, same)
      ]

  chosen :
      (get table known passes : Bool)
      → (if not get
          then bad_request
          else if table
          then sourcetable
          else if not known
          then not_found
          else if passes
          then accept
          else unauthorized)
        ≡ accept
      → (get ≡ true) × (known ≡ true) × (passes ≡ true)
  chosen false table known passes h = absurd (ground arith)
  chosen true true known passes h = absurd (ground arith)
  chosen true false false passes h = absurd (ground arith)
  chosen true false true false h = absurd (ground arith)
  chosen true false true true h = (refl, refl, refl)

  answer_of-Authorized : (req : List ℕ) → answer_of decode cfg req ≡ accept → Authorized req
  unfolding answer_of
  answer_of-Authorized req is =
      let (method, path) = scan_request req in
      let (get, known, passes) =
        chosen (same_text_nocase method (codes "GET")) (same_text path (codes "/"))
          (same_text_nocase path (b'/' ∷ cfg.mountpoint)) (passes_auth decode cfg req) is in
      record { method = get; path = known; known = passes_auth_known req passes }

module _ (socket : Socket) (decode : ℕ → List ℕ → Option (List ℕ)) (cfg : CasterConfig) where
  open socket use {State, wire}

  -- The states of a slot: empty, in its handshake with nothing to send, or streaming after an authorized
  -- request.
  abbrev pub Good : Rover socket → Type 0
  Good r =
      (r.state ≡ rover_empty)
      ⊎ (((net : State) × (r.state ≡ rover_handshake)
            × (r.fd ≡ some net)
            × (r.tx_pending ≡ [])
            × (r.tx_pending_pos ≡ 0))
          ⊎ ((request : List ℕ) × (text : List ℕ) × Carries socket r request text
              × Authorized decode cfg (until_nul request)))

  pub respond_lem :
      (texts : List (List ℕ)) (net : State)
      → (net' : State) × (respond socket decode net texts ≡ some net')
  unfolding respond send_all_nonblocking
  respond_lem [] net = (net, refl)
  respond_lem (text ∷ texts) net =
      let (s, run, ok) = send_from-Sent socket 20 net text 0 (omega arith) in
      let (net', more) = respond_lem texts s.net in
      elim (Ending-cases s.ending) [
        | inl e ↦ (net', rw (run, ◌>>=◌, e) more)
        | inr (inl e) ↦ (s.net, rw (run, ◌>>=◌, e) refl)
        | inr (inr (inl e)) ↦ (s.net, rw (run, ◌>>=◌, e) refl)
        | inr (inr (inr (errno, e))) ↦ (s.net, rw (run, ◌>>=◌, e) refl)
      ]

  pub closed-Good : Good (close_rover socket)
  unfolding close_rover
  closed-Good = inl refl

  Answer-cases : (a : Answer) → (a ≡ accept) ⊎ (is_accept a ≡ false)
  Answer-cases bad_request = inr refl
  Answer-cases sourcetable = inr refl
  Answer-cases not_found = inr refl
  Answer-cases unauthorized = inr refl
  Answer-cases accept = inl refl

  check_request-Good :
      (r : Rover socket) (net : State)
      → r.state ≡ rover_handshake
      → r.fd ≡ some net
      → r.tx_pending ≡ []
      → r.tx_pending_pos ≡ 0
      → (r' : Rover socket) × (check_request socket decode cfg r net ≡ some r') × Good r'
  unfolding check_request handle_request
  check_request-Good r net state fd clean pos =
      let req = until_nul r.rx_buf in
      let (net', run) =
        respond_lem (answer_texts cfg (asks_v2 req) (answer_of decode cfg req)) net in
      elim (Bool-cases (contains req (13 ∷ 10 ∷ 13 ∷ 10 ∷ []))) [
        | inr e ↦ elim (Bool-cases (leb 511 (length r.rx_buf))) [
          | inl f ↦ (close_rover socket, rw (e, f) refl, closed-Good)
          | inr f ↦ (r, rw (e, f) refl, inr (inl (net, state, fd, clean, pos)))
        ]
        | inl e ↦ elim (Answer-cases (answer_of decode cfg req)) [
          | inr f ↦ (close_rover socket, rw (e, run, ◌>>=◌, f) refl, closed-Good)
          | inl f ↦
              let r' : Rover socket = record r {
                fd = some net';
                is_ntrip_v2 = asks_v2 req;
                state = rover_streaming;
              } in
              (
                r',
                rw (e, run, ◌>>=◌, f) refl,
                inr (
                    inr (
                      r.rx_buf,
                      wire net',
                      record {
                        net = net';
                        connected = refl;
                        streaming = refl;
                        asked = refl;
                        pos_in = omega (arith, pos);
                        pending_in = omega (arith, ap length clean);
                        carried =
                            ap₂ (λ (k : ℕ) (p : List ℕ). wire net' ++ drop k p) pos clean
                            ∙ append-nil (wire net');
                      },
                      answer_of-Authorized decode cfg req f,
                    )),
              )
        ]
      ]

  -- A rover that sends something, or whose connection ends, leaves a good slot.
  hear_rover-Good :
      (r : Rover socket) (heard : Heard)
      → Good r
      → (r' : Rover socket) × (hear_rover socket decode cfg r.state r.fd r heard ≡ some r')
        × Good r'
  unfolding hear_rover hear_handshake hear_streaming take_bytes
  hear_rover-Good r heard (inl e) =
      (r, ap (λ st. hear_rover socket decode cfg st r.fd r heard) e, inl e)
  hear_rover-Good r heard (inr (inr (request, text, v, a))) =
      let open_call =
        ap₂ (λ st fd. hear_rover socket decode cfg st fd r heard) v.streaming v.connected in
      let (r', e, good) = streams heard in (r', open_call ∙ ap (λ x. some x) e, good)
    where
      streams :
          (h : Heard) → (r' : Rover socket) × (hear_streaming socket decode r h ≡ r') × Good r'
      streams (bytes sent) = (r, refl, inr (inr (request, text, v, a)))
      streams closed = (close_rover socket, refl, closed-Good)
      streams nothing = (r, refl, inr (inr (request, text, v, a)))
      streams recv_failed = (close_rover socket, refl, closed-Good)
  hear_rover-Good r heard (inr (inl (net, state, fd, clean, pos))) =
      let open_call = ap₂ (λ st f. hear_rover socket decode cfg st f r heard) state fd in
      let (r', e, good) = shakes heard in (r', open_call ∙ e, good)
    where
      taken :
          (got : List ℕ)
          → (r' : Rover socket) × (take_bytes socket decode cfg r net got ≡ some r') × Good r'
      taken [] = (close_rover socket, refl, closed-Good)
      taken (c ∷ got) =
          check_request-Good (record r { rx_buf = r.rx_buf ++ c ∷ got }) net state fd clean pos

      shakes :
          (h : Heard)
          → (r' : Rover socket) × (hear_handshake socket decode cfg r net h ≡ some r') × Good r'
      shakes (bytes sent) = taken (take (512 - length r.rx_buf - 1) sent)
      shakes closed = (close_rover socket, refl, closed-Good)
      shakes nothing = (close_rover socket, refl, closed-Good)
      shakes recv_failed = (close_rover socket, refl, closed-Good)

  pub serve_rovers-Good :
      (rovers : List (Rover socket)) (heards : List (Option Heard))
      → All Good rovers
      → (rs : List (Rover socket)) × (serve_rovers socket decode cfg rovers heards ≡ some rs)
        × All Good rs
  unfolding serve_rovers
  serve_rovers-Good [] heards good = ([], refl, good)
  serve_rovers-Good (r ∷ rovers) [] good = (r ∷ rovers, refl, good)
  serve_rovers-Good (r ∷ rovers) (none ∷ heards) good =
      let (rs, run, rest) = serve_rovers-Good rovers heards good.1 in
      (r ∷ rs, rw run refl, (good.0, rest))
  serve_rovers-Good (r ∷ rovers) (some heard ∷ heards) good =
      let (r', first, good') = hear_rover-Good r heard good.0 in
      let (rs, run, rest) = serve_rovers-Good rovers heards good.1 in
      (r' ∷ rs, rw (first, ◌>>=◌, run) refl, (good', rest))
