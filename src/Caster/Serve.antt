-- ===== src/Caster/Serve.antt =====
-- The rover slots of task_ntrip_server in main/ntrip_caster.c: accept, the handshake, what a streaming rover
-- sends, and the frames from the queue. `none` is a write past `tx_pending`.
use rtkbase.Prelude.{
  ℕ, suc, ◌-◌, Bool, true, false, List, [], ◌∷◌, ◌++◌, Option, none, some, length, take, leb,
  if◌then◌else◌, ◌>>=◌,
}
use rtkbase.CText.{codes, contains}
use rtkbase.Lwip.{Socket}
use rtkbase.Lwip.SendLoop.{all_sent, blocked, sent_zero, send_failed, send_from}
use rtkbase.Caster.Stream.{
  RoverState, rover_empty, rover_handshake, rover_streaming, Rover, Diag, close_rover, is_streaming,
  forward_frame,
}
use rtkbase.Caster.Settings.{CasterConfig}
use rtkbase.Caster.Request.{
  until_nul, Answer, bad_request, sourcetable, not_found, unauthorized, accept, asks_v2, answer_of,
  answer_texts,
}

abbrev pub max_rovers : ℕ
max_rovers = 4

abbrev pub rover_req_buf_size : ℕ
rover_req_buf_size = 512

abbrev pub handshake_send_retries : ℕ
handshake_send_retries = 20

-- What a rover's socket has for recv(), which takes as much as it has room for.
pub data Heard : Type 0 where
  bytes : List ℕ → Heard
  closed : Heard
  nothing : Heard
  recv_failed : Heard

abbrev pub is_accept : Answer → Bool
is_accept bad_request = false
is_accept sourcetable = false
is_accept not_found = false
is_accept unauthorized = false
is_accept accept = true

abbrev pub is_empty_slot : RoverState → Bool
is_empty_slot rover_empty = true
is_empty_slot rover_handshake = false
is_empty_slot rover_streaming = false

module _ (socket : Socket) (decode : ℕ → List ℕ → Option (List ℕ)) where
  open socket use {State}

  -- Whether all was sent, and the socket.
  unfoldable pub send_all_nonblocking : State → List ℕ → Option (Bool × State)
  unfolding send_from
  send_all_nonblocking net text = send_from socket handshake_send_retries net text 0 >>= (λ s.
      some (elim s.ending [
        | all_sent ↦ (true, s.net)
        | blocked ↦ (false, s.net)
        | sent_zero ↦ (false, s.net)
        | send_failed errno ↦ (false, s.net)
      ]))

  -- The texts of an answer; the second only after the first.
  unfoldable pub respond : State → List (List ℕ) → Option State
  unfolding send_all_nonblocking
  respond net [] = some net
  respond net (text ∷ texts) =
      send_all_nonblocking net text
      >>= (λ done. if done.0 then respond done.1 texts else some done.1)

  -- `handle_request`: whether the rover is accepted, and the rover after the answer.
  unfoldable pub handle_request : CasterConfig → Rover socket → State → Option (Bool × Rover socket)
  unfolding answer_of answer_texts asks_v2 respond until_nul
  handle_request cfg r net =
      let req = until_nul r.rx_buf in
      let v2 = asks_v2 req in
      let answer = answer_of decode cfg req in
      respond net (answer_texts cfg v2 answer)
      >>= (λ net'. some (is_accept answer, record r { fd = some net'; is_ntrip_v2 = v2 }))

  -- The end of a handshake's round: the request is complete, too long, or not yet complete.
  unfoldable pub check_request : CasterConfig → Rover socket → State → Option (Rover socket)
  unfolding handle_request close_rover contains
  check_request cfg r net =
      let answered = handle_request cfg r net >>= (λ done.
        some (if done.0 then record done.1 { state = rover_streaming } else close_rover socket)) in
      if contains (until_nul r.rx_buf) (13 ∷ 10 ∷ 13 ∷ 10 ∷ [])
      then answered
      else if leb (rover_req_buf_size - 1) (length r.rx_buf)
      then some (close_rover socket)
      else some r

  unfoldable pub take_bytes : CasterConfig → Rover socket → State → List ℕ → Option (Rover socket)
  unfolding check_request
  take_bytes cfg r net [] = some (close_rover socket)
  take_bytes cfg r net (c ∷ got) = check_request cfg (record r { rx_buf = r.rx_buf ++ c ∷ got }) net

  -- A readable rover in its handshake.
  unfoldable pub hear_handshake :
      CasterConfig → Rover socket → State → Heard → Option (Rover socket)
  unfolding take_bytes close_rover
  hear_handshake cfg r net (bytes sent) =
      take_bytes cfg r net (take (rover_req_buf_size - length r.rx_buf - 1) sent)
  hear_handshake cfg r net closed = some (close_rover socket)
  hear_handshake cfg r net nothing = some (close_rover socket)
  hear_handshake cfg r net recv_failed = some (close_rover socket)

  -- A readable rover that streams: what it sends is thrown away.
  unfoldable pub hear_streaming : Rover socket → Heard → Rover socket
  unfolding close_rover
  hear_streaming r (bytes sent) = r
  hear_streaming r closed = close_rover socket
  hear_streaming r nothing = r
  hear_streaming r recv_failed = close_rover socket

  unfoldable pub hear_rover :
      CasterConfig → RoverState → Option State → Rover socket → Heard → Option (Rover socket)
  unfolding hear_handshake hear_streaming close_rover
  hear_rover cfg rover_empty fd r heard = some r
  hear_rover cfg rover_handshake none r heard = some (close_rover socket)
  hear_rover cfg rover_handshake (some net) r heard = hear_handshake cfg r net heard
  hear_rover cfg rover_streaming fd r heard = some (hear_streaming r heard)

  -- The loop over the slots, with what each readable rover has for recv().
  unfoldable pub serve_rovers :
      CasterConfig → List (Rover socket) → List (Option Heard) → Option (List (Rover socket))
  unfolding hear_rover
  serve_rovers cfg [] heards = some []
  serve_rovers cfg (r ∷ rovers) [] = some (r ∷ rovers)
  serve_rovers cfg (r ∷ rovers) (none ∷ heards) =
      serve_rovers cfg rovers heards >>= (λ rest. some (r ∷ rest))
  serve_rovers cfg (r ∷ rovers) (some heard ∷ heards) =
      hear_rover cfg r.state r.fd r heard
      >>= (λ r'. serve_rovers cfg rovers heards >>= (λ rest. some (r' ∷ rest)))

  -- A new connection in the first empty slot; `none` where there is none.
  unfoldable pub place_rover : List (Rover socket) → State → Option (List (Rover socket))
  place_rover [] net = none
  place_rover (r ∷ rovers) net =
      let placed = record r {
        fd = some net;
        state = rover_handshake;
        rx_buf = [];
        tx_pending = [];
        tx_pending_pos = 0;
      } in
      let rest = place_rover rovers net in
      if is_empty_slot r.state
      then some (placed ∷ rovers)
      else (elim rest [ none ↦ none | some rs ↦ some (r ∷ rs) ])

  -- With no empty slot the connection is answered with 503 and closed.
  unfoldable pub accept_rover : List (Rover socket) → Option State → Option (List (Rover socket))
  unfolding place_rover respond
  accept_rover rovers none = some rovers
  accept_rover rovers (some net) = elim (place_rover rovers net) [
    | some rs ↦ some rs
    | none ↦
        respond net ((codes "HTTP/1.1 503 Service Unavailable" ++ 13 ∷ 10 ∷ 13 ∷ 10 ∷ []) ∷ [])
        >>= (λ closed_net. some rovers)
  ]

  -- The frames that the queue has, one after another.
  unfoldable pub forward_frames :
      List (Rover socket) → Diag → List (List ℕ) → Option (List (Rover socket) × Diag)
  unfolding forward_frame
  forward_frames rovers d [] = some (rovers, d)
  forward_frames rovers d (frame ∷ frames) =
      forward_frame socket rovers d frame >>= (λ done. forward_frames done.0 done.1 frames)

  -- One pass of the main loop: what accept() gives, what the rovers send, and the queue's frames.
  unfoldable pub caster_pass :
      CasterConfig
      → List (Rover socket)
      → Diag
      → Option State
      → List (Option Heard)
      → List (List ℕ)
      → Option (List (Rover socket) × Diag)
  unfolding accept_rover serve_rovers forward_frames
  caster_pass cfg rovers d new heards frames =
      accept_rover rovers new
      >>= (λ rs. serve_rovers cfg rs heards >>= (λ rs'. forward_frames rs' d frames))

  unfoldable pub ntrip_caster_rover_count : List (Rover socket) → ℕ
  ntrip_caster_rover_count [] = 0
  ntrip_caster_rover_count (r ∷ rovers) =
      let more = ntrip_caster_rover_count rovers in if is_streaming r.state then suc more else more

  -- The slots when the task begins.
  abbrev pub no_rovers : List (Rover socket)
  no_rovers = close_rover socket ∷ close_rover socket ∷ close_rover socket ∷ close_rover socket ∷ []
