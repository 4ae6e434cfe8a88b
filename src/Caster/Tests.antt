-- ===== src/Caster/Tests.antt =====
-- A rover whose socket takes two bytes, then is full for longer than the retries.
use rtkbase.Prelude.{
  ℕ, ◌≡◌, ◌⊎◌, refl, true, List, [], ◌∷◌, ◌++◌, some, none, inl, inr, length, All, Option, concat,
  ◌≤◌, if◌then◌else◌, arith,
}
use rtkbase.Lwip.Script.{scripted}
use rtkbase.Lwip.SendLoop.{Sending, send_from, Sent, send_from-Sent}
use rtkbase.Caster.Stream.{
  rover_streaming, rover_handshake, Rover, Diag, close_rover, send_frame_to_rover,
}
use rtkbase.CText.{codes, same_text}
use rtkbase.Caster.Settings.{CasterConfig}
use rtkbase.Caster.Request.{crlf, accept, unauthorized, answer_of, str_record, table_header}
use rtkbase.Caster.Serve.{bytes, caster_pass}
use rtkbase.Caster.Authorized.{Good, closed-Good}
use rtkbase.Caster.Passes.{caster_pass-Good}
use rtkbase.Caster.Sourcetable.{str_record-fits}
use rtkbase.Caster.Flush.{Carries}
use rtkbase.Caster.Whole.{Deliveries, TailOf, last_of, send_frames, send_frames-whole}

abbrev no_events : Diag
no_events = record { rover_block_events = 0; rover_slow_drops = 0; rover_send_errors = 0 }

abbrev slow : Rover scripted
slow = record {
  fd = some (record { taken = []; script = 2 ∷ 0 ∷ 0 ∷ 0 ∷ 0 ∷ 0 ∷ 0 ∷ [] });
  state = rover_streaming;
  rx_buf = [];
  is_ntrip_v2 = true;
  tx_pending = [];
  tx_pending_pos = 0;
}

slow-Carries : Carries scripted slow [] []
slow-Carries = record {
  net = record { taken = []; script = 2 ∷ 0 ∷ 0 ∷ 0 ∷ 0 ∷ 0 ∷ 0 ∷ [] };
  connected = refl;
  streaming = refl;
  asked = refl;
  pos_in = omega arith;
  pending_in = omega arith;
  carried = refl;
}

abbrev frame : List ℕ
frame = 7 ∷ 8 ∷ 9 ∷ []

-- The third byte is kept for later.
tail_is_deferred :
    send_frame_to_rover scripted slow no_events frame
    ≡ some (
      true,
      record slow { fd = some (record { taken = 7 ∷ 8 ∷ []; script = [] }); tx_pending = 9 ∷ [] },
      record no_events { rover_block_events = 1 },
    )
unfolding send_frame_to_rover send_from
tail_is_deferred = refl

send_from-Sent_example :
    (r : Sending scripted) × (send_from scripted 5
        (record { taken = []; script = 2 ∷ 0 ∷ [] })
        frame
        1
      ≡ some r)
    × Sent scripted frame [] 1 r
send_from-Sent_example =
    send_from-Sent scripted 5 (record { taken = []; script = 2 ∷ 0 ∷ [] }) frame 1 (omega arith)

send_frames-whole_example :
    (r' : Rover scripted) × (kept : List (List ℕ)) × (send_frames scripted slow no_events
        (frame ∷ (5 ∷ []) ∷ [])
      ≡ some (r', kept))
    × Deliveries scripted slow (frame ∷ (5 ∷ []) ∷ []) kept r'
    × ((Carries scripted r' [] ([] ++ concat kept) × TailOf scripted r' (last_of scripted [] kept))
        ⊎ (r' ≡ close_rover scripted))
send_frames-whole_example =
    send_frames-whole scripted (frame ∷ (5 ∷ []) ∷ []) slow no_events [] [] slow-Carries
      (omega arith, (omega arith, tt))

-- A decoder that knows one token.
abbrev decode : ℕ → List ℕ → Option (List ℕ)
decode size token = if same_text token (codes "bWU6cHc=") then some (codes "me:pw") else none

abbrev cfg : CasterConfig
cfg = record {
  loaded = true;
  auth_required = true;
  port = 2101;
  mountpoint = codes "RTK";
  identifier = codes "base";
  username = codes "me";
  password = codes "pw";
}

abbrev request : List ℕ → List ℕ
request token =
    codes "GET /rtk HTTP/1.1" ++ crlf ++ codes "Authorization: Basic " ++ token ++ crlf ++ crlf

right_token : answer_of decode cfg (request (codes "bWU6cHc=")) ≡ accept
unfolding answer_of same_text
right_token = refl

wrong_token : answer_of decode cfg (request (codes "bWU6cHd=")) ≡ unauthorized
unfolding answer_of same_text
wrong_token = refl

abbrev shaking : Rover scripted
shaking = record slow { state = rover_handshake }

caster_pass-Good_example :
    (rs : List (Rover scripted)) × (d' : Diag) × (caster_pass scripted decode cfg
        (shaking ∷ close_rover scripted ∷ [])
        no_events
        (some (record { taken = []; script = [] }))
        (some (bytes (request (codes "bWU6cHc="))) ∷ [])
        (frame ∷ [])
      ≡ some (rs, d'))
    × All (Good scripted decode cfg) rs
caster_pass-Good_example =
    caster_pass-Good scripted decode cfg (shaking ∷ close_rover scripted ∷ []) no_events
      (some (record { taken = []; script = [] })) (some (bytes (request (codes "bWU6cHc="))) ∷ [])
      (frame ∷ [])
      (
        inr (
            inl (
              record { taken = []; script = 2 ∷ 0 ∷ 0 ∷ 0 ∷ 0 ∷ 0 ∷ 0 ∷ [] },
              refl,
              refl,
              refl,
              refl,
            )),
        (closed-Good scripted decode cfg, tt),
      )
      (omega arith, tt)

str_record-fits_example :
    (length (str_record cfg) ≤ 255) × (length (table_header true (length (str_record cfg))) ≤ 255)
str_record-fits_example = str_record-fits cfg true (omega arith) (omega arith)
