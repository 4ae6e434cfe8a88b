-- ===== src/Uplink/Tests.antt =====
-- An uplink on a scripted socket.
use rtkbase.Prelude.{
  Bool, ℕ, Option, if◌then◌else◌, ◌≡◌, ◌⊎◌, refl, true, false, List, [], ◌∷◌, ◌++◌, none, some, min,
  concat,
}
use rtkbase.CText.{codes, same_text}
use rtkbase.Lwip.SendLoop.{send_from}
use rtkbase.Lwip.Script.{scripted}
use rtkbase.Caster.Request.{crlf}
use rtkbase.Uplink.Connect.{
  Target, Attempt, response_is_success, post_request, source_request, ntrip_connect,
}
use rtkbase.Uplink.Handshake.{Established, ntrip_connect-Established}
use rtkbase.Uplink.{Uplink, connect_round}
use mathlib.Core.Option
use rtkbase.Nvs.{u8}
use rtkbase.Nvs.Table.{table}
use rtkbase.Config.Store.{cfg_get_u8, cfg_get_u16, cfg_get_str}
use rtkbase.Uplink.Start.{UplinkSettings, ntrip_uplink_start, ntrip_client_init}
use rtkbase.Uplink.Backoff.{failing, doubled, connect_round-failing}
use rtkbase.Uplink.Frames.{Carried, IsClosed, send_all_frames, send_all_frames-whole}

abbrev down : Uplink scripted
down = record {
  sock = none;
  reconnect_delay_ms = 2000;
  connected = false;
  reconnect_events = 0;
  send_block_events = 0;
  send_fatal_errors = 0;
}

connect_round-failing_example :
    ((connect_round scripted (failing scripted 3 down) none).1 ≡ min (doubled 3) 60000)
    × ((connect_round scripted (failing scripted 3 down) none).0.sock ≡ none)
connect_round-failing_example = connect_round-failing scripted 3 down refl refl

abbrev up : Uplink scripted
up = record down { sock = some (record { taken = []; script = 2 ∷ 0 ∷ [] }); connected = true }

up-Carried : Carried scripted up []
up-Carried = record {
  net = record { taken = []; script = 2 ∷ 0 ∷ [] };
  open_socket = refl;
  bit = refl;
  on_wire = refl;
}

abbrev frames : List (List ℕ)
frames = (7 ∷ 8 ∷ 9 ∷ []) ∷ (5 ∷ []) ∷ []

send_all_frames-whole_example :
    (u' : Uplink scripted) × (send_all_frames scripted up frames ≡ some u')
    × (Carried scripted u' ([] ++ concat frames) ⊎ IsClosed scripted u')
send_all_frames-whole_example = send_all_frames-whole scripted frames up [] up-Carried

abbrev target : Target
target = record {
  host = codes "caster";
  port = 2101;
  mountpoint = codes "RTK";
  username = some (codes "me");
  password = some (codes "pw");
}

-- An encoder for one text.
abbrev encode : ℕ → List ℕ → Option (List ℕ)
encode size text = if same_text text (codes "me:pw") then some (codes "bWU6cHc=") else none

abbrev refused : Attempt scripted.State
refused = record {
  opened = some (record { taken = []; script = [] });
  reply = some (codes "HTTP/1.1 401 Unauthorized");
  nonblocking_ok = true;
}

abbrev accepted : Attempt scripted.State
accepted = record refused { reply = some (codes "ICY 200 OK") }

abbrev source : List ℕ
source = codes "SOURCE pw /RTK" ++ crlf ++ codes "Source-Agent: NTRIP RTKBase/1.0" ++ crlf ++ crlf

version_1_is_next :
    ntrip_connect scripted encode target refused accepted
    ≡ some (some (record { taken = source; script = [] }))
unfolding ntrip_connect response_is_success send_from same_text
version_1_is_next = refl

ntrip_connect-Established_example :
    (r : Option scripted.State) × (ntrip_connect scripted encode target refused accepted ≡ some r)
    × ((r ≡ none)
        ⊎ (((net : scripted.State) × (r ≡ some net)
              × Established scripted refused (post_request encode target) net)
            ⊎ ((net : scripted.State) × (password : List ℕ) × (r ≡ some net)
                × (target.password ≡ some password)
                × Established scripted accepted (source_request target password) net)))
ntrip_connect-Established_example =
    ntrip_connect-Established scripted encode target refused accepted

abbrev is_started : Option UplinkSettings → Bool
is_started none = false
is_started (some u) = true

-- Without a value of ntrip2_active the second uplink follows the switch of the first.
second_follows_first :
    Option.map
      (λ (r : Option UplinkSettings × Option UplinkSettings). is_started r.1)
      (ntrip_client_init table (("ntrip1_active", u8 1) ∷ []))
    ≡ some true
unfolding ntrip_client_init cfg_get_u8 cfg_get_u16 cfg_get_str ntrip_uplink_start
second_follows_first = refl
