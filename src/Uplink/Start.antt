-- ===== src/Uplink/Start.antt =====
-- The start of the uplinks in main/ntrip_client.c: ntrip_client_init and ntrip_uplink_start. Where a read of
-- the configuration fails, a variable keeps its value; `none` is NULL, or the abort of a read.
use Prim.Native.String.{String}
use rtkbase.Prelude.{ℕ, List, Option, none, some, ◌==◌, if◌then◌else◌, ◌>>=◌}
use rtkbase.Nvs.{Nvs}
use rtkbase.Config.Store.{cfg_get_u8, cfg_get_u16, cfg_get_str}

-- What `ntrip_uplink_start` reads into an `ntrip_uplink_t` that was set to zero.
pub record UplinkSettings : Type 0 where
  pub host : Option (List ℕ)
  pub port : ℕ
  pub mountpoint : Option (List ℕ)
  pub username : Option (List ℕ)
  pub password : Option (List ℕ)

abbrev or_else : ℕ → Option ℕ → ℕ
or_else old none = old
or_else old (some n) = n

module _ (nvs : Nvs) where
  open nvs use {Store}

  -- The keys are those of the host, the port, the mountpoint, the user name and the password.
  unfoldable pub ntrip_uplink_start :
      Store → String → String → String → String → String → Option UplinkSettings
  unfolding cfg_get_str cfg_get_u16
  ntrip_uplink_start s host_key port_key mount_key user_key pass_key =
      cfg_get_str nvs s host_key >>= (λ host. cfg_get_u16 nvs s port_key >>= (λ port.
        cfg_get_str nvs s mount_key >>= (λ mountpoint. cfg_get_str nvs s user_key >>= (λ username.
          cfg_get_str nvs s pass_key >>= (λ password. some (record {
            host = host;
            port = or_else 0 port;
            mountpoint = mountpoint;
            username = username;
            password = password;
          }))))))

  -- `enabled` is not reset between the two uplinks.
  unfoldable pub ntrip_client_init : Store → Option (Option UplinkSettings × Option UplinkSettings)
  unfolding ntrip_uplink_start cfg_get_u8
  ntrip_client_init s = cfg_get_u8 nvs s "ntrip1_active" >>= (λ active1.
      let enabled1 = or_else 0 active1 in
      let uplink1 =
        if enabled1 == 0
        then some none
        else ntrip_uplink_start s "ntrip1_host" "ntrip1_port" "ntrip1_mp" "ntrip1_user"
            "ntrip1_pass"
          >>= (λ u. some (some u)) in
      cfg_get_u8 nvs s "ntrip2_active" >>= (λ active2.
        let enabled2 = or_else enabled1 active2 in
        let uplink2 =
          if enabled2 == 0
          then some none
          else ntrip_uplink_start s "ntrip2_host" "ntrip2_port" "ntrip2_mp" "ntrip2_user"
              "ntrip2_pass"
            >>= (λ u. some (some u)) in
        uplink1 >>= (λ first. uplink2 >>= (λ second. some (first, second)))))
