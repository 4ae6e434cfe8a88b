-- ===== src/Config/Items.antt =====
-- CONFIG_ITEMS of main/nvs_config.c: the keys, types and defaults of the configuration.
use Prim.Native.String.{String}
use rtkbase.Prelude.{ℕ, ◌+◌, ◌*◌, List, [], ◌∷◌, ◌++◌}
use rtkbase.CText.{codes}

-- The type of an item together with the default, the member of the union that goes with the type. A
-- Boolean is the byte 0 or 1.
pub data ItemType : Type 0 where
  bool_item : ℕ → ItemType
  uint8_item : ℕ → ItemType
  uint16_item : ℕ → ItemType
  uint32_item : ℕ → ItemType
  str_item : List ℕ → ItemType
  secret_item : List ℕ → ItemType
  ip_item : ℕ → ItemType

pub record ConfigItem : Type 0 where
  pub key : String
  pub type : ItemType

abbrev item : String → ItemType → ConfigItem
item key type = record { key = key; type = type }

-- An address in network order on a little-endian machine: the first part is the lowest byte.
abbrev ip4 : ℕ → ℕ → ℕ → ℕ → ℕ
ip4 a b c d = a + 256 * b + 65536 * c + 16777216 * d

abbrev pub admin_items : List ConfigItem
admin_items =
    item "adm_auth" (uint8_item 0)
    ∷ item "adm_user" (str_item [])
    ∷ item "adm_pass" (secret_item [])
    ∷ item "time_tz" (str_item (codes "CET-1CEST,M3.5.0/2,M10.5.0/3"))
    ∷ item "host_name" (str_item (codes "RTK_"))
    ∷ []

abbrev pub ntrip1_items : List ConfigItem
ntrip1_items =
    item "ntrip1_active" (bool_item 0)
    ∷ item "ntrip1_host" (str_item [])
    ∷ item "ntrip1_port" (uint16_item 2101)
    ∷ item "ntrip1_mp" (str_item [])
    ∷ item "ntrip1_user" (str_item [])
    ∷ item "ntrip1_pass" (secret_item [])
    ∷ []

abbrev pub ntrip2_items : List ConfigItem
ntrip2_items =
    item "ntrip2_active" (bool_item 0)
    ∷ item "ntrip2_host" (str_item [])
    ∷ item "ntrip2_port" (uint16_item 2101)
    ∷ item "ntrip2_mp" (str_item [])
    ∷ item "ntrip2_user" (str_item [])
    ∷ item "ntrip2_pass" (secret_item [])
    ∷ []

abbrev pub caster_items : List ConfigItem
caster_items =
    item "caster_active" (bool_item 0)
    ∷ item "caster_port" (uint16_item 2101)
    ∷ item "caster_mp" (str_item [])
    ∷ item "caster_user" (str_item [])
    ∷ item "caster_pass" (secret_item [])
    ∷ []

abbrev pub tcp_items : List ConfigItem
tcp_items = item "tcp_srv_active" (bool_item 0) ∷ item "tcp_srv_port" (uint16_item 5015) ∷ []

abbrev pub uart_items : List ConfigItem
uart_items =
    item "uart_num" (uint8_item 1)
    ∷ item "uart_rx_pin" (uint8_item 16)
    ∷ item "uart_tx_pin" (uint8_item 17)
    ∷ item "uart_rts_pin" (uint8_item 14)
    ∷ item "uart_cts_pin" (uint8_item 33)
    ∷ item "uart_baud_rate" (uint32_item 115200)
    ∷ item "uart_data_bits" (uint8_item 3)
    ∷ item "uart_stop_bits" (uint8_item 1)
    ∷ item "uart_parity" (uint8_item 0)
    ∷ item "uart_fc_rts" (bool_item 0)
    ∷ item "uart_fc_cts" (bool_item 0)
    ∷ []

abbrev pub ap_items : List ConfigItem
ap_items =
    item "w_ap_active" (bool_item 1)
    ∷ item "w_ap_ssid" (str_item (codes "RTK_"))
    ∷ item "w_ap_ssid_hid" (bool_item 0)
    ∷ item "w_ap_auth_mode" (uint8_item 0)
    ∷ item "w_ap_pass" (secret_item [])
    ∷ item "w_ap_gw" (ip_item (ip4 192 168 4 1))
    ∷ item "w_ap_subnet" (uint8_item 24)
    ∷ []

abbrev pub sta_items : List ConfigItem
sta_items =
    item "w_sta_active" (bool_item 0)
    ∷ item "w_sta_ssid" (str_item [])
    ∷ item "w_sta_pass" (secret_item [])
    ∷ item "w_sta_scan_mode" (bool_item 0)
    ∷ item "w_sta_static" (bool_item 0)
    ∷ item "w_sta_ip" (ip_item (ip4 192 168 0 100))
    ∷ item "w_sta_gw" (ip_item (ip4 192 168 0 1))
    ∷ item "w_sta_subnet" (uint8_item 24)
    ∷ item "w_sta_dns_a" (ip_item (ip4 192 168 178 1))
    ∷ item "w_sta_dns_b" (ip_item (ip4 8 8 8 8))
    ∷ []

unfoldable pub config_items : List ConfigItem
config_items =
    admin_items
    ++ (ntrip1_items
        ++ (ntrip2_items
            ++ (caster_items ++ (tcp_items ++ (uart_items ++ (ap_items ++ (sta_items)))))))
