-- ===== src/Config/Store.antt =====
-- The store of main/nvs_config.c: nvs_cfg_init writes the defaults that are missing; cfg_get_u8 and its
-- kin read one value. `none` at the top is the abort of ESP_ERROR_CHECK.
use Prim.Native.String.{String}
use text.Mathlib.Text.{◌==◌ as str_eq}
use rtkbase.Prelude.{ℕ, Bool, true, false, ◌||◌, List, [], ◌∷◌, Option, none, some, if◌then◌else◌}
use rtkbase.Nvs.{Stored, u8, u16, u32, str, Nvs, as_u8, as_u16, as_u32, as_str}
use rtkbase.Config.Items.{
  ItemType, bool_item, uint8_item, uint16_item, uint32_item, str_item, secret_item, ip_item,
  ConfigItem, config_items,
}

-- What init writes for an item; `generated` is the name made of the MAC address.
unfoldable pub default_of : List ℕ → String → ItemType → Stored
default_of generated key (bool_item d) = u8 d
default_of generated key (uint8_item d) = u8 d
default_of generated key (uint16_item d) = u16 d
default_of generated key (uint32_item d) = u32 d
default_of generated key (ip_item d) = u32 d
default_of generated key (str_item d) =
    if str_eq key "w_ap_ssid" || str_eq key "host_name" then str generated else str d
default_of generated key (secret_item d) =
    if str_eq key "w_ap_ssid" || str_eq key "host_name" then str generated else str d

abbrev is_some {ℓ} : {A : Type ℓ} → Option A → Bool
is_some none = false
is_some (some a) = true

-- Whether the read of the item's own type succeeds.
unfoldable pub is_readable : ItemType → Option Stored → Bool
is_readable (bool_item d) found = is_some (as_u8 found)
is_readable (uint8_item d) found = is_some (as_u8 found)
is_readable (uint16_item d) found = is_some (as_u16 found)
is_readable (uint32_item d) found = is_some (as_u32 found)
is_readable (ip_item d) found = is_some (as_u32 found)
is_readable (str_item d) found = is_some (as_str found)
is_readable (secret_item d) found = is_some (as_str found)

module _ (nvs : Nvs) where
  open nvs use {Store, opens, get, set, commit}

  -- One round of the loop of nvs_cfg_init.
  unfoldable pub init_item : List ℕ → Store → ConfigItem → Store
  unfolding default_of is_readable
  init_item generated s i =
      if is_readable i.type (get s i.key)
      then s
      else (set s i.key (default_of generated i.key i.type)).0

  unfoldable pub init_items : List ℕ → Store → List ConfigItem → Store
  unfolding init_item
  init_items generated s [] = s
  init_items generated s (i ∷ items) = init_items generated (init_item generated s i) items

  -- The store after nvs_flash_init, whose result and erasing are not part of this.
  unfoldable pub nvs_cfg_init : List ℕ → Store → Option Store
  unfolding init_items
  nvs_cfg_init generated s =
      if opens s then some (commit (init_items generated s config_items)).0 else none

  -- An inner `none` is an error code of the read.
  unfoldable pub cfg_get_u8 : Store → String → Option (Option ℕ)
  cfg_get_u8 s key = if opens s then some (as_u8 (get s key)) else none

  unfoldable pub cfg_get_u16 : Store → String → Option (Option ℕ)
  cfg_get_u16 s key = if opens s then some (as_u16 (get s key)) else none

  unfoldable pub cfg_get_u32 : Store → String → Option (Option ℕ)
  cfg_get_u32 s key = if opens s then some (as_u32 (get s key)) else none

  unfoldable pub cfg_get_str : Store → String → Option (Option (List ℕ))
  cfg_get_str s key = if opens s then some (as_str (get s key)) else none
