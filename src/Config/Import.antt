-- ===== src/Config/Import.antt =====
-- cfg_json_to_nvs of main/nvs_config.c.
use Prim.Native.String.{String}
use rtkbase.Prelude.{
  ℕ, Bool, true, false, not, ◌||◌, List, [], ◌∷◌, Option, none, some, if◌then◌else◌,
}
use rtkbase.CText.{same_text}
use rtkbase.Nvs.{Stored, u8, u16, u32, str, Nvs}
use rtkbase.Json.{Item, null, bool, number, string, array, object, Object}
use rtkbase.Config.Items.{
  ItemType, bool_item, uint8_item, uint16_item, uint32_item, str_item, secret_item, ip_item,
  ConfigItem, config_items,
}
use rtkbase.Config.Read.{json_get_bool_compat, json_get_u32_compat, json_get_ip4_array}
use rtkbase.Config.Export.{value_unchanged}

-- What a field says for an item: a value to write, nothing to do, or an invalid value.
pub data Request : Type 0 where
  write : Stored → Request
  keep : Request
  invalid : Request

abbrev pub write_or_invalid : (ℕ → Stored) → Option ℕ → Request
write_or_invalid f none = invalid
write_or_invalid f (some n) = write (f n)

abbrev pub text_request : Item → Request
text_request null = invalid
text_request (bool b) = invalid
text_request (number n) = invalid
text_request (string value) = write (str value)
text_request (array items) = invalid
text_request object = invalid

abbrev pub secret_request : Item → Request
secret_request null = invalid
secret_request (bool b) = invalid
secret_request (number n) = invalid
secret_request (string value) = if same_text value value_unchanged then keep else write (str value)
secret_request (array items) = invalid
secret_request object = invalid

unfoldable pub request_of : ItemType → Item → Request
unfolding same_text json_get_bool_compat json_get_u32_compat json_get_ip4_array
request_of (str_item d) field = text_request field
request_of (secret_item d) field = secret_request field
request_of (bool_item d) field = write_or_invalid u8 (json_get_bool_compat field)
request_of (uint8_item d) field = write_or_invalid u8 (json_get_u32_compat 255 field)
request_of (uint16_item d) field = write_or_invalid u16 (json_get_u32_compat 65535 field)
request_of (uint32_item d) field = write_or_invalid u32 (json_get_u32_compat 4294967295 field)
request_of (ip_item d) field = write_or_invalid u32 (json_get_ip4_array field)

module _ (nvs : Nvs) where
  open nvs use {Store, opens, set, commit}

  -- The store and `had_error`.
  abbrev Progress : Type 0
  Progress = Store × Bool

  unfoldable pub serve : String → Request → Progress → Progress
  serve key (write v) p = ((set p.0 key v).0, p.1 || not (set p.0 key v).1)
  serve key keep p = p
  serve key invalid p = (p.0, true)

  -- One round of the loop of cfg_json_to_nvs.
  unfoldable pub import_item : Object → Progress → ConfigItem → Progress
  unfolding request_of serve
  import_item root p i = elim (root i.key) [
    | none ↦ p
    | some field ↦ serve i.key (request_of i.type field) p
  ]

  unfoldable pub import_items : Object → Progress → List ConfigItem → Progress
  unfolding import_item
  import_items root p [] = p
  import_items root p (i ∷ items) = import_items root (import_item root p i) items

  -- The store, and whether the result is ESP_OK.
  unfoldable pub cfg_json_to_nvs : Object → Store → Option (Store × Bool)
  unfolding import_items
  cfg_json_to_nvs root s =
      let p = import_items root (s, false) config_items in
      if opens s then some (if p.1 then (p.0, false) else commit p.0) else none
