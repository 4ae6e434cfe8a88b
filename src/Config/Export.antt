-- ===== src/Config/Export.antt =====
-- cfg_to_json of main/nvs_config.c. `none` is the abort of ESP_ERROR_CHECK, or the use of memory that was
-- never written: the text of a missing string, an address before one was read.
use Prim.Native.String.{String}
use rtkbase.Prelude.{
  ℕ, ◌+◌, ◌-◌, ◌/◌, ◌%◌, true, not, List, [], ◌∷◌, Option, none, some, ◌==◌, if◌then◌else◌, ◌>>=◌,
}
use rtkbase.Nvs.{Nvs, as_u8, as_u16, as_u32, as_str}
use rtkbase.Json.{real, Item, bool, number, string, array, nil, cons}
use rtkbase.Config.Items.{
  bool_item, uint8_item, uint16_item, uint32_item, str_item, secret_item, ip_item, ConfigItem,
  config_items,
}

-- CFG_VALUE_UNCHANGED.
abbrev pub value_unchanged : List ℕ
value_unchanged = 26 ∷ 26 ∷ 26 ∷ 26 ∷ 26 ∷ 26 ∷ 26 ∷ 26 ∷ []

-- The loop's variables, which keep their value where a read fails: the union `cfg_value` by its 32 bits,
-- and `ip`, at first not written.
pub record Kept : Type 0 where
  pub cfg_value : ℕ
  pub ip : Option ℕ

-- A read into the lowest bytes of the union, `size` values wide.
abbrev pub read_into : ℕ → ℕ → Option ℕ → ℕ
read_into size old none = old
read_into size old (some n) = old - old % size + n

abbrev pub whole : ℕ → Item
whole n = number (real n true)

-- `esp_ip4_addr_get_byte` for the four bytes.
abbrev pub ip_item_of : ℕ → Item
ip_item_of n = array (
    cons (whole (n % 256)) (
      cons (whole (n / 256 % 256))
        (cons (whole (n / 65536 % 256)) (cons (whole (n / 16777216 % 256)) nil))))

-- An entry of the result, and the loop's variables after it.
abbrev pub Exported : Type 0
Exported = Option (Item × Kept)

abbrev pub export_ip : Kept → Option ℕ → Exported
export_ip c (some n) = some (ip_item_of n, record c { ip = some n })
export_ip c none = elim c.ip [ none ↦ none | some n ↦ some (ip_item_of n, c) ]

abbrev pub export_str : Kept → Option (List ℕ) → Exported
export_str c none = none
export_str c (some t) = some (string t, c)

abbrev pub export_number : (ℕ → Item) → ℕ → Kept → Option ℕ → Exported
export_number show size c found =
    let value = read_into size c.cfg_value found in
    some (show (value % size), record c { cfg_value = value })

module _ (nvs : Nvs) where
  open nvs use {Store, opens, get}

  -- One round of the loop of cfg_to_json.
  unfoldable pub export_item : Store → Kept → ConfigItem → Exported
  export_item s c i = elim i.type [
    | secret_item d ↦ some (string value_unchanged, c)
    | str_item d ↦ export_str c (as_str (get s i.key))
    | ip_item d ↦ export_ip c (as_u32 (get s i.key))
    | bool_item d ↦ export_number (λ n. bool (not (n == 0))) 256 c (as_u8 (get s i.key))
    | uint8_item d ↦ export_number whole 256 c (as_u8 (get s i.key))
    | uint16_item d ↦ export_number whole 65536 c (as_u16 (get s i.key))
    | uint32_item d ↦ export_number whole 4294967296 c (as_u32 (get s i.key))
  ]

  unfoldable pub export_items : Store → Kept → List ConfigItem → Option (List (String × Item))
  unfolding export_item
  export_items s c [] = some []
  export_items s c (i ∷ items) =
      export_item s c i
      >>= (λ done. export_items s done.1 items >>= (λ rest. some ((i.key, done.0) ∷ rest)))

  -- The fields that are added to `root`, in order.
  unfoldable pub cfg_to_json : Store → Option (List (String × Item))
  unfolding export_items
  cfg_to_json s =
      if opens s then export_items s (record { cfg_value = 0; ip = none }) config_items else none
