-- ===== src/Config/Secrets.antt =====
-- What cfg_to_json tells of the secrets: nothing.
use rtkbase.Prelude.{
  Option-cases, ◌≡◌, refl, ap, ◌⊎◌, inl, inr, Bool, true, false, List, [], ◌∷◌, Option, none, All,
  ◌>>=◌, ◌==◌, not, arith,
}
use rtkbase.Nvs.{Stored, Nvs, as_u8, as_u16, as_u32, as_str}
use rtkbase.Json.{bool}
use rtkbase.Config.Items.{
  ItemType, bool_item, uint8_item, uint16_item, uint32_item, str_item, secret_item, ip_item,
  ConfigItem, config_items,
}
use rtkbase.Config.Export.{
  Kept, export_str, export_ip, export_number, whole, export_item, export_items, cfg_to_json,
}

abbrev pub is_secret : ItemType → Bool
is_secret (bool_item d) = false
is_secret (uint8_item d) = false
is_secret (uint16_item d) = false
is_secret (uint32_item d) = false
is_secret (ip_item d) = false
is_secret (str_item d) = false
is_secret (secret_item d) = true

module _ (nvs : Nvs) where
  open nvs use {Store, opens, get}

  -- Two stores that may differ in a secret only.
  abbrev pub Alike : Store → Store → ConfigItem → Type 0
  Alike s s' i = (is_secret i.type ≡ true) ⊎ (get s' i.key ≡ get s i.key)

  export_item-Alike :
      (s s' : Store) (c : Kept) (i : ConfigItem)
      → Alike s s' i
      → export_item nvs s' c i ≡ export_item nvs s c i
  unfolding export_item
  export_item-Alike s s' c i alike = go i.type alike
    where
      go :
          (t : ItemType)
          → (is_secret t ≡ true) ⊎ (get s' i.key ≡ get s i.key)
          → export_item nvs s' c (record { key = i.key; type = t })
            ≡ export_item nvs s c (record { key = i.key; type = t })
      go (bool_item d) (inl f) = absurd (ground arith)
      go (bool_item d) (inr e) =
          ap (λ (o : Option Stored). export_number (λ n. bool (not (n == 0))) 256 c (as_u8 o)) e
      go (uint8_item d) (inl f) = absurd (ground arith)
      go (uint8_item d) (inr e) = ap (λ (o : Option Stored). export_number whole 256 c (as_u8 o)) e
      go (uint16_item d) (inl f) = absurd (ground arith)
      go (uint16_item d) (inr e) =
          ap (λ (o : Option Stored). export_number whole 65536 c (as_u16 o)) e
      go (uint32_item d) (inl f) = absurd (ground arith)
      go (uint32_item d) (inr e) =
          ap (λ (o : Option Stored). export_number whole 4294967296 c (as_u32 o)) e
      go (ip_item d) (inl f) = absurd (ground arith)
      go (ip_item d) (inr e) = ap (λ (o : Option Stored). export_ip c (as_u32 o)) e
      go (str_item d) (inl f) = absurd (ground arith)
      go (str_item d) (inr e) = ap (λ (o : Option Stored). export_str c (as_str o)) e
      go (secret_item d) alike = refl

  export_items-Alike :
      (items : List ConfigItem) (s s' : Store) (c : Kept)
      → All (Alike s s') items
      → export_items nvs s' c items ≡ export_items nvs s c items
  unfolding export_items
  export_items-Alike [] s s' c h = refl
  export_items-Alike (i ∷ items) s s' c h = elim (Option-cases (export_item nvs s c i)) [
    | inl e ↦ rw (export_item-Alike s s' c i h.0, e, ◌>>=◌)
    | inr (done, e) ↦
        rw (export_item-Alike s s' c i h.0, e, ◌>>=◌, export_items-Alike items s s' done.1 h.1)
  ]

  -- Two stores that agree on every item that is not a secret give the same JSON, whatever the secrets.
  pub cfg_to_json-Alike :
      (s s' : Store)
      → opens s' ≡ opens s
      → All (Alike s s') config_items
      → cfg_to_json nvs s' ≡ cfg_to_json nvs s
  unfolding cfg_to_json
  cfg_to_json-Alike s s' same h =
      rw (same, export_items-Alike config_items s s' (record { cfg_value = 0; ip = none }) h)
