-- ===== src/Config/Defaults.antt =====
-- What nvs_cfg_init makes hold.
use Prim.Native.String.{String}
use text.Mathlib.Text.{◌==◌ as str_eq}
use rtkbase.Prelude.{
  ℕ, ◌≡◌, refl, ◌≢◌, ap, sym, ◌∙◌, inl, inr, Bool, true, false, ◌||◌, List, [], ◌∷◌, none, some,
  arith, All, if◌then◌else◌, Bool-cases, Option-cases,
}
use rtkbase.Nvs.{Stored, str, Nvs}
use rtkbase.Config.Items.{
  ItemType, bool_item, uint8_item, uint16_item, uint32_item, str_item, secret_item, ip_item,
  ConfigItem, config_items,
}
use rtkbase.Config.Store.{default_of, is_readable, init_item, init_items, nvs_cfg_init}
use rtkbase.Config.Sound.{
  Fits, FitsDefault, Distinct, config_items-Distinct, config_items-FitsDefault, Holds, Holds-move,
  IsReady, IsReady-move, Only, Only-All, committed-Holds,
}

str_if : (b : Bool) (t u : List ℕ) → (x : List ℕ) × ((if b then str t else str u) ≡ str x)
str_if true t u = (t, refl)
str_if false t u = (u, refl)

default_of-Fits :
    (generated : List ℕ) (key : String) (t : ItemType)
    → FitsDefault t
    → Fits t (default_of generated key t)
unfolding default_of
default_of-Fits generated key (bool_item d) h = (d, refl, h)
default_of-Fits generated key (uint8_item d) h = (d, refl, h)
default_of-Fits generated key (uint16_item d) h = (d, refl, h)
default_of-Fits generated key (uint32_item d) h = (d, refl, h)
default_of-Fits generated key (ip_item d) h = (d, refl, h)
default_of-Fits generated key (str_item d) h =
    str_if (str_eq key "w_ap_ssid" || str_eq key "host_name") generated d
default_of-Fits generated key (secret_item d) h =
    str_if (str_eq key "w_ap_ssid" || str_eq key "host_name") generated d

module _ (nvs : Nvs) where
  open nvs use {
    Store, opens, get, set, commit, get-set_ok, get-set_any, get-set_ne, get-commit, opens-set,
  }

  init_item-Only :
      (generated : List ℕ) (s : Store) (i : ConfigItem)
      → Only nvs i.key s (init_item nvs generated s i)
  unfolding init_item
  init_item-Only generated s i j ne = elim (Bool-cases (is_readable i.type (get s i.key))) [
    | inl e ↦ rw e
    | inr e ↦ rw e (get-set_ne s i.key j (default_of generated i.key i.type) ne)
  ]

  unreadable : (t : ItemType) → is_readable t none ≡ false
  unfolding is_readable
  unreadable (bool_item d) = refl
  unreadable (uint8_item d) = refl
  unreadable (uint16_item d) = refl
  unreadable (uint32_item d) = refl
  unreadable (ip_item d) = refl
  unreadable (str_item d) = refl
  unreadable (secret_item d) = refl

  init_item-Holds :
      (generated : List ℕ) (s : Store) (i : ConfigItem)
      → FitsDefault i.type
      → IsReady nvs s i
      → (set s i.key (default_of generated i.key i.type)).1 ≡ true
      → Holds nvs (init_item nvs generated s i) i
  unfolding init_item
  init_item-Holds generated s i h ready ok = elim (Bool-cases (is_readable i.type (get s i.key))) [
    | inl e ↦ elim (Option-cases (get s i.key)) [
      | inl f ↦ absurd (ground (arith, unreadable i.type, ap (is_readable i.type) f))
      | inr (v, f) ↦ rw e (v, f, ready v f (sym (ap (is_readable i.type) f) ∙ e))
    ]
    | inr e ↦ rw e (
      default_of generated i.key i.type,
      get-set_ok s i.key (default_of generated i.key i.type) ok,
      default_of-Fits generated i.key i.type h,
    )
  ]

  init_items-get :
      (generated : List ℕ) (items : List ConfigItem) (s : Store) (k : String)
      → All (λ (j : ConfigItem). k ≢ j.key) items
      → get (init_items nvs generated s items) k ≡ get s k
  unfolding init_items
  init_items-get generated [] s k ne = refl
  init_items-get generated (i ∷ items) s k ne =
      init_items-get generated items (init_item nvs generated s i) k ne.1
      ∙ init_item-Only generated s i k (λ e. ne.0 (sym e))

  init_items-Holds :
      (generated : List ℕ)
      → ((s : Store) (k : String) (v : Stored) → (set s k v).1 ≡ true)
      → (items : List ConfigItem) (s : Store) → Distinct items
      → All (λ (i : ConfigItem). FitsDefault i.type) items
      → All (IsReady nvs s) items
      → All (Holds nvs (init_items nvs generated s items)) items
  unfolding init_items
  init_items-Holds generated writes [] s d f r = tt
  init_items-Holds generated writes (i ∷ items) s d f r =
      let s1 = init_item nvs generated s i in
      (
        Holds-move nvs s1 (init_items nvs generated s1 items) i
            (init_items-get generated items s1 i.key d.0)
            (init_item-Holds generated s i f.0 r.0
              (writes s i.key (default_of generated i.key i.type))),
        init_items-Holds generated writes items s1 d.1 f.1 (
            Only-All nvs (IsReady nvs) (IsReady-move nvs) i.key s s1 (init_item-Only generated s i)
              items d.0 r.1),
      )

  -- After nvs_cfg_init, on a store that opens and takes its writes, every one of the items has a value of
  -- its own type and in range, whatever was missing or had another type before, as long as what the
  -- items had of their own types was in range.
  pub nvs_cfg_init-Holds :
      (generated : List ℕ) (s : Store)
      → opens s ≡ true
      → ((s' : Store) (k : String) (v : Stored) → (set s' k v).1 ≡ true)
      → All (IsReady nvs s) config_items
      → (s' : Store) × (nvs_cfg_init nvs generated s ≡ some s') × All (Holds nvs s') config_items
  unfolding nvs_cfg_init
  nvs_cfg_init-Holds generated s open_ok writes ready =
      let s1 = init_items nvs generated s config_items in
      (
        (commit s1).0,
        rw open_ok,
        committed-Holds nvs s1 config_items (
            init_items-Holds generated writes config_items s config_items-Distinct
              config_items-FitsDefault ready),
      )
