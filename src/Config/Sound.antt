-- ===== src/Config/Sound.antt =====
-- What holds of the store: every item has a value of its own type and in the range of that type.
use Prim.Native.String.{String}
use text.Mathlib.Text.{◌==◌ as str_eq}
use text.Mathlib.TextEquality.{eq_iff}
use rtkbase.Prelude.{
  ℕ, ◌<◌, ◌≡◌, refl, ◌≢◌, sym, ◌∙◌, Bool, true, ◌&&◌, not, List, [], ◌∷◌, some, arith, All,
}
use rtkbase.Nvs.{Stored, u8, u16, u32, str, Nvs}
use rtkbase.Config.Items.{
  ItemType, bool_item, uint8_item, uint16_item, uint32_item, str_item, secret_item, ip_item,
  ConfigItem, config_items,
}
use rtkbase.Config.Store.{is_readable}

-- A value that an item of this type may have.
abbrev pub Fits : ItemType → Stored → Type 0
Fits (bool_item d) v = (n : ℕ) × (v ≡ u8 n) × (n < 2)
Fits (uint8_item d) v = (n : ℕ) × (v ≡ u8 n) × (n < 256)
Fits (uint16_item d) v = (n : ℕ) × (v ≡ u16 n) × (n < 65536)
Fits (uint32_item d) v = (n : ℕ) × (v ≡ u32 n) × (n < 4294967296)
Fits (ip_item d) v = (n : ℕ) × (v ≡ u32 n) × (n < 4294967296)
Fits (str_item d) v = (t : List ℕ) × (v ≡ str t)
Fits (secret_item d) v = (t : List ℕ) × (v ≡ str t)

-- The default of an item is in range.
abbrev pub FitsDefault : ItemType → Type 0
FitsDefault (bool_item d) = d < 2
FitsDefault (uint8_item d) = d < 256
FitsDefault (uint16_item d) = d < 65536
FitsDefault (uint32_item d) = d < 4294967296
FitsDefault (ip_item d) = d < 4294967296
FitsDefault (str_item d) = Unit {0}
FitsDefault (secret_item d) = Unit {0}

-- No later item has the key of an earlier one.
abbrev pub Distinct : List ConfigItem → Type 0
Distinct [] = Unit {0}
Distinct (i ∷ items) = All (λ (j : ConfigItem). i.key ≢ j.key) items × Distinct items

-- The tests for the items of the program.
apart : String → List ConfigItem → Bool
apart k [] = true
apart k (j ∷ items) = not (str_eq k j.key) && apart k items

all_apart : List ConfigItem → Bool
all_apart [] = true
all_apart (i ∷ items) = apart i.key items && all_apart items

apart-All :
    (k : String) (items : List ConfigItem)
    → apart k items ≡ true
    → All (λ (j : ConfigItem). k ≢ j.key) items
unfolding apart
apart-All k [] h = tt
apart-All k (j ∷ items) h = (ground (arith, eq_iff k j.key), apart-All k items (ground arith))

all_apart-Distinct : (items : List ConfigItem) → all_apart items ≡ true → Distinct items
unfolding all_apart
all_apart-Distinct [] h = tt
all_apart-Distinct (i ∷ items) h =
    (apart-All i.key items (ground arith), all_apart-Distinct items (ground arith))

-- No two items have the same key.
pub config_items-Distinct : Distinct config_items
unfolding all_apart apart config_items
config_items-Distinct = all_apart-Distinct config_items refl

pub config_items-FitsDefault : All (λ (i : ConfigItem). FitsDefault i.type) config_items
unfolding config_items
config_items-FitsDefault = omega arith

module _ (nvs : Nvs) where
  open nvs use {
    Store, opens, get, set, commit, get-set_ok, get-set_any, get-set_ne, get-commit, opens-set,
  }

  -- An item has a value that fits.
  abbrev pub Holds : Store → ConfigItem → Type 0
  Holds s i = (v : Stored) × (get s i.key ≡ some v) × Fits i.type v

  -- What an item has of its own type is in range.
  abbrev pub IsReady : Store → ConfigItem → Type 0
  IsReady s i =
      (v : Stored) → get s i.key ≡ some v → is_readable i.type (some v) ≡ true → Fits i.type v

  -- A step that changes no entry but one.
  abbrev pub Only : String → Store → Store → Type 0
  Only k s s' = (j : String) → k ≢ j → get s' j ≡ get s j

  pub Only-All {κ} :
      (P : Store → ConfigItem → Type κ)
      → ((s s' : Store) (i : ConfigItem) → get s' i.key ≡ get s i.key → P s i → P s' i)
      → (k : String) (s s' : Store) → Only k s s'
      → (items : List ConfigItem) → All (λ (j : ConfigItem). k ≢ j.key) items
      → All (P s) items
      → All (P s') items
  Only-All P move k s s' only [] ne h = tt
  Only-All P move k s s' only (i ∷ items) ne h =
      (move s s' i (only i.key ne.0) h.0, Only-All P move k s s' only items ne.1 h.1)

  pub Holds-move :
      (s s' : Store) (i : ConfigItem) → get s' i.key ≡ get s i.key → Holds s i → Holds s' i
  Holds-move s s' i e h = (h.0, e ∙ h.1, h.2)

  pub IsReady-move :
      (s s' : Store) (i : ConfigItem) → get s' i.key ≡ get s i.key → IsReady s i → IsReady s' i
  IsReady-move s s' i e h = λ v f r. h v (sym e ∙ f) r

  -- A commit changes no entry.
  pub committed-Holds :
      (s : Store) (items : List ConfigItem) → All (Holds s) items → All (Holds (commit s).0) items
  committed-Holds s [] h = tt
  committed-Holds s (i ∷ items) h =
      (Holds-move s (commit s).0 i (get-commit s i.key) h.0, committed-Holds s items h.1)
