-- ===== src/Nvs.antt =====
-- The interface of the non-volatile store (NVS) that main/nvs_config.c reads and writes. ESP-IDF is
-- not part of the repository: the store is a parameter, with the documented behaviour of the calls as
-- laws.
pub mod Table
use Prim.Native.String.{String}
use rtkbase.Prelude.{ℕ, ◌≡◌, ◌≢◌, ◌⊎◌, Bool, true, List, Option, none, some}

-- An entry, with the type under which it was written.
pub data Stored : Type 0 where
  u8 : ℕ → Stored
  u16 : ℕ → Stored
  u32 : ℕ → Stored
  str : List ℕ → Stored

-- A Boolean result is "the call returned ESP_OK". A write that fails may or may not have changed its own
-- entry, and no other.
pub record Nvs : Type 1 where
  pub Store : Type 0
  pub opens : Store → Bool
  pub get : Store → String → Option Stored
  pub set : Store → String → Stored → Store × Bool
  pub commit : Store → Store × Bool
  pub get-set_ok :
      (s : Store) (k : String) (v : Stored) → (set s k v).1 ≡ true → get (set s k v).0 k ≡ some v
  pub get-set_any :
      (s : Store) (k : String) (v : Stored)
      → (get (set s k v).0 k ≡ some v) ⊎ (get (set s k v).0 k ≡ get s k)
  pub get-set_ne : (s : Store) (k j : String) (v : Stored) → k ≢ j → get (set s k v).0 j ≡ get s j
  pub opens-set : (s : Store) (k : String) (v : Stored) → opens (set s k v).0 ≡ opens s
  pub get-commit : (s : Store) (k : String) → get (commit s).0 k ≡ get s k

-- nvs_get_u8, nvs_get_u16, nvs_get_u32 and nvs_get_str find an entry of their own type only.
abbrev pub as_u8 : Option Stored → Option ℕ
as_u8 none = none
as_u8 (some (u8 n)) = some n
as_u8 (some (u16 n)) = none
as_u8 (some (u32 n)) = none
as_u8 (some (str t)) = none

abbrev pub as_u16 : Option Stored → Option ℕ
as_u16 none = none
as_u16 (some (u8 n)) = none
as_u16 (some (u16 n)) = some n
as_u16 (some (u32 n)) = none
as_u16 (some (str t)) = none

abbrev pub as_u32 : Option Stored → Option ℕ
as_u32 none = none
as_u32 (some (u8 n)) = none
as_u32 (some (u16 n)) = none
as_u32 (some (u32 n)) = some n
as_u32 (some (str t)) = none

abbrev pub as_str : Option Stored → Option (List ℕ)
as_str none = none
as_str (some (u8 n)) = none
as_str (some (u16 n)) = none
as_str (some (u32 n)) = none
as_str (some (str t)) = some t
