-- ===== src/Json.antt =====
-- JSON values as main/nvs_config.c sees them through cJSON, which is not part of the repository. An
-- object is what cJSON_GetObjectItem finds in it, a function from keys.
use Prim.Native.String.{String}
use rtkbase.Prelude.{ℕ, Bool, List, Option}

-- A double, as far as the code looks at it: below 0, or its integer part and whether there is no more.
pub data Number : Type 0 where
  negative : Number
  real : ℕ → Bool → Number

mutual
  pub data Item : Type 0 where
    null : Item
    bool : Bool → Item
    number : Number → Item
    string : List ℕ → Item
    array : Items → Item
    object : Item

  pub data Items : Type 0 where
    nil : Items
    cons : Item → Items → Items

abbrev pub Object : Type 0
Object = String → Option Item
