-- ===== src/Config/Tests.antt =====
-- The configuration in a store that is empty at first.
use Prim.Native.String.{String}
use text.Mathlib.Text.{◌==◌ as str_eq}
use text.Mathlib.TextEquality.{eq_iff}
use text.Mathlib.TextPositions.{eq_refl}
use rtkbase.Prelude.{
  ℕ, ◌≡◌, refl, ap, ◌∙◌, inl, inr, Bool, true, not, ◌&&◌, List, [], ◌∷◌, map, none, some, arith,
  All, if◌then◌else◌, Bool-cases,
}
use rtkbase.CText.{codes}
use rtkbase.Nvs.{Stored, str}
use rtkbase.Nvs.Table.{table, find}
use rtkbase.Json.{Item, string, object, Object}
use rtkbase.Config.Items.{ConfigItem, config_items}
use rtkbase.Config.Read.{json_get_u32_compat}
use rtkbase.Config.Store.{nvs_cfg_init}
use rtkbase.Config.Export.{cfg_to_json}
use rtkbase.Config.Import.{cfg_json_to_nvs}
use rtkbase.Config.Sound.{Holds, IsReady}
use rtkbase.Config.Defaults.{nvs_cfg_init-Holds}
use rtkbase.Config.Update.{cfg_json_to_nvs-Holds}
use rtkbase.Config.Roundtrip.{cfg_to_json-defined, cfg_json_to_nvs-cfg_to_json}
use rtkbase.Config.Secrets.{Alike, is_secret, cfg_to_json-Alike}

port_as_text : json_get_u32_compat 65535 (string (codes "2101")) ≡ some 2101
unfolding json_get_u32_compat
port_as_text = refl

-- A sign is taken, and wraps.
minus_wraps : json_get_u32_compat 255 (string (codes "-4294967295")) ≡ some 1
unfolding json_get_u32_compat
minus_wraps = refl

abbrev name : List ℕ
name = codes "RTKBase_0A1B"

nothing-IsReady : (items : List ConfigItem) → All (IsReady table []) items
nothing-IsReady [] = tt
nothing-IsReady (i ∷ items) = (λ v e r. absurd (ground arith), nothing-IsReady items)

nvs_cfg_init-Holds_example :
    (s' : List (String × Stored)) × (nvs_cfg_init table name [] ≡ some s')
    × All (Holds table s') config_items
nvs_cfg_init-Holds_example =
    nvs_cfg_init-Holds table name [] refl (λ s k v. refl) (nothing-IsReady config_items)

-- What start-up leaves in the store.
started : List (String × Stored)
started = (nvs_cfg_init-Holds table name [] refl (λ s k v. refl) (nothing-IsReady config_items)).0

started-Holds : All (Holds table started) config_items
unfolding started
started-Holds =
    (nvs_cfg_init-Holds table name [] refl (λ s k v. refl) (nothing-IsReady config_items)).2

-- A port as a text, and a Boolean that is none.
abbrev posted : Object
posted key =
    if str_eq key "caster_port"
    then some (string (codes "2102"))
    else if str_eq key "caster_active"
    then some object
    else none

cfg_json_to_nvs-Holds_example :
    (s' : List (String × Stored)) × (ok : Bool) × (cfg_json_to_nvs table posted started
      ≡ some (s', ok))
    × All (Holds table s') config_items
cfg_json_to_nvs-Holds_example = cfg_json_to_nvs-Holds table posted started refl started-Holds

cfg_to_json-defined_example :
    (fields : List (String × Item)) × (cfg_to_json table started ≡ some fields)
    × (map (λ (f : String × Item). f.0) fields ≡ map (λ (i : ConfigItem). i.key) config_items)
cfg_to_json-defined_example = cfg_to_json-defined table started refl started-Holds

-- An object of fields, found by its keys.
object_of : List (String × Item) → Object
object_of [] key = none
object_of (f ∷ fields) key = if str_eq f.0 key then some f.1 else object_of fields key

apart : String → List String → Bool
apart k [] = true
apart k (j ∷ ks) = not (str_eq k j) && apart k ks

all_apart : List String → Bool
all_apart [] = true
all_apart (k ∷ ks) = apart k ks && all_apart ks

extended :
    (f : String × Item) (all fields : List (String × Item))
    → apart f.0 (map (λ (g : String × Item). g.0) fields) ≡ true
    → All (λ (g : String × Item). object_of all g.0 ≡ some g.1) fields
    → All (λ (g : String × Item). object_of (f ∷ all) g.0 ≡ some g.1) fields
unfolding object_of apart
extended f all [] h a = tt
extended f all (g ∷ fields) h a =
    (ground (arith, eq_iff f.0 g.0), extended f all fields (ground arith) a.1)

object_of-All :
    (fields : List (String × Item))
    → all_apart (map (λ (g : String × Item). g.0) fields) ≡ true
    → All (λ (g : String × Item). object_of fields g.0 ≡ some g.1) fields
unfolding object_of all_apart
object_of-All [] h = tt
object_of-All (f ∷ fields) h = (
  rw (eq_refl f.0),
  extended f fields fields (ground arith) (object_of-All fields (ground arith)),
)

keys_apart : all_apart (map (λ (i : ConfigItem). i.key) config_items) ≡ true
unfolding all_apart apart config_items
keys_apart = refl

fields : List (String × Item)
fields = (cfg_to_json-defined table started refl started-Holds).0

fields_lem :
    (cfg_to_json table started ≡ some fields)
    × All (λ (g : String × Item). object_of fields g.0 ≡ some g.1) fields
unfolding fields
fields_lem =
    let (fs, run, keys) = cfg_to_json-defined table started refl started-Holds in
    (run, object_of-All fs (ap all_apart keys ∙ keys_apart))

cfg_json_to_nvs-cfg_to_json_example :
    (s' : List (String × Stored)) × (cfg_json_to_nvs table (object_of fields) started
      ≡ some (s', true))
    × ((k : String) → find s' k ≡ find started k)
cfg_json_to_nvs-cfg_to_json_example =
    cfg_json_to_nvs-cfg_to_json table started fields (object_of fields) refl started-Holds
      fields_lem.0 fields_lem.1 (λ s k v. refl) (λ s. refl)

-- The store with another password.
abbrev other : List (String × Stored)
other = ("adm_pass", str (codes "x")) ∷ started

hides : ConfigItem → Bool
hides i = if str_eq "adm_pass" i.key then is_secret i.type else true

hides_all : List ConfigItem → Bool
hides_all [] = true
hides_all (i ∷ items) = hides i && hides_all items

hides_all-Alike :
    (items : List ConfigItem) → hides_all items ≡ true → All (Alike table started other) items
unfolding hides_all hides
hides_all-Alike [] h = tt
hides_all-Alike (i ∷ items) h = (
  elim (Bool-cases (str_eq "adm_pass" i.key)) [ inl e ↦ inl (ground arith) | inr e ↦ inr (rw e) ],
  hides_all-Alike items (ground arith),
)

hides_all_lem : hides_all config_items ≡ true
unfolding hides_all hides config_items
hides_all_lem = refl

cfg_to_json-Alike_example : cfg_to_json table other ≡ cfg_to_json table started
cfg_to_json-Alike_example =
    cfg_to_json-Alike table started other refl (hides_all-Alike config_items hides_all_lem)
