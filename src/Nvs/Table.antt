-- ===== src/Nvs/Table.antt =====
-- A store as a table of its entries, newest first, that takes every write.
use Prim.Native.String.{String}
use text.Mathlib.Text.{◌==◌ as str_eq}
use text.Mathlib.TextEquality.{eq_iff}
use text.Mathlib.TextPositions.{eq_refl}
use rtkbase.Prelude.{
  ◌≡◌, refl, ◌≢◌, inl, true, List, [], ◌∷◌, Option, none, some, arith, if◌then◌else◌,
}
use rtkbase.Nvs.{Stored, Nvs}

abbrev pub find : List (String × Stored) → String → Option Stored
find [] k = none
find ((j, v) ∷ entries) k = if str_eq j k then some v else find entries k

pub find_self :
    (entries : List (String × Stored)) (k : String) (v : Stored)
    → find ((k, v) ∷ entries) k ≡ some v
find_self entries k v = rw (eq_refl k)

pub find_ne :
    (entries : List (String × Stored)) (k j : String) (v : Stored)
    → k ≢ j
    → find ((k, v) ∷ entries) j ≡ find entries j
find_ne entries k j v h = ground (arith, eq_iff k j)

abbrev pub table : Nvs
table = record {
  Store = List (String × Stored);
  opens = λ s. true;
  get = find;
  set = λ s k v. ((k, v) ∷ s, true);
  commit = λ s. (s, true);
  get-set_ok = λ s k v h. find_self s k v;
  get-set_any = λ s k v. inl (find_self s k v);
  get-set_ne = λ s k j v h. find_ne s k j v h;
  opens-set = λ s k v. refl;
  get-commit = λ s k. refl;
}
