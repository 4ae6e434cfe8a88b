-- ===== src/Config/Roundtrip.antt =====
-- The configuration as JSON and back: cfg_to_json, then cfg_json_to_nvs of what it gave.
use Prim.Native.String.{String}
use text.Mathlib.Text.{◌==◌ as str_eq}
use text.Mathlib.TextEquality.{eq_iff}
use rtkbase.Prelude.{
  ℕ, ◌<◌, ◌≡◌, refl, map, ap, sym, subst, ◌∙◌, inl, inr, Bool, true, false, not, ◌||◌, List, [],
  ◌∷◌, none, some, arith, All, ◌==◌, suc, ◌^◌, ◌*◌, ◌+◌, ◌-◌, ◌/◌, ◌%◌, Bool-cases, ◌>>=◌,
}
use rtkbase.Nvs.{Stored, u8, u16, u32, str, Nvs}
use rtkbase.Json.{Item, bool, string, Object, Items, nil, cons}
use rtkbase.Config.Items.{
  ItemType, bool_item, uint8_item, uint16_item, uint32_item, str_item, secret_item, ip_item,
  ConfigItem, config_items,
}
use rtkbase.Config.Read.{json_get_bool_compat, json_get_u32_compat, json_get_ip4_array, ip4_parts}
use rtkbase.Config.Export.{
  value_unchanged, Kept, whole, ip_item_of, read_into, export_item, export_items, cfg_to_json,
}
use rtkbase.Config.Import.{
  Request, write, keep, request_of, serve, import_item, import_items, cfg_json_to_nvs,
}
use rtkbase.Config.Sound.{Fits, Holds}

abbrev number_of : Stored → ℕ
number_of (u8 n) = n
number_of (u16 n) = n
number_of (u32 n) = n
number_of (str t) = 0

abbrev text_of : Stored → List ℕ
text_of (u8 n) = []
text_of (u16 n) = []
text_of (u32 n) = []
text_of (str t) = t

-- How the web page sees a value.
abbrev shown : ItemType → Stored → Item
shown (bool_item d) v = bool (not (number_of v == 0))
shown (uint8_item d) v = whole (number_of v)
shown (uint16_item d) v = whole (number_of v)
shown (uint32_item d) v = whole (number_of v)
shown (ip_item d) v = ip_item_of (number_of v)
shown (str_item d) v = string (text_of v)
shown (secret_item d) v = string value_unchanged

-- The request that a shown value makes.
abbrev echo : ItemType → Stored → Request
echo (bool_item d) v = write v
echo (uint8_item d) v = write v
echo (uint16_item d) v = write v
echo (uint32_item d) v = write v
echo (ip_item d) v = write v
echo (str_item d) v = write v
echo (secret_item d) v = keep

json_get_u32_compat-whole : (k : ℕ) → k < 256 → json_get_u32_compat 255 (whole k) ≡ some k
unfolding json_get_u32_compat
json_get_u32_compat-whole k h = ground arith

ip4_parts_cons :
    (k b o : ℕ) (rest : Items) (more : ℕ)
    → o < 256
    → ip4_parts k (b + 1) rest ≡ some more
    → ip4_parts (suc k) b (cons (whole o) rest) ≡ some (o * 2 ^ (b * 8) + more)
ip4_parts_cons k b o rest more h e = rw (json_get_u32_compat-whole o h, e, ip4_parts)

json_get_ip4_array-ip_item_of :
    (n : ℕ) → n < 4294967296 → json_get_ip4_array (ip_item_of n) ≡ some n
unfolding json_get_ip4_array
json_get_ip4_array-ip_item_of n h =
    let p3 = ip4_parts_cons 0 3 (n / 16777216 % 256) nil 0 (omega arith) refl in
    let p2 =
      ip4_parts_cons 1 2 (n / 65536 % 256) (cons (whole (n / 16777216 % 256)) nil)
        (n / 16777216 % 256 * 16777216 + 0) (omega arith) p3 in
    let p1 =
      ip4_parts_cons 2 1 (n / 256 % 256)
        (cons (whole (n / 65536 % 256)) (cons (whole (n / 16777216 % 256)) nil))
        (n / 65536 % 256 * 65536 + (n / 16777216 % 256 * 16777216 + 0)) (omega arith) p2 in
    ip4_parts_cons 3 0 (n % 256)
      (cons (whole (n / 256 % 256))
        (cons (whole (n / 65536 % 256)) (cons (whole (n / 16777216 % 256)) nil)))
      (n / 256 % 256 * 256 + (n / 65536 % 256 * 65536 + (n / 16777216 % 256 * 16777216 + 0)))
      (omega arith) p1
    ∙ ap some joined
  where
    joined :
        n % 256 * 1
          + (n / 256 % 256 * 256 + (n / 65536 % 256 * 65536 + (n / 16777216 % 256 * 16777216 + 0)))
        ≡ n
    joined = omega arith

request_of-shown : (t : ItemType) (v : Stored) → Fits t v → request_of t (shown t v) ≡ echo t v
unfolding request_of json_get_u32_compat json_get_bool_compat
request_of-shown (bool_item d) v (n, e, h) = rw e (ap (λ k. write (u8 k)) (ground arith))
request_of-shown (uint8_item d) v (n, e, h) = rw e (ground arith)
request_of-shown (uint16_item d) v (n, e, h) = rw e (ground arith)
request_of-shown (uint32_item d) v (n, e, h) = rw e (ground arith)
request_of-shown (ip_item d) v (n, e, h) = rw e (rw (json_get_ip4_array-ip_item_of n h))
request_of-shown (str_item d) v (t, e) = rw e
request_of-shown (secret_item d) v (t, e) = refl

module _ (nvs : Nvs) where
  open nvs use {Store, opens, get, set, commit, get-set_any, get-set_ne, get-commit}

  -- An item that holds is shown.
  export_item-shown :
      (s : Store) (c : Kept) (i : ConfigItem) (v : Stored)
      → get s i.key ≡ some v
      → Fits i.type v
      → (c' : Kept) × (export_item nvs s c i ≡ some (shown i.type v, c'))
  unfolding export_item
  export_item-shown s c i v e h = go i.type h
    where
      go :
          (t : ItemType)
          → Fits t v
          → (c' : Kept) × (export_item nvs s c (record { key = i.key; type = t })
              ≡ some (shown t v, c'))
      go (bool_item d) (n, f, lt) =
          let after = record c { cfg_value = read_into 256 c.cfg_value (some n) } in
          let low : (c.cfg_value - c.cfg_value % 256 + n) % 256 ≡ n = omega arith in
          (after, rw (e, f) (ap (λ k. some (bool (not (k == 0)), after)) low))
      go (uint8_item d) (n, f, lt) =
          let after = record c { cfg_value = read_into 256 c.cfg_value (some n) } in
          let low : (c.cfg_value - c.cfg_value % 256 + n) % 256 ≡ n = omega arith in
          (after, rw (e, f) (ap (λ k. some (whole k, after)) low))
      go (uint16_item d) (n, f, lt) =
          let after = record c { cfg_value = read_into 65536 c.cfg_value (some n) } in
          let low : (c.cfg_value - c.cfg_value % 65536 + n) % 65536 ≡ n = omega arith in
          (after, rw (e, f) (ap (λ k. some (whole k, after)) low))
      go (uint32_item d) (n, f, lt) =
          let after = record c { cfg_value = read_into 4294967296 c.cfg_value (some n) } in
          let low : (c.cfg_value - c.cfg_value % 4294967296 + n) % 4294967296 ≡ n = omega arith in
          (after, rw (e, f) (ap (λ k. some (whole k, after)) low))
      go (ip_item d) (n, f, lt) = (record c { ip = some n }, rw (e, f))
      go (str_item d) (t, f) = (c, rw (e, f))
      go (secret_item d) (t, f) = (c, refl)

  -- What the page shows of the items.
  fields_of : (s : Store) (items : List ConfigItem) → All (Holds nvs s) items → List (String × Item)
  fields_of s [] h = []
  fields_of s (i ∷ items) h = (i.key, shown i.type h.0.0) ∷ fields_of s items h.1

  export_items-fields_of :
      (s : Store) (c : Kept) (items : List ConfigItem) (h : All (Holds nvs s) items)
      → export_items nvs s c items ≡ some (fields_of s items h)
  unfolding export_items fields_of
  export_items-fields_of s c [] h = refl
  export_items-fields_of s c (i ∷ items) h =
      let (c', run) = export_item-shown s c i h.0.0 h.0.1 h.0.2 in
      rw (run, ◌>>=◌, export_items-fields_of s c' items h.1)

  -- An item that has a value, which the object has as it is shown.
  Echoes : Object → Store → ConfigItem → Type 0
  Echoes root s i =
      (v : Stored) × (get s i.key ≡ some v) × Fits i.type v × (root i.key ≡ some (shown i.type v))

  fields_of-Echoes :
      (root : Object) (s : Store) (items : List ConfigItem) (h : All (Holds nvs s) items)
      → All (λ (f : String × Item). root f.0 ≡ some f.1) (fields_of s items h)
      → All (Echoes root s) items
  unfolding fields_of Echoes
  fields_of-Echoes root s [] h r = tt
  fields_of-Echoes root s (i ∷ items) h r =
      ((h.0.0, h.0.1, h.0.2, r.0), fields_of-Echoes root s items h.1 r.1)

  -- Two stores with the same entries.
  Same : Store → Store → Type 0
  Same s s' = (k : String) → get s' k ≡ get s k

  serve-Same :
      (k : String) (t : ItemType) (v : Stored) (p : Store × Bool)
      → get p.0 k ≡ some v
      → ((s : Store) (j : String) (w : Stored) → (set s j w).1 ≡ true)
      → Same p.0 (serve nvs k (echo t v) p).0 × ((serve nvs k (echo t v) p).1 ≡ p.1)
  unfolding serve Same
  serve-Same k t v p e writes = go t
    where
      own : (j : String) → get (set p.0 k v).0 j ≡ get p.0 j
      own j = elim (Bool-cases (str_eq k j)) [
        | inl same ↦ elim (get-set_any p.0 k v) [
          | inl f ↦
              subst (λ (x : String). get (set p.0 k v).0 x ≡ get p.0 x) ((eq_iff k j).0 same)
                (f ∙ sym e)
          | inr f ↦
              subst (λ (x : String). get (set p.0 k v).0 x ≡ get p.0 x) ((eq_iff k j).0 same) f
        ]
        | inr apart ↦ get-set_ne p.0 k j v (ground (arith, eq_iff k j))
      ]

      flag : (p.1 || not (set p.0 k v).1) ≡ p.1
      flag = ground (arith, writes p.0 k v)

      go :
          (t : ItemType)
          → ((j : String) → get (serve nvs k (echo t v) p).0 j ≡ get p.0 j)
            × ((serve nvs k (echo t v) p).1 ≡ p.1)
      go (bool_item d) = (own, flag)
      go (uint8_item d) = (own, flag)
      go (uint16_item d) = (own, flag)
      go (uint32_item d) = (own, flag)
      go (ip_item d) = (own, flag)
      go (str_item d) = (own, flag)
      go (secret_item d) = (λ j. refl, refl)

  import_item-Same :
      (root : Object) (p : Store × Bool) (i : ConfigItem)
      → Echoes root p.0 i
      → ((s : Store) (j : String) (w : Stored) → (set s j w).1 ≡ true)
      → Same p.0 (import_item nvs root p i).0 × ((import_item nvs root p i).1 ≡ p.1)
  unfolding import_item Echoes
  import_item-Same root p i h writes =
      rw (h.3, import_item, request_of-shown i.type h.0 h.2)
        (serve-Same i.key i.type h.0 p h.1 writes)

  Same-Echoes :
      (root : Object) (s s' : Store) (items : List ConfigItem)
      → Same s s'
      → All (Echoes root s) items
      → All (Echoes root s') items
  unfolding Same Echoes
  Same-Echoes root s s' [] same h = tt
  Same-Echoes root s s' (i ∷ items) same h =
      ((h.0.0, same i.key ∙ h.0.1, h.0.2, h.0.3), Same-Echoes root s s' items same h.1)

  import_items-Same :
      (root : Object) (items : List ConfigItem) (p : Store × Bool)
      → All (Echoes root p.0) items
      → ((s : Store) (j : String) (w : Stored) → (set s j w).1 ≡ true)
      → Same p.0 (import_items nvs root p items).0 × ((import_items nvs root p items).1 ≡ p.1)
  unfolding import_items Same
  import_items-Same root [] p h writes = (λ k. refl, refl)
  import_items-Same root (i ∷ items) p h writes =
      let p1 = import_item nvs root p i in
      let (same, flag) = import_item-Same root p i h.0 writes in
      let (rest, last) =
        import_items-Same root items p1 (Same-Echoes root p.0 p1.0 items same h.1) writes in
      (λ k. rest k ∙ same k, last ∙ flag)

  -- Where every item has a value of its type and in range, cfg_to_json gives a field for each item, and
  -- uses no memory that was not written.
  pub cfg_to_json-defined :
      (s : Store)
      → opens s ≡ true
      → All (Holds nvs s) config_items
      → (fields : List (String × Item)) × (cfg_to_json nvs s ≡ some fields)
        × (map (λ (f : String × Item). f.0) fields ≡ map (λ (i : ConfigItem). i.key) config_items)
  unfolding cfg_to_json fields_of
  cfg_to_json-defined s open_ok h = (
    fields_of s config_items h,
    rw open_ok (export_items-fields_of s (record { cfg_value = 0; ip = none }) config_items h),
    keys config_items h,
  )
    where
      keys :
          (items : List ConfigItem) (g : All (Holds nvs s) items)
          → map (λ (f : String × Item). f.0) (fields_of s items g)
            ≡ map (λ (i : ConfigItem). i.key) items
      keys [] g = refl
      keys (i ∷ items) g = ap (λ (ks : List String). i.key ∷ ks) (keys items g.1)

  -- The JSON that cfg_to_json gives, posted back as it is to a store that takes its writes, is accepted and
  -- changes no entry: the secrets stay, although the JSON does not have them.
  pub cfg_json_to_nvs-cfg_to_json :
      (s : Store) (fields : List (String × Item)) (root : Object)
      → opens s ≡ true
      → All (Holds nvs s) config_items
      → cfg_to_json nvs s ≡ some fields
      → All (λ (f : String × Item). root f.0 ≡ some f.1) fields
      → ((s' : Store) (k : String) (v : Stored) → (set s' k v).1 ≡ true)
      → ((s' : Store) → (commit s').1 ≡ true)
      → (s' : Store) × (cfg_json_to_nvs nvs root s ≡ some (s', true))
        × ((k : String) → get s' k ≡ get s k)
  unfolding cfg_to_json cfg_json_to_nvs Same
  cfg_json_to_nvs-cfg_to_json s fields root open_ok h run agree writes commits =
      let p = import_items nvs root (s, false) config_items in
      let same_fields : fields_of s config_items h ≡ fields = cc (
        export_items-fields_of s (record { cfg_value = 0; ip = none }) config_items h,
        rw open_ok at run,
      ) in
      let echoes = fields_of-Echoes root s config_items h (
        subst (λ (x : List (String × Item)). All (λ (f : String × Item). root f.0 ≡ some f.1) x)
          (sym same_fields) agree) in
      let (same, flag) = import_items-Same root config_items (s, false) echoes writes in
      (
        (commit p.0).0,
        rw (open_ok, flag) (ap (λ (b : Bool). some ((commit p.0).0, b)) (commits p.0)),
        λ k. get-commit p.0 k ∙ same k,
      )
