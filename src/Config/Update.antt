-- ===== src/Config/Update.antt =====
-- What cfg_json_to_nvs keeps.
use Prim.Native.String.{String}
use rtkbase.Prelude.{
  ℕ, ◌≡◌, refl, ◌≢◌, sym, ◌∙◌, inl, inr, Bool, true, false, List, [], ◌∷◌, Option, none, some,
  arith, All, Bool-cases, Option-cases,
}
use rtkbase.Nvs.{Stored, u8, u16, u32, str, Nvs}
use rtkbase.Json.{Item, null, bool, number, string, array, object, Object}
use rtkbase.Config.Items.{
  ItemType, bool_item, uint8_item, uint16_item, uint32_item, str_item, secret_item, ip_item,
  ConfigItem, config_items,
}
use rtkbase.Config.Read.{
  json_get_bool_compat, json_get_u32_compat, json_get_ip4_array, json_get_bool_compat-lt,
  json_get_u32_compat-le, json_get_ip4_array-lt,
}
use rtkbase.Config.Import.{
  Request, write, keep, invalid, write_or_invalid, text_request, secret_request, request_of, serve,
  import_item, import_items, cfg_json_to_nvs,
}
use rtkbase.Config.Sound.{
  Fits, Distinct, config_items-Distinct, Holds, Holds-move, Only, Only-All, committed-Holds,
}

-- What a request to write comes from.
written :
    (f : ℕ → Stored) (o : Option ℕ) (v : Stored)
    → write_or_invalid f o ≡ write v
    → (n : ℕ) × (o ≡ some n) × (v ≡ f n)
written f none v h = absurd (ground arith)
written f (some n) v h = (n, refl, cc)

text_request-Fits :
    (field : Item) (v : Stored) → text_request field ≡ write v → (t : List ℕ) × (v ≡ str t)
text_request-Fits null v h = absurd (ground arith)
text_request-Fits (bool b) v h = absurd (ground arith)
text_request-Fits (number n) v h = absurd (ground arith)
text_request-Fits (string value) v h = (value, cc)
text_request-Fits (array items) v h = absurd (ground arith)
text_request-Fits object v h = absurd (ground arith)

secret_request-Fits :
    (field : Item) (v : Stored) → secret_request field ≡ write v → (t : List ℕ) × (v ≡ str t)
secret_request-Fits null v h = absurd (ground arith)
secret_request-Fits (bool b) v h = absurd (ground arith)
secret_request-Fits (number n) v h = absurd (ground arith)
secret_request-Fits (string value) v h = (value, ground arith)
secret_request-Fits (array items) v h = absurd (ground arith)
secret_request-Fits object v h = absurd (ground arith)

request_of-Fits :
    (t : ItemType) (field : Item) (v : Stored) → request_of t field ≡ write v → Fits t v
unfolding request_of
request_of-Fits (bool_item d) field v h =
    let (n, e, f) = written u8 (json_get_bool_compat field) v h in
    (n, f, json_get_bool_compat-lt field n e)
request_of-Fits (uint8_item d) field v h =
    let (n, e, f) = written u8 (json_get_u32_compat 255 field) v h in
    (n, f, omega (arith, json_get_u32_compat-le 255 field n e))
request_of-Fits (uint16_item d) field v h =
    let (n, e, f) = written u16 (json_get_u32_compat 65535 field) v h in
    (n, f, omega (arith, json_get_u32_compat-le 65535 field n e))
request_of-Fits (uint32_item d) field v h =
    let (n, e, f) = written u32 (json_get_u32_compat 4294967295 field) v h in
    (n, f, omega (arith, json_get_u32_compat-le 4294967295 field n e))
request_of-Fits (ip_item d) field v h =
    let (n, e, f) = written u32 (json_get_ip4_array field) v h in
    (n, f, json_get_ip4_array-lt field n e)
request_of-Fits (str_item d) field v h = text_request-Fits field v h
request_of-Fits (secret_item d) field v h = secret_request-Fits field v h

module _ (nvs : Nvs) where
  open nvs use {
    Store, opens, get, set, commit, get-set_ok, get-set_any, get-set_ne, get-commit, opens-set,
  }

  serve-Only : (k : String) (r : Request) (p : Store × Bool) → Only nvs k p.0 (serve nvs k r p).0
  unfolding serve
  serve-Only k (write v) p j ne = get-set_ne p.0 k j v ne
  serve-Only k keep p j ne = refl
  serve-Only k invalid p j ne = refl

  serve-Holds :
      (i : ConfigItem) (r : Request) (p : Store × Bool)
      → ((v : Stored) → r ≡ write v → Fits i.type v)
      → Holds nvs p.0 i
      → Holds nvs (serve nvs i.key r p).0 i
  unfolding serve
  serve-Holds i (write v) p fits h = elim (get-set_any p.0 i.key v) [
    | inl e ↦ (v, e, fits v refl)
    | inr e ↦ (h.0, e ∙ h.1, h.2)
  ]
  serve-Holds i keep p fits h = h
  serve-Holds i invalid p fits h = h

  import_item-Only :
      (root : Object) (p : Store × Bool) (i : ConfigItem)
      → Only nvs i.key p.0 (import_item nvs root p i).0
  unfolding import_item
  import_item-Only root p i j ne = elim (Option-cases (root i.key)) [
    | inl e ↦ rw (e, import_item)
    | inr (field, e) ↦ rw (e, import_item) (serve-Only i.key (request_of i.type field) p j ne)
  ]

  import_item-Holds :
      (root : Object) (p : Store × Bool) (i : ConfigItem)
      → Holds nvs p.0 i
      → Holds nvs (import_item nvs root p i).0 i
  unfolding import_item
  import_item-Holds root p i h = elim (Option-cases (root i.key)) [
    | inl e ↦ rw (e, import_item) h
    | inr (field, e) ↦
        rw (e, import_item)
          (serve-Holds i (request_of i.type field) p (request_of-Fits i.type field) h)
  ]

  import_items-get :
      (root : Object) (items : List ConfigItem) (p : Store × Bool) (k : String)
      → All (λ (j : ConfigItem). k ≢ j.key) items
      → get (import_items nvs root p items).0 k ≡ get p.0 k
  unfolding import_items
  import_items-get root [] p k ne = refl
  import_items-get root (i ∷ items) p k ne =
      import_items-get root items (import_item nvs root p i) k ne.1
      ∙ import_item-Only root p i k (λ e. ne.0 (sym e))

  import_items-Holds :
      (root : Object) (items : List ConfigItem) (p : Store × Bool)
      → Distinct items
      → All (Holds nvs p.0) items
      → All (Holds nvs (import_items nvs root p items).0) items
  unfolding import_items
  import_items-Holds root [] p d h = tt
  import_items-Holds root (i ∷ items) p d h =
      let p1 = import_item nvs root p i in
      (
        Holds-move nvs p1.0 (import_items nvs root p1 items).0 i
            (import_items-get root items p1 i.key d.0) (import_item-Holds root p i h.0),
        import_items-Holds root items p1 d.1 (
            Only-All nvs (Holds nvs) (Holds-move nvs) i.key p.0 p1.0 (import_item-Only root p i)
              items d.0 h.1),
      )

  -- Whatever JSON is posted, and whatever writes fail, cfg_json_to_nvs leaves every item with a value of
  -- its own type and in range, if every item had one.
  pub cfg_json_to_nvs-Holds :
      (root : Object) (s : Store)
      → opens s ≡ true
      → All (Holds nvs s) config_items
      → (s' : Store) × (ok : Bool) × (cfg_json_to_nvs nvs root s ≡ some (s', ok))
        × All (Holds nvs s') config_items
  unfolding cfg_json_to_nvs
  cfg_json_to_nvs-Holds root s open_ok h =
      let p = import_items nvs root (s, false) config_items in
      let kept = import_items-Holds root config_items (s, false) config_items-Distinct h in
      elim (Bool-cases p.1) [
        | inl e ↦ (p.0, false, rw (open_ok, e), kept)
        | inr e ↦ (
          (commit p.0).0,
          (commit p.0).1,
          rw (open_ok, e),
          committed-Holds nvs p.0 config_items kept,
        )
      ]
