-- ===== src/Config/Read.antt =====
-- The readers of JSON values of main/nvs_config.c: json_get_bool_compat, json_get_u32_compat and
-- json_get_ip4_array.
use rtkbase.Prelude.{
  ℕ, zero, suc, ◌+◌, ◌*◌, ◌^◌, ◌≤◌, ◌<◌, ◌≡◌, ◌&&◌, ◌||◌, not, List, Option, none, some, arith,
  ◌==◌, ltb, if◌then◌else◌, length, inl, inr, Option-cases,
}
use rtkbase.CText.{codes, same_text, same_text_nocase, strtoul}
use rtkbase.Json.{
  Number, negative, real, Item, null, bool, number, string, array, object, Items, nil, cons,
}

-- `number == 0.0 || number == 1.0`.
abbrev bool_of_number : Number → Option ℕ
bool_of_number negative = none
bool_of_number (real n whole) = if whole && (n == 0 || n == 1) then some n else none

unfoldable pub json_get_bool_compat : Item → Option ℕ
unfolding same_text same_text_nocase
json_get_bool_compat null = none
json_get_bool_compat (bool b) = some (if b then 1 else 0)
json_get_bool_compat (number n) = bool_of_number n
json_get_bool_compat (string value) =
    if same_text value (codes "0") || same_text_nocase value (codes "false")
    then some 0
    else if same_text value (codes "1") || same_text_nocase value (codes "true")
    then some 1
    else none
json_get_bool_compat (array items) = none
json_get_bool_compat object = none

-- `number > max` also where only its fraction is above; then the cast must lose nothing.
abbrev u32_of_number : ℕ → Number → Option ℕ
u32_of_number max_value negative = none
u32_of_number max_value (real n whole) =
    if ltb max_value n || (n == max_value && not whole)
    then none
    else if whole
    then some n
    else none

-- All of the text is a number of at most the greatest value.
abbrev u32_of_text : ℕ → List ℕ → Option ℕ
u32_of_text max_value value = if length value == 0 then none else (elim (strtoul value) [
  | none ↦ none
  | some parsed ↦
      if not (length parsed.1 == 0) || ltb max_value parsed.0 then none else some parsed.0
])

unfoldable pub json_get_u32_compat : ℕ → Item → Option ℕ
unfolding strtoul
json_get_u32_compat max_value null = none
json_get_u32_compat max_value (bool b) = none
json_get_u32_compat max_value (number n) = u32_of_number max_value n
json_get_u32_compat max_value (string value) = u32_of_text max_value value
json_get_u32_compat max_value (array items) = none
json_get_u32_compat max_value object = none

-- The four rounds of the loop, for part `b` on; the parts do not overlap, so that `|=` adds.
abbrev pub ip4_parts : ℕ → ℕ → Items → Option ℕ
ip4_parts zero b nil = some 0
ip4_parts zero b (cons part rest) = none
ip4_parts (suc n) b nil = none
ip4_parts (suc n) b (cons part rest) = elim (json_get_u32_compat 255 part) [
  | none ↦ none
  | some octet ↦ elim (ip4_parts n (b + 1) rest) [
    | none ↦ none
    | some more ↦ some (octet * 2 ^ (b * 8) + more)
  ]
]

unfoldable pub json_get_ip4_array : Item → Option ℕ
unfolding json_get_u32_compat
json_get_ip4_array null = none
json_get_ip4_array (bool b) = none
json_get_ip4_array (number n) = none
json_get_ip4_array (string value) = none
json_get_ip4_array (array items) = ip4_parts 4 0 items
json_get_ip4_array object = none

pub json_get_bool_compat-lt : (i : Item) (n : ℕ) → json_get_bool_compat i ≡ some n → n < 2
unfolding json_get_bool_compat
json_get_bool_compat-lt null n h = ground arith
json_get_bool_compat-lt (bool b) n h = ground arith
json_get_bool_compat-lt (number negative) n h = ground arith
json_get_bool_compat-lt (number (real m whole)) n h = ground arith
json_get_bool_compat-lt (string value) n h = ground arith
json_get_bool_compat-lt (array items) n h = ground arith
json_get_bool_compat-lt object n h = ground arith

pub json_get_u32_compat-le :
    (max_value : ℕ) (i : Item) (n : ℕ) → json_get_u32_compat max_value i ≡ some n → n ≤ max_value
unfolding json_get_u32_compat
json_get_u32_compat-le max_value null n h = ground arith
json_get_u32_compat-le max_value (bool b) n h = ground arith
json_get_u32_compat-le max_value (number negative) n h = ground arith
json_get_u32_compat-le max_value (number (real m whole)) n h = ground arith
json_get_u32_compat-le max_value (string value) n h = elim (Option-cases (strtoul value)) [
  | inl e ↦ ground arith
  | inr (parsed, e) ↦ ground arith
]
json_get_u32_compat-le max_value (array items) n h = ground arith
json_get_u32_compat-le max_value object n h = ground arith

-- One part of an address and the rest of them.
ip4_parts_step :
    (n b : ℕ) (items : Items) (v : ℕ)
    → ip4_parts (suc n) b items ≡ some v
    → (octet : ℕ) × (more : ℕ) × (rest : Items) × (octet ≤ 255)
      × (ip4_parts n (b + 1) rest ≡ some more)
      × (v ≡ octet * 2 ^ (b * 8) + more)
ip4_parts_step n b nil v h = absurd (ground arith)
ip4_parts_step n b (cons part rest) v h = elim (Option-cases (json_get_u32_compat 255 part)) [
  | inl e ↦ absurd (ground arith)
  | inr (octet, e) ↦ elim (Option-cases (ip4_parts n (b + 1) rest)) [
    | inl f ↦ absurd (ground arith)
    | inr (more, f) ↦ (octet, more, rest, json_get_u32_compat-le 255 part octet e, f, ground arith)
  ]
]

ip4_parts_none : (b : ℕ) (items : Items) (v : ℕ) → ip4_parts 0 b items ≡ some v → v ≡ 0
ip4_parts_none b nil v h = ground arith
ip4_parts_none b (cons part rest) v h = absurd (ground arith)

-- An address has 32 bits.
pub json_get_ip4_array-lt : (i : Item) (n : ℕ) → json_get_ip4_array i ≡ some n → n < 4294967296
unfolding json_get_ip4_array
json_get_ip4_array-lt null n h = ground arith
json_get_ip4_array-lt (bool b) n h = ground arith
json_get_ip4_array-lt (number m) n h = ground arith
json_get_ip4_array-lt (string value) n h = ground arith
json_get_ip4_array-lt (array items) n h =
    let (a, n1, r1, ha, e1, f1) = ip4_parts_step 3 0 items n h in
    let (b, n2, r2, hb, e2, f2) = ip4_parts_step 2 1 r1 n1 e1 in
    let (c, n3, r3, hc, e3, f3) = ip4_parts_step 1 2 r2 n2 e2 in
    let (d, n4, r4, hd, e4, f4) = ip4_parts_step 0 3 r3 n3 e3 in
    let last : n4 ≡ 0 = ip4_parts_none 4 r4 n4 e4 in omega arith
json_get_ip4_array-lt object n h = ground arith
