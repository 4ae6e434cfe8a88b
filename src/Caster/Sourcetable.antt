-- ===== src/Caster/Sourcetable.antt =====
-- The texts of the sourcetable fit the buffers of send_sourcetable in main/ntrip_caster.c.
use rtkbase.Prelude.{
  ℕ, ◌+◌, ◌≤◌, ◌≡◌, refl, inl, inr, Bool, true, false, ◌++◌, arith, length, length-append,
  Bool-cases, ltb,
}
use rtkbase.CText.{codes}
use rtkbase.Caster.Settings.{CasterConfig}
use rtkbase.Caster.Request.{crlf, record_tail, header_start, decimal, str_record, table_header}

length-str_record :
    (cfg : CasterConfig)
    → length (str_record cfg) ≡ length cfg.mountpoint + length cfg.identifier + 134
unfolding str_record
length-str_record cfg =
    let fixed : length record_tail ≡ 129 = refl in
    omega (
      arith,
      length-append cfg.mountpoint (codes ";" ++ (cfg.identifier ++ record_tail)),
      length-append cfg.identifier record_tail,
      fixed,
    )

length-decimal : (n : ℕ) → length (decimal n) ≤ 3
unfolding decimal
length-decimal n = elim (Bool-cases (ltb n 10)) [
  | inl e ↦ rw e (omega arith)
  | inr e ↦ elim (Bool-cases (ltb n 100)) [
    | inl f ↦ rw (e, f) (omega arith)
    | inr f ↦ rw (e, f) (omega arith)
  ]
]

length-table_header : (v2 : Bool) (n : ℕ) → length (table_header v2 n) ≤ 255
unfolding table_header
length-table_header v2 n = omega (
  arith,
  length-append (header_start v2) (decimal n ++ (crlf ++ crlf)),
  length-append (decimal n) (crlf ++ crlf),
  length-decimal n,
  start_le v2,
)
  where
    start_le : (v2 : Bool) → length (header_start v2) ≤ 100
    start_le true = omega arith
    start_le false = omega arith

-- The sourcetable's record, of a mountpoint and an identifier of at most 32 characters each, has at most 255
-- characters, as snprintf can store them, and so has the header that gives its length.
pub str_record-fits :
    (cfg : CasterConfig) (v2 : Bool)
    → length cfg.mountpoint ≤ 32
    → length cfg.identifier ≤ 32
    → (length (str_record cfg) ≤ 255) × (length (table_header v2 (length (str_record cfg))) ≤ 255)
str_record-fits cfg v2 m i =
    (omega (arith, length-str_record cfg), length-table_header v2 (length (str_record cfg)))
