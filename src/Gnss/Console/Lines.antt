-- ===== src/Gnss/Console/Lines.antt =====
-- What the console of main/gnss_uart.c keeps of the byte stream.
use rtkbase.Prelude.{
  ℕ, ◌+◌, ◌<◌, ◌≤◌, ◌≡◌, refl, ap, ap₂, sym, ◌∙◌, ◌⊎◌, inl, inr, Bool, true, false, not, ◌&&◌, ◌||◌,
  List, [], ◌∷◌, ◌++◌, Option, some, arith, All, length, length-append, ltb, leb, ◌==◌, Bool-cases,
  if◌then◌else◌, append_assoc, keep_last, keep_last-append, keep_last_all, append-nil,
}
use rtkbase.ByteRing.{ByteRing, append}
use rtkbase.ByteRing.Contents.{IsRing, append-IsRing, contents, append-contents, length-contents}
use rtkbase.Gnss.Console.{
  Console, console_line_interesting, console_is_likely_line_start, console_append, with_line,
  console_store_line, put_line, push_text, console_push_byte, push_each, console_push_bytes,
}

-- Two buffers of 8192 bytes, the active one a ring, and room for a final NUL in the line.
pub record IsConsole (c : Console) : Type 0 where
  pub ring_ok : IsRing 8192 c.ring
  pub spare_ok : length c.spare ≡ 8192
  pub line_in : length c.line ≤ 255

-- A step that writes inside the arrays only, and keeps the console sound.
Safe : Option Console → Type 0
Safe o = (c : Console) × (o ≡ some c) × IsConsole c

console_store_line-Safe :
    (c : Console)
    → IsConsole c
    → (c' : Console) × (console_store_line c ≡ some c') × IsConsole c' × (length c'.line ≡ 0)
unfolding console_store_line console_append
console_store_line-Safe c v = elim (Bool-cases (length c.line == 0)) [
  | inl e ↦ (c, rw e, v, ground arith)
  | inr e ↦
      let f : ltb (length c.line) 256 ≡ true = ground (arith, v.line_in) in
      elim (Bool-cases (not c.line_binary && console_line_interesting c.line)) [
        | inl g ↦
            let once = append-IsRing 8192 c.ring c.line v.ring_ok in
            (
              with_line (console_append (console_append c c.line) (10 ∷ [])) [] false,
              rw (e, f, g),
              record {
                ring_ok = append-IsRing 8192 (append 8192 c.ring c.line) (10 ∷ []) once;
                spare_ok = v.spare_ok;
                line_in = omega arith;
              },
              refl,
            )
        | inr g ↦ (
          with_line c [] false,
          rw (e, f, g),
          record { ring_ok = v.ring_ok; spare_ok = v.spare_ok; line_in = omega arith },
          refl,
        )
      ]
]

put_line-Safe : (c : Console) (b : ℕ) → IsConsole c → length c.line < 255 → Safe (put_line c b)
unfolding put_line Safe
put_line-Safe c b v h =
    let f : ltb (length c.line) 256 ≡ true = ground arith in
    (
      with_line c (c.line ++ b ∷ []) c.line_binary,
      rw f,
      record {
        ring_ok = v.ring_ok;
        spare_ok = v.spare_ok;
        line_in = omega (arith, length-append c.line (b ∷ []));
      },
    )

push_text-Safe : (c : Console) (b : ℕ) → IsConsole c → Safe (push_text c b)
unfolding push_text Safe
push_text-Safe c b v = elim (Bool-cases (leb 256 (length c.line + 1))) [
  | inl e ↦
      let (c', run, ok, short) = console_store_line-Safe c v in
      rw (e, run) (put_line-Safe c' b ok (omega arith))
  | inr e ↦ rw e (put_line-Safe c b v (ground arith))
]

with_line-IsConsole :
    (c : Console) (binary : Bool) → IsConsole c → IsConsole (with_line c [] binary)
with_line-IsConsole c binary v = record {
  ring_ok = v.ring_ok;
  spare_ok = v.spare_ok;
  line_in = omega arith;
}

-- A printable byte, when the line is text.
console_push_byte-text :
    (c : Console) (b : ℕ)
    → (b == 13 || b == 10) ≡ false
    → (b == 9 || (leb 0x20 b && leb b 0x7e)) ≡ true
    → c.line_binary ≡ false
    → console_push_byte c b ≡ push_text c b
unfolding console_push_byte
console_push_byte-text c b no_end printed clear =
    rw (no_end, printed)
      (ap
        (λ (m : Bool).
          if m
          then (if not (console_is_likely_line_start b)
              then some c
              else push_text (with_line c [] false) b)
          else push_text c b)
        clear)

console_push_byte-Safe : (c : Console) (b : ℕ) → IsConsole c → Safe (console_push_byte c b)
unfolding console_push_byte Safe
console_push_byte-Safe c b v = elim (Bool-cases (b == 13 || b == 10)) [
  | inl e ↦ let (c', run, ok, short) = console_store_line-Safe c v in (c', rw e run, ok)
  | inr e ↦ elim (Bool-cases (b == 9 || (leb 0x20 b && leb b 0x7e))) [
    | inl f ↦ rw (e, f) (choose c.line_binary)
    | inr f ↦ (with_line c [] true, rw (e, f), with_line-IsConsole c true v)
  ]
]
  where
    choose :
        (m : Bool)
        → Safe (
            if m
            then (if not (console_is_likely_line_start b)
                then some c
                else push_text (with_line c [] false) b)
            else push_text c b)
    choose false = push_text-Safe c b v
    choose true = elim (Bool-cases (not (console_is_likely_line_start b))) [
      | inl h ↦ rw h (c, refl, v)
      | inr h ↦ rw h (push_text-Safe (with_line c [] false) b (with_line-IsConsole c false v))
    ]

push_each-Safe : (bytes : List ℕ) (c : Console) → IsConsole c → Safe (push_each c bytes)
unfolding push_each Safe
push_each-Safe [] c v = (c, refl, v)
push_each-Safe (b ∷ bytes) c v =
    let (c', run, ok) = console_push_byte-Safe c b v in
    let (c'', all, sound) = push_each-Safe bytes c' ok in (c'', rw run all, sound)

-- Whatever bytes arrive, and whenever, console_push_bytes writes inside its arrays only and leaves a
-- sound console: two buffers of 8192 bytes, a ring in the active one, and a line of at most 255.
pub console_push_bytes-safe :
    (c : Console) (now : ℕ) (bytes : List ℕ)
    → IsConsole c
    → (c' : Console) × (console_push_bytes c now bytes ≡ some c') × IsConsole c'
unfolding console_push_bytes Safe
console_push_bytes-safe c now bytes v =
    elim (Bool-cases (not (c.suppress_until == 0) && ltb now c.suppress_until)) [
      | inl e ↦ (with_line c [] false, rw e, with_line-IsConsole c false v)
      | inr e ↦ let (c', run, ok) = push_each-Safe bytes c v in (c', rw e run, ok)
    ]

-- A byte of text.
abbrev pub IsText : ℕ → Type 0
IsText b = (b ≡ 9) ⊎ ((0x20 ≤ b) × (b ≤ 0x7e))

push_each-text :
    (text : List ℕ) (c : Console) (rest : List ℕ)
    → All IsText text
    → c.line_binary ≡ false
    → length c.line + length text ≤ 255
    → push_each c (text ++ rest) ≡ push_each (with_line c (c.line ++ text) c.line_binary) rest
unfolding push_each push_text put_line
push_each-text [] c rest p clear h =
    ap (λ (l : List ℕ). push_each (with_line c l c.line_binary) rest) (sym (append-nil c.line))
push_each-text (b ∷ text) c rest p clear h =
    let no_end : (b == 13 || b == 10) ≡ false = ground (arith, p.0) in
    let printed : (b == 9 || (leb 0x20 b && leb b 0x7e)) ≡ true = ground (arith, p.0) in
    let roomy : leb 256 (length c.line + 1) ≡ false = ground arith in
    let fits : ltb (length c.line) 256 ≡ true = ground arith in
    rw (console_push_byte-text c b no_end printed clear, roomy, fits)
      (push_each-text text (with_line c (c.line ++ b ∷ []) c.line_binary) rest p.1 clear
          (omega (arith, length-append c.line (b ∷ [])))
        ∙ ap (λ (l : List ℕ). push_each (with_line c l c.line_binary) rest)
            (append_assoc c.line (b ∷ []) text))

-- What a line leaves in the ring.
abbrev pub kept : List ℕ → List ℕ
kept text = if console_line_interesting text then text ++ 10 ∷ [] else []

length-ring : (r : ByteRing) → IsRing 8192 r → length (contents 8192 r) ≤ 8192
length-ring r v = omega (arith, length-contents 8192 r, v.used_in)

-- No text, nothing kept.
keep_last-kept :
    (r : ByteRing) → IsRing 8192 r → contents 8192 r ≡ keep_last 8192 (contents 8192 r ++ kept [])
unfolding console_line_interesting
keep_last-kept r v = sym (
    ap (keep_last 8192) (append-nil (contents 8192 r))
    ∙ keep_last_all 8192 (contents 8192 r) (length-ring r v))

console_store_line-kept :
    (c : Console) (text : List ℕ)
    → IsConsole c
    → length text ≤ 255
    → (c' : Console) × (console_store_line (with_line c text false) ≡ some c')
      × (contents 8192 c'.ring ≡ keep_last 8192 (contents 8192 c.ring ++ kept text))
      × (length c'.line ≡ 0)
unfolding console_store_line console_append
console_store_line-kept c [] v h =
    (with_line c [] false, refl, keep_last-kept c.ring v.ring_ok, refl)
console_store_line-kept c (b ∷ text) v h =
    let line = b ∷ text in
    let f : ltb (length line) 256 ≡ true = ground arith in
    let nonempty : (length line == 0) ≡ false = ground arith in
    elim (Bool-cases (console_line_interesting line)) [
      | inl g ↦ (
        with_line (console_append (console_append c line) (10 ∷ [])) [] false,
        rw (nonempty, f, g),
        rw g (
            append-contents 8192 (append 8192 c.ring line) (10 ∷ [])
              (append-IsRing 8192 c.ring line v.ring_ok) (omega arith)
            ∙ (ap (λ (x : List ℕ). keep_last 8192 (x ++ 10 ∷ []))
                  (append-contents 8192 c.ring line v.ring_ok (omega arith))
                ∙ (keep_last-append 8192 (contents 8192 c.ring ++ line) (10 ∷ [])
                    ∙ ap (keep_last 8192) (append_assoc (contents 8192 c.ring) line (10 ∷ []))))),
        refl,
      )
      | inr g ↦ (
        with_line c [] false,
        rw (nonempty, f, g),
        rw g (
            sym (
              ap (keep_last 8192) (append-nil (contents 8192 c.ring))
              ∙ keep_last_all 8192 (contents 8192 c.ring) (length-ring c.ring v.ring_ok))),
        refl,
      )
    ]

-- A line of at most 255 text bytes and its newline, arriving at a sound console that is not
-- suppressed and stands at the start of a text line, are kept after the older text exactly when the
-- line is interesting; of it all, the last 8192 bytes are kept. The console stands at the start of a
-- line again.
pub console_push_bytes-line :
    (c : Console) (now : ℕ) (text : List ℕ)
    → IsConsole c
    → c.suppress_until ≤ now
    → c.line ≡ []
    → c.line_binary ≡ false
    → All IsText text
    → length text ≤ 255
    → (c' : Console) × (console_push_bytes c now (text ++ 10 ∷ []) ≡ some c')
      × (contents 8192 c'.ring
          ≡ keep_last 8192 (
              contents 8192 c.ring
              ++ (if console_line_interesting text then text ++ 10 ∷ [] else [])))
      × (length c'.line ≡ 0)
unfolding console_push_bytes push_each console_push_byte
console_push_bytes-line c now text v late start clear p h =
    let awake : (not (c.suppress_until == 0) && ltb now c.suppress_until) ≡ false = ground arith in
    let (c', run, text_kept, empty) = console_store_line-kept c text v h in
    let to_line : with_line c (c.line ++ text) c.line_binary ≡ with_line c text false =
      ap₂ (λ (l : List ℕ) (m : Bool). with_line c (l ++ text) m) start clear in
    (
      c',
      rw (
        awake,
        push_each-text text c (10 ∷ []) p clear (omega (arith, ap length start)),
        to_line,
        run,
      ),
      text_kept,
      empty,
    )
