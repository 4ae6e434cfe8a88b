-- ===== src/Log/Overrun.antt =====
-- When the line assembly of main/log.c stays inside `s_pending_line`, and when it does not.
use rtkbase.Prelude.{
  ◌>>=◌, ℕ, zero, suc, ◌+◌, ◌<◌, ◌≤◌, ◌≡◌, ◌≢◌, refl, ap, sym, ◌∙◌, inl, inr, true, false, ◌||◌,
  List, [], ◌∷◌, ◌++◌, Option, none, some, arith, All, length, length-append, length-take, take,
  ltb, leb, ◌==◌, Bool-cases, if◌then◌else◌, append-nil, append_assoc,
}
use rtkbase.ByteRing.Contents.{IsRing, append-IsRing}
use rtkbase.Log.{
  Log, skip_params, after_escape, strip_ansi_escape, should_store_line, sanitize_line,
  append_to_log_buffer, store_pending_line, put_pending, make_room, put_char, append_from,
  append_formatted_text, log_vprintf,
}

-- The log's own data: a ring of 16384 bytes.
abbrev pub IsLog : Log → Type 0
IsLog l = IsRing 16384 l.ring

length-skip_params : (text : List ℕ) → length (skip_params text) ≤ length text
unfolding skip_params
length-skip_params [] = omega arith
length-skip_params (c ∷ text) = ground (arith, length-skip_params text)

length-strip_ansi_escape :
    (c : ℕ) (text : List ℕ) → length (strip_ansi_escape c text).1 ≤ length text
unfolding strip_ansi_escape after_escape
length-strip_ansi_escape c [] = omega arith
length-strip_ansi_escape c (d ∷ text) = ground (arith, length-skip_params text)

-- A step that does not leave the line: it succeeds, and its line is not longer than `n`.
Within : ℕ → Option Log → Type 0
Within n o = (l : Log) × (o ≡ some l) × (length l.pending ≤ n) × IsLog l

store_pending_line-Within :
    (l : Log) → length l.pending < 512 → IsLog l → Within 0 (store_pending_line l)
unfolding store_pending_line Within append_to_log_buffer
store_pending_line-Within l h v = elim (Bool-cases (length l.pending == 0)) [
  | inl e ↦ (l, rw (e, store_pending_line), ground arith, v)
  | inr e ↦
      let f : ltb (length l.pending) 512 ≡ true = ground arith in
      (
        record {
          ring =
              if should_store_line (sanitize_line l.pending)
              then append_to_log_buffer l.ring (sanitize_line l.pending)
              else l.ring;
          pending = [];
        },
        rw (e, f, store_pending_line),
        omega arith,
        ground (arith, append-IsRing 16384 l.ring (sanitize_line l.pending) v),
      )
]

put_char-Within :
    (l : Log) (c n : ℕ) → length l.pending ≤ n → n < 511 → IsLog l → Within (n + 1) (put_char l c)
unfolding put_char make_room put_pending Within
put_char-Within l c n h lt v =
    let longer : Log = record l { pending = l.pending ++ c ∷ [] } in
    let len : length longer.pending ≡ length l.pending + 1 = length-append l.pending (c ∷ []) in
    let roomy : leb 512 (length l.pending + 1) ≡ false = ground arith in
    let fits : ltb (length l.pending) 512 ≡ true = ground arith in
    elim (Bool-cases (c == 10)) [
      | inl e ↦
          let (l', run, short, ok) = store_pending_line-Within longer (omega arith) v in
          (l', rw (roomy, fits, e) run, omega arith, ok)
      | inr e ↦ (longer, rw (roomy, fits, e), omega arith, v)
    ]

append_from-Within :
    (fuel : ℕ) (l : Log) (text : List ℕ) (n : ℕ)
    → length l.pending ≤ n
    → n + length text ≤ 511
    → IsLog l
    → Within 511 (append_from fuel l text)
unfolding append_from Within
append_from-Within zero l text n h le v = (l, refl, omega arith, v)
append_from-Within (suc fuel) l [] n h le v = (l, refl, omega arith, v)
append_from-Within (suc fuel) l (c ∷ text) n h le v =
    let d = (strip_ansi_escape c text).0 in
    let rest = (strip_ansi_escape c text).1 in
    let shorter : length rest ≤ length text = length-strip_ansi_escape c text in
    elim (Bool-cases (d == 0 || d == 13)) [
      | inl e ↦ rw e (append_from-Within fuel l rest n h (omega arith) v)
      | inr e ↦
          let (l', run, short, ok) = put_char-Within l d n h (omega arith) v in
          rw (e, run) (append_from-Within fuel l' rest (n + 1) short (omega arith) ok)
    ]

-- While the pending line and the new text together have at most 511 characters, appending the text
-- writes inside the line buffer only, and leaves a line of at most 511 characters and a sound ring.
pub append_formatted_text-fits :
    (l : Log) (text : List ℕ)
    → IsLog l
    → length l.pending + length text ≤ 511
    → (l' : Log) × (append_formatted_text l text ≡ some l') × (length l'.pending ≤ 511) × IsLog l'
unfolding append_formatted_text Within
append_formatted_text-fits l text v h =
    append_from-Within (length text) l text (length l.pending) (omega arith) h v

-- A character that is kept as it is, and ends no line.
abbrev pub IsPlain : ℕ → Type 0
IsPlain c = (c ≢ 0) × (c ≢ 10) × (c ≢ 13) × (c ≢ 27)

strip-plain : (c : ℕ) (text : List ℕ) → IsPlain c → strip_ansi_escape c text ≡ (c, text)
unfolding strip_ansi_escape after_escape
strip-plain c [] p = refl
strip-plain c (d ∷ text) p = ground arith

put_char-plain :
    (l : Log) (c : ℕ)
    → IsPlain c
    → length l.pending < 511
    → put_char l c ≡ some (record l { pending = l.pending ++ c ∷ [] })
unfolding put_char make_room put_pending
put_char-plain l c p h =
    let roomy : leb 512 (length l.pending + 1) ≡ false = ground arith in
    let fits : ltb (length l.pending) 512 ≡ true = ground arith in
    let plain : (c == 10) ≡ false = ground arith in rw (roomy, fits, plain)

put_char-overruns : (l : Log) (c : ℕ) → length l.pending ≡ 511 → put_char l c ≡ none
unfolding put_char make_room put_pending store_pending_line
put_char-overruns l c h =
    let tight : leb 512 (length l.pending + 1) ≡ true = ground arith in
    let fits : ltb (length l.pending) 512 ≡ true = ground arith in
    let len : length (l.pending ++ 10 ∷ []) ≡ 512 =
      omega (arith, length-append l.pending (10 ∷ [])) in
    rw (tight, fits, len)

append_from-plain :
    (fuel : ℕ) (l : Log) (text : List ℕ)
    → length text ≤ fuel
    → All IsPlain text
    → length l.pending + length text ≤ 511
    → append_from fuel l text ≡ some (record l { pending = l.pending ++ text })
unfolding append_from
append_from-plain zero l [] le p h =
    ap (λ (x : List ℕ). some (record l { pending = x })) (sym (append-nil l.pending))
append_from-plain zero l (c ∷ text) le p h = absurd (omega arith)
append_from-plain (suc fuel) l [] le p h =
    ap (λ (x : List ℕ). some (record l { pending = x })) (sym (append-nil l.pending))
append_from-plain (suc fuel) l (c ∷ text) le p h =
    let longer : Log = record l { pending = l.pending ++ c ∷ [] } in
    let kept : (c == 0 || c == 13) ≡ false = ground arith in
    rw (strip-plain c text p.0, kept, put_char-plain l c p.0 (omega arith))
      (append_from-plain fuel longer text (omega arith) p.1
          (omega (arith, length-append l.pending (c ∷ [])))
        ∙ ap (λ (x : List ℕ). some (record l { pending = x }))
            (append_assoc l.pending (c ∷ []) text))

append_from-overruns :
    (fuel : ℕ) (l : Log) (c : ℕ) (text : List ℕ)
    → IsPlain c
    → length l.pending ≡ 511
    → append_from (suc fuel) l (c ∷ text) ≡ none
unfolding append_from
append_from-overruns fuel l c text p full =
    let kept : (c == 0 || c == 13) ≡ false = ground arith in
    rw (strip-plain c text p, kept, put_char-overruns l c full)

-- A formatted text of at least 511 characters, the first 511 of them plain (no NUL, newline,
-- carriage return or escape), fills an empty line; the next call of log_vprintf whose text begins
-- with a plain character writes outside `s_pending_line`.
pub log_vprintf-overruns :
    (l : Log) (first : List ℕ) (c : ℕ) (second : List ℕ)
    → l.pending ≡ []
    → 511 ≤ length first
    → All IsPlain (take 511 first)
    → IsPlain c
    → (log_vprintf l first >>= λ l'. log_vprintf l' (c ∷ second)) ≡ none
unfolding log_vprintf append_formatted_text
log_vprintf-overruns l first c second clear long plain p =
    let line : List ℕ = take 511 first in
    let len : length line ≡ 511 = omega (arith, length-take 511 first) in
    let filled : append_from (length line) l line ≡ some (record l { pending = line }) =
      append_from-plain (length line) l line (omega arith) plain (omega (arith, ap length clear))
      ∙ ap (λ (x : List ℕ). some (record l { pending = x ++ line })) clear in
    rw filled (
      append_from-overruns (length (take 510 second)) (record l { pending = line }) c
        (take 510 second) p len)
