-- ===== src/Gnss/Console.antt =====
-- The receiver console of main/gnss_uart.c: text lines picked out of the byte stream, kept in one of
-- two rings. A write outside an array is `none`.
pub mod Lines
pub mod Consume
pub mod Tests
use rtkbase.Prelude.{
  ◌>>=◌, ℕ, zero, suc, ◌+◌, ◌-◌, ◌%◌, Bool, true, false, not, ◌&&◌, ◌||◌, List, [], ◌∷◌, ◌++◌,
  Option, none, some, ◌==◌, ltb, leb, length, if◌then◌else◌,
}
use rtkbase.ByteRing.{ByteRing, append, snapshot, copy_out}
use rtkbase.CText.{codes, same_text_nocase, starts_with_nocase}

abbrev pub gnss_console_buffer_size : ℕ
gnss_console_buffer_size = 8192

abbrev pub gnss_console_line_size : ℕ
gnss_console_line_size = 256

-- `ring` is `s_console_buffers[s_console_active_buffer]` with head and fill, `spare` the other
-- buffer, `line` the bytes of `s_console_line` below `s_console_line_len`.
pub record Console : Type 0 where
  pub ring : ByteRing
  pub spare : List ℕ
  pub line : List ℕ
  pub line_binary : Bool
  pub suppress_until : ℕ

-- `strrchr(line, c)`: what follows the last `c`.
unfoldable pub strrchr : List ℕ → ℕ → Option (List ℕ)
strrchr [] c = none
strrchr (b ∷ line) c = elim (strrchr line c) [
  | none ↦ if b == c then some line else none
  | some rest ↦ some rest
]

unfoldable pub isxdigit : ℕ → Bool
isxdigit c = leb b'0' c && leb c b'9' || leb b'A' c && leb c b'F' || leb b'a' c && leb c b'f'

unfoldable pub isprint : ℕ → Bool
isprint c = leb 32 c && leb c 126

unfoldable pub every : (ℕ → Bool) → List ℕ → Bool
every p [] = true
every p (c ∷ line) = p c && every p line

unfoldable pub console_has_checksum_suffix : List ℕ → Bool
unfolding strrchr isxdigit every
console_has_checksum_suffix line = elim (strrchr line b'*') [
  | none ↦ false
  | some suffix ↦
      not (length suffix + 1 == length line)
      && (length suffix == 2 || length suffix == 8)
      && every isxdigit suffix
]

unfoldable pub skip_blanks : List ℕ → List ℕ
skip_blanks [] = []
skip_blanks (c ∷ line) = if c == 32 || c == 9 then skip_blanks line else c ∷ line

abbrev begins_with : ℕ → List ℕ → Bool
begins_with c [] = false
begins_with c (b ∷ line) = b == c

unfoldable pub console_line_interesting : List ℕ → Bool
unfolding skip_blanks every isprint console_has_checksum_suffix same_text_nocase starts_with_nocase
console_line_interesting raw =
    let line = skip_blanks raw in
    if length line == 0
    then false
    else if not (every (λ c. isprint c || c == 9) line)
    then false
    else if begins_with b'$' line || begins_with b'#' line
    then console_has_checksum_suffix line
    else same_text_nocase line (codes "OK")
      || starts_with_nocase (codes "ERR") line
      || starts_with_nocase (codes "ERROR") line
      || starts_with_nocase (codes "WARNING") line

unfoldable pub console_is_likely_line_start : ℕ → Bool
console_is_likely_line_start b =
    b == b'$'
    || b == b'#'
    || b == b'O'
    || b == b'o'
    || b == b'E'
    || b == b'e'
    || b == b'W'
    || b == b'w'

-- `console_append_locked`.
unfoldable pub console_append : Console → List ℕ → Console
console_append c text = record c { ring = append gnss_console_buffer_size c.ring text }

abbrev with_line : Console → List ℕ → Bool → Console
with_line c text binary = record c { line = text; line_binary = binary }

-- `console_store_line_locked`: it writes a NUL at `s_console_line[s_console_line_len]`.
unfoldable pub console_store_line : Console → Option Console
unfolding console_append
console_store_line c =
    if length c.line == 0
    then some c
    else if ltb (length c.line) gnss_console_line_size
    then some (
        with_line
          (if not c.line_binary && console_line_interesting c.line
            then console_append (console_append c c.line) (10 ∷ [])
            else c)
          [] false)
    else none

-- `s_console_line[s_console_line_len++] = b`.
unfoldable pub put_line : Console → ℕ → Option Console
put_line c b =
    if ltb (length c.line) gnss_console_line_size
    then some (with_line c (c.line ++ b ∷ []) c.line_binary)
    else none

-- A text byte of a text line: a full line is stored first.
unfoldable pub push_text : Console → ℕ → Option Console
push_text c b = do
  roomy ← (if leb gnss_console_line_size (length c.line + 1) then console_store_line c else some c)
  put_line roomy b

-- One round of the loop of `console_push_bytes`.
unfoldable pub console_push_byte : Console → ℕ → Option Console
unfolding console_is_likely_line_start
console_push_byte c b =
    if b == 13 || b == 10
    then console_store_line c
    else if b == 9 || (leb 0x20 b && leb b 0x7e)
    then if c.line_binary
      then (if not (console_is_likely_line_start b)
          then some c
          else push_text (with_line c [] false) b)
      else push_text c b
    else some (with_line c [] true)

unfoldable pub push_each : Console → List ℕ → Option Console
push_each c [] = some c
push_each c (b ∷ bytes) = console_push_byte c b >>= λ c'. push_each c' bytes

-- `now` is `esp_timer_get_time()`, in microseconds.
unfoldable pub console_push_bytes : Console → ℕ → List ℕ → Option Console
console_push_bytes c now bytes =
    let pushed = push_each c bytes in
    if not (c.suppress_until == 0) && ltb now c.suppress_until
    then some (with_line c [] false)
    else pushed

unfoldable pub gnss_uart_console_snapshot : Console → ℕ → List ℕ
gnss_uart_console_snapshot c dest_size = snapshot gnss_console_buffer_size c.ring dest_size

-- What `gnss_uart_console_consume` does in its critical section: the buffers change places; the
-- start and the count of the bytes to copy are kept for the second part.
unfoldable pub consume_begin : Console → ℕ → Console × (ℕ × ℕ)
consume_begin c dest_size =
    let size = gnss_console_buffer_size in
    let start = (c.ring.head + size - c.ring.used) % size in
    let to_copy = if ltb c.ring.used (dest_size - 1) then c.ring.used else dest_size - 1 in
    let skip = c.ring.used - to_copy in
    (
      record c { ring = record { buf = c.spare; head = 0; used = 0 }; spare = c.ring.buf },
      ((start + skip) % size, to_copy),
    )

-- The copying after the critical section, from the buffer that was active.
unfoldable pub consume_copy : Console → ℕ × ℕ → List ℕ
consume_copy c span = copy_out gnss_console_buffer_size c.spare span.0 span.1

unfoldable pub gnss_uart_console_clear : Console → ℕ → Console
gnss_uart_console_clear c now = record {
  ring = record { buf = c.ring.buf; head = 0; used = 0 };
  spare = c.spare;
  line = [];
  line_binary = false;
  suppress_until = now + 500000;
}

-- `gnss_uart_console_consume` with nothing between its two parts.
unfoldable pub gnss_uart_console_consume : Console → ℕ → Console × List ℕ
unfolding consume_begin consume_copy
gnss_uart_console_consume c dest_size =
    let (c', span) = consume_begin c dest_size in
    if dest_size == 0 then (c, []) else (c', consume_copy c' span)
