-- ===== src/Log.antt =====
-- main/log.c: the web log. Formatted text is cut into lines, stripped of colour codes, filtered, and
-- kept in a ring. A write outside an array is `none`.
pub mod Overrun
mod Tests
use rtkbase.Prelude.{
  ◌>>=◌, ℕ, zero, suc, ◌+◌, ◌-◌, Bool, true, false, ◌&&◌, ◌||◌, List, [], ◌∷◌, ◌++◌, Option, none,
  some, ◌==◌, ltb, leb, length, take, replicate, if◌then◌else◌,
}
use rtkbase.ByteRing.{ByteRing, append, snapshot}
use rtkbase.CText.{codes, contains, starts_with}

abbrev pub web_log_buffer_size : ℕ
web_log_buffer_size = 16384

abbrev pub web_log_line_size : ℕ
web_log_line_size = 512

-- The ring, and the bytes of `s_pending_line` below `s_pending_len`.
pub record Log : Type 0 where
  pub ring : ByteRing
  pub pending : List ℕ

-- The inner loop of the escape skipping: up to and with the final byte, in '@' to '~'.
unfoldable pub skip_params : List ℕ → List ℕ
skip_params [] = []
skip_params (c ∷ text) = if ltb c b'@' || ltb b'~' c then skip_params text else text

-- Where a text begins with ESC and '[', what follows these two.
unfoldable pub after_escape : List ℕ → Option (List ℕ)
after_escape [] = none
after_escape (c ∷ []) = none
after_escape (c ∷ d ∷ text) = if c == 27 && d == b'[' then some text else none

-- The loop over escapes; each takes up at least two characters, so the length is enough fuel.
unfoldable pub skip_escapes : ℕ → List ℕ → List ℕ
skip_escapes zero text = text
skip_escapes (suc fuel) text = elim (after_escape text) [
  | none ↦ text
  | some rest ↦ skip_escapes fuel (skip_params rest)
]

unfoldable pub skip_ansi_escape : List ℕ → List ℕ
unfolding skip_escapes skip_params after_escape
skip_ansi_escape text = skip_escapes (length text) text

-- One step of the cursor at `c ∷ text`: the character, 0 for an escape sequence, and the rest.
unfoldable pub strip_ansi_escape : ℕ → List ℕ → ℕ × List ℕ
unfolding skip_params after_escape
strip_ansi_escape c text = elim (after_escape (c ∷ text)) [
  | none ↦ (c, text)
  | some rest ↦ (0, skip_params rest)
]

-- The level letter and the space that `should_store_line` looks for.
abbrev level_is : ℕ → List ℕ → Bool
level_is l [] = false
level_is l (c ∷ []) = false
level_is l (c ∷ d ∷ text) = c == l && d == b' '

unfoldable pub should_store_line : List ℕ → Bool
unfolding skip_ansi_escape contains
should_store_line raw =
    let line = skip_ansi_escape raw in
    if level_is b'W' line || level_is b'E' line
    then true
    else level_is b'I' line
      && (contains line (codes " MAIN: Reset reason:")
          || contains line (codes " MAIN: OTA image marked valid")
          || contains line (codes " TIME: Time synchronized:")
          || contains line (codes " WIFI: IP_EVENT_STA_GOT_IP:")
          || contains line (codes " WIFI: IP_EVENT_STA_LOST_IP")
          || contains line (codes " WIFI: WIFI_EVENT_STA_DISCONNECTED:")
          || contains line (codes " WIFI: WIFI_EVENT_AP_STACONNECTED:")
          || contains line (codes " WIFI: WIFI_EVENT_AP_STADISCONNECTED:")
          || contains line (codes " WIFI: IP_EVENT_AP_STAIPASSIGNED:")
          || (contains line (codes " TCP_SERVER: [sock=")
              && (contains line (codes "Connection accepted")
                  || contains line (codes "Connection closed by peer")
                  || contains line (codes "Client disconnected by web request")))
          || contains line (codes " NTRIP_CASTER: NTRIP server listening")
          || (contains line (codes " NTRIP_CASTER: Rover ")
              && (contains line (codes " connecting from ")
                  || contains line (codes " accepted on ")
                  || contains line (codes " disconnected: ")))
          || (contains line (codes " NTRIP_CLIENT: [") && contains line (codes " Connected to ")))

-- The loop of `sanitize_line` over the characters left, with `clean` so far.
unfoldable pub clean_from : ℕ → List ℕ → List ℕ → List ℕ
clean_from zero cursor clean = clean
clean_from (suc fuel) [] clean = clean
clean_from (suc fuel) (c ∷ text) clean =
    let (d, rest) = strip_ansi_escape c text in
    let next = clean_from fuel rest (if d == 0 || d == 13 then clean else clean ++ d ∷ []) in
    if ltb (length clean + 1) web_log_line_size then next else clean

abbrev pub ends_in_newline : List ℕ → Bool
ends_in_newline [] = false
ends_in_newline (c ∷ []) = c == 10
ends_in_newline (c ∷ d ∷ text) = ends_in_newline (d ∷ text)

unfoldable pub sanitize_line : List ℕ → List ℕ
unfolding clean_from strip_ansi_escape
sanitize_line line =
    let clean = clean_from (length line) line [] in
    if ends_in_newline clean
    then clean
    else if ltb (length clean + 1) web_log_line_size
    then clean ++ 10 ∷ []
    else clean

-- `append_to_log_buffer_locked`.
unfoldable pub append_to_log_buffer : ByteRing → List ℕ → ByteRing
append_to_log_buffer r text = append web_log_buffer_size r text

-- `store_pending_line_locked`: it first writes a NUL at `s_pending_line[s_pending_len]`.
unfoldable pub store_pending_line : Log → Option Log
unfolding append_to_log_buffer
store_pending_line l =
    let clean = sanitize_line l.pending in
    if length l.pending == 0
    then some l
    else if ltb (length l.pending) web_log_line_size
    then some (record {
      ring = if should_store_line clean then append_to_log_buffer l.ring clean else l.ring;
      pending = [];
    })
    else none

-- `s_pending_line[s_pending_len++] = c`.
unfoldable pub put_pending : Log → ℕ → Option Log
put_pending l c =
    if ltb (length l.pending) web_log_line_size
    then some (record l { pending = l.pending ++ c ∷ [] })
    else none

-- The flush of an overlong line, before the next character.
unfoldable pub make_room : Log → Option Log
make_room l =
    if leb web_log_line_size (length l.pending + 1)
    then (do l' ← put_pending l 10; store_pending_line l')
    else some l

-- One character that is neither an escape nor a carriage return.
unfoldable pub put_char : Log → ℕ → Option Log
put_char l c = do
  roomy ← make_room l
  longer ← put_pending roomy c
  if c == 10 then store_pending_line longer else some longer

-- `append_formatted_text` with what is left of the text; the length is enough fuel.
unfoldable pub append_from : ℕ → Log → List ℕ → Option Log
append_from zero l text = some l
append_from (suc fuel) l [] = some l
append_from (suc fuel) l (c ∷ text) =
    let (d, rest) = strip_ansi_escape c text in
    let skipped = append_from fuel l rest in
    let taken = (put_char l d >>= λ l'. append_from fuel l' rest) in
    if d == 0 || d == 13 then skipped else taken

unfoldable pub append_formatted_text : Log → List ℕ → Option Log
append_formatted_text l text = append_from (length text) l text

-- `log_vprintf` after the formatting: `vsnprintf` has cut the text at 511 characters.
unfoldable pub log_vprintf : Log → List ℕ → Option Log
log_vprintf l formatted = append_formatted_text l (take (web_log_line_size - 1) formatted)

unfoldable pub log_snapshot : Log → ℕ → List ℕ
log_snapshot l dest_size = snapshot web_log_buffer_size l.ring dest_size
