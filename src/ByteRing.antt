-- ===== src/ByteRing.antt =====
-- The ring of text bytes of main/log.c (`append_to_log_buffer_locked`, `log_snapshot`), which
-- main/gnss_uart.c has again for its console, with another size.
pub mod Window
pub mod Contents
mod Tests
use rtkbase.Prelude.{
  ℕ, zero, suc, ◌+◌, ◌-◌, ◌%◌, List, [], ◌∷◌, ◌++◌, ltb, leb, ◌==◌, get_or, set, drop, length,
  if◌then◌else◌,
}

-- The buffer with `s_log_head` and `s_log_used`.
pub record ByteRing : Type 0 where
  pub buf : List ℕ
  pub head : ℕ
  pub used : ℕ

module _ (size : ℕ) where
  -- One round of the copying loop.
  unfoldable pub put_byte : ByteRing → ℕ → ByteRing
  put_byte r b = record {
    buf = set r.buf r.head b;
    head = (r.head + 1) % size;
    used = if ltb r.used size then r.used + 1 else r.used;
  }

  unfoldable pub put_bytes : ByteRing → List ℕ → ByteRing
  put_bytes r [] = r
  put_bytes r (b ∷ rest) = put_bytes (put_byte r b) rest

  -- Of a text that fills the buffer, only the last `size - 1` bytes are taken.
  unfoldable pub clip : List ℕ → List ℕ
  clip text = let len = length text in if leb size len then drop (len - size + 1) text else text

  unfoldable pub append : ByteRing → List ℕ → ByteRing
  unfolding clip
  append r text = put_bytes r (clip text)

  -- `dest[i] = buffer[(start + i) % SIZE]` for `i` below the count.
  unfoldable pub copy_out : List ℕ → ℕ → ℕ → List ℕ
  copy_out buf start zero = []
  copy_out buf start (suc i) = copy_out buf start i ++ get_or buf ((start + i) % size) 0 ∷ []

  -- What is written to `dest`, without the final NUL; its length is the returned count.
  unfoldable pub snapshot : ByteRing → ℕ → List ℕ
  snapshot r dest_size =
      if dest_size == 0
      then []
      else let start = (r.head + size - r.used) % size in
        let to_copy = if ltb r.used (dest_size - 1) then r.used else dest_size - 1 in
        let skip = r.used - to_copy in copy_out r.buf ((start + skip) % size) to_copy
