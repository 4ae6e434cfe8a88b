-- ===== src/ByteRing/Contents.antt =====
-- The ring as a text: it keeps the last `size` bytes of what was appended, and gives them back.
use rtkbase.Prelude.{
  ℕ, suc, ◌+◌, ◌-◌, ◌%◌, ◌<◌, ◌≤◌, ◌≡◌, ap, sym, ◌∙◌, List, [], ◌∷◌, ◌++◌, true, false, arith, set,
  length, length-set, length-append, drop, drop-append, keep_last, keep_last_all, keep_last-append,
  append-nil, append_assoc, ltb, leb, if◌then◌else◌, ◌==◌, dec_lt,
}
use rtkbase.ByteRing.{ByteRing, put_byte, put_bytes, clip, append, snapshot, copy_out}
use rtkbase.ByteRing.Window.{
  window, window_shorter, window-set_head, copy_out-window, mod_cases, length-window,
}

module _ (size : ℕ) where
  pub record IsRing (r : ByteRing) : Type 0 where
    pub length_buf : length r.buf ≡ size
    pub head_in : r.head < size
    pub used_in : r.used ≤ size

  -- The text that the ring holds, oldest byte first.
  unfoldable pub contents : ByteRing → List ℕ
  contents r = window size r.buf r.used r.head

  pub length-contents : (r : ByteRing) → length (contents r) ≡ r.used
  unfolding contents
  length-contents r = length-window size r.buf r.used r.head

  put_byte-IsRing : (r : ByteRing) (b : ℕ) → IsRing r → IsRing (put_byte size r b)
  unfolding put_byte
  put_byte-IsRing r b v = ground (arith, length-set r.buf r.head b)

  put_byte-contents :
      (r : ByteRing) (b : ℕ)
      → IsRing r
      → contents (put_byte size r b) ≡ keep_last size (contents r ++ b ∷ [])
  unfolding contents put_byte
  put_byte-contents r b v = elim (dec_lt r.used size) [
    | yes room ↦
        let e : ltb r.used size ≡ true = ground arith in
        let s : r.used + 1 ≡ suc r.used = omega arith in
        rw (e, s)
          (window-set_head size r.buf r.used r.head b room v.head_in v.length_buf
            ∙ sym (
                keep_last_all size (window size r.buf r.used r.head ++ b ∷ []) (
                  omega (
                    arith,
                    length-append (window size r.buf r.used r.head) (b ∷ []),
                    length-window size r.buf r.used r.head,
                  ))))
    | no full ↦
        let e : ltb r.used size ≡ false = ground arith in
        let s : r.used ≡ suc (size - 1) = omega (arith, v.used_in, v.head_in) in
        let w = window size r.buf r.used r.head in
        let one : r.used - (size - 1) ≡ length (w ++ b ∷ []) - size =
          omega (arith, length-append w (b ∷ []), length-window size r.buf r.used r.head) in
        rw e (
          ap (λ k. window size (set r.buf r.head b) k ((r.head + 1) % size)) s
          ∙ (window-set_head size r.buf (size - 1) r.head b (omega (arith, v.head_in)) v.head_in
                v.length_buf
              ∙ (ap (λ (x : List ℕ). x ++ b ∷ [])
                    (window_shorter size r.buf (size - 1) r.used r.head (omega arith))
                  ∙ (sym (
                        drop-append w (b ∷ []) (r.used - (size - 1))
                          (omega (arith, length-window size r.buf r.used r.head)))
                      ∙ ap (λ k. drop k (w ++ b ∷ [])) one))))
  ]

  put_bytes-IsRing : (text : List ℕ) (r : ByteRing) → IsRing r → IsRing (put_bytes size r text)
  unfolding put_bytes
  put_bytes-IsRing [] r v = v
  put_bytes-IsRing (b ∷ rest) r v =
      put_bytes-IsRing rest (put_byte size r b) (put_byte-IsRing r b v)

  put_bytes-contents :
      (text : List ℕ) (r : ByteRing)
      → IsRing r
      → contents (put_bytes size r text) ≡ keep_last size (contents r ++ text)
  unfolding put_bytes
  put_bytes-contents [] r v = sym (
      ap (keep_last size) (append-nil (contents r))
      ∙ keep_last_all size (contents r) (omega (arith, length-contents r, v.used_in)))
  put_bytes-contents (b ∷ rest) r v =
      put_bytes-contents rest (put_byte size r b) (put_byte-IsRing r b v)
      ∙ (ap (λ (x : List ℕ). keep_last size (x ++ rest)) (put_byte-contents r b v)
          ∙ (keep_last-append size (contents r ++ b ∷ []) rest
              ∙ ap (keep_last size) (append_assoc (contents r) (b ∷ []) rest)))

  pub append-IsRing : (r : ByteRing) (text : List ℕ) → IsRing r → IsRing (append size r text)
  unfolding append
  append-IsRing r text v = put_bytes-IsRing (clip size text) r v

  clip_short : (text : List ℕ) → length text < size → clip size text ≡ text
  unfolding clip
  clip_short text h = let e : leb size (length text) ≡ false = ground arith in rw e

  -- Appending a text shorter than the buffer to a well-formed ring leaves the last `size` bytes of
  -- the old text followed by the new one, in order.
  pub append-contents :
      (r : ByteRing) (text : List ℕ)
      → IsRing r
      → length text < size
      → contents (append size r text) ≡ keep_last size (contents r ++ text)
  unfolding append
  append-contents r text v h = rw (clip_short text h) (put_bytes-contents text r v)

  -- Skipping bytes from the oldest one is starting later.
  skip_start :
      (h u n : ℕ)
      → h < size
      → u ≤ size
      → n ≤ u
      → ((h + size - u) % size + (u - n)) % size ≡ (h + size - n) % size
  skip_start h u n hh hu le =
      let s : ℕ = (h + size - u) % size in
      let first = mod_cases (h + size - u) size (omega arith) (omega arith) in
      omega (
        arith,
        first,
        mod_cases (s + (u - n)) size (omega arith) (omega (arith, first)),
        mod_cases (h + size - n) size (omega arith) (omega arith),
      )

  -- A snapshot of a well-formed ring into a destination of `dest_size` bytes gives the last
  -- `dest_size - 1` bytes of the ring's text, or all of it if it is shorter.
  pub snapshot-contents :
      (r : ByteRing) (dest_size : ℕ)
      → IsRing r
      → 0 < dest_size
      → snapshot size r dest_size ≡ keep_last (dest_size - 1) (contents r)
  unfolding snapshot contents
  snapshot-contents r dest_size v pos =
      let some_room : (dest_size == 0) ≡ false = ground arith in
      let n : ℕ = if ltb r.used (dest_size - 1) then r.used else dest_size - 1 in
      let le : n ≤ r.used = ground arith in
      let drops : r.used - n ≡ r.used - (dest_size - 1) = ground arith in
      let start : ((r.head + size - r.used) % size + (r.used - n)) % size
          ≡ (r.head + size - n) % size =
        skip_start r.head r.used n v.head_in v.used_in le in
      rw some_room (
        ap (λ s. copy_out size r.buf s n) start
        ∙ (copy_out-window size r.buf n r.head (omega (arith, v.used_in)) v.head_in
            ∙ (window_shorter size r.buf n r.used r.head le
                ∙ ap (λ k. drop k (window size r.buf r.used r.head))
                    (omega (arith, length-window size r.buf r.used r.head, drops)))))

  -- A sequence of appends.
  abbrev pub append_all : ByteRing → List (List ℕ) → ByteRing
  append_all r [] = r
  append_all r (text ∷ texts) = append_all (append size r text) texts

  abbrev pub concat : List (List ℕ) → List ℕ
  concat [] = []
  concat (text ∷ texts) = text ++ concat texts

  abbrev pub AllShort : List (List ℕ) → Type 0
  AllShort [] = Unit {0}
  AllShort (text ∷ texts) = (length text < size) × AllShort texts

  append_all-contents :
      (texts : List (List ℕ)) (r : ByteRing)
      → IsRing r
      → AllShort texts
      → IsRing (append_all r texts)
        × (contents (append_all r texts) ≡ keep_last size (contents r ++ concat texts))
  append_all-contents [] r v h = (
    v,
    sym (
        ap (keep_last size) (append-nil (contents r))
        ∙ keep_last_all size (contents r) (omega (arith, length-contents r, v.used_in))),
  )
  append_all-contents (text ∷ texts) r v h =
      let (ok, e) = append_all-contents texts (append size r text) (append-IsRing r text v) h.1 in
      (
        ok,
        e
            ∙ (ap (λ (x : List ℕ). keep_last size (x ++ concat texts))
                  (append-contents r text v h.0)
                ∙ (keep_last-append size (contents r ++ text) (concat texts)
                    ∙ ap (keep_last size) (append_assoc (contents r) text (concat texts)))),
      )

  -- Whatever texts shorter than the buffer are appended to an empty ring, a snapshot then gives the
  -- end of the whole text: its last `dest_size - 1` bytes, of the last `size` that the ring keeps.
  pub snapshot-append_all :
      (buf : List ℕ) (texts : List (List ℕ)) (dest_size : ℕ)
      → length buf ≡ size
      → 0 < size
      → 0 < dest_size
      → AllShort texts
      → snapshot size (append_all (record { buf = buf; head = 0; used = 0 }) texts) dest_size
        ≡ keep_last (dest_size - 1) (keep_last size (concat texts))
  unfolding contents window
  snapshot-append_all buf texts dest_size len pos room short =
      let empty : ByteRing = record { buf = buf; head = 0; used = 0 } in
      let (ok, e) =
        append_all-contents texts empty
          (record { length_buf = len; head_in = pos; used_in = omega arith }) short in
      snapshot-contents (append_all empty texts) dest_size ok room
      ∙ ap (keep_last (dest_size - 1)) e
