-- ===== src/Gnss/Splitter/Roundtrip.antt =====
-- The splitter finds again the frames of a stream that it is in step with.
use rtkbase.Prelude.{
  ℕ, zero, suc, ◌+◌, ◌-◌, ◌*◌, ◌/◌, ◌%◌, ◌^◌, ◌<◌, ◌≤◌, ◌≡◌, ◌≢◌, refl, ap, subst, sym, ◌∙◌, inl,
  inr, List, [], ◌∷◌, ◌++◌, Option, none, some, arith, length, take, All, Option-cases, length-set,
  length-append, get_or-take, take-take, take-set_next, set, append_assoc, append-nil,
  get_or-append, take-of-append,
}
use rtkbase.Gnss.Crc.{crc24q, crc24q-lt}
use rtkbase.Gnss.Splitter.{
  Splitter, hunt, rtcm_hdr, rtcm_body, Event, published, Pushed, byte_at, header_len, received_crc,
  quiet, append_byte, splitter_init, push_hunt, push_hdr, push_body, push_in, splitter_push_byte,
  process_byte, process_step, process_loop, rounds_per_byte, Reader, cursor_at,
  splitter_process_bytes,
}
use rtkbase.Gnss.Splitter.Frames.{IsFrame}

-- Pushing bytes one after the other, where none asks for a replay.
feed : Splitter → List ℕ → List Event → Option Reader
feed s [] ev = some (record { splitter = s; events = ev })
feed s (b ∷ rest) ev = elim (splitter_push_byte s b).replay_start [
  | none ↦ feed (splitter_push_byte s b).splitter rest (ev ++ (splitter_push_byte s b).events)
  | some k ↦ none
]

feed-next :
    (s : Splitter) (b : ℕ) (rest : List ℕ) (ev : List Event) {p : Pushed}
    → splitter_push_byte s b ≡ p
    → p.replay_start ≡ none
    → feed s (b ∷ rest) ev ≡ feed p.splitter rest (ev ++ p.events)
unfolding feed
feed-next s b rest ev {p} e n =
    let n' : (splitter_push_byte s b).replay_start ≡ none =
      ap (λ (q : Pushed). q.replay_start) e ∙ n in
    rw (n', feed) (ap (λ (q : Pushed). feed q.splitter rest (ev ++ q.events)) e)

some_reader : {a b : Reader} → ◌≡◌ {A = Option Reader} (some a) (some b) → a ≡ b
some_reader e = cc

process_loop-feed :
    (bytes : List ℕ) (fuel : ℕ) (s : Splitter) (ev : List Event) (r : Reader)
    → length bytes < fuel
    → feed s bytes ev ≡ some r
    → process_loop fuel (cursor_at (record { splitter = s; events = ev }) bytes)
      ≡ some (cursor_at r [])
unfolding feed process_loop process_step process_byte
process_loop-feed bytes zero s ev r h e = absurd (omega arith)
process_loop-feed [] (suc fuel) s ev r h e =
    ap (λ (x : Reader). some (cursor_at x [])) (some_reader e)
process_loop-feed (b ∷ rest) (suc fuel) s ev r h e =
    elim (Option-cases (splitter_push_byte s b).replay_start) [
      | inl n ↦
          rw (n, process_byte) (process_loop-feed rest fuel _ _ r (omega arith) (rw (n, feed) at e))
      | inr (k, n) ↦ absurd (let no_result : none ≡ some r = rw (n, feed) at e in cc)
    ]

process_bytes-feed :
    (bytes : List ℕ) (r r' : Reader)
    → feed r.splitter bytes r.events ≡ some r'
    → splitter_process_bytes r bytes ≡ some r'
unfolding splitter_process_bytes
process_bytes-feed bytes r r' e = rw (
  process_loop-feed bytes (rounds_per_byte * length bytes + 1) r.splitter r.events r' (omega arith)
      e,
  splitter_process_bytes,
)

push_body-quiet :
    (s : Splitter) (b : ℕ)
    → s.buf_pos < 1029
    → s.buf_pos + 1 ≢ s.rtcm_total_len
    → push_body s b ≡ quiet (append_byte s b)
unfolding push_body
push_body-quiet s b h ne = ground arith

push_body-last :
    (s : Splitter) (b : ℕ)
    → s.buf_pos < 1029
    → s.buf_pos + 1 ≡ s.rtcm_total_len
    → crc24q (take (s.rtcm_total_len - 3) (append_byte s b).buf)
      ≡ received_crc (append_byte s b).buf s.rtcm_total_len
    → push_body s b ≡ record {
      splitter = splitter_init (append_byte s b);
      replay_start = none;
      events = published (take s.rtcm_total_len (append_byte s b).buf) ∷ [];
    }
unfolding push_body
push_body-last s b h last crc = ground arith

-- A splitter in the body of the frame `f`, with the bytes `rest` of it still to come.
record InBody (s : Splitter) (f rest : List ℕ) : Type 0 where
  body : s.state ≡ rtcm_body
  size : length s.buf ≡ 1029
  total : s.rtcm_total_len ≡ length f
  fits : length f ≤ 1029
  split : take s.buf_pos s.buf ++ rest ≡ f
  pos : s.buf_pos + length rest ≡ length f

-- A byte more in the buffer, a byte less to come.
split_next :
    (buf : List ℕ) (n b : ℕ) (rest : List ℕ)
    → n < length buf
    → take (n + 1) (set buf n b) ++ rest ≡ take n buf ++ b ∷ rest
split_next buf n b rest h =
    let e : n + 1 ≡ suc n = omega arith in
    rw (e, take-set_next buf n b h) (append_assoc (take n buf) (b ∷ []) rest)

append-InBody :
    (s : Splitter) (f : List ℕ) (b : ℕ) (rest : List ℕ)
    → InBody s f (b ∷ rest)
    → InBody (append_byte s b) f rest
append-InBody s f b rest v = record {
  body = v.body;
  size = length-set s.buf s.buf_pos b ∙ v.size;
  total = v.total;
  fits = v.fits;
  split = split_next s.buf s.buf_pos b rest (omega (arith, v.pos, v.fits, v.size)) ∙ v.split;
  pos = omega (arith, v.pos);
}

push_in_body : (s : Splitter) (b : ℕ) → s.state ≡ rtcm_body → splitter_push_byte s b ≡ push_body s b
unfolding splitter_push_byte
push_in_body s b e = ap (λ st. push_in st s b) e

-- The checksum test of the last byte, on the buffer that holds the whole frame.
last-checked :
    (f buf : List ℕ) (n : ℕ)
    → IsFrame f
    → n ≡ length f
    → take n buf ≡ f
    → crc24q (take (n - 3) buf) ≡ received_crc buf n
last-checked f buf n v len e =
    let at : (i : ℕ) → i < n → byte_at buf i ≡ byte_at f i =
      λ i h. sym (get_or-take buf n i 0 h) ∙ ap (λ (x : List ℕ). byte_at x i) e in
    let front : take (n - 3) buf ≡ take (n - 3) f =
      sym (take-take buf (n - 3) n (omega arith)) ∙ ap (take (n - 3)) e in
    let whole : crc24q (take (n - 3) f) ≡ received_crc f n =
      subst (λ k. crc24q (take (k - 3) f) ≡ received_crc f k) (sym len) v.checked in
    rw front (
      omega (
        arith,
        whole,
        v.sized,
        at (n - 3) (omega (arith, v.sized)),
        at (n - 2) (omega (arith, v.sized)),
        at (n - 1) (omega (arith, v.sized)),
      ))

-- The rest of a frame is taken in, and the frame is published.
feed_body :
    (rest : List ℕ) (s : Splitter) (f : List ℕ) (b : ℕ) (ev : List Event)
    → IsFrame f
    → InBody s f (b ∷ rest)
    → (s' : Splitter) × (s'.state ≡ hunt)
      × (length s'.buf ≡ 1029)
      × (feed s (b ∷ rest) ev ≡ some (record { splitter = s'; events = ev ++ published f ∷ [] }))
unfolding feed splitter_init
feed_body [] s f b ev v w =
    let t = append_byte s b in
    let next = append-InBody s f b [] w in
    let n = s.rtcm_total_len in
    let len : s.buf_pos + 1 ≡ n = omega (arith, w.pos, w.total) in
    let taken : take n t.buf ≡ f =
      subst (λ k. take k t.buf ≡ f) len (sym (append-nil _) ∙ next.split) in
    (
      splitter_init t,
      refl,
      next.size,
      feed-next s b [] ev
            (push_in_body s b w.body
              ∙ push_body-last s b (omega (arith, w.pos, w.fits)) len
                  (last-checked f t.buf n v w.total taken))
            refl
          ∙ ap
              (λ (x : List ℕ).
                some (record { splitter = splitter_init t; events = ev ++ published x ∷ [] }))
              taken,
    )
feed_body (c ∷ rest) s f b ev v w =
    let (s', h, len, run) =
      feed_body rest (append_byte s b) f c (ev ++ []) v (append-InBody s f b (c ∷ rest) w) in
    (
      s',
      h,
      len,
      feed-next s b (c ∷ rest) ev
            (push_in_body s b w.body
              ∙ push_body-quiet s b (omega (arith, w.pos, w.fits)) (omega (arith, w.pos, w.total)))
            refl
          ∙ (run
              ∙ ap (λ e. some (record { splitter = s'; events = e ++ published f ∷ [] }))
                  (append-nil ev)),
    )

-- The buffer after a header.
header_buf : List ℕ → ℕ → ℕ → ℕ → List ℕ
header_buf buf x y z = set (set (set buf 0 x) 1 y) 2 z

take-header_buf :
    (buf : List ℕ) (x y z : ℕ) → 3 ≤ length buf → take 3 (header_buf buf x y z) ≡ x ∷ y ∷ z ∷ []
unfolding header_buf
take-header_buf [] x y z h = absurd (omega arith)
take-header_buf (a ∷ []) x y z h = absurd (omega arith)
take-header_buf (a ∷ b ∷ []) x y z h = absurd (omega arith)
take-header_buf (a ∷ b ∷ c ∷ buf) x y z h = refl

length-header_buf : (buf : List ℕ) (x y z : ℕ) → length (header_buf buf x y z) ≡ length buf
unfolding header_buf
length-header_buf buf x y z = omega (
  arith,
  length-set (set (set buf 0 x) 1 y) 2 z,
  length-set (set buf 0 x) 1 y,
  length-set buf 0 x,
)

header_len-header_buf :
    (buf : List ℕ) (x y z : ℕ)
    → 3 ≤ length buf
    → header_len (header_buf buf x y z) ≡ y % 4 * 256 + z
unfolding header_buf
header_len-header_buf [] x y z h = absurd (omega arith)
header_len-header_buf (a ∷ []) x y z h = absurd (omega arith)
header_len-header_buf (a ∷ b ∷ []) x y z h = absurd (omega arith)
header_len-header_buf (a ∷ b ∷ c ∷ buf) x y z h = refl

-- The splitter after the first, the second and the third byte of a header.
after_one : Splitter → ℕ → Splitter
after_one s x = record s { buf = set s.buf 0 x; buf_pos = 1; state = rtcm_hdr }

after_three : Splitter → ℕ → ℕ → ℕ → Splitter
after_three s x y z = record s {
  buf = header_buf s.buf x y z;
  buf_pos = 3;
  rtcm_payload_len = y % 4 * 256 + z;
  rtcm_total_len = 3 + (y % 4 * 256 + z) + 3;
  state = rtcm_body;
}

push_first :
    (s : Splitter) (x : ℕ)
    → s.state ≡ hunt
    → x ≡ 0xd3
    → splitter_push_byte s x ≡ quiet (after_one s x)
unfolding splitter_push_byte push_hunt after_one
push_first s x e pre = ap (λ st. push_in st s x) e ∙ ground arith

push_second :
    (s : Splitter) (x y : ℕ)
    → splitter_push_byte (after_one s x) y ≡ quiet (append_byte (after_one s x) y)
unfolding splitter_push_byte push_hdr after_one
push_second s x y = refl

push_third :
    (s : Splitter) (x y z : ℕ)
    → 3 ≤ length s.buf
    → 1 ≤ y % 4 * 256 + z
    → y % 4 * 256 + z ≤ 1023
    → splitter_push_byte (append_byte (after_one s x) y) z ≡ quiet (after_three s x y z)
unfolding splitter_push_byte push_hdr after_one after_three header_buf
push_third s x y z h pos small = ground (arith, header_len-header_buf s.buf x y z h)

-- A splitter that hunts takes in one frame and publishes it.
feed_frame :
    (f : List ℕ) (s : Splitter) (ev : List Event)
    → s.state ≡ hunt
    → length s.buf ≡ 1029
    → IsFrame f
    → (s' : Splitter) × (s'.state ≡ hunt)
      × (length s'.buf ≡ 1029)
      × (feed s f ev ≡ some (record { splitter = s'; events = ev ++ published f ∷ [] }))
unfolding after_three
feed_frame [] s ev h size v = absurd (omega (arith, v.sized))
feed_frame (x ∷ []) s ev h size v = absurd (omega (arith, v.sized))
feed_frame (x ∷ y ∷ []) s ev h size v = absurd (omega (arith, v.sized))
feed_frame (x ∷ y ∷ z ∷ []) s ev h size v = absurd (omega (arith, v.sized))
feed_frame (x ∷ y ∷ z ∷ b ∷ rest) s ev h size v =
    let inside : InBody (after_three s x y z) (x ∷ y ∷ z ∷ b ∷ rest) (b ∷ rest) = record {
      body = refl;
      size = length-header_buf s.buf x y z ∙ size;
      total = omega (arith, v.sized);
      fits = omega (arith, v.sized, v.small);
      split = ap (λ p. p ++ b ∷ rest) (take-header_buf s.buf x y z (omega arith));
      pos = omega arith;
    } in
    let (s', h', len, run) =
      feed_body rest (after_three s x y z) (x ∷ y ∷ z ∷ b ∷ rest) b (((ev ++ []) ++ []) ++ []) v
        inside in
    (
      s',
      h',
      len,
      feed-next s x (y ∷ z ∷ b ∷ rest) ev (push_first s x h v.preamble) refl
          ∙ (feed-next (after_one s x) y (z ∷ b ∷ rest) (ev ++ []) (push_second s x y) refl
              ∙ (feed-next (append_byte (after_one s x) y) z (b ∷ rest) ((ev ++ []) ++ [])
                    (push_third s x y z (omega arith) v.nonempty v.small) refl
                  ∙ (run ∙ simp append-nil))),
    )

-- Bytes among which a frame cannot begin, such as the receiver's text.
abbrev pub IsNoise : List ℕ → Type 0
IsNoise noise = All (λ b. b ≢ 0xd3) noise

feed_noise :
    (noise : List ℕ) (s : Splitter) (rest : List ℕ) (ev : List Event)
    → s.state ≡ hunt
    → IsNoise noise
    → feed s (noise ++ rest) ev ≡ feed s rest ev
unfolding splitter_push_byte push_hunt
feed_noise [] s rest ev h quiet_bytes = refl
feed_noise (b ∷ noise) s rest ev h quiet_bytes =
    let ignored : splitter_push_byte s b ≡ quiet s =
      ap (λ st. push_in st s b) h ∙ ground (arith, quiet_bytes.0) in
    feed-next s b (noise ++ rest) ev ignored refl
    ∙ (rw (append-nil ev) (feed_noise noise s rest ev h quiet_bytes.1))

feed-append :
    (xs ys : List ℕ) (s : Splitter) (ev : List Event) (r : Reader)
    → feed s xs ev ≡ some r
    → feed s (xs ++ ys) ev ≡ feed r.splitter ys r.events
unfolding feed
feed-append [] ys s ev r e = ap (λ (x : Reader). feed x.splitter ys x.events) (some_reader e)
feed-append (b ∷ xs) ys s ev r e = elim (Option-cases (splitter_push_byte s b).replay_start) [
  | inl n ↦ rw (n, feed) (feed-append xs ys _ _ r (rw (n, feed) at e))
  | inr (k, n) ↦ absurd (let no_result : none ≡ some r = rw (n, feed) at e in cc)
]

-- A stream: frames, with noise before each.
abbrev pub Stream : Type 0
Stream = List (List ℕ × List ℕ)

abbrev pub stream_bytes : Stream → List ℕ
stream_bytes [] = []
stream_bytes ((noise, f) ∷ rest) = noise ++ (f ++ stream_bytes rest)

abbrev pub stream_events : Stream → List Event
stream_events [] = []
stream_events ((noise, f) ∷ rest) = published f ∷ stream_events rest

abbrev pub IsStream : Stream → Type 0
IsStream [] = Unit {0}
IsStream ((noise, f) ∷ rest) = IsNoise noise × IsFrame f × IsStream rest

feed_stream :
    (st : Stream) (s : Splitter) (ev : List Event)
    → s.state ≡ hunt
    → length s.buf ≡ 1029
    → IsStream st
    → (s' : Splitter) × (s'.state ≡ hunt)
      × (feed s (stream_bytes st) ev
          ≡ some (record { splitter = s'; events = ev ++ stream_events st }))
unfolding feed
feed_stream [] s ev h size v = (s, h, simp append-nil)
feed_stream ((noise, f) ∷ rest) s ev h size v =
    let (t, ht, len, run) = feed_frame f s ev h size v.1 in
    let (s', h', go) = feed_stream rest t (ev ++ published f ∷ []) ht len v.2 in
    (
      s',
      h',
      feed_noise noise s (f ++ stream_bytes rest) ev h v.0
          ∙ (feed-append f (stream_bytes rest) s ev _ run ∙ (go ∙ simp append_assoc)),
    )

-- A splitter that hunts for a frame and is given well-formed frames, each after any bytes other than
-- the preamble, reports exactly these frames, in order, and no error, and hunts again afterwards.
pub splitter_process_bytes-stream :
    (st : Stream) (r : Reader)
    → r.splitter.state ≡ hunt
    → length r.splitter.buf ≡ 1029
    → IsStream st
    → (r' : Reader) × (splitter_process_bytes r (stream_bytes st) ≡ some r')
      × (r'.events ≡ r.events ++ stream_events st)
      × (r'.splitter.state ≡ hunt)
splitter_process_bytes-stream st r h size v =
    let (s', h', run) = feed_stream st r.splitter r.events h size v in
    (_, process_bytes-feed (stream_bytes st) r _ run, refl, h')

-- The bytes of a frame before its checksum.
frame_body : List ℕ → List ℕ
frame_body payload = 0xd3 ∷ length payload / 256 ∷ length payload % 256 ∷ payload

crc_bytes : ℕ → List ℕ
crc_bytes c = (c / 2 ^ 16) ∷ (c / 2 ^ 8 % 256) ∷ (c % 256) ∷ []

-- A frame around a payload.
unfoldable pub encode : List ℕ → List ℕ
unfolding frame_body crc_bytes
encode payload = frame_body payload ++ crc_bytes (crc24q (frame_body payload))

received-crc_bytes :
    (body : List ℕ) (c n : ℕ)
    → n ≡ length body + 3
    → c < 2 ^ 24
    → (take (n - 3) (body ++ crc_bytes c) ≡ body) × (received_crc (body ++ crc_bytes c) n ≡ c)
unfolding crc_bytes
received-crc_bytes body c n e h =
    let at : (i j : ℕ)
        → i ≡ length body + j
        → byte_at (body ++ crc_bytes c) i ≡ byte_at (crc_bytes c) j =
      λ i j p. get_or-append body (crc_bytes c) i j 0 p in
    let front : n - 3 ≡ length body = omega arith in
    (
      rw front (take-of-append body (crc_bytes c)),
      omega (
        arith,
        at (n - 3) 0 (omega arith),
        at (n - 2) 1 (omega arith),
        at (n - 1) 2 (omega arith),
      ),
    )

-- Encoding a payload of 1 to 1023 bytes as RTCM3 prescribes gives a frame that the splitter takes.
pub encode-IsFrame :
    (payload : List ℕ) → 1 ≤ length payload → length payload ≤ 1023 → IsFrame (encode payload)
unfolding encode
encode-IsFrame payload pos small =
    let body = frame_body payload in
    let c : ℕ = crc24q body in
    let n : ℕ = length (encode payload) in
    let len : n ≡ length body + 3 = length-append body (crc_bytes c) in
    let (front, back) = received-crc_bytes body c n len (crc24q-lt body) in
    record {
      preamble = refl;
      sized = omega (arith, len);
      nonempty = omega arith;
      small = omega arith;
      checked = ap crc24q front ∙ sym back;
    }
