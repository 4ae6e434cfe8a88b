-- ===== src/Gnss/Splitter/Inv.antt =====
-- The splitter's invariant: what each state has collected, and that no write leaves the buffer.
use rtkbase.Prelude.{
  ℕ, zero, suc, ◌+◌, ◌<◌, ◌≤◌, ◌≡◌, refl, subst, List, [], ◌∷◌, Option, none, some, arith, set,
  length, length-set, get_or-set_self, get_or-set_ne, All,
}
use rtkbase.Gnss.Splitter.{
  SplitterState, hunt, rtcm_hdr, rtcm_body, Splitter, Pushed, byte_at, push_hunt, push_hdr,
  push_body, push_in, header_len, splitter_push_byte,
}

abbrev pub IsByte : ℕ → Type 0
IsByte b = b < 256

pub IsByte-set : (buf : List ℕ) (i b : ℕ) → All IsByte buf → IsByte b → All IsByte (set buf i b)
IsByte-set [] i b h hb = tt
IsByte-set (x ∷ xs) zero b h hb = (hb, h.1)
IsByte-set (x ∷ xs) (suc i) b h hb = (h.0, IsByte-set xs i b h.1 hb)

pub byte_at-lt : (buf : List ℕ) (i : ℕ) → All IsByte buf → byte_at buf i < 256
byte_at-lt [] i h = omega arith
byte_at-lt (x ∷ xs) zero h = h.0
byte_at-lt (x ∷ xs) (suc i) h = byte_at-lt xs i h.1

pub byte_at-set_self : (buf : List ℕ) (i b : ℕ) → i < length buf → byte_at (set buf i b) i ≡ b
byte_at-set_self buf i b h = get_or-set_self buf i b 0 h

pub byte_at-set_lt : (buf : List ℕ) (i j b : ℕ) → j < i → byte_at (set buf i b) j ≡ byte_at buf j
byte_at-set_lt buf i j b h = get_or-set_ne buf i j b 0 (λ e. omega arith)

-- What has been collected in each state.
abbrev pub Collected : SplitterState → Splitter → Type 0
Collected hunt s = s.buf_pos ≡ 0
Collected rtcm_hdr s = (1 ≤ s.buf_pos) × (s.buf_pos < 3) × (byte_at s.buf 0 ≡ 0xd3)
Collected rtcm_body s =
    (3 ≤ s.buf_pos)
    × (s.buf_pos < s.rtcm_total_len)
    × (s.rtcm_total_len ≡ s.rtcm_payload_len + 6)
    × (1 ≤ s.rtcm_payload_len)
    × (s.rtcm_payload_len ≤ 1023)
    × (s.rtcm_payload_len ≡ header_len s.buf)
    × (byte_at s.buf 0 ≡ 0xd3)

pub record IsValid (s : Splitter) : Type 0 where
  pub size : length s.buf ≡ 1029
  pub bytes : All IsByte s.buf
  pub collected : Collected s.state s

-- What a push that asks for a replay leaves behind.
pub record CanReplay (s : Splitter) : Type 0 where
  pub size : length s.buf ≡ 1029
  pub bytes : All IsByte s.buf
  pub some_bytes : 3 ≤ s.buf_pos
  pub fits : s.buf_pos ≤ 1029

-- The outcome of a push from position `pos`.
abbrev pub Outcome : ℕ → Pushed → Option ℕ → Type 0
Outcome pos p none = IsValid p.splitter × (p.splitter.buf_pos ≤ pos + 1)
Outcome pos p (some k) = (k ≡ 1) × CanReplay p.splitter × (p.splitter.buf_pos ≡ pos + 1)

push_hunt-Outcome :
    (s : Splitter) (b : ℕ)
    → s.state ≡ hunt
    → IsByte b
    → IsValid s
    → let p = push_hunt s b in Outcome s.buf_pos p p.replay_start
unfolding push_hunt
push_hunt-Outcome s b e hb v =
    let zero_pos : s.buf_pos ≡ 0 = subst (λ st. Collected st s) e v.collected in
    ground
      (arith, length-set s.buf 0 b, IsByte-set s.buf 0 b v.bytes hb, byte_at-set_self s.buf 0 b)

push_hdr-Outcome :
    (s : Splitter) (b : ℕ)
    → length s.buf ≡ 1029
    → All IsByte s.buf
    → Collected rtcm_hdr s
    → s.state ≡ rtcm_hdr
    → IsByte b
    → let p = push_hdr s b in Outcome s.buf_pos p p.replay_start
unfolding push_hdr
push_hdr-Outcome s b size bytes c e hb = ground (
  arith,
  length-set s.buf s.buf_pos b,
  IsByte-set s.buf s.buf_pos b bytes hb,
  byte_at-set_lt s.buf s.buf_pos 0 b,
  byte_at-lt (set s.buf s.buf_pos b) 2 (IsByte-set s.buf s.buf_pos b bytes hb),
)

push_body-Outcome :
    (s : Splitter) (b : ℕ)
    → length s.buf ≡ 1029
    → All IsByte s.buf
    → Collected rtcm_body s
    → s.state ≡ rtcm_body
    → IsByte b
    → let p = push_body s b in Outcome s.buf_pos p p.replay_start
unfolding push_body
push_body-Outcome s b size bytes c e hb = ground (
  arith,
  length-set s.buf s.buf_pos b,
  IsByte-set s.buf s.buf_pos b bytes hb,
  byte_at-set_lt s.buf s.buf_pos 0 b,
  byte_at-set_lt s.buf s.buf_pos 1 b,
  byte_at-set_lt s.buf s.buf_pos 2 b,
)

push_in-Outcome :
    (st : SplitterState) (s : Splitter) (b : ℕ)
    → s.state ≡ st
    → IsByte b
    → IsValid s
    → let p = push_in st s b in Outcome s.buf_pos p p.replay_start
push_in-Outcome hunt s b e hb v = push_hunt-Outcome s b e hb v
push_in-Outcome rtcm_hdr s b e hb v =
    push_hdr-Outcome s b v.size v.bytes (subst (λ st. Collected st s) e v.collected) e hb
push_in-Outcome rtcm_body s b e hb v =
    push_body-Outcome s b v.size v.bytes (subst (λ st. Collected st s) e v.collected) e hb

-- From a valid splitter, a byte gives a valid splitter one byte further at most; or it asks for a
-- replay from index 1 with at least three bytes collected, all inside the buffer.
pub splitter_push_byte-Outcome :
    (s : Splitter) (b : ℕ)
    → IsValid s
    → IsByte b
    → let p = splitter_push_byte s b in Outcome s.buf_pos p p.replay_start
unfolding splitter_push_byte
splitter_push_byte-Outcome s b v hb = push_in-Outcome s.state s b refl hb v
