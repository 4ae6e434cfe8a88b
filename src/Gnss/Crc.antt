-- ===== src/Gnss/Crc.antt =====
-- main/gnss_uart.c: `crc24q`, the checksum of RTCM3 frames.
use Prim.Native.Nat.{bit_xor}
use rtkbase.Prelude.{
  ℕ, zero, suc, ◌*◌, ◌/◌, ◌%◌, ◌^◌, ◌<◌, ◌≡◌, refl, List, [], ◌∷◌, arith, ◌==◌, if◌then◌else◌,
}

abbrev pub crc24q_poly : ℕ
crc24q_poly = 0x1864cfb

-- `crc <<= 1; if (crc & 0x1000000) crc ^= CRC24Q_POLY;` on an `uint32_t`.
crc24q_bit : ℕ → ℕ
crc24q_bit crc =
    let c = crc * 2 % 2 ^ 32 in if c / 2 ^ 24 % 2 == 1 then bit_xor c crc24q_poly else c

-- The inner loop, for the rounds that are left.
crc24q_bits : ℕ → ℕ → ℕ
crc24q_bits zero crc = crc
crc24q_bits (suc n) crc = crc24q_bits n (crc24q_bit crc)

-- The outer loop, over the bytes that are left.
crc24q_bytes : ℕ → List ℕ → ℕ
crc24q_bytes crc [] = crc
crc24q_bytes crc (b ∷ buf) = crc24q_bytes (crc24q_bits 8 (bit_xor crc (b * 2 ^ 16))) buf

-- `crc & 0xFFFFFF` is the remainder by 2 ^ 24.
unfoldable pub crc24q : List ℕ → ℕ
unfolding crc24q_bytes crc24q_bits crc24q_bit
crc24q buf = crc24q_bytes 0 buf % 2 ^ 24

pub crc24q-lt : (buf : List ℕ) → crc24q buf < 2 ^ 24
unfolding crc24q
crc24q-lt buf = omega arith

-- The published example of the station message 1005.
crc24q_of_station :
    crc24q (
      0xd3 ∷ 0x00 ∷ 0x13 ∷ 0x3e ∷ 0xd7 ∷ 0xd3 ∷ 0x02 ∷ 0x02 ∷ 0x98 ∷ 0x0e ∷ 0xde ∷ 0xef ∷ 0x34
      ∷ 0xb4 ∷ 0xbd ∷ 0x62 ∷ 0xac ∷ 0x09 ∷ 0x41 ∷ 0x98 ∷ 0x6f ∷ 0x33 ∷ [])
    ≡ 0x360b98
unfolding crc24q
crc24q_of_station = refl
