-- ===== src/Retry.antt =====
-- main/retry.c: the waiting times between attempts.
pub mod Schedule
mod Tests
use rtkbase.Prelude.{
  ℕ, zero, suc, ◌+◌, ◌-◌, ◌%◌, ◌^◌, Bool, true, false, ◌&&◌, List, [], ◌∷◌, length, get_or, ltb,
  ◌==◌, if◌then◌else◌,
}

-- The delays are never negative, so an int is a natural number.
pub record RetryDelay : Type 0 where
  pub attempts : ℕ
  pub first_instant : Bool
  pub short_count : ℕ
  pub short_delay : ℕ
  pub max_delay : ℕ
  pub delays_offset : ℕ

abbrev pub delays : List ℕ
delays =
    1000 ∷ 2000 ∷ 5000 ∷ 10000 ∷ 15000 ∷ 30000 ∷ 45000 ∷ 60000 ∷ 90000 ∷ 120000 ∷ 300000 ∷ 600000
    ∷ 900000 ∷ 1800000 ∷ 2700000 ∷ 3600000 ∷ []

abbrev pub delays_count : ℕ
delays_count = 16

-- The loop of `retry_init`, over the delays from the offset on.
unfoldable pub offset_from : List ℕ → ℕ → ℕ → ℕ
offset_from [] offset short_delay = offset
offset_from (d ∷ rest) offset short_delay =
    let further = offset_from rest (offset + 1) short_delay in
    if ltb d short_delay then further else offset

unfoldable pub retry_init : Bool → ℕ → ℕ → ℕ → RetryDelay
unfolding offset_from
retry_init first_instant short_count short_delay max_delay = record {
  attempts = 0;
  first_instant = first_instant;
  short_count = short_count;
  short_delay = short_delay;
  max_delay = max_delay;
  delays_offset = offset_from delays 0 short_delay;
}

-- The delay that `retry_delay` waits for.
unfoldable pub chosen_delay : RetryDelay → ℕ
chosen_delay h =
    if h.attempts == 0 && h.first_instant
    then 0
    else if ltb h.attempts h.short_count
    then h.short_delay
    else let attempts = h.attempts - h.short_count + h.delays_offset in
      let delay =
        if ltb attempts delays_count
        then get_or delays attempts 0
        else get_or delays (delays_count - 1) 0 in
      if ltb 0 h.max_delay && ltb h.max_delay delay then h.max_delay else delay

-- `retry_delay`: the handle after it, the time waited, and the result. `attempts` is a uint16_t.
unfoldable pub retry_delay : RetryDelay → RetryDelay × (ℕ × ℕ)
unfolding chosen_delay
retry_delay h =
    let attempts = (h.attempts + 1) % 2 ^ 16 in
    (record h { attempts = attempts }, (chosen_delay h, attempts))

unfoldable pub retry_reset : RetryDelay → RetryDelay
retry_reset h = record h { attempts = 0 }

-- The handle after `n` calls of `retry_delay`.
unfoldable pub after_attempts : RetryDelay → ℕ → RetryDelay
unfolding retry_delay
after_attempts h zero = h
after_attempts h (suc n) = (retry_delay (after_attempts h n)).0
