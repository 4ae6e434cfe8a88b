-- ===== src/Uplink/Backoff.antt =====
-- The waits between failed attempts to connect.
use rtkbase.Prelude.{
  ℕ, zero, suc, ◌*◌, ◌%◌, ◌≤◌, ◌≡◌, ◌∙◌, none, arith, min, ltb, inl, inr, Bool-cases,
}
use rtkbase.Lwip.{Socket}
use rtkbase.Uplink.{next_delay, Uplink, connect_round}

-- 2000, doubled `k` times.
pub doubled : ℕ → ℕ
doubled zero = 2000
doubled (suc k) = doubled k * 2

next_delay-min : (delay : ℕ) → delay ≤ 60000 → next_delay delay ≡ min (delay * 2) 60000
unfolding next_delay
next_delay-min delay h =
    let fits : (delay * 2) % 4294967296 ≡ delay * 2 = omega arith in
    elim (Bool-cases (ltb (delay * 2) 60000)) [
      | inl e ↦ rw (fits, e) (ground arith)
      | inr e ↦ rw (fits, e) (ground arith)
    ]

module _ (socket : Socket) where
  -- One attempt that fails.
  connect_round-down :
      (u : Uplink socket)
      → u.sock ≡ none
      → ((connect_round socket u none).0.sock ≡ none)
        × ((connect_round socket u none).0.reconnect_delay_ms ≡ next_delay u.reconnect_delay_ms)
        × ((connect_round socket u none).1 ≡ u.reconnect_delay_ms)
  unfolding connect_round
  connect_round-down u down =
      (rw (down, connect_round) down, rw (down, connect_round), rw (down, connect_round))

  -- `k` attempts in a row that fail.
  pub failing : ℕ → Uplink socket → Uplink socket
  failing zero u = u
  failing (suc k) u = (connect_round socket (failing k u) none).0

  failing_lem :
      (k : ℕ) (u : Uplink socket)
      → u.sock ≡ none
      → u.reconnect_delay_ms ≡ 2000
      → ((failing k u).sock ≡ none) × ((failing k u).reconnect_delay_ms ≡ min (doubled k) 60000)
  unfolding failing doubled
  failing_lem zero u down start = (down, start)
  failing_lem (suc k) u down start =
      let (still, delay) = failing_lem k u down start in
      let (none_again, longer, wait) = connect_round-down (failing k u) still in
      (
        none_again,
        longer
            ∙ (next_delay-min (failing k u).reconnect_delay_ms (omega (arith, delay))
                ∙ omega (arith, delay)),
      )

  -- An uplink that starts without a socket waits, after `k` failed attempts in a row, 2000 doubled `k`
  -- times milliseconds, at most 60000; and it has not got a socket.
  pub connect_round-failing :
      (k : ℕ) (u : Uplink socket)
      → u.sock ≡ none
      → u.reconnect_delay_ms ≡ 2000
      → ((connect_round socket (failing k u) none).1 ≡ min (doubled k) 60000)
        × ((connect_round socket (failing k u) none).0.sock ≡ none)
  connect_round-failing k u down start =
      let (still, delay) = failing_lem k u down start in
      let (none_again, longer, wait) = connect_round-down (failing k u) still in
      (wait ∙ delay, none_again)
