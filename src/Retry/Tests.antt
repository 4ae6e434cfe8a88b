-- ===== src/Retry/Tests.antt =====
-- The schedule of an instant first attempt and two short waits of 3 seconds.
use rtkbase.Prelude.{◌≡◌, ◌≤◌, refl, inr, true, arith}
use rtkbase.Retry.{retry_init, after_attempts, chosen_delay, retry_delay}
use rtkbase.Retry.Schedule.{chosen_delay-after_attempts_mono}

fifth_wait : chosen_delay (after_attempts (retry_init true 3 3000 60000) 5) ≡ 15000
unfolding chosen_delay after_attempts retry_init retry_delay
fifth_wait = refl

chosen_delay-after_attempts_mono_example :
    chosen_delay (after_attempts (retry_init true 3 3000 60000) 2)
    ≤ chosen_delay (after_attempts (retry_init true 3 3000 60000) 9)
chosen_delay-after_attempts_mono_example =
    chosen_delay-after_attempts_mono true 3 3000 60000 2 9 (omega arith) (inr (omega arith))
      (omega arith) (omega arith)
