-- ===== src/Bus/Tests.antt =====
-- The theorems about the bus at concrete histories, over the list queue.
use rtkbase.Prelude.{ℕ, ◌+◌, ◌<◌, ◌≡◌, ◌≢◌, refl, List, [], ◌∷◌, none, some, arith, true, false}
use rtkbase.Rtos.{Fifo}
use rtkbase.Rtos.ListQueue.{list_fifo}
use rtkbase.Pool.{pool_init, pool_set_refs, pool_alloc, pool_release, frame_queue_depth}
use rtkbase.Pool.Laws.{refs}
use rtkbase.Bus.{
  Bus, uplink1, local_caster, idle, sending, chan, dests, bus_init, run, Action, publish, next,
  takes, releases, publish_rtcm_frame, step, start_publish, publish_next, publish_to, take_frame,
  release_frame, ntrip_client_active_count, ntrip_caster_active_count,
}
use rtkbase.Bus.Held.{held, only, load}
use rtkbase.Bus.Invariant.{run-Inv}
use rtkbase.Bus.Safety.{bus_init-Inv, refs-run, pool_never_exhausted, no_double_release}
use rtkbase.Bus.Bytes.{bytes_at, HeldAlong, bytes-run, publish_rtcm_frame_lem}

abbrev fifo : Fifo ℕ frame_queue_depth
fifo = list_fifo ℕ 16

-- Two services are on. A frame is published while the first consumer already works on it.
abbrev history : List Action
history =
    publish 5000 (7 ∷ 8 ∷ []) ∷ next ∷ takes uplink1 ∷ next ∷ next ∷ next ∷ takes local_caster ∷ []

abbrev after : Bus fifo.Queue
after = run fifo history (bus_init fifo true false true)

after_refs : refs after.pool 0 ≡ 2
unfolding list_fifo run step start_publish publish_rtcm_frame publish_next publish_to take_frame
    bus_init pool_init pool_alloc pool_set_refs pool_release
after_refs = refl

refs-run_example : refs after.pool 0 ≡ held fifo (only 0) after
refs-run_example = refs-run fifo true false true history 0

after_idle : after.publisher ≡ idle
unfolding list_fifo run step start_publish publish_rtcm_frame publish_next publish_to take_frame
    bus_init pool_init pool_alloc pool_set_refs pool_release
after_idle = refl

pool_never_exhausted_example : pool_alloc after.pool ≢ none
pool_never_exhausted_example = pool_never_exhausted fifo true false true history after_idle

after_hand : (chan after uplink1).hand ≡ some 0
unfolding list_fifo run step start_publish publish_rtcm_frame publish_next publish_to take_frame
    bus_init pool_init pool_alloc pool_set_refs pool_release
after_hand = refl

no_double_release_example : (pool_release after.pool 0).1 ≡ false
no_double_release_example = no_double_release fifo true false true history uplink1 0 after_hand

abbrev at_start : Bus fifo.Queue
at_start = bus_init fifo true false true

at_start_idle : at_start.publisher ≡ idle
unfolding bus_init
at_start_idle = refl

at_start_busy : 0 < ntrip_client_active_count at_start + ntrip_caster_active_count at_start
unfolding bus_init ntrip_client_active_count ntrip_caster_active_count
at_start_busy = omega arith

publish_rtcm_frame_lem_example :
    let b = publish_rtcm_frame 5000 (7 ∷ 8 ∷ []) at_start in
    (i : ℕ) × (b.publisher ≡ sending i dests)
    × (bytes_at i b ≡ 7 ∷ 8 ∷ [])
    × (refs b.pool i ≡ ntrip_client_active_count at_start + ntrip_caster_active_count at_start)
publish_rtcm_frame_lem_example =
    publish_rtcm_frame_lem fifo 5000 (7 ∷ 8 ∷ []) at_start (bus_init-Inv fifo true false true)
      at_start_idle at_start_busy

-- The second service's frame stays what it was while the first consumer finishes and the publisher
-- goes on.
later : List Action
later = releases uplink1 ∷ publish 6000 (9 ∷ []) ∷ next ∷ []

after_held : HeldAlong fifo 0 later after
unfolding later held load list_fifo run step start_publish publish_rtcm_frame publish_next
    publish_to take_frame bus_init pool_init pool_alloc pool_set_refs pool_release release_frame
after_held = (omega arith, (omega arith, (omega arith, tt)))

bytes-run_example : bytes_at 0 (run fifo later after) ≡ bytes_at 0 after
bytes-run_example =
    bytes-run fifo later 0 after (run-Inv fifo history at_start (bus_init-Inv fifo true false true))
      after_held
