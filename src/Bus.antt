-- ===== src/Bus.antt =====
-- The path of a validated frame: `publish_rtcm_frame` of main/gnss_uart.c, which takes a slot of
-- the pool and hands it to `ntrip_client_publish` (main/ntrip_client.c) and `ntrip_caster_publish`
-- (main/ntrip_caster.c), and the tasks that take it from their queues and release it.
pub mod Held
pub mod Account
pub mod Balance
pub mod Shape
pub mod Invariant
pub mod Safety
pub mod Bytes
mod Tests
use rtkbase.Prelude.{
  ℕ, zero, suc, ◌+◌, ◌%◌, ◌/◌, ◌^◌, Bool, true, false, List, [], ◌∷◌, Option, none, some, ◌==◌,
  if◌then◌else◌, replicate,
}
use rtkbase.Rtos.{Fifo}
use rtkbase.Pool.{
  Pool, PoolFrame, frame_queue_depth, frame_pool_size, empty_frame, pool_init, store_refs,
  pool_alloc, pool_set_refs, pool_release,
}

-- The destinations of a frame, in the order in which it is enqueued.
pub data Dest : Type 0 where
  uplink1 uplink2 local_caster : Dest

abbrev pub dests : List Dest
dests = uplink1 ∷ uplink2 ∷ local_caster ∷ []

-- One destination: its queue (`none` is the NULL handle), the frame that its task has received and
-- not yet released, and `queue_drops`.
pub record Chan (Q : Type 0) : Type 0 where
  pub queue : Option Q
  pub hand : Option ℕ
  pub drops : ℕ

-- Where `publish_rtcm_frame` stands: the slot, and the destinations not yet served.
pub data Publisher : Type 0 where
  idle : Publisher
  sending : ℕ → List Dest → Publisher

pub record Bus (Q : Type 0) : Type 0 where
  pub pool : Pool
  pub client1 : Chan Q
  pub client2 : Chan Q
  pub caster : Chan Q
  pub publisher : Publisher
  pub frame_count : ℕ
  pub last_rtcm_ms : ℕ

abbrev pub chan : {Q : Type 0} → Bus Q → Dest → Chan Q
chan b uplink1 = b.client1
chan b uplink2 = b.client2
chan b local_caster = b.caster

abbrev pub set_chan : {Q : Type 0} → Bus Q → Dest → Chan Q → Bus Q
set_chan b uplink1 c = record b { client1 = c }
set_chan b uplink2 c = record b { client2 = c }
set_chan b local_caster c = record b { caster = c }

-- 1 for a queue that exists.
abbrev pub has_queue : {Q : Type 0} → Option Q → ℕ
has_queue none = 0
has_queue (some q) = 1

unfoldable pub ntrip_client_active_count : {Q : Type 0} → Bus Q → ℕ
ntrip_client_active_count b = has_queue b.client1.queue + has_queue b.client2.queue

unfoldable pub ntrip_caster_active_count : {Q : Type 0} → Bus Q → ℕ
ntrip_caster_active_count b = has_queue b.caster.queue

-- `memcpy(f->data, data, len); f->len = len;`
abbrev pub store_bytes : Pool → ℕ → List ℕ → Pool
store_bytes [] i bs = []
store_bytes (f ∷ fs) zero bs = record f { bytes = bs } ∷ fs
store_bytes (f ∷ fs) (suc i) bs = f ∷ store_bytes fs i bs

-- `publish_rtcm_frame` up to the first `xQueueSend`. The slot is not visible to any other task
-- before that, so this part is one step.
unfoldable pub publish_rtcm_frame : {Q : Type 0} → ℕ → List ℕ → Bus Q → Bus Q
unfolding ntrip_client_active_count ntrip_caster_active_count
publish_rtcm_frame now_us bs b =
    let counted = record b {
      last_rtcm_ms = now_us / 1000 % 2 ^ 64;
      frame_count = (b.frame_count + 1) % 2 ^ 32;
    } in
    let n = ntrip_client_active_count b + ntrip_caster_active_count b in
    if n == 0 then counted else elim (pool_alloc b.pool) [
      | none ↦ counted
      | some (i, p) ↦ record counted {
        pool = pool_set_refs (store_bytes p i bs) i n;
        publisher = sending i dests;
      }
    ]

abbrev pub release_slot : {Q : Type 0} → Bus Q → ℕ → Bus Q
release_slot b i = record b { pool = (pool_release b.pool i).0 }

-- What the reader task and the three consumer tasks do, one visible step at a time.
pub data Action : Type 0 where
  publish : ℕ → List ℕ → Action
  next : Action
  takes releases : Dest → Action

module _ (fifo : Fifo ℕ frame_queue_depth) where
  open fifo use {Queue, send, receive}

  -- One round of `ntrip_client_publish`, or `ntrip_caster_publish`: skip a NULL queue; count and
  -- release the frame that does not fit.
  unfoldable pub publish_to : Dest → ℕ → Bus Queue → Bus Queue
  publish_to d i b =
      let c = chan b d in
      elim c.queue [
        | none ↦ b
        | some q ↦ elim (send q i) [
          | none ↦ release_slot (set_chan b d (record c { drops = (c.drops + 1) % 2 ^ 32 })) i
          | some q' ↦ set_chan b d (record c { queue = some q' })
        ]
      ]

  -- The publisher goes on with its next destination.
  unfoldable pub publish_next : Publisher → Bus Queue → Bus Queue
  publish_next idle b = b
  publish_next (sending i []) b = record b { publisher = idle }
  publish_next (sending i (d ∷ ds)) b = publish_to d i (record b { publisher = sending i ds })

  -- `xQueueReceive` of a task that holds no frame.
  unfoldable pub take_frame : Dest → Bus Queue → Bus Queue
  take_frame d b =
      let c = chan b d in
      elim c.hand [
        | some i ↦ b
        | none ↦ elim c.queue [
          | none ↦ b
          | some q ↦ elim (receive q) [
            | none ↦ b
            | some (i, q') ↦ set_chan b d (record c { queue = some q'; hand = some i })
          ]
        ]
      ]

  -- `pool_release(f)` of a task that has done with its frame.
  unfoldable pub release_frame : Dest → Bus Queue → Bus Queue
  release_frame d b =
      let c = chan b d in
      elim c.hand [ none ↦ b | some i ↦ release_slot (set_chan b d (record c { hand = none })) i ]

  -- A publication begins only when the one before it has ended: one task publishes.
  unfoldable pub start_publish : Publisher → ℕ → List ℕ → Bus Queue → Bus Queue
  start_publish idle now_us bs b = publish_rtcm_frame now_us bs b
  start_publish (sending i ds) now_us bs b = b

  unfoldable pub step : Action → Bus Queue → Bus Queue
  step (publish now_us bs) b = start_publish b.publisher now_us bs b
  step next b = publish_next b.publisher b
  step (takes d) b = take_frame d b
  step (releases d) b = release_frame d b

  unfoldable pub run : List Action → Bus Queue → Bus Queue
  run [] b = b
  run (a ∷ rest) b = run rest (step a b)

  -- A service's state at start: with a queue if it is enabled.
  unfoldable pub chan_init : Bool → Chan Queue
  chan_init false = record { queue = none; hand = none; drops = 0 }
  chan_init true = record { queue = some fifo.create; hand = none; drops = 0 }

  -- `app_main` after `pool_init`, `ntrip_client_init` and `ntrip_caster_init`, for the services that
  -- the configuration enables.
  unfoldable pub bus_init : Bool → Bool → Bool → Bus Queue
  unfolding chan_init
  bus_init on1 on2 on3 = record {
    pool = pool_init (replicate frame_pool_size empty_frame);
    client1 = chan_init on1;
    client2 = chan_init on2;
    caster = chan_init on3;
    publisher = idle;
    frame_count = 0;
    last_rtcm_ms = 0;
  }
