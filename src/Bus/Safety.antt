-- ===== src/Bus/Safety.antt =====
-- What the reference counts give: no pool slot is lost, overwritten while it is
-- held, or released twice.
use rtkbase.Prelude.{
  ℕ, ◌≤◌, ◌≡◌, ◌≢◌, refl, ap, ◌∙◌, sym, List, [], ◌∷◌, Option, none, some, arith, length, Bool,
  true, false, length-replicate,
}
use rtkbase.Rtos.{Fifo}
use rtkbase.Pool.{empty_frame, frame_queue_depth, pool_alloc, pool_release}
use rtkbase.Pool.Laws.{
  refs, pool_alloc-none, refs-pool_init, total_refs-pool_init, length-pool_init,
}
use rtkbase.Bus.{Bus, Dest, idle, chan, bus_init, chan_init, run, Action}
use rtkbase.Bus.Held.{held, load, hand_load, items, only, every, pending}
use rtkbase.Bus.Invariant.{Inv, run-Inv, hand-CanRelease}

module _ (fifo : Fifo ℕ frame_queue_depth) where
  open fifo use {Queue, contents, contents-create}

  chan-init-load : (w : ℕ → ℕ) (on : Bool) → load w (items fifo (chan_init fifo on).queue) ≡ 0
  unfolding chan_init load
  chan-init-load w false = refl
  chan-init-load w true = ap (load w) contents-create

  chan-init-length : (on : Bool) → length (items fifo (chan_init fifo on).queue) ≡ 0
  unfolding chan_init
  chan-init-length false = refl
  chan-init-length true = ap length contents-create

  hand-init : (on : Bool) → (chan_init fifo on).hand ≡ none
  unfolding chan_init
  hand-init false = refl
  hand-init true = refl

  held-init : (w : ℕ → ℕ) (on1 on2 on3 : Bool) → held fifo w (bus_init fifo on1 on2 on3) ≡ 0
  unfolding held bus_init
  held-init w on1 on2 on3 = omega (
    arith,
    chan-init-load w on1,
    chan-init-load w on2,
    chan-init-load w on3,
    ap (hand_load w) (hand-init on1),
    ap (hand_load w) (hand-init on2),
    ap (hand_load w) (hand-init on3),
  )

  load-every : (xs : List ℕ) → load every xs ≡ length xs
  unfolding load
  load-every [] = refl
  load-every (x ∷ xs) = omega (arith, load-every xs)

  hand-every-le : (o : Option ℕ) → hand_load every o ≤ 1
  hand-every-le none = omega arith
  hand-every-le (some i) = omega arith

  -- After start-up the counts are right, whatever services are enabled.
  pub bus_init-Inv : (on1 on2 on3 : Bool) → Inv fifo (bus_init fifo on1 on2 on3)
  unfolding bus_init
  bus_init-Inv on1 on2 on3 = record {
    shape = record {
      size = length-pool_init _ ∙ length-replicate 56 empty_frame;
      fits1 = omega (arith, chan-init-length on1);
      fits2 = omega (arith, chan-init-length on2);
      fits3 = omega (arith, chan-init-length on3);
      short = omega arith;
    };
    exact = λ i. refs-pool_init _ i ∙ sym (held-init (only i) on1 on2 on3);
    total = total_refs-pool_init _ ∙ sym (held-init every on1 on2 on3);
  }

  -- Three full queues and three frames in hand leave slots over.
  pub pool_alloc_succeeds :
      (b : Bus Queue) → Inv fifo b → b.publisher ≡ idle → pool_alloc b.pool ≢ none
  unfolding held
  pool_alloc_succeeds b v e f = omega (
    arith,
    pool_alloc-none b.pool f,
    v.shape.size,
    v.shape.fits1,
    v.shape.fits2,
    v.shape.fits3,
    v.total,
    load-every (items fifo b.client1.queue),
    load-every (items fifo b.client2.queue),
    load-every (items fifo b.caster.queue),
    hand-every-le b.client1.hand,
    hand-every-le b.client2.hand,
    hand-every-le b.caster.hand,
    ap (pending every b) e,
  )

  -- After any history from start-up, whatever services are enabled, the reference count of every
  -- slot is the number of its holders: queue entries, frames in the hands of a consumer task, and
  -- queues that the publisher has still to serve.
  pub refs-run :
      (on1 on2 on3 : Bool) (history : List Action) (i : ℕ)
      → let b = run fifo history (bus_init fifo on1 on2 on3) in refs b.pool i ≡ held fifo (only i) b
  refs-run on1 on2 on3 history i = (run-Inv fifo history _ (bus_init-Inv on1 on2 on3)).exact i

  -- After any history from start-up, if no publication is under way, `pool_alloc` finds a slot: the
  -- 56 slots of the pool are enough for three queues of 16 and a frame in each consumer's hand.
  pub pool_never_exhausted :
      (on1 on2 on3 : Bool) (history : List Action)
      → (run fifo history (bus_init fifo on1 on2 on3)).publisher ≡ idle
      → pool_alloc (run fifo history (bus_init fifo on1 on2 on3)).pool ≢ none
  pool_never_exhausted on1 on2 on3 history =
      pool_alloc_succeeds _ (run-Inv fifo history _ (bus_init-Inv on1 on2 on3))

  -- After any history from start-up, a consumer that releases the frame in its hand finds a positive
  -- count: the double-release error of `pool_release` is not logged.
  pub no_double_release :
      (on1 on2 on3 : Bool) (history : List Action) (d : Dest) (i : ℕ)
      → (chan (run fifo history (bus_init fifo on1 on2 on3)) d).hand ≡ some i
      → (pool_release (run fifo history (bus_init fifo on1 on2 on3)).pool i).1 ≡ false
  unfolding pool_release
  no_double_release on1 on2 on3 history d i e =
      let v = run-Inv fifo history _ (bus_init-Inv on1 on2 on3) in
      let c = hand-CanRelease fifo d i _ v e in ground (arith, c.held_once, c.few)
