-- ===== src/Bus/Held.antt =====
-- How many references the queues, the tasks and the publisher hold.
use rtkbase.Prelude.{
  ℕ, ◌+◌, ◌*◌, ◌≡◌, refl, ap, List, [], ◌∷◌, ◌++◌, Option, none, some, arith, ◌==◌, if◌then◌else◌,
}
use rtkbase.Rtos.{Fifo}
use rtkbase.Pool.{Pool, frame_queue_depth}
use rtkbase.Bus.{
  Bus, Chan, Dest, uplink1, uplink2, local_caster, Publisher, idle, sending, chan, set_chan,
  has_queue,
}

-- The weight of a list of slots.
unfoldable pub load : (ℕ → ℕ) → List ℕ → ℕ
load w [] = 0
load w (i ∷ is) = w i + load w is

pub load-append : (w : ℕ → ℕ) (xs ys : List ℕ) → load w (xs ++ ys) ≡ load w xs + load w ys
unfolding load
load-append w [] ys = omega arith
load-append w (x ∷ xs) ys = omega (arith, load-append w xs ys)

abbrev pub hand_load : (ℕ → ℕ) → Option ℕ → ℕ
hand_load w none = 0
hand_load w (some i) = w i

-- Counts slot `i` alone.
abbrev pub only : ℕ → ℕ → ℕ
only i j = if j == i then 1 else 0

-- Counts every slot.
abbrev pub every : ℕ → ℕ
every j = 1

-- The destinations of a list that have a queue.
abbrev pub active : {Q : Type 0} → Bus Q → List Dest → ℕ
active b [] = 0
active b (d ∷ ds) = has_queue (chan b d).queue + active b ds

-- The references that the publisher has still to hand on.
abbrev pub pending : {Q : Type 0} → (ℕ → ℕ) → Bus Q → Publisher → ℕ
pending w b idle = 0
pending w b (sending i ds) = w i * active b ds

pub active-set_chan :
    {Q : Type 0} (b : Bus Q) (d : Dest) (c : Chan Q) (ds : List Dest)
    → has_queue c.queue ≡ has_queue (chan b d).queue
    → active (set_chan b d c) ds ≡ active b ds
active-set_chan b d c [] e = refl
active-set_chan b uplink1 c (uplink1 ∷ ds) e = omega (arith, active-set_chan b uplink1 c ds e)
active-set_chan b uplink1 c (uplink2 ∷ ds) e = omega (arith, active-set_chan b uplink1 c ds e)
active-set_chan b uplink1 c (local_caster ∷ ds) e = omega (arith, active-set_chan b uplink1 c ds e)
active-set_chan b uplink2 c (uplink1 ∷ ds) e = omega (arith, active-set_chan b uplink2 c ds e)
active-set_chan b uplink2 c (uplink2 ∷ ds) e = omega (arith, active-set_chan b uplink2 c ds e)
active-set_chan b uplink2 c (local_caster ∷ ds) e = omega (arith, active-set_chan b uplink2 c ds e)
active-set_chan b local_caster c (uplink1 ∷ ds) e =
    omega (arith, active-set_chan b local_caster c ds e)
active-set_chan b local_caster c (uplink2 ∷ ds) e =
    omega (arith, active-set_chan b local_caster c ds e)
active-set_chan b local_caster c (local_caster ∷ ds) e =
    omega (arith, active-set_chan b local_caster c ds e)

pub chan-set_publisher :
    {Q : Type 0} (b : Bus Q) (p : Publisher) (d : Dest)
    → chan (record b { publisher = p }) d ≡ chan b d
chan-set_publisher b p uplink1 = refl
chan-set_publisher b p uplink2 = refl
chan-set_publisher b p local_caster = refl

active-set_publisher :
    {Q : Type 0} (b : Bus Q) (p : Publisher) (ds : List Dest)
    → active (record b { publisher = p }) ds ≡ active b ds
active-set_publisher b p [] = refl
active-set_publisher {Q} b p (d ∷ ds) = omega (
  arith,
  active-set_publisher b p ds,
  ap (λ (c : Chan Q). has_queue c.queue) (chan-set_publisher b p d),
)

module _ (fifo : Fifo ℕ frame_queue_depth) where
  open fifo use {Queue, contents}

  abbrev pub items : Option Queue → List ℕ
  items none = []
  items (some q) = contents q

  abbrev pub chan_load : (ℕ → ℕ) → Chan Queue → ℕ
  chan_load w c = load w (items c.queue) + hand_load w c.hand

  -- All references that are held.
  unfoldable pub held : (ℕ → ℕ) → Bus Queue → ℕ
  held w b =
      chan_load w b.client1 + chan_load w b.client2 + chan_load w b.caster + pending w b b.publisher

  pending-set_chan :
      (w : ℕ → ℕ) (b : Bus Queue) (d : Dest) (c : Chan Queue) (p : Publisher)
      → has_queue c.queue ≡ has_queue (chan b d).queue
      → pending w (set_chan b d c) p ≡ pending w b p
  pending-set_chan w b d c idle e = refl
  pending-set_chan w b d c (sending i ds) e = ground (arith, active-set_chan b d c ds)

  -- Replacing one destination's state exchanges its references.
  pub held-set_chan :
      (w : ℕ → ℕ) (b : Bus Queue) (d : Dest) (c : Chan Queue)
      → has_queue c.queue ≡ has_queue (chan b d).queue
      → held w (set_chan b d c) + chan_load w (chan b d) ≡ held w b + chan_load w c
  unfolding held
  held-set_chan w b uplink1 c e = omega (arith, pending-set_chan w b uplink1 c b.publisher e)
  held-set_chan w b uplink2 c e = omega (arith, pending-set_chan w b uplink2 c b.publisher e)
  held-set_chan w b local_caster c e =
      omega (arith, pending-set_chan w b local_caster c b.publisher e)

  pub held-set_pool :
      (w : ℕ → ℕ) (b : Bus Queue) (p : Pool) → held w (record b { pool = p }) ≡ held w b
  unfolding held
  held-set_pool w b p = refl

  pending-set_publisher :
      (w : ℕ → ℕ) (b : Bus Queue) (p r : Publisher)
      → pending w (record b { publisher = p }) r ≡ pending w b r
  pending-set_publisher w b p idle = refl
  pending-set_publisher w b p (sending i ds) = ground (arith, active-set_publisher b p ds)

  -- Moving the publisher on exchanges what it has still to hand on.
  pub held-set_publisher :
      (w : ℕ → ℕ) (b : Bus Queue) (p : Publisher)
      → held w (record b { publisher = p }) + pending w b b.publisher ≡ held w b + pending w b p
  unfolding held
  held-set_publisher w b p = omega (arith, pending-set_publisher w b p p)

pub pool-set_chan :
    {Q : Type 0} (b : Bus Q) (d : Dest) (c : Chan Q) → (set_chan b d c).pool ≡ b.pool
pool-set_chan b uplink1 c = refl
pool-set_chan b uplink2 c = refl
pool-set_chan b local_caster c = refl
