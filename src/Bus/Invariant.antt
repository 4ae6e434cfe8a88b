-- ===== src/Bus/Invariant.antt =====
-- The reference count of every slot is the number of its holders, after any history.
use rtkbase.Prelude.{
  ℕ, ◌<◌, ◌≤◌, ◌≡◌, refl, ap, subst, ◌∙◌, sym, List, [], ◌∷◌, Option, none, some, arith, length,
  dec_lt, ==_refl,
}
use rtkbase.Rtos.{Fifo}
use rtkbase.Pool.{Pool, frame_queue_depth}
use rtkbase.Pool.Laws.{refs, total_refs}
use rtkbase.Bus.{
  Bus, Dest, uplink1, uplink2, local_caster, Publisher, idle, sending, chan, has_queue, step, run,
  Action,
}
use rtkbase.Bus.Account.{Account, Account-only, Account-every, refs-outside}
use rtkbase.Bus.Held.{held, load, hand_load, items, only, every, active, pending}
use rtkbase.Bus.Balance.{CanRelease, Releasable, step-Balanced}
use rtkbase.Bus.Shape.{HasShape, step-HasShape, todo}

load-only-le : (i : ℕ) (xs : List ℕ) → load (only i) xs ≤ length xs
unfolding load
load-only-le i [] = omega arith
load-only-le i (x ∷ xs) = ground (arith, load-only-le i xs)

active-le : {Q : Type 0} (b : Bus Q) (ds : List Dest) → active b ds ≤ length ds
active-le b [] = omega arith
active-le {Q} b (d ∷ ds) = omega (arith, one (chan b d).queue, active-le b ds)
  where
    one : (o : Option Q) → has_queue o ≤ 1
    one none = omega arith
    one (some q) = omega arith

hand-only-le : (i : ℕ) (o : Option ℕ) → hand_load (only i) o ≤ 1
hand-only-le i none = omega arith
hand-only-le i (some j) = ground arith

pending-only-le : {Q : Type 0} (i : ℕ) (b : Bus Q) (p : Publisher) → pending (only i) b p ≤ todo p
pending-only-le i b idle = omega arith
pending-only-le i b (sending j ds) = ground (arith, active-le b ds)

hand_load_pos : (i : ℕ) (o : Option ℕ) → o ≡ some i → hand_load (only i) o ≡ 1
hand_load_pos i o e = ap (hand_load (only i)) e ∙ ground (arith, ==_refl i)

pending_pos :
    {Q : Type 0} (i : ℕ) (d : Dest) (ds : List Dest) (b : Bus Q) (p : Publisher)
    → p ≡ sending i (d ∷ ds)
    → has_queue (chan b d).queue ≡ 1
    → 0 < pending (only i) b p
pending_pos i d ds b p e h =
    subst (λ p. 0 < pending (only i) b p) (sym e) (ground (arith, ==_refl i))

module _ (fifo : Fifo ℕ frame_queue_depth) where
  open fifo use {Queue}

  -- A bus whose reference counts are right.
  pub record Inv (b : Bus Queue) : Type 0 where
    pub shape : HasShape fifo b
    pub exact : (i : ℕ) → refs b.pool i ≡ held fifo (only i) b
    pub total : total_refs b.pool ≡ held fifo every b

  held-only-le : (i : ℕ) (b : Bus Queue) → HasShape fifo b → held fifo (only i) b ≤ 54
  unfolding held
  held-only-le i b s = omega (
    arith,
    load-only-le i (items fifo b.client1.queue),
    load-only-le i (items fifo b.client2.queue),
    load-only-le i (items fifo b.caster.queue),
    hand-only-le i b.client1.hand,
    hand-only-le i b.client2.hand,
    hand-only-le i b.caster.hand,
    pending-only-le i b b.publisher,
  )

  held_by_hand :
      (d : Dest) (i : ℕ) (b : Bus Queue) → (chan b d).hand ≡ some i → 0 < held fifo (only i) b
  unfolding held
  held_by_hand uplink1 i b e = omega (arith, hand_load_pos i b.client1.hand e)
  held_by_hand uplink2 i b e = omega (arith, hand_load_pos i b.client2.hand e)
  held_by_hand local_caster i b e = omega (arith, hand_load_pos i b.caster.hand e)

  held_by_publisher :
      (i : ℕ) (b : Bus Queue) → 0 < pending (only i) b b.publisher → 0 < held fifo (only i) b
  unfolding held
  held_by_publisher i b h = omega arith

  -- Whatever is held can be released once.
  pub held-CanRelease :
      (i : ℕ) (b : Bus Queue) → Inv b → 0 < held fifo (only i) b → CanRelease fifo b.pool i
  held-CanRelease i b v h = record {
    inside = elim (dec_lt i (length b.pool)) [
      | yes p ↦ p
      | no np ↦ absurd (omega (arith, v.exact i, refs-outside b.pool i (omega arith)))
    ];
    held_once = omega (arith, v.exact i);
    few = omega (arith, v.exact i, held-only-le i b v.shape);
  }

  pub hand-CanRelease :
      (d : Dest) (i : ℕ) (b : Bus Queue)
      → Inv b
      → (chan b d).hand ≡ some i
      → CanRelease fifo b.pool i
  hand-CanRelease d i b v e = held-CanRelease i b v (held_by_hand d i b e)

  publisher-Releasable :
      (b : Bus Queue) (p : Publisher) → b.publisher ≡ p → Inv b → Releasable fifo b p
  publisher-Releasable b idle e v = tt
  publisher-Releasable b (sending i []) e v = tt
  publisher-Releasable b (sending i (d ∷ ds)) e v =
      λ h. held-CanRelease i b v (held_by_publisher i b (pending_pos i d ds b b.publisher e h))

  -- Every step keeps the counts right.
  pub step-Inv : (a : Action) (b : Bus Queue) → Inv b → Inv (step fifo a b)
  step-Inv a b v = record {
    shape = step-HasShape fifo a b v.shape;
    exact = λ i. balanced (Account-only i) (v.exact i);
    total = balanced Account-every v.total;
  }
    where
      balanced :
          {m : Pool → ℕ} {w : ℕ → ℕ}
          → Account m w
          → m b.pool ≡ held fifo w b
          → m (step fifo a b).pool ≡ held fifo w (step fifo a b)
      balanced acc bal =
          step-Balanced fifo acc a b (publisher-Releasable b b.publisher refl v)
            (λ d i e. hand-CanRelease d i b v e) bal

  -- So does every history.
  pub run-Inv : (history : List Action) (b : Bus Queue) → Inv b → Inv (run fifo history b)
  unfolding run
  run-Inv [] b v = v
  run-Inv (a ∷ rest) b v = run-Inv rest (step fifo a b) (step-Inv a b v)
