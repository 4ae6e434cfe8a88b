-- ===== src/Bus/Bytes.antt =====
-- What a consumer reads is what the publisher wrote.
use rtkbase.Prelude.{
  ℕ, zero, suc, ◌+◌, ◌<◌, ◌≡◌, ◌≢◌, refl, ap, ◌∙◌, List, [], ◌∷◌, arith, length, inl, inr,
  Option-cases, Bool-cases, ◌==◌, ==_refl, false,
}
use rtkbase.Rtos.{Fifo, send_cases, receive_cases}
use rtkbase.Pool.{Pool, slot, frame_queue_depth, pool_alloc, pool_release, pool_set_refs}
use rtkbase.Pool.Laws.{refs, pool_alloc-some, bytes-store_refs, length-store_refs, refs-store_refs}
use rtkbase.Bus.{
  Bus, Chan, Dest, Publisher, idle, sending, chan, set_chan, store_bytes, dests,
  ntrip_client_active_count, ntrip_caster_active_count, publish_rtcm_frame, publish_to,
  publish_next, take_frame, release_frame, release_slot, start_publish, step, run, Action, publish,
  next, takes, releases,
}
use rtkbase.Bus.Account.{length-store_bytes}
use rtkbase.Bus.Held.{held, only, pool-set_chan}
use rtkbase.Bus.Invariant.{Inv, step-Inv}
use rtkbase.Bus.Safety.{pool_alloc_succeeds}

-- The bytes of slot `i`.
abbrev pub bytes_at : {Q : Type 0} → ℕ → Bus Q → List ℕ
bytes_at i b = (slot b.pool i).bytes

pub bytes-store_bytes_self :
    (p : Pool) (i : ℕ) (bs : List ℕ) → i < length p → (slot (store_bytes p i bs) i).bytes ≡ bs
bytes-store_bytes_self [] i bs h = absurd (omega arith)
bytes-store_bytes_self (f ∷ fs) zero bs h = refl
bytes-store_bytes_self (f ∷ fs) (suc i) bs h = bytes-store_bytes_self fs i bs (omega arith)

bytes-store_bytes_ne :
    (p : Pool) (i j : ℕ) (bs : List ℕ)
    → i ≢ j
    → (slot (store_bytes p i bs) j).bytes ≡ (slot p j).bytes
bytes-store_bytes_ne [] i j bs h = refl
bytes-store_bytes_ne (f ∷ fs) zero zero bs h = absurd (h refl)
bytes-store_bytes_ne (f ∷ fs) zero (suc j) bs h = refl
bytes-store_bytes_ne (f ∷ fs) (suc i) zero bs h = refl
bytes-store_bytes_ne (f ∷ fs) (suc i) (suc j) bs h =
    bytes-store_bytes_ne fs i j bs (λ e. h (ap suc e))

bytes-release_slot :
    {Q : Type 0} (b : Bus Q) (i j : ℕ) → bytes_at j (release_slot b i) ≡ bytes_at j b
unfolding pool_release
bytes-release_slot b i j = bytes-store_refs b.pool i j _

bytes-set_chan :
    {Q : Type 0} (b : Bus Q) (d : Dest) (c : Chan Q) (j : ℕ)
    → bytes_at j (set_chan b d c) ≡ bytes_at j b
bytes-set_chan b d c j = ap (λ p. (slot p j).bytes) (pool-set_chan b d c)

module _ (fifo : Fifo ℕ frame_queue_depth) where
  open fifo use {Queue, send, receive}

  -- No step of the enqueueing, and no consumer, writes to a frame.
  bytes-publish_to :
      (d : Dest) (i j : ℕ) (b : Bus Queue) → bytes_at j (publish_to fifo d i b) ≡ bytes_at j b
  unfolding publish_to
  bytes-publish_to d i j b = elim (Option-cases (chan b d).queue) [
    | inl e ↦ rw (e, publish_to)
    | inr (q, e) ↦ elim (send_cases fifo q i) [
      | inl (f, _) ↦
          rw (e, f, publish_to) (bytes-release_slot (set_chan b d _) i j ∙ bytes-set_chan b d _ j)
      | inr (q', f, _, _) ↦ rw (e, f, publish_to) (bytes-set_chan b d _ j)
    ]
  ]

  bytes-publish_next :
      (p : Publisher) (j : ℕ) (b : Bus Queue) → bytes_at j (publish_next fifo p b) ≡ bytes_at j b
  unfolding publish_next
  bytes-publish_next idle j b = refl
  bytes-publish_next (sending i []) j b = refl
  bytes-publish_next (sending i (d ∷ ds)) j b = bytes-publish_to d i j _

  bytes-take_frame :
      (d : Dest) (j : ℕ) (b : Bus Queue) → bytes_at j (take_frame fifo d b) ≡ bytes_at j b
  unfolding take_frame
  bytes-take_frame d j b = elim (Option-cases (chan b d).hand) [
    | inr (i, e) ↦ rw (e, take_frame)
    | inl e ↦ elim (Option-cases (chan b d).queue) [
      | inl f ↦ rw (e, f, take_frame)
      | inr (q, f) ↦ elim (receive_cases fifo q) [
        | inl (g, _) ↦ rw (e, f, g, take_frame)
        | inr (i, q', g, _) ↦ rw (e, f, g, take_frame) (bytes-set_chan b d _ j)
      ]
    ]
  ]

  bytes-release_frame :
      (d : Dest) (j : ℕ) (b : Bus Queue) → bytes_at j (release_frame fifo d b) ≡ bytes_at j b
  unfolding release_frame
  bytes-release_frame d j b = elim (Option-cases (chan b d).hand) [
    | inl e ↦ rw (e, release_frame)
    | inr (i, e) ↦
        rw (e, release_frame) (bytes-release_slot (set_chan b d _) i j ∙ bytes-set_chan b d _ j)
  ]

  -- A new frame goes to a slot without references.
  bytes-publish_rtcm_frame :
      (now_us : ℕ) (bs : List ℕ) (j : ℕ) (b : Bus Queue)
      → 0 < refs b.pool j
      → bytes_at j (publish_rtcm_frame now_us bs b) ≡ bytes_at j b
  unfolding publish_rtcm_frame pool_set_refs
  bytes-publish_rtcm_frame now_us bs j b h =
      let n = ntrip_client_active_count b + ntrip_caster_active_count b in
      elim (Bool-cases (n == 0)) [
        | inl quiet ↦ rw (quiet, publish_rtcm_frame)
        | inr busy ↦ elim (Option-cases (pool_alloc b.pool)) [
          | inl f ↦ rw (busy, f, publish_rtcm_frame)
          | inr ((i, q), f) ↦
              let (_, free, eq) = pool_alloc-some b.pool q i f in
              rw (busy, f, publish_rtcm_frame)
                (bytes-store_refs (store_bytes q i bs) i j n
                  ∙ (bytes-store_bytes_ne q i j bs (λ e. omega (arith, free, ap (refs b.pool) e))
                      ∙ (ap (λ p. (slot p j).bytes) eq ∙ bytes-store_refs b.pool i j 1)))
        ]
      ]

  bytes-start_publish :
      (p : Publisher) (now_us : ℕ) (bs : List ℕ) (j : ℕ) (b : Bus Queue)
      → 0 < refs b.pool j
      → bytes_at j (start_publish fifo p now_us bs b) ≡ bytes_at j b
  unfolding start_publish
  bytes-start_publish idle now_us bs j b h = bytes-publish_rtcm_frame now_us bs j b h
  bytes-start_publish (sending i ds) now_us bs j b h = refl

  bytes-step :
      (a : Action) (j : ℕ) (b : Bus Queue)
      → 0 < refs b.pool j
      → bytes_at j (step fifo a b) ≡ bytes_at j b
  unfolding step
  bytes-step (publish now_us bs) j b h = bytes-start_publish b.publisher now_us bs j b h
  bytes-step next j b h = bytes-publish_next b.publisher j b
  bytes-step (takes d) j b h = bytes-take_frame d j b
  bytes-step (releases d) j b h = bytes-release_frame d j b

  -- Slot `i` has a holder before every step of a history.
  abbrev pub HeldAlong : ℕ → List Action → Bus Queue → Type 0
  HeldAlong i [] b = Unit {0}
  HeldAlong i (a ∷ rest) b = (0 < held fifo (only i) b) × HeldAlong i rest (step fifo a b)

  -- From a state whose counts are right, as long as a slot has a holder (a queue, a consumer or the
  -- publisher), no step of any task changes the bytes of its frame.
  pub bytes-run :
      (history : List Action) (i : ℕ) (b : Bus Queue)
      → Inv fifo b
      → HeldAlong i history b
      → bytes_at i (run fifo history b) ≡ bytes_at i b
  unfolding run
  bytes-run [] i b v h = refl
  bytes-run (a ∷ rest) i b v h =
      bytes-run rest i (step fifo a b) (step-Inv fifo a b v) h.1
      ∙ bytes-step a i b (omega (arith, v.exact i, h.0))

  -- From an idle state whose counts are right, with at least one queue, `publish_rtcm_frame` puts
  -- the frame's bytes into some slot, gives the slot one reference for each queue, and goes on to
  -- serve all three destinations with it.
  pub publish_rtcm_frame_lem :
      (now_us : ℕ) (bs : List ℕ) (b : Bus Queue)
      → Inv fifo b
      → b.publisher ≡ idle
      → 0 < ntrip_client_active_count b + ntrip_caster_active_count b
      → let b' = publish_rtcm_frame now_us bs b in
        (i : ℕ) × (b'.publisher ≡ sending i dests)
        × (bytes_at i b' ≡ bs)
        × (refs b'.pool i ≡ ntrip_client_active_count b + ntrip_caster_active_count b)
  unfolding publish_rtcm_frame pool_set_refs
  publish_rtcm_frame_lem now_us bs b v e pos =
      let n = ntrip_client_active_count b + ntrip_caster_active_count b in
      let busy : (n == 0) ≡ false = ground arith in
      elim (Option-cases (pool_alloc b.pool)) [
        | inl f ↦ absurd (pool_alloc_succeeds fifo b v e f)
        | inr ((i, q), f) ↦
            let (inside, free, eq) = pool_alloc-some b.pool q i f in
            let room : i < length q = omega (arith, ap length eq, length-store_refs b.pool i 1) in
            (
              i,
              rw (busy, f, publish_rtcm_frame),
              rw (busy, f, publish_rtcm_frame)
                  (bytes-store_refs (store_bytes q i bs) i i n
                    ∙ bytes-store_bytes_self q i bs room),
              rw (busy, f, publish_rtcm_frame)
                  (ground (
                    arith,
                    refs-store_refs (store_bytes q i bs) i i n
                        (omega (arith, length-store_bytes q i bs)),
                    ==_refl i,
                  )),
            )
      ]
