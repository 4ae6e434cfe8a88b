-- ===== src/Bus/Balance.antt =====
-- Every visible step of the publisher and of the consumers keeps an account balanced.
use rtkbase.Prelude.{
  ℕ, ◌+◌, ◌*◌, ◌%◌, ◌^◌, ◌<◌, ◌≡◌, refl, ap, subst, ◌∙◌, sym, List, [], ◌∷◌, none, some, arith,
  length, Option-cases, inl, inr, ◌==◌, Bool-cases,
}
use rtkbase.Rtos.{Fifo, send_cases, receive_cases}
use rtkbase.Pool.{Pool, frame_queue_depth, pool_alloc}
use rtkbase.Pool.Laws.{refs}
use rtkbase.Bus.{
  Bus, Chan, Dest, Publisher, idle, sending, chan, set_chan, has_queue, publish_rtcm_frame,
  publish_to, publish_next, take_frame, release_frame, release_slot, start_publish, step, Action,
  publish, next, takes, releases, ntrip_client_active_count, ntrip_caster_active_count,
}
use rtkbase.Bus.Account.{Account, release-Account, alloc-Account}
use rtkbase.Bus.Held.{
  held, hand_load, load, load-append, held-set_chan, held-set_pool, held-set_publisher,
  chan-set_publisher, pending, pool-set_chan, items,
}

module _ (fifo : Fifo ℕ frame_queue_depth) where
  open fifo use {Queue, contents, send, receive}

  -- A slot that can be released: in the pool, with a reference, and few of them.
  pub record CanRelease (p : Pool) (i : ℕ) : Type 0 where
    pub inside : i < length p
    pub held_once : 0 < refs p i
    pub few : refs p i < 2 ^ 31

  -- What the step of a publisher in state `p` needs to release.
  abbrev pub Releasable : Bus Queue → Publisher → Type 0
  Releasable b idle = Unit {0}
  Releasable b (sending i []) = Unit {0}
  Releasable b (sending i (d ∷ ds)) = has_queue (chan b d).queue ≡ 1 → CanRelease b.pool i

  module _ {m : Pool → ℕ} {w : ℕ → ℕ} (acc : Account m w) where
    abbrev pub Balanced : Bus Queue → Type 0
    Balanced b = m b.pool ≡ held fifo w b

    release_slot-balance :
        (b : Bus Queue) (i : ℕ) → CanRelease b.pool i → m (release_slot b i).pool + w i ≡ m b.pool
    release_slot-balance b i c = release-Account acc b.pool i c.inside c.held_once c.few

    pub release_frame-Balanced :
        (d : Dest) (b : Bus Queue)
        → ((i : ℕ) → (chan b d).hand ≡ some i → CanRelease b.pool i)
        → Balanced b
        → Balanced (release_frame fifo d b)
    unfolding release_frame
    release_frame-Balanced d b can bal = elim (Option-cases (chan b d).hand) [
      | inl e ↦ rw (e, release_frame) bal
      | inr (i, e) ↦
          let c : Chan Queue = record (chan b d) { hand = none } in
          let b' = set_chan b d c in
          let keep : b'.pool ≡ b.pool = pool-set_chan b d c in
          rw (e, release_frame)
            (omega (
              arith,
              held-set_pool fifo w b' (release_slot b' i).pool,
              held-set_chan fifo w b d c refl,
              ap (hand_load w) e,
              release_slot-balance b' i (subst (λ q. CanRelease q i) (sym keep) (can i e)),
              ap m keep,
            ))
    ]

    pub take_frame-Balanced :
        (d : Dest) (b : Bus Queue) → Balanced b → Balanced (take_frame fifo d b)
    unfolding take_frame load
    take_frame-Balanced d b bal = elim (Option-cases (chan b d).hand) [
      | inr (i, e) ↦ rw (e, take_frame) bal
      | inl e ↦ elim (Option-cases (chan b d).queue) [
        | inl f ↦ rw (e, f, take_frame) bal
        | inr (q, f) ↦ elim (receive_cases fifo q) [
          | inl (g, _) ↦ rw (e, f, g, take_frame) bal
          | inr (i, q', g, k) ↦
              let c : Chan Queue = record (chan b d) { queue = some q'; hand = some i } in
              rw (e, f, g, take_frame)
                (omega (
                  arith,
                  held-set_chan fifo w b d c (ap has_queue (sym f)),
                  ap (hand_load w) e,
                  ap (λ o. load w (items fifo o)) f,
                  ap (load w) k,
                  ap m (pool-set_chan b d c),
                ))
        ]
      ]
    ]

    -- The rest of the publication has references of its own.
    publish_to-Balanced :
        (d : Dest) (i : ℕ) (b : Bus Queue)
        → (has_queue (chan b d).queue ≡ 1 → CanRelease b.pool i)
        → m b.pool ≡ held fifo w b + w i * has_queue (chan b d).queue
        → Balanced (publish_to fifo d i b)
    unfolding publish_to load
    publish_to-Balanced d i b can bal = elim (Option-cases (chan b d).queue) [
      | inl e ↦ rw (e, publish_to) (omega (arith, bal, ap (λ o. w i * has_queue o) e))
      | inr (q, e) ↦
          let one : w i * has_queue (chan b d).queue ≡ w i =
            ap (λ o. w i * has_queue o) e ∙ omega arith in
          elim (send_cases fifo q i) [
            | inl (f, _) ↦
                let c : Chan Queue = record (chan b d) {
                  drops = ((chan b d).drops + 1) % 2 ^ 32;
                } in
                let b' = set_chan b d c in
                let keep : b'.pool ≡ b.pool = pool-set_chan b d c in
                let ok : CanRelease b.pool i = can (ap has_queue e) in
                rw (e, f, publish_to)
                  (omega (
                    arith,
                    one,
                    held-set_pool fifo w b' (release_slot b' i).pool,
                    held-set_chan fifo w b d c refl,
                    release_slot-balance b' i (subst (λ q. CanRelease q i) (sym keep) ok),
                    ap m keep,
                  ))
            | inr (q', f, k, _) ↦
                let c : Chan Queue = record (chan b d) { queue = some q' } in
                rw (e, f, publish_to)
                  (omega (
                    arith,
                    one,
                    held-set_chan fifo w b d c (ap has_queue (sym e)),
                    ap (λ o. load w (items fifo o)) e,
                    ap (load w) k,
                    load-append w (contents q) (i ∷ []),
                    ap m (pool-set_chan b d c),
                  ))
          ]
    ]

    pub publish_next-Balanced :
        (b : Bus Queue) (p : Publisher)
        → b.publisher ≡ p
        → Releasable b p
        → Balanced b
        → Balanced (publish_next fifo p b)
    unfolding publish_next
    publish_next-Balanced b idle e can bal = bal
    publish_next-Balanced b (sending i []) e can bal =
        omega (arith, held-set_publisher fifo w b idle, ap (pending w b) e)
    publish_next-Balanced b (sending i (d ∷ ds)) e can bal =
        let b' = record b { publisher = sending i ds } in
        let same : chan b' d ≡ chan b d = chan-set_publisher b (sending i ds) d in
        publish_to-Balanced d i b'
          (λ h. can (ap (λ (c : Chan Queue). has_queue c.queue) (sym same) ∙ h))
          (omega (
            arith,
            held-set_publisher fifo w b (sending i ds),
            ap (pending w b) e,
            ap (λ (c : Chan Queue). w i * has_queue c.queue) same,
          ))

    pub publish_rtcm_frame-Balanced :
        (now_us : ℕ) (bs : List ℕ) (b : Bus Queue)
        → b.publisher ≡ idle
        → Balanced b
        → Balanced (publish_rtcm_frame now_us bs b)
    unfolding publish_rtcm_frame held
    publish_rtcm_frame-Balanced now_us bs b e bal =
        let n = ntrip_client_active_count b + ntrip_caster_active_count b in
        elim (Bool-cases (n == 0)) [
          | inl quiet ↦ rw (quiet, publish_rtcm_frame) bal
          | inr busy ↦ elim (Option-cases (pool_alloc b.pool)) [
            | inl f ↦ rw (busy, f, publish_rtcm_frame) bal
            | inr ((i, q), f) ↦
                rw (busy, f, publish_rtcm_frame)
                  (omega (arith, alloc-Account acc b.pool q i n bs f, ap (pending w b) e))
          ]
        ]

    start-Balanced :
        (now_us : ℕ) (bs : List ℕ) (b : Bus Queue) (p : Publisher)
        → b.publisher ≡ p
        → Balanced b
        → Balanced (start_publish fifo p now_us bs b)
    unfolding start_publish
    start-Balanced now_us bs b idle e bal = publish_rtcm_frame-Balanced now_us bs b e bal
    start-Balanced now_us bs b (sending i ds) e bal = bal

    -- Every visible step keeps the account balanced, if what it releases has references.
    pub step-Balanced :
        (a : Action) (b : Bus Queue)
        → Releasable b b.publisher
        → ((d : Dest) (i : ℕ) → (chan b d).hand ≡ some i → CanRelease b.pool i)
        → Balanced b
        → Balanced (step fifo a b)
    unfolding step start_publish
    step-Balanced (publish now_us bs) b can drop bal =
        start-Balanced now_us bs b b.publisher refl bal
    step-Balanced next b can drop bal = publish_next-Balanced b b.publisher refl can bal
    step-Balanced (takes d) b can drop bal = take_frame-Balanced d b bal
    step-Balanced (releases d) b can drop bal = release_frame-Balanced d b (drop d) bal
