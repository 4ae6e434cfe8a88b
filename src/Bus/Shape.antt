-- ===== src/Bus/Shape.antt =====
-- What every step keeps of the pool's size, of the queues' lengths and of the publisher's plan.
use rtkbase.Prelude.{
  ℕ, ◌+◌, ◌≤◌, ◌≡◌, refl, ap, ◌∙◌, List, [], ◌∷◌, arith, length, Option-cases, inl, inr,
  length-append, Bool-cases, ◌==◌,
}
use rtkbase.Rtos.{Fifo, send_cases, receive_cases}
use rtkbase.Pool.{frame_queue_depth, pool_alloc, pool_set_refs, pool_release}
use rtkbase.Pool.Laws.{length-store_refs, pool_alloc-some}
use rtkbase.Bus.{
  Bus, Chan, Dest, uplink1, uplink2, local_caster, Publisher, idle, sending, chan, set_chan,
  store_bytes, publish_rtcm_frame, publish_to, publish_next, take_frame, release_frame,
  release_slot, start_publish, step, Action, publish, next, takes, releases,
  ntrip_client_active_count, ntrip_caster_active_count,
}
use rtkbase.Bus.Account.{length-store_bytes}
use rtkbase.Bus.Held.{items}

-- How many destinations the publisher has still to serve.
abbrev pub todo : Publisher → ℕ
todo idle = 0
todo (sending i ds) = length ds

module _ (fifo : Fifo ℕ frame_queue_depth) where
  open fifo use {Queue, contents, send, receive}

  pub record HasShape (b : Bus Queue) : Type 0 where
    pub size : length b.pool ≡ 56
    pub fits1 : length (items fifo b.client1.queue) ≤ frame_queue_depth
    pub fits2 : length (items fifo b.client2.queue) ≤ frame_queue_depth
    pub fits3 : length (items fifo b.caster.queue) ≤ frame_queue_depth
    pub short : todo b.publisher ≤ 3

  pub fits_at :
      (b : Bus Queue) (d : Dest)
      → HasShape b
      → length (items fifo (chan b d).queue) ≤ frame_queue_depth
  fits_at b uplink1 s = s.fits1
  fits_at b uplink2 s = s.fits2
  fits_at b local_caster s = s.fits3

  set_chan-HasShape :
      (b : Bus Queue) (d : Dest) (c : Chan Queue)
      → length (items fifo c.queue) ≤ frame_queue_depth
      → HasShape b
      → HasShape (set_chan b d c)
  set_chan-HasShape b uplink1 c h s = omega arith
  set_chan-HasShape b uplink2 c h s = omega arith
  set_chan-HasShape b local_caster c h s = omega arith

  release_slot-HasShape : (b : Bus Queue) (i : ℕ) → HasShape b → HasShape (release_slot b i)
  unfolding pool_release
  release_slot-HasShape b i s = record {
    size = length-store_refs b.pool i _ ∙ s.size;
    fits1 = s.fits1;
    fits2 = s.fits2;
    fits3 = s.fits3;
    short = s.short;
  }

  publish_to-HasShape :
      (d : Dest) (i : ℕ) (b : Bus Queue) → HasShape b → HasShape (publish_to fifo d i b)
  unfolding publish_to
  publish_to-HasShape d i b s = elim (Option-cases (chan b d).queue) [
    | inl e ↦ rw (e, publish_to) s
    | inr (q, e) ↦ elim (send_cases fifo q i) [
      | inl (f, _) ↦
          rw (e, f, publish_to)
            (release_slot-HasShape (set_chan b d _) i (set_chan-HasShape b d _ (fits_at b d s) s))
      | inr (q', f, k, room) ↦
          rw (e, f, publish_to)
            (set_chan-HasShape b d _
              (omega (arith, ap length k, length-append (contents q) (i ∷ []))) s)
    ]
  ]

  publish_next-HasShape :
      (b : Bus Queue) (p : Publisher)
      → b.publisher ≡ p
      → HasShape b
      → HasShape (publish_next fifo p b)
  unfolding publish_next
  publish_next-HasShape b idle e s = s
  publish_next-HasShape b (sending i []) e s = omega arith
  publish_next-HasShape b (sending i (d ∷ ds)) e s =
      publish_to-HasShape d i (record b { publisher = sending i ds }) (omega (arith, ap todo e))

  publish_rtcm_frame-HasShape :
      (now_us : ℕ) (bs : List ℕ) (b : Bus Queue)
      → HasShape b
      → HasShape (publish_rtcm_frame now_us bs b)
  unfolding publish_rtcm_frame pool_set_refs
  publish_rtcm_frame-HasShape now_us bs b s =
      let n = ntrip_client_active_count b + ntrip_caster_active_count b in
      elim (Bool-cases (n == 0)) [
        | inl quiet ↦ rw (quiet, publish_rtcm_frame) (omega arith)
        | inr busy ↦ elim (Option-cases (pool_alloc b.pool)) [
          | inl f ↦ rw (busy, f, publish_rtcm_frame) (omega arith)
          | inr ((i, q), f) ↦
              let (_, _, eq) = pool_alloc-some b.pool q i f in
              rw (busy, f, publish_rtcm_frame)
                (omega (
                  arith,
                  length-store_refs (store_bytes q i bs) i n,
                  length-store_bytes q i bs,
                  ap length eq,
                  length-store_refs b.pool i 1,
                ))
        ]
      ]

  take_frame-HasShape : (d : Dest) (b : Bus Queue) → HasShape b → HasShape (take_frame fifo d b)
  unfolding take_frame
  take_frame-HasShape d b s = elim (Option-cases (chan b d).hand) [
    | inr (i, e) ↦ rw (e, take_frame) s
    | inl e ↦ elim (Option-cases (chan b d).queue) [
      | inl f ↦ rw (e, f, take_frame) s
      | inr (q, f) ↦ elim (receive_cases fifo q) [
        | inl (g, _) ↦ rw (e, f, g, take_frame) s
        | inr (i, q', g, k) ↦
            rw (e, f, g, take_frame)
              (set_chan-HasShape b d _
                (omega (arith, ap length k, fits_at b d s, ap (λ o. length (items fifo o)) f)) s)
      ]
    ]
  ]

  release_frame-HasShape :
      (d : Dest) (b : Bus Queue) → HasShape b → HasShape (release_frame fifo d b)
  unfolding release_frame
  release_frame-HasShape d b s = elim (Option-cases (chan b d).hand) [
    | inl e ↦ rw (e, release_frame) s
    | inr (i, e) ↦
        rw (e, release_frame)
          (release_slot-HasShape (set_chan b d _) i (set_chan-HasShape b d _ (fits_at b d s) s))
  ]

  start-HasShape :
      (now_us : ℕ) (bs : List ℕ) (b : Bus Queue) (p : Publisher)
      → HasShape b
      → HasShape (start_publish fifo p now_us bs b)
  unfolding start_publish
  start-HasShape now_us bs b idle s = publish_rtcm_frame-HasShape now_us bs b s
  start-HasShape now_us bs b (sending i ds) s = s

  -- Every step keeps the pool's size, the queues within their depth and the plan short.
  pub step-HasShape : (a : Action) (b : Bus Queue) → HasShape b → HasShape (step fifo a b)
  unfolding step
  step-HasShape (publish now_us bs) b s = start-HasShape now_us bs b b.publisher s
  step-HasShape next b s = publish_next-HasShape b b.publisher refl s
  step-HasShape (takes d) b s = take_frame-HasShape d b s
  step-HasShape (releases d) b s = release_frame-HasShape d b s
