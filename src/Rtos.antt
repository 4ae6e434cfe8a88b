-- ===== src/Rtos.antt =====
-- The interface of the FreeRTOS queues that main/gnss_uart.c, main/ntrip_client.c,
-- main/ntrip_caster.c and main/tcp_server.c use. FreeRTOS is not part of the repository: its
-- queue is a parameter, with the documented behaviour of the calls as laws.
pub mod ListQueue
use mathlib.Core.Option
use rtkbase.Prelude.{
  ℕ, suc, ◌+◌, ◌<◌, ◌≤◌, ◌≡◌, refl, Option, none, some, List, [], ◌∷◌, ◌++◌, arith, length, ltb,
  if◌then◌else◌, ◌⊎◌, inl, inr, Option-cases, Bool-cases,
}

abbrev pub uncons {ℓ} : {A : Type ℓ} → List A → Option (A × List A)
uncons [] = none
uncons (x ∷ xs) = some (x, xs)

-- A queue of at most `depth` items: `xQueueCreate`, `xQueueSend` and `xQueueReceive` without
-- waiting (`none` is not pdTRUE), and `uxQueueMessagesWaiting`.
pub record Fifo (A : Type 0) (depth : ℕ) : Type 1 where
  pub Queue : Type 0
  pub contents : Queue → List A
  pub create : Queue
  pub send : Queue → A → Option Queue
  pub receive : Queue → Option (A × Queue)
  pub waiting : Queue → ℕ
  pub contents-create : contents create ≡ []
  pub contents-send :
      (q : Queue) (a : A)
      → Option.map contents (send q a)
        ≡ (if ltb (length (contents q)) depth then some (contents q ++ a ∷ []) else none)
  pub contents-receive :
      (q : Queue)
      → Option.map (λ (r : A × Queue). (r.0, contents r.1)) (receive q) ≡ uncons (contents q)
  pub waiting_lem : (q : Queue) → waiting q ≡ length (contents q)

module _ {A : Type 0} {depth : ℕ} (fifo : Fifo A depth) where
  open fifo use {Queue, contents, send, receive, contents-send, contents-receive}

  -- Room: the item is appended. No room: the send fails.
  pub send_cases :
      (q : Queue) (a : A)
      → ((send q a ≡ none) × (depth ≤ length (contents q)))
        ⊎ ((q' : Queue) × (send q a ≡ some q')
            × (contents q' ≡ contents q ++ a ∷ [])
            × (length (contents q) < depth))
  send_cases q a = elim (Option-cases (send q a)) [
    | inl e ↦ inl (e, ground (arith, contents-send q a))
    | inr (q', e) ↦
        inr (q', e, ground (arith, contents-send q a), ground (arith, contents-send q a))
  ]

  -- An empty queue gives nothing; another gives its oldest item.
  pub receive_cases :
      (q : Queue)
      → ((receive q ≡ none) × (contents q ≡ []))
        ⊎ ((a : A) × (q' : Queue) × (receive q ≡ some (a, q')) × (contents q ≡ a ∷ contents q'))
  receive_cases q = elim (Option-cases (receive q)) [
    | inl e ↦ inl (e, ground (arith, contents-receive q))
    | inr ((a, q'), e) ↦ inr (a, q', e, ground (arith, contents-receive q))
  ]
