-- ===== src/TcpServer/Accept.antt =====
-- What accept() leads to in a pass of task_tcp_server: the closing of a rejected connection ends once it stops
-- sending, and a new client takes over from no client.
use rtkbase.Prelude.{
  ℕ, zero, suc, ◌+◌, ◌<◌, ◌≤◌, ◌≡◌, ◌==◌, refl, ap, sym, ◌∙◌, ◌⊎◌, inl, inr, Bool, false, List,
  ◌++◌, Option, none, some, arith, Bool-cases,
}
use rtkbase.Rtos.{Fifo}
use rtkbase.Lwip.{Socket}
use rtkbase.TcpServer.Client.{Accepted, connection, again, accept_failed, Connection, Task}
use rtkbase.TcpServer.Progress.{Serves, IsIdle, backlog}
use rtkbase.TcpServer.Session.{
  admit, accept_step, Admitted, proceed, next_pass, give_up, close_socket_gracefully,
  reject_pending_client,
}

module _ (socket : Socket) (fifo : Fifo (List ℕ) 64) where
  open socket use {State, wire}
  open fifo use {Queue, contents, waiting, waiting_lem}

  -- The pending frame belongs to a client and the offset is inside it.
  abbrev pub Consistent : Task socket fifo → Type 0
  Consistent t = ((text : List ℕ) × Serves socket fifo t text) ⊎ IsIdle socket fifo t

  abbrev pub AdmittedOk : Admitted socket fifo → Type 0
  AdmittedOk (proceed t) = Consistent t
  AdmittedOk (next_pass t) = IsIdle socket fifo t
  AdmittedOk (give_up t) = Unit

  -- A connection that is to be rejected stops sending within `fuel` calls of recv().
  abbrev pub Quiet : ℕ → Accepted socket fifo → Type 0
  Quiet fuel (connection c) = (first : ℕ) × (first < fuel) × (c.sends_more first ≡ false)
  Quiet fuel again = Unit
  Quiet fuel accept_failed = Unit

  close_socket_gracefully-ends :
      (fuel : ℕ) (sends_more : ℕ → Bool) (n first : ℕ)
      → n ≤ first
      → first < n + fuel
      → sends_more first ≡ false
      → (k : ℕ) × (close_socket_gracefully socket fifo fuel sends_more n ≡ some k)
  unfolding close_socket_gracefully
  close_socket_gracefully-ends zero sends_more n first le lt ends = absurd (omega arith)
  close_socket_gracefully-ends (suc fuel) sends_more n first le lt ends =
      elim (Bool-cases (sends_more n)) [
        | inr e ↦ (n, rw e refl)
        | inl e ↦
            let later : n + 1 ≤ first = elim (Bool-cases (n == first)) [
              | inl same ↦
                  let is : n ≡ first = ground arith in
                  absurd (ground (arith, sym (ap sends_more is) ∙ e, ends))
              | inr other ↦ ground arith
            ] in
            let (k, run) =
              close_socket_gracefully-ends fuel sends_more (n + 1) first later (omega arith) ends in
            (k, rw e run)
      ]

  reject_pending_client-ends :
      (fuel : ℕ) (a : Accepted socket fifo)
      → Quiet fuel a
      → (k : ℕ) × (reject_pending_client socket fifo fuel a ≡ some k)
  unfolding reject_pending_client
  reject_pending_client-ends fuel (connection c) (first, lt, ends) =
      close_socket_gracefully-ends fuel c.sends_more 0 first (omega arith) (omega arith) ends
  reject_pending_client-ends fuel again q = (0, refl)
  reject_pending_client-ends fuel accept_failed q = (0, refl)

  admit-AdmittedOk :
      (t : Task socket fifo) (c : Connection socket fifo)
      → t.client ≡ none
      → Consistent t
      → AdmittedOk (admit socket fifo t c)
  unfolding admit
  admit-AdmittedOk t c e v = elim (Bool-cases c.nodelay_ok) [
    | inr f ↦ rw f (record { no_client = refl; no_pending = refl; no_offset = refl })
    | inl f ↦ elim (Bool-cases c.getfl_ok) [
      | inr g ↦ rw (f, g) (record { no_client = refl; no_pending = refl; no_offset = refl })
      | inl g ↦ elim (Bool-cases c.setfl_ok) [
        | inr h ↦ rw (f, g, h) tt
        | inl h ↦ rw (f, g, h) (admitted v)
      ]
    ]
  ]
    where
      admitted : Consistent t → Consistent (record t { client = some c.sock; endpoint = c.address })
      admitted (inl (text, w)) = absurd (ground (arith, w.connected, e))
      admitted (inr w) = inl (
        wire c.sock ++ backlog socket fifo t,
        record {
          net = c.sock;
          connected = refl;
          offset_in = omega (arith, w.no_offset);
          carried = refl;
        },
      )

  pub accept_step-AdmittedOk :
      (fuel : ℕ) (t : Task socket fifo) (client : Option State) (a : Accepted socket fifo)
      → t.client ≡ client
      → Consistent t
      → Quiet fuel a
      → (s : Admitted socket fifo) × (accept_step socket fifo fuel t client a ≡ some s)
        × AdmittedOk s
  unfolding accept_step
  accept_step-AdmittedOk fuel t (some net) a e v q =
      let (k, run) = reject_pending_client-ends fuel a q in (proceed t, rw run refl, v)
  accept_step-AdmittedOk fuel t none (connection c) e v q =
      (admit socket fifo t c, refl, admit-AdmittedOk t c e v)
  accept_step-AdmittedOk fuel t none again e v q = (proceed t, refl, v)
  accept_step-AdmittedOk fuel t none accept_failed e v q = (give_up t, refl, tt)
