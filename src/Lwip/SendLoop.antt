-- ===== src/Lwip/SendLoop.antt =====
-- The sending loop that main/ntrip_caster.c, main/ntrip_client.c and main/tcp_server.c each have, with
-- another limit of retries.
use rtkbase.Prelude.{
  [], ◌∷◌, ℕ, zero, suc, ◌+◌, ◌-◌, ◌<◌, ◌≤◌, ◌≡◌, ◌≢◌, refl, ap, sym, ◌∙◌, ◌⊎◌, inl, inr, List,
  ◌++◌, Option, none, some, arith, length, length-drop, take, take-append-drop, subst, drop,
  drop-drop, ltb, ◌==◌, Bool-cases, if◌then◌else◌, append_assoc,
}
use rtkbase.Lwip.{SendReply, sent, again, failed, accepted, Socket}

-- How the loop ends: all sent, out of retries, a count of 0, or an error with its errno.
pub data Ending : Type 0 where
  all_sent : Ending
  blocked : Ending
  sent_zero : Ending
  send_failed : ℕ → Ending

-- A count of 0, or an error other than a full buffer.
abbrev pub IsFatal : Ending → Type 0
IsFatal e = (e ≡ sent_zero) ⊎ ((errno : ℕ) × (e ≡ send_failed errno))

-- A bound of the rounds for `remaining` bytes, of up to `limit` retries each.
unfoldable pub rounds : ℕ → ℕ → ℕ
rounds zero limit = 0
rounds (suc remaining) limit = rounds remaining limit + (limit + 1)

pub Ending-cases :
    (e : Ending)
    → (e ≡ all_sent) ⊎ ((e ≡ blocked) ⊎ ((e ≡ sent_zero) ⊎ ((errno : ℕ) × (e ≡ send_failed errno))))
Ending-cases all_sent = inl refl
Ending-cases blocked = inr (inl refl)
Ending-cases sent_zero = inr (inr (inl refl))
Ending-cases (send_failed errno) = inr (inr (inr (errno, refl)))

pub drop_whole : (xs : List ℕ) (n : ℕ) → n ≡ length xs → drop n xs ≡ []
drop_whole [] zero h = refl
drop_whole [] (suc n) h = refl
drop_whole (x ∷ xs) zero h = absurd (omega arith)
drop_whole (x ∷ xs) (suc n) h = drop_whole xs n (omega arith)

SendReply-cases :
    (r : SendReply) → ((n : ℕ) × (r ≡ sent n)) ⊎ ((r ≡ again) ⊎ ((errno : ℕ) × (r ≡ failed errno)))
SendReply-cases (sent n) = inl (n, refl)
SendReply-cases again = inr (inl refl)
SendReply-cases (failed errno) = inr (inr (errno, refl))

module _ (socket : Socket) where
  open socket use {State, wire, send, accepted_le, wire-send}

  -- The socket after the loop, the offset, and how often the loop met a full send buffer.
  pub record Sending : Type 0 where
    pub ending : Ending
    pub net : State
    pub offset : ℕ
    pub blocks : ℕ

  -- The loop with the bytes from `offset` on still to send.
  unfoldable pub send_loop : ℕ → ℕ → State → List ℕ → ℕ → ℕ → ℕ → Option Sending
  send_loop limit zero net bytes offset retries blocks = none
  send_loop limit (suc fuel) net bytes offset retries blocks =
      if ltb offset (length bytes)
      then (let (reply, net') = send net (drop offset bytes) in
          elim reply [
            | sent n ↦
                let more = send_loop limit fuel net' bytes (offset + n) 0 blocks in
                if n == 0
                then some
                    (record { ending = sent_zero; net = net'; offset = offset; blocks = blocks })
                else more
            | again ↦
                let counted = if retries == 0 then blocks + 1 else blocks in
                let more = send_loop limit fuel net' bytes offset (retries + 1) counted in
                if ltb limit (retries + 1)
                then some
                    (record { ending = blocked; net = net'; offset = offset; blocks = counted })
                else more
            | failed errno ↦ some (record {
              ending = send_failed errno;
              net = net';
              offset = offset;
              blocks = blocks;
            })
          ])
      else some (record { ending = all_sent; net = net; offset = offset; blocks = blocks })

  -- The loop from offset `offset`, with enough fuel.
  unfoldable pub send_from : ℕ → State → List ℕ → ℕ → Option Sending
  unfolding send_loop rounds
  send_from limit net bytes offset =
      send_loop limit (rounds (length bytes - offset) limit + limit + 2) net bytes offset 0 0

  rounds_less :
      (limit more less : ℕ) → less < more → rounds less limit + (limit + 1) ≤ rounds more limit
  unfolding rounds
  rounds_less limit zero less h = absurd (omega arith)
  rounds_less limit (suc more) less h = elim (Bool-cases (less == more)) [
    | inl e ↦
        let same : less ≡ more = ground arith in
        subst (λ m. rounds less limit + (limit + 1) ≤ rounds m limit + (limit + 1)) same
          (omega arith)
    | inr e ↦ omega (arith, rounds_less limit more less (ground arith))
  ]

  -- What one call takes moves from the bytes left to the wire.
  wire-step :
      (net : State) (bytes : List ℕ) (offset : ℕ)
      → wire (send net (drop offset bytes)).1
          ++ drop (offset + accepted (send net (drop offset bytes)).0) bytes
        ≡ wire net ++ drop offset bytes
  wire-step net bytes offset =
      let n = accepted (send net (drop offset bytes)).0 in
      let left = drop offset bytes in
      ap (λ (w : List ℕ). w ++ drop (offset + n) bytes) (wire-send net left)
      ∙ (append_assoc (wire net) (take n left) (drop (offset + n) bytes)
          ∙ ap (λ (x : List ℕ). wire net ++ x)
              (ap (λ (x : List ℕ). take n left ++ x)
                  (sym (drop-drop bytes offset n (offset + n) refl))
                ∙ take-append-drop n left))

  -- What holds of a loop's result: the wire has the bytes up to the offset, and all of them have
  -- been sent exactly if the loop says so.
  pub record Sent (bytes : List ℕ) (before : List ℕ) (offset : ℕ) (r : Sending) : Type 0 where
    pub on_wire : wire r.net ++ drop r.offset bytes ≡ before ++ drop offset bytes
    pub from_offset : offset ≤ r.offset
    pub to_length : r.offset ≤ length bytes
    pub all_if : r.ending ≡ all_sent → r.offset ≡ length bytes
    pub only_if : r.offset ≡ length bytes → r.ending ≡ all_sent

  stopped :
      (net : State) (bytes : List ℕ) (offset blocks : ℕ) (ending : Ending)
      → offset < length bytes
      → ending ≢ all_sent
      → accepted (send net (drop offset bytes)).0 ≡ 0
      → Sent bytes (wire net) offset (record {
        ending = ending;
        net = (send net (drop offset bytes)).1;
        offset = offset;
        blocks = blocks;
      })
  stopped net bytes offset blocks ending lt not_all none_taken = record {
    on_wire =
        ap (λ k. wire (send net (drop offset bytes)).1 ++ drop k bytes) (omega arith)
        ∙ wire-step net bytes offset;
    from_offset = omega arith;
    to_length = omega arith;
    all_if = λ e. absurd (not_all e);
    only_if = λ e. absurd (omega arith);
  }

  send_loop-Sent :
      (limit fuel : ℕ) (net : State) (bytes : List ℕ) (offset retries blocks : ℕ)
      → offset ≤ length bytes
      → retries ≤ limit
      → rounds (length bytes - offset) limit + (limit - retries) < fuel
      → (r : Sending) × (send_loop limit fuel net bytes offset retries blocks ≡ some r)
        × Sent bytes (wire net) offset r
  unfolding send_loop
  send_loop-Sent limit zero net bytes offset retries blocks le few enough = absurd (omega arith)
  send_loop-Sent limit (suc fuel) net bytes offset retries blocks le few enough =
      let left = drop offset bytes in
      let net' = (send net left).1 in
      elim (Bool-cases (ltb offset (length bytes))) [
        | inr e ↦ (
          record { ending = all_sent; net = net; offset = offset; blocks = blocks },
          rw e,
          record {
            on_wire = refl;
            from_offset = omega arith;
            to_length = le;
            all_if = λ g. ground arith;
            only_if = λ g. refl;
          },
        )
        | inl e ↦ elim (SendReply-cases (send net left).0) [
          | inl (n, f) ↦
              let taken : accepted (send net left).0 ≡ n = ap accepted f in
              elim (Bool-cases (n == 0)) [
                | inl g ↦ (
                  record { ending = sent_zero; net = net'; offset = offset; blocks = blocks },
                  rw (e, f, g),
                  stopped net bytes offset blocks sent_zero (ground arith) (λ h. ground arith)
                      (ground arith),
                )
                | inr g ↦
                    let most : offset + n ≤ length bytes =
                      ground (arith, accepted_le net left, length-drop offset bytes) in
                    let fewer =
                      rounds_less limit (length bytes - offset) (length bytes - (offset + n))
                        (ground arith) in
                    let (r, run, ok) =
                      send_loop-Sent limit fuel net' bytes (offset + n) 0 blocks most (omega arith)
                        (omega arith) in
                    (
                      r,
                      rw (e, f, g) run,
                      record {
                        on_wire =
                            ok.on_wire
                            ∙ (ap (λ k. wire net' ++ drop (offset + k) bytes) (sym taken)
                                ∙ wire-step net bytes offset);
                        from_offset = omega (arith, ok.from_offset);
                        to_length = ok.to_length;
                        all_if = ok.all_if;
                        only_if = ok.only_if;
                      },
                    )
              ]
          | inr (inl f) ↦
              let counted : ℕ = if retries == 0 then blocks + 1 else blocks in
              let none_taken : accepted (send net left).0 ≡ 0 = ap accepted f in
              elim (Bool-cases (ltb limit (retries + 1))) [
                | inl g ↦ (
                  record { ending = blocked; net = net'; offset = offset; blocks = counted },
                  rw (e, f, g),
                  stopped net bytes offset counted blocked (ground arith) (λ h. ground arith)
                      none_taken,
                )
                | inr g ↦
                    let (r, run, ok) =
                      send_loop-Sent limit fuel net' bytes offset (retries + 1) counted le
                        (ground arith) (ground arith) in
                    (
                      r,
                      rw (e, f, g) run,
                      record {
                        on_wire =
                            ok.on_wire
                            ∙ (ap (λ k. wire net' ++ drop k bytes) (omega arith)
                                ∙ wire-step net bytes offset);
                        from_offset = ok.from_offset;
                        to_length = ok.to_length;
                        all_if = ok.all_if;
                        only_if = ok.only_if;
                      },
                    )
              ]
          | inr (inr (errno, f)) ↦ (
            record { ending = send_failed errno; net = net'; offset = offset; blocks = blocks },
            rw (e, f),
            stopped net bytes offset blocks (send_failed errno) (ground arith) (λ h. ground arith)
                (ap accepted f),
          )
        ]
      ]

  -- The sending loop ends, whatever the socket answers; it has sent the bytes from the offset on up to
  -- the offset that it returns, in order and once each, and ends with all sent exactly if that offset
  -- is the length.
  pub send_from-Sent :
      (limit : ℕ) (net : State) (bytes : List ℕ) (offset : ℕ)
      → offset ≤ length bytes
      → (r : Sending) × (send_from limit net bytes offset ≡ some r) × Sent bytes (wire net) offset r
  unfolding send_from
  send_from-Sent limit net bytes offset le =
      send_loop-Sent limit (rounds (length bytes - offset) limit + limit + 2) net bytes offset 0 0
        le (omega arith) (omega arith)
