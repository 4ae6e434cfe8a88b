-- ===== src/TcpServer/Progress.antt =====
-- One attempt of task_tcp_server to send a frame: how far it brings the connection, and why it stops.
use rtkbase.Prelude.{
  ℕ, ◌≤◌, ◌≡◌, refl, ap, sym, subst, ◌∙◌, ◌⊎◌, inl, inr, List, [], ◌++◌, Option, none, some, arith,
  length, drop, concat, append_assoc,
}
use rtkbase.Rtos.{Fifo}
use rtkbase.Lwip.{Socket}
use rtkbase.Lwip.SendLoop.{
  IsFatal, blocked, Sending, send_from, send_from-Sent, Ending-cases, drop_whole,
}
use rtkbase.TcpServer.Client.{Task, after_send, send_pending, count_send, sent_of, close_client}

abbrev pub frame_of : Option (List ℕ) → List ℕ
frame_of none = []
frame_of (some frame) = frame

module _ (socket : Socket) (fifo : Fifo (List ℕ) 64) where
  open socket use {State, wire}
  open fifo use {Queue, contents, receive, waiting, waiting_lem}

  -- What is still to be sent: the rest of the pending frame and the queue's frames.
  abbrev pub backlog : Task socket fifo → List ℕ
  backlog t = drop t.offset (frame_of t.pending) ++ concat (contents t.queue)

  -- A task with a client whose connection has carried a beginning of `text`, the backlog being the rest.
  pub record Serves (t : Task socket fifo) (text : List ℕ) : Type 0 where
    pub net : State
    pub connected : t.client ≡ some net
    pub offset_in : t.offset ≤ length (frame_of t.pending)
    pub carried : wire net ++ backlog t ≡ text

  -- A task without a client has no pending frame.
  pub record IsIdle (t : Task socket fifo) : Type 0 where
    pub no_client : t.client ≡ none
    pub no_pending : t.pending ≡ none
    pub no_offset : t.offset ≡ 0

  -- A run of the sending loop with a frame, when the connection has carried all of `text` before what is
  -- left of that frame; `behind` are the bytes that come after it.
  pub record Attempt (text : List ℕ) : Type 0 where
    pub net : State
    pub frame : List ℕ
    pub offset : ℕ
    pub behind : List ℕ
    pub result : Sending socket
    pub run : send_from socket 40 net frame offset ≡ some result
    pub begins : wire net ++ (drop offset frame ++ behind) ≡ text

  -- A frame is pending because the socket was full for all the retries of an attempt to send it: the
  -- task has that attempt's frame, the offset it reached and the socket it left.
  pub record Stalled (t : Task socket fifo) (text : List ℕ) : Type 0 where
    pub attempt : Attempt text
    pub socket_full : attempt.result.ending ≡ blocked
    pub client_is : t.client ≡ some attempt.result.net
    pub pending_is : t.pending ≡ some attempt.frame
    pub offset_is : t.offset ≡ attempt.result.offset
    pub behind_is : concat (contents t.queue) ≡ attempt.behind

  -- The client is gone because send() failed, or took nothing, in an attempt.
  pub record Broken (t : Task socket fifo) (text : List ℕ) : Type 0 where
    pub attempt : Attempt text
    pub failed : IsFatal attempt.result.ending
    pub idle : IsIdle t

  -- Where the sending stands after a send.
  abbrev pub Progress : Task socket fifo → List ℕ → Type 0
  Progress t text =
      (Serves t text × (t.pending ≡ none)) ⊎ ((Serves t text × Stalled t text) ⊎ Broken t text)

  -- One attempt to send the pending frame.
  pub send_pending-Serves :
      (t : Task socket fifo) (net : State) (frame : List ℕ)
      → t.pending ≡ some frame
      → t.offset ≤ length frame
      → (t' : Task socket fifo) × (send_pending socket fifo t net frame ≡ some t')
        × (t'.queue ≡ t.queue)
        × Progress t' (wire net ++ (drop t.offset frame ++ concat (contents t.queue)))
  unfolding send_pending after_send
  send_pending-Serves t net frame is le =
      let (r, run, ok) = send_from-Sent socket 40 net frame t.offset le in
      let queued = concat (contents t.queue) in
      let total : (rest : List ℕ)
          → wire r.net ++ rest ≡ wire net ++ drop t.offset frame
          → wire r.net ++ (rest ++ queued) ≡ wire net ++ (drop t.offset frame ++ queued) =
        λ rest e.
          sym (append_assoc (wire r.net) rest queued)
          ∙ (ap (λ (x : List ℕ). x ++ queued) e
              ∙ append_assoc (wire net) (drop t.offset frame) queued) in
      let attempt : Attempt (wire net ++ (drop t.offset frame ++ queued)) = record {
        net = net;
        frame = frame;
        offset = t.offset;
        behind = queued;
        result = r;
        run = run;
        begins = refl;
      } in
      (
        after_send socket fifo t r,
        rw run refl,
        elim (Ending-cases r.ending) [
          | inl e ↦ rw (e, after_send, sent_of, count_send) refl
          | inr (inl e) ↦ rw (e, after_send, sent_of, count_send) refl
          | inr (inr (inl e)) ↦ rw (e, after_send, sent_of, count_send, close_client) refl
          | inr (inr (inr (errno, e))) ↦ rw (e, after_send, sent_of, count_send, close_client) refl
        ],
        elim (Ending-cases r.ending) [
          | inl e ↦
              rw (e, after_send, sent_of)
                (inl (
                  record {
                    net = r.net;
                    connected = refl;
                    offset_in = omega arith;
                    carried = total [] (
                        ap (λ (x : List ℕ). wire r.net ++ x)
                          (sym (drop_whole frame r.offset (ok.all_if e)))
                        ∙ ok.on_wire);
                  },
                  refl,
                ))
          | inr (inl e) ↦
              rw (e, after_send, sent_of)
                (inr (
                  inl (
                    record {
                      net = r.net;
                      connected = refl;
                      offset_in = subst (λ p. r.offset ≤ length (frame_of p)) (sym is) ok.to_length;
                      carried =
                          ap (λ p. wire r.net ++ (drop r.offset (frame_of p) ++ queued)) is
                          ∙ total (drop r.offset frame) ok.on_wire;
                    },
                    record {
                      attempt = attempt;
                      socket_full = e;
                      client_is = refl;
                      pending_is = is;
                      offset_is = refl;
                      behind_is = refl;
                    },
                  )))
          | inr (inr (inl e)) ↦
              rw (e, after_send, sent_of, close_client)
                (inr (
                  inr (record {
                    attempt = attempt;
                    failed = inl e;
                    idle = record { no_client = refl; no_pending = refl; no_offset = refl };
                  })))
          | inr (inr (inr (errno, e))) ↦
              rw (e, after_send, sent_of, close_client)
                (inr (
                  inr (record {
                    attempt = attempt;
                    failed = inr (errno, e);
                    idle = record { no_client = refl; no_pending = refl; no_offset = refl };
                  })))
        ],
      )
