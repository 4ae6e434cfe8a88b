-- ===== src/Gnss/Splitter/Nested.antt =====
-- A replay inside a replay: the older replay's unread bytes are overwritten in `replay_buf`.
use rtkbase.Prelude.{ℕ, ◌≡◌, List, ◌∷◌, some, subst}
use rtkbase.Gnss.Splitter.{Splitter, Event, splitter_push_byte, from_replay, Cursor, process_byte}
use rtkbase.Gnss.Splitter.Inv.{IsByte, IsValid, Outcome, splitter_push_byte-Outcome}
use rtkbase.Gnss.Splitter.Loop.{start_replay-eq}

-- A replay with the bytes `b ∷ rest` still to be read.
abbrev pub replaying : Splitter → List ℕ → List ℕ → List Event → Cursor
replaying s resume src ev = record {
  splitter = s;
  source = from_replay resume;
  src = src;
  events = ev;
}

-- Where a byte that is read from the replay buffer ends a false frame, the loop goes on in the same
-- way whatever bytes of the replay were still unread: they are lost to the splitter.
pub process_byte-forgets :
    (s : Splitter) (b k : ℕ) (resume rest other : List ℕ) (ev : List Event)
    → IsValid s
    → IsByte b
    → (splitter_push_byte s b).replay_start ≡ some k
    → process_byte (replaying s resume (b ∷ rest) ev) b rest
      ≡ process_byte (replaying s resume (b ∷ other) ev) b other
unfolding process_byte
process_byte-forgets s b k resume rest other ev v hb e =
    let p = splitter_push_byte s b in
    let (one, ok, _) = subst (Outcome s.buf_pos p) e (splitter_push_byte-Outcome s b v hb) in
    rw (
      e,
      one,
      process_byte,
      start_replay-eq (replaying s resume (b ∷ rest) ev) p.splitter rest _ ok,
      start_replay-eq (replaying s resume (b ∷ other) ev) p.splitter other _ ok,
    )
