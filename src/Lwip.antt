-- ===== src/Lwip.antt =====
-- The interface of a connected lwIP socket that main/ntrip_caster.c, main/ntrip_client.c and
-- main/tcp_server.c send on. lwIP is not part of the repository: a socket is a parameter, with the
-- documented behaviour of send() as laws.
pub mod SendLoop
pub mod Script
use rtkbase.Prelude.{ℕ, ◌≤◌, ◌≡◌, List, ◌++◌, length, take}

-- What send() returns: a count, or -1 with errno EAGAIN or EWOULDBLOCK, or -1 with another errno.
pub data SendReply : Type 0 where
  sent : ℕ → SendReply
  again : SendReply
  failed : ℕ → SendReply

-- The number of bytes that a call has taken.
abbrev pub accepted : SendReply → ℕ
accepted (sent n) = n
accepted again = 0
accepted (failed errno) = 0

-- A socket's state, and `wire`, the bytes it has taken since it was connected. A call takes a
-- beginning of the bytes it is given, of the length that it returns, and nothing when it fails.
pub record Socket : Type 1 where
  pub State : Type 0
  pub wire : State → List ℕ
  pub send : State → List ℕ → SendReply × State
  pub accepted_le : (s : State) (bytes : List ℕ) → accepted (send s bytes).0 ≤ length bytes
  pub wire-send :
      (s : State) (bytes : List ℕ)
      → wire (send s bytes).1 ≡ wire s ++ take (accepted (send s bytes).0) bytes
