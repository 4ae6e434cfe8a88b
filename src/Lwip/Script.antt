-- ===== src/Lwip/Script.antt =====
-- A socket that follows a script of counts: it takes at most the next count of bytes, 0 stands for
-- a full send buffer, and with no script left it takes all.
use rtkbase.Prelude.{
  ℕ, zero, suc, ◌≤◌, ◌≡◌, refl, List, [], ◌∷◌, ◌++◌, arith, length, take, min, append-nil, sym,
}
use rtkbase.Lwip.{SendReply, sent, again, accepted, Socket}

pub record Scripted : Type 0 where
  pub taken : List ℕ
  pub script : List ℕ

abbrev send_some : ℕ → List ℕ → List ℕ → List ℕ → SendReply × Scripted
send_some zero taken script bytes = (again, record { taken = taken; script = script })
send_some (suc n) taken script bytes = (
  sent (min (suc n) (length bytes)),
  record { taken = taken ++ take (min (suc n) (length bytes)) bytes; script = script },
)

abbrev scripted_send : List ℕ → List ℕ → List ℕ → SendReply × Scripted
scripted_send taken [] bytes =
    (sent (length bytes), record { taken = taken ++ take (length bytes) bytes; script = [] })
scripted_send taken (n ∷ script) bytes = send_some n taken script bytes

pub scripted_le :
    (taken script bytes : List ℕ) → accepted (scripted_send taken script bytes).0 ≤ length bytes
scripted_le taken [] bytes = omega arith
scripted_le taken (zero ∷ script) bytes = omega arith
scripted_le taken (suc n ∷ script) bytes = omega arith

pub scripted_wire :
    (taken script bytes : List ℕ)
    → (scripted_send taken script bytes).1.taken
      ≡ taken ++ take (accepted (scripted_send taken script bytes).0) bytes
scripted_wire taken [] bytes = refl
scripted_wire taken (zero ∷ script) bytes = sym (append-nil taken)
scripted_wire taken (suc n ∷ script) bytes = refl

abbrev pub scripted : Socket
scripted = record {
  State = Scripted;
  wire = λ s. s.taken;
  send = λ s bytes. scripted_send s.taken s.script bytes;
  accepted_le = λ s bytes. scripted_le s.taken s.script bytes;
  wire-send = λ s bytes. scripted_wire s.taken s.script bytes;
}
