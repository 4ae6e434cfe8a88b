-- ===== src/Rtos/ListQueue.antt =====
-- A queue as a list, oldest item first: it meets the laws that the components rely on.
use mathlib.Core.Option
use rtkbase.Prelude.{
  ℕ, ◌≡◌, refl, Option, none, some, List, [], ◌∷◌, ◌++◌, length, ltb, if◌then◌else◌, Bool-cases,
  inl, inr,
}
use rtkbase.Rtos.{Fifo, uncons}

list_send : {A : Type 0} → ℕ → List A → A → Option (List A)
list_send depth q a = if ltb (length q) depth then some (q ++ a ∷ []) else none

list_send_lem :
    {A : Type 0} (depth : ℕ) (q : List A) (a : A)
    → Option.map (λ (x : List A). x) (list_send depth q a)
      ≡ (if ltb (length q) depth then some (q ++ a ∷ []) else none)
unfolding list_send
list_send_lem depth q a = elim (Bool-cases (ltb (length q) depth)) [ inl e ↦ rw e | inr e ↦ rw e ]

uncons_lem :
    {A : Type 0} (q : List A) → Option.map (λ (r : A × List A). (r.0, r.1)) (uncons q) ≡ uncons q
uncons_lem [] = refl
uncons_lem (x ∷ q) = refl

unfoldable pub list_fifo : (A : Type 0) (depth : ℕ) → Fifo A depth
unfolding list_send list_send_lem uncons_lem
list_fifo A depth = record {
  Queue = List A;
  contents = λ q. q;
  create = [];
  send = list_send depth;
  receive = uncons;
  waiting = length;
  contents-create = refl;
  contents-send = list_send_lem depth;
  contents-receive = uncons_lem;
  waiting_lem = λ q. refl;
}
