-- ===== src/Gnss/Console/Consume.antt =====
-- Taking the text of the receiver console away while the reader goes on writing.
use rtkbase.Prelude.{
  ◌>>=◌, ℕ, ◌+◌, ◌-◌, ◌<◌, ◌≡◌, refl, ◌∙◌, inl, inr, Bool, true, false, not, ◌&&◌, ◌||◌, List, [],
  ◌∷◌, Option, none, some, arith, length, ltb, leb, ◌==◌, Bool-cases, if◌then◌else◌, keep_last,
}
use rtkbase.ByteRing.{snapshot}
use rtkbase.ByteRing.Contents.{contents, snapshot-contents}
use rtkbase.Gnss.Console.{
  Console, console_is_likely_line_start, console_append, with_line, console_store_line, put_line,
  push_text, console_push_byte, push_each, console_push_bytes, consume_begin, consume_copy,
}
use rtkbase.ByteRing.Window.{window}
use rtkbase.Gnss.Console.Lines.{IsConsole}

-- A step that leaves the other buffer as it is.
Keeps : List ℕ → Option Console → Type 0
Keeps b o = (c' : Console) → o ≡ some c' → c'.spare ≡ b

console_store_line-Keeps : (c : Console) → Keeps c.spare (console_store_line c)
unfolding console_store_line console_append Keeps
console_store_line-Keeps c = ground arith

put_line-Keeps : (c : Console) (b : ℕ) → Keeps c.spare (put_line c b)
unfolding put_line Keeps
put_line-Keeps c b = ground arith

bind-Keeps :
    (b : List ℕ) (o : Option Console) (f : Console → Option Console)
    → Keeps b o
    → ((c : Console) → c.spare ≡ b → Keeps b (f c))
    → Keeps b (o >>= f)
unfolding Keeps
bind-Keeps b none f h k c' e = absurd (ground arith)
bind-Keeps b (some c) f h k c' e = k c (h c refl) c' e

-- From a console that has the buffer.
to_buffer :
    (b : List ℕ) (c : Console) (o : Option Console) → c.spare ≡ b → Keeps c.spare o → Keeps b o
unfolding Keeps
to_buffer b c o same h c' e = h c' e ∙ same

push_text-Keeps : (c : Console) (x : ℕ) → Keeps c.spare (push_text c x)
unfolding push_text Keeps
push_text-Keeps c x =
    bind-Keeps c.spare (if leb 256 (length c.line + 1) then console_store_line c else some c)
      (λ roomy. put_line roomy x) first
      (λ roomy same. to_buffer c.spare roomy (put_line roomy x) same (put_line-Keeps roomy x))
  where
    first : Keeps c.spare (if leb 256 (length c.line + 1) then console_store_line c else some c)
    first = elim (Bool-cases (leb 256 (length c.line + 1))) [
      | inl e ↦ rw e (console_store_line-Keeps c)
      | inr e ↦ λ c' f. ground arith
    ]

console_push_byte-Keeps : (c : Console) (b : ℕ) → Keeps c.spare (console_push_byte c b)
unfolding console_push_byte Keeps
console_push_byte-Keeps c b = elim (Bool-cases (b == 13 || b == 10)) [
  | inl e ↦ rw e (console_store_line-Keeps c)
  | inr e ↦ elim (Bool-cases (b == 9 || (leb 0x20 b && leb b 0x7e))) [
    | inl f ↦ rw (e, f) (choose c.line_binary)
    | inr f ↦ rw (e, f) (done (with_line c [] true) refl)
  ]
]
  where
    done : (c' : Console) → c'.spare ≡ c.spare → Keeps c.spare (some c')
    done c' same c'' e = ground arith

    choose :
        (m : Bool)
        → Keeps c.spare (
            if m
            then (if not (console_is_likely_line_start b)
                then some c
                else push_text (with_line c [] false) b)
            else push_text c b)
    choose false = push_text-Keeps c b
    choose true = elim (Bool-cases (not (console_is_likely_line_start b))) [
      | inl h ↦ rw h (done c refl)
      | inr h ↦ rw h (push_text-Keeps (with_line c [] false) b)
    ]

push_each-Keeps : (bytes : List ℕ) (c : Console) → Keeps c.spare (push_each c bytes)
unfolding push_each Keeps
push_each-Keeps [] c = λ c' e. ground arith
push_each-Keeps (b ∷ bytes) c =
    bind-Keeps c.spare (console_push_byte c b) (λ c'. push_each c' bytes)
      (console_push_byte-Keeps c b)
      (λ c' same. to_buffer c.spare c' (push_each c' bytes) same (push_each-Keeps bytes c'))

-- The reader's calls between the two parts of a consume: the time and the bytes of each.
unfoldable pub push_all : Console → List (ℕ × List ℕ) → Option Console
push_all c [] = some c
push_all c ((now, bytes) ∷ calls) = console_push_bytes c now bytes >>= λ c'. push_all c' calls

push_all-Keeps : (calls : List (ℕ × List ℕ)) (c : Console) → Keeps c.spare (push_all c calls)
unfolding push_all console_push_bytes Keeps
push_all-Keeps [] c = λ c' e. ground arith
push_all-Keeps ((now, bytes) ∷ calls) c =
    bind-Keeps c.spare (console_push_bytes c now bytes) (λ c'. push_all c' calls) first
      (λ c' same. to_buffer c.spare c' (push_all c' calls) same (push_all-Keeps calls c'))
  where
    first : Keeps c.spare (console_push_bytes c now bytes)
    first = elim (Bool-cases (not (c.suppress_until == 0) && ltb now c.suppress_until)) [
      | inl e ↦ rw e (λ c' f. ground arith)
      | inr e ↦ rw e (push_each-Keeps bytes c)
    ]

-- A consume of a sound console into a destination of `dest_size` bytes copies the last
-- `dest_size - 1` bytes of the text that was there when it began, whatever the reader pushes between
-- its critical section and its copying; after the critical section the console holds no text.
pub consume_copy-push_all :
    (c : Console) (dest_size : ℕ) (calls : List (ℕ × List ℕ)) (c' : Console)
    → IsConsole c
    → 0 < dest_size
    → push_all (consume_begin c dest_size).0 calls ≡ some c'
    → (consume_copy c' (consume_begin c dest_size).1
        ≡ keep_last (dest_size - 1) (contents 8192 c.ring))
      × (contents 8192 (consume_begin c dest_size).0.ring ≡ [])
unfolding consume_copy consume_begin snapshot contents window Keeps
consume_copy-push_all c dest_size calls c' v pos run =
    let some_room : (dest_size == 0) ≡ false = ground arith in
    let same : c'.spare ≡ c.ring.buf = push_all-Keeps calls (consume_begin c dest_size).0 c' run in
    (rw (same, ← snapshot-contents 8192 c.ring dest_size v.ring_ok pos, some_room, snapshot), refl)
