-- ===== src/Gnss/Console/Tests.antt =====
-- The receiver console on concrete bytes.
use rtkbase.Prelude.{
  ℕ, ◌≡◌, refl, inr, true, false, [], ◌∷◌, ◌++◌, some, arith, length, length-replicate, replicate,
  if◌then◌else◌, keep_last,
}
use rtkbase.ByteRing.Contents.{contents}
use rtkbase.CText.{codes}
use rtkbase.Gnss.Console.{
  Console, console_line_interesting, console_push_bytes, push_each, console_push_byte,
  consume_begin, consume_copy, put_line, push_text,
}
use rtkbase.Gnss.Console.Lines.{IsConsole, console_push_bytes-safe, console_push_bytes-line}
use rtkbase.Gnss.Console.Consume.{push_all, consume_copy-push_all}

abbrev pub fresh : Console
fresh = record {
  ring = record { buf = replicate 8192 0; head = 0; used = 0 };
  spare = replicate 8192 0;
  line = [];
  line_binary = false;
  suppress_until = 0;
}

pub fresh-IsConsole : IsConsole fresh
fresh-IsConsole = record {
  ring_ok = record {
    length_buf = length-replicate {A = ℕ} 8192 0;
    head_in = omega arith;
    used_in = omega arith;
  };
  spare_ok = length-replicate {A = ℕ} 8192 0;
  line_in = omega arith;
}

checksum_is_interesting : console_line_interesting (codes "$GNGGA,1*5C") ≡ true
unfolding console_line_interesting
checksum_is_interesting = refl

fragment_is_not : console_line_interesting (codes "$NHnR") ≡ false
unfolding console_line_interesting
fragment_is_not = refl

console_push_bytes-safe_example :
    (c' : Console) × (console_push_bytes fresh 7 (0xd3 ∷ 0 ∷ codes "OK\r\n") ≡ some c')
    × IsConsole c'
console_push_bytes-safe_example =
    console_push_bytes-safe fresh 7 (0xd3 ∷ 0 ∷ codes "OK\r\n") fresh-IsConsole

console_push_bytes-line_example :
    (c' : Console) × (console_push_bytes fresh 7 (codes "OK" ++ 10 ∷ []) ≡ some c')
    × (contents 8192 c'.ring
        ≡ keep_last 8192 (
            contents 8192 fresh.ring
            ++ (if console_line_interesting (codes "OK") then codes "OK" ++ 10 ∷ [] else [])))
    × (length c'.line ≡ 0)
console_push_bytes-line_example =
    console_push_bytes-line fresh 7 (codes "OK") fresh-IsConsole (omega arith) refl refl
      (inr (omega arith, omega arith), (inr (omega arith, omega arith), tt)) (omega arith)

-- What a reader that pushes "O" leaves after the critical section of a consume.
abbrev after_o : Console
after_o = record fresh { line = b'O' ∷ [] }

after_o_lem : push_all (consume_begin fresh 100).0 ((7, b'O' ∷ []) ∷ []) ≡ some after_o
unfolding push_all consume_begin console_push_bytes push_each console_push_byte push_text put_line
after_o_lem = refl

consume_copy-push_all_example :
    (consume_copy after_o (consume_begin fresh 100).1 ≡ keep_last 99 (contents 8192 fresh.ring))
    × (contents 8192 (consume_begin fresh 100).0.ring ≡ [])
consume_copy-push_all_example =
    consume_copy-push_all fresh 100 ((7, b'O' ∷ []) ∷ []) after_o fresh-IsConsole (omega arith)
      after_o_lem
