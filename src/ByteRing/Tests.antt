-- ===== src/ByteRing/Tests.antt =====
-- A ring of four bytes.
use rtkbase.Prelude.{ℕ, ◌≡◌, refl, List, [], ◌∷◌, arith, keep_last}
use rtkbase.ByteRing.{ByteRing, append, snapshot, copy_out, put_bytes, put_byte}
use rtkbase.ByteRing.Contents.{IsRing, snapshot-append_all, append_all, concat}

abbrev two_held : ByteRing
two_held = record { buf = 1 ∷ 0 ∷ 0 ∷ 9 ∷ []; head = 1; used = 2 }

two_held-IsRing : IsRing 4 two_held
two_held-IsRing = record { length_buf = refl; head_in = omega arith; used_in = omega arith }

abbrev texts : List (List ℕ)
texts = (1 ∷ 2 ∷ 3 ∷ []) ∷ (4 ∷ 5 ∷ []) ∷ []

snapshot-append_all_example :
    snapshot 4 (append_all 4 (record { buf = 0 ∷ 0 ∷ 0 ∷ 0 ∷ []; head = 0; used = 0 }) texts) 4
    ≡ keep_last 3 (keep_last 4 (concat 4 texts))
snapshot-append_all_example =
    snapshot-append_all 4 (0 ∷ 0 ∷ 0 ∷ 0 ∷ []) texts 4 refl (omega arith) (omega arith)
      (omega arith, (omega arith, tt))

last_bytes :
    snapshot 4 (append_all 4 (record { buf = 0 ∷ 0 ∷ 0 ∷ 0 ∷ []; head = 0; used = 0 }) texts) 4
    ≡ 3 ∷ 4 ∷ 5 ∷ []
unfolding snapshot append copy_out put_bytes put_byte
last_bytes = refl
