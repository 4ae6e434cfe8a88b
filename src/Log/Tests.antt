-- ===== src/Log/Tests.antt =====
-- The web log on concrete texts.
use rtkbase.Prelude.{
  ◌>>=◌, ℕ, zero, suc, ◌≡◌, ◌≤◌, refl, true, false, List, [], ◌∷◌, none, some, arith, All, length,
  length-replicate, replicate, take,
}
use rtkbase.Log.{Log, sanitize_line, should_store_line, append_formatted_text, log_vprintf}
use rtkbase.CText.{codes}
use rtkbase.Log.Overrun.{IsLog, IsPlain, append_formatted_text-fits, log_vprintf-overruns}

abbrev fresh : Log
fresh = record { ring = record { buf = replicate 16384 0; head = 0; used = 0 }; pending = [] }

fresh-IsLog : IsLog fresh
fresh-IsLog = record {
  length_buf = length-replicate {A = ℕ} 16384 0;
  head_in = omega arith;
  used_in = omega arith;
}

-- A coloured warning, as the logging library prints it.
abbrev warning : List ℕ
warning = 27 ∷ codes "[0;33mW (7) A: b"

colour_goes : sanitize_line warning ≡ codes "W (7) A: b\n"
unfolding sanitize_line
colour_goes = refl

warning_is_stored : should_store_line warning ≡ true
unfolding should_store_line
warning_is_stored = refl

info_is_not : should_store_line (codes "I (7) A: b") ≡ false
unfolding should_store_line
info_is_not = refl

accepted_is_stored :
    should_store_line (codes "I (7) TCP_SERVER: [sock=5]: Connection accepted from IP:a") ≡ true
unfolding should_store_line
accepted_is_stored = refl

append_formatted_text-fits_example :
    (l' : Log) × (append_formatted_text fresh (codes "W (7) A: b\n") ≡ some l')
    × (length l'.pending ≤ 511)
    × IsLog l'
append_formatted_text-fits_example =
    append_formatted_text-fits fresh (codes "W (7) A: b\n") fresh-IsLog (omega arith)

abbrev letters : List ℕ
letters = replicate 600 b'A'

letters_are-IsPlain : (k n : ℕ) → All IsPlain (take k (replicate n b'A'))
letters_are-IsPlain zero n = tt
letters_are-IsPlain (suc k) zero = tt
letters_are-IsPlain (suc k) (suc n) =
    ((omega arith, omega arith, omega arith, omega arith), letters_are-IsPlain k n)

log_vprintf-overruns_example :
    (log_vprintf fresh letters >>= λ l'. log_vprintf l' (codes "W (8) A: b\n")) ≡ none
log_vprintf-overruns_example =
    log_vprintf-overruns fresh letters b'W' (codes " (8) A: b\n") refl
      (omega (arith, length-replicate {A = ℕ} 600 b'A')) (letters_are-IsPlain 511 600)
      (omega arith, omega arith, omega arith, omega arith)
