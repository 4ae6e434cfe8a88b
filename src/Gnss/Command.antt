-- ===== src/Gnss/Command.antt =====
-- What gnss_uart_send_command writes: the command without the line ends at its end, and CR LF. Line ends
-- inside the command stay.
use rtkbase.Prelude.{
  ◌≢◌, ◌⊎◌, ℕ, suc, ◌≤◌, ◌≡◌, refl, ap, subst, sym, ◌∙◌, inl, inr, Bool, true, false, not, ◌&&◌,
  ◌||◌, List, [], ◌∷◌, ◌++◌, some, arith, All, length, take, ltb, ◌==◌, Bool-cases, if◌then◌else◌,
}
use rtkbase.Gnss.Task.{
  CommandResult, command_ok, invalid_arg, invalid_state, timeout, command_failed, is_eol, trim_eol,
  gnss_uart_send_command,
}

abbrev pub IsLineEnd : ℕ → Type 0
IsLineEnd c = (c ≡ 13) ⊎ (c ≡ 10)

-- The text does not end in CR or LF.
abbrev pub EndsInText : List ℕ → Type 0
EndsInText [] = Unit
EndsInText (c ∷ []) = (c ≢ 13) × (c ≢ 10)
EndsInText (c ∷ d ∷ rest) = EndsInText (d ∷ rest)

empty_of : (xs : List ℕ) → length xs ≡ 0 → xs ≡ []
empty_of [] h = refl
empty_of (x ∷ xs) h = absurd (omega arith)

eol_char : (c : ℕ) → is_eol c ≡ true → IsLineEnd c
eol_char c e = ground arith

text_char : (c : ℕ) → is_eol c ≡ false → (c ≢ 13) × (c ≢ 10)
text_char c e = ((λ h. ground (arith, h)), (λ h. ground (arith, h)))

trim_eol-cut :
    (command : List ℕ) → (eols : List ℕ) × (command ≡ trim_eol command ++ eols) × All IsLineEnd eols
unfolding trim_eol
trim_eol-cut [] = ([], refl, tt)
trim_eol-cut (c ∷ rest) =
    let (eols, cut, all_eol) = trim_eol-cut rest in
    elim (Bool-cases (length (trim_eol rest) == 0 && is_eol c)) [
      | inr e ↦ (eols, rw e (ap (λ (xs : List ℕ). c ∷ xs) cut), all_eol)
      | inl e ↦ (
        c ∷ rest,
        rw e refl,
        (
          eol_char c (ground arith),
          subst (All IsLineEnd)
              (sym
                (cut ∙ ap (λ (xs : List ℕ). xs ++ eols) (empty_of (trim_eol rest) (ground arith))))
              all_eol,
        ),
      )
    ]

trim_eol-EndsInText : (command : List ℕ) → EndsInText (trim_eol command)
unfolding trim_eol
trim_eol-EndsInText [] = tt
trim_eol-EndsInText (c ∷ rest) = with_char (trim_eol rest) (trim_eol-EndsInText rest)
  where
    with_char :
        (text : List ℕ)
        → EndsInText text
        → EndsInText (if length text == 0 && is_eol c then [] else c ∷ text)
    with_char (d ∷ text) h =
        let nonzero : (suc (length text) == 0) ≡ false = ground arith in rw nonzero h
    with_char [] h = elim (Bool-cases (is_eol c)) [ inl e ↦ rw e tt | inr e ↦ rw e (text_char c e) ]

-- The tests of gnss_uart_send_command, with what is written in the last three cases.
abbrev outcome :
    Bool → Bool → Bool → Bool → Bool → Bool → List ℕ → List ℕ → List ℕ → CommandResult × List ℕ
outcome empty idle long unlocked partial whole line a b =
    if empty
    then (invalid_arg, [])
    else if idle
    then (invalid_state, [])
    else if long
    then (invalid_arg, [])
    else if unlocked
    then (timeout, [])
    else if partial
    then (command_failed, a)
    else if whole
    then (command_ok, line)
    else (command_failed, b)

outcome-command_ok :
    (empty idle long unlocked partial whole : Bool) (line written a b : List ℕ)
    → outcome empty idle long unlocked partial whole line a b ≡ (command_ok, written)
    → (long ≡ false) × (written ≡ line)
outcome-command_ok empty idle long unlocked partial whole line written a b h =
    go empty idle long unlocked partial whole h
  where
    result : CommandResult × List ℕ → CommandResult
    result p = p.0

    go :
        (empty idle long unlocked partial whole : Bool)
        → outcome empty idle long unlocked partial whole line a b ≡ (command_ok, written)
        → (long ≡ false) × (written ≡ line)
    go true idle long unlocked partial whole h = absurd (ground (arith, ap result h))
    go false true long unlocked partial whole h = absurd (ground (arith, ap result h))
    go false false true unlocked partial whole h = absurd (ground (arith, ap result h))
    go false false false true partial whole h = absurd (ground (arith, ap result h))
    go false false false false true whole h = absurd (ground (arith, ap result h))
    go false false false false false false h = absurd (ground (arith, ap result h))
    go false false false false false true h =
        (refl, sym (ap (λ (p : CommandResult × List ℕ). p.1) h))

-- Where gnss_uart_send_command reports success, exactly this has been written: the command without the
-- CR and LF characters at its end, and then CR LF. What is left of the command has 1 to 256 characters, and
-- its last is neither CR nor LF; a CR or LF before that is written as it is.
pub gnss_uart_send_command-line :
    (ready locked : Bool) (write : List ℕ → ℕ) (command written : List ℕ)
    → gnss_uart_send_command ready locked write (some command) ≡ (command_ok, written)
    → (line : List ℕ) × (eols : List ℕ) × (command ≡ line ++ eols)
      × All IsLineEnd eols
      × (written ≡ line ++ 13 ∷ 10 ∷ [])
      × (1 ≤ length line)
      × (length line ≤ 256)
      × EndsInText line
unfolding gnss_uart_send_command
gnss_uart_send_command-line ready locked write command written e =
    let line = trim_eol command in
    let eol = 13 ∷ 10 ∷ [] in
    let (fits, same) =
      outcome-command_ok (length command == 0) (not ready)
        (length line == 0 || ltb 256 (length line)) (not locked) (not (write line == length line))
        (write eol == 2) (line ++ eol) written (take (write line) line)
        (line ++ take (write eol) eol) e in
    let (eols, cut, all_eol) = trim_eol-cut command in
    (line, eols, cut, all_eol, same, ground arith, ground arith, trim_eol-EndsInText command)
