-- ===== src/CText.antt =====
-- The C string functions that the sources use, on texts as lists of character codes. The end of the
-- list stands for the final NUL.
use Prim.Native.String.{String}
use Prim.Native.Char.{code}
use rtkbase.Prelude.{
  ◌≡◌, refl, ap₂, arith, ℕ, ◌+◌, ◌-◌, ◌*◌, ◌%◌, Bool, true, false, ◌&&◌, ◌||◌, List, [], ◌∷◌,
  Option, none, some, ◌==◌, leb, if◌then◌else◌,
}

-- The codes of a literal.
abbrev pub codes : String → List ℕ
codes String.[] = []
codes (String.◌∷◌ c s) = code c ∷ codes s

unfoldable pub starts_with : List ℕ → List ℕ → Bool
starts_with [] text = true
starts_with (n ∷ needle) [] = false
starts_with (n ∷ needle) (c ∷ text) = n == c && starts_with needle text

-- `strstr(text, needle)`: what follows the start of the first occurrence.
unfoldable pub strstr : List ℕ → List ℕ → Option (List ℕ)
unfolding starts_with
strstr [] needle = if starts_with needle [] then some [] else none
strstr (c ∷ text) needle =
    if starts_with needle (c ∷ text) then some (c ∷ text) else strstr text needle

unfoldable pub contains : List ℕ → List ℕ → Bool
unfolding strstr
contains text needle = elim (strstr text needle) [ none ↦ false | some r ↦ true ]

unfoldable pub to_lower : ℕ → ℕ
to_lower c = if leb 65 c && leb c 90 then c + 32 else c

-- `strcasecmp(a, b) == 0`.
unfoldable pub same_text_nocase : List ℕ → List ℕ → Bool
unfolding to_lower
same_text_nocase [] [] = true
same_text_nocase [] (b ∷ bs) = false
same_text_nocase (a ∷ as') [] = false
same_text_nocase (a ∷ as') (b ∷ bs) = to_lower a == to_lower b && same_text_nocase as' bs

-- `strncasecmp(text, prefix, strlen(prefix)) == 0`.
unfoldable pub starts_with_nocase : List ℕ → List ℕ → Bool
unfolding to_lower
starts_with_nocase [] text = true
starts_with_nocase (n ∷ needle) [] = false
starts_with_nocase (n ∷ needle) (c ∷ text) =
    to_lower n == to_lower c && starts_with_nocase needle text

-- `strcmp(a, b) == 0`.
unfoldable pub same_text : List ℕ → List ℕ → Bool
same_text [] [] = true
same_text [] (b ∷ bs) = false
same_text (a ∷ as') [] = false
same_text (a ∷ as') (b ∷ bs) = a == b && same_text as' bs

pub same_text-true : (a b : List ℕ) → same_text a b ≡ true → a ≡ b
unfolding same_text
same_text-true [] [] h = refl
same_text-true [] (b ∷ bs) h = absurd (ground arith)
same_text-true (a ∷ as') [] h = absurd (ground arith)
same_text-true (a ∷ as') (b ∷ bs) h =
    let head : a ≡ b = ground arith in
    let rest = same_text-true as' bs (ground arith) in
    ap₂ (λ (x : ℕ) (xs : List ℕ). x ∷ xs) head rest

unfoldable pub isspace : ℕ → Bool
isspace c = c == 32 || (leb 9 c && leb c 13)

unfoldable pub isdigit : ℕ → Bool
isdigit c = leb b'0' c && leb c b'9'

unfoldable pub skip_spaces : List ℕ → List ℕ
unfolding isspace
skip_spaces [] = []
skip_spaces (c ∷ text) = if isspace c then skip_spaces text else c ∷ text

-- The number that a text begins with, added to what stands before it, and what follows.
unfoldable pub read_digits : ℕ → List ℕ → ℕ × List ℕ
unfolding isdigit
read_digits n [] = (n, [])
read_digits n (c ∷ text) =
    let more = read_digits (n * 10 + (c - b'0')) text in if isdigit c then more else (n, c ∷ text)

abbrev pub ulong_max : ℕ
ulong_max = 4294967295

-- A number after its sign, with 32 bits; `none` is a result out of range (ERANGE) or no digit at all.
unfoldable pub read_unsigned : Bool → List ℕ → Option (ℕ × List ℕ)
unfolding isdigit read_digits
read_unsigned minus [] = none
read_unsigned minus (c ∷ text) =
    let (n, rest) = read_digits 0 (c ∷ text) in
    if isdigit c && leb n ulong_max
    then some (if minus then (ulong_max + 1 - n) % (ulong_max + 1) else n, rest)
    else none

-- What follows the sign.
unfoldable pub after_sign : List ℕ → Bool × List ℕ
after_sign [] = (false, [])
after_sign (c ∷ text) =
    if c == b'-' then (true, text) else if c == b'+' then (false, text) else (false, c ∷ text)

-- `strtoul(text, &end, 10)` with a 32-bit `unsigned long`, and the text at `end`.
unfoldable pub strtoul : List ℕ → Option (ℕ × List ℕ)
unfolding skip_spaces after_sign read_unsigned
strtoul text = let (minus, rest) = after_sign (skip_spaces text) in read_unsigned minus rest
