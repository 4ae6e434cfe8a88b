-- ===== src/Web.antt =====
-- main/web_server.c: the path of a request (get_path_from_uri), and the parts of the name that a download
-- is given (sanitize_filename_part).
pub mod Path
mod Tests
use rtkbase.Prelude.{
  ℕ, ◌+◌, Bool, true, false, ◌||◌, List, [], ◌∷◌, ◌++◌, Option, none, some, length, ltb, leb, not,
  ◌&&◌, ◌==◌, if◌then◌else◌, suc, min, take,
}

-- The index of the first `c`; `none` is NULL.
unfoldable pub strchr : List ℕ → ℕ → Option ℕ
strchr [] c = none
strchr (d ∷ text) c =
    let later = strchr text c in
    if d == c then some 0 else (elim later [ none ↦ none | some i ↦ some (suc i) ])

-- `pathlen = MIN(pathlen, found - uri)` where strchr() found one.
unfoldable pub shorten : ℕ → Option ℕ → ℕ
shorten pathlen none = pathlen
shorten pathlen (some found) = min pathlen found

-- The length of the path: cut at the first '?' and at the first '#'.
unfoldable pub path_length : List ℕ → ℕ
unfolding strchr shorten
path_length uri =
    let quest = strchr uri b'?' in
    let pathlen = shorten (length uri) quest in let hash = strchr uri b'#' in shorten pathlen hash

-- The destination's text, and the path in it; `none` is NULL, where the text does not fit.
unfoldable pub get_path_from_uri : List ℕ → List ℕ → ℕ → Option (List ℕ × List ℕ)
unfolding path_length
get_path_from_uri base_path uri destsize =
    let pathlen = path_length uri in
    let path = take pathlen uri in
    if ltb destsize (length base_path + pathlen + 1) then none else some (base_path ++ path, path)

abbrev is_allowed : ℕ → Bool
is_allowed c =
    (leb b'A' c && leb c b'Z')
    || (leb b'a' c && leb c b'z')
    || (leb b'0' c && leb c b'9')
    || c == b'-'
    || c == b'_'
    || c == b'.'

unfoldable pub replace_chars : List ℕ → List ℕ
replace_chars [] = []
replace_chars (c ∷ value) =
    let rest = replace_chars value in (if is_allowed c then c else b'_') ∷ rest

-- Whether a character other than '_' and '.' is left.
unfoldable pub has_output : List ℕ → Bool
has_output [] = false
has_output (c ∷ value) = not (c == b'_' || c == b'.') || has_output value

-- `fallback` is `none` for NULL.
unfoldable pub sanitize_filename_part : List ℕ → Option (List ℕ) → List ℕ
unfolding replace_chars has_output
sanitize_filename_part value fallback =
    let replaced = replace_chars value in
    if has_output replaced then replaced else (elim fallback [ none ↦ replaced | some text ↦ text ])
