-- ===== src/Caster/Request.antt =====
-- The request of a rover in main/ntrip_caster.c: handle_request, auth_valid and the texts it answers with.
-- The base64 decoder is the parameter `decode`, of the size of its buffer and the text.
use rtkbase.Prelude.{
  ℕ, zero, suc, ◌+◌, ◌/◌, ◌%◌, Bool, true, false, not, List, [], ◌∷◌, ◌++◌, Option, none, some,
  length, take, drop, ◌==◌, if◌then◌else◌, ltb,
}
use rtkbase.CText.{codes, starts_with_nocase, same_text, same_text_nocase, isspace, skip_spaces}
use rtkbase.Caster.Settings.{CasterConfig}

-- The C string at the beginning of an array.
unfoldable pub until_nul : List ℕ → List ℕ
until_nul [] = []
until_nul (c ∷ rest) = let text = until_nul rest in if c == 0 then [] else c ∷ text

unfoldable pub stristr : List ℕ → List ℕ → Option (List ℕ)
unfolding starts_with_nocase
stristr [] needle = none
stristr (c ∷ hay) needle =
    let later = stristr hay needle in
    if starts_with_nocase needle (c ∷ hay) then some (c ∷ hay) else later

-- `sscanf` of a `%Ns` without its leading spaces: the word, and what follows.
unfoldable pub scan_word : ℕ → List ℕ → List ℕ × List ℕ
unfolding isspace
scan_word zero text = ([], text)
scan_word (suc n) [] = ([], [])
scan_word (suc n) (c ∷ text) =
    let rest = scan_word n text in if isspace c then ([], c ∷ text) else (c ∷ rest.0, rest.1)

-- `sscanf(req, "%7s %63s", method, path)`.
unfoldable pub scan_request : List ℕ → List ℕ × List ℕ
unfolding scan_word skip_spaces
scan_request req =
    let method = scan_word 7 (skip_spaces req) in
    (method.0, (scan_word 63 (skip_spaces method.1)).0)

-- What stands before the first carriage return, at most 127 characters of it; nothing where there is none.
unfoldable pub before_return : List ℕ → Option (List ℕ)
before_return [] = none
before_return (c ∷ text) =
    let rest = before_return text in
    if c == 13 then some [] else (elim rest [ none ↦ none | some t ↦ some (c ∷ t) ])

unfoldable pub token_of : List ℕ → List ℕ
unfolding before_return
token_of text = elim (before_return text) [ none ↦ [] | some t ↦ take 127 t ]

-- The ways a request is answered.
pub data Answer : Type 0 where
  bad_request : Answer
  sourcetable : Answer
  not_found : Answer
  unauthorized : Answer
  accept : Answer

abbrev pub credentials : CasterConfig → List ℕ
credentials cfg = cfg.username ++ b':' ∷ cfg.password

-- The decimal digits of a number below 1000, as `%d` prints it.
unfoldable pub decimal : ℕ → List ℕ
decimal n =
    if ltb n 10
    then (b'0' + n) ∷ []
    else if ltb n 100
    then (b'0' + n / 10) ∷ (b'0' + n % 10) ∷ []
    else (b'0' + n / 100) ∷ (b'0' + n / 10 % 10) ∷ (b'0' + n % 10) ∷ []

abbrev pub crlf : List ℕ
crlf = 13 ∷ 10 ∷ []

-- What the record has after the identifier.
abbrev pub record_tail : List ℕ
record_tail =
    codes ";RTCM 3.2;1005(1),1074(1),1084(1),1094(1),1124(1);"
    ++ (codes "2;GPS+GLO+GAL+BDS;ESP32;DE;48.10;11.60;1;1;sNTRIP;none;N;N;0;"
        ++ (crlf ++ (codes "ENDSOURCETABLE" ++ crlf)))

-- The record of the sourcetable.
unfoldable pub str_record : CasterConfig → List ℕ
str_record cfg = codes "STR;" ++ (cfg.mountpoint ++ (codes ";" ++ (cfg.identifier ++ record_tail)))

-- What the header has before the length.
abbrev pub header_start : Bool → List ℕ
header_start true =
    codes "HTTP/1.1 200 OK"
    ++ crlf
    ++ codes "Ntrip-Version: Ntrip/2.0"
    ++ crlf
    ++ codes "Content-Type: text/plain"
    ++ crlf
    ++ codes "Content-Length: "
header_start false =
    codes "SOURCETABLE 200 OK"
    ++ crlf
    ++ codes "Content-Type: text/plain"
    ++ crlf
    ++ codes "Content-Length: "

unfoldable pub table_header : Bool → ℕ → List ℕ
unfolding decimal
table_header v2 len = header_start v2 ++ (decimal len ++ (crlf ++ crlf))

-- The texts that an answer sends, one call each.
unfoldable pub answer_texts : CasterConfig → Bool → Answer → List (List ℕ)
unfolding str_record table_header
answer_texts cfg v2 bad_request = (codes "HTTP/1.1 400 Bad Request" ++ crlf ++ crlf) ∷ []
answer_texts cfg v2 sourcetable = table_header v2 (length (str_record cfg)) ∷ str_record cfg ∷ []
answer_texts cfg v2 not_found = (codes "HTTP/1.1 404 Not Found" ++ crlf ++ crlf) ∷ []
answer_texts cfg v2 unauthorized =
    (codes "HTTP/1.1 401 Unauthorized"
      ++ crlf
      ++ codes "WWW-Authenticate: Basic realm=\"NTRIP\""
      ++ crlf
      ++ crlf)
    ∷ []
answer_texts cfg v2 accept =
    (if v2
      then codes "HTTP/1.1 200 OK"
        ++ crlf
        ++ codes "Ntrip-Version: Ntrip/2.0"
        ++ crlf
        ++ codes "Content-Type: gnss/data"
        ++ crlf
        ++ crlf
      else codes "ICY 200 OK" ++ crlf ++ crlf)
    ∷ []

unfoldable pub asks_v2 : List ℕ → Bool
unfolding stristr
asks_v2 req = elim (stristr req (codes "Ntrip-Version: Ntrip/2.0")) [ none ↦ false | some r ↦ true ]

module _ (decode : ℕ → List ℕ → Option (List ℕ)) where
  unfoldable pub auth_valid : CasterConfig → List ℕ → Bool
  unfolding until_nul same_text
  auth_valid cfg token =
      if not cfg.loaded
      then false
      else if not cfg.auth_required
      then true
      else (elim (decode 127 token) [
        | none ↦ false
        | some decoded ↦ same_text (until_nul decoded) (take 127 (credentials cfg))
      ])

  -- The part of `handle_request` about the credentials: true goes on.
  unfoldable pub passes_auth : CasterConfig → List ℕ → Bool
  unfolding stristr token_of auth_valid
  passes_auth cfg req =
      if not cfg.auth_required then true else (elim (stristr req (codes "Authorization: Basic ")) [
        | none ↦ false
        | some found ↦ auth_valid cfg (token_of (drop 21 found))
      ])

  unfoldable pub answer_of : CasterConfig → List ℕ → Answer
  unfolding scan_request same_text same_text_nocase passes_auth
  answer_of cfg req =
      let (method, path) = scan_request req in
      if not (same_text_nocase method (codes "GET"))
      then bad_request
      else if same_text path (codes "/")
      then sourcetable
      else if not (same_text_nocase path (b'/' ∷ cfg.mountpoint))
      then not_found
      else if passes_auth cfg req
      then accept
      else unauthorized
