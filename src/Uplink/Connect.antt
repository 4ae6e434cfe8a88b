-- ===== src/Uplink/Connect.antt =====
-- How an uplink of main/ntrip_client.c connects: ntrip_connect with its two requests. Name resolution,
-- connect(), recv() and the base64 encoder are not part of the repository: their results are arguments.
use rtkbase.Prelude.{
  ℕ, zero, suc, ◌+◌, ◌/◌, ◌%◌, Bool, true, false, ◌||◌, ◌&&◌, List, [], ◌∷◌, ◌++◌, Option, none,
  some, length, take, leb, ltb, ◌==◌, if◌then◌else◌, ◌>>=◌,
}
use rtkbase.CText.{codes, contains}
use rtkbase.Caster.Request.{crlf, until_nul}
use rtkbase.Lwip.{Socket}
use rtkbase.Lwip.SendLoop.{all_sent, blocked, sent_zero, send_failed, send_from}

-- The part of `ntrip_uplink_t` that connecting reads; `none` is NULL.
pub record Target : Type 0 where
  pub host : List ℕ
  pub port : ℕ
  pub mountpoint : List ℕ
  pub username : Option (List ℕ)
  pub password : Option (List ℕ)

-- The digits of a number below `10 ^ fuel`, as `%u` prints it.
unfoldable pub digits : ℕ → ℕ → List ℕ
digits zero n = []
digits (suc fuel) n =
    let more = digits fuel (n / 10) in (if ltb n 10 then [] else more) ++ (b'0' + n % 10) ∷ []

abbrev pub text_or_empty : Option (List ℕ) → List ℕ
text_or_empty none = []
text_or_empty (some text) = text

abbrev is_null : Option (List ℕ) → Bool
is_null none = true
is_null (some text) = false

-- `snprintf` of "%s:%s" into 128 bytes.
unfoldable pub uplink_credentials : Target → List ℕ
uplink_credentials u =
    if is_null u.username && is_null u.password
    then []
    else take 127 (text_or_empty u.username ++ b':' ∷ text_or_empty u.password)

unfoldable pub response_is_success : List ℕ → Bool
unfolding contains
response_is_success resp =
    contains resp (codes " 200 ")
    || contains resp (codes " 200" ++ crlf)
    || contains resp (codes "ICY 200")

-- What an attempt meets: the connected socket, the reply where recv() gives one, and whether the socket
-- can be made non-blocking.
pub record Attempt (S : Type 0) : Type 0 where
  pub opened : Option S
  pub reply : Option (List ℕ)
  pub nonblocking_ok : Bool

unfoldable pub source_request : Target → List ℕ → List ℕ
source_request u password =
    codes "SOURCE "
    ++ password
    ++ codes " /"
    ++ u.mountpoint
    ++ crlf
    ++ codes "Source-Agent: NTRIP RTKBase/1.0"
    ++ crlf
    ++ crlf

-- `encode` is mbedtls_base64_encode into a buffer of the size given.
module _ (encode : ℕ → List ℕ → Option (List ℕ)) where
  -- `base64_encode_str` of the credentials, where there are any.
  unfoldable pub base64_credentials : Target → List ℕ
  unfolding uplink_credentials
  base64_credentials u =
      if is_null u.username && is_null u.password
      then []
      else (elim (encode 192 (uplink_credentials u)) [
        | none ↦ []
        | some text ↦ if leb 192 (length text) then [] else text
      ])

  abbrev authorization : List ℕ → List ℕ
  authorization [] = []
  authorization (c ∷ b64) = codes "Authorization: Basic " ++ (c ∷ b64) ++ crlf

  unfoldable pub post_request : Target → List ℕ
  unfolding base64_credentials digits
  post_request u =
      codes "POST /"
      ++ u.mountpoint
      ++ codes " HTTP/1.1"
      ++ crlf
      ++ codes "Host: "
      ++ u.host
      ++ codes ":"
      ++ digits 5 u.port
      ++ crlf
      ++ codes "Ntrip-Version: Ntrip/2.0"
      ++ crlf
      ++ codes "User-Agent: NTRIP RTKBase/1.0"
      ++ crlf
      ++ authorization (base64_credentials u)
      ++ codes "Content-Type: gnss/data"
      ++ crlf
      ++ crlf

module _ (socket : Socket) where
  open socket use {State}

  -- `send_all` on a blocking socket: any reply but a count ends it, as in the loop without retries.
  unfoldable pub send_all : State → List ℕ → Option (Bool × State)
  unfolding send_from
  send_all net text = send_from socket 0 net text 0 >>= (λ s. some (elim s.ending [
    | all_sent ↦ (true, s.net)
    | blocked ↦ (false, s.net)
    | sent_zero ↦ (false, s.net)
    | send_failed errno ↦ (false, s.net)
  ]))

  -- The reply is accepted, and the socket can be made non-blocking; recv() takes up to 255 bytes.
  unfoldable pub is_accepted : Option (List ℕ) → Bool → Bool
  unfolding response_is_success until_nul
  is_accepted none nonblocking_ok = false
  is_accepted (some reply) nonblocking_ok =
      response_is_success (until_nul (take 255 reply)) && nonblocking_ok

  -- A request on a connected socket, its reply, and the socket in non-blocking mode: the common part of
  -- `ntrip_connect_v2` and `ntrip_connect_v1_source`. The inner `none` is -1.
  unfoldable pub request_on : Attempt State → List ℕ → Option (Option State)
  unfolding send_all is_accepted
  request_on a request = elim a.opened [
    | none ↦ some none
    | some net ↦
        if leb 512 (length request)
        then some none
        else send_all net request >>= (λ done.
          some (if done.0 && is_accepted a.reply a.nonblocking_ok then some done.1 else none))
  ]

  unfoldable pub ntrip_connect_v2 :
      (ℕ → List ℕ → Option (List ℕ)) → Target → Attempt State → Option (Option State)
  unfolding post_request request_on
  ntrip_connect_v2 encode u a = request_on a (post_request encode u)

  -- Without a password there is no attempt.
  unfoldable pub ntrip_connect_v1_source : Target → Attempt State → Option (Option State)
  unfolding source_request request_on
  ntrip_connect_v1_source u a = elim u.password [
    | none ↦ some none
    | some password ↦
        if length password == 0 then some none else request_on a (source_request u password)
  ]

  -- The version 2 request first, then the version 1 request.
  unfoldable pub ntrip_connect :
      (ℕ → List ℕ → Option (List ℕ))
      → Target
      → Attempt State
      → Attempt State
      → Option (Option State)
  unfolding ntrip_connect_v2 ntrip_connect_v1_source
  ntrip_connect encode u a2 a1 =
      ntrip_connect_v2 encode u a2
      >>= (λ r. elim r [ some net ↦ some (some net) | none ↦ ntrip_connect_v1_source u a1 ])
