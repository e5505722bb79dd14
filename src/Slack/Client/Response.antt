-- ===== src/Slack/Client/Response.antt =====
-- The response to a call in crates/slack/src/client.rs: `retry_after_of`, the envelopes and `call`. A response's
-- Retry-After is its text, if it has one that `to_str` reads.
use Prim.Native.Char.{code}
use alertthread.Base.{
  ℕ, ◌+◌, ◌-◌, ◌*◌, ◌^◌, String, Bool, ◌&&◌, Option, none, some, ltb, leb, ◌==◌, if◌then◌else◌,
}
use alertthread.Base.Text.{trim}
use alertthread.Slack.{
  SlackMethod, SlackError, rate_limited_error, http_status, transport, malformed_response,
  from_api_code,
}

abbrev pub nanos : ℕ
nanos = 1_000_000_000

abbrev pub retry_after_default : ℕ
retry_after_default = nanos

abbrev pub retry_after_min : ℕ
retry_after_min = nanos

abbrev pub retry_after_max : ℕ
retry_after_max = 15 * 60 * nanos

-- The digits of `parse::<u64>`: a value that leaves 64 bits is an error.
unfoldable pub parse_digits : ℕ → String → Option ℕ
parse_digits value String.[] = some value
parse_digits value (String.◌∷◌ c s) =
    let digit = code c - 48 in
    let next = value * 10 + digit in
    let rest = parse_digits next s in
    if leb 48 (code c) && leb (code c) 57 && ltb next (2 ^ 64) then rest else none

-- `parse::<u64>`, which allows a plus in front.
unfoldable pub parse_u64 : String → Option ℕ
unfolding parse_digits
parse_u64 String.[] = none
parse_u64 (String.◌∷◌ c String.[]) = parse_digits 0 (String.◌∷◌ c String.[])
parse_u64 (String.◌∷◌ c (String.◌∷◌ d s)) =
    if code c == 43
    then parse_digits 0 (String.◌∷◌ d s)
    else parse_digits 0 (String.◌∷◌ c (String.◌∷◌ d s))

abbrev pub clamp : ℕ → ℕ → ℕ → ℕ
clamp x low high = if ltb x low then low else if ltb high x then high else x

unfoldable pub parsed_retry_after : Option String → ℕ
unfolding parse_u64
parsed_retry_after none = retry_after_default
parsed_retry_after (some value) = elim (parse_u64 (trim value)) [
  | none ↦ retry_after_default
  | some seconds ↦ seconds * nanos
]

unfoldable pub retry_after_of : Option String → ℕ
unfolding parsed_retry_after
retry_after_of header = clamp (parsed_retry_after header) retry_after_min retry_after_max

pub record Envelope : Type 0 where
  pub is_ok : Bool
  pub error : Option String

pub record PostResponse : Type 0 where
  pub envelope : Envelope
  pub ts : Option String
  pub channel : Option String

pub record UpdateResponse : Type 0 where
  pub envelope : Envelope

pub record AuthResponse : Type 0 where
  pub envelope : Envelope
  pub team : Option String
  pub team_id : Option String
  pub user : Option String
  pub user_id : Option String
  pub bot_id : Option String

-- A body that was read, or the error of reading it.
pub data Fetched : Type 0 where
  whole : (body : String) → Fetched
  broken : (source : String) → Fetched

pub record HttpResponse : Type 0 where
  pub status : ℕ
  pub retry_after : Option String
  pub body : Fetched

abbrev pub is_success : ℕ → Bool
is_success status = leb 200 status && ltb status 300

-- What the transport gives for a request.
pub data Sent : Type 0 where
  arrived : (response : HttpResponse) → Sent
  lost : (source : String) → Sent

-- `Result<R, SlackError>`, and the same with the text of a library's error.
pub data Answer (R : Type 0) : Type 0 where
  accepted : (value : R) → Answer R
  refused : (error : SlackError) → Answer R

pub data Parsed (R : Type 0) : Type 0 where
  parsed : (value : R) → Parsed R
  unparsed : (detail : String) → Parsed R

abbrev pub map_parsed :
    {R S : Type 0} → Parsed R → (String → SlackError) → (R → Answer S) → Answer S
map_parsed (parsed value) wrap next = next value
map_parsed (unparsed detail) wrap next = refused (wrap detail)

abbrev pub code_of : Option String → String
code_of none = ""
code_of (some code) = code

module _ {R : Type 0} (decode : String → Parsed R) (envelope : R → Envelope) (m : SlackMethod) where
  -- `from_api_code` if Slack says that the call failed.
  unfoldable pub judged : ℕ → R → Answer R
  judged retry_after value =
      if (envelope value).is_ok
      then accepted value
      else refused (from_api_code m (code_of (envelope value).error) retry_after)

  unfoldable pub read_decoded : ℕ → String → Answer R
  unfolding judged
  read_decoded retry_after body =
      map_parsed (decode body) (malformed_response m) (judged retry_after)

  unfoldable pub read_body : ℕ → ℕ → String → Answer R
  unfolding read_decoded
  read_body status retry_after body =
      if is_success status
      then read_decoded retry_after body
      else refused (http_status m status body)

  unfoldable pub read_fetched : HttpResponse → Answer R
  unfolding read_body
  read_fetched r = elim r.body [
    | broken source ↦ refused (transport m source)
    | whole body ↦ read_body r.status (retry_after_of r.retry_after) body
  ]

  unfoldable pub read_response : HttpResponse → Answer R
  unfolding read_fetched
  read_response r =
      if r.status == 429
      then refused (rate_limited_error m (retry_after_of r.retry_after))
      else read_fetched r

  unfoldable pub call : Sent → Answer R
  unfolding read_response
  call (lost source) = refused (transport m source)
  call (arrived r) = read_response r
