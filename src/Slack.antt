-- ===== src/Slack.antt =====
-- crates/slack/src/error.rs: what can be wrong with a call of Slack, and what the worker should do about
-- it. A `Duration` is its nanoseconds; the text of a transport's error stands for the error.
pub mod Codes
pub mod Message
pub mod Blocks
pub mod Vars
pub mod Render
pub mod Client
use alertthread.Base.{
  ℕ, String, Bool, true, false, ◌||◌, Option, none, some, List, [], ◌∷◌, leb, ◌==◌, str_eq,
  if◌then◌else◌,
}

pub data SlackMethod : Type 0 where
  post_message : SlackMethod
  update_message : SlackMethod
  auth_test : SlackMethod

unfoldable pub as_str : SlackMethod → String
as_str post_message = "chat.postMessage"
as_str update_message = "chat.update"
as_str auth_test = "auth.test"

pub data Disposition : Type 0 where
  rate_limited : (retry_after : ℕ) → Disposition
  retry : Disposition
  terminal : Disposition
  message_gone : Disposition

unfoldable pub counts_as_an_attempt : Disposition → Bool
counts_as_an_attempt retry = true
counts_as_an_attempt _ = false

pub data SlackError : Type 0 where
  rate_limited_error : (method : SlackMethod) → (retry_after : ℕ) → SlackError
  message_not_found : (method : SlackMethod) → (code : String) → SlackError
  invalid_auth : (method : SlackMethod) → (code : String) → SlackError
  channel_unusable : (method : SlackMethod) → (code : String) → SlackError
  bad_request : (method : SlackMethod) → (code : String) → SlackError
  slack_unavailable : (method : SlackMethod) → (code : String) → SlackError
  unrecognised : (method : SlackMethod) → (code : String) → SlackError
  http_status : (method : SlackMethod) → (status : ℕ) → (body : String) → SlackError
  transport : (method : SlackMethod) → (source : String) → SlackError
  malformed_response : (method : SlackMethod) → (detail : String) → SlackError
  incomplete_response : (method : SlackMethod) → (field : String) → SlackError
  malformed_token : SlackError
  invalid_base_url : (url : String) → (detail : String) → SlackError
  build : (detail : String) → SlackError

unfoldable pub method : SlackError → Option SlackMethod
method (rate_limited_error m _) = some m
method (message_not_found m _) = some m
method (invalid_auth m _) = some m
method (channel_unusable m _) = some m
method (bad_request m _) = some m
method (slack_unavailable m _) = some m
method (unrecognised m _) = some m
method (http_status m _ _) = some m
method (transport m _) = some m
method (malformed_response m _) = some m
method (incomplete_response m _) = some m
method malformed_token = none
method (invalid_base_url _ _) = none
method (build _) = none

unfoldable pub http_status_is_retryable : ℕ → Bool
http_status_is_retryable status = status == 408 || status == 425 || status == 429 || leb 500 status

unfoldable pub disposition : SlackError → Disposition
unfolding http_status_is_retryable
disposition (rate_limited_error _ retry_after) = rate_limited retry_after
disposition (message_not_found _ _) = message_gone
disposition (invalid_auth _ _) = terminal
disposition (channel_unusable _ _) = terminal
disposition (bad_request _ _) = terminal
disposition malformed_token = terminal
disposition (invalid_base_url _ _) = terminal
disposition (build _) = terminal
disposition (slack_unavailable _ _) = retry
disposition (unrecognised _ _) = retry
disposition (transport _ _) = retry
disposition (malformed_response _ _) = retry
disposition (incomplete_response _ _) = retry
disposition (http_status _ status _) = if http_status_is_retryable status then retry else terminal

-- The label of the metric.
unfoldable pub outcome : SlackError → String
outcome (rate_limited_error _ _) = "rate_limited"
outcome (message_not_found _ _) = "message_not_found"
outcome (invalid_auth _ _) = "invalid_auth"
outcome (channel_unusable _ _) = "channel_unusable"
outcome (bad_request _ _) = "bad_request"
outcome (slack_unavailable _ _) = "slack_unavailable"
outcome (unrecognised _ _) = "unrecognised"
outcome (http_status _ _ _) = "http_status"
outcome (transport _ _) = "transport"
outcome (malformed_response _ _) = "malformed_response"
outcome (incomplete_response _ _) = "incomplete_response"
outcome malformed_token = "malformed_token"
outcome (invalid_base_url _ _) = "invalid_base_url"
outcome (build _) = "build"

unfoldable pub one_of : String → List String → Bool
one_of code [] = false
one_of code (c ∷ rest) = str_eq code c || one_of code rest

abbrev pub auth_codes : List String
auth_codes =
    "invalid_auth" ∷ "not_authed" ∷ "account_inactive" ∷ "token_revoked" ∷ "token_expired"
    ∷ "no_permission" ∷ "missing_scope" ∷ "ekm_access_denied" ∷ []

abbrev pub channel_codes : List String
channel_codes =
    "channel_not_found" ∷ "not_in_channel" ∷ "is_archived" ∷ "restricted_action"
    ∷ "restricted_action_read_only_channel" ∷ "restricted_action_thread_only_channel"
    ∷ "restricted_action_non_threadable_channel" ∷ []

abbrev pub request_codes : List String
request_codes =
    "msg_too_long" ∷ "no_text" ∷ "too_many_attachments" ∷ "invalid_blocks" ∷ "invalid_blocks_format"
    ∷ "invalid_arguments" ∷ "invalid_arg_name" ∷ "cant_update_message" ∷ "edit_window_closed"
    ∷ "cant_broadcast_message" ∷ "as_user_not_supported" ∷ "invalid_form_data" ∷ "invalid_post_type"
    ∷ "missing_post_type" ∷ []

abbrev pub outage_codes : List String
outage_codes =
    "fatal_error" ∷ "internal_error" ∷ "service_unavailable" ∷ "request_timeout" ∷ "server_error"
    ∷ []

unfoldable pub from_api_code : SlackMethod → String → ℕ → SlackError
from_api_code m code retry_after =
    if one_of code ("ratelimited" ∷ "rate_limited" ∷ [])
    then rate_limited_error m retry_after
    else if str_eq code "message_not_found"
    then message_not_found m code
    else if one_of code auth_codes
    then invalid_auth m code
    else if one_of code channel_codes
    then channel_unusable m code
    else if one_of code request_codes
    then bad_request m code
    else if one_of code outage_codes
    then slack_unavailable m code
    else unrecognised m code
