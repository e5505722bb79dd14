-- ===== src/Slack/Client.antt =====
-- crates/slack/src/client.rs: a call of Slack's Web API and what its answer means. The transport
-- (reqwest), the reading of JSON (serde) and the joining of URLs are parameters. A `Duration` is its
-- nanoseconds.
pub mod Response
pub mod Calls
use alertthread.Base.{ℕ, ◌*◌, String, Bool, Option, none, some, [], ◌∷◌, if◌then◌else◌}
use alertthread.Base.Text.{ends_with, joined}
use alertthread.Core.Ids.{ChannelId, MessageTs, ThreadTs}
use alertthread.Slack.{
  SlackMethod, SlackError, incomplete_response, malformed_token, invalid_base_url, build, as_str,
}
use alertthread.Slack.Message.{MessageBody}
use alertthread.Slack.Client.Response.{
  nanos, PostResponse, UpdateResponse, AuthResponse, Sent, Answer, Parsed, map_parsed, call,
  accepted, refused,
}

-- `PostMessage` and `UpdateMessage` as they are sent, and the empty object.
pub data Payload : Type 0 where
  wire_post :
      (channel : ChannelId)
      → (thread_ts : Option ThreadTs) → (reply_broadcast : Bool) → (body : MessageBody) → Payload
  wire_update : (channel : ChannelId) → (ts : MessageTs) → (body : MessageBody) → Payload
  empty_object : Payload

pub record Endpoints : Type 0 where
  pub post_message_url : String
  pub update_message_url : String
  pub auth_test_url : String

unfoldable pub url : Endpoints → SlackMethod → String
url e SlackMethod.post_message = e.post_message_url
url e SlackMethod.update_message = e.update_message_url
url e SlackMethod.auth_test = e.auth_test_url

-- What the client uses of reqwest and serde.
pub record Library : Type 1 where
  pub Http : Type 0
  pub parse_url : String → Parsed String
  pub join_url : String → String → Parsed String
  pub is_header_value : String → Bool
  pub build_http : (timeout : ℕ) → (authorization : String) → Parsed Http
  pub send : Http → (url : String) → Payload → Sent
  pub decode_post : String → Parsed PostResponse
  pub decode_update : String → Parsed UpdateResponse
  pub decode_auth : String → Parsed AuthResponse

abbrev pub default_base_url : String
default_base_url = "https://slack.com/api/"

abbrev pub default_timeout : ℕ
default_timeout = 15 * nanos

-- `SlackToken` of token.rs is its text.
pub record SlackClientBuilder : Type 0 where
  pub token : String
  pub base_url : String
  pub timeout : ℕ

unfoldable pub builder : String → SlackClientBuilder
builder token = record { token = token; base_url = default_base_url; timeout = default_timeout }

pub record PostedMessage : Type 0 where
  pub channel : ChannelId
  pub ts : MessageTs

pub record AuthIdentity : Type 0 where
  pub team : String
  pub team_id : String
  pub user : String
  pub user_id : String
  pub bot_id : String

abbrev or_blank : Option String → String
or_blank none = ""
or_blank (some s) = s

-- `ok_or` and what follows it.
abbrev required : {R : Type 0} → Option String → SlackError → (String → Answer R) → Answer R
required none error next = refused error
required (some s) error next = next s

abbrev and_then : {R S : Type 0} → Answer R → (R → Answer S) → Answer S
and_then (accepted value) next = next value
and_then (refused error) next = refused error

unfoldable pub posted_message : ChannelId → PostResponse → Answer PostedMessage
posted_message chan response =
    required response.ts (incomplete_response SlackMethod.post_message "ts") λ ts.
      accepted (record { channel = elim response.channel [ none ↦ chan | some c ↦ c ]; ts = ts })

unfoldable pub auth_identity : AuthResponse → Answer AuthIdentity
auth_identity response =
    required response.user_id (incomplete_response SlackMethod.auth_test "user_id") λ user_id.
      accepted (record {
        team = or_blank response.team;
        team_id = or_blank response.team_id;
        user = or_blank response.user;
        user_id = user_id;
        bot_id = or_blank response.bot_id;
      })

module _ (lib : Library) where
  pub record SlackClient : Type 0 where
    pub http : lib.Http
    pub endpoints : Endpoints

  abbrev normalised : String → String
  normalised base = if ends_with base 47 then base else joined (base ∷ "/" ∷ [])

  abbrev endpoint : String → SlackMethod → Parsed String
  endpoint base m = lib.join_url base (as_str m)

  unfoldable pub build_client : SlackClientBuilder → Answer SlackClient
  build_client b =
      let invalid = invalid_base_url b.base_url in
      map_parsed (lib.parse_url (normalised b.base_url)) invalid λ base.
        map_parsed (endpoint base SlackMethod.post_message) invalid λ post_message_url.
          map_parsed (endpoint base SlackMethod.update_message) invalid λ update_message_url.
            map_parsed (endpoint base SlackMethod.auth_test) invalid λ auth_test_url.
              let authorization = joined ("Bearer " ∷ b.token ∷ []) in
              if lib.is_header_value authorization
              then map_parsed (lib.build_http b.timeout authorization) build (λ http.
                accepted (record {
                  http = http;
                  endpoints = record {
                    post_message_url = post_message_url;
                    update_message_url = update_message_url;
                    auth_test_url = auth_test_url;
                  };
                }))
              else refused malformed_token

  abbrev pub sent : SlackClient → SlackMethod → Payload → Sent
  unfolding url
  sent client m payload = lib.send client.http (url client.endpoints m) payload

  unfoldable pub post_message :
      SlackClient → ChannelId → Option ThreadTs → Bool → MessageBody → Answer PostedMessage
  unfolding call posted_message
  post_message client chan thread_ts reply_broadcast body =
      and_then
        (call lib.decode_post (λ r. r.envelope) SlackMethod.post_message
          (sent client SlackMethod.post_message (wire_post chan thread_ts reply_broadcast body)))
        (posted_message chan)

  unfoldable pub update_message :
      SlackClient → ChannelId → MessageTs → MessageBody → Answer (Unit {0})
  unfolding call
  update_message client chan ts body =
      and_then
        (call lib.decode_update (λ r. r.envelope) SlackMethod.update_message
          (sent client SlackMethod.update_message (wire_update chan ts body)))
        (λ r. accepted tt)

  unfoldable pub auth_test : SlackClient → Answer AuthIdentity
  unfolding call auth_identity
  auth_test client =
      and_then
        (call lib.decode_auth (λ r. r.envelope) SlackMethod.auth_test
          (sent client SlackMethod.auth_test empty_object))
        auth_identity
