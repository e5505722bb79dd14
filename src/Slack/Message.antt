-- ===== src/Slack/Message.antt =====
-- crates/slack/src/message.rs: a message as Slack takes it.
use alertthread.Base.{ℕ, String, List, [], ◌∷◌}

abbrev pub max_section_chars : ℕ
max_section_chars = 3000

abbrev pub max_blocks : ℕ
max_blocks = 50

abbrev pub max_notification_chars : ℕ
max_notification_chars = 200

pub data Colour : Type 0 where
  firing : Colour
  resolved : Colour

abbrev pub as_hex : Colour → String
as_hex firing = "#d40e0d"
as_hex resolved = "#2eb886"

abbrev pub mrkdwn : String
mrkdwn = "mrkdwn"

pub record Text : Type 0 where
  pub kind : String
  pub content : String

abbrev pub mrkdwn_text : String → Text
mrkdwn_text content = record { kind = mrkdwn; content = content }

pub data Block : Type 0 where
  section : (content : Text) → Block
  context : (elements : List Text) → Block

abbrev pub section_of : String → Block
section_of content = section (mrkdwn_text content)

abbrev pub context_of : String → Block
context_of content = context (mrkdwn_text content ∷ [])

pub record Attachment : Type 0 where
  pub color : String
  pub fallback : String
  pub blocks : List Block

pub record MessageBody : Type 0 where
  pub content : String
  pub attachments : List Attachment

unfoldable pub message_body : Colour → String → List Block → MessageBody
message_body colour notification blocks = record {
  content = notification;
  attachments = record { color = as_hex colour; fallback = notification; blocks = blocks } ∷ [];
}

unfoldable pub blocks : MessageBody → List Block
blocks body = elim body.attachments [ [] ↦ [] | attachment ∷ rest ↦ attachment.blocks ]
