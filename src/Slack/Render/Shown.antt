-- ===== src/Slack/Render/Shown.antt =====
-- `Renderer::render` of crates/slack/src/render/mod.rs: whatever the template does, there is a message.
use alertthread.Base.{◌+◌, ◌≤◌, String, ◌≡◌, Bool, true, false, not, is_some, length, is_empty, All}
use Prim.Native.String.{◌++◌ as str_append}
use alertthread.Base.Text.{is_blank}
use alertthread.Base.Lines.{char_count}
use alertthread.Base.Ink.{has_ink}
use alertthread.Slack.Message.{max_blocks, max_notification_chars, blocks}
use alertthread.Slack.Blocks.Sections.{BlockFits}
use alertthread.Slack.Render.{Rendered, Attempt, made, failed}

-- At least one block, no more than Slack takes, and each of a length that it takes; and a notification that
-- is neither empty nor longer than the limit and the mark of a cut.
abbrev pub IsShowable : Rendered → Type 0
IsShowable r =
    (is_empty (blocks r.body) ≡ false)
    × (length (blocks r.body) ≤ max_blocks)
    × All BlockFits (blocks r.body)
    × (is_blank r.body.content ≡ false)
    × (char_count r.body.content ≤ max_notification_chars + 1)

-- A template that failed, or that gave nothing but white space.
abbrev pub is_unusable : Attempt String → Bool
unfolding has_ink
is_unusable (made content) = not (has_ink content)
is_unusable (failed detail) = true

abbrev pub Answers : Attempt String → Rendered → Type 0
unfolding is_unusable
Answers attempt r = IsShowable r × (is_some r.degraded ≡ is_unusable attempt)
