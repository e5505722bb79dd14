-- ===== src/Slack/Blocks/Notification.antt =====
-- `notification` of crates/slack/src/render/blocks.rs: the line that a phone shows.
use text.Mathlib.TextLemmas.{cons-append}
use alertthread.Base.{
  ℕ, zero, suc, ◌+◌, ◌≤◌, String, ◌≡◌, refl, inl, inr, false, [], ◌∷◌, arith, ltb, Bool-cases,
}
use alertthread.Base.Text.{is_blank, joined}
use alertthread.Base.Lines.{char_count, take_chars}
use alertthread.Slack.Message.{max_notification_chars}
use alertthread.Slack.Blocks.{squeezed, bounded, notification}

cut_brief :
    (n : ℕ) (s : String)
    → (is_blank (joined (take_chars n s ∷ "…" ∷ [])) ≡ false)
      × (char_count (joined (take_chars n s ∷ "…" ∷ [])) ≤ n + 1)
cut_brief zero s = (refl, omega arith)
cut_brief (suc n) String.[] = (refl, omega arith)
cut_brief (suc n) (String.◌∷◌ c s) =
    let rest = cut_brief n s in rw (cons-append c (take_chars n s) "…") (refl, omega (arith, rest))

bounded_brief :
    (s : String)
    → (is_blank (bounded s) ≡ false) × (char_count (bounded s) ≤ max_notification_chars + 1)
unfolding bounded
bounded_brief s = elim (Bool-cases (ltb max_notification_chars (char_count s))) [
  | inl long ↦ rw (bounded, long) (cut_brief max_notification_chars s)
  | inr short ↦ elim (Bool-cases (is_blank s)) [
    | inl e ↦ rw (bounded, short, e) (refl, omega arith)
    | inr e ↦ rw (bounded, short, e) (e, ground arith)
  ]
]

-- The notification is never empty, and is at most two hundred characters and the mark of a cut.
pub notification-bounds :
    (s : String)
    → (is_blank (notification s) ≡ false)
      × (char_count (notification s) ≤ max_notification_chars + 1)
unfolding notification
notification-bounds s = bounded_brief (squeezed s)
