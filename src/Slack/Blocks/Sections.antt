-- ===== src/Slack/Blocks/Sections.antt =====
-- `sections` of crates/slack/src/render/blocks.rs: Slack's limits are kept and no character is lost
-- uncounted.
use Prim.Native.String.{◌++◌ as str_append}
use alertthread.Base.{
  ℕ, ◌+◌, ◌≤◌, String, ◌≡◌, refl, sym, ap, ◌∙◌, inl, inr, true, false, not, Option, none, some,
  List, [], ◌∷◌, ◌++◌, arith, Bool-cases, length, is_empty, any, All,
}
use alertthread.Base.Text.{is_blank, is_whitespace, trim_end, joined}
use alertthread.Base.Lines.{char_count, lines, join}
use alertthread.Base.Ink.{has_ink, is_blank-trim, has_ink-trim_end, has_ink-lines, has_ink-join}
use alertthread.Slack.Message.{Block, section, context, max_blocks, max_section_chars}
use alertthread.Slack.Blocks.{
  Truncation, max_sections, newline, tidy_lines, tidy, chunk, skip, fit, sections,
}
use alertthread.Slack.Blocks.Chunks.{Fits, joined-chunk}

-- The characters that the sections show.
abbrev pub shown_chars : List Block → ℕ
shown_chars [] = 0
shown_chars (section t ∷ rest) = char_count t.content + shown_chars rest
shown_chars (context ts ∷ rest) = shown_chars rest

abbrev pub lost_chars : Option Truncation → ℕ
lost_chars none = 0
lost_chars (some t) = t.dropped_chars

-- No text of a block is empty or too long.
abbrev pub BlockFits : Block → Type 0
BlockFits (section t) = Fits max_section_chars t.content
BlockFits (context ts) = All (λ t. Fits max_section_chars t.content) ts

abbrev pub Keeps : ℕ → List Block × Option Truncation → Type 0
Keeps chars r =
    (length r.0 ≤ max_blocks) × All BlockFits r.0 × (shown_chars r.0 + lost_chars r.1 ≡ chars)

blank-ink : (s : String) → is_blank s ≡ true → has_ink s ≡ false
unfolding has_ink
blank-ink String.[] h = refl
blank-ink (String.◌∷◌ c s) h = cc

cut :
    (s : String)
    → (joined (chunk (tidy s) max_section_chars) ≡ tidy s)
      × All (Fits max_section_chars) (chunk (tidy s) max_section_chars)
cut s =
    let (whole, fits) = joined-chunk (tidy s) max_section_chars in
    (whole, elim fits [ inl zero_limit ↦ absurd (omega (arith, zero_limit)) | inr all ↦ all ])

-- Blank lines and white space at the ends are all that tidying takes away.
tidy_lines-has_ink : (n : ℕ) (ls : List String) → any has_ink (tidy_lines n ls) ≡ any has_ink ls
unfolding tidy_lines
tidy_lines-has_ink n [] = refl
tidy_lines-has_ink n (l ∷ rest) = ground (
  arith,
  has_ink-trim_end l,
  blank-ink (trim_end l),
  tidy_lines-has_ink (n + 1) rest,
  tidy_lines-has_ink 0 rest,
)

newline-is_whitespace : is_whitespace newline ≡ true
unfolding is_whitespace
newline-is_whitespace = refl

is_blank-tidy : (s : String) → is_blank (tidy s) ≡ not (has_ink s)
unfolding tidy
is_blank-tidy s =
    is_blank-trim (join newline (tidy_lines 0 (lines s)))
    ∙ ap not (
        has_ink-join newline (tidy_lines 0 (lines s)) newline-is_whitespace
        ∙ tidy_lines-has_ink 0 (lines s)
        ∙ has_ink-lines s)

fit-is_empty : (ss : List String) → is_empty (fit ss).0 ≡ is_empty ss
unfolding fit
fit-is_empty [] = refl
fit-is_empty (s ∷ rest) = elim (Bool-cases (is_empty (skip max_sections (s ∷ rest)))) [
  | inl e ↦ rw e refl
  | inr e ↦ rw e refl
]

chunks-is_empty :
    (ss : List String) (s : String) → joined ss ≡ s → is_blank s ≡ false → is_empty ss ≡ false
chunks-is_empty [] s h e = cc
chunks-is_empty (x ∷ rest) s h e = refl

-- A text gives no block at all exactly if it is white space throughout.
pub sections-is_empty : (s : String) → is_empty (sections s).0 ≡ not (has_ink s)
unfolding sections
sections-is_empty s = elim (Bool-cases (is_blank (tidy s))) [
  | inl e ↦ rw (sections, e) (sym e ∙ is_blank-tidy s)
  | inr e ↦
      rw (sections, e)
        (fit-is_empty (chunk (tidy s) max_section_chars)
          ∙ chunks-is_empty (chunk (tidy s) max_section_chars) (tidy s) (cut s).0 e
          ∙ sym e
          ∙ is_blank-tidy s)
]
