-- ===== src/Slack/Blocks.antt =====
-- crates/slack/src/render/blocks.rs: a rendered text made to fit Slack's limits.
pub mod Chunks
pub mod Sections
pub mod Notification
use Prim.Native.Char.{Char, char, code}
use alertthread.Base.{
  ℕ, zero, suc, ◌+◌, ◌-◌, ◌*◌, String, Bool, not, ◌&&◌, Option, none, some, List, [], ◌∷◌, ◌++◌,
  map, ltb, leb, ◌==◌, if◌then◌else◌, length, take, is_empty,
}
use alertthread.Base.Text.{is_blank, trim, trim_end, joined}
use alertthread.Base.Lines.{
  char_count, take_chars, skip_chars, push, filter_chars, lines, split_whitespace, join, decimal,
}
use alertthread.Slack.Message.{
  Block, section_of, context_of, max_blocks, max_section_chars, max_notification_chars,
}

pub record Truncation : Type 0 where
  pub dropped_chars : ℕ
  pub dropped_blocks : ℕ

abbrev pub max_sections : ℕ
max_sections = max_blocks - 1

abbrev pub newline : Char
newline = char 10 tt

-- The lines that `tidy` keeps, after a run of so many blank ones.
unfoldable pub tidy_lines : ℕ → List String → List String
tidy_lines blank_run [] = []
tidy_lines blank_run (line ∷ rest) =
    let trimmed = trim_end line in
    let next = if is_blank trimmed then blank_run + 1 else 0 in
    let kept = tidy_lines next rest in
    if is_blank trimmed && ltb 1 next then kept else trimmed ∷ kept

unfoldable pub tidy : String → String
unfolding tidy_lines
tidy s = trim (join newline (tidy_lines 0 (lines s)))

-- What `chunk` carries from one character to the next.
pub record Chunking : Type 0 where
  pub current : String
  pub count : ℕ
  pub last_break : Option ℕ

unfoldable pub split_at : ℕ → ℕ → Option ℕ → ℕ
split_at limit count none = count
split_at limit count (some at) = if ltb limit (at * 2) then at else count

unfoldable pub pushed : Char → Chunking → Chunking
pushed c st =
    let count = st.count + 1 in
    record {
      current = push st.current c;
      count = count;
      last_break = if code c == 10 then some count else st.last_break;
    }

abbrev pub head_of : ℕ → Chunking → String
unfolding split_at
head_of limit st = take_chars (split_at limit st.count st.last_break) st.current

unfoldable pub tail_of : ℕ → Chunking → Chunking
unfolding split_at
tail_of limit st =
    let tail = skip_chars (split_at limit st.count st.last_break) st.current in
    record { current = tail; count = char_count tail; last_break = none }

abbrev pub remainder : String → List String
remainder String.[] = []
remainder (String.◌∷◌ c s) = String.◌∷◌ c s ∷ []

unfoldable pub chunk_from : ℕ → Chunking → String → List String
unfolding pushed tail_of
chunk_from limit st String.[] = remainder st.current
chunk_from limit st (String.◌∷◌ c s) =
    let next = pushed c st in
    let is_full = leb limit next.count in
    let rest = chunk_from limit (if is_full then tail_of limit next else next) s in
    if is_full then head_of limit next ∷ rest else rest

unfoldable pub chunk : String → ℕ → List String
unfolding chunk_from
chunk s limit = chunk_from limit (record { current = ""; count = 0; last_break = none }) s

abbrev pub skip : ℕ → List String → List String
skip zero xs = xs
skip (suc n) [] = []
skip (suc n) (x ∷ xs) = skip n xs

abbrev pub total_chars : List String → ℕ
total_chars [] = 0
total_chars (s ∷ rest) = char_count s + total_chars rest

abbrev pub truncation_of : List String → Truncation
truncation_of dropped = record {
  dropped_chars = total_chars dropped;
  dropped_blocks = length dropped;
}

abbrev pub notice_head : String
notice_head = ":scissors: _truncated to fit Slack's limits — "

abbrev pub notice_tail : String
notice_tail = " characters omitted. Shorten the annotation or the template._"

unfoldable pub truncation_notice : ℕ → String
unfolding decimal
truncation_notice dropped = joined (notice_head ∷ decimal dropped ∷ notice_tail ∷ [])

abbrev pub notice : Truncation → Block
notice t = context_of (truncation_notice t.dropped_chars)

unfoldable pub fit : List String → List Block × Option Truncation
fit chunks =
    let blocks = map section_of (take max_sections chunks) in
    let dropped = skip max_sections chunks in
    if is_empty dropped
    then (blocks, none)
    else (blocks ++ notice (truncation_of dropped) ∷ [], some (truncation_of dropped))

unfoldable pub sections : String → List Block × Option Truncation
unfolding fit chunk tidy
sections s =
    let trimmed = tidy s in
    if is_blank trimmed then ([], none) else fit (chunk trimmed max_section_chars)

-- The first line that is not empty when trimmed, and else the empty text.
abbrev pub first_line : List String → String
first_line [] = ""
first_line (line ∷ rest) =
    let more = first_line rest in if is_blank (trim line) then more else trim line

abbrev is_plain : Char → Bool
is_plain c = not (code c == 42) && not (code c == 96)

unfoldable pub squeezed : String → String
squeezed s = join (char 32 tt) (split_whitespace (filter_chars is_plain (first_line (lines s))))

unfoldable pub bounded : String → String
bounded s =
    if ltb max_notification_chars (char_count s)
    then joined (take_chars max_notification_chars s ∷ "…" ∷ [])
    else if is_blank s
    then "alertthread notification"
    else s

unfoldable pub notification : String → String
unfolding squeezed bounded
notification s = bounded (squeezed s)
