-- ===== src/Slack/Blocks/Chunks.antt =====
-- `chunk` of crates/slack/src/render/blocks.rs: the pieces make up the text, and each is within the limit.
use Prim.Native.Char.{Char, code}
use Prim.Native.String.{◌++◌ as str_append}
use text.Mathlib.TextLemmas.{nil-append, cons-append, append_assoc}
use alertthread.Base.{
  ℕ, zero, suc, ◌+◌, ◌-◌, ◌≤◌, ◌<◌, String, ◌≡◌, refl, sym, ap, ◌∙◌, ◌⊎◌, inl, inr, Bool, true,
  false, Option, none, some, arith, leb, ◌==◌, if◌then◌else◌, Bool-cases, All,
}
use alertthread.Base.Text.{is_blank, joined}
use alertthread.Base.Lines.{char_count, take_chars, skip_chars, push}
use alertthread.Slack.Blocks.{Chunking, remainder, split_at, pushed, tail_of, chunk_from, chunk}

take-append-skip : (n : ℕ) (s : String) → str_append (take_chars n s) (skip_chars n s) ≡ s
take-append-skip zero s = nil-append s
take-append-skip (suc n) String.[] = refl
take-append-skip (suc n) (String.◌∷◌ c s) =
    cons-append c (take_chars n s) (skip_chars n s) ∙ ap (String.◌∷◌ c) (take-append-skip n s)

push-append :
    (s : String) (c : Char) (t : String) → str_append (push s c) t ≡ str_append s (String.◌∷◌ c t)
push-append String.[] c t =
    cons-append c String.[] t ∙ ap (String.◌∷◌ c) (nil-append t) ∙ sym (nil-append (String.◌∷◌ c t))
push-append (String.◌∷◌ d s) c t =
    cons-append d (push s c) t
    ∙ ap (String.◌∷◌ d) (push-append s c t)
    ∙ sym (cons-append d s (String.◌∷◌ c t))

char_count-push : (s : String) (c : Char) → char_count (push s c) ≡ char_count s + 1
char_count-push String.[] c = refl
char_count-push (String.◌∷◌ d s) c = omega (arith, char_count-push s c)

char_count-take-le : (n : ℕ) (s : String) → char_count (take_chars n s) ≤ n
char_count-take-le zero s = omega arith
char_count-take-le (suc n) String.[] = omega arith
char_count-take-le (suc n) (String.◌∷◌ c s) = omega (arith, char_count-take-le n s)

char_count-skip : (n : ℕ) (s : String) → char_count (skip_chars n s) ≡ char_count s - n
char_count-skip zero s = omega arith
char_count-skip (suc n) String.[] = omega arith
char_count-skip (suc n) (String.◌∷◌ c s) = omega (arith, char_count-skip n s)

take-blank : (n : ℕ) (s : String) → 0 < n → is_blank s ≡ false → is_blank (take_chars n s) ≡ false
take-blank zero s h e = absurd (omega arith)
take-blank (suc n) String.[] h e = e
take-blank (suc n) (String.◌∷◌ c s) h e = refl

push-blank : (s : String) (c : Char) → is_blank (push s c) ≡ false
push-blank String.[] c = refl
push-blank (String.◌∷◌ d s) c = refl

joined-remainder : (s : String) → joined (remainder s) ≡ str_append s ""
joined-remainder String.[] = sym (nil-append "")
joined-remainder (String.◌∷◌ c s) = refl

-- The pieces from a state on are what it holds and the text to come.
joined-chunk_from :
    (limit : ℕ) (st : Chunking) (s : String)
    → joined (chunk_from limit st s) ≡ str_append st.current s
unfolding chunk_from
joined-chunk_from limit st String.[] = joined-remainder st.current
joined-chunk_from limit st (String.◌∷◌ c s) =
    let next = pushed c st in
    let cut = split_at limit next.count next.last_break in
    ground (
      arith,
      joined-chunk_from limit (tail_of limit next) s,
      joined-chunk_from limit next s,
      push-append st.current c s,
      append_assoc (take_chars cut next.current) (skip_chars cut next.current) s,
      take-append-skip cut next.current,
    )

abbrev pub Fits : ℕ → String → Type 0
Fits limit s = (is_blank s ≡ false) × (char_count s ≤ limit)

abbrev Within : Option ℕ → ℕ → Type 0
Within none count = Unit {0}
Within (some at) count = at ≤ count

abbrev IsValid : ℕ → Chunking → Type 0
IsValid limit st =
    (st.count ≡ char_count st.current) × (st.count < limit) × Within st.last_break st.count

split_at_bounds :
    (limit count : ℕ) (at : Option ℕ)
    → 0 < limit
    → 0 < count
    → Within at count
    → (0 < split_at limit count at) × (split_at limit count at ≤ count)
unfolding split_at
split_at_bounds limit count none l h w = (h, omega arith)
split_at_bounds limit count (some at) l h w = ground arith

remainder-Fits : (limit : ℕ) (s : String) → char_count s ≤ limit → All (Fits limit) (remainder s)
remainder-Fits limit String.[] h = tt
remainder-Fits limit (String.◌∷◌ c s) h = ((refl, h), tt)

Within-step : (at : Option ℕ) (n : ℕ) → Within at n → Within at (n + 1)
Within-step none n h = tt
Within-step (some at) n h = omega (arith, h)

Within-if :
    (b : Bool) (at : Option ℕ) (n : ℕ)
    → Within at n
    → Within (if b then some (n + 1) else at) (n + 1)
Within-if true at n h = omega arith
Within-if false at n h = Within-step at n h

tail_of-IsValid :
    (limit : ℕ) (st : Chunking)
    → (0 < split_at limit st.count st.last_break)
    → st.count ≡ char_count st.current
    → st.count ≤ limit
    → 0 < limit
    → IsValid limit (tail_of limit st)
unfolding tail_of
tail_of-IsValid limit st cut e h l =
    (refl, omega (arith, char_count-skip (split_at limit st.count st.last_break) st.current), tt)

pushed-bounds :
    (limit : ℕ) (c : Char) (st : Chunking)
    → IsValid limit st
    → ((pushed c st).count ≡ char_count (pushed c st).current)
      × ((pushed c st).count ≤ limit)
      × Within (pushed c st).last_break (pushed c st).count
unfolding pushed
pushed-bounds limit c st h = (
  omega (arith, h.0, char_count-push st.current c),
  omega (arith, h.1),
  Within-if (code c == 10) st.last_break st.count h.2,
)

chunk_from-Fits :
    (limit : ℕ) (st : Chunking) (s : String)
    → 0 < limit
    → IsValid limit st
    → All (Fits limit) (chunk_from limit st s)
unfolding chunk_from
chunk_from-Fits limit st String.[] l h = remainder-Fits limit st.current (omega (arith, h.0, h.1))
chunk_from-Fits limit st (String.◌∷◌ c s) l h =
    let next = pushed c st in
    let b = pushed-bounds limit c st h in
    let cut = split_at_bounds limit next.count next.last_break l (omega arith) b.2 in
    elim (Bool-cases (leb limit (st.count + 1))) [
      | inl e ↦ rw e (
        (
          take-blank (split_at limit next.count next.last_break) next.current cut.0
              (push-blank st.current c),
          omega (
            arith,
            char_count-take-le (split_at limit next.count next.last_break) next.current,
            cut,
            b,
          ),
        ),
        chunk_from-Fits limit (tail_of limit next) s l (tail_of-IsValid limit next cut.0 b.0 b.1 l),
      )
      | inr e ↦ rw e (chunk_from-Fits limit next s l (b.0, (ground arith), b.2))
    ]

abbrev start : Chunking
start = record { current = ""; count = 0; last_break = none }

-- `chunk` cuts a text without losing or adding anything, whatever the limit: the pieces in a row are the
-- text. Each piece has a character and at most as many as the limit, unless the limit is zero.
pub joined-chunk :
    (s : String) (limit : ℕ)
    → (joined (chunk s limit) ≡ s) × ((limit ≡ 0) ⊎ All (Fits limit) (chunk s limit))
unfolding chunk
joined-chunk s zero = (joined-chunk_from 0 start s ∙ nil-append s, inl refl)
joined-chunk s (suc n) = (
  joined-chunk_from (suc n) start s ∙ nil-append s,
  inr (chunk_from-Fits (suc n) start s (omega arith) (refl, omega arith, tt)),
)
