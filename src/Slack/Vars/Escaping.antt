-- ===== src/Slack/Vars/Escaping.antt =====
-- `escape` of crates/slack/src/render/view.rs, against the reading of Slack's three entities.
use Prim.Native.Char.{Char, char, code}
use text.Mathlib.TextEquality.{Char-path}
use alertthread.Base.{
  ℕ, zero, suc, String, ◌≡◌, refl, ap, ap₂, ◌∙◌, inl, inr, Bool, true, false, ◌&&◌, ◌||◌, arith,
  ◌==◌, if◌then◌else◌, Bool-cases,
}
use alertthread.Slack.Vars.{escape}

abbrev begins : String → String → Bool
begins String.[] t = true
begins (String.◌∷◌ c s) String.[] = false
begins (String.◌∷◌ c s) (String.◌∷◌ d t) = code c == code d && begins s t

-- An entity that was read is skipped, and stands for its character.
abbrev pub unescape_from : ℕ → String → String
unescape_from n String.[] = ""
unescape_from (suc n) (String.◌∷◌ c s) = unescape_from n s
unescape_from zero (String.◌∷◌ c s) =
    if code c == 38 && begins "amp;" s
    then String.◌∷◌ (char 38 tt) (unescape_from 4 s)
    else if code c == 38 && begins "lt;" s
    then String.◌∷◌ (char 60 tt) (unescape_from 3 s)
    else if code c == 38 && begins "gt;" s
    then String.◌∷◌ (char 62 tt) (unescape_from 3 s)
    else String.◌∷◌ c (unescape_from 0 s)

abbrev pub unescape : String → String
unescape s = unescape_from 0 s

-- A character that Slack reads as the start or the end of a mention or a link.
abbrev pub has_bracket : String → Bool
has_bracket String.[] = false
has_bracket (String.◌∷◌ c s) = code c == 60 || code c == 62 || has_bracket s

plain :
    (c : Char) (s : String)
    → (code c == 38) ≡ false
    → unescape_from 0 (String.◌∷◌ c s) ≡ String.◌∷◌ c (unescape_from 0 s)
plain c s h = ground arith

unescape-escape : (s : String) → unescape (escape s) ≡ s
unfolding escape
unescape-escape String.[] = refl
unescape-escape (String.◌∷◌ c s) =
    let rest = unescape-escape s in
    elim (Bool-cases (code c == 38)) [
      | inl amp ↦ rw amp (ap₂ String.◌∷◌ (Char-path (char 38 tt) c (ground arith)) rest)
      | inr not_amp ↦ elim (Bool-cases (code c == 60)) [
        | inl lt ↦ rw (not_amp, lt) (ap₂ String.◌∷◌ (Char-path (char 60 tt) c (ground arith)) rest)
        | inr not_lt ↦ elim (Bool-cases (code c == 62)) [
          | inl gt ↦
              rw (not_amp, not_lt, gt)
                (ap₂ String.◌∷◌ (Char-path (char 62 tt) c (ground arith)) rest)
          | inr not_gt ↦
              rw (not_amp, not_lt, not_gt) (plain c (escape s) not_amp ∙ ap (String.◌∷◌ c) rest)
        ]
      ]
    ]

has_bracket-escape : (s : String) → has_bracket (escape s) ≡ false
unfolding escape
has_bracket-escape String.[] = refl
has_bracket-escape (String.◌∷◌ c s) = ground (arith, has_bracket-escape s)

-- Escaping loses nothing and leaves no angle bracket: reading the three entities of an escaped text gives
-- the text back, and neither `<` nor `>` stands in it.
pub escape_lem : (s : String) → (unescape (escape s) ≡ s) × (has_bracket (escape s) ≡ false)
escape_lem s = (unescape-escape s, has_bracket-escape s)
