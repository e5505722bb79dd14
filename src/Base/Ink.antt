-- ===== src/Base/Ink.antt =====
-- Whether a text has a character that is not white space, which trimming, lines and joining keep.
use Prim.Native.Char.{Char, code}
use Prim.Native.String.{◌++◌ as str_append}
use text.Mathlib.TextLemmas.{nil-append, cons-append}
use alertthread.Base.{
  String, ◌≡◌, refl, ap, Bool, true, false, not, ◌||◌, List, [], ◌∷◌, arith, any,
}
use alertthread.Base.Text.{is_whitespace, is_blank, trim_start, trim_end, trim}
use alertthread.Base.Lines.{onto_first, lines, join}

unfoldable pub has_ink : String → Bool
has_ink String.[] = false
has_ink (String.◌∷◌ c s) = not (is_whitespace c) || has_ink s

has_ink-trim_start : (s : String) → has_ink (trim_start s) ≡ has_ink s
unfolding has_ink trim_start
has_ink-trim_start String.[] = refl
has_ink-trim_start (String.◌∷◌ c s) = ground (arith, has_ink-trim_start s)

is_blank-trim_end : (s : String) → is_blank (trim_end s) ≡ not (has_ink s)
unfolding has_ink trim_end
is_blank-trim_end String.[] = refl
is_blank-trim_end (String.◌∷◌ c s) = ground (arith, is_blank-trim_end s)

pub is_blank-trim : (s : String) → is_blank (trim s) ≡ not (has_ink s)
unfolding trim
is_blank-trim s = ground (arith, is_blank-trim_end (trim_start s), has_ink-trim_start s)

pub has_ink-trim_end : (s : String) → has_ink (trim_end s) ≡ has_ink s
unfolding has_ink trim_end
has_ink-trim_end String.[] = refl
has_ink-trim_end (String.◌∷◌ c s) = ground (arith, has_ink-trim_end s)

pub has_ink-append : (s t : String) → has_ink (str_append s t) ≡ (has_ink s || has_ink t)
unfolding has_ink
has_ink-append String.[] t = ap has_ink (nil-append t)
has_ink-append (String.◌∷◌ c s) t = rw (cons-append c s t) (ground (arith, has_ink-append s t))

newline_blank : (c : Char) → code c ≡ 10 → is_whitespace c ≡ true
unfolding is_whitespace
newline_blank c h = ground arith

return_blank : (c : Char) → code c ≡ 13 → is_whitespace c ≡ true
unfolding is_whitespace
return_blank c h = ground arith

has_ink-onto_first :
    (c : Char) (ls : List String)
    → any has_ink (onto_first c ls) ≡ (not (is_whitespace c) || any has_ink ls)
unfolding has_ink
has_ink-onto_first c [] = ground arith
has_ink-onto_first c (s ∷ rest) = ground arith

pub has_ink-lines : (s : String) → any has_ink (lines s) ≡ has_ink s
unfolding has_ink lines
has_ink-lines String.[] = refl
has_ink-lines (String.◌∷◌ c s) =
    ground (arith, has_ink-lines s, newline_blank c, return_blank c, has_ink-onto_first c (lines s))

pub has_ink-join :
    (sep : Char) (ls : List String)
    → is_whitespace sep ≡ true
    → has_ink (join sep ls) ≡ any has_ink ls
unfolding has_ink join
has_ink-join sep [] h = refl
has_ink-join sep (s ∷ []) h = ground arith
has_ink-join sep (s ∷ t ∷ rest) h =
    ground (
      arith,
      has_ink-join sep (t ∷ rest) h,
      has_ink-append s (String.◌∷◌ sep (join sep (t ∷ rest))),
    )
