-- ===== src/Base/Lines.antt =====
-- Parts of a text as Rust's `str` has them: characters counted, a prefix, lines, words, and decimals.
use Prim.Native.Char.{Char, code}
use Prim.Native.String.{char_at, ◌++◌ as str_append}
use alertthread.Base.{
  ℕ, zero, suc, ◌/◌, ◌%◌, ◌^◌, ◌<◌, String, ◌≡◌, Bool, true, false, ◌&&◌, List, [], ◌∷◌, arith, ltb,
  ◌==◌, if◌then◌else◌,
}
use alertthread.Base.Text.{is_whitespace}

-- `chars().count()`
abbrev pub char_count : String → ℕ
char_count String.[] = 0
char_count (String.◌∷◌ c s) = suc (char_count s)

abbrev pub take_chars : ℕ → String → String
take_chars zero s = String.[]
take_chars (suc n) String.[] = String.[]
take_chars (suc n) (String.◌∷◌ c s) = String.◌∷◌ c (take_chars n s)

abbrev pub skip_chars : ℕ → String → String
skip_chars zero s = s
skip_chars (suc n) String.[] = String.[]
skip_chars (suc n) (String.◌∷◌ c s) = skip_chars n s

-- A character at the end.
abbrev pub push : String → Char → String
push String.[] c = String.◌∷◌ c String.[]
push (String.◌∷◌ d s) c = String.◌∷◌ d (push s c)

abbrev pub filter_chars : (Char → Bool) → String → String
filter_chars p String.[] = String.[]
filter_chars p (String.◌∷◌ c s) =
    let rest = filter_chars p s in if p c then String.◌∷◌ c rest else rest

-- A character in front of the first part.
abbrev pub onto_first : Char → List String → List String
onto_first c [] = String.◌∷◌ c String.[] ∷ []
onto_first c (s ∷ rest) = String.◌∷◌ c s ∷ rest

abbrev pub begins_with : ℕ → String → Bool
begins_with at String.[] = false
begins_with at (String.◌∷◌ c s) = code c == at

-- `lines`: a line ends before `\n` or `\r\n`, and the text's end adds no empty one.
unfoldable pub lines : String → List String
lines String.[] = []
lines (String.◌∷◌ c s) =
    let rest = lines s in
    if code c == 10
    then String.[] ∷ rest
    else if code c == 13 && begins_with 10 s
    then rest
    else onto_first c rest

abbrev pub begins_blank : String → Bool
begins_blank String.[] = true
begins_blank (String.◌∷◌ c s) = is_whitespace c

-- `split_whitespace`
unfoldable pub split_whitespace : String → List String
split_whitespace String.[] = []
split_whitespace (String.◌∷◌ c s) =
    let rest = split_whitespace s in
    if is_whitespace c
    then rest
    else if begins_blank s
    then String.◌∷◌ c String.[] ∷ rest
    else onto_first c rest

-- `join`, with a character between the parts.
unfoldable pub join : Char → List String → String
join sep [] = String.[]
join sep (s ∷ []) = s
join sep (s ∷ t ∷ rest) = str_append s (String.◌∷◌ sep (join sep (t ∷ rest)))

abbrev pub digit : ℕ → Char
digit n = char_at "0123456789" n

unfoldable pub digits : ℕ → ℕ → String → String
digits zero n rest = rest
digits (suc fuel) n rest =
    let more = digits fuel (n / 10) (String.◌∷◌ (digit (n % 10)) rest) in
    if ltb n 10 then String.◌∷◌ (digit n) rest else more

-- A `u64` in decimal has twenty digits at most.
unfoldable pub decimal : ℕ → String
unfolding digits
decimal n = digits 20 n String.[]

-- More fuel than the digits that a number has changes nothing.
digits_enough :
    (fuel n : ℕ) (rest : String)
    → n < 10 ^ suc fuel
    → digits (suc fuel) n rest ≡ digits (suc (suc fuel)) n rest
unfolding digits
digits_enough zero n rest h = ground arith
digits_enough (suc fuel) n rest h =
    ground (arith, digits_enough fuel (n / 10) (String.◌∷◌ (digit (n % 10)) rest) (omega arith))
