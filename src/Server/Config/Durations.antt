-- ===== src/Server/Config/Durations.antt =====
-- The durations of crates/app/src/config.rs, `parse_duration`. A `TimeDelta` is its nanoseconds; it holds
-- at most 2^63 - 1 milliseconds, and chrono's addition and its `seconds` panic beyond that. An error's text
-- is the kind of the error.
use Prim.Native.Char.{Char, code}
use alertthread.Base.{
  ℕ, ◌+◌, ◌-◌, ◌*◌, ◌^◌, String, Bool, true, false, not, ◌&&◌, Option, none, some, ltb, leb, ◌==◌,
  str_eq, if◌then◌else◌,
}
use alertthread.Base.Int.{ℤ, pos, negsuc}
use alertthread.Base.Text.{is_whitespace, is_blank, trim_end}
use alertthread.Base.Lines.{push}

pub data DurationError : Type 0 where
  empty_duration : DurationError
  not_a_duration : (whole : String) → DurationError
  no_number_before : (unit : String) → (whole : String) → DurationError
  unknown_unit : (unit : String) → (whole : String) → DurationError
  too_long : (whole : String) → DurationError

pub data Read (A : Type 0) : Type 0 where
  done : (value : A) → Read A
  refused : (error : DurationError) → Read A
  panicked : Read A

abbrev and_then : {A B : Type 0} → Read A → (A → Read B) → Read B
and_then (done value) next = next value
and_then (refused error) next = refused error
and_then panicked next = panicked

-- `parse::<i64>` of digits alone.
unfoldable pub parse_i64 : ℕ → String → Option ℕ
parse_i64 value String.[] = some value
parse_i64 value (String.◌∷◌ c s) =
    let next = value * 10 + (code c - 48) in
    let rest = parse_i64 next s in if ltb next (2 ^ 63) then rest else none

abbrev number : String → Option ℕ
number digits = if is_blank digits then none else parse_i64 0 digits

-- The largest `TimeDelta`.
abbrev longest : ℕ
longest = (2 ^ 63 - 1) * 1_000_000

unfoldable pub seconds : String → String → Read ℕ
unfolding parse_i64
seconds digits whole = elim (number digits) [
  | none ↦ refused (not_a_duration whole)
  | some n ↦ if leb (n * 1_000_000_000) longest then done (n * 1_000_000_000) else panicked
]

-- Nanoseconds in a unit.
unfoldable pub unit_size : String → Option ℕ
unit_size unit =
    if str_eq unit "ms"
    then some 1_000_000
    else if str_eq unit "s"
    then some 1_000_000_000
    else if str_eq unit "m"
    then some 60_000_000_000
    else if str_eq unit "h"
    then some 3_600_000_000_000
    else if str_eq unit "d"
    then some 86_400_000_000_000
    else none

unfoldable pub component : String → String → String → Read ℕ
unfolding parse_i64 unit_size
component digits unit whole = elim (number digits) [
  | none ↦ refused (no_number_before unit whole)
  | some n ↦ elim (unit_size unit) [
    | none ↦ refused (unknown_unit unit whole)
    | some size ↦ if leb (n * size) longest then done (n * size) else refused (too_long whole)
  ]
]

abbrev plus : ℕ → ℕ → Read ℕ
plus a b = if leb (a + b) longest then done (a + b) else panicked

abbrev is_digit : Char → Bool
is_digit c = leb 48 (code c) && leb (code c) 57

-- What the loop holds.
pub record Scan : Type 0 where
  pub total : ℕ
  pub digits : String
  pub unit : String
  pub saw_unit : Bool

unfoldable pub finish : String → Scan → Read ℕ
unfolding seconds component
finish whole st =
    if is_blank st.unit && st.saw_unit
    then refused (not_a_duration whole)
    else if is_blank st.unit
    then seconds st.digits whole
    else and_then (component st.digits st.unit whole) (plus st.total)

-- A digit behind a unit begins the next component.
unfoldable pub scan_digit : String → Char → Scan → Read Scan
unfolding component
scan_digit whole c st =
    if is_blank st.unit
    then done (record st { digits = push st.digits c })
    else and_then (component st.digits st.unit whole) λ more. and_then (plus st.total more) λ total.
      done (record { total = total; digits = push "" c; unit = ""; saw_unit = st.saw_unit })

unfoldable pub scan : String → String → Scan → Read ℕ
unfolding finish scan_digit
scan whole String.[] st = finish whole st
scan whole (String.◌∷◌ c s) st =
    and_then
      (if is_digit c
        then scan_digit whole c st
        else done (record st { unit = push st.unit c; saw_unit = true }))
      (scan whole s)

abbrev negate : ℤ → ℤ
negate (pos n) = if n == 0 then pos 0 else negsuc (n - 1)
negate (negsuc n) = pos (n + 1)

abbrev signed : Bool → ℕ → ℤ
signed true n = negate (pos n)
signed false n = pos n

-- Each sign in front is taken off, with the white space around it, and turns the result round.
unfoldable pub parse_signed : Bool → String → Read ℤ
unfolding scan trim_end
parse_signed is_negative String.[] = refused empty_duration
parse_signed is_negative (String.◌∷◌ c s) =
    let flipped = parse_signed (not is_negative) s in
    let same = parse_signed is_negative s in
    let whole = trim_end (String.◌∷◌ c s) in
    if is_whitespace c
    then same
    else if code c == 45
    then flipped
    else and_then
        (scan whole whole (record { total = 0; digits = ""; unit = ""; saw_unit = false }))
        (λ n. done (signed is_negative n))

unfoldable pub parse_duration : String → Read ℤ
unfolding parse_signed
parse_duration raw = parse_signed false raw
