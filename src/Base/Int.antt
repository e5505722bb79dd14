-- ===== src/Base/Int.antt =====
-- Signed integers over the native numbers, for time spans. The library's ℤ stands on unary numbers.
use alertthread.Base.{ℕ, suc, ◌+◌, ◌-◌, Bool, ltb, leb, if◌then◌else◌}

-- `negsuc n` is -(n + 1).
pub data ℤ : Type 0 where
  pos : ℕ → ℤ
  negsuc : ℕ → ℤ

abbrev pub pos_part : ℤ → ℕ
pos_part (pos n) = n
pos_part (negsuc n) = 0

abbrev pub neg_part : ℤ → ℕ
neg_part (pos n) = 0
neg_part (negsuc n) = suc n

-- a - b, as an integer.
abbrev pub sub_ℕ : ℕ → ℕ → ℤ
sub_ℕ a b = if leb b a then pos (a - b) else negsuc (b - a - 1)

abbrev pub leb_ℤ : ℤ → ℤ → Bool
leb_ℤ a b = leb (pos_part a + neg_part b) (pos_part b + neg_part a)

abbrev pub ltb_ℤ : ℤ → ℤ → Bool
ltb_ℤ a b = ltb (pos_part a + neg_part b) (pos_part b + neg_part a)

-- `DateTime - DateTime`, and `DateTime + TimeDelta` for a result that does not leave the range.
abbrev pub signed_duration_since : ℕ → ℕ → ℤ
signed_duration_since later earlier = sub_ℕ later earlier

abbrev pub shift : ℕ → ℤ → ℕ
shift at delta = at + pos_part delta - neg_part delta

abbrev pub shift_back : ℕ → ℤ → ℕ
shift_back at delta = at + neg_part delta - pos_part delta
