-- ===== src/Worker/Limits/Laws.antt =====
-- What crates/app/src/ratelimit.rs relies on of `f64`.
use alertthread.Base.{ℕ, ◌^◌, ◌≤◌, ◌<◌, ◌≡◌, true, false}
use alertthread.Base.Int.{pos}
use alertthread.Worker.Limits.{Floats}

-- What is used of `f64`. Each is a fact of IEEE 754 for all operands that meet its conditions, NaN, the
-- infinities and the negative zero among them: results at zero and at equal operands, and that the
-- operations keep the order and the sign.
pub record Laws (f : Floats) : Type 0 where
  pub one_pos : f.lt_f f.zero_f f.one_f ≡ true
  pub one_finite : f.is_finite f.one_f ≡ true
  pub one_le : f.le_f f.one_f f.one_f ≡ true
  pub one_le_pos : (x : f.F) → f.le_f f.one_f x ≡ true → f.le_f f.zero_f x ≡ true
  pub max_zero : f.max_f (f.micros (pos 0)) f.zero_f ≡ f.zero_f
  pub zero_mul :
      (x : f.F) → f.is_finite x ≡ true → f.lt_f f.zero_f x ≡ true → f.mul f.zero_f x ≡ f.zero_f
  pub add_zero : (x : f.F) → f.le_f f.one_f x ≡ true → f.add x f.zero_f ≡ x
  pub min_self : (x : f.F) → f.le_f f.one_f x ≡ true → f.min_f x x ≡ x
  pub min_right : (x y : f.F) → f.le_f f.one_f y ≡ true → f.lt_f x y ≡ false → f.min_f x y ≡ y
  pub largest_le : f.le_f f.largest f.largest ≡ true
  pub micros_le : (m n : ℕ) → m ≤ n → f.le_f (f.micros (pos m)) (f.micros (pos n)) ≡ true
  pub le_largest : (m : ℕ) → m < 2 ^ 63 → f.le_f (f.micros (pos m)) f.largest ≡ true
  pub max_le :
      (x y : f.F) → f.le_f x y ≡ true → f.le_f (f.max_f x f.zero_f) (f.max_f y f.zero_f) ≡ true
  pub max_pos : (x : f.F) → f.le_f f.zero_f (f.max_f x f.zero_f) ≡ true
  pub min_pos :
      (x y : f.F)
      → f.le_f f.zero_f x ≡ true
      → f.le_f f.zero_f y ≡ true
      → f.le_f f.zero_f (f.min_f x y) ≡ true
  pub mul_pos :
      (x z : f.F)
      → f.is_finite z ≡ true
      → f.lt_f f.zero_f z ≡ true
      → f.le_f f.zero_f x ≡ true
      → f.le_f f.zero_f (f.mul x z) ≡ true
  pub mul_le :
      (x y z : f.F)
      → f.is_finite z ≡ true
      → f.lt_f f.zero_f z ≡ true
      → f.le_f x y ≡ true
      → f.le_f (f.mul x z) (f.mul y z) ≡ true
  pub add_pos :
      (x z : f.F)
      → f.le_f f.zero_f z ≡ true
      → f.le_f f.zero_f x ≡ true
      → f.le_f f.zero_f (f.add z x) ≡ true
  pub add_le :
      (x y z : f.F)
      → f.le_f f.zero_f z ≡ true
      → f.le_f f.zero_f x ≡ true
      → f.le_f x y ≡ true
      → f.le_f (f.add z x) (f.add z y) ≡ true
  pub lt_le : (x y z : f.F) → f.lt_f x z ≡ false → f.le_f x y ≡ true → f.lt_f y z ≡ false
