-- ===== src/Core/Policy.antt =====
-- crates/core/src/policy.rs: the settings that the planner reads, and their check.
use alertthread.Base.{ℕ, ◌≡◌, ◌↔◌, ◌⊎◌, Bool, true, not, ◌&&◌, arith, if◌then◌else◌}
use alertthread.Base.Int.{ℤ, pos, ltb_ℤ, leb_ℤ}

pub record Policy : Type 0 where
  pub collapse_threshold : ℕ
  pub refresh_debounce : ℤ
  pub resolve_update_in_place : Bool
  pub resolve_thread_reply : Bool

pub data PolicyError : Type 0 where
  resolve_does_nothing negative_refresh_debounce : PolicyError

pub data Validation : Type 0 where
  ok : Validation
  err : PolicyError → Validation

unfoldable pub validate : Policy → Validation
validate p =
    if not p.resolve_update_in_place && not p.resolve_thread_reply
    then err resolve_does_nothing
    else if ltb_ℤ p.refresh_debounce (pos 0)
    then err negative_refresh_debounce
    else ok

-- `Policy::default`, with 60 seconds in nanoseconds.
abbrev pub default : Policy
default = record {
  collapse_threshold = 5;
  refresh_debounce = pos 60_000_000_000;
  resolve_update_in_place = true;
  resolve_thread_reply = true;
}

-- A policy passes exactly if a resolve does something and the debounce is not negative.
pub validate_iff :
    (p : Policy)
    → (validate p ≡ ok) ↔ (
        ((p.resolve_update_in_place ≡ true) ⊎ (p.resolve_thread_reply ≡ true))
        × (leb_ℤ (pos 0) p.refresh_debounce ≡ true))
unfolding validate
validate_iff p = ground arith
