-- ===== src/Worker/Limits.antt =====
-- crates/app/src/ratelimit.rs: token buckets. `f64` and its operations are a parameter. The map of buckets
-- is a function from keys; its mutex lets one `acquire` run after the other. An instant is its nanoseconds.
pub mod Laws
pub mod Evicted
use alertthread.Base.{
  ℕ, ◌+◌, ◌-◌, ◌*◌, ◌/◌, ◌^◌, String, Bool, ◌&&◌, ◌||◌, Option, none, some, ltb, ◌==◌, str_eq,
  if◌then◌else◌,
}
use alertthread.Base.Int.{ℤ, pos, negsuc, ltb_ℤ, signed_duration_since}
use alertthread.Core.Ids.{ChannelId}
use alertthread.Worker.Delivery.{Permit, granted, not_before}

-- `micros` is `micros as f64 / 1e6`, and `to_micros` is `(seconds * 1e6).ceil().clamp(0.0, 9e15) as i64`.
pub record Floats : Type 1 where
  pub F : Type 0
  pub zero_f : F
  pub one_f : F
  pub fifty_f : F
  pub sixty_f : F
  pub largest : F
  pub epsilon : F
  pub add : F → F → F
  pub sub : F → F → F
  pub mul : F → F → F
  pub div : F → F → F
  pub min_f : F → F → F
  pub max_f : F → F → F
  pub lt_f : F → F → Bool
  pub le_f : F → F → Bool
  pub is_finite : F → Bool
  pub micros : ℤ → F
  pub to_micros : F → ℕ

-- 10 minutes
abbrev idle_eviction : ℤ
idle_eviction = pos 600_000_000_000

-- `num_microseconds`, truncated towards zero; none beyond an `i64`.
unfoldable pub num_microseconds : ℤ → Option ℤ
num_microseconds (pos n) = if ltb (n / 1000) (2 ^ 63) then some (pos (n / 1000)) else none
num_microseconds (negsuc n) =
    let micros = (n + 1) / 1000 in
    if ltb (2 ^ 63) micros then none else some (if micros == 0 then pos 0 else negsuc (micros - 1))

module _ (f : Floats) where
  pub record Bucket : Type 0 where
    pub tokens : f.F
    pub updated : ℕ

  pub record RateLimiter : Type 0 where
    pub rate : f.F
    pub burst : f.F
    pub buckets : String → Option Bucket

  abbrev pub post_per_second : f.F
  post_per_second = f.one_f

  abbrev pub update_per_minute : f.F
  update_per_minute = f.fifty_f

  unfoldable pub limiter : f.F → f.F → RateLimiter
  limiter rate burst = record {
    rate = if f.is_finite rate && f.lt_f f.zero_f rate then rate else post_per_second;
    burst = if f.is_finite burst && f.le_f f.one_f burst then burst else f.one_f;
    buckets = λ key. none;
  }

  unfoldable pub seconds_between : ℕ → ℕ → f.F
  unfolding num_microseconds
  seconds_between from to = elim (num_microseconds (signed_duration_since to from)) [
    | none ↦ f.largest
    | some m ↦ f.micros m
  ]

  unfoldable pub delta_from_seconds : f.F → ℕ
  delta_from_seconds seconds = f.to_micros seconds * 1000

  -- The tokens that a bucket would hold with no limit to them.
  unfoldable pub refilled : f.F → ℕ → Bucket → f.F
  unfolding seconds_between
  refilled rate now b =
      f.add b.tokens (f.mul (f.max_f (seconds_between b.updated now) f.zero_f) rate)

  unfoldable pub is_kept : f.F → f.F → ℕ → Bucket → Bool
  unfolding refilled
  is_kept rate burst now b =
      ltb_ℤ (signed_duration_since now b.updated) idle_eviction
      || f.lt_f (refilled rate now b) burst

  abbrev pub retain : (Bucket → Bool) → Option Bucket → Option Bucket
  retain keep none = none
  retain keep (some b) = if keep b then some b else none

  unfoldable pub evict_idle : ℕ → RateLimiter → RateLimiter
  unfolding is_kept
  evict_idle now l = record l {
    buckets = λ key. retain (is_kept l.rate l.burst now) (l.buckets key);
  }

  abbrev pub or_insert : Bucket → Option Bucket → Bucket
  or_insert fresh none = fresh
  or_insert fresh (some b) = b

  -- What is taken from so many tokens.
  unfoldable pub take_token : f.F → ℕ → f.F → Permit × f.F
  unfolding delta_from_seconds
  take_token rate now tokens =
      if f.le_f (f.sub f.one_f f.epsilon) tokens
      then (granted, f.max_f (f.sub tokens f.one_f) f.zero_f)
      else (not_before (now + delta_from_seconds (f.div (f.sub f.one_f tokens) rate)), tokens)

  -- `acquire` after the eviction.
  unfoldable pub take_from : String → ℕ → RateLimiter → Permit × RateLimiter
  unfolding refilled take_token
  take_from key now l =
      let b = or_insert (record { tokens = l.burst; updated = now }) (l.buckets key) in
      let taken = take_token l.rate now (f.min_f (refilled l.rate now b) l.burst) in
      (
        taken.0,
        record l {
          buckets = λ k.
              if str_eq k key
              then some (record { tokens = taken.1; updated = now })
              else l.buckets k;
        },
      )

  unfoldable pub acquire : String → ℕ → RateLimiter → Permit × RateLimiter
  unfolding evict_idle take_from
  acquire key now l = take_from key now (evict_idle now l)

  pub record SlackLimits : Type 0 where
    pub post : RateLimiter
    pub update : RateLimiter

  abbrev pub workspace : String
  workspace = ""

  unfoldable pub slack_limits : f.F → SlackLimits
  unfolding limiter
  slack_limits divisor =
      let d = if f.is_finite divisor && f.le_f f.one_f divisor then divisor else f.one_f in
      record {
        post = limiter (f.div post_per_second d) f.one_f;
        update = limiter (f.div (f.div update_per_minute f.sixty_f) d) update_per_minute;
      }

  unfoldable pub post : ChannelId → ℕ → SlackLimits → Permit × SlackLimits
  unfolding acquire
  post chan now l = let a = acquire chan now l.post in (a.0, record l { post = a.1 })

  unfoldable pub update : ℕ → SlackLimits → Permit × SlackLimits
  unfolding acquire
  update now l = let a = acquire workspace now l.update in (a.0, record l { update = a.1 })
