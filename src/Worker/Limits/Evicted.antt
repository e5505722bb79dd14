-- ===== src/Worker/Limits/Evicted.antt =====
-- The eviction of idle buckets in crates/app/src/ratelimit.rs, against a limiter that forgets none.
use alertthread.Base.{
  ℕ, ◌-◌, ◌/◌, ◌^◌, ◌≤◌, String, ◌≡◌, refl, sym, ap, ap₂, subst, ◌∙◌, inl, inr, true, false, Option,
  none, some, List, [], ◌∷◌, arith, ltb, str_eq, if◌then◌else◌, ltb→lt, lt→ltb, Bool-cases,
}
use alertthread.Base.Int.{pos, signed_duration_since}
use alertthread.Worker.Delivery.{Permit}
use alertthread.Worker.Limits.Laws.{Laws}
use alertthread.Worker.Limits.{
  Floats, num_microseconds, limiter, Bucket, RateLimiter, seconds_between, refilled, is_kept,
  retain, evict_idle, or_insert, take_token, take_from, acquire,
}

-- The answers to a sequence of calls, each a key and an instant.
unfoldable pub permits :
    {f : Floats}
    → (String → ℕ → RateLimiter f → Permit × RateLimiter f)
    → RateLimiter f
    → List (String × ℕ)
    → List Permit
permits ask l [] = []
permits ask l ((key, now) ∷ rest) = (ask key now l).0 ∷ permits ask (ask key now l).1 rest

abbrev pub Ascending : ℕ → List (String × ℕ) → Type 0
Ascending t [] = Unit
Ascending t ((key, now) ∷ rest) = (t ≤ now) × Ascending now rest

since : (from to : ℕ) → from ≤ to → signed_duration_since to from ≡ pos (to - from)
since from to h = ground arith

module _ (f : Floats) (laws : Laws f) where
  micros-le :
      (m n : ℕ)
      → m ≤ n
      → f.le_f
          (elim (num_microseconds (pos m)) [ none ↦ f.largest | some k ↦ f.micros k ])
          (elim (num_microseconds (pos n)) [ none ↦ f.largest | some k ↦ f.micros k ])
        ≡ true
  unfolding num_microseconds
  micros-le m n h = elim (Bool-cases (ltb (n / 1000) (2 ^ 63))) [
    | inl e ↦
        rw (e, lt→ltb (m / 1000) (2 ^ 63) (omega (arith, h, ltb→lt (n / 1000) (2 ^ 63) e)))
          (laws.micros_le (m / 1000) (n / 1000) (omega arith))
    | inr e ↦ elim (Bool-cases (ltb (m / 1000) (2 ^ 63))) [
      | inl d ↦ rw (d, e) (laws.le_largest (m / 1000) (ltb→lt (m / 1000) (2 ^ 63) d))
      | inr d ↦ rw (d, e) (laws.largest_le)
    ]
  ]

  seconds-le :
      (from t t' : ℕ)
      → from ≤ t
      → t ≤ t'
      → f.le_f (seconds_between f from t) (seconds_between f from t') ≡ true
  unfolding seconds_between
  seconds-le from t t' h k =
      rw (seconds_between, since from t h, since from t' (omega arith))
        (micros-le (t - from) (t' - from) (omega arith))

  zero_span :
      (now : ℕ)
      → (elim (num_microseconds (pos (now - now))) [ none ↦ f.largest | some m ↦ f.micros m ])
        ≡ f.micros (pos 0)
  unfolding num_microseconds
  zero_span now = let e : now - now ≡ 0 = omega arith in rw e refl

  no_time : (now : ℕ) → seconds_between f now now ≡ f.micros (pos 0)
  unfolding seconds_between
  no_time now = rw (seconds_between, since now now (omega arith)) (zero_span now)

  -- What the limiter has made sure of its rate and its burst.
  module _ (rate burst : f.F) (positive : f.lt_f f.zero_f rate ≡ true)
      (finite : f.is_finite rate ≡ true) (large : f.le_f f.one_f burst ≡ true) where
    abbrev NonNegative : f.F → Type 0
    NonNegative x = f.le_f f.zero_f x ≡ true

    gained-NonNegative : (x : f.F) → NonNegative (f.mul (f.max_f x f.zero_f) rate)
    gained-NonNegative x = laws.mul_pos _ rate finite positive (laws.max_pos x)

    -- A bucket that is full without a limit to it stays so.
    abbrev IsFull : ℕ → Bucket f → Type 0
    IsFull now b = f.lt_f (refilled f rate now b) burst ≡ false

    IsFull-stays :
        (b : Bucket f) (t t' : ℕ)
        → NonNegative b.tokens
        → b.updated ≤ t
        → t ≤ t'
        → IsFull t b
        → IsFull t' b
    unfolding refilled
    IsFull-stays b t t' pos_tokens h k e =
        laws.lt_le (refilled f rate t b) (refilled f rate t' b) burst e (
          laws.add_le _ _ b.tokens pos_tokens (gained-NonNegative _) (
            laws.mul_le _ _ rate finite positive (laws.max_le _ _ (seconds-le b.updated t t' h k))))

    -- What a limiter that evicts and one that does not know of a key: the first may have forgotten a bucket
    -- that would be full.
    abbrev Same : ℕ → Option (Bucket f) → Option (Bucket f) → Type 0
    Same now none none = Unit
    Same now none (some b) = (b.updated ≤ now) × NonNegative b.tokens × IsFull now b
    Same now (some a) none = ⊥
    Same now (some a) (some b) = (b.updated ≤ now) × NonNegative b.tokens × (a ≡ b)

    Same-later : (t t' : ℕ) (o p : Option (Bucket f)) → t ≤ t' → Same t o p → Same t' o p
    Same-later t t' none none h s = tt
    Same-later t t' none (some b) h s =
        (omega (arith, h, s.0), s.1, IsFull-stays b t t' s.1 s.0 h s.2)
    Same-later t t' (some a) none h s = s
    Same-later t t' (some a) (some b) h s = (omega (arith, h, s.0), s.1, s.2)

    dropped : (now : ℕ) (a : Bucket f) → is_kept f rate burst now a ≡ false → IsFull now a
    unfolding is_kept
    dropped now a e = ground arith

    Same-retain :
        (now : ℕ) (o p : Option (Bucket f))
        → Same now o p
        → Same now (retain f (is_kept f rate burst now) o) p
    Same-retain now none p s = s
    Same-retain now (some a) none s = absurd s
    Same-retain now (some a) (some b) s = elim (Bool-cases (is_kept f rate burst now a)) [
      | inl e ↦ rw e s
      | inr e ↦ rw e (s.0, s.1, subst (IsFull now) s.2 (dropped now a e))
    ]

    abbrev fresh : ℕ → Bucket f
    fresh now = record { tokens = burst; updated = now }

    abbrev limited : ℕ → Bucket f → f.F
    limited now b = f.min_f (refilled f rate now b) burst

    fresh-limited : (now : ℕ) → limited now (fresh now) ≡ burst
    unfolding refilled
    fresh-limited now =
        ap (λ x. f.min_f (f.add burst (f.mul (f.max_f x f.zero_f) rate)) burst) (no_time now)
        ∙ ap (λ x. f.min_f (f.add burst (f.mul x rate)) burst) laws.max_zero
        ∙ ap (λ x. f.min_f (f.add burst x) burst) (laws.zero_mul rate finite positive)
        ∙ ap (λ x. f.min_f x burst) (laws.add_zero burst large)
        ∙ laws.min_self burst large

    Same-limited :
        (now : ℕ) (o p : Option (Bucket f))
        → Same now o p
        → limited now (or_insert f (fresh now) o) ≡ limited now (or_insert f (fresh now) p)
    Same-limited now none none s = refl
    Same-limited now none (some b) s =
        fresh-limited now ∙ sym (laws.min_right (refilled f rate now b) burst large s.2)
    Same-limited now (some a) none s = absurd s
    Same-limited now (some a) (some b) s = ap (limited now) s.2

    abbrev with_buckets : (String → Option (Bucket f)) → RateLimiter f
    with_buckets buckets = record { rate = rate; burst = burst; buckets = buckets }

    -- The buckets after a call, which has left so many tokens.
    abbrev stored : String → ℕ → f.F → (String → Option (Bucket f)) → String → Option (Bucket f)
    stored key now tokens buckets k =
        if str_eq k key then some (record { tokens = tokens; updated = now }) else buckets k

    abbrev left : String → ℕ → (String → Option (Bucket f)) → f.F
    left key now buckets =
        (take_token f rate now (limited now (or_insert f (fresh now) (buckets key)))).1

    take_from-buckets :
        (key : String) (now : ℕ) (buckets : String → Option (Bucket f))
        → (take_from f key now (with_buckets buckets)).1
          ≡ with_buckets (stored key now (left key now buckets) buckets)
    unfolding take_from
    take_from-buckets key now buckets = refl

    take_from-permit :
        (key : String) (now : ℕ) (buckets : String → Option (Bucket f))
        → (take_from f key now (with_buckets buckets)).0
          ≡ (take_token f rate now (limited now (or_insert f (fresh now) (buckets key)))).0
    unfolding take_from
    take_from-permit key now buckets = refl

    known-NonNegative :
        (now : ℕ) (o p : Option (Bucket f))
        → Same now o p
        → NonNegative (or_insert f (fresh now) p).tokens
    known-NonNegative now none none s = laws.one_le_pos burst large
    known-NonNegative now none (some b) s = s.1
    known-NonNegative now (some a) none s = absurd s
    known-NonNegative now (some a) (some b) s = s.1

    taken-NonNegative :
        (now : ℕ) (tokens : f.F) → NonNegative tokens → NonNegative (take_token f rate now tokens).1
    unfolding take_token
    taken-NonNegative now tokens h = elim (Bool-cases (f.le_f (f.sub f.one_f f.epsilon) tokens)) [
      | inl e ↦ rw e (laws.max_pos (f.sub tokens f.one_f))
      | inr e ↦ rw e h
    ]

    left-NonNegative :
        (key : String) (now : ℕ) (buckets : String → Option (Bucket f))
        → NonNegative (or_insert f (fresh now) (buckets key)).tokens
        → NonNegative (left key now buckets)
    unfolding refilled
    left-NonNegative key now buckets h = taken-NonNegative now _ (
        laws.min_pos _ burst (laws.add_pos _ _ h (gained-NonNegative _))
          (laws.one_le_pos burst large))

    Same-stored :
        (key : String) (now : ℕ) (x y : f.F) (o p : String → Option (Bucket f)) (k : String)
        → x ≡ y
        → NonNegative y
        → Same now (o k) (p k)
        → Same now (stored key now x o k) (stored key now y p k)
    Same-stored key now x y o p k e n s = elim (Bool-cases (str_eq k key)) [
      | inl hit ↦ rw hit (omega arith, n, ap (λ t. record { tokens = t; updated = now }) e)
      | inr miss ↦ rw miss s
    ]

    permits-Same :
        (calls : List (String × ℕ)) (t : ℕ) (o p : String → Option (Bucket f))
        → Ascending t calls
        → ((k : String) → Same t (o k) (p k))
        → permits (acquire f) (with_buckets o) calls ≡ permits (take_from f) (with_buckets p) calls
    unfolding permits acquire evict_idle
    permits-Same [] t o p a s = refl
    permits-Same ((key, now) ∷ rest) t o p a s =
        let o' : String → Option (Bucket f) = λ k. retain f (is_kept f rate burst now) (o k) in
        let s' : (k : String) → Same now (o' k) (p k) =
          λ k. Same-retain now (o k) (p k) (Same-later t now (o k) (p k) a.0 (s k)) in
        let e = Same-limited now (o' key) (p key) (s' key) in
        ap₂ ◌∷◌
          (take_from-permit key now o'
            ∙ ap (λ x. (take_token f rate now x).0) e
            ∙ sym (take_from-permit key now p))
          (ap (λ l. permits (acquire f) l rest) (take_from-buckets key now o')
            ∙ permits-Same rest now (stored key now (left key now o') o')
                (stored key now (left key now p) p) a.1
                (λ k.
                  Same-stored key now (left key now o') (left key now p) o' p k
                    (ap (λ x. (take_token f rate now x).1) e)
                    (left-NonNegative key now p (known-NonNegative now (o' key) (p key) (s' key)))
                    (s' k))
            ∙ sym (ap (λ l. permits (take_from f) l rest) (take_from-buckets key now p)))

  rate-positive : (rate burst : f.F) → f.lt_f f.zero_f (limiter f rate burst).rate ≡ true
  unfolding limiter
  rate-positive rate burst = ground (arith, laws.one_pos)

  rate-finite : (rate burst : f.F) → f.is_finite (limiter f rate burst).rate ≡ true
  unfolding limiter
  rate-finite rate burst = ground (arith, laws.one_finite)

  burst-large : (rate burst : f.F) → f.le_f f.one_f (limiter f rate burst).burst ≡ true
  unfolding limiter
  burst-large rate burst = ground (arith, laws.one_le)

  -- Forgetting a bucket that is idle changes no answer: to calls at instants that do not go back, a limiter
  -- that evicts gives the permits of one that keeps every bucket, in any arithmetic that obeys `Laws`.
  pub permits-acquire :
      (rate burst : f.F) (calls : List (String × ℕ))
      → Ascending 0 calls
      → permits (acquire f) (limiter f rate burst) calls
        ≡ permits (take_from f) (limiter f rate burst) calls
  unfolding limiter
  permits-acquire rate burst calls a =
      permits-Same (limiter f rate burst).rate (limiter f rate burst).burst
        (rate-positive rate burst) (rate-finite rate burst) (burst-large rate burst) calls 0
        (λ k. none) (λ k. none) a (λ k. tt)
