-- ===== src/Server/Auth.antt =====
-- crates/app/src/auth.rs: the bearer token of the webhook. `to_str` of a header, which gives no text for
-- bytes that are not visible ASCII, has been applied.
use alertthread.Base.{
  ℕ, String, ◌≡◌, refl, sym, ap, ◌∙◌, false, ap₂, subst, ◌↔◌, inl, inr, Bool, true, not, Option,
  none, some, List, [], ◌∷◌, arith, ◌==◌, str_eq, if◌then◌else◌, Bool-cases, Option-cases, is_some,
  length,
}
use Prim.Native.Nat.{bit_or, bit_xor}
use Prim.Native.Char.{char, code}
use text.Mathlib.TextEquality.{Char-path}
use Prim.Native.String.{◌++◌ as str_append}
use text.Mathlib.TextLemmas.{nil-append, cons-append}
use alertthread.Base.Bits.{bit_or-zero, bit_xor_self, bit_or-eq-zero, bit_xor-eq-zero}
use alertthread.Base.Text.{trim, split_once, eq_ignore_ascii_case, as_bytes}

abbrev pub WebhookToken : Type 0
WebhookToken = String

-- The loop of `secrets_match`: a byte that was not presented counts as 0.
unfoldable pub differences : ℕ → List ℕ → List ℕ → ℕ
differences diff presented [] = diff
differences diff [] (e ∷ configured) = differences (bit_or diff (bit_xor 0 e)) [] configured
differences diff (x ∷ presented) (e ∷ configured) =
    differences (bit_or diff (bit_xor x e)) presented configured

unfoldable pub secrets_match : List ℕ → List ℕ → Bool
secrets_match presented configured =
    differences (if length presented == length configured then 0 else 1) presented configured == 0

unfoldable pub is_blank_token : WebhookToken → Bool
is_blank_token token = str_eq (trim token) ""

unfoldable pub matches : WebhookToken → String → Bool
matches token presented = secrets_match (as_bytes presented) (as_bytes token)

pub data WebhookAuth : Type 0 where
  open_to_all : WebhookAuth
  blank : WebhookAuth
  required : (token : WebhookToken) → WebhookAuth

unfoldable pub token_of : WebhookAuth → Option WebhookToken
token_of open_to_all = none
token_of blank = none
token_of (required t) = some t

unfoldable pub is_open : WebhookAuth → Bool
unfolding token_of
is_open auth = not (is_some (token_of auth))

pub data Denial : Type 0 where
  absent not_bearer mismatch : Denial

unfoldable pub denial_outcome : Denial → String
denial_outcome absent = "auth_missing"
denial_outcome not_bearer = "auth_missing"
denial_outcome mismatch = "auth_mismatch"

unfoldable pub denial_detail : Denial → String
denial_detail absent = "no Authorization header"
denial_detail not_bearer = "the Authorization header is not a Bearer credential"
denial_detail mismatch = "the Bearer credential is not server.auth_token"

-- The part behind the first space, if the part before it is the scheme.
unfoldable pub bearer : String → Option String
bearer value = elim (split_once 32 value) [
  | none ↦ none
  | some (scheme, credential) ↦
      if eq_ignore_ascii_case scheme "bearer" then some (trim credential) else none
]

pub data Access : Type 0 where
  allowed : Access
  denied : (denial : Denial) → Access

unfoldable pub authorize : Option String → WebhookToken → Access
authorize none expected = denied absent
authorize (some value) expected = elim (bearer value) [
  | none ↦ denied not_bearer
  | some presented ↦ if matches expected presented then allowed else denied mismatch
]

differences-zero :
    (diff : ℕ) (p c : List ℕ)
    → length p ≡ length c
    → differences diff p c ≡ 0
    → (diff ≡ 0) × (p ≡ c)
unfolding differences
differences-zero diff [] [] len e = (e, refl)
differences-zero diff (x ∷ p) [] len e = absurd (omega (arith, len))
differences-zero diff [] (y ∷ c) len e = absurd (omega (arith, len))
differences-zero diff (x ∷ p) (y ∷ c) len e =
    let (both, rest) = differences-zero (bit_or diff (bit_xor x y)) p c (omega (arith, len)) e in
    let (zero_diff, same) = bit_or-eq-zero diff (bit_xor x y) both in
    (zero_diff, ap₂ ◌∷◌ (bit_xor-eq-zero x y same) rest)

differences-same : (p : List ℕ) → differences 0 p p ≡ 0
unfolding differences
differences-same [] = refl
differences-same (x ∷ p) = rw (bit_xor_self x, bit_or-zero) (differences-same p)

-- Unequal lengths show in the first bit, which no later byte clears.
differences-stay : (p c : List ℕ) (diff : ℕ) → differences diff p c ≡ 0 → diff ≡ 0
unfolding differences
differences-stay p [] diff e = e
differences-stay [] (y ∷ c) diff e = (bit_or-eq-zero diff _ (differences-stay [] c _ e)).0
differences-stay (x ∷ p) (y ∷ c) diff e = (bit_or-eq-zero diff _ (differences-stay p c _ e)).0

-- The comparison that takes the same steps whatever byte differs is equality of the two secrets, byte for
-- byte, also for secrets of different lengths.
pub secrets_match_iff : (p c : List ℕ) → (secrets_match p c ≡ true) ↔ (p ≡ c)
unfolding secrets_match
secrets_match_iff p c = (
  λ e. elim (Bool-cases (length p == length c)) [
    | inl same ↦ (differences-zero 0 p c (ground arith) (ground arith)).1
    | inr other ↦ absurd (ground (arith, differences-stay p c 1))
  ],
  λ e. subst (λ q. secrets_match p q ≡ true) e (ground (arith, differences-same p)),
)

space-append : (s : String) → str_append " " s ≡ String.◌∷◌ (char 32 tt) s
space-append s = cons-append (char 32 tt) String.[] s ∙ ap (String.◌∷◌ (char 32 tt)) (nil-append s)

-- The two parts make up the text.
abbrev Splits : String → Option (String × String) → Type 0
Splits s none = Unit
Splits s (some p) = s ≡ str_append p.0 (str_append " " p.1)

split_once-Splits : (s : String) → Splits s (split_once 32 s)
unfolding split_once
split_once-Splits String.[] = tt
split_once-Splits (String.◌∷◌ c s) = elim (Bool-cases (code c == 32)) [
  | inl e ↦ rw e (
      ap (λ d. String.◌∷◌ d s) (Char-path c (char 32 tt) (ground arith))
      ∙ sym (space-append s)
      ∙ sym (nil-append (str_append " " s)))
  | inr e ↦ rw e (go (split_once 32 s) (split_once-Splits s))
]
  where
    go :
        (o : Option (String × String))
        → Splits s o
        → Splits (String.◌∷◌ c s) (elim o [ none ↦ none | some p ↦ some (String.◌∷◌ c p.0, p.1) ])
    go none h = tt
    go (some p) h = ap (String.◌∷◌ c) h ∙ sym (cons-append c p.0 (str_append " " p.1))

-- A scheme that matches a text with no space has none.
split_once-scheme :
    (s t r : String)
    → is_some (split_once 32 t) ≡ false
    → eq_ignore_ascii_case s t ≡ true
    → split_once 32 (str_append s (str_append " " r)) ≡ some (s, r)
unfolding split_once eq_ignore_ascii_case
split_once-scheme String.[] String.[] r h e =
    rw (nil-append (str_append " " r), space-append r) refl
split_once-scheme String.[] (String.◌∷◌ d t) r h e = cc
split_once-scheme (String.◌∷◌ c s) String.[] r h e = cc
split_once-scheme (String.◌∷◌ c s) (String.◌∷◌ d t) r h e =
    let other : (code c == 32) ≡ false = ground arith in
    let more : is_some (split_once 32 t) ≡ false = elim (Option-cases (split_once 32 t)) [
      | inl ends ↦ ap is_some ends
      | inr (p, goes_on) ↦ absurd (ground (arith, goes_on))
    ] in
    rw (cons-append c s (str_append " " r), other, split_once-scheme s t r more (ground arith)) refl

no_space : is_some (split_once 32 "bearer") ≡ false
unfolding split_once
no_space = refl

-- A delivery is let in exactly if it carries a header of the scheme Bearer, in whatever case, a space and a
-- credential that is the token byte for byte once trimmed.
pub authorize_iff :
    (header : Option String) (token : WebhookToken)
    → (authorize header token ≡ allowed) ↔ (
        (scheme credential : String) × (header
          ≡ some (str_append scheme (str_append " " credential)))
        × (eq_ignore_ascii_case scheme "bearer" ≡ true)
        × (as_bytes (trim credential) ≡ as_bytes token))
unfolding authorize matches bearer
authorize_iff none token = (λ e. cc, λ q. absurd (ground (arith, q.2)))
authorize_iff (some value) token = (
  λ e. elim (Option-cases (split_once 32 value)) [
    | inl whole ↦ absurd (ground (arith, whole))
    | inr (p, parts) ↦ elim (Bool-cases (eq_ignore_ascii_case p.0 "bearer")) [
      | inl same ↦ (
        p.0,
        p.1,
        ap some (subst (Splits value) parts (split_once-Splits value)),
        same,
        (secrets_match_iff (as_bytes (trim p.1)) (as_bytes token)).0 (ground (arith, parts, same)),
      )
      | inr other ↦ absurd (ground (arith, parts, other))
    ]
  ],
  λ q.
      let (scheme, credential, h, same, bytes) = q in
      let parts : split_once 32 value ≡ some (scheme, credential) =
        subst (λ o. (elim o [ none ↦ none | some v ↦ split_once 32 v ]) ≡ some (scheme, credential))
          (sym h) (split_once-scheme scheme "bearer" credential no_space same) in
      ground (
        arith,
        parts,
        same,
        (secrets_match_iff (as_bytes (trim credential)) (as_bytes token)).1 bytes,
      ),
)
