-- ===== src/Slack/Client/Calls.antt =====
-- The answers of `call` of crates/slack/src/client.rs: when a call has succeeded, and how a failure is
-- to be handled.
use alertthread.Base.{
  ℕ, ◌≤◌, String, ◌≡◌, refl, subst, ◌↔◌, Bool, true, false, Option, some, arith, ◌==◌,
  if◌then◌else◌,
}
use alertthread.Slack.{
  SlackMethod, SlackError, Disposition, rate_limited, rate_limited_error, http_status, transport,
  malformed_response, disposition, method, from_api_code,
}
use alertthread.Slack.Client.Response.{
  Envelope, HttpResponse, Fetched, whole, broken, is_success, Sent, arrived, lost, Answer, accepted,
  refused, Parsed, parsed, unparsed, judged, code_of, read_decoded, read_fetched, read_body,
  read_response, call, nanos, retry_after_max, retry_after_of, parsed_retry_after, clamp,
}

clamp_bounds : (x low high : ℕ) → low ≤ high → (low ≤ clamp x low high) × (clamp x low high ≤ high)
clamp_bounds x low high h = ground arith

-- A Retry-After is at least one second and at most fifteen minutes, whatever the header says.
retry_after_of_bounds :
    (header : Option String)
    → (nanos ≤ retry_after_of header) × (retry_after_of header ≤ retry_after_max)
unfolding retry_after_of
retry_after_of_bounds header =
    clamp_bounds (parsed_retry_after header) nanos retry_after_max (omega arith)

abbrev pub Tolerable : Disposition → Type 0
Tolerable (rate_limited d) = (nanos ≤ d) × (d ≤ retry_after_max)
Tolerable _ = Unit {0}

-- The failure of a call: it is about its method, and it never asks to wait for too short or too long.
abbrev pub IsOf : SlackMethod → SlackError → Type 0
IsOf m e = (method e ≡ some m) × Tolerable (disposition e)

module _ (m : SlackMethod) where
  from_api_code-IsOf :
      (code : String) (d : ℕ) → Tolerable (rate_limited d) → IsOf m (from_api_code m code d)
  unfolding method disposition from_api_code
  from_api_code-IsOf code d h = ground arith

  http_status-IsOf : (status : ℕ) (body : String) → IsOf m (http_status m status body)
  unfolding method disposition
  http_status-IsOf status body = ground arith

  malformed_response-IsOf : (detail : String) → IsOf m (malformed_response m detail)
  unfolding method disposition
  malformed_response-IsOf detail = (refl, tt)

  transport-IsOf : (source : String) → IsOf m (transport m source)
  unfolding method disposition
  transport-IsOf source = (refl, tt)

  rate_limited_error-IsOf : (d : ℕ) → Tolerable (rate_limited d) → IsOf m (rate_limited_error m d)
  unfolding method disposition
  rate_limited_error-IsOf d h = (refl, h)

  module _ {R : Type 0} (decode : String → Parsed R) (envelope : R → Envelope) where
    -- What a success takes: a status of 2xx, a body that decodes, and Slack's own consent in it.
    abbrev pub Succeeds : Sent → R → Type 0
    Succeeds (lost source) value = ⊥
    Succeeds (arrived r) value =
        (is_success r.status ≡ true)
        × ((body : String) × (r.body ≡ whole body) × (decode body ≡ parsed value))
        × ((envelope value).is_ok ≡ true)

    decoded :
        (status d : ℕ) (body : String) (value : R)
        → read_body decode envelope m status d body ≡ accepted value
        → (is_success status ≡ true)
          × (decode body ≡ parsed value)
          × ((envelope value).is_ok ≡ true)
    unfolding read_body
    decoded status d body value h = ground arith

    -- A call succeeds exactly if the response arrived with a status of 2xx, its body was read and
    -- decoded to the value, and the envelope in it says that the call went well.
    pub call-eq-accepted_iff :
        (sent : Sent) (value : R)
        → (call decode envelope m sent ≡ accepted value) ↔ Succeeds sent value
    unfolding call
    call-eq-accepted_iff (lost source) value = ((λ h. cc), λ h. absurd h)
    call-eq-accepted_iff (arrived r) value = (go r.body refl, λ h. ground (arith, h.0, h.1.1, h.2))
      where
        go :
            (f : Fetched)
            → r.body ≡ f
            → call decode envelope m (arrived r) ≡ accepted value
            → Succeeds (arrived r) value
        go (whole body) e h =
            let found = decoded r.status (retry_after_of r.retry_after) body value (ground arith) in
            (found.0, (body, e, found.1), found.2)
        go (broken source) e h = absurd (ground arith)

    abbrev Fine : Answer R → Type 0
    Fine (accepted value) = Unit
    Fine (refused e) = IsOf m e

    Fine-if : (b : Bool) (x y : Answer R) → Fine x → Fine y → Fine (if b then x else y)
    Fine-if true x y hx hy = hx
    Fine-if false x y hx hy = hy

    judged-Fine :
        (d : ℕ) (value : R) → Tolerable (rate_limited d) → Fine (judged decode envelope m d value)
    unfolding judged
    judged-Fine d value h =
        Fine-if (envelope value).is_ok (accepted value)
          (refused (from_api_code m (code_of (envelope value).error) d)) tt
          (from_api_code-IsOf (code_of (envelope value).error) d h)

    read_body-Fine :
        (status d : ℕ) (body : String)
        → Tolerable (rate_limited d)
        → Fine (read_body decode envelope m status d body)
    unfolding read_body
    read_body-Fine status d body h =
        Fine-if (is_success status) (read_decoded decode envelope m d body)
          (refused (http_status m status body)) (go (decode body) refl)
          (http_status-IsOf status body)
      where
        go : (p : Parsed R) → decode body ≡ p → Fine (read_decoded decode envelope m d body)
        go (parsed value) e = rw (read_decoded, e) (judged-Fine d value h)
        go (unparsed detail) e = rw (read_decoded, e) (malformed_response-IsOf detail)

    read_response-Fine : (r : HttpResponse) → Fine (read_response decode envelope m r)
    unfolding read_response
    read_response-Fine r =
        Fine-if (r.status == 429) (refused (rate_limited_error m (retry_after_of r.retry_after)))
          (read_fetched decode envelope m r)
          (rate_limited_error-IsOf (retry_after_of r.retry_after)
            (retry_after_of_bounds r.retry_after))
          (go r.body refl)
      where
        go : (f : Fetched) → r.body ≡ f → Fine (read_fetched decode envelope m r)
        go (whole body) e =
            subst Fine
              {x = read_body decode envelope m r.status (retry_after_of r.retry_after) body}
              {y = read_fetched decode envelope m r} (ground arith)
              (read_body-Fine r.status (retry_after_of r.retry_after) body
                (retry_after_of_bounds r.retry_after))
        go (broken source) e =
            subst Fine {x = refused (transport m source)} {y = read_fetched decode envelope m r}
              (ground arith) (transport-IsOf source)

    call-Fine : (sent : Sent) → Fine (call decode envelope m sent)
    unfolding call
    call-Fine (lost source) = transport-IsOf source
    call-Fine (arrived r) = read_response-Fine r

    -- A failed call reports the method it was for, and a wait that it asks for is at least one second and
    -- at most fifteen minutes.
    pub call-refused :
        (sent : Sent) (e : SlackError) → call decode envelope m sent ≡ refused e → IsOf m e
    call-refused sent e h = subst Fine h (call-Fine sent)
