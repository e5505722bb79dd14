-- ===== src/Slack/Codes.antt =====
-- `from_api_code` and `disposition` of crates/slack/src/error.rs: which of Slack's codes end an op.
use alertthread.Base.{
  ℕ, String, ◌≡◌, sym, subst, ◌↔◌, inl, inr, Bool, true, false, ◌||◌, List, [], ◌∷◌, ◌++◌, refl, ap,
  ◌∙◌, any, arith, eq_iff, str_eq, Bool-cases,
}
use alertthread.Base.Table.{any-append}
use alertthread.Slack.{
  SlackMethod, terminal, one_of, auth_codes, channel_codes, request_codes, disposition,
  from_api_code,
}

-- The codes that no retry can change: of the token, of the channel and of the request.
abbrev final_codes : List String
final_codes =
    "invalid_auth" ∷ "not_authed" ∷ "account_inactive" ∷ "token_revoked" ∷ "token_expired"
    ∷ "no_permission" ∷ "missing_scope" ∷ "ekm_access_denied" ∷ "channel_not_found"
    ∷ "not_in_channel" ∷ "is_archived" ∷ "restricted_action" ∷ "restricted_action_read_only_channel"
    ∷ "restricted_action_thread_only_channel" ∷ "restricted_action_non_threadable_channel"
    ∷ "msg_too_long" ∷ "no_text" ∷ "too_many_attachments" ∷ "invalid_blocks"
    ∷ "invalid_blocks_format" ∷ "invalid_arguments" ∷ "invalid_arg_name" ∷ "cant_update_message"
    ∷ "edit_window_closed" ∷ "cant_broadcast_message" ∷ "as_user_not_supported"
    ∷ "invalid_form_data" ∷ "invalid_post_type" ∷ "missing_post_type" ∷ []

abbrev pub is_final : String → Bool
is_final code = any (λ c. str_eq code c) final_codes

one_of-any : (code : String) (cs : List String) → one_of code cs ≡ any (λ c. str_eq code c) cs
unfolding one_of
one_of-any code [] = refl
one_of-any code (c ∷ cs) = ground (arith, one_of-any code cs)

abbrev in_tables : String → Bool
in_tables code = one_of code auth_codes || (one_of code channel_codes || one_of code request_codes)

-- The tables of the code hold these codes and no others.
is_final-tables : (code : String) → in_tables code ≡ is_final code
is_final-tables code = sym (
    any-append (λ c. str_eq code c) auth_codes (channel_codes ++ request_codes)
    ∙ ap (λ b. any (λ c. str_eq code c) auth_codes || b)
        (any-append (λ c. str_eq code c) channel_codes request_codes)
    ∙ rw (one_of-any code auth_codes, one_of-any code channel_codes, one_of-any code request_codes)
        refl)

module _ (m : SlackMethod) (retry_after : ℕ) where
  abbrev Verdict : String → Type 0
  Verdict code =
      (disposition (from_api_code m code retry_after) ≡ terminal) ↔ (in_tables code ≡ true)

  waiting : Verdict "ratelimited" × Verdict "rate_limited" × Verdict "message_not_found"
  unfolding disposition from_api_code one_of
  waiting = ((λ h. cc, λ h. cc), (λ h. cc, λ h. cc), (λ h. cc, λ h. cc))

  not_rate_limited :
      (code : String)
      → str_eq code "ratelimited" ≡ false
      → str_eq code "rate_limited" ≡ false
      → one_of code ("ratelimited" ∷ "rate_limited" ∷ []) ≡ false
  unfolding one_of
  not_rate_limited code a b = ground arith

  other :
      (code : String)
      → str_eq code "ratelimited" ≡ false
      → str_eq code "rate_limited" ≡ false
      → str_eq code "message_not_found" ≡ false
      → Verdict code
  unfolding disposition from_api_code
  other code a b c = ground (arith, not_rate_limited code a b)

tables_iff : (m : SlackMethod) (code : String) (retry_after : ℕ) → Verdict m retry_after code
tables_iff m code retry_after = elim (Bool-cases (str_eq code "ratelimited")) [
  | inl a ↦
      subst (Verdict m retry_after) (sym ((eq_iff code "ratelimited").0 a))
        (waiting m retry_after).0
  | inr a ↦ elim (Bool-cases (str_eq code "rate_limited")) [
    | inl b ↦
        subst (Verdict m retry_after) (sym ((eq_iff code "rate_limited").0 b))
          (waiting m retry_after).1
    | inr b ↦ elim (Bool-cases (str_eq code "message_not_found")) [
      | inl c ↦
          subst (Verdict m retry_after) (sym ((eq_iff code "message_not_found").0 c))
            (waiting m retry_after).2
      | inr c ↦ other m retry_after code a b c
    ]
  ]
]

-- An error with one of Slack's codes is terminal exactly if the code is one of those about the token, the
-- channel or the request, which `final_codes` lists.
pub disposition-from_api_code-eq-terminal_iff :
    (m : SlackMethod) (code : String) (retry_after : ℕ)
    → (disposition (from_api_code m code retry_after) ≡ terminal) ↔ (is_final code ≡ true)
disposition-from_api_code-eq-terminal_iff m code retry_after =
    subst (λ b. (disposition (from_api_code m code retry_after) ≡ terminal) ↔ (b ≡ true))
      (is_final-tables code) (tables_iff m code retry_after)
