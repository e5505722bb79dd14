-- ===== src/Server/Config/Started.antt =====
-- What the check of the settings in crates/app/src/config.rs promises to the webhook of http.rs.
use alertthread.Base.{
  String, ◌≡◌, refl, inl, inr, false, Option, none, some, arith, str_eq, Bool-cases,
}
use alertthread.Base.Text.{is_blank, trim}
use alertthread.Core.Ids.{ChannelId}
use alertthread.Core.Policy.{Validation, validate}
use alertthread.Server.Config.{
  Config, Backend, valid, parse_backend, policy, is_missing, check_texts, check_policy,
  check_backend, check, default_channel_of,
}
use alertthread.Server.Webhook.{resolve_channel}

not_blank : (s : String) → str_eq s "" ≡ false → is_blank s ≡ false
not_blank String.[] h = absurd (ground arith)
not_blank (String.◌∷◌ c s) h = refl

module _ (F : Type 0) (one_f : F) where
  checked-texts : (c : Config F one_f) → check F one_f c ≡ valid → check_texts F one_f c ≡ valid
  unfolding check
  checked-texts c e = go (parse_backend c.storage.backend) (validate (policy F one_f c)) e
    where
      go :
          (b : Option Backend) (v : Validation)
          → check_backend F one_f c.storage.backend b
              (check_policy F one_f v (check_texts F one_f c))
            ≡ valid
          → check_texts F one_f c ≡ valid
      go none v h = cc
      go (some b) (Validation.err x) h = cc
      go (some b) Validation.ok h = h

  has_channel :
      (c : Config F one_f)
      → check_texts F one_f c ≡ valid
      → is_missing F one_f c.slack.default_channel ≡ false
  unfolding check_texts
  has_channel c e = ground arith

  resolved-default :
      (o : Option String)
      → is_missing F one_f o ≡ false
      → (chan : ChannelId) × ((elim o [ none ↦ none | some name ↦ some (trim name) ]) ≡ some chan)
        × (is_blank chan ≡ false)
  resolved-default none h = absurd (ground arith)
  resolved-default (some name) h = (trim name, refl, h)

  resolved :
      (query : Option String) (default : Option ChannelId) (chan : ChannelId)
      → default ≡ some chan
      → is_blank chan ≡ false
      → (found : ChannelId) × (resolve_channel query default ≡ some found)
        × (is_blank found ≡ false)
  unfolding resolve_channel
  resolved none default chan e h = (chan, e, h)
  resolved (some query) default chan e h = elim (Bool-cases (str_eq (trim query) "")) [
    | inl empty ↦ (chan, rw (resolve_channel, empty) e, h)
    | inr named ↦ (trim query, rw (resolve_channel, named) refl, not_blank (trim query) named)
  ]

  -- A relay that has started never lacks a channel: if its settings pass their check, then whatever the
  -- request asks for, some channel is resolved that is not the empty text.
  pub check-resolve_channel :
      (c : Config F one_f) (query : Option String)
      → check F one_f c ≡ valid
      → (chan : ChannelId) × (resolve_channel query (default_channel_of F one_f c) ≡ some chan)
        × (is_blank chan ≡ false)
  unfolding default_channel_of
  check-resolve_channel c query e =
      let (chan, has, filled) =
        resolved-default c.slack.default_channel (has_channel c (checked-texts c e)) in
      resolved query (default_channel_of F one_f c) chan has filled
