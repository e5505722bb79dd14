-- ===== src/Server/Config.antt =====
-- crates/app/src/config.rs: the settings, their defaults and their check. Figment's reading of a file and
-- of the environment is left out, and so is the reading of a token or a template from a file. A path and
-- an address are texts. `f64` is a parameter. Times are nanoseconds.
pub mod Started
pub mod Durations
use alertthread.Base.{ℕ, ◌*◌, ◌/◌, String, Bool, true, Option, none, some, str_eq, if◌then◌else◌}
use alertthread.Base.Int.{ℤ, pos}
use alertthread.Base.Text.{is_blank, trim}
use alertthread.Core.Ids.{ChannelId}
use alertthread.Core.Policy.{Policy, Validation, PolicyError, validate}
use alertthread.Store.Model.{RetentionPolicy}
use alertthread.Server.Auth.{
  WebhookToken, WebhookAuth, open_to_all, blank, required, is_blank_token,
}
use alertthread.Slack.Client.{default_base_url}
use alertthread.Worker.Drain.{WorkerConfig}

abbrev second : ℕ
second = 1_000_000_000

-- `Backend` of crates/store/src/dispatch.rs.
pub data Backend : Type 0 where
  sqlite : Backend
  postgres : Backend

unfoldable pub backend_as_str : Backend → String
backend_as_str sqlite = "sqlite"
backend_as_str postgres = "postgres"

unfoldable pub parse_backend : String → Option Backend
parse_backend raw =
    if str_eq raw "sqlite"
    then some sqlite
    else if str_eq raw "postgres"
    then some postgres
    else none

pub record ServerConfig : Type 0 where
  pub listen : String
  pub request_timeout : ℤ
  pub shutdown_grace : ℤ
  pub auth_token : Option WebhookToken
  pub auth_token_file : Option String

abbrev default_server : ServerConfig
default_server = record {
  listen = "0.0.0.0:8080";
  request_timeout = pos (15 * second);
  shutdown_grace = pos (20 * second);
  auth_token = none;
  auth_token_file = none;
}

pub record RetentionConfig : Type 0 where
  pub resolved : ℤ
  pub stale : ℤ
  pub interval : ℤ

-- 7 and 30 days, and an hour.
abbrev default_retention_config : RetentionConfig
default_retention_config = record {
  resolved = pos (604_800 * second);
  stale = pos (2_592_000 * second);
  interval = pos (3600 * second);
}

unfoldable pub retention_policy : RetentionConfig → RetentionPolicy
retention_policy c = record { resolved_after = c.resolved; stale_after = c.stale }

pub record StorageConfig : Type 0 where
  pub backend : String
  pub url : String
  pub retention : RetentionConfig

abbrev default_storage : StorageConfig
default_storage = record {
  backend = "sqlite";
  url = "sqlite:///var/lib/alertthread/state.sqlite";
  retention = default_retention_config;
}

pub record ResolveConfig : Type 0 where
  pub update_in_place : Bool
  pub thread_reply : Bool

abbrev default_resolve : ResolveConfig
default_resolve = record { update_in_place = true; thread_reply = true }

pub record CollapseConfig : Type 0 where
  pub threshold : ℕ
  pub refresh_debounce : ℤ

abbrev default_collapse : CollapseConfig
default_collapse = record { threshold = 5; refresh_debounce = pos (60 * second) }

abbrev pub default_worker : WorkerConfig
default_worker = record {
  batch_size = 64;
  lease = pos (60 * second);
  idle_poll = pos (second / 4);
  max_attempts = 10;
  backoff_base = pos (4 * second);
  backoff_max = pos (600 * second);
  sample_interval = pos (15 * second);
}

pub data ConfigError : Type 0 where
  figment : (error : String) → ConfigError
  unreadable_token : (path : String) → (source : String) → ConfigError
  unreadable_webhook_token : (path : String) → (source : String) → ConfigError
  unreadable_templates : (path : String) → (source : String) → ConfigError
  unknown_backend : (raw : String) → ConfigError
  policy_error : (error : PolicyError) → ConfigError
  no_token : ConfigError
  no_default_channel : ConfigError

pub data Verdict : Type 0 where
  valid : Verdict
  invalid : (error : ConfigError) → Verdict

module _ (F : Type 0) (one_f : F) where
  pub record SlackConfig : Type 0 where
    pub token : Option String
    pub token_file : Option String
    pub default_channel : Option String
    pub base_url : String
    pub timeout : ℤ
    pub rate_limit_divisor : F
    pub auth_probe_interval : ℤ
    pub auth_startup_grace : ℤ

  abbrev pub default_slack : SlackConfig
  default_slack = record {
    token = none;
    token_file = none;
    default_channel = none;
    base_url = default_base_url;
    timeout = pos (15 * second);
    rate_limit_divisor = one_f;
    auth_probe_interval = pos (900 * second);
    auth_startup_grace = pos (30 * second);
  }

  -- `templates` is the directory of the overrides, if there is one.
  pub record Config : Type 0 where
    pub server : ServerConfig
    pub storage : StorageConfig
    pub slack : SlackConfig
    pub resolve : ResolveConfig
    pub collapse : CollapseConfig
    pub worker : WorkerConfig
    pub templates : Option String

  abbrev pub default_config : Config
  default_config = record {
    server = default_server;
    storage = default_storage;
    slack = default_slack;
    resolve = default_resolve;
    collapse = default_collapse;
    worker = default_worker;
    templates = none;
  }

  unfoldable pub policy : Config → Policy
  policy c = record {
    collapse_threshold = c.collapse.threshold;
    refresh_debounce = c.collapse.refresh_debounce;
    resolve_update_in_place = c.resolve.update_in_place;
    resolve_thread_reply = c.resolve.thread_reply;
  }

  -- What is not there, or blank when trimmed.
  abbrev pub is_missing : Option String → Bool
  is_missing none = true
  is_missing (some s) = is_blank (trim s)

  unfoldable pub check_texts : Config → Verdict
  check_texts c =
      if is_missing c.slack.token
      then invalid no_token
      else if is_missing c.slack.default_channel
      then invalid no_default_channel
      else valid

  abbrev pub check_policy : Validation → Verdict → Verdict
  check_policy Validation.ok next = next
  check_policy (Validation.err e) next = invalid (policy_error e)

  abbrev pub check_backend : String → Option Backend → Verdict → Verdict
  check_backend raw none next = invalid (unknown_backend raw)
  check_backend raw (some b) next = next

  unfoldable pub check : Config → Verdict
  unfolding check_texts parse_backend policy validate
  check c =
      check_backend c.storage.backend (parse_backend c.storage.backend)
        (check_policy (validate (policy c)) (check_texts c))

  unfoldable pub default_channel_of : Config → Option ChannelId
  default_channel_of c = elim c.slack.default_channel [ none ↦ none | some name ↦ some (trim name) ]

  unfoldable pub webhook_auth : Config → WebhookAuth
  unfolding is_blank_token
  webhook_auth c = elim c.server.auth_token [
    | none ↦ open_to_all
    | some token ↦ if is_blank_token token then blank else required token
  ]
