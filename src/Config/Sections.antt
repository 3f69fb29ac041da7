-- ===== src/Config/Sections.antt =====
-- `validate_server`, `validate_console`, `validate_store`, `validate_usage`, `validate_pricing` and
-- `validate_reliability` of crates/router-core/src/config/validate.rs, with the settings they make of
-- crates/router-core/src/config/mod.rs. Durations are in seconds.
use Prim.Native.String.{String}
use rapidrouter.Prelude.{
  ℕ, suc, Bool, true, not, ◌||◌, Option, none, some, List, [], ◌∷◌, ◌++◌, no_text, leb, ltb, ◌==◌,
  str_eq, if◌then◌else◌, mul64,
}
use rapidrouter.Breaker.{BreakerConfig}
use rapidrouter.Router.Table.{Retries}
use rapidrouter.Config.Raw.{RawAuthKey, auth_value, auth_tenant, RawStore, RawConfig}
use rapidrouter.Config.Checked.{
  Part, field, nth, out_of_range, not_positive, bad_choice, required, unknown_backend,
  window_too_short, Checked, ◌>>=◌, ◌>>◌, fail, pure, complain_if,
}
use rapidrouter.Config.Secrets.{Sources, Secret, refused, secret, resolve_secret}
use rapidrouter.Config.Numbers.{is_within}
use rapidrouter.Config.Tenants.{check_tenant}

pub record StaticKey : Type 0 where
  pub secret : String
  pub tenant : Option String

pub record ServerConfig : Type 0 where
  pub host : String
  pub port : ℕ
  pub max_body_size : ℕ
  pub auth_keys : List StaticKey
  pub require_auth : Bool
  pub drain_timeout : ℕ

pub record ConsoleConfig : Type 0 where
  pub admin_keys : List String
  pub session_ttl : ℕ

pub record StoreConfig : Type 0 where
  pub backend : String
  pub bucket : Option String
  pub prefix : Option String
  pub table : Option String
  pub region : Option String
  pub endpoint : Option String
  pub refresh_interval_secs : ℕ
  pub heartbeat_interval_secs : ℕ
  pub liveness_window_secs : ℕ

pub data BodyCapture : Type 0 where
  off errors all : BodyCapture

pub record UsageConfig : Type 0 where
  pub retention_days : ℕ
  pub flush_interval : ℕ
  pub per_key_metrics : Bool
  pub capture_bodies : BodyCapture
  pub body_limit_bytes : ℕ
  pub body_retention_days : ℕ

pub record Price : Type 0 where
  pub input_per_mtok : ℕ
  pub output_per_mtok : ℕ

pub record Reliability : Type 0 where
  pub breaker : BreakerConfig
  pub retries : Retries

add_auth_key : List Part → List StaticKey → Option String → Secret → Checked (List StaticKey)
add_auth_key place keys tenant (refused why) = fail place why keys
add_auth_key place keys tenant (secret v) =
    pure (keys ++ (record { secret = v; tenant = tenant } ∷ []))

auth_keys_onto :
    Sources → List String → ℕ → List StaticKey → List RawAuthKey → Checked (List StaticKey)
unfolding check_tenant add_auth_key resolve_secret
auth_keys_onto s tenants i keys [] = pure keys
auth_keys_onto s tenants i keys (entry ∷ rest) = do
  let place = field "server" ∷ field "auth_keys" ∷ nth i ∷ []
  check_tenant tenants place (auth_tenant entry)
  keys' ← add_auth_key place keys (auth_tenant entry) (resolve_secret s (auth_value entry))
  auth_keys_onto s tenants (suc i) keys' rest

unfoldable pub validate_server : Sources → RawConfig → List String → Checked ServerConfig
unfolding auth_keys_onto
validate_server s raw tenants = do
  let server = raw.server
  complain_if (server.max_body_size_mb == 0 || ltb 1024 server.max_body_size_mb)
      (field "server" ∷ field "max_body_size_mb" ∷ []) out_of_range
  keys ← auth_keys_onto s tenants 0 [] server.auth_keys
  pure (record {
    host = server.host;
    port = server.port;
    max_body_size = mul64 server.max_body_size_mb 1048576;
    auth_keys = keys;
    require_auth = server.require_auth;
    drain_timeout = server.drain_timeout_secs;
  })

add_admin_key : ℕ → List String → Secret → Checked (List String)
add_admin_key i keys (refused why) =
    fail (field "console" ∷ field "admin_keys" ∷ nth i ∷ []) why keys
add_admin_key i keys (secret v) = pure (keys ++ (v ∷ []))

admin_keys_onto : Sources → ℕ → List String → List String → Checked (List String)
unfolding add_admin_key resolve_secret
admin_keys_onto s i keys [] = pure keys
admin_keys_onto s i keys (value ∷ rest) = do
  keys' ← add_admin_key i keys (resolve_secret s value)
  admin_keys_onto s (suc i) keys' rest

unfoldable pub validate_console : Sources → RawConfig → Checked ConsoleConfig
unfolding admin_keys_onto is_within
validate_console s raw = do
  keys ← admin_keys_onto s 0 [] raw.console.admin_keys
  complain_if (not (is_within 60 604800 raw.console.session_ttl_secs))
      (field "console" ∷ field "session_ttl_secs" ∷ []) out_of_range
  pure (record { admin_keys = keys; session_ttl = raw.console.session_ttl_secs })

-- `as_deref().unwrap_or("").is_empty()`.
abbrev is_missing : Option String → Bool
is_missing none = true
is_missing (some s) = no_text s

check_backend : RawStore → Checked (Unit {0})
check_backend s =
    if str_eq s.backend "file"
    then pure tt
    else if str_eq s.backend "memory"
    then pure tt
    else if str_eq s.backend "s3"
    then complain_if (is_missing s.bucket) (field "store" ∷ field "bucket" ∷ []) required
    else if str_eq s.backend "dynamodb"
    then complain_if (is_missing s.table) (field "store" ∷ field "table" ∷ []) required
    else fail (field "store" ∷ field "backend" ∷ []) (unknown_backend s.backend) tt

unfoldable pub validate_store : RawConfig → Checked StoreConfig
unfolding check_backend
validate_store raw = do
  let s = raw.store
  check_backend s
  complain_if (leb s.liveness_window_secs s.heartbeat_interval_secs)
      (field "store" ∷ field "liveness_window_secs" ∷ []) window_too_short
  complain_if (s.refresh_interval_secs == 0 || s.heartbeat_interval_secs == 0)
      (field "store" ∷ field "refresh_interval_secs" ∷ []) not_positive
  pure (record {
    backend = s.backend;
    bucket = s.bucket;
    prefix = s.prefix;
    table = s.table;
    region = s.region;
    endpoint = s.endpoint;
    refresh_interval_secs = s.refresh_interval_secs;
    heartbeat_interval_secs = s.heartbeat_interval_secs;
    liveness_window_secs = s.liveness_window_secs;
  })

-- `BodyCapture::parse`.
unfoldable pub parse_capture : String → Option BodyCapture
parse_capture s =
    if str_eq s "off" || str_eq s "none" || str_eq s "false"
    then some off
    else if str_eq s "errors"
    then some errors
    else if str_eq s "all" || str_eq s "true"
    then some all
    else none

capture_of : Option BodyCapture → Checked BodyCapture
capture_of (some c) = pure c
capture_of none = fail (field "usage" ∷ field "capture_bodies" ∷ []) bad_choice off

unfoldable pub validate_usage : RawConfig → Checked UsageConfig
unfolding capture_of parse_capture is_within
validate_usage raw = do
  let u = raw.usage
  complain_if (not (is_within 1 3650 u.retention_days))
      (field "usage" ∷ field "retention_days" ∷ []) out_of_range
  complain_if (not (is_within 1 300 u.flush_interval_secs))
      (field "usage" ∷ field "flush_interval_secs" ∷ []) out_of_range
  capture ← capture_of (parse_capture u.capture_bodies)
  complain_if (ltb 4194304 u.body_limit_bytes) (field "usage" ∷ field "body_limit_bytes" ∷ [])
      out_of_range
  complain_if (not (is_within 1 3650 u.body_retention_days))
      (field "usage" ∷ field "body_retention_days" ∷ []) out_of_range
  pure (record {
    retention_days = u.retention_days;
    flush_interval = u.flush_interval_secs;
    per_key_metrics = u.per_key_metrics;
    capture_bodies = capture;
    body_limit_bytes = u.body_limit_bytes;
    body_retention_days = u.body_retention_days;
  })
