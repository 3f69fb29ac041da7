-- ===== src/Config/Raw.antt =====
-- crates/router-core/src/config/raw.rs: the document as written, before it is validated. A float is its
-- bit pattern. A section that maps names to entries is listed by name.
use Prim.Native.String.{String}
use rapidrouter.Prelude.{ℕ, Bool, Option, none, List, Map}

pub data RawAuthKey : Type 0 where
  bare : String → RawAuthKey
  with_tenant : String → Option String → RawAuthKey

abbrev pub auth_value : RawAuthKey → String
auth_value (bare value) = value
auth_value (with_tenant key tenant) = key

abbrev pub auth_tenant : RawAuthKey → Option String
auth_tenant (bare value) = none
auth_tenant (with_tenant key tenant) = tenant

pub record RawServer : Type 0 where
  pub host : String
  pub port : ℕ
  pub max_body_size_mb : ℕ
  pub auth_keys : List RawAuthKey
  pub require_auth : Bool
  pub drain_timeout_secs : ℕ

pub record RawGroupTarget : Type 0 where
  pub target : String
  pub weight : ℕ

pub record RawGroup : Type 0 where
  pub primary : List RawGroupTarget
  pub fallback : List RawGroupTarget

pub record RawBudget : Type 0 where
  pub usd : ℕ
  pub period : String

pub record RawRateLimit : Type 0 where
  pub rpm : Option ℕ
  pub tpm : Option ℕ

pub record RawVirtualKey : Type 0 where
  pub name : String
  pub id : String
  pub secret_hash : String
  pub models : List String
  pub tenant : Option String
  pub budget : Option RawBudget
  pub rate_limit : Option RawRateLimit
  pub expires : Option String
  pub tags : Map String
  pub enabled : Bool

pub record RawConsole : Type 0 where
  pub admin_keys : List String
  pub session_ttl_secs : ℕ

pub record RawStore : Type 0 where
  pub backend : String
  pub bucket : Option String
  pub prefix : Option String
  pub table : Option String
  pub region : Option String
  pub endpoint : Option String
  pub refresh_interval_secs : ℕ
  pub heartbeat_interval_secs : ℕ
  pub liveness_window_secs : ℕ

pub record RawUsage : Type 0 where
  pub retention_days : ℕ
  pub flush_interval_secs : ℕ
  pub per_key_metrics : Bool
  pub capture_bodies : String
  pub body_limit_bytes : ℕ
  pub body_retention_days : ℕ

pub record RawPrice : Type 0 where
  pub input_per_mtok : ℕ
  pub output_per_mtok : ℕ

pub record RawKeyLimits : Type 0 where
  pub rpm : Option ℕ
  pub tpm : Option ℕ
  pub max_concurrency : Option ℕ

pub record RawCodex : Type 0 where
  pub version : Option String
  pub reasoning_effort : Option String
  pub verbosity : Option String
  pub pdf_dpi : Option ℕ
  pub pdf_max_pages : Option ℕ

pub record RawKey : Type 0 where
  pub name : String
  pub value : String
  pub weight : ℕ
  pub models : Option (List String)
  pub tenant : Option String
  pub rpm : Option ℕ
  pub tpm : Option ℕ
  pub max_concurrency : Option ℕ

-- `type` is the field `type_name`.
pub record RawProvider : Type 0 where
  pub type_name : Option String
  pub base_url : Option String
  pub auth : Option String
  pub keys : List RawKey
  pub max_concurrency : ℕ
  pub timeout_secs : ℕ
  pub endpoint : Option String
  pub api_version : Option String
  pub deployments : Map String
  pub region : Option String
  pub access_key_id : Option String
  pub project : Option String
  pub location : Option String
  pub codex : Option RawCodex
  pub key_limits : Option RawKeyLimits

pub record RawBreaker : Type 0 where
  pub failure_threshold : ℕ
  pub window_secs : ℕ
  pub cooldown_secs : ℕ

pub record RawRetries : Type 0 where
  pub max_attempts : ℕ
  pub on : List String

pub record RawReliability : Type 0 where
  pub breaker : RawBreaker
  pub retries : RawRetries

pub record RawConfig : Type 0 where
  pub server : RawServer
  pub providers : Map RawProvider
  pub aliases : Map String
  pub fallbacks : Map (List String)
  pub groups : Map RawGroup
  pub reliability : RawReliability
  pub tenants : List String
  pub virtual_keys : List RawVirtualKey
  pub console : RawConsole
  pub store : RawStore
  pub usage : RawUsage
  pub pricing : Map RawPrice
