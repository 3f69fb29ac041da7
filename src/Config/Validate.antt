-- ===== src/Config/Validate.antt =====
-- `validate` of crates/router-core/src/config/validate.rs, with `validate_pricing` and
-- `validate_reliability`: the whole document, and the configuration that it makes when no error was found.
use Prim.Native.String.{String}
use rapidrouter.Prelude.{
  ℕ, suc, mul64, not, ◌&&◌, Option, none, some, List, [], ◌∷◌, ◌++◌, Map, map, is_empty, ◌==◌,
  str_eq, if◌then◌else◌,
}
use rapidrouter.Router.Table.{
  TargetModel, RoutingGroup, RetryOn, connect_error, status_429, status_5xx,
}
use rapidrouter.Router.Rebuild.{Provider, Config}
use rapidrouter.Vkey.Runtime.{VirtualKeyDef}
use rapidrouter.Config.Raw.{RawConfig, RawPrice}
use rapidrouter.Config.Checked.{
  field, nth, ConfigError, bad_number, not_positive, unknown_retry, Checked, ◌>>=◌, ◌>>◌, fail,
  pure, complain_if, validate_each,
}
use rapidrouter.Config.Secrets.{Sources}
use rapidrouter.Config.Numbers.{is_price}
use rapidrouter.Config.Aliases.{validate_aliases}
use rapidrouter.Config.Pools.{validate_fallbacks, validate_groups}
use rapidrouter.Config.Providers.{ProviderSettings, validate_providers}
use rapidrouter.Config.Tenants.{validate_tenants, validate_account_tenants}
use rapidrouter.Config.VirtualKeys.{validate_virtual_keys}
use rapidrouter.Config.Sections.{
  ServerConfig, ConsoleConfig, StoreConfig, UsageConfig, Price, Reliability, validate_server,
  validate_console, validate_store, validate_usage,
}

unfoldable pub check_price : String → RawPrice → Checked (Option Price)
unfolding is_price
check_price model p =
    if not (is_price p.input_per_mtok && is_price p.output_per_mtok)
    then fail (field "pricing" ∷ field model ∷ []) bad_number none
    else pure
        (some (record { input_per_mtok = p.input_per_mtok; output_per_mtok = p.output_per_mtok }))

unfoldable pub validate_pricing : RawConfig → Checked (Map Price)
unfolding check_price validate_each
validate_pricing raw = validate_each check_price [] raw.pricing

retry_of : ℕ → List RetryOn → String → Checked (List RetryOn)
retry_of i on s =
    if str_eq s "connect_error"
    then pure (on ++ (connect_error ∷ []))
    else if str_eq s "429"
    then pure (on ++ (status_429 ∷ []))
    else if str_eq s "5xx"
    then pure (on ++ (status_5xx ∷ []))
    else fail (field "reliability" ∷ field "retries" ∷ field "on" ∷ nth i ∷ []) (unknown_retry s) on

retries_onto : ℕ → List RetryOn → List String → Checked (List RetryOn)
unfolding retry_of
retries_onto i on [] = pure on
retries_onto i on (s ∷ rest) = do on' ← retry_of i on s; retries_onto (suc i) on' rest

-- The breaker counts in milliseconds.
unfoldable pub validate_reliability : RawConfig → Checked Reliability
unfolding retries_onto
validate_reliability raw = do
  let r = raw.reliability
  complain_if (r.breaker.failure_threshold == 0)
      (field "reliability" ∷ field "breaker" ∷ field "failure_threshold" ∷ []) not_positive
  on ← retries_onto 0 [] r.retries.on
  pure (record {
    breaker = record {
      failure_threshold = r.breaker.failure_threshold;
      window_ms = mul64 r.breaker.window_secs 1000;
      cooldown_ms = mul64 r.breaker.cooldown_secs 1000;
    };
    retries = record { max_attempts = r.retries.max_attempts; on = on };
  })

-- `Config`.
pub record Settings : Type 0 where
  pub server : ServerConfig
  pub providers : Map ProviderSettings
  pub aliases : Map TargetModel
  pub fallbacks : List (TargetModel × List TargetModel)
  pub groups : Map RoutingGroup
  pub reliability : Reliability
  pub tenants : List String
  pub virtual_keys : List VirtualKeyDef
  pub console : ConsoleConfig
  pub store : StoreConfig
  pub usage : UsageConfig
  pub pricing : Map Price

unfoldable pub provider_read : ProviderSettings → Provider
provider_read p = record { keys = map (λ k. k.key) p.keys }

unfoldable pub providers_read : Map ProviderSettings → Map Provider
unfolding provider_read
providers_read [] = []
providers_read ((name, p) ∷ rest) = (name, provider_read p) ∷ providers_read rest

-- What the routing table is built from.
unfoldable pub read_by_router : Settings → Config
unfolding providers_read
read_by_router c = record {
  providers = providers_read c.providers;
  aliases = c.aliases;
  fallbacks = c.fallbacks;
  groups = c.groups;
  breaker = c.reliability.breaker;
  retries = c.reliability.retries;
}

-- Every section in turn, whatever the sections before it reported.
unfoldable pub validate_sections : Sources → RawConfig → Checked Settings
unfolding validate_tenants validate_server validate_providers validate_aliases validate_fallbacks
    validate_groups validate_reliability validate_account_tenants validate_virtual_keys
    validate_console validate_store validate_usage validate_pricing
validate_sections s raw = do
  tenants ← validate_tenants raw
  server ← validate_server s raw tenants
  providers ← validate_providers s raw
  aliases ← validate_aliases raw providers
  fallbacks ← validate_fallbacks raw providers aliases
  groups ← validate_groups raw providers aliases
  reliability ← validate_reliability raw
  validate_account_tenants raw tenants
  vkeys ← validate_virtual_keys providers aliases groups tenants raw
  console ← validate_console s raw
  store ← validate_store raw
  usage ← validate_usage raw
  pricing ← validate_pricing raw
  pure (record {
    server = server;
    providers = providers;
    aliases = aliases;
    fallbacks = fallbacks;
    groups = groups;
    reliability = reliability;
    tenants = tenants;
    virtual_keys = vkeys;
    console = console;
    store = store;
    usage = usage;
    pricing = pricing;
  })

pub data Validated : Type 0 where
  rejected : List ConfigError → Validated
  accepted : Settings → Validated

unfoldable pub validate : Sources → RawConfig → Validated
unfolding validate_sections
validate s raw =
    let r = validate_sections s raw in if is_empty r.0 then accepted r.1 else rejected r.0
