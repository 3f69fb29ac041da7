-- ===== src/Config/Examples.antt =====
-- A document that crates/router-core/src/config/validate.rs accepts, one that it does not, and the
-- theorems at them.
use Prim.Native.String.{String}
use rapidrouter.Prelude.{
  ℕ, ◌≡◌, refl, true, false, Option, none, some, [], ◌∷◌, get, strip_prefix, split_once, insert,
  codes, ltb, leb, ◌==◌, ◌+◌, ◌-◌, ◌*◌, All, Pairs,
}
use rapidrouter.Router.Floats.{FloatOps}
use rapidrouter.Router.Table.{parse_target, plan}
use rapidrouter.Router.Rebuild.{from_config_with}
use rapidrouter.Router.Sound.{IsPlanned}
use rapidrouter.Vkey.Expiry.{parse_rfc3339_utc_ms}
use rapidrouter.Config.Raw.{bare, with_tenant, RawVirtualKey, RawKey, RawProvider, RawConfig}
use rapidrouter.Config.Checked.{Matches}
use rapidrouter.Config.Secrets.{Sources, trim}
use rapidrouter.Config.Aliases.{resolve_alias, has_name, cycle}
use rapidrouter.Config.Numbers.{is_positive}
use rapidrouter.Config.Cycles.{Ends, resolve_alias-Ends}
use rapidrouter.Config.AliasNames.{Resolved, validate_aliases-Matches, validate_aliases-known}
use rapidrouter.Config.Pools.{validate_groups}
use rapidrouter.Config.Groups.{HasKnownAliases, WrittenGroup, validate_groups-Matches}
use rapidrouter.Config.Providers.{validate_providers}
use rapidrouter.Config.ProviderRules.{WrittenProvider, validate_providers-Matches}
use rapidrouter.Config.Accepted.{IsDocument, IsClean, providers_of, aliases_of, validate-accepted}
use rapidrouter.Config.Planned.{validate-plan}
use rapidrouter.Config.VirtualKeyRules.{WrittenVkey, HasDistinctIds}
use rapidrouter.Config.Services.{AreDeclared, validate-services}
use rapidrouter.Config.Validate.{Settings, validate, validate_sections, accepted, read_by_router}

-- The natural numbers in the place of the floats.
abbrev floats : FloatOps
floats = record {
  ratio = λ a b. a;
  lt = ltb;
  eq = ◌==◌;
  total_le = leb;
  add = ◌+◌;
  sub = ◌-◌;
  mul = ◌*◌;
  le_zero = λ a. a == 0;
  draw_key = ◌+◌;
}

-- The pattern of 1.0.
abbrev one : ℕ
one = 4607182418800017408

abbrev sources : Sources
sources = record { env = λ name. some "sk-1"; read_file = λ path. none }

abbrev a_key : String → Option String → RawKey
a_key name tenant = record {
  name = name;
  value = "env.KEY";
  weight = one;
  models = none;
  tenant = tenant;
  rpm = none;
  tpm = some 100;
  max_concurrency = none;
}

abbrev a_provider : RawProvider
a_provider = record {
  type_name = none;
  base_url = none;
  auth = none;
  keys = a_key "k1" (some "agi") ∷ a_key "k2" none ∷ [];
  max_concurrency = 512;
  timeout_secs = 120;
  endpoint = none;
  api_version = none;
  deployments = [];
  region = none;
  access_key_id = none;
  project = none;
  location = none;
  codex = none;
  key_limits = some (record { rpm = some 60; tpm = none; max_concurrency = none });
}

abbrev a_vkey : RawVirtualKey
a_vkey = record {
  name = "ci";
  id = "a1b2c3";
  secret_hash = "blake3:0123456789abcdef0123456789abcdef0123456789abcdef0123456789abcdef";
  models = "fast" ∷ "groq/llama" ∷ [];
  tenant = some "agi";
  budget = some (record { usd = one; period = "daily" });
  rate_limit = some (record { rpm = some 10; tpm = none });
  expires = some "2027-01-01T00:00:00Z";
  tags = [];
  enabled = true;
}

abbrev document : RawConfig
document = record {
  server = record {
    host = "0.0.0.0";
    port = 8080;
    max_body_size_mb = 100;
    auth_keys = with_tenant "store.master" (some "agi") ∷ bare "literal" ∷ [];
    require_auth = false;
    drain_timeout_secs = 30;
  };
  providers = ("groq", a_provider) ∷ ("openai", a_provider) ∷ [];
  aliases = ("cheap", "small") ∷ ("small", "groq/llama") ∷ [];
  fallbacks = ("cheap", "openai/gpt-4o" ∷ []) ∷ [];
  groups =
      (
        "fast",
        record {
          primary =
              record { target = "cheap"; weight = one }
              ∷ record { target = "openai/gpt-4o"; weight = one }
              ∷ [];
          fallback = record { target = "groq/mixtral"; weight = one } ∷ [];
        },
      )
      ∷ [];
  reliability = record {
    breaker = record { failure_threshold = 5; window_secs = 30; cooldown_secs = 15 };
    retries = record { max_attempts = 2; on = "connect_error" ∷ "429" ∷ "5xx" ∷ [] };
  };
  tenants = "agi" ∷ "web" ∷ [];
  virtual_keys = a_vkey ∷ [];
  console = record { admin_keys = []; session_ttl_secs = 43200 };
  store = record {
    backend = "file";
    bucket = none;
    prefix = none;
    table = none;
    region = none;
    endpoint = none;
    refresh_interval_secs = 3;
    heartbeat_interval_secs = 5;
    liveness_window_secs = 15;
  };
  usage = record {
    retention_days = 365;
    flush_interval_secs = 10;
    per_key_metrics = false;
    capture_bodies = "all";
    body_limit_bytes = 262144;
    body_retention_days = 1;
  };
  pricing = [];
}

abbrev settings : Settings
unfolding validate_sections
settings = (validate_sections sources document).1

settings-accepted : validate sources document ≡ accepted settings
unfolding validate strip_prefix is_positive get parse_target split_once insert codes
settings-accepted = refl

-- What the document makes of its groups, and the expiry of its key.
settings-groups :
    get settings.groups "fast"
    ≡ some (record {
      primary =
          record { target = record { provider = "groq"; model = "llama" }; weight = one }
          ∷ record { target = record { provider = "openai"; model = "gpt-4o" }; weight = one }
          ∷ [];
      fallback =
          record { target = record { provider = "groq"; model = "mixtral" }; weight = one } ∷ [];
    })
unfolding get insert parse_target split_once is_positive settings strip_prefix
settings-groups = refl

expiry_2027 : parse_rfc3339_utc_ms "2027-01-01T00:00:00Z" ≡ some 1798761600000
unfolding parse_rfc3339_utc_ms codes
expiry_2027 = refl

expiry_leap : parse_rfc3339_utc_ms "1970-01-02T00:00:00.5Z" ≡ some 86400500
unfolding parse_rfc3339_utc_ms codes
expiry_leap = refl

-- A fraction is read to its third digit and no further.
expiry_tail : parse_rfc3339_utc_ms "1970-01-01T00:00:00.123then anythingZ" ≡ some 123
unfolding parse_rfc3339_utc_ms codes
expiry_tail = refl

-- The thirty-first of February is the third of March.
expiry_february :
    parse_rfc3339_utc_ms "2027-02-31T00:00:00Z" ≡ parse_rfc3339_utc_ms "2027-03-03T00:00:00Z"
unfolding parse_rfc3339_utc_ms codes
expiry_february = refl

expiry_offset : parse_rfc3339_utc_ms "2026-08-15T00:00:00+05:30" ≡ none
unfolding parse_rfc3339_utc_ms codes
expiry_offset = refl

alias_cycle_found : resolve_alias 3 (("a", "b") ∷ ("b", "a") ∷ []) [] "a" ≡ cycle "a"
unfolding resolve_alias get
alias_cycle_found = refl

secret_trimmed : trim "  token\n" ≡ "token"
unfolding trim
secret_trimmed = refl

document-IsDocument : IsDocument document
unfolding get
document-IsDocument = record {
  providers = (refl, (refl, tt));
  aliases = (refl, (refl, tt));
  groups = (refl, tt);
}

clean : IsClean sources document
clean = (validate-accepted sources document settings settings-accepted).0

known_aliases :
    HasKnownAliases document (providers_of sources document).1 (aliases_of sources document).1
known_aliases name x found =
    validate_aliases-known document (providers_of sources document).1 name x
      document-IsDocument.aliases clean.aliases found

resolve_alias-Ends_example :
    Ends document.aliases "cheap" (resolve_alias 3 document.aliases [] "cheap")
unfolding get
resolve_alias-Ends_example = resolve_alias-Ends document.aliases "cheap" refl

validate_aliases-Matches_example :
    Matches
      (Resolved document (providers_of sources document).1 "cheap")
      (get document.aliases "cheap")
      (get (aliases_of sources document).1 "cheap")
validate_aliases-Matches_example =
    validate_aliases-Matches document (providers_of sources document).1 "cheap"
      document-IsDocument.aliases clean.aliases

validate_providers-Matches_example :
    Matches
      (WrittenProvider sources)
      (get document.providers "groq")
      (get (validate_providers sources document).1 "groq")
validate_providers-Matches_example =
    validate_providers-Matches sources document "groq" document-IsDocument.providers clean.providers

validate_groups-Matches_example :
    Matches
      (WrittenGroup document
        (providers_of sources document).1
        (aliases_of sources document).1
        "fast")
      (get document.groups "fast")
      (get
        (validate_groups document
          (providers_of sources document).1
          (aliases_of sources document).1).1
        "fast")
validate_groups-Matches_example =
    validate_groups-Matches document (providers_of sources document).1
      (aliases_of sources document).1 "fast" document-IsDocument.groups known_aliases clean.groups

validate-plan_example :
    IsPlanned
      (from_config_with (read_by_router settings) none)
      "fast"
      floats
      0
      (plan floats 0 (λ i. i) (λ i. i) (from_config_with (read_by_router settings) none) "fast")
validate-plan_example =
    validate-plan sources document document-IsDocument settings settings-accepted none floats 0
      (λ i. i) (λ i. i) "fast"

validate-services_example :
    ((name : String) → has_name settings.tenants name ≡ has_name document.tenants name)
    × All (λ entry. AreDeclared settings.tenants entry.1.keys) document.providers
    × Pairs (WrittenVkey settings.tenants) document.virtual_keys settings.virtual_keys
    × HasDistinctIds settings.virtual_keys
validate-services_example = validate-services sources document settings settings-accepted
