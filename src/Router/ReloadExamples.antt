-- ===== src/Router/ReloadExamples.antt =====
-- A configuration loaded twice, and the theorems about `RoutingTable::from_config_with` there.
use Prim.Native.String.{String}
use rapidrouter.Prelude.{ℕ, ◌+◌, ◌/◌, ◌≡◌, refl, Option, none, some, [], ◌∷◌, get, insert}
use rapidrouter.Breaker.{BreakerConfig}
use rapidrouter.TokenBucket.{new_bucket}
use rapidrouter.Router.Key.{KeyRuntime}
use rapidrouter.Router.Table.{RoutingTable}
use rapidrouter.Router.Rebuild.{ApiKey, Config, from_config, from_config_with}
use rapidrouter.Router.Reload.{key_at, stale_limits}

abbrev breaker : BreakerConfig
breaker = record { failure_threshold = 3; window_ms = 1000; cooldown_ms = 500 }

abbrev key : String → Option ℕ → ApiKey
key name rpm = record {
  name = name;
  weight = 1;
  models = some ("gpt" ∷ []);
  tenant = none;
  rpm = rpm;
  tpm = none;
  max_concurrency = some 2;
}

abbrev config : Config
config = record {
  providers = ("codex", record { keys = key "a" (some 60) ∷ [] }) ∷ [];
  aliases = [];
  fallbacks = [];
  groups = [];
  breaker = breaker;
  retries = record { max_attempts = 2; on = [] };
}

abbrev table : RoutingTable
table = from_config config

-- The model that a key lists is in the catalog.
gpt_listed : get table.catalog "gpt" ≡ some "codex"
unfolding from_config get insert
gpt_listed = refl

-- The limits are lowered from 600 a minute to 6, and the tokens raised from 10 to 1000.
abbrev limited : ℕ → ℕ → ApiKey
limited rpm tpm = record (key "a" (some rpm)) { tpm = some tpm }

abbrev holding_key : ApiKey → Config
holding_key k = record config { providers = ("codex", record { keys = k ∷ [] }) ∷ [] }

stale_limits_example :
    (k : KeyRuntime) × (key_at
        (from_config_with
          (holding_key (limited 6 1000))
          (some (from_config (holding_key (limited 600 10)))))
        "codex"
        "a"
      ≡ some k)
    × (k.rpm ≡ some (new_bucket 600 ((600 + 59) / 60)))
    × (k.tpm ≡ some (new_bucket 10 ((10 + 59) / 60)))
unfolding get
stale_limits_example =
    stale_limits (holding_key (limited 600 10)) (holding_key (limited 6 1000)) "codex" "a"
      (record { keys = limited 600 10 ∷ [] }) (record { keys = limited 6 1000 ∷ [] })
      (limited 600 10) (limited 6 1000) 600 6 10 1000 refl refl refl refl refl refl refl refl
