-- ===== src/Router/Rebuild.antt =====
-- crates/router-core/src/router.rs, `RoutingTable::from_config_with`, with what it reads of `Config`,
-- `Provider` and `ApiKey` in crates/router-core/src/config/mod.rs: the table that a configuration makes,
-- and what carries over from the table before it. The providers of a configuration are listed in the
-- order of their names, as a BTreeMap has them. The slots of a key that carries over are handed on by
-- value; the source shares the semaphore.
use Prim.Native.String.{String}
use rapidrouter.Prelude.{
  ℕ, ◌+◌, ◌/◌, Bool, false, Option, none, some, List, [], ◌∷◌, map, any_of, is_some, min, ◌==◌,
  if◌then◌else◌, Map, get, insert, str_eq,
}
use rapidrouter.Breaker.{BreakerConfig, new as new_breaker}
use rapidrouter.TokenBucket.{TokenBucket, new_bucket, clone_state}
use rapidrouter.Router.Key.{KeyRuntime}
use rapidrouter.Router.Pool.{ProviderRuntime}
use rapidrouter.Router.Table.{TargetModel, RoutingGroup, Retries, RoutingTable}

pub record ApiKey : Type 0 where
  pub name : String
  pub weight : ℕ
  pub models : Option (List String)
  pub tenant : Option String
  pub rpm : Option ℕ
  pub tpm : Option ℕ
  pub max_concurrency : Option ℕ

pub record Provider : Type 0 where
  pub keys : List ApiKey

-- The breaker's durations are in milliseconds.
pub record Config : Type 0 where
  pub providers : Map Provider
  pub aliases : Map TargetModel
  pub fallbacks : List (TargetModel × List TargetModel)
  pub groups : Map RoutingGroup
  pub breaker : BreakerConfig
  pub retries : Retries

unfoldable pub find_key : List KeyRuntime → String → Option KeyRuntime
find_key [] key = none
find_key (k ∷ ks) key = let rest = find_key ks key in if str_eq k.name key then some k else rest

unfoldable pub keys_of : Option ProviderRuntime → List KeyRuntime
keys_of none = []
keys_of (some p) = p.keys

unfoldable pub previous_keys : Option RoutingTable → String → List KeyRuntime
unfolding keys_of
previous_keys none provider = []
previous_keys (some t) provider = keys_of (get t.providers provider)

unfoldable pub previous_key : Option RoutingTable → String → String → Option KeyRuntime
unfolding previous_keys find_key
previous_key prev provider key = find_key (previous_keys prev provider) key

-- The least of the lease counts, or 0 for a pool with no keys.
unfoldable pub least_leases : List KeyRuntime → ℕ
least_leases [] = 0
least_leases (k ∷ []) = k.leases
least_leases (k ∷ l ∷ rest) = min k.leases (least_leases (l ∷ rest))

unfoldable pub same_ceiling : Option ℕ → ℕ → Bool
same_ceiling none limit = false
same_ceiling (some before) limit = before == limit

unfoldable pub carry_slots : Option KeyRuntime → Option ℕ → Option ℕ
unfolding same_ceiling
carry_slots prev none = none
carry_slots none (some limit) = some limit
carry_slots (some p) (some limit) =
    if same_ceiling p.max_concurrency limit then p.inflight else some limit

unfoldable pub carry_bucket : Option TokenBucket → Option ℕ → Option TokenBucket
carry_bucket (some bucket) (some limit) = some (clone_state bucket)
carry_bucket none (some limit) = some (new_bucket limit ((limit + 59) / 60))
carry_bucket _ none = none

unfoldable pub rpm_of : Option KeyRuntime → Option TokenBucket
rpm_of none = none
rpm_of (some k) = k.rpm

unfoldable pub tpm_of : Option KeyRuntime → Option TokenBucket
tpm_of none = none
tpm_of (some k) = k.tpm

unfoldable pub leases_of : Option KeyRuntime → ℕ → ℕ
leases_of none floor = floor
leases_of (some k) floor = k.leases

unfoldable pub new_key : BreakerConfig → Option KeyRuntime → ℕ → ApiKey → KeyRuntime
unfolding carry_bucket carry_slots rpm_of tpm_of leases_of
new_key breaker before floor k = record {
  name = k.name;
  weight = k.weight;
  models = k.models;
  tenant = k.tenant;
  breaker = new_breaker breaker;
  rpm = carry_bucket (rpm_of before) k.rpm;
  tpm = carry_bucket (tpm_of before) k.tpm;
  max_concurrency = k.max_concurrency;
  inflight = carry_slots before k.max_concurrency;
  leases = leases_of before floor;
}

unfoldable pub new_provider :
    BreakerConfig → Option RoutingTable → String → Provider → ProviderRuntime
unfolding new_key previous_key previous_keys least_leases
new_provider breaker prev name p = record {
  name = name;
  keys =
      map
        (λ k.
          new_key breaker (previous_key prev name k.name) (least_leases (previous_keys prev name))
            k)
        p.keys;
  provider_breaker = new_breaker breaker;
  managed = any_of (λ k. is_some k.tenant) p.keys;
}

unfoldable pub new_providers :
    BreakerConfig → Option RoutingTable → Map Provider → Map ProviderRuntime
unfolding new_provider
new_providers breaker prev [] = []
new_providers breaker prev ((name, p) ∷ rest) =
    (name, new_provider breaker prev name p) ∷ new_providers breaker prev rest

-- `entry(model).or_insert(name)`: the first provider that lists a model.
unfoldable pub list_model : Map String → String → String → Map String
list_model catalog name model = elim (get catalog model) [
  | some first ↦ catalog
  | none ↦ insert catalog model name
]

unfoldable pub list_models : Map String → String → List String → Map String
unfolding list_model
list_models catalog name [] = catalog
list_models catalog name (model ∷ rest) = list_models (list_model catalog name model) name rest

unfoldable pub listed : Option (List String) → List String
listed none = []
listed (some models) = models

unfoldable pub list_keys : Map String → String → List ApiKey → Map String
unfolding list_models listed
list_keys catalog name [] = catalog
list_keys catalog name (k ∷ rest) = list_keys (list_models catalog name (listed k.models)) name rest

unfoldable pub catalog_of : Map String → Map Provider → Map String
unfolding list_keys
catalog_of catalog [] = catalog
catalog_of catalog ((name, p) ∷ rest) = catalog_of (list_keys catalog name p.keys) rest

unfoldable pub from_config_with : Config → Option RoutingTable → RoutingTable
unfolding new_providers catalog_of
from_config_with config prev = record {
  providers = new_providers config.breaker prev config.providers;
  catalog = catalog_of [] config.providers;
  aliases = config.aliases;
  fallbacks = config.fallbacks;
  groups = config.groups;
  retries = config.retries;
}

unfoldable pub from_config : Config → RoutingTable
unfolding from_config_with
from_config config = from_config_with config none
