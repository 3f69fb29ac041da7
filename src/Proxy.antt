-- ===== src/Proxy.antt =====
-- crates/router-server/src/proxy.rs: one chat request, from the plan of its targets to the answer. The
-- shared state is a pool for each provider, by its name. What comes from outside the loop is an argument:
-- the clock, the draws of selection, what the translators make of the request for a target, and what the
-- provider replies, one for each target and attempt.
-- Metrics, logs, and what a key remembers for the console (its quota and its last check) are left out.
pub mod Reply
pub mod Dispatch
pub mod Attempts
pub mod Permits
pub mod Gate
mod Examples
use Prim.Native.String.{String}
use text.Mathlib.Text.{◌==◌ as str_eq}
use rapidrouter.Prelude.{
  ℕ, ◌-◌, min, max, Bool, not, Option, none, some, List, [], ◌∷◌, set, get_elem?, ◌==◌,
  if◌then◌else◌,
}
use rapidrouter.Errors.{
  GatewayError, new_error, with_param, with_provider, permission, rate_limited, insufficient_quota,
  no_capacity,
}
use rapidrouter.Breaker.{Breaker}
use rapidrouter.Router.Pool.{ProviderRuntime}
use rapidrouter.Router.Holding.{holding, healthy_key_count, all_keys_benched, all_keys_at_ceiling}
use rapidrouter.Router.Table.{show_target, ResolvedRoute, RoutePlan}
use rapidrouter.Vkey.Runtime.{VkRuntime, VkDeny, budget_spent, allows_model, admit, period_ordinal}

abbrev pub max_attempts : ℕ
max_attempts = 8

-- A provider as the requests share it: `kind.is_subscription()` and the free permits of its semaphore stand
-- beside its keys.
pub record Pool : Type 0 where
  pub runtime : ProviderRuntime
  pub is_subscription : Bool
  pub free : ℕ

abbrev pub Pools : Type 0
Pools = String → Pool

unfoldable pub set_pool : Pools → String → Pool → Pools
set_pool pools name pool other = if str_eq other name then pool else pools other

unfoldable pub attempt_budget : ProviderRuntime → Option String → RoutePlan → Option String → ℕ → ℕ
unfolding healthy_key_count
attempt_budget runtime model plan tenant now_ms =
    min (max plan.max_attempts_per_target (healthy_key_count runtime model tenant now_ms))
      max_attempts

-- `provider/model` of the first target.
unfoldable pub resolved_name : List ResolvedRoute → Option String
unfolding show_target
resolved_name [] = none
resolved_name (route ∷ rest) =
    some (show_target (record { provider = route.provider.name; model = route.upstream_model }))

unfoldable pub deny_error : Option VkDeny → Option GatewayError
unfolding new_error
deny_error none = none
deny_error (some (VkDeny.rate_limited after)) = some (new_error rate_limited)
deny_error (some budget_spent) = some (new_error insufficient_quota)

-- `none` is the source's `Ok(())`.
unfoldable pub vk_gate :
    (ℕ → ℕ) → VkRuntime → String → RoutePlan → ℕ → ℕ → VkRuntime × Option GatewayError
unfolding allows_model admit period_ordinal deny_error resolved_name new_error with_param
vk_gate usd_micro vk requested plan unix_ms mono_ms =
    let (vk', answer) = admit usd_micro vk mono_ms (period_ordinal vk unix_ms) in
    if not (allows_model vk requested (resolved_name plan.targets))
    then (vk, some (with_param (new_error permission) "model"))
    else (vk', deny_error answer)

-- Why selection admitted nobody.
unfoldable pub pool_empty :
    ProviderRuntime → String → Option String → ℕ → ProviderRuntime × GatewayError
unfolding holding all_keys_benched all_keys_at_ceiling new_error with_provider
pool_empty runtime model tenant now_ms =
    let (read, at_ceiling) = all_keys_at_ceiling runtime (some model) tenant now_ms in
    if (holding runtime (some model) tenant now_ms).owned == 0
    then (runtime, with_provider (new_error permission) runtime.name)
    else if all_keys_benched runtime (some model) tenant now_ms
    then (runtime, with_provider (new_error rate_limited) runtime.name)
    else if at_ceiling
    then (read, with_provider (new_error no_capacity) runtime.name)
    else (read, with_provider (new_error no_capacity) runtime.name)

-- `breaker_for` the key that was chosen, replaced by what `f` makes of it.
unfoldable pub on_breaker : (Breaker → Breaker) → ProviderRuntime → Option ℕ → ProviderRuntime
on_breaker f runtime none = record runtime { provider_breaker = f runtime.provider_breaker }
on_breaker f runtime (some i) = elim (get_elem? runtime.keys i) [
  | none ↦ runtime
  | some key ↦ record runtime { keys = set runtime.keys i (record key { breaker = f key.breaker }) }
]
