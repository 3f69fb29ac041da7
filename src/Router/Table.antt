-- ===== src/Router/Table.antt =====
-- crates/router-core/src/router.rs, `RoutingTable`, with `TargetModel`, `RoutingGroup` and `Retries` of
-- crates/router-core/src/config/mod.rs: how a requested model becomes a plan of targets. An error is
-- told apart by its case; all are of class NotFound and name the parameter `model`, except `panicked`,
-- the `expect` on a group with no primary target, which a validated configuration does not have.
use Prim.Native.String.{String, ◌++◌}
use rapidrouter.Prelude.{
  ◌≡◌, refl, ℕ, suc, Bool, ◌||◌, Option, none, some, List, [], ◌∷◌, ◌++◌ as append, map, Map, get,
  length, ltb, max, is_empty, is_some, if◌then◌else◌, split_once, no_text, str_eq, ◌&&◌,
}
use rapidrouter.Router.Floats.{FloatOps}
use rapidrouter.Router.Pick.{sort_by}
use rapidrouter.Router.Pool.{ProviderRuntime}

pub record TargetModel : Type 0 where
  pub provider : String
  pub model : String

-- The code point of `/`.
abbrev pub slash : ℕ
slash = 47

named : Option (String × String) → Option TargetModel
named none = none
named (some (provider, model)) =
    if no_text provider || no_text model
    then none
    else some (record { provider = provider; model = model })

unfoldable pub parse_target : String → Option TargetModel
unfolding named
parse_target s = named (split_once slash s)

-- `Display`.
unfoldable pub show_target : TargetModel → String
show_target t = t.provider ++ ("/" ++ t.model)

-- The weight is a float, by its bit pattern.
pub record WeightedTarget : Type 0 where
  pub target : TargetModel
  pub weight : ℕ

pub record RoutingGroup : Type 0 where
  pub primary : List WeightedTarget
  pub fallback : List WeightedTarget

pub data RetryOn : Type 0 where
  connect_error status_429 status_5xx : RetryOn

pub record Retries : Type 0 where
  pub max_attempts : ℕ
  pub on : List RetryOn

pub record RoutingTable : Type 0 where
  pub providers : Map ProviderRuntime
  pub catalog : Map String
  pub aliases : Map TargetModel
  pub fallbacks : List (TargetModel × List TargetModel)
  pub groups : Map RoutingGroup
  pub retries : Retries

pub data RouteError : Type 0 where
  unknown_model : String → RouteError
  unconfigured_provider : String → String → RouteError
  no_usable_target : String → RouteError
  panicked : RouteError

-- `Result<T, GatewayError>`, and `?` as `>>=`.
pub data Result (T : Type 0) : Type 0 where
  err : RouteError → Result T
  ok : T → Result T

infixl 5 ◌>>=◌
abbrev pub ◌>>=◌ : {T U : Type 0} → Result T → (T → Result U) → Result U
err why >>= next = err why
ok found >>= next = next found

pub >>=-eq-ok :
    {T U : Type 0} (first : Result T) (next : T → Result U) {last : U}
    → (first >>= next) ≡ ok last
    → (found : T) × (first ≡ ok found) × (next found ≡ ok last)
>>=-eq-ok (err why) next reached = cc
>>=-eq-ok (ok found) next reached = (found, refl, reached)

pub record ResolvedRoute : Type 0 where
  pub provider : ProviderRuntime
  pub upstream_model : String

pub record RoutePlan : Type 0 where
  pub targets : List ResolvedRoute
  pub max_attempts_per_target : ℕ
  pub retry_on : List RetryOn

-- The key of the fallback table is a target.
unfoldable pub same_target : TargetModel → TargetModel → Bool
same_target a b = str_eq a.provider b.provider && str_eq a.model b.model

unfoldable pub fallbacks_for :
    List (TargetModel × List TargetModel) → TargetModel → List TargetModel
unfolding same_target
fallbacks_for [] t = []
fallbacks_for ((key, chain) ∷ rest) t = if same_target t key then chain else fallbacks_for rest t

-- The draws below 1 of one weighted order, one for each place in the pool.
unfoldable pub key_all : FloatOps → (ℕ → ℕ) → ℕ → List WeightedTarget → List (ℕ × TargetModel)
key_all f draw i [] = []
key_all f draw i (w ∷ rest) = (f.draw_key (draw i) w.weight, w.target) ∷ key_all f draw (suc i) rest

-- Weighted-random order without replacement, highest key first.
unfoldable pub weighted_order : FloatOps → (ℕ → ℕ) → List WeightedTarget → List TargetModel
unfolding key_all
weighted_order f draw pool =
    if ltb (length pool) 2
    then map (λ w. w.target) pool
    else map (λ kt. kt.1) (sort_by (λ a b. f.total_le b.0 a.0) (key_all f draw 0 pool))

unfoldable pub pick_loop : FloatOps → ℕ → List WeightedTarget → Option TargetModel
pick_loop f roll [] = none
pick_loop f roll (w ∷ []) = some w.target
pick_loop f roll (w ∷ v ∷ rest) =
    let roll' = f.sub roll w.weight in
    let later = pick_loop f roll' (v ∷ rest) in if f.le_zero roll' then some w.target else later

unfoldable pub total_weight : FloatOps → ℕ → List WeightedTarget → ℕ
total_weight f acc [] = acc
total_weight f acc (w ∷ rest) = total_weight f (f.add acc w.weight) rest

-- One weighted draw; past the last entry the last is taken. `none` is the panic on an empty pool. The
-- sum begins at zero, bits 0; its sign does not matter to a sum of positive weights.
unfoldable pub weighted_pick_target : FloatOps → ℕ → List WeightedTarget → Option TargetModel
unfolding pick_loop total_weight
weighted_pick_target f draw pool = pick_loop f (f.mul draw (total_weight f 0 pool)) pool

unfoldable pub picked : Option TargetModel → Result TargetModel
picked none = err panicked
picked (some t) = ok t

-- The name alone, in the catalog of the models that keys list.
unfoldable pub by_catalog : RoutingTable → String → Result TargetModel
by_catalog t requested = elim (get t.catalog requested) [
  | none ↦ err (unknown_model requested)
  | some provider ↦ ok (record { provider = provider; model = requested })
]

-- The name as `provider/model`, if the provider is configured.
unfoldable pub by_prefix : RoutingTable → String → Option TargetModel → Result TargetModel
unfolding by_catalog
by_prefix t requested none = by_catalog t requested
by_prefix t requested (some target) =
    if is_some (get t.providers target.provider) then ok target else by_catalog t requested

unfoldable pub by_alias : RoutingTable → String → Option TargetModel → Result TargetModel
unfolding by_prefix
by_alias t requested none = by_prefix t requested (parse_target requested)
by_alias t requested (some target) = ok target

unfoldable pub by_group :
    FloatOps → ℕ → RoutingTable → String → Option RoutingGroup → Result TargetModel
unfolding by_alias picked
by_group f draw t requested none = by_alias t requested (get t.aliases requested)
by_group f draw t requested (some group) = picked (weighted_pick_target f draw group.primary)

-- Group, alias, prefix, catalog, in that order.
unfoldable pub resolve_target : FloatOps → ℕ → RoutingTable → String → Result TargetModel
unfolding by_group
resolve_target f draw t requested = by_group f draw t requested (get t.groups requested)

routed : TargetModel → String → Option ProviderRuntime → Result ResolvedRoute
routed target requested none = err (unconfigured_provider requested target.provider)
routed target requested (some runtime) =
    ok (record { provider = runtime; upstream_model = target.model })

unfoldable pub route_to : RoutingTable → TargetModel → String → Result ResolvedRoute
unfolding routed
route_to t target requested = routed target requested (get t.providers target.provider)

unfoldable pub resolve : FloatOps → ℕ → RoutingTable → String → Result ResolvedRoute
unfolding resolve_target route_to
resolve f draw t requested = do
  target ← resolve_target f draw t requested
  route_to t target requested

unfoldable pub pushed : Result ResolvedRoute → List ResolvedRoute → List ResolvedRoute
pushed (ok route) rest = route ∷ rest
pushed (err e) rest = rest

-- The targets that route somewhere, in their order.
unfoldable pub usable : RoutingTable → String → List TargetModel → List ResolvedRoute
unfolding pushed
usable t requested [] = []
usable t requested (target ∷ rest) = pushed (route_to t target requested) (usable t requested rest)

unfoldable pub plan_of : RoutingTable → List ResolvedRoute → RoutePlan
plan_of t targets = record {
  targets = targets;
  max_attempts_per_target = max t.retries.max_attempts 1;
  retry_on = t.retries.on;
}

-- The primary pool in a weighted order, then the fallback pool in one of its own.
unfoldable pub plan_group :
    FloatOps → (ℕ → ℕ) → (ℕ → ℕ) → RoutingTable → String → RoutingGroup → Result RoutePlan
unfolding usable weighted_order plan_of
plan_group f draw draw' t requested group =
    let order =
      append (weighted_order f draw group.primary) (weighted_order f draw' group.fallback) in
    let targets = usable t requested order in
    if is_empty targets then err (no_usable_target requested) else ok (plan_of t targets)

-- The target and its fallback chain.
unfoldable pub plan_single : FloatOps → ℕ → RoutingTable → String → Result RoutePlan
unfolding usable plan_of
plan_single f draw t requested = do
  primary ← resolve_target f draw t requested
  first ← route_to t primary requested
  ok (plan_of t (first ∷ usable t requested (fallbacks_for t.fallbacks primary)))

unfoldable pub plan_for :
    FloatOps
    → ℕ
    → (ℕ → ℕ)
    → (ℕ → ℕ)
    → RoutingTable
    → String
    → Option RoutingGroup
    → Result RoutePlan
unfolding plan_single
plan_for f draw order order' t requested none = plan_single f draw t requested
plan_for f draw order order' t requested (some group) = plan_group f order order' t requested group

unfoldable pub plan : FloatOps → ℕ → (ℕ → ℕ) → (ℕ → ℕ) → RoutingTable → String → Result RoutePlan
unfolding plan_for plan_group
plan f draw order order' t requested =
    plan_for f draw order order' t requested (get t.groups requested)
