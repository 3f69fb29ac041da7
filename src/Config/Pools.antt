-- ===== src/Config/Pools.antt =====
-- `validate_fallbacks` and `validate_groups` of crates/router-core/src/config/validate.rs.
use Prim.Native.String.{String}
use rapidrouter.Prelude.{
  ℕ, suc, not, Option, none, some, List, [], ◌∷◌, ◌++◌, Map, get, is_some, no_text, is_empty,
  any_of, if◌then◌else◌,
}
use rapidrouter.Router.Table.{TargetModel, WeightedTarget, RoutingGroup, same_target, show_target}
use rapidrouter.Config.Raw.{RawConfig, RawGroup, RawGroupTarget}
use rapidrouter.Config.Checked.{
  Part, field, nth, empty_chain, own_source, empty_value, provider_collision, alias_collision,
  no_primary, bad_number, nested_group, duplicate, Checked, ◌>>=◌, fail, pure, validate_each,
}
use rapidrouter.Config.Aliases.{resolve_target_ref}
use rapidrouter.Config.Numbers.{is_positive}

-- `BTreeMap::insert` under a target.
unfoldable pub insert_chain :
    List (TargetModel × List TargetModel)
    → TargetModel
    → List TargetModel
    → List (TargetModel × List TargetModel)
unfolding same_target
insert_chain [] from chain = (from, chain) ∷ []
insert_chain ((key, old) ∷ rest) from chain =
    if same_target from key then (key, chain) ∷ rest else (key, old) ∷ insert_chain rest from chain

module _ {P : Type 0} (raw : RawConfig) (providers : Map P) (aliases : Map TargetModel) where
  -- A fallback that names its own source is reported and left out.
  unfoldable pub add_fallback :
      List Part → TargetModel → List TargetModel → Option TargetModel → Checked (List TargetModel)
  unfolding same_target
  add_fallback place from targets none = pure targets
  add_fallback place from targets (some t) =
      if same_target t from then fail place own_source targets else pure (targets ++ (t ∷ []))

  unfoldable pub chain_targets :
      String → TargetModel → ℕ → List TargetModel → List String → Checked (List TargetModel)
  unfolding add_fallback resolve_target_ref
  chain_targets name from i targets [] = pure targets
  chain_targets name from i targets (entry ∷ rest) = do
    let place = field "fallbacks" ∷ field name ∷ nth i ∷ []
    found ← resolve_target_ref raw providers aliases entry place
    targets' ← add_fallback place from targets found
    chain_targets name from (suc i) targets' rest

  unfoldable pub chain_of :
      String
      → List String
      → List (TargetModel × List TargetModel)
      → Option TargetModel
      → Checked (List (TargetModel × List TargetModel))
  unfolding chain_targets insert_chain
  chain_of name chain acc none = pure acc
  chain_of name chain acc (some from) =
      if is_empty chain
      then fail (field "fallbacks" ∷ field name ∷ []) empty_chain acc
      else do targets ← chain_targets name from 0 [] chain; pure (insert_chain acc from targets)

  unfoldable pub fallbacks_onto :
      List (TargetModel × List TargetModel)
      → Map (List String)
      → Checked (List (TargetModel × List TargetModel))
  unfolding chain_of resolve_target_ref
  fallbacks_onto acc [] = pure acc
  fallbacks_onto acc ((name, chain) ∷ rest) = do
    found ← resolve_target_ref raw providers aliases name (field "fallbacks" ∷ field name ∷ [])
    acc' ← chain_of name chain acc found
    fallbacks_onto acc' rest

  unfoldable pub validate_fallbacks : Checked (List (TargetModel × List TargetModel))
  unfolding fallbacks_onto
  validate_fallbacks = fallbacks_onto [] raw.fallbacks

  unfoldable pub push_target :
      List Part → ℕ → List WeightedTarget → Option TargetModel → Checked (List WeightedTarget)
  unfolding same_target
  push_target place weight pool none = pure pool
  push_target place weight pool (some t) =
      if any_of (λ w. same_target w.target t) pool
      then fail (place ++ (field "target" ∷ [])) (duplicate (show_target t)) pool
      else pure (pool ++ (record { target = t; weight = weight } ∷ []))

  -- One entry of a pool: the pool with it, or with an error and without it.
  unfoldable pub add_target :
      List Part → List WeightedTarget → RawGroupTarget → Checked (List WeightedTarget)
  unfolding push_target resolve_target_ref
  add_target place pool e =
      if not (is_positive e.weight)
      then fail (place ++ (field "weight" ∷ [])) bad_number pool
      else if is_some (get raw.groups e.target)
      then fail (place ++ (field "target" ∷ [])) nested_group pool
      else do
        found ← resolve_target_ref raw providers aliases e.target (place ++ (field "target" ∷ []))
        push_target place e.weight pool found

  unfoldable pub group_pool :
      List Part → ℕ → List WeightedTarget → List RawGroupTarget → Checked (List WeightedTarget)
  unfolding add_target
  group_pool place i pool [] = pure pool
  group_pool place i pool (e ∷ rest) = do
    pool' ← add_target (place ++ (nth i ∷ [])) pool e
    group_pool place (suc i) pool' rest

  unfoldable pub group_of : List WeightedTarget → List WeightedTarget → Option RoutingGroup
  group_of primary fallback =
      if is_empty primary then none else some (record { primary = primary; fallback = fallback })

  unfoldable pub both_pools : String → RawGroup → Checked (Option RoutingGroup)
  unfolding group_pool group_of
  both_pools name group = do
    let place = field "groups" ∷ field name ∷ []
    primary ← group_pool (place ++ (field "primary" ∷ [])) 0 [] group.primary
    fallback ← group_pool (place ++ (field "fallback" ∷ [])) 0 [] group.fallback
    pure (group_of primary fallback)

  -- One group of the document: the collisions first, then its two pools.
  unfoldable pub check_group : String → RawGroup → Checked (Option RoutingGroup)
  unfolding both_pools
  check_group name group =
      let place = field "groups" ∷ field name ∷ [] in
      if no_text name
      then fail place empty_value none
      else if is_some (get raw.providers name)
      then fail place provider_collision none
      else if is_some (get aliases name)
      then fail place alias_collision none
      else if is_empty group.primary
      then fail (place ++ (field "primary" ∷ [])) no_primary none
      else both_pools name group

  unfoldable pub validate_groups : Checked (Map RoutingGroup)
  unfolding check_group validate_each
  validate_groups = validate_each check_group [] raw.groups
