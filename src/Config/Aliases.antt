-- ===== src/Config/Aliases.antt =====
-- `resolve_alias`, `validate_aliases` and `resolve_target_ref` of
-- crates/router-core/src/config/validate.rs. `resolve_alias` takes fuel, one more than there are aliases.
-- A provider of the document counts as known whether or not it validates.
use Prim.Native.String.{String}
use rapidrouter.Prelude.{
  ℕ, zero, suc, Bool, ◌||◌, Option, none, some, List, [], ◌∷◌, Map, get, length, is_some, str_eq,
  if◌then◌else◌, any_of,
}
use rapidrouter.Router.Table.{TargetModel, parse_target}
use rapidrouter.Config.Raw.{RawConfig}
use rapidrouter.Config.Checked.{
  Part, field, alias_cycle, unfinished_alias, provider_collision, unknown_provider, not_a_target,
  Checked, fail, pure, validate_each,
}

-- Where a chain of aliases leads. `no_alias` is the panic of the `expect`, `out_of_fuel` is not in the
-- source.
pub data AliasEnd : Type 0 where
  terminal cycle : String → AliasEnd
  no_alias out_of_fuel : AliasEnd

unfoldable pub has_name : List String → String → Bool
has_name seen name = any_of (λ s. str_eq s name) seen

unfoldable pub resolve_alias : ℕ → Map String → List String → String → AliasEnd
unfolding has_name
resolve_alias zero aliases seen name = out_of_fuel
resolve_alias (suc fuel) aliases seen name =
    let follow = λ (target : String). resolve_alias fuel aliases (name ∷ seen) target in
    if has_name seen name then cycle name else elim (get aliases name) [
      | none ↦ no_alias
      | some target ↦ if is_some (get aliases target) then follow target else terminal target
    ]

-- `providers.contains_key(..) || raw.providers.contains_key(..)`.
unfoldable pub is_known : {P : Type 0} → RawConfig → Map P → String → Bool
is_known raw providers name = is_some (get providers name) || is_some (get raw.providers name)

module _ {P : Type 0} (raw : RawConfig) (providers : Map P) where
  unfoldable pub alias_target : String → Option TargetModel → Checked (Option TargetModel)
  unfolding is_known
  alias_target name none = fail (field "aliases" ∷ field name ∷ []) (not_a_target name) none
  alias_target name (some target) =
      if is_known raw providers target.provider
      then pure (some target)
      else fail (field "aliases" ∷ field name ∷ []) (unknown_provider target.provider) none

  unfoldable pub alias_end : String → AliasEnd → Checked (Option TargetModel)
  unfolding alias_target
  alias_end name (terminal target) = alias_target name (parse_target target)
  alias_end name (cycle at) = fail (field "aliases" ∷ field name ∷ []) (alias_cycle at) none
  alias_end name _ = fail (field "aliases" ∷ field name ∷ []) unfinished_alias none

  -- One alias of the document; what it is written as is read through the whole section.
  unfoldable pub check_alias : String → String → Checked (Option TargetModel)
  unfolding alias_end resolve_alias
  check_alias name written =
      if is_some (get raw.providers name)
      then fail (field "aliases" ∷ field name ∷ []) provider_collision none
      else alias_end name (resolve_alias (suc (length raw.aliases)) raw.aliases [] name)

  unfoldable pub validate_aliases : Checked (Map TargetModel)
  unfolding check_alias validate_each
  validate_aliases = validate_each check_alias [] raw.aliases

  target_ref : String → List Part → Option TargetModel → Checked (Option TargetModel)
  unfolding is_known
  target_ref s place none = fail place (not_a_target s) none
  target_ref s place (some t) =
      if is_known raw providers t.provider
      then pure (some t)
      else fail place (unknown_provider t.provider) none

  -- The same for a target written in another section, once the aliases are resolved.
  unfoldable pub resolve_target_ref :
      Map TargetModel → String → List Part → Checked (Option TargetModel)
  unfolding target_ref
  resolve_target_ref aliases s place = elim (get aliases s) [
    | some target ↦ pure (some target)
    | none ↦ target_ref s place (parse_target s)
  ]
