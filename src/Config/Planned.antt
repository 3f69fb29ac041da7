-- ===== src/Config/Planned.antt =====
-- Validation and routing together: the table that crates/router-core/src/router.rs builds from a
-- configuration that crates/router-core/src/config/validate.rs accepts.
use Prim.Native.String.{String}
use rapidrouter.Prelude.{
  ℕ, ◌≡◌, refl, sym, ap, subst, ◌∙◌, true, false, Option, none, some, List, [], ◌∷◌, map, Map, get,
  All, Pairs, is_some, is_empty, arith, Bool-cases, inl, inr,
}
use rapidrouter.Breaker.{BreakerConfig}
use rapidrouter.Router.Table.{
  TargetModel, WeightedTarget, RoutingGroup, RoutingTable, fallbacks_for, same_target, plan,
}
use rapidrouter.Router.Floats.{FloatOps}
use rapidrouter.Router.Rebuild.{Provider, from_config_with}
use rapidrouter.Router.Reload.{get-from_config_with, made_provider}
use rapidrouter.Router.Sound.{IsServed, IsSound, IsPlanned, plan-IsPlanned}
use rapidrouter.Config.Catalog.{catalog_of-ListsOnly}
use rapidrouter.Config.Raw.{RawConfig, RawGroup, RawGroupTarget}
use rapidrouter.Config.Checked.{Matches}
use rapidrouter.Config.Secrets.{Sources}
use rapidrouter.Config.Aliases.{is_known}
use rapidrouter.Config.AliasNames.{validate_aliases-known}
use rapidrouter.Config.Pools.{validate_fallbacks, validate_groups}
use rapidrouter.Config.Groups.{HasKnownAliases, Written, WrittenGroup, validate_groups-Matches}
use rapidrouter.Config.Chains.{IsChain, IsFallback, validate_fallbacks-All}
use rapidrouter.Config.Providers.{ProviderSettings}
use rapidrouter.Config.ProviderRules.{WrittenProvider, validate_providers-Matches}
use rapidrouter.Config.Validate.{
  Settings, providers_read, read_by_router, validate_sections, accepted, validate,
}
use rapidrouter.Config.Accepted.{IsDocument, IsClean, providers_of, aliases_of, validate-accepted}

is_some-providers_read :
    (ps : Map ProviderSettings) (name : String)
    → is_some (get (providers_read ps) name) ≡ is_some (get ps name)
unfolding providers_read get
is_some-providers_read [] name = refl
is_some-providers_read ((at, p) ∷ rest) name = ground (arith, is_some-providers_read rest name)

fallbacks_for-All :
    (P : TargetModel → Type 0) (chains : List (TargetModel × List TargetModel)) (x : TargetModel)
    → All (λ entry. All P entry.1) chains
    → All P (fallbacks_for chains x)
unfolding fallbacks_for
fallbacks_for-All P [] x all = tt
fallbacks_for-All P ((key, chain) ∷ rest) x all = elim (Bool-cases (same_target x key)) [
  | inl here ↦ rw here all.0
  | inr elsewhere ↦ rw elsewhere (fallbacks_for-All P rest x all.1)
]

Matches-is_some :
    {A V : Type 0} (R : A → V → Type 0) (o : Option A) (o' : Option V)
    → Matches R o o'
    → is_some o ≡ is_some o'
Matches-is_some R none none h = refl
Matches-is_some R (some a) (some v) h = refl
Matches-is_some R none (some v) h = elim h [ ]
Matches-is_some R (some a) none h = elim h [ ]

All-weaken :
    {A : Type 0} (P Q : A → Type 0) (xs : List A) → ((x : A) → P x → Q x) → All P xs → All Q xs
All-weaken P Q [] h all = tt
All-weaken P Q (x ∷ xs) h all = (h x all.0, All-weaken P Q xs h all.1)

made_provider-is_some :
    (breaker : BreakerConfig) (prev : Option RoutingTable) (name : String) (p : Option Provider)
    → is_some (made_provider breaker prev name p) ≡ is_some p
unfolding made_provider
made_provider-is_some breaker prev name none = refl
made_provider-is_some breaker prev name (some p) = refl

module _ (s : Sources) (raw : RawConfig) (document : IsDocument raw) (c : Settings)
    (e : validate s raw ≡ accepted c) (prev : Option RoutingTable) where
  abbrev table : RoutingTable
  table = from_config_with (read_by_router c) prev

  abbrev clean : IsClean s raw
  clean = (validate-accepted s raw c e).0

  known-served :
      (name : String)
      → is_known raw (providers_of s raw).1 name ≡ true
      → is_some (get table.providers name) ≡ true
  unfolding is_known read_by_router validate_sections made_provider
  known-served name known =
      let same_providers : c.providers ≡ (providers_of s raw).1 =
        ap (λ r. r.providers) (validate-accepted s raw c e).1 in
      let matches = validate_providers-Matches s raw name document.providers clean.providers in
      let counted =
        Matches-is_some (WrittenProvider s) (get raw.providers name)
          (get (providers_of s raw).1 name) matches in
      let there : is_some (get (providers_of s raw).1 name) ≡ true = ground arith in
      let made = get-from_config_with (read_by_router c) prev name in
      let read = is_some-providers_read c.providers name in
      let held : is_some (get c.providers name) ≡ true =
        ap (λ ps. is_some (get ps name)) same_providers ∙ there in
      ap is_some made
      ∙ made_provider-is_some (read_by_router c).breaker prev name
          (get (providers_read c.providers) name)
      ∙ read
      ∙ held

  known_aliases : HasKnownAliases raw (providers_of s raw).1 (aliases_of s raw).1
  known_aliases name x found =
      validate_aliases-known raw (providers_of s raw).1 name x document.aliases clean.aliases found

  aliases-IsServed :
      (name : String) (x : TargetModel) → get table.aliases name ≡ some x → IsServed table x
  unfolding from_config_with read_by_router validate_sections
  aliases-IsServed name x found =
      let same : c.aliases ≡ (aliases_of s raw).1 =
        ap (λ r. r.aliases) (validate-accepted s raw c e).1 in
      known-served x.provider (known_aliases name x (ap (λ m. get m name) (sym same) ∙ found))

  catalog-served :
      (name provider : String)
      → get table.catalog name ≡ some provider
      → is_some (get table.providers provider) ≡ true
  unfolding from_config_with read_by_router get
  catalog-served name provider found =
      let ps = providers_read c.providers in
      let listed =
        catalog_of-ListsOnly ps ps [] (λ n h. h) (λ model p absent. cc) name provider found in
      ap is_some (get-from_config_with (read_by_router c) prev provider)
      ∙ made_provider-is_some (read_by_router c).breaker prev provider (get ps provider)
      ∙ listed

  fallbacks-IsServed : (x : TargetModel) → All (IsServed table) (fallbacks_for table.fallbacks x)
  unfolding from_config_with read_by_router validate_sections
  fallbacks-IsServed x =
      let chains =
        validate_fallbacks-All raw (providers_of s raw).1 (aliases_of s raw).1 known_aliases
          clean.fallbacks in
      let same : c.fallbacks
          ≡ (validate_fallbacks raw (providers_of s raw).1 (aliases_of s raw).1).1 =
        ap (λ r. r.fallbacks) (validate-accepted s raw c e).1 in
      fallbacks_for-All (IsServed table) c.fallbacks x (
        subst (All (λ entry. All (IsServed table) entry.1)) (sym same) (
          All-weaken (IsChain raw (providers_of s raw).1) (λ entry. All (IsServed table) entry.1) _
            (λ entry chain.
              All-weaken (IsFallback raw (providers_of s raw).1 entry.0) (IsServed table) entry.1
                (λ y h. known-served y.provider h.0) chain)
            chains))

  Written-IsServed :
      (entries : List RawGroupTarget) (pool : List WeightedTarget)
      → Pairs (Written raw (providers_of s raw).1 (aliases_of s raw).1) entries pool
      → All (IsServed table) (map (λ w. w.target) pool)
  Written-IsServed [] [] pairs = tt
  Written-IsServed [] (w ∷ pool) pairs = elim pairs [ ]
  Written-IsServed (x ∷ entries) [] pairs = elim pairs [ ]
  Written-IsServed (x ∷ entries) (w ∷ pool) ((weight, positive, model, read, known), pairs) =
      (known-served w.target.provider known, Written-IsServed entries pool pairs)

  matched-IsServed :
      (name : String) (described : Option RawGroup) (g : RoutingGroup)
      → Matches
          (WrittenGroup raw (providers_of s raw).1 (aliases_of s raw).1 name)
          described
          (some g)
      → (is_empty g.primary ≡ false)
        × All (IsServed table) (map (λ w. w.target) g.primary)
        × All (IsServed table) (map (λ w. w.target) g.fallback)
  matched-IsServed name none g h = elim h [ ]
  matched-IsServed name (some group) g (_, _, something, primary, fallback, _, _) = (
    something,
    Written-IsServed group.primary g.primary primary,
    Written-IsServed group.fallback g.fallback fallback,
  )

  groups-IsServed :
      (name : String) (g : RoutingGroup)
      → get table.groups name ≡ some g
      → (is_empty g.primary ≡ false)
        × All (IsServed table) (map (λ w. w.target) g.primary)
        × All (IsServed table) (map (λ w. w.target) g.fallback)
  unfolding from_config_with read_by_router validate_sections
  groups-IsServed name g found =
      let groups = validate_groups raw (providers_of s raw).1 (aliases_of s raw).1 in
      let same : c.groups ≡ groups.1 = ap (λ r. r.groups) (validate-accepted s raw c e).1 in
      let found' = ap (λ m. get m name) (sym same) ∙ found in
      let matches =
        validate_groups-Matches raw (providers_of s raw).1 (aliases_of s raw).1 name document.groups
          known_aliases clean.groups in
      matched-IsServed name (get raw.groups name) g (
        subst
          (Matches (WrittenGroup raw (providers_of s raw).1 (aliases_of s raw).1 name)
            (get raw.groups name))
          found' matches)

  table-IsSound : IsSound table
  table-IsSound = record {
    aliases = aliases-IsServed;
    catalog = catalog-served;
    fallbacks = fallbacks-IsServed;
    groups = groups-IsServed;
  }

  -- Over the table built from an accepted configuration, whatever table came before, a requested name is
  -- planned with every target that was asked for: those of a group, each pool in some order, or the one
  -- target that the name resolves to with its fallbacks. No target is left out for want of its provider, and
  -- the only error is that of an unknown model, for a name that is no group. The names of the document's
  -- sections are distinct.
  pub validate-plan :
      (f : FloatOps) (draw : ℕ) (order order' : ℕ → ℕ) (requested : String)
      → IsPlanned
          (from_config_with (read_by_router c) prev)
          requested
          f
          draw
          (plan f draw order order' (from_config_with (read_by_router c) prev) requested)
  validate-plan f draw order order' requested =
      plan-IsPlanned table table-IsSound requested f draw order order'
