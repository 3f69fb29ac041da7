-- ===== src/Router/Sound.antt =====
-- Planning in crates/router-core/src/router.rs over a table whose targets are all at its own providers,
-- as a validated configuration makes it.
use Prim.Native.String.{String}
use mathlib.Core.Logic.Or
use mathlib.Core.List.{Perm, Mem, mem-cons, mem-cons_self, mem-cons_of_mem, mem-append, not-mem-nil}
use mathlib.Core.List.Perm
use rapidrouter.Prelude.{
  ℕ, ◌≡◌, refl, sym, subst, true, false, Option, none, some, List, [], ◌∷◌, ◌++◌, map, get, All,
  Pairs, is_some, is_empty, arith, Bool-cases, Option-cases, inl, inr, ◌⊎◌,
}
use rapidrouter.Router.Floats.{FloatOps}
use rapidrouter.Router.Table.{
  TargetModel, parse_target, WeightedTarget, RoutingGroup, RoutingTable, unknown_model,
  unconfigured_provider, no_usable_target, panicked, Result, ok, err, ResolvedRoute, RoutePlan,
  fallbacks_for, pushed, weighted_pick_target, weighted_order, plan_for, resolve_target, by_catalog,
  by_prefix, by_alias, by_group, picked, pick_loop, total_weight, route_to, usable, plan_of,
  plan_single, plan_group, plan,
}
use rapidrouter.Router.Plan.{weighted_order-perm}

abbrev pub IsServed : RoutingTable → TargetModel → Type 0
IsServed t target = is_some (get t.providers target.provider) ≡ true

-- Every target that the table names is at one of its providers, and no group is without a primary target.
pub record IsSound (t : RoutingTable) : Type 0 where
  pub aliases : (name : String) (x : TargetModel) → get t.aliases name ≡ some x → IsServed t x
  pub catalog :
      (name provider : String)
      → get t.catalog name ≡ some provider
      → is_some (get t.providers provider) ≡ true
  pub fallbacks : (x : TargetModel) → All (IsServed t) (fallbacks_for t.fallbacks x)
  pub groups :
      (name : String) (g : RoutingGroup)
      → get t.groups name ≡ some g
      → (is_empty g.primary ≡ false)
        × All (IsServed t) (map (λ w. w.target) g.primary)
        × All (IsServed t) (map (λ w. w.target) g.fallback)

-- The route is that of the target.
abbrev pub Routes : RoutingTable → String → TargetModel → ResolvedRoute → Type 0
Routes t requested target r = route_to t target requested ≡ ok r

route_to-served :
    (t : RoutingTable) (target : TargetModel) (requested : String)
    → IsServed t target
    → (r : ResolvedRoute) × (route_to t target requested ≡ ok r)
unfolding route_to
route_to-served t target requested served = elim (Option-cases (get t.providers target.provider)) [
  | inl absent ↦ absurd (ground arith)
  | inr (p, found) ↦ (record { provider = p; upstream_model = target.model }, ground arith)
]

usable-Pairs :
    (t : RoutingTable) (requested : String) (targets : List TargetModel)
    → ((x : TargetModel) → Mem x targets → IsServed t x)
    → Pairs (Routes t requested) targets (usable t requested targets)
unfolding usable pushed
usable-Pairs t requested [] served = tt
usable-Pairs t requested (x ∷ rest) served =
    let (r, found) = route_to-served t x requested (served x mem-cons_self) in
    let routes = usable-Pairs t requested rest (λ y m. served y (mem-cons_of_mem x m)) in
    subst (λ o. Pairs (Routes t requested) (x ∷ rest) (pushed o (usable t requested rest)))
      (sym found) (found, routes)

IsServed-mem :
    (t : RoutingTable) (x : TargetModel) (targets : List TargetModel)
    → All (IsServed t) targets
    → Mem x targets
    → IsServed t x
IsServed-mem t x [] all m = absurd (not-mem-nil m)
IsServed-mem t x (y ∷ rest) all m =
    Or.elim (hlevel) (mem-cons.0 m) (λ e. rw e all.0) (λ m'. IsServed-mem t x rest all.1 m')

-- What an order of the two pools of a group holds is served.
IsServed-orders :
    (t : RoutingTable) (first second primary fallback : List TargetModel)
    → Perm first primary
    → Perm second fallback
    → All (IsServed t) primary
    → All (IsServed t) fallback
    → (x : TargetModel) → Mem x (first ++ second)
    → IsServed t x
IsServed-orders t first second primary fallback p q all all' x m =
    Or.elim (hlevel) (mem-append.0 m) (λ m'. IsServed-mem t x primary all ((Perm.mem_iff p).0 m'))
      (λ m'. IsServed-mem t x fallback all' ((Perm.mem_iff q).0 m'))

pick_loop-All :
    (f : FloatOps) (t : RoutingTable) (roll : ℕ) (pool : List WeightedTarget)
    → is_empty pool ≡ false
    → All (IsServed t) (map (λ w. w.target) pool)
    → (x : TargetModel) × (pick_loop f roll pool ≡ some x) × IsServed t x
unfolding pick_loop
pick_loop-All f t roll [] something all = cc
pick_loop-All f t roll (w ∷ []) something all = (w.target, refl, all.0)
pick_loop-All f t roll (w ∷ v ∷ rest) something all =
    elim (Bool-cases (f.le_zero (f.sub roll w.weight))) [
      | inl taken ↦ (w.target, rw taken refl, all.0)
      | inr passed ↦
          let (x, found, served) = pick_loop-All f t (f.sub roll w.weight) (v ∷ rest) refl all.1 in
          (x, rw passed found, served)
    ]

a_target :
    (pool : List WeightedTarget)
    → is_empty pool ≡ false
    → (x : TargetModel) × Mem x (map (λ w. w.target) pool)
a_target [] something = cc
a_target (w ∷ rest) something = (w.target, mem-cons_self)

Pairs-is_empty :
    (t : RoutingTable) (requested : String) (x : TargetModel) (targets : List TargetModel)
    (routes : List ResolvedRoute)
    → Mem x targets
    → Pairs (Routes t requested) targets routes
    → is_empty routes ≡ false
Pairs-is_empty t requested x [] routes m pairs = absurd (not-mem-nil m)
Pairs-is_empty t requested x (y ∷ rest) [] m pairs = elim pairs [ ]
Pairs-is_empty t requested x (y ∷ rest) (r ∷ routes) m pairs = refl

-- A requested name resolves to a target that is served, or is reported as unknown and is no group.
abbrev pub IsSettled : RoutingTable → String → Result TargetModel → Type 0
IsSettled t requested (ok x) = IsServed t x
IsSettled t requested (err (unknown_model name)) =
    (name ≡ requested) × (get t.groups requested ≡ none)
IsSettled t requested (err _) = ⊥

-- What a plan answers: a plan of every target that was asked for, in the order of the pools or of the
-- fallback chain, or an unknown model.
abbrev pub IsPlanned : RoutingTable → String → FloatOps → ℕ → Result RoutePlan → Type 0
IsPlanned t requested f draw (err (unknown_model name)) =
    (name ≡ requested) × (get t.groups requested ≡ none)
IsPlanned t requested f draw (err _) = ⊥
IsPlanned t requested f draw (ok p) =
    (targets : List TargetModel) × Pairs (Routes t requested) targets p.targets
    × (((g : RoutingGroup) × (first : List TargetModel) × (second : List TargetModel) × (get
              t.groups requested
            ≡ some g)
          × (targets ≡ first ++ second)
          × Perm first (map (λ w. w.target) g.primary)
          × Perm second (map (λ w. w.target) g.fallback))
        ⊎ ((x : TargetModel) × (get t.groups requested ≡ none)
            × (resolve_target f draw t requested ≡ ok x)
            × (targets ≡ x ∷ fallbacks_for t.fallbacks x)))

module _ (t : RoutingTable) (sound : IsSound t) (requested : String) where
  by_catalog-IsSettled :
      get t.groups requested ≡ none → IsSettled t requested (by_catalog t requested)
  unfolding by_catalog
  by_catalog-IsSettled no_group = elim (Option-cases (get t.catalog requested)) [
    | inl unlisted ↦
        let same : by_catalog t requested ≡ err (unknown_model requested) = ground arith in
        rw same (refl, no_group)
    | inr (provider, found) ↦
        let x : TargetModel = record { provider = provider; model = requested } in
        let same : by_catalog t requested ≡ ok x = ground arith in
        rw same (sound.catalog requested provider found)
  ]

  by_prefix-IsSettled :
      (parsed : Option TargetModel)
      → get t.groups requested ≡ none
      → IsSettled t requested (by_prefix t requested parsed)
  unfolding by_prefix
  by_prefix-IsSettled none no_group = by_catalog-IsSettled no_group
  by_prefix-IsSettled (some x) no_group = elim (Bool-cases (is_some (get t.providers x.provider))) [
    | inl there ↦ rw there there
    | inr absent ↦ rw absent (by_catalog-IsSettled no_group)
  ]

  pub resolve_target-IsSettled :
      (f : FloatOps) (draw : ℕ) → IsSettled t requested (resolve_target f draw t requested)
  unfolding resolve_target by_group by_alias picked weighted_pick_target
  resolve_target-IsSettled f draw = elim (Option-cases (get t.groups requested)) [
    | inr (g, found) ↦
        let (something, primary, _) = sound.groups requested g found in
        let roll = f.mul draw (total_weight f 0 g.primary) in
        let (x, drawn, served) = pick_loop-All f t roll g.primary something primary in
        rw (found, drawn) served
    | inl no_group ↦ elim (Option-cases (get t.aliases requested)) [
      | inl no_alias ↦
          rw (no_group, no_alias) (by_prefix-IsSettled (parse_target requested) no_group)
      | inr (x, found) ↦ rw (no_group, found) (sound.aliases requested x found)
    ]
  ]

  plan_group-IsPlanned :
      (f : FloatOps) (draw : ℕ) (order order' : ℕ → ℕ) (g : RoutingGroup)
      → get t.groups requested ≡ some g
      → IsPlanned t requested f draw (plan_group f order order' t requested g)
  unfolding plan_group plan_of
  plan_group-IsPlanned f draw order order' g found =
      let first = weighted_order f order g.primary in
      let second = weighted_order f order' g.fallback in
      let p = weighted_order-perm f order g.primary in
      let q = weighted_order-perm f order' g.fallback in
      let (something, primary, fallback) = sound.groups requested g found in
      let routes = usable-Pairs t requested (first ++ second) (
        IsServed-orders t first second (map (λ w. w.target) g.primary)
          (map (λ w. w.target) g.fallback) p q primary fallback) in
      let (x, at) = a_target g.primary something in
      let there = mem-append.1 (Or.inl ((Perm.mem_iff p).1 at)) in
      let reached =
        Pairs-is_empty t requested x (first ++ second) (usable t requested (first ++ second)) there
          routes in
      let same : plan_group f order order' t requested g
          ≡ ok (plan_of t (usable t requested (first ++ second))) =
        rw reached refl in
      rw same (first ++ second, routes, inl (g, first, second, found, refl, p, q))

  single-IsPlanned :
      (f : FloatOps) (draw : ℕ)
      → get t.groups requested ≡ none
      → (settled : Result TargetModel) → resolve_target f draw t requested ≡ settled
      → IsSettled t requested settled
      → IsPlanned t requested f draw (plan_single f draw t requested)
  unfolding plan_single plan_of
  single-IsPlanned f draw no_group (ok x) e served =
      let rest = fallbacks_for t.fallbacks x in
      let (r, routed) = route_to-served t x requested served in
      let routes =
        usable-Pairs t requested rest (λ y m. IsServed-mem t y rest (sound.fallbacks x) m) in
      let same : plan_single f draw t requested ≡ ok (plan_of t (r ∷ usable t requested rest)) =
        rw (e, routed) refl in
      rw same (x ∷ rest, (routed, routes), inr (x, no_group, e, refl))
  single-IsPlanned f draw no_group (err (unknown_model name)) e h =
      let same : plan_single f draw t requested ≡ err (unknown_model name) = rw e refl in rw same h
  single-IsPlanned f draw no_group (err (unconfigured_provider a b)) e h = elim h [ ]
  single-IsPlanned f draw no_group (err (no_usable_target a)) e h = elim h [ ]
  single-IsPlanned f draw no_group (err panicked) e h = elim h [ ]

  plan_single-IsPlanned :
      (f : FloatOps) (draw : ℕ)
      → get t.groups requested ≡ none
      → IsPlanned t requested f draw (plan_single f draw t requested)
  unfolding plan_single plan_of
  plan_single-IsPlanned f draw no_group =
      single-IsPlanned f draw no_group (resolve_target f draw t requested) refl
        (resolve_target-IsSettled f draw)

  -- Over a table whose targets are all at its own providers a plan has every target that was asked for, and
  -- the only error is that of an unknown model.
  pub plan-IsPlanned :
      (f : FloatOps) (draw : ℕ) (order order' : ℕ → ℕ)
      → IsPlanned t requested f draw (plan f draw order order' t requested)
  unfolding plan plan_for
  plan-IsPlanned f draw order order' = elim (Option-cases (get t.groups requested)) [
    | inl no_group ↦ rw no_group (plan_single-IsPlanned f draw no_group)
    | inr (g, found) ↦ rw found (plan_group-IsPlanned f draw order order' g found)
  ]
