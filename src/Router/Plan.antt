-- ===== src/Router/Plan.antt =====
-- What a plan of crates/router-core/src/router.rs holds, for groups and for single targets.
use Prim.Native.Char.{Char}
use Prim.Native.String.{String}
use Prim.Native.String.append
use mathlib.Core.List.{Perm}
use mathlib.Core.List.Perm
use rapidrouter.Prelude.{
  ℕ, suc, ◌≤◌, ◌≡◌, refl, if◌then◌else◌, subst, ap, false, some, List, [], ◌∷◌, ◌++◌, map, get, All,
  length, is_empty, ltb, Lacks, no_text, split_once-join, Bool-cases, Option-cases, inl, inr, arith,
}
use rapidrouter.Router.Floats.{FloatOps}
use rapidrouter.Router.Pick.{sort_by-perm}
use rapidrouter.Router.Table.{
  TargetModel, parse_target, show_target, slash, WeightedTarget, RoutingGroup, RoutingTable, Result,
  ok, err, no_usable_target, ResolvedRoute, RoutePlan, fallbacks_for, >>=-eq-ok, key_all,
  weighted_order, resolve_target, route_to, pushed, plan_of, plan_single, plan_for, usable,
  plan_group, plan,
}

key_all-targets :
    (f : FloatOps) (draw : ℕ → ℕ) (i : ℕ) (pool : List WeightedTarget)
    → map (λ kt. kt.1) (key_all f draw i pool) ≡ map (λ w. w.target) pool
unfolding key_all
key_all-targets f draw i [] = refl
key_all-targets f draw i (w ∷ pool) = ap (λ ts. w.target ∷ ts) (key_all-targets f draw (suc i) pool)

-- A weighted order draws every target of the pool once, whatever the draws and the floats.
pub weighted_order-perm :
    (f : FloatOps) (draw : ℕ → ℕ) (pool : List WeightedTarget)
    → Perm (weighted_order f draw pool) (map (λ w. w.target) pool)
unfolding weighted_order
weighted_order-perm f draw pool = elim (Bool-cases (ltb (length pool) 2)) [
  | inl short ↦ rw short (Perm.refl (map (λ w. w.target) pool))
  | inr long ↦
      rw (long, ← key_all-targets f draw 0 pool)
        (Perm.map (λ kt. kt.1) (sort_by-perm (λ a b. f.total_le b.0 a.0) (key_all f draw 0 pool)))
]

usable-append :
    (t : RoutingTable) (requested : String) (ts bs : List TargetModel)
    → usable t requested (ts ++ bs) ≡ usable t requested ts ++ usable t requested bs
unfolding usable
usable-append t requested [] bs = refl
usable-append t requested (a ∷ ts) bs = ground (arith, usable-append t requested ts bs)

-- A route to a configured provider of the table.
abbrev pub IsRouted : RoutingTable → ResolvedRoute → Type 0
IsRouted t r = (name : String) × (get t.providers name ≡ some r.provider)

route_to-IsRouted :
    (t : RoutingTable) (target : TargetModel) (requested : String) (r : ResolvedRoute)
    → route_to t target requested ≡ ok r
    → IsRouted t r
unfolding route_to
route_to-IsRouted t target requested r e = (target.provider, ground arith)

pushed-All :
    (P : ResolvedRoute → Type 0) (r : Result ResolvedRoute) (rest : List ResolvedRoute)
    → ((x : ResolvedRoute) → r ≡ ok x → P x)
    → All P rest
    → All P (pushed r rest)
unfolding pushed
pushed-All P (ok x) rest h all = (h x refl, all)
pushed-All P (err e) rest h all = all

usable-IsRouted :
    (t : RoutingTable) (requested : String) (targets : List TargetModel)
    → All (IsRouted t) (usable t requested targets)
unfolding usable
usable-IsRouted t requested [] = tt
usable-IsRouted t requested (target ∷ rest) =
    pushed-All (IsRouted t) (route_to t target requested) (usable t requested rest)
      (route_to-IsRouted t target requested) (usable-IsRouted t requested rest)

-- What a dispatch loop needs of a plan: a target to begin with, each at a configured provider, and at
-- least one attempt for each.
abbrev pub IsUsable : RoutingTable → RoutePlan → Type 0
IsUsable t p =
    (is_empty p.targets ≡ false) × All (IsRouted t) p.targets × (1 ≤ p.max_attempts_per_target)

plan_group-IsUsable :
    (f : FloatOps) (order order' : ℕ → ℕ) (t : RoutingTable) (requested : String)
    (group : RoutingGroup) (p : RoutePlan)
    → plan_group f order order' t requested group ≡ ok p
    → IsUsable t p
unfolding plan_group plan_of
plan_group-IsUsable f order order' t requested group p e =
    let all = weighted_order f order group.primary ++ weighted_order f order' group.fallback in
    let routes = usable-IsRouted t requested all in
    elim (Bool-cases (is_empty (usable t requested all))) [
      | inl nothing ↦ absurd (ground arith)
      | inr something ↦
          let same : p ≡ plan_of t (usable t requested all) = ground arith in
          rw same (something, routes, omega arith)
    ]

plan_of-IsUsable :
    (t : RoutingTable) (first : ResolvedRoute) (rest : List ResolvedRoute)
    → IsRouted t first
    → All (IsRouted t) rest
    → IsUsable t (plan_of t (first ∷ rest))
unfolding plan_of
plan_of-IsUsable t first rest h all = (refl, (h, all), omega arith)

plan_single-IsUsable :
    (f : FloatOps) (draw : ℕ) (t : RoutingTable) (requested : String) (p : RoutePlan)
    → plan_single f draw t requested ≡ ok p
    → IsUsable t p
unfolding plan_single
plan_single-IsUsable f draw t requested p e =
    let (primary, found, e') = >>=-eq-ok (resolve_target f draw t requested) _ e in
    let (first, routed, e'') = >>=-eq-ok (route_to t primary requested) _ e' in
    let rest = usable t requested (fallbacks_for t.fallbacks primary) in
    let same : plan_of t (first ∷ rest) ≡ p = cc in
    subst (IsUsable t) same (
      plan_of-IsUsable t first rest (route_to-IsRouted t primary requested first routed)
        (usable-IsRouted t requested (fallbacks_for t.fallbacks primary)))

-- Every plan, of a group or of a single target with its fallbacks, is usable: fallbacks to providers
-- that are gone are left out.
pub plan-IsUsable :
    (f : FloatOps) (draw : ℕ) (order order' : ℕ → ℕ) (t : RoutingTable) (requested : String)
    (p : RoutePlan)
    → plan f draw order order' t requested ≡ ok p
    → IsUsable t p
unfolding plan plan_for
plan-IsUsable f draw order order' t requested p e = elim (Option-cases (get t.groups requested)) [
  | inl single ↦ plan_single-IsUsable f draw t requested p (ground arith)
  | inr (group, found) ↦ plan_group-IsUsable f order order' t requested group p (ground arith)
]

-- A requested group is planned from its own pools alone, before any alias or provider of that name: the
-- usable targets of some order of its primary pool, then those of some order of its fallback pool, each
-- order a permutation of the pool; and an error only when none of them is usable.
pub plan-group :
    (f : FloatOps) (draw : ℕ) (order order' : ℕ → ℕ) (t : RoutingTable) (requested : String)
    (g : RoutingGroup)
    → get t.groups requested ≡ some g
    → (first : List TargetModel) × (second : List TargetModel) × Perm first
        (map (λ w. w.target) g.primary)
      × Perm second (map (λ w. w.target) g.fallback)
      × (let targets = usable t requested first ++ usable t requested second in
          plan f draw order order' t requested
          ≡ (if is_empty targets then err (no_usable_target requested) else ok (plan_of t targets)))
unfolding plan plan_for plan_group
plan-group f draw order order' t requested g found =
    let first = weighted_order f order g.primary in
    let second = weighted_order f order' g.fallback in
    (
      first,
      second,
      weighted_order-perm f order g.primary,
      weighted_order-perm f order' g.fallback,
      rw (found, ← usable-append t requested first second),
    )

-- A target printed as `provider/model` is read back, when both are there and the provider has no `/`.
pub parse_target-show_target :
    (t : TargetModel)
    → Lacks slash t.provider
    → no_text t.provider ≡ false
    → no_text t.model ≡ false
    → parse_target (show_target t) ≡ some t
unfolding parse_target show_target
parse_target-show_target t lacks p m =
    let bar : Char = "/" in
    rw (
      append.cons bar String.[] t.model,
      append.nil t.model,
      split_once-join t.provider t.model bar lacks,
      p,
      m,
    )
