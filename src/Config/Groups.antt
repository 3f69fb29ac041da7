-- ===== src/Config/Groups.antt =====
-- What an accepted section of routing groups holds: the proofs about `validate_groups` of
-- crates/router-core/src/config/validate.rs.
use Prim.Native.String.{String}
use mathlib.Core.List.{append_assoc, append-nil}
use rapidrouter.Prelude.{
  ℕ, suc, ◌≡◌, refl, sym, ap, ◌∙◌, true, false, Option, none, some, List, [], ◌∷◌, ◌++◌, Map, get,
  is_empty, All, Pairs, any_of, no_text, arith, Bool-cases, Option-cases, inl, inr, subst,
}
use rapidrouter.Router.Table.{TargetModel, WeightedTarget, RoutingGroup, same_target, parse_target}
use rapidrouter.Config.Raw.{RawConfig, RawGroup, RawGroupTarget}
use rapidrouter.Config.Checked.{
  Part, field, nth, ◌>>=◌, Accepts, append-eq-nil, >>=-Accepts, HasDistinctNames, Matches,
  validate_each-Matches,
}
use rapidrouter.Config.Aliases.{is_known, resolve_target_ref}
use rapidrouter.Config.Numbers.{is_positive}
use rapidrouter.Config.Pools.{
  push_target, add_target, group_pool, both_pools, group_of, check_group, validate_groups,
}

-- No target stands twice in a pool.
abbrev pub HasDistinctTargets : List WeightedTarget → Type 0
HasDistinctTargets [] = Unit {0}
HasDistinctTargets (w ∷ rest) =
    All (λ v. same_target w.target v.target ≡ false) rest × HasDistinctTargets rest

pub All-concat :
    {A : Type 0} (P : A → Type 0) (xs : List A) (x : A) → All P xs → P x → All P (xs ++ (x ∷ []))
All-concat P [] x all h = (h, tt)
All-concat P (y ∷ xs) x all h = (all.0, All-concat P xs x all.1 h)

HasDistinctTargets-concat :
    (pool : List WeightedTarget) (w : WeightedTarget)
    → HasDistinctTargets pool
    → any_of (λ v. same_target v.target w.target) pool ≡ false
    → HasDistinctTargets (pool ++ (w ∷ []))
HasDistinctTargets-concat [] w distinct new = (tt, tt)
HasDistinctTargets-concat (v ∷ pool) w distinct new = (
  All-concat (λ u. same_target v.target u.target ≡ false) pool w distinct.0 (ground arith),
  HasDistinctTargets-concat pool w distinct.1 (ground arith),
)

-- How a target written in the document is read: an alias, or `provider/model`.
unfoldable pub read_target : Map TargetModel → String → Option TargetModel
read_target aliases s = elim (get aliases s) [ some target ↦ some target | none ↦ parse_target s ]

module _ {P : Type 0} (raw : RawConfig) (providers : Map P) (aliases : Map TargetModel) where
  -- Every alias goes to a provider of the document.
  abbrev pub HasKnownAliases : Type 0
  HasKnownAliases =
      (name : String) (t : TargetModel)
      → get aliases name ≡ some t
      → is_known raw providers t.provider ≡ true

  -- The entry of a pool that an entry of the document stands for.
  abbrev pub Written : RawGroupTarget → WeightedTarget → Type 0
  Written e w =
      (w.weight ≡ e.weight)
      × (is_positive e.weight ≡ true)
      × (get raw.groups e.target ≡ none)
      × (read_target aliases e.target ≡ some w.target)
      × (is_known raw providers w.target.provider ≡ true)

  -- A group and its description in the document.
  abbrev pub WrittenGroup : String → RawGroup → RoutingGroup → Type 0
  WrittenGroup name group g =
      (get raw.providers name ≡ none)
      × (get aliases name ≡ none)
      × (is_empty g.primary ≡ false)
      × Pairs Written group.primary g.primary
      × Pairs Written group.fallback g.fallback
      × HasDistinctTargets g.primary
      × HasDistinctTargets g.fallback

  pub resolve_target_ref-Accepts :
      (s : String) (place : List Part)
      → HasKnownAliases
      → Accepts (resolve_target_ref raw providers aliases s place)
      → (t : TargetModel) × ((resolve_target_ref raw providers aliases s place).1 ≡ some t)
        × (read_target aliases s ≡ some t)
        × (is_known raw providers t.provider ≡ true)
  unfolding resolve_target_ref read_target
  resolve_target_ref-Accepts s place known accepted = elim (Option-cases (get aliases s)) [
    | inr (t, found) ↦ (t, ground arith, ground arith, known s t found)
    | inl no_alias ↦ elim (Option-cases (parse_target s)) [
      | inl malformed ↦ absurd (ground arith)
      | inr (t, parsed) ↦ elim (Bool-cases (is_known raw providers t.provider)) [
        | inl known' ↦ (t, ground arith, ground arith, known')
        | inr unknown ↦ absurd (ground arith)
      ]
    ]
  ]

  push_target-Accepts :
      (place : List Part) (e : RawGroupTarget) (pool : List WeightedTarget) (t : TargetModel)
      → HasDistinctTargets pool
      → Accepts (push_target raw providers aliases place e.weight pool (some t))
      → let w : WeightedTarget = record { target = t; weight = e.weight } in
        ((push_target raw providers aliases place e.weight pool (some t)).1 ≡ pool ++ (w ∷ []))
        × HasDistinctTargets (pool ++ (w ∷ []))
  unfolding push_target
  push_target-Accepts place e pool t distinct accepted =
      elim (Bool-cases (any_of (λ w. same_target w.target t) pool)) [
        | inl twice ↦ absurd (ground arith)
        | inr new ↦
            let w : WeightedTarget = record { target = t; weight = e.weight } in
            (rw new refl, HasDistinctTargets-concat pool w distinct new)
      ]

  add_target-guards :
      (place : List Part) (pool : List WeightedTarget) (e : RawGroupTarget)
      → Accepts (add_target raw providers aliases place pool e)
      → (is_positive e.weight ≡ true)
        × (get raw.groups e.target ≡ none)
        × (add_target raw providers aliases place pool e ≡ (
            resolve_target_ref raw providers aliases e.target (place ++ (field "target" ∷ []))
            >>= push_target raw providers aliases place e.weight pool))
  unfolding add_target
  add_target-guards place pool e accepted = elim (Bool-cases (is_positive e.weight)) [
    | inr bad ↦ absurd (ground arith)
    | inl positive ↦ elim (Option-cases (get raw.groups e.target)) [
      | inr (g, nested) ↦ absurd (ground arith)
      | inl model ↦ (positive, model, rw (positive, model) refl)
    ]
  ]

  add_target-Accepts :
      (place : List Part) (pool : List WeightedTarget) (e : RawGroupTarget)
      → HasKnownAliases
      → HasDistinctTargets pool
      → Accepts (add_target raw providers aliases place pool e)
      → (w : WeightedTarget) × ((add_target raw providers aliases place pool e).1
          ≡ pool ++ (w ∷ []))
        × Written e w
        × HasDistinctTargets (pool ++ (w ∷ []))
  add_target-Accepts place pool e known distinct accepted =
      let place' = place ++ (field "target" ∷ []) in
      let (positive, model, same) = add_target-guards place pool e accepted in
      let target = resolve_target_ref raw providers aliases e.target place' in
      let push = push_target raw providers aliases place e.weight pool in
      let clean : Accepts (target >>= push) = subst Accepts same accepted in
      let (clean_target, clean_push) = >>=-Accepts target push clean in
      let (t, found, read, known') =
        resolve_target_ref-Accepts e.target place' known clean_target in
      let (pushed, distinct') =
        push_target-Accepts place e pool t distinct (rw (← found) clean_push) in
      (
        record { target = t; weight = e.weight },
        ap (λ r. r.1) same ∙ ap (λ o. (push o).1) found ∙ pushed,
        (refl, positive, model, read, known'),
        distinct',
      )

  -- A clean pool has the entries of the document in their order, and no target twice.
  group_pool-Accepts :
      (place : List Part) (i : ℕ) (pool : List WeightedTarget) (entries : List RawGroupTarget)
      → HasKnownAliases
      → HasDistinctTargets pool
      → Accepts (group_pool raw providers aliases place i pool entries)
      → (added : List WeightedTarget) × ((group_pool raw providers aliases place i pool entries).1
          ≡ pool ++ added)
        × Pairs Written entries added
        × HasDistinctTargets (pool ++ added)
  unfolding group_pool
  group_pool-Accepts place i pool [] known distinct accepted =
      ([], sym (append-nil pool), tt, rw append-nil distinct)
  group_pool-Accepts place i pool (e ∷ rest) known distinct accepted =
      let place' = place ++ (nth i ∷ []) in
      let (clean, clean') =
        >>=-Accepts (add_target raw providers aliases place' pool e)
          (λ pool'. group_pool raw providers aliases place (suc i) pool' rest) accepted in
      let (w, added, written, distinct') = add_target-Accepts place' pool e known distinct clean in
      let (ws, all, pairs, distinct'') =
        group_pool-Accepts place (suc i) (pool ++ (w ∷ [])) rest known distinct'
          (rw (← added) clean') in
      (
        w ∷ ws,
        ap (λ p. (group_pool raw providers aliases place (suc i) p rest).1) added
            ∙ all
            ∙ append_assoc pool (w ∷ []) ws,
        (written, pairs),
        subst HasDistinctTargets (append_assoc pool (w ∷ []) ws) distinct'',
      )

  Pairs-is_empty :
      (entries : List RawGroupTarget) (ws : List WeightedTarget)
      → is_empty entries ≡ false
      → Pairs Written entries ws
      → is_empty ws ≡ false
  Pairs-is_empty [] ws some_entry pairs = cc
  Pairs-is_empty (e ∷ rest) [] some_entry pairs = elim pairs [ ]
  Pairs-is_empty (e ∷ rest) (w ∷ ws) some_entry pairs = refl

  check_group-guards :
      (name : String) (group : RawGroup)
      → Accepts (check_group raw providers aliases name group)
      → (get raw.providers name ≡ none)
        × (get aliases name ≡ none)
        × (is_empty group.primary ≡ false)
        × (check_group raw providers aliases name group
            ≡ both_pools raw providers aliases name group)
  unfolding check_group
  check_group-guards name group accepted = elim (Bool-cases (no_text name)) [
    | inl nameless ↦ absurd (ground arith)
    | inr named ↦ elim (Option-cases (get raw.providers name)) [
      | inr (p, taken) ↦ absurd (ground arith)
      | inl free ↦ elim (Option-cases (get aliases name)) [
        | inr (t, taken) ↦ absurd (ground arith)
        | inl free' ↦ elim (Bool-cases (is_empty group.primary)) [
          | inl nothing ↦ absurd (ground arith)
          | inr something ↦ (free, free', something, rw (named, free, free', something) refl)
        ]
      ]
    ]
  ]

  check_group-Accepts :
      (name : String) (group : RawGroup)
      → HasKnownAliases
      → Accepts (check_group raw providers aliases name group)
      → (g : RoutingGroup) × ((check_group raw providers aliases name group).1 ≡ some g)
        × WrittenGroup name group g
  unfolding both_pools group_of
  check_group-Accepts name group known accepted =
      let place = field "groups" ∷ field name ∷ [] in
      let primary =
        group_pool raw providers aliases (place ++ (field "primary" ∷ [])) 0 [] group.primary in
      let fallback =
        group_pool raw providers aliases (place ++ (field "fallback" ∷ [])) 0 [] group.fallback in
      let (free, free', something, same) = check_group-guards name group accepted in
      let clean : Accepts (both_pools raw providers aliases name group) =
        subst Accepts same accepted in
      let (clean_primary, clean_rest) = append-eq-nil primary.0 _ clean in
      let (clean_fallback, _) = append-eq-nil fallback.0 _ clean_rest in
      let (ws, made, pairs, distinct) =
        group_pool-Accepts (place ++ (field "primary" ∷ [])) 0 [] group.primary known tt
          clean_primary in
      let (vs, made', pairs', distinct') =
        group_pool-Accepts (place ++ (field "fallback" ∷ [])) 0 [] group.fallback known tt
          clean_fallback in
      let something' = Pairs-is_empty group.primary ws something pairs in
      let g : RoutingGroup = record { primary = ws; fallback = vs } in
      let whole : (both_pools raw providers aliases name group).1 ≡ some g =
        rw (made, made', something') refl in
      (g, ap (λ r. r.1) same ∙ whole, (free, free', something', pairs, pairs', distinct, distinct'))

  -- An accepted section of groups is carried over whole: it has the groups of the document and no others;
  -- no name of one is that of a provider or an alias; and each of its pools has the entries as written, in
  -- their order, with positive finite weights, each a model of a provider of the document and none twice,
  -- with at least one in the primary pool. The aliases are those of accepted providers and the names of
  -- the groups distinct.
  pub validate_groups-Matches :
      (name : String)
      → HasDistinctNames raw.groups
      → HasKnownAliases
      → Accepts (validate_groups raw providers aliases)
      → Matches
          (WrittenGroup name)
          (get raw.groups name)
          (get (validate_groups raw providers aliases).1 name)
  unfolding validate_groups
  validate_groups-Matches name distinct known accepted =
      validate_each-Matches (check_group raw providers aliases) WrittenGroup
        (λ n group. check_group-Accepts n group known) raw.groups name distinct accepted
