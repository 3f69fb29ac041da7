-- ===== src/Config/Chains.antt =====
-- What an accepted section of fallbacks holds: the proofs about `validate_fallbacks` of
-- crates/router-core/src/config/validate.rs.
use Prim.Native.String.{String}
use rapidrouter.Prelude.{
  ℕ, suc, ◌≡◌, sym, true, false, Option, none, some, List, [], ◌∷◌, ◌++◌, Map, is_empty, All, arith,
  Bool-cases, inl, inr, subst, eq_iff,
}
use rapidrouter.Router.Table.{TargetModel, same_target}
use rapidrouter.Config.Raw.{RawConfig}
use rapidrouter.Config.Checked.{Part, field, nth, Accepts, append-eq-nil}
use rapidrouter.Config.Aliases.{is_known, resolve_target_ref}
use rapidrouter.Config.Pools.{
  insert_chain, add_fallback, chain_targets, chain_of, fallbacks_onto, validate_fallbacks,
}
use rapidrouter.Config.Groups.{HasKnownAliases, resolve_target_ref-Accepts, All-concat}

same_target-eq : (a b : TargetModel) → same_target a b ≡ true → a ≡ b
unfolding same_target
same_target-eq a b h = ground (arith, eq_iff a.provider b.provider, eq_iff a.model b.model)

module _ {P : Type 0} (raw : RawConfig) (providers : Map P) where
  -- A fallback other than its source, at a known provider.
  abbrev pub IsFallback : TargetModel → TargetModel → Type 0
  IsFallback from t = (is_known raw providers t.provider ≡ true) × (same_target t from ≡ false)

  abbrev pub IsChain : TargetModel × List TargetModel → Type 0
  IsChain entry = All (IsFallback entry.0) entry.1

  insert_chain-All :
      (acc : List (TargetModel × List TargetModel)) (from : TargetModel) (chain : List TargetModel)
      → All IsChain acc
      → IsChain (from, chain)
      → All IsChain (insert_chain acc from chain)
  unfolding insert_chain
  insert_chain-All [] from chain all h = (h, tt)
  insert_chain-All ((key, old) ∷ rest) from chain all h = elim (Bool-cases (same_target from key)) [
    | inl here ↦ rw here (subst (λ k. IsChain (k, chain)) (same_target-eq from key here) h, all.1)
    | inr elsewhere ↦ rw elsewhere (all.0, insert_chain-All rest from chain all.1 h)
  ]

  module _ (aliases : Map TargetModel) (known : HasKnownAliases raw providers aliases) where
    add_fallback-All :
        (place : List Part) (from t : TargetModel) (targets : List TargetModel)
        → is_known raw providers t.provider ≡ true
        → All (IsFallback from) targets
        → Accepts (add_fallback raw providers aliases place from targets (some t))
        → All (IsFallback from) (add_fallback raw providers aliases place from targets (some t)).1
    unfolding add_fallback
    add_fallback-All place from t targets known' all accepted =
        elim (Bool-cases (same_target t from)) [
          | inl own ↦ absurd (ground arith)
          | inr other ↦ rw other (All-concat (IsFallback from) targets t all (known', other))
        ]

    chain_targets-All :
        (name : String) (from : TargetModel) (i : ℕ) (targets : List TargetModel)
        (entries : List String)
        → All (IsFallback from) targets
        → Accepts (chain_targets raw providers aliases name from i targets entries)
        → All (IsFallback from) (chain_targets raw providers aliases name from i targets entries).1
    unfolding chain_targets
    chain_targets-All name from i targets [] all accepted = all
    chain_targets-All name from i targets (entry ∷ rest) all accepted =
        let place = field "fallbacks" ∷ field name ∷ nth i ∷ [] in
        let found = resolve_target_ref raw providers aliases entry place in
        let (clean, clean') = append-eq-nil found.0 _ accepted in
        let (t, made, _, known') =
          resolve_target_ref-Accepts raw providers aliases entry place known clean in
        let added = add_fallback raw providers aliases place from targets in
        let (clean_add, clean_rest) = append-eq-nil (added found.1).0 _ clean' in
        let all' =
          add_fallback-All place from t targets known' all
            (subst (λ o. Accepts (added o)) made clean_add) in
        chain_targets-All name from (suc i) (added found.1).1 rest
          (subst (λ o. All (IsFallback from) (added o).1) (sym made) all') clean_rest

    chain_of-All :
        (name : String) (chain : List String) (acc : List (TargetModel × List TargetModel))
        (from : Option TargetModel)
        → All IsChain acc
        → Accepts (chain_of raw providers aliases name chain acc from)
        → All IsChain (chain_of raw providers aliases name chain acc from).1
    unfolding chain_of
    chain_of-All name chain acc none all accepted = all
    chain_of-All name chain acc (some from) all accepted = elim (Bool-cases (is_empty chain)) [
      | inl nothing ↦ rw nothing all
      | inr something ↦
          let made = chain_targets raw providers aliases name from 0 [] chain in
          let clean : made.0 ++ [] ≡ [] = ground arith in
          let (clean', _) = append-eq-nil made.0 [] clean in
          rw something (
            insert_chain-All acc from made.1 all (chain_targets-All name from 0 [] chain tt clean'))
    ]

    fallbacks_onto-All :
        (acc : List (TargetModel × List TargetModel)) (section : Map (List String))
        → All IsChain acc
        → Accepts (fallbacks_onto raw providers aliases acc section)
        → All IsChain (fallbacks_onto raw providers aliases acc section).1
    unfolding fallbacks_onto
    fallbacks_onto-All acc [] all accepted = all
    fallbacks_onto-All acc ((name, chain) ∷ rest) all accepted =
        let place = field "fallbacks" ∷ field name ∷ [] in
        let found = resolve_target_ref raw providers aliases name place in
        let (_, clean) = append-eq-nil found.0 _ accepted in
        let acc' = chain_of raw providers aliases name chain acc found.1 in
        let (clean_chain, clean_rest) = append-eq-nil acc'.0 _ clean in
        fallbacks_onto-All acc'.1 rest (chain_of-All name chain acc found.1 all clean_chain)
          clean_rest

    -- Every fallback of an accepted section is at a provider of the document, and is not the target that
    -- it is a fallback of, also where it is written as an alias. The aliases are those of accepted
    -- providers.
    pub validate_fallbacks-All :
        Accepts (validate_fallbacks raw providers aliases)
        → All IsChain (validate_fallbacks raw providers aliases).1
    unfolding validate_fallbacks
    validate_fallbacks-All accepted = fallbacks_onto-All [] raw.fallbacks tt accepted
