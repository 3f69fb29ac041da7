-- ===== src/Router/Holding.antt =====
-- crates/router-core/src/router.rs: what a service holds in a pool, and the three reasons why a pool has
-- nothing to offer.
use Prim.Native.String.{String}
use rapidrouter.Prelude.{
  ℕ, ◌+◌, ◌≤◌, ◌≡◌, refl, Bool, true, false, not, ◌&&◌, Option, none, some, List, [], ◌∷◌,
  get_elem?, set, keep, length, is_empty, all_of, length-keep-le, max, if◌then◌else◌, arith,
}
use rapidrouter.Breaker.{looks_healthy, is_benched}
use rapidrouter.Router.Key.{KeyRuntime, has_headroom}
use rapidrouter.Router.Pool.{
  ProviderRuntime, Env, KeyChoice, test_at, owned_keys, healthy_keys, admit_for,
}
use rapidrouter.Router.Members.{has}
use rapidrouter.Router.Selection.{Outcome}
use rapidrouter.Router.Ownership.{MaySpend, Owns-owned_by, owned_keys-has, admit_for-MaySpend}

pub record Holding : Type 0 where
  pub owned : ℕ
  pub usable : ℕ

unfoldable pub holding_loop : List KeyRuntime → ℕ → Holding → List ℕ → Holding
unfolding test_at
holding_loop keys now_ms h [] = h
holding_loop keys now_ms h (i ∷ mine) =
    holding_loop keys now_ms
      (record {
        owned = h.owned + 1;
        usable =
            if test_at (λ k. looks_healthy k.breaker now_ms) keys i then h.usable + 1 else h.usable;
      })
      mine

unfoldable pub holding : ProviderRuntime → Option String → Option String → ℕ → Holding
unfolding holding_loop owned_keys
holding p model tenant now_ms =
    holding_loop p.keys now_ms (record { owned = 0; usable = 0 }) (owned_keys p model tenant)

unfoldable pub healthy_key_count : ProviderRuntime → Option String → Option String → ℕ → ℕ
unfolding holding
healthy_key_count p model tenant now_ms =
    if is_empty p.keys then 1 else max (holding p model tenant now_ms).usable 1

-- Every eligible key is benched, and there is one.
unfoldable pub all_keys_benched : ProviderRuntime → Option String → Option String → ℕ → Bool
unfolding owned_keys test_at
all_keys_benched p model tenant now_ms =
    let mine = owned_keys p model tenant in
    not (is_empty mine) && all_of (test_at (λ k. is_benched k.breaker now_ms) p.keys) mine

-- The keys are read until one has headroom; reading credits their buckets.
unfoldable pub ceiling_loop : ℕ → List ℕ → List KeyRuntime → List KeyRuntime × Bool
ceiling_loop now_ms [] keys = (keys, true)
ceiling_loop now_ms (i ∷ rest) keys = elim (get_elem? keys i) [
  | none ↦ (keys, true)
  | some k ↦
      let (k', headroom) = has_headroom k now_ms in
      let later = ceiling_loop now_ms rest (set keys i k') in
      if headroom then (set keys i k', false) else later
]

unfoldable pub all_keys_at_ceiling :
    ProviderRuntime → Option String → Option String → ℕ → ProviderRuntime × Bool
unfolding ceiling_loop healthy_keys
all_keys_at_ceiling p model tenant now_ms =
    let healthy = healthy_keys p model tenant now_ms in
    let (keys', full) = ceiling_loop now_ms healthy p.keys in
    if is_empty healthy then (p, false) else (record p { keys = keys' }, full)

holding_loop-length :
    (keys : List KeyRuntime) (now_ms : ℕ) (h : Holding) (mine : List ℕ)
    → let h' = holding_loop keys now_ms h mine in
      (h'.owned ≡ h.owned + length mine)
      × (h'.usable
          ≡ h.usable + length (keep (test_at (λ k. looks_healthy k.breaker now_ms) keys) mine))
unfolding holding_loop
holding_loop-length keys now_ms h [] = ground arith
holding_loop-length keys now_ms h (i ∷ mine) = ground (
  arith,
  holding_loop-length keys now_ms
      (record {
        owned = h.owned + 1;
        usable =
            if test_at (λ k. looks_healthy k.breaker now_ms) keys i then h.usable + 1 else h.usable;
      })
      mine,
)

-- A holding counts the caller's keys for the model and, of those, the healthy ones that selection
-- would choose among; the retry budget is the second number, and never 0.
pub holding-counts :
    (p : ProviderRuntime) (model tenant : Option String) (now_ms : ℕ)
    → let h = holding p model tenant now_ms in
      (h.owned ≡ length (owned_keys p model tenant))
      × (h.usable ≡ length (healthy_keys p model tenant now_ms))
      × (h.usable ≤ h.owned)
      × (1 ≤ healthy_key_count p model tenant now_ms)
unfolding holding healthy_keys healthy_key_count
holding-counts p model tenant now_ms = ground (
  arith,
  holding_loop-length p.keys now_ms (record { owned = 0; usable = 0 }) (owned_keys p model tenant),
  length-keep-le (test_at (λ k. looks_healthy k.breaker now_ms) p.keys) (owned_keys p model tenant),
)

all_of-has :
    (test : ℕ → Bool) (js : List ℕ) (i : ℕ)
    → all_of test js ≡ true
    → has i js ≡ true
    → test i ≡ true
all_of-has test [] i all h = cc
all_of-has test (j ∷ js) i all h = ground (arith, all_of-has test js i)

-- When every key that the caller could spend is benched, no admission chooses one: the pool is out of
-- quota, and not short of capacity.
pub all_keys_benched-none :
    (env : Env) (p : ProviderRuntime) (model tenant affinity : Option String) (now_ms : ℕ)
    → is_empty p.keys ≡ false
    → all_keys_benched p model tenant now_ms ≡ true
    → (admit_for env p model tenant affinity now_ms).1 ≡ none
unfolding all_keys_benched test_at
all_keys_benched-none env p model tenant affinity now_ms keyed benched =
    refuse (admit_for env p model tenant affinity now_ms).1
      (admit_for-MaySpend env p model tenant affinity now_ms keyed)
  where
    refuse :
        (choice : Option KeyChoice)
        → Outcome
            (MaySpend p model tenant now_ms)
            now_ms
            p.keys
            ((admit_for env p model tenant affinity now_ms).0.keys, choice)
        → choice ≡ none
    refuse none outcome = refl
    refuse (some c) (i, key, (k, found, serving, owns, unbenched), leased, admitted) =
        let owned = Owns-owned_by p tenant k owns in
        ground (
          arith,
          all_of-has (test_at (λ l. is_benched l.breaker now_ms) p.keys) (owned_keys p model tenant)
              i,
          owned_keys-has p model tenant i,
        )
