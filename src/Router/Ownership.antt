-- ===== src/Router/Ownership.antt =====
-- Whose account an admission of crates/router-core/src/router.rs spends, and what it leaves alone.
use Prim.Native.String.{String}
use text.Mathlib.TextEquality.{eq_iff}
use rapidrouter.Prelude.{
  ap, ℕ, ◌≡◌, refl, true, false, ◌&&◌, Option, none, some, List, Bool-cases, Option-cases, inl, inr,
  get_elem?, is_empty, arith,
}
use rapidrouter.Breaker.{is_benched, looks_healthy}
use rapidrouter.Router.Key.{KeyRuntime}
use rapidrouter.Router.Pool.{
  ProviderRuntime, Env, serves, eligible, owned_by, same_tenant, owned_keys, healthy_keys, test_at,
  share_at, serve_pinned, recovering, recover_loop, admit_keys, admit_for,
}
use rapidrouter.Router.Alike.{Alike-refl, Alike-unbenched}
use rapidrouter.Router.Members.{has, has-keep, has-places, has-sort_by}
use rapidrouter.Router.Selection.{
  Outcome, Outcome-weaken, or_else-Outcome, serve_pinned-Outcome, recover_loop-Outcome, Recovers,
}

-- In a pool where accounts are labelled, the key and the caller name the same service.
abbrev pub Owns : ProviderRuntime → Option String → KeyRuntime → Type 0
Owns p tenant k =
    p.managed ≡ true → (service : String) × (k.tenant ≡ some service) × (tenant ≡ some service)

same_tenant-same :
    (owner caller : Option String)
    → same_tenant owner caller ≡ true
    → (service : String) × (owner ≡ some service) × (caller ≡ some service)
unfolding same_tenant
same_tenant-same none caller h = ground arith
same_tenant-same (some owner) none h = ground arith
same_tenant-same (some owner) (some caller) h =
    let (same, _) = eq_iff owner caller in (caller, ap some (same h), refl)

owned_by-Owns :
    (p : ProviderRuntime) (tenant : Option String) (k : KeyRuntime)
    → owned_by p tenant k ≡ true
    → Owns p tenant k
unfolding owned_by
owned_by-Owns p tenant k h labelled = same_tenant-same k.tenant tenant (ground arith)

pub Owns-owned_by :
    (p : ProviderRuntime) (tenant : Option String) (k : KeyRuntime)
    → Owns p tenant k
    → owned_by p tenant k ≡ true
unfolding owned_by same_tenant
Owns-owned_by p tenant k owns = elim (Bool-cases p.managed) [
  | inl labelled ↦
      let (service, owner, caller) = owns labelled in
      let (_, same) = eq_iff service service in
      let equal = same refl in rw (labelled, owner, caller) equal
  | inr shared ↦ rw shared refl
]

-- The key at a place may be spent on this request: it serves the model, it is the caller's, and it is
-- not benched.
abbrev pub MaySpend : ProviderRuntime → Option String → Option String → ℕ → ℕ → Type 0
MaySpend p model tenant now_ms i =
    (k : KeyRuntime) × (get_elem? p.keys i ≡ some k)
    × (serves model k ≡ true)
    × Owns p tenant k
    × (is_benched k.breaker now_ms ≡ false)

pub owned_keys-has :
    (p : ProviderRuntime) (model tenant : Option String) (i : ℕ)
    → has i (owned_keys p model tenant)
      ≡ (test_at (serves model) p.keys i && test_at (owned_by p tenant) p.keys i)
unfolding owned_keys eligible
owned_keys-has p model tenant i = ground (
  arith,
  has-keep (test_at (owned_by p tenant) p.keys) i (eligible p model),
  has-places (serves model) i p.keys,
)

pub healthy_keys-has :
    (p : ProviderRuntime) (model tenant : Option String) (now_ms i : ℕ)
    → has i (healthy_keys p model tenant now_ms) ≡ (
        has i (owned_keys p model tenant) && test_at (λ k. looks_healthy k.breaker now_ms) p.keys i)
unfolding healthy_keys
healthy_keys-has p model tenant now_ms i =
    has-keep (test_at (λ k. looks_healthy k.breaker now_ms) p.keys) i (owned_keys p model tenant)

owned-MaySpend :
    (p : ProviderRuntime) (model tenant : Option String) (now_ms i : ℕ)
    → Recovers now_ms p.keys (owned_keys p model tenant) i
    → MaySpend p model tenant now_ms i
unfolding test_at
owned-MaySpend p model tenant now_ms i (among, unbenched) =
    elim (Option-cases (get_elem? p.keys i)) [
      | inl missing ↦ absurd (ground (arith, owned_keys-has p model tenant i))
      | inr (k, found) ↦
          let h = owned_keys-has p model tenant i in
          (k, found, ground arith, owned_by-Owns p tenant k (ground arith), unbenched k found)
    ]

healthy-MaySpend :
    (p : ProviderRuntime) (model tenant : Option String) (now_ms i : ℕ)
    → has i (healthy_keys p model tenant now_ms) ≡ true
    → MaySpend p model tenant now_ms i
unfolding test_at looks_healthy
healthy-MaySpend p model tenant now_ms i among =
    let healthy = healthy_keys-has p model tenant now_ms i in
    owned-MaySpend p model tenant now_ms i (ground arith, λ k found. ground arith)

recovering-has :
    (env : Env) (owned : List ℕ) (keys : List KeyRuntime) (i : ℕ)
    → has i (recovering env owned keys) ≡ true
    → has i owned ≡ true
unfolding recovering
recovering-has env owned keys i h = ground (
  arith,
  has-sort_by (λ m n. env.floats.total_le (share_at env.floats keys m) (share_at env.floats keys n))
      i owned,
)

admit_keys-Outcome :
    (env : Env) (p : ProviderRuntime) (model tenant affinity : Option String) (now_ms : ℕ)
    → Outcome
        (MaySpend p model tenant now_ms)
        now_ms
        p.keys
        (admit_keys env p model tenant affinity now_ms)
unfolding admit_keys
admit_keys-Outcome env p model tenant affinity now_ms =
    or_else-Outcome (MaySpend p model tenant now_ms) now_ms p.keys
      (serve_pinned env affinity now_ms (healthy_keys p model tenant now_ms) p.keys) _
      (Outcome-weaken _ (MaySpend p model tenant now_ms) now_ms p.keys
        (serve_pinned env affinity now_ms (healthy_keys p model tenant now_ms) p.keys)
        (healthy-MaySpend p model tenant now_ms)
        (serve_pinned-Outcome env affinity now_ms (healthy_keys p model tenant now_ms) p.keys))
      λ ls alike.
        Outcome-weaken _ (MaySpend p model tenant now_ms) now_ms ls
          (recover_loop now_ms (recovering env (owned_keys p model tenant) ls) ls)
          (λ i h. owned-MaySpend p model tenant now_ms i (
            recovering-has env (owned_keys p model tenant) ls i h.0,
            Alike-unbenched now_ms p.keys ls i alike h.1,
          ))
          (recover_loop-Outcome now_ms (recovering env (owned_keys p model tenant) ls) ls)

-- For a provider with keys, whatever the draws, the floats and the digest: an admission either chooses
-- no key and leaves every key alike (its name, weight, models, tenant, leases, and whether it is
-- benched), or it chooses one key that serves the model, belongs to the caller (or to a pool that
-- nobody has divided up) and is not benched, with an admission that is no denial; that key takes one
-- lease and every other key is left alike.
pub admit_for-MaySpend :
    (env : Env) (p : ProviderRuntime) (model tenant affinity : Option String) (now_ms : ℕ)
    → is_empty p.keys ≡ false
    → let (p', choice) = admit_for env p model tenant affinity now_ms in
      Outcome (MaySpend p model tenant now_ms) now_ms p.keys (p'.keys, choice)
unfolding admit_for
admit_for-MaySpend env p model tenant affinity now_ms keyed =
    elim (Bool-cases (is_empty (owned_keys p model tenant))) [
      | inl nobody ↦ rw (keyed, nobody) (Alike-refl now_ms p.keys)
      | inr somebody ↦ rw (keyed, somebody) (admit_keys-Outcome env p model tenant affinity now_ms)
    ]
