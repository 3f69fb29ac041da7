-- ===== src/Router/Reload.antt =====
-- What a reload of the configuration keeps, for crates/router-core/src/router.rs: the proofs about
-- `RoutingTable::from_config_with`.
use Prim.Native.String.{String}
use text.Mathlib.TextEquality.{eq_iff}
use rapidrouter.Prelude.{
  ℕ, ◌+◌, ◌/◌, ◌≤◌, ◌≡◌, refl, ap, Option, none, some, List, [], ◌∷◌, Map, get, str_eq, arith, sym,
  Option-cases, Bool-cases, inl, inr, ◌∙◌, subst, map, if◌then◌else◌,
}
use rapidrouter.Breaker.{BreakerConfig}
use rapidrouter.TokenBucket.{TokenBucket, new_bucket, clone_state}
use rapidrouter.Router.Key.{KeyRuntime}
use rapidrouter.Router.Pool.{ProviderRuntime}
use rapidrouter.Router.Table.{RoutingTable}
use rapidrouter.Router.Rebuild.{
  ApiKey, Provider, Config, find_key, previous_keys, previous_key, least_leases, keys_of,
  carry_slots, carry_bucket, same_ceiling, rpm_of, tpm_of, leases_of, new_key, new_provider,
  new_providers, from_config, from_config_with,
}

unfoldable pub made_provider :
    BreakerConfig → Option RoutingTable → String → Option Provider → Option ProviderRuntime
made_provider breaker prev name none = none
made_provider breaker prev name (some p) = some (new_provider breaker prev name p)

new_providers-get :
    (breaker : BreakerConfig) (prev : Option RoutingTable) (ps : Map Provider) (name : String)
    → get (new_providers breaker prev ps) name ≡ made_provider breaker prev name (get ps name)
unfolding new_providers made_provider get
new_providers-get breaker prev [] name = refl
new_providers-get breaker prev ((at, p) ∷ rest) name =
    let (same, _) = eq_iff name at in
    elim (Bool-cases (str_eq name at)) [
      | inl here ↦ rw here (ap (λ n. some (new_provider breaker prev n p)) (sym (same here)))
      | inr elsewhere ↦ rw elsewhere (new_providers-get breaker prev rest name)
    ]

least_leases-le :
    (keys : List KeyRuntime) (name : String) (k : KeyRuntime)
    → find_key keys name ≡ some k
    → least_leases keys ≤ k.leases
unfolding find_key least_leases
least_leases-le [] name k h = ground arith
least_leases-le (a ∷ []) name k h = ground arith
least_leases-le (a ∷ b ∷ rest) name k h = elim (Bool-cases (str_eq a.name name)) [
  | inl here ↦ ground arith
  | inr other ↦
      let found : find_key (b ∷ rest) name ≡ some k = ground arith in
      let below = least_leases-le (b ∷ rest) name k found in ground arith
]

-- No key of a rebuilt provider starts behind the pool that was there: it has at least as many leases as
-- the least used key before, so that the levelled pick does not send it every request.
pub new_key_floor :
    (breaker : BreakerConfig) (prev : Option RoutingTable) (name : String) (k : ApiKey)
    → least_leases (previous_keys prev name)
      ≤ (new_key breaker
          (previous_key prev name k.name)
          (least_leases (previous_keys prev name))
          k).leases
unfolding new_key leases_of previous_key
new_key_floor breaker prev name k =
    elim (Option-cases (find_key (previous_keys prev name) k.name)) [
      | inl fresh ↦ rw fresh (ground arith)
      | inr (old, found) ↦ rw found (least_leases-le (previous_keys prev name) k.name old found)
    ]

-- A table has exactly the providers of its configuration, each made from the keys listed there and from
-- the provider of that name in the table before.
pub get-from_config_with :
    (config : Config) (prev : Option RoutingTable) (name : String)
    → get (from_config_with config prev).providers name
      ≡ made_provider config.breaker prev name (get config.providers name)
unfolding from_config_with
get-from_config_with config prev name = new_providers-get config.breaker prev config.providers name

-- A key that was there before keeps its lease count, the balance of each bucket that is still limited, and
-- its free slots where the ceiling is unchanged. It keeps the bucket also when the limit has another value.
pub new_key_carries :
    (breaker : BreakerConfig) (old : KeyRuntime) (floor : ℕ) (k : ApiKey) (b : TokenBucket) (l : ℕ)
    → ((new_key breaker (some old) floor k).leases ≡ old.leases)
      × (old.rpm ≡ some b → k.rpm ≡ some l → (new_key breaker (some old) floor k).rpm ≡ some b)
      × (old.tpm ≡ some b → k.tpm ≡ some l → (new_key breaker (some old) floor k).tpm ≡ some b)
      × (k.max_concurrency ≡ some l
          → old.max_concurrency ≡ some l
          → (new_key breaker (some old) floor k).inflight ≡ old.inflight)
unfolding new_key leases_of rpm_of tpm_of carry_bucket carry_slots clone_state same_ceiling
new_key_carries breaker old floor k b l = (
  refl,
  λ held limit. rw (held, limit) refl,
  λ held limit. rw (held, limit) refl,
  λ limit same. rw (limit, same) (ground arith),
)

-- The key that a configuration lists under a name.
abbrev pub key_listed : List ApiKey → String → Option ApiKey
key_listed [] name = none
key_listed (k ∷ ks) name = if str_eq k.name name then some k else key_listed ks name

-- The runtime of a key, by its provider's name and its own.
unfoldable pub key_at : RoutingTable → String → String → Option KeyRuntime
unfolding find_key keys_of
key_at t provider name = find_key (keys_of (get t.providers provider)) name

key_listed-name :
    (ks : List ApiKey) (name : String) (k : ApiKey) → key_listed ks name ≡ some k → k.name ≡ name
key_listed-name [] name k h = absurd cc
key_listed-name (a ∷ ks) name k h = elim (Bool-cases (str_eq a.name name)) [
  | inl here ↦
      let found : some a ≡ some k =
        subst (λ b. (if b then some a else key_listed ks name) ≡ some k) here h in
      let same : a ≡ k = cc in ap (λ (l : ApiKey). l.name) (sym same) ∙ (eq_iff a.name name).0 here
  | inr other ↦
      key_listed-name ks name k
        (subst (λ b. (if b then some a else key_listed ks name) ≡ some k) other h)
]

find_key-made :
    (make : ApiKey → KeyRuntime) (ks : List ApiKey) (name : String) (k : ApiKey)
    → ((l : ApiKey) → (make l).name ≡ l.name)
    → key_listed ks name ≡ some k
    → find_key (map make ks) name ≡ some (make k)
unfolding find_key
find_key-made make [] name k same h = absurd cc
find_key-made make (a ∷ ks) name k same h = elim (Bool-cases (str_eq a.name name)) [
  | inl here ↦
      let found : some a ≡ some k =
        subst (λ b. (if b then some a else key_listed ks name) ≡ some k) here h in
      let chosen : a ≡ k = cc in
      rw (ap (λ n. str_eq n name) (same a) ∙ here) (ap (λ l. some (make l)) chosen)
  | inr other ↦
      let later = subst (λ b. (if b then some a else key_listed ks name) ≡ some k) other h in
      rw (ap (λ n. str_eq n name) (same a) ∙ other) (find_key-made make ks name k same later)
]

-- Every key that a configuration lists is in the table, made from the key of that name in the table before.
key_at-listed :
    (config : Config) (prev : Option RoutingTable) (provider name : String) (p : Provider)
    (k : ApiKey)
    → get config.providers provider ≡ some p
    → key_listed p.keys name ≡ some k
    → key_at (from_config_with config prev) provider name
      ≡ some (
          new_key config.breaker
            (previous_key prev provider name)
            (least_leases (previous_keys prev provider))
            k)
unfolding key_at made_provider new_provider new_key keys_of
key_at-listed config prev provider name p k there here =
    let named = key_listed-name p.keys name k here in
    let least = least_leases (previous_keys prev provider) in
    let make = λ (l : ApiKey). new_key config.breaker (previous_key prev provider l.name) least l in
    ap (λ o. find_key (keys_of o) name)
      (get-from_config_with config prev provider
        ∙ ap (made_provider config.breaker prev provider) there)
    ∙ find_key-made make p.keys name k (λ l. refl) here
    ∙ ap (λ n. some (new_key config.breaker (previous_key prev provider n) least k)) named

-- Limits edited from one value to another have no effect on a key that keeps its name and its provider: for
-- a key that has a limit on requests and one on tokens in the configuration first loaded and in the one loaded
-- after it, the table then has the key with the buckets of the first limits.
pub stale_limits :
    (before after : Config) (provider name : String) (p p' : Provider) (k k' : ApiKey)
    (rpm rpm' tpm tpm' : ℕ)
    → get before.providers provider ≡ some p
    → key_listed p.keys name ≡ some k
    → get after.providers provider ≡ some p'
    → key_listed p'.keys name ≡ some k'
    → k.rpm ≡ some rpm
    → k'.rpm ≡ some rpm'
    → k.tpm ≡ some tpm
    → k'.tpm ≡ some tpm'
    → (key : KeyRuntime) × (key_at
          (from_config_with after (some (from_config before)))
          provider
          name
        ≡ some key)
      × (key.rpm ≡ some (new_bucket rpm ((rpm + 59) / 60)))
      × (key.tpm ≡ some (new_bucket tpm ((tpm + 59) / 60)))
unfolding from_config new_key rpm_of tpm_of carry_bucket clone_state previous_key previous_keys
    key_at
stale_limits before after provider name p p' k k' rpm rpm' tpm tpm' at here at' here' r r' t t' =
    let table = from_config_with before none in
    let old =
      new_key before.breaker (previous_key none provider name)
        (least_leases (previous_keys none provider)) k in
    let was : key_at table provider name ≡ some old =
      key_at-listed before none provider name p k at here in
    let now = key_at-listed after (some table) provider name p' k' at' here' in
    let floor = least_leases (previous_keys (some table) provider) in
    (
      new_key after.breaker (some old) floor k',
      now ∙ ap (λ o. some (new_key after.breaker o floor k')) was,
      rw (r, r') refl,
      rw (t, t') refl,
    )
