-- ===== src/Router/Pool.antt =====
-- crates/router-core/src/router.rs, `ProviderRuntime`: which keys may serve a caller, and the admission
-- of one attempt. A reference to a key is its place in `keys`. The provider's URL, timeout and
-- dialect settings are not read by selection and are left out.
use Prim.Native.String.{String}
use text.Mathlib.Text.{◌==◌ as str_eq}
use rapidrouter.Prelude.{
  ℕ, zero, suc, Bool, true, false, not, Option, none, some, List, [], ◌∷◌, is_empty, get_elem?, set,
  keep, any_of, length, ◌==◌, if◌then◌else◌,
}
use rapidrouter.Breaker.{Breaker, Admission, allow, deny, admit, looks_healthy}
use rapidrouter.Router.Floats.{FloatOps}
use rapidrouter.Router.Key.{KeyRuntime, take_lease, admit_now, try_reserve_slot}
use rapidrouter.Router.Pick.{balanced_pick, pinned_seat, rendezvous_score, sort_by}

pub record ProviderRuntime : Type 0 where
  pub name : String
  pub keys : List KeyRuntime
  pub provider_breaker : Breaker
  pub managed : Bool

-- What the source takes from its environment: floats, the digest, and the draws, one function for each
-- round of the selection loop.
pub record Env : Type 0 where
  pub floats : FloatOps
  pub blake3 : String → ℕ
  pub draw : ℕ → ℕ → ℕ → ℕ

-- `None` is a request that names no model.
unfoldable pub serves : Option String → KeyRuntime → Bool
serves none k = true
serves (some model) k = elim k.models [ none ↦ true | some models ↦ any_of (str_eq model) models ]

-- The places of the keys that pass a test.
unfoldable pub places : (KeyRuntime → Bool) → ℕ → List KeyRuntime → List ℕ
places test i [] = []
places test i (k ∷ ks) = let rest = places test (suc i) ks in if test k then i ∷ rest else rest

-- A test on the key at a place.
unfoldable pub test_at : (KeyRuntime → Bool) → List KeyRuntime → ℕ → Bool
test_at test keys i = elim (get_elem? keys i) [ none ↦ false | some k ↦ test k ]

unfoldable pub eligible : ProviderRuntime → Option String → List ℕ
unfolding places serves
eligible p model = places (serves model) 0 p.keys

unfoldable pub same_tenant : Option String → Option String → Bool
same_tenant (some owner) (some caller) = str_eq owner caller
same_tenant _ _ = false

unfoldable pub owned_by : ProviderRuntime → Option String → KeyRuntime → Bool
unfolding same_tenant
owned_by p tenant k = if p.managed then same_tenant k.tenant tenant else true

-- The caller's own accounts that serve the model, and the healthy ones of them.
unfoldable pub owned_keys : ProviderRuntime → Option String → Option String → List ℕ
unfolding eligible test_at owned_by
owned_keys p model tenant = keep (test_at (owned_by p tenant) p.keys) (eligible p model)

unfoldable pub healthy_keys : ProviderRuntime → Option String → Option String → ℕ → List ℕ
unfolding owned_keys test_at
healthy_keys p model tenant now_ms =
    keep (test_at (λ k. looks_healthy k.breaker now_ms) p.keys) (owned_keys p model tenant)

pub record KeyChoice : Type 0 where
  pub key : Option ℕ
  pub admission : Admission
  pub permit : Bool

-- The keys after a part of the admission, and the choice if it made one; the next part goes on from
-- the keys only where it made none.
abbrev pub Attempt : Type 0
Attempt = List KeyRuntime × Option KeyChoice

abbrev pub or_else : Attempt → (List KeyRuntime → Attempt) → Attempt
or_else (keys, some c) next = (keys, some c)
or_else (keys, none) next = next keys

abbrev pub with_key : List KeyRuntime → Option KeyRuntime → (KeyRuntime → Attempt) → Attempt
with_key keys none use_key = (keys, none)
with_key keys (some k) use_key = use_key k

-- A key that was tried is written back: with the lease, where it gave a permit.
abbrev pub settle : List KeyRuntime → ℕ → Admission → KeyRuntime × Option Bool → Attempt
settle keys i admission (k, none) = (set keys i k, none)
settle keys i admission (k, some permit) = (
  set keys i (take_lease k),
  some (record { key = some i; admission = admission; permit = permit }),
)

-- One healthy candidate: it serves if it is under its ceilings.
unfoldable pub serve_one : List KeyRuntime → ℕ → ℕ → Attempt
serve_one keys i now_ms =
    with_key keys (get_elem? keys i) (λ k. settle keys i allow (admit_now k now_ms))

unfoldable pub retain : ℕ → List ℕ → List ℕ
retain i = keep (λ j. not (j == i))

unfoldable pub share_at : FloatOps → List KeyRuntime → ℕ → ℕ
share_at f keys i = elim (get_elem? keys i) [ none ↦ 0 | some k ↦ f.ratio k.leases k.weight ]

-- The levelled pick, again and again, each refused candidate dropped. The fuel is the number of
-- candidates.
unfoldable pub serve_loop : Env → ℕ → ℕ → ℕ → List ℕ → List KeyRuntime → Attempt
unfolding serve_one retain share_at
serve_loop env zero round now_ms candidates keys = (keys, none)
serve_loop env (suc fuel) round now_ms [] keys = (keys, none)
serve_loop env (suc fuel) round now_ms (i ∷ rest) keys =
    let picked = balanced_pick env.floats (share_at env.floats keys) (env.draw round) i rest in
    or_else (serve_one keys picked now_ms)
      (λ keys'. serve_loop env fuel (suc round) now_ms (retain picked (i ∷ rest)) keys')

unfoldable pub serve_from : Env → ℕ → List ℕ → List KeyRuntime → Attempt
unfolding serve_loop
serve_from env now_ms candidates keys = serve_loop env (length candidates) 0 now_ms candidates keys

-- The score of the key at a place, for a session.
unfoldable pub score_at : (String → ℕ) → String → List KeyRuntime → ℕ → ℕ
score_at blake3 session keys i = elim (get_elem? keys i) [
  | none ↦ 0
  | some k ↦ rendezvous_score blake3 session k.name
]

-- The pinned seat first, where there is one.
unfoldable pub serve_pin : Env → Option ℕ → ℕ → List ℕ → List KeyRuntime → Attempt
unfolding serve_one serve_from retain
serve_pin env none now_ms candidates keys = serve_from env now_ms candidates keys
serve_pin env (some pinned) now_ms candidates keys =
    or_else (serve_one keys pinned now_ms)
      (λ keys'. serve_from env now_ms (retain pinned candidates) keys')

-- The seat that a session is pinned to, if the caller named one.
unfoldable pub pin : Env → Option String → List ℕ → List KeyRuntime → Option ℕ
unfolding score_at
pin env none candidates keys = none
pin env (some session) candidates keys = pinned_seat (score_at env.blake3 session keys) candidates

unfoldable pub serve_pinned : Env → Option String → ℕ → List ℕ → List KeyRuntime → Attempt
unfolding serve_pin pin
serve_pinned env affinity now_ms candidates keys =
    serve_pin env (pin env affinity candidates keys) now_ms candidates keys

-- A probe is exempt from the rate ceiling and not from the slots.
unfoldable pub recover_slot : Admission → KeyRuntime → ℕ → KeyRuntime × Option Bool
recover_slot allow k now_ms = admit_now k now_ms
recover_slot _ k now_ms = try_reserve_slot k

unfoldable pub recover_admitted : List KeyRuntime → ℕ → ℕ → KeyRuntime → Admission → Attempt
unfolding recover_slot
recover_admitted keys i now_ms k deny = (set keys i k, none)
recover_admitted keys i now_ms k admission =
    settle keys i admission (recover_slot admission k now_ms)

-- One candidate when nothing healthy served: the breaker is the authority.
unfoldable pub recover_one : List KeyRuntime → ℕ → ℕ → Attempt
unfolding recover_admitted
recover_one keys i now_ms = with_key keys (get_elem? keys i) (λ k.
    let (breaker', admission) = admit k.breaker now_ms in
    recover_admitted keys i now_ms (record k { breaker = breaker' }) admission)

unfoldable pub recover_loop : ℕ → List ℕ → List KeyRuntime → Attempt
unfolding recover_one
recover_loop now_ms [] keys = (keys, none)
recover_loop now_ms (i ∷ rest) keys =
    or_else (recover_one keys i now_ms) (λ keys'. recover_loop now_ms rest keys')

-- Least used first.
unfoldable pub recovering : Env → List ℕ → List KeyRuntime → List ℕ
unfolding share_at
recovering env owned keys =
    sort_by (λ i j. env.floats.total_le (share_at env.floats keys i) (share_at env.floats keys j))
      owned

-- The healthy first, then the others.
unfoldable pub admit_keys :
    Env → ProviderRuntime → Option String → Option String → Option String → ℕ → Attempt
unfolding serve_pinned recovering recover_loop owned_keys healthy_keys
admit_keys env p model tenant affinity now_ms =
    let owned = owned_keys p model tenant in
    or_else (serve_pinned env affinity now_ms (healthy_keys p model tenant now_ms) p.keys)
      (λ keys'. recover_loop now_ms (recovering env owned keys') keys')

-- A keyless provider has one breaker of its own.
admit_keyless : ProviderRuntime → ℕ → ProviderRuntime × Option KeyChoice
admit_keyless p now_ms =
    let (breaker', admission) = admit p.provider_breaker now_ms in
    (
      record p { provider_breaker = breaker' },
      elim admission [
        | deny ↦ none
        | other ↦ some (record { key = none; admission = other; permit = false })
      ],
    )

unfoldable pub admit_for :
    Env
    → ProviderRuntime
    → Option String
    → Option String
    → Option String
    → ℕ
    → ProviderRuntime × Option KeyChoice
unfolding admit_keyless admit_keys
admit_for env p model tenant affinity now_ms =
    if is_empty p.keys
    then admit_keyless p now_ms
    else if is_empty (owned_keys p model tenant)
    then (p, none)
    else let (keys', choice) = admit_keys env p model tenant affinity now_ms in
      (record p { keys = keys' }, choice)
