-- ===== src/Router/Progress.antt =====
-- That the selection loop of crates/router-core/src/router.rs finds a key where there is one to find,
-- and that its fuel, the number of candidates, is enough.
use Prim.Native.String.{String}
use rapidrouter.Prelude.{
  ℕ, zero, suc, ◌≤◌, ◌<◌, ◌≡◌, refl, ◌≢◌, Bool, true, false, Option, none, some, List, [], ◌∷◌,
  get_elem?, set, is_empty, length, is_some, arith, ap, ◌∙◌,
}
use rapidrouter.Breaker.{Admission, allow, looks_healthy}
use rapidrouter.Router.Key.{KeyRuntime, admit_now}
use rapidrouter.Router.Pick.{balanced_pick}
use rapidrouter.Router.Pool.{
  ProviderRuntime, Env, Attempt, with_key, settle, serves, owned_by, owned_keys, healthy_keys,
  test_at, or_else, serve_one, retain, share_at, serve_loop, serve_from, serve_pin, pin,
  serve_pinned, admit_keys, admit_for,
}
use rapidrouter.Router.Members.{has, has-retain, has-balanced_pick}
use rapidrouter.Router.Ownership.{owned_keys-has, healthy_keys-has}

length-retain : (i : ℕ) (js : List ℕ) → length (retain i js) ≤ length js
unfolding retain
length-retain i [] = omega arith
length-retain i (j ∷ js) = ground (arith, length-retain i js)

-- A candidate that is dropped shortens the list.
length-retain-has : (i : ℕ) (js : List ℕ) → has i js ≡ true → length (retain i js) < length js
unfolding retain
length-retain-has i [] h = cc
length-retain-has i (j ∷ js) h = ground (arith, length-retain-has i js, length-retain i js)

get-set_ne :
    (keys : List KeyRuntime) (i j : ℕ) (k : KeyRuntime)
    → i ≢ j
    → get_elem? (set keys i k) j ≡ get_elem? keys j
get-set_ne [] i j k h = refl
get-set_ne (x ∷ keys) zero zero k h = absurd (h refl)
get-set_ne (x ∷ keys) zero (suc j) k h = refl
get-set_ne (x ∷ keys) (suc i) zero k h = refl
get-set_ne (x ∷ keys) (suc i) (suc j) k h = get-set_ne keys i j k (λ e. h (ap suc e))

-- The key at a place would serve: it is under its ceilings.
abbrev pub CanServe : ℕ → List KeyRuntime → ℕ → Type 0
CanServe now_ms keys i =
    (k : KeyRuntime) × (get_elem? keys i ≡ some k) × (is_some (admit_now k now_ms).1 ≡ true)

-- One try: the place serves if it can, and a refusal touches no other place.
serve_one-CanServe :
    (keys : List KeyRuntime) (i now_ms : ℕ)
    → CanServe now_ms keys i
    → is_some (serve_one keys i now_ms).1 ≡ true
unfolding serve_one
serve_one-CanServe keys i now_ms (k, found, serves_now) = ground arith

settle-keeps :
    (keys : List KeyRuntime) (i j : ℕ) (admission : Admission) (r : KeyRuntime × Option Bool)
    → i ≢ j
    → (settle keys i admission r).1 ≡ none
    → get_elem? (settle keys i admission r).0 j ≡ get_elem? keys j
settle-keeps keys i j admission (l, none) h e = get-set_ne keys i j l h
settle-keeps keys i j admission (l, some permit) h e = cc

with_key-keeps :
    (keys : List KeyRuntime) (i j now_ms : ℕ) (o : Option KeyRuntime)
    → i ≢ j
    → (with_key keys o (λ k. settle keys i allow (admit_now k now_ms))).1 ≡ none
    → get_elem? (with_key keys o (λ k. settle keys i allow (admit_now k now_ms))).0 j
      ≡ get_elem? keys j
with_key-keeps keys i j now_ms none h e = refl
with_key-keeps keys i j now_ms (some k) h e = settle-keeps keys i j allow (admit_now k now_ms) h e

serve_one-keeps :
    (keys : List KeyRuntime) (i j now_ms : ℕ)
    → i ≢ j
    → (serve_one keys i now_ms).1 ≡ none
    → get_elem? (serve_one keys i now_ms).0 j ≡ get_elem? keys j
unfolding serve_one
serve_one-keeps keys i j now_ms h e = with_key-keeps keys i j now_ms (get_elem? keys i) h e

-- A refusal at one place leaves another that can serve able to.
CanServe-after :
    (keys : List KeyRuntime) (i j now_ms : ℕ)
    → CanServe now_ms keys j
    → (serve_one keys i now_ms).1 ≡ none
    → (i ≢ j) × CanServe now_ms (serve_one keys i now_ms).0 j
CanServe-after keys i j now_ms (k, found, ready) refused =
    let apart : i ≢ j =
      λ e. cc (refused, serve_one-CanServe keys i now_ms (k, rw e found, ready)) in
    (apart, (k, serve_one-keeps keys i j now_ms apart refused ∙ found, ready))

-- Two parts in turn make a choice if the second does from whatever a refusal of the first leaves.
or_else-some :
    (a : Attempt) (next : List KeyRuntime → Attempt)
    → (a.1 ≡ none → is_some (next a.0).1 ≡ true)
    → is_some (or_else a next).1 ≡ true
or_else-some (keys, none) next h = h refl
or_else-some (keys, some c) next h = refl

pub serve_loop-some :
    (env : Env) (fuel round now_ms : ℕ) (candidates : List ℕ) (keys : List KeyRuntime) (j : ℕ)
    → length candidates ≤ fuel
    → has j candidates ≡ true
    → CanServe now_ms keys j
    → is_some (serve_loop env fuel round now_ms candidates keys).1 ≡ true
unfolding serve_loop
serve_loop-some env zero round now_ms [] keys j fits among ready = cc
serve_loop-some env zero round now_ms (i ∷ rest) keys j fits among ready = absurd (omega arith)
serve_loop-some env (suc fuel) round now_ms [] keys j fits among ready = cc
serve_loop-some env (suc fuel) round now_ms (i ∷ rest) keys j fits among ready =
    let share = share_at env.floats keys in
    let picked = balanced_pick env.floats share (env.draw round) i rest in
    let member = has-balanced_pick env.floats share (env.draw round) i rest in
    or_else-some (serve_one keys picked now_ms) _ λ refused.
      let (apart, ready') = CanServe-after keys picked j now_ms ready refused in
      serve_loop-some env fuel (suc round) now_ms (retain picked (i ∷ rest)) _ j
        (omega (arith, length-retain-has picked (i ∷ rest) member))
        (ground (arith, has-retain j picked (i ∷ rest))) ready'

serve_from-some :
    (env : Env) (now_ms : ℕ) (candidates : List ℕ) (keys : List KeyRuntime) (j : ℕ)
    → has j candidates ≡ true
    → CanServe now_ms keys j
    → is_some (serve_from env now_ms candidates keys).1 ≡ true
unfolding serve_from
serve_from-some env now_ms candidates keys j among ready =
    serve_loop-some env (length candidates) 0 now_ms candidates keys j (omega arith) among ready

serve_pin-some :
    (env : Env) (pinned : Option ℕ) (now_ms : ℕ) (candidates : List ℕ) (keys : List KeyRuntime)
    (j : ℕ)
    → has j candidates ≡ true
    → CanServe now_ms keys j
    → is_some (serve_pin env pinned now_ms candidates keys).1 ≡ true
unfolding serve_pin
serve_pin-some env none now_ms candidates keys j among ready =
    serve_from-some env now_ms candidates keys j among ready
serve_pin-some env (some i) now_ms candidates keys j among ready =
    or_else-some (serve_one keys i now_ms) _ λ refused.
      let (apart, ready') = CanServe-after keys i j now_ms ready refused in
      serve_from-some env now_ms (retain i candidates) _ j
        (ground (arith, has-retain j i candidates)) ready'

or_else-some_first :
    (a : Attempt) (next : List KeyRuntime → Attempt)
    → is_some a.1 ≡ true
    → is_some (or_else a next).1 ≡ true
or_else-some_first (keys, none) next h = cc
or_else-some_first (keys, some c) next h = refl

-- The key at a place is healthy, serves the model, is the caller's, and is under its ceilings.
abbrev pub IsReady : ProviderRuntime → Option String → Option String → ℕ → ℕ → Type 0
IsReady p model tenant now_ms i =
    (k : KeyRuntime) × (get_elem? p.keys i ≡ some k)
    × (serves model k ≡ true)
    × (owned_by p tenant k ≡ true)
    × (looks_healthy k.breaker now_ms ≡ true)
    × (is_some (admit_now k now_ms).1 ≡ true)

found_not_empty :
    (keys : List KeyRuntime) (i : ℕ) (k : KeyRuntime)
    → get_elem? keys i ≡ some k
    → is_empty keys ≡ false
found_not_empty [] i k e = cc
found_not_empty (x ∷ keys) i k e = refl

has_not_empty : (js : List ℕ) (i : ℕ) → has i js ≡ true → is_empty js ≡ false
has_not_empty [] i h = cc
has_not_empty (j ∷ js) i h = refl

IsReady-among :
    (p : ProviderRuntime) (model tenant : Option String) (now_ms i : ℕ)
    → IsReady p model tenant now_ms i
    → (has i (owned_keys p model tenant) ≡ true)
      × (has i (healthy_keys p model tenant now_ms) ≡ true)
unfolding test_at
IsReady-among p model tenant now_ms i (k, found, serving, owned, healthy, ready) =
    let mine = owned_keys-has p model tenant i in
    let well = healthy_keys-has p model tenant now_ms i in (ground arith, ground arith)

admit_keys-some :
    (env : Env) (p : ProviderRuntime) (model tenant affinity : Option String) (now_ms i : ℕ)
    → has i (healthy_keys p model tenant now_ms) ≡ true
    → CanServe now_ms p.keys i
    → is_some (admit_keys env p model tenant affinity now_ms).1 ≡ true
unfolding admit_keys serve_pinned
admit_keys-some env p model tenant affinity now_ms i among ready =
    let healthy = healthy_keys p model tenant now_ms in
    or_else-some_first (serve_pinned env affinity now_ms healthy p.keys) _
      (serve_pin-some env (pin env affinity healthy p.keys) now_ms healthy p.keys i among ready)

-- If any key of the provider is healthy, serves the model, belongs to the caller and is under its
-- ceilings, then the request is admitted, whatever the other keys, the session, the draws and floats.
pub admit_for-some :
    (env : Env) (p : ProviderRuntime) (model tenant affinity : Option String) (now_ms i : ℕ)
    → IsReady p model tenant now_ms i
    → is_some (admit_for env p model tenant affinity now_ms).1 ≡ true
unfolding admit_for
admit_for-some env p model tenant affinity now_ms i h =
    let (among, healthy) = IsReady-among p model tenant now_ms i h in
    rw (found_not_empty p.keys i h.0 h.1, has_not_empty (owned_keys p model tenant) i among)
      (admit_keys-some env p model tenant affinity now_ms i healthy (h.0, h.1, h.5))
