-- ===== src/Router/Selection.antt =====
-- What each part of the admission of crates/router-core/src/router.rs does to the keys: it chooses a
-- candidate and leases it, or chooses none; every other key is left alike.
use Prim.Native.String.{String}
use rapidrouter.Prelude.{
  ℕ, zero, suc, ◌≡◌, refl, ◌≢◌, Bool, true, false, Option, none, some, List, [], ◌∷◌, get_elem?,
  length, arith,
}
use rapidrouter.Breaker.{Admission, allow, probe, deny, admit, is_benched}
use rapidrouter.Router.Key.{KeyRuntime, take_lease, admit_now, try_reserve_slot}
use rapidrouter.Router.Pick.{balanced_pick}
use rapidrouter.Router.Pool.{
  Env, Attempt, or_else, with_key, settle, serve_one, retain, share_at, serve_loop, serve_from,
  score_at, serve_pin, pin, serve_pinned, recover_slot, recover_admitted, recover_one, recover_loop,
}
use rapidrouter.Router.Alike.{
  Idle, Leased, Alike, LeasedAt, Alike-refl, Alike-trans, Alike-LeasedAt, set-Alike, set-LeasedAt,
  admit_now-Idle, try_reserve_slot-Idle, Idle-trans, admitted-Idle, not_deny-unbenched,
  Alike-unbenched,
}
use rapidrouter.Router.Members.{has, has-retain, has-balanced_pick, has-pinned_seat}

-- No key chosen, and all alike; or a key that meets a condition, leased.
abbrev pub Outcome : (ℕ → Type 0) → ℕ → List KeyRuntime → Attempt → Type 0
Outcome Ok now_ms keys (keys', none) = Alike now_ms keys keys'
Outcome Ok now_ms keys (keys', some c) =
    (i : ℕ) × (c.key ≡ some i) × Ok i × LeasedAt now_ms keys i keys' × (c.admission ≢ deny)

pub Outcome-weaken :
    (Ok Ok' : ℕ → Type 0) (now_ms : ℕ) (ks : List KeyRuntime) (a : Attempt)
    → ((i : ℕ) → Ok i → Ok' i)
    → Outcome Ok now_ms ks a
    → Outcome Ok' now_ms ks a
Outcome-weaken Ok Ok' now_ms ks (ls, none) weaken o = o
Outcome-weaken Ok Ok' now_ms ks (ls, some c) weaken (i, key, ok, leased, admitted) =
    (i, key, weaken i ok, leased, admitted)

-- An outcome from keys that are alike is one from the keys at the start.
Outcome-after :
    (Ok : ℕ → Type 0) (now_ms : ℕ) (ks ls : List KeyRuntime) (a : Attempt)
    → Alike now_ms ks ls
    → Outcome Ok now_ms ls a
    → Outcome Ok now_ms ks a
Outcome-after Ok now_ms ks ls (ms, none) alike o = Alike-trans now_ms ks ls ms alike o
Outcome-after Ok now_ms ks ls (ms, some c) alike (i, key, ok, leased, admitted) =
    (i, key, ok, Alike-LeasedAt now_ms i ks ls ms alike leased, admitted)

-- Two parts in turn, the second from whatever keys the first leaves alike.
pub or_else-Outcome :
    (Ok : ℕ → Type 0) (now_ms : ℕ) (ks : List KeyRuntime) (a : Attempt)
    (next : List KeyRuntime → Attempt)
    → Outcome Ok now_ms ks a
    → ((ls : List KeyRuntime) → Alike now_ms ks ls → Outcome Ok now_ms ls (next ls))
    → Outcome Ok now_ms ks (or_else a next)
or_else-Outcome Ok now_ms ks (ls, none) next o later =
    Outcome-after Ok now_ms ks ls (next ls) o (later ls o)
or_else-Outcome Ok now_ms ks (ls, some c) next o later = o

take_lease-Leased :
    (now_ms : ℕ) (k l : KeyRuntime) → Idle now_ms k l → Leased now_ms k (take_lease l)
unfolding take_lease
take_lease-Leased now_ms k l h = ground arith

settle-Outcome :
    (now_ms i : ℕ) (keys : List KeyRuntime) (k : KeyRuntime) (admission : Admission)
    (r : KeyRuntime × Option Bool)
    → get_elem? keys i ≡ some k
    → Idle now_ms k r.0
    → admission ≢ deny
    → Outcome (λ j. j ≡ i) now_ms keys (settle keys i admission r)
settle-Outcome now_ms i keys k admission (l, none) found idle admitted =
    set-Alike now_ms i keys k l found idle
settle-Outcome now_ms i keys k admission (l, some permit) found idle admitted = (
  i,
  refl,
  refl,
  set-LeasedAt now_ms i keys k (take_lease l) found (take_lease-Leased now_ms k l idle),
  admitted,
)

with_key-Outcome :
    (Ok : ℕ → Type 0) (now_ms : ℕ) (keys : List KeyRuntime) (o : Option KeyRuntime)
    (use_key : KeyRuntime → Attempt)
    → ((k : KeyRuntime) → o ≡ some k → Outcome Ok now_ms keys (use_key k))
    → Outcome Ok now_ms keys (with_key keys o use_key)
with_key-Outcome Ok now_ms keys none use_key h = Alike-refl now_ms keys
with_key-Outcome Ok now_ms keys (some k) use_key h = h k refl

pub serve_one-Outcome :
    (keys : List KeyRuntime) (i now_ms : ℕ)
    → Outcome (λ j. j ≡ i) now_ms keys (serve_one keys i now_ms)
unfolding serve_one
serve_one-Outcome keys i now_ms =
    with_key-Outcome (λ j. j ≡ i) now_ms keys (get_elem? keys i) _
      λ k found.
        settle-Outcome now_ms i keys k allow (admit_now k now_ms) found (admit_now-Idle now_ms k)
          (λ e. cc)

-- The condition that the choice is among the candidates.
abbrev pub Among : List ℕ → ℕ → Type 0
Among candidates i = has i candidates ≡ true

serve_one-Among :
    (keys : List KeyRuntime) (i now_ms : ℕ) (candidates : List ℕ)
    → has i candidates ≡ true
    → Outcome (Among candidates) now_ms keys (serve_one keys i now_ms)
serve_one-Among keys i now_ms candidates h =
    Outcome-weaken (λ j. j ≡ i) (Among candidates) now_ms keys (serve_one keys i now_ms)
      (λ j e. rw e h) (serve_one-Outcome keys i now_ms)

retain-Among : (candidates : List ℕ) (j i : ℕ) → Among (retain j candidates) i → Among candidates i
retain-Among candidates j i h = ground (arith, has-retain i j candidates)

pub serve_loop-Outcome :
    (env : Env) (fuel round now_ms : ℕ) (candidates : List ℕ) (keys : List KeyRuntime)
    → Outcome (Among candidates) now_ms keys (serve_loop env fuel round now_ms candidates keys)
unfolding serve_loop
serve_loop-Outcome env zero round now_ms candidates keys = Alike-refl now_ms keys
serve_loop-Outcome env (suc fuel) round now_ms [] keys = Alike-refl now_ms keys
serve_loop-Outcome env (suc fuel) round now_ms (i ∷ rest) keys =
    let share = share_at env.floats keys in
    let picked = balanced_pick env.floats share (env.draw round) i rest in
    or_else-Outcome (Among (i ∷ rest)) now_ms keys (serve_one keys picked now_ms) _
      (serve_one-Among keys picked now_ms (i ∷ rest)
        (has-balanced_pick env.floats share (env.draw round) i rest))
      λ ls alike.
        Outcome-weaken (Among (retain picked (i ∷ rest))) (Among (i ∷ rest)) now_ms ls
          (serve_loop env fuel (suc round) now_ms (retain picked (i ∷ rest)) ls)
          (retain-Among (i ∷ rest) picked)
          (serve_loop-Outcome env fuel (suc round) now_ms (retain picked (i ∷ rest)) ls)

serve_pin-Outcome :
    (env : Env) (pinned : Option ℕ) (now_ms : ℕ) (candidates : List ℕ) (keys : List KeyRuntime)
    → ((i : ℕ) → pinned ≡ some i → has i candidates ≡ true)
    → Outcome (Among candidates) now_ms keys (serve_pin env pinned now_ms candidates keys)
unfolding serve_pin serve_from
serve_pin-Outcome env none now_ms candidates keys h =
    serve_loop-Outcome env (length candidates) 0 now_ms candidates keys
serve_pin-Outcome env (some i) now_ms candidates keys h =
    or_else-Outcome (Among candidates) now_ms keys (serve_one keys i now_ms) _
      (serve_one-Among keys i now_ms candidates (h i refl))
      λ ls alike.
        Outcome-weaken (Among (retain i candidates)) (Among candidates) now_ms ls
          (serve_from env now_ms (retain i candidates) ls) (retain-Among candidates i)
          (serve_loop-Outcome env (length (retain i candidates)) 0 now_ms (retain i candidates) ls)

pin-Among :
    (env : Env) (affinity : Option String) (candidates : List ℕ) (keys : List KeyRuntime) (i : ℕ)
    → pin env affinity candidates keys ≡ some i
    → has i candidates ≡ true
unfolding pin
pin-Among env none candidates keys i e = cc
pin-Among env (some session) candidates keys i e =
    has-pinned_seat (score_at env.blake3 session keys) i candidates e

-- The healthy part of the admission: one of the candidates is leased, or all keys are alike.
pub serve_pinned-Outcome :
    (env : Env) (affinity : Option String) (now_ms : ℕ) (candidates : List ℕ)
    (keys : List KeyRuntime)
    → Outcome (Among candidates) now_ms keys (serve_pinned env affinity now_ms candidates keys)
unfolding serve_pinned
serve_pinned-Outcome env affinity now_ms candidates keys =
    serve_pin-Outcome env (pin env affinity candidates keys) now_ms candidates keys
      (pin-Among env affinity candidates keys)

-- The key at a place is not benched.
abbrev pub Unbenched : ℕ → List KeyRuntime → ℕ → Type 0
Unbenched now_ms keys i =
    (k : KeyRuntime) → get_elem? keys i ≡ some k → is_benched k.breaker now_ms ≡ false

Unbenched-at :
    (now_ms i : ℕ) (keys : List KeyRuntime) (k : KeyRuntime)
    → get_elem? keys i ≡ some k
    → is_benched k.breaker now_ms ≡ false
    → (j : ℕ) → j ≡ i
    → (j ≡ i) × Unbenched now_ms keys j
Unbenched-at now_ms i keys k found unbenched j same = (same, λ l e. ground arith)

recover_admitted-Outcome :
    (now_ms i : ℕ) (keys : List KeyRuntime) (k l : KeyRuntime) (admission : Admission)
    → get_elem? keys i ≡ some k
    → Idle now_ms k l
    → (admission ≢ deny → is_benched k.breaker now_ms ≡ false)
    → Outcome
        (λ j. (j ≡ i) × Unbenched now_ms keys j)
        now_ms
        keys
        (recover_admitted keys i now_ms l admission)
unfolding recover_admitted recover_slot
recover_admitted-Outcome now_ms i keys k l deny found idle out =
    set-Alike now_ms i keys k l found idle
recover_admitted-Outcome now_ms i keys k l allow found idle out =
    Outcome-weaken (λ j. j ≡ i) (λ j. (j ≡ i) × Unbenched now_ms keys j) now_ms keys _
      (Unbenched-at now_ms i keys k found (out (λ e. cc)))
      (settle-Outcome now_ms i keys k allow (admit_now l now_ms) found
        (Idle-trans now_ms k l (admit_now l now_ms).0 idle (admit_now-Idle now_ms l)) (λ e. cc))
recover_admitted-Outcome now_ms i keys k l probe found idle out =
    Outcome-weaken (λ j. j ≡ i) (λ j. (j ≡ i) × Unbenched now_ms keys j) now_ms keys _
      (Unbenched-at now_ms i keys k found (out (λ e. cc)))
      (settle-Outcome now_ms i keys k probe (try_reserve_slot l) found
        (Idle-trans now_ms k l (try_reserve_slot l).0 idle (try_reserve_slot-Idle now_ms l))
        (λ e. cc))

recover_one-Outcome :
    (keys : List KeyRuntime) (i now_ms : ℕ)
    → Outcome (λ j. (j ≡ i) × Unbenched now_ms keys j) now_ms keys (recover_one keys i now_ms)
unfolding recover_one
recover_one-Outcome keys i now_ms =
    with_key-Outcome (λ j. (j ≡ i) × Unbenched now_ms keys j) now_ms keys (get_elem? keys i) _
      λ k found.
        recover_admitted-Outcome now_ms i keys k (record k { breaker = (admit k.breaker now_ms).0 })
          (admit k.breaker now_ms).1 found (admitted-Idle now_ms k)
          (not_deny-unbenched now_ms k.breaker)

-- The condition of the second part: a candidate that is not benched.
abbrev pub Recovers : ℕ → List KeyRuntime → List ℕ → ℕ → Type 0
Recovers now_ms keys candidates i = (has i candidates ≡ true) × Unbenched now_ms keys i

pub recover_loop-Outcome :
    (now_ms : ℕ) (candidates : List ℕ) (keys : List KeyRuntime)
    → Outcome (Recovers now_ms keys candidates) now_ms keys (recover_loop now_ms candidates keys)
unfolding recover_loop
recover_loop-Outcome now_ms [] keys = Alike-refl now_ms keys
recover_loop-Outcome now_ms (i ∷ rest) keys =
    or_else-Outcome (Recovers now_ms keys (i ∷ rest)) now_ms keys (recover_one keys i now_ms) _
      (Outcome-weaken _ (Recovers now_ms keys (i ∷ rest)) now_ms keys (recover_one keys i now_ms)
        (λ j h. (ground (arith, h.0), h.1)) (recover_one-Outcome keys i now_ms))
      λ ls alike.
        Outcome-weaken (Recovers now_ms ls rest) (Recovers now_ms keys (i ∷ rest)) now_ms ls
          (recover_loop now_ms rest ls)
          (λ j h. (ground (arith, h.0), Alike-unbenched now_ms keys ls j alike h.1))
          (recover_loop-Outcome now_ms rest ls)
