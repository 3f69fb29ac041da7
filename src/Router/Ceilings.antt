-- ===== src/Router/Ceilings.antt =====
-- The ceilings of one key of crates/router-core/src/router.rs.
use rapidrouter.Prelude.{
  ℕ, zero, suc, ◌+◌, List, [], ◌∷◌, get_elem?, set, ◌≡◌, refl, none, some, is_some, arith, ◌≤◌, ◌<◌,
}
use rapidrouter.Breaker.{admit, deny}
use rapidrouter.Breaker.Word.{
  pack, since_of, state_of, open_state, half_open_state, time_limit, unpack-pack,
}
use rapidrouter.Router.Pool.{recover_one}
use rapidrouter.TokenBucket.{TokenBucket, refill, try_consume, available_tokens}
use rapidrouter.Router.Key.{
  KeyRuntime, try_admit_request, try_reserve_slot, admit_now, has_headroom,
}

refill_again : (b : TokenBucket) (now_ms : ℕ) → refill (refill b now_ms) now_ms ≡ refill b now_ms
unfolding refill
refill_again b now_ms = ground arith

-- A key has headroom exactly when it would admit the request: the sentence that a refused caller reads
-- agrees with the selection. And a refusal gives back the slot that it took.
pub has_headroom-admit_now :
    (k : KeyRuntime) (now_ms : ℕ)
    → ((has_headroom k now_ms).1 ≡ is_some (admit_now k now_ms).1)
      × ((admit_now k now_ms).1 ≡ none → (admit_now k now_ms).0.inflight ≡ k.inflight)
unfolding has_headroom admit_now try_admit_request try_reserve_slot try_consume available_tokens
has_headroom-admit_now k now_ms = (ground arith, ground arith)

get-set_self :
    (keys : List KeyRuntime) (i : ℕ) (k l : KeyRuntime)
    → get_elem? keys i ≡ some k
    → get_elem? (set keys i l) i ≡ some l
get-set_self [] i k l e = cc
get-set_self (x ∷ keys) zero k l e = refl
get-set_self (x ∷ keys) (suc i) k l e = get-set_self keys i k l e

-- A key with no bench deadline, whose breaker is open past its cooldown and whose slots are all taken, is
-- passed over; but its probe slot is claimed on the way, with no request sent, and until a cooldown later the breaker denies
-- everyone, also when a slot is free again.
pub recover_one-lost_probe :
    (keys : List KeyRuntime) (i now_ms later_ms : ℕ) (k : KeyRuntime)
    → get_elem? keys i ≡ some k
    → k.inflight ≡ some 0
    → k.breaker.bench_until_ms ≡ 0
    → state_of k.breaker.word ≡ open_state
    → since_of k.breaker.word + k.breaker.config.cooldown_ms ≤ now_ms
    → now_ms ≤ later_ms
    → later_ms < now_ms + k.breaker.config.cooldown_ms
    → now_ms < time_limit
    → ((recover_one keys i now_ms).1 ≡ none)
      × (get_elem? (recover_one keys i now_ms).0 i
          ≡ some (record k { breaker = record k.breaker { word = pack now_ms half_open_state } }))
      × ((admit (record k.breaker { word = pack now_ms half_open_state }) later_ms).1 ≡ deny)
unfolding recover_one try_reserve_slot admit
recover_one-lost_probe keys i now_ms later_ms k found full clear stuck cool after soon small =
    ground (
      arith,
      unpack-pack now_ms half_open_state,
      get-set_self keys i k
          (record k { breaker = record k.breaker { word = pack now_ms half_open_state } }),
    )
