-- ===== src/Breaker/Behaviour.antt =====
-- What one call of the breaker answers, and how a bench, the state and the cooldown decide it.
use rapidrouter.Prelude.{if◌then◌else◌, ltb, ℕ, ◌+◌, ◌-◌, ◌≤◌, ◌<◌, ◌≡◌, ◌≢◌, ◌↔◌, true, arith}
use rapidrouter.Breaker.{
  Breaker, allow, probe, deny, healthy, looks_healthy, bench_until, health, admit, record_success,
  record_failure,
}
use rapidrouter.Breaker.Word.{
  since_of, state_of, closed_state, open_state, half_open_state, time_limit, unpack-pack,
}

-- A key looks healthy exactly when `admit` would let a request through outright, and exactly when the
-- console calls it healthy: the view that selection uses agrees with the authority.
pub looks_healthy-admit :
    (b : Breaker) (now_ms : ℕ)
    → ((looks_healthy b now_ms ≡ true) ↔ ((admit b now_ms).1 ≡ allow))
      × ((looks_healthy b now_ms ≡ true) ↔ (health b now_ms ≡ healthy))
unfolding looks_healthy admit health
looks_healthy-admit b now_ms = ground arith

-- While a bench runs `admit` denies and changes nothing, whatever the state of the breaker; from the
-- deadline on it answers as an unbenched breaker does, and the bench is cleared.
pub admit-bench_until :
    (b : Breaker) (until_ms now_ms : ℕ)
    → b.bench_until_ms ≤ until_ms
    → (now_ms < until_ms → admit (bench_until b until_ms) now_ms ≡ (bench_until b until_ms, deny))
      × (until_ms ≤ now_ms
          → admit (bench_until b until_ms) now_ms ≡ admit (record b { bench_until_ms = 0 }) now_ms)
unfolding admit bench_until
admit-bench_until b until_ms now_ms h = ground arith

-- A denied breaker recovers: not benched and out of its cooldown, an open or half-open breaker hands
-- out the probe slot; every further call within a cooldown of that is denied, and the first call after
-- it is a probe again. A failed probe reopens for a full cooldown, a successful one closes.
pub admit-probe :
    (b : Breaker) (now_ms later_ms : ℕ)
    → b.bench_until_ms ≡ 0
    → state_of b.word ≢ closed_state
    → since_of b.word + b.config.cooldown_ms ≤ now_ms
    → now_ms < time_limit
    → now_ms ≤ later_ms
    → let b' = (admit b now_ms).0 in
      ((admit b now_ms).1 ≡ probe)
      × ((admit b' later_ms).1
          ≡ (if ltb (later_ms - now_ms) b.config.cooldown_ms then deny else probe))
      × ((admit (record_failure b' now_ms) later_ms).1
          ≡ (if ltb (later_ms - now_ms) b.config.cooldown_ms then deny else probe))
      × ((admit (record_success b' now_ms) later_ms).1 ≡ allow)
unfolding admit record_failure record_success
admit-probe b now_ms later_ms nobench stuck cool small after = ground (
  arith,
  unpack-pack now_ms half_open_state,
  unpack-pack now_ms open_state,
  unpack-pack 0 closed_state,
)
