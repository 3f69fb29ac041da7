-- ===== src/Breaker.antt =====
-- crates/router-core/src/breaker.rs: the per-key circuit breaker. One packed word holds the state and
-- its timestamp; time is an argument of each call. Each operation here runs with no other thread
-- between its atomic accesses, so that its compare-exchange succeeds; Breaker/Threads has the
-- interleavings of the same accesses.
pub mod Word
pub mod Behaviour
pub mod Counting
pub mod Threads
pub mod Alone
pub mod SingleProbe
mod Examples
use rapidrouter.Prelude.{
  ℕ, ◌+◌, ◌-◌, Bool, true, false, not, ◌&&◌, Option, none, some, ltb, leb, ◌==◌, if◌then◌else◌, max,
  add32,
}
use Word.{pack, since_of, state_of, closed_state, open_state, half_open_state}

pub data Admission : Type 0 where
  allow probe deny : Admission

pub record BreakerConfig : Type 0 where
  pub failure_threshold : ℕ
  pub window_ms : ℕ
  pub cooldown_ms : ℕ

-- A deadline of 0 means that the key is not benched.
pub record Breaker : Type 0 where
  pub word : ℕ
  pub failures : ℕ
  pub window_start_ms : ℕ
  pub bench_until_ms : ℕ
  pub config : BreakerConfig

pub new : BreakerConfig → Breaker
unfolding pack
new config = record {
  word = pack 0 closed_state;
  failures = 0;
  window_start_ms = 0;
  bench_until_ms = 0;
  config = config;
}

-- Whether a bench is set and still running.
unfoldable pub is_benched : Breaker → ℕ → Bool
is_benched b now_ms = if b.bench_until_ms == 0 then false else ltb now_ms b.bench_until_ms

unfoldable pub looks_healthy : Breaker → ℕ → Bool
unfolding is_benched
looks_healthy b now_ms = state_of b.word == closed_state && not (is_benched b now_ms)

unfoldable pub is_open : Breaker → ℕ → Bool
unfolding looks_healthy
is_open b now_ms = not (looks_healthy b now_ms)

-- `fetch_max`: a deadline only moves later.
unfoldable pub bench_until : Breaker → ℕ → Breaker
bench_until b until_ms = record b { bench_until_ms = max b.bench_until_ms until_ms }

unfoldable pub benched_until_ms : Breaker → Option ℕ
benched_until_ms b = if b.bench_until_ms == 0 then none else some b.bench_until_ms

-- The words of the console: "benched", "healthy", "probing" and "open".
pub data Health : Type 0 where
  benched healthy probing opened : Health

unfoldable pub health : Breaker → ℕ → Health
unfolding is_benched
health b now_ms =
    if is_benched b now_ms
    then benched
    else if state_of b.word == closed_state
    then healthy
    else if state_of b.word == half_open_state
    then probing
    else opened

-- One round of the loop of `admit` on the word that it has read: an answer, or the word by which it
-- tries to claim the probe slot.
pub data Round : Type 0 where
  answer : Admission → Round
  claim : ℕ → Round

unfoldable pub admit_round : BreakerConfig → ℕ → ℕ → Round
unfolding pack
admit_round c now_ms current =
    if state_of current == closed_state
    then answer allow
    else if ltb (now_ms - since_of current) c.cooldown_ms
    then answer deny
    else claim (pack now_ms half_open_state)

admit_word : Breaker → ℕ → Breaker × Admission
unfolding admit_round
admit_word b now_ms = elim (admit_round b.config now_ms b.word) [
  | answer a ↦ (b, a)
  | claim next ↦ (record b { word = next }, probe)
]

unfoldable pub admit : Breaker → ℕ → Breaker × Admission
unfolding admit_word
admit b now_ms =
    if b.bench_until_ms == 0
    then admit_word b now_ms
    else if ltb now_ms b.bench_until_ms
    then (b, deny)
    else admit_word (record b { bench_until_ms = 0 }) now_ms

unfoldable pub record_success : Breaker → ℕ → Breaker
unfolding pack
record_success b now_ms = record b { failures = 0; word = pack 0 closed_state; bench_until_ms = 0 }

-- The count of a failure in the closed state: a new window begins at 1, or the running one grows.
count_failure : Breaker → ℕ → Breaker
count_failure b now_ms =
    if ltb b.config.window_ms (now_ms - b.window_start_ms)
    then record b { window_start_ms = now_ms; failures = 1 }
    else record b { failures = add32 b.failures 1 }

trip : Breaker → ℕ → Breaker
unfolding pack
trip b now_ms =
    if ltb b.failures b.config.failure_threshold
    then b
    else record b { word = pack now_ms open_state }

unfoldable pub record_failure : Breaker → ℕ → Breaker
unfolding pack count_failure trip
record_failure b now_ms =
    if state_of b.word == open_state
    then b
    else if state_of b.word == half_open_state
    then record b { word = pack now_ms open_state }
    else trip (count_failure b now_ms) now_ms
