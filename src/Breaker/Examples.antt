-- ===== src/Breaker/Examples.antt =====
-- Runs of the breaker that the tests of crates/router-core/src/breaker.rs and
-- crates/router-core/tests/loom_models.rs also make, and the theorems at concrete breakers.
use rapidrouter.Prelude.{ℕ, ◌≡◌, ◌≤◌, refl, Bool, true, false, List, [], ◌∷◌, arith}
use rapidrouter.Breaker.{
  Breaker, BreakerConfig, allow, probe, deny, new, admit, record_failure, record_success,
  bench_until, health, looks_healthy, healthy, benched,
}
use rapidrouter.Breaker.Word.{state_of, open_state, since_of, pack, unpack-pack}
use rapidrouter.Breaker.Counting.{record_failures, record_failures-threshold}
use rapidrouter.Breaker.Threads.{Thread, admitting, failing, answered, finished, run, advance, step}
use rapidrouter.Breaker.SingleProbe.{probes, run-single_probe}

abbrev config : BreakerConfig
config = record { failure_threshold = 3; window_ms = 1000; cooldown_ms = 500 }

abbrev tripped : Breaker
tripped = record {
  word = 9;
  failures = 3;
  window_start_ms = 0;
  bench_until_ms = 0;
  config = config;
}

-- Three failures open the breaker; the cooldown admits one probe, and a success closes.
cooldown_admits_single_probe :
    let b = record_failures (new config) (0 ∷ 1 ∷ 2 ∷ []) in
    (b ≡ tripped)
    × ((admit b 100).1 ≡ deny)
    × ((admit b 600).1 ≡ probe)
    × ((admit (admit b 600).0 601).1 ≡ deny)
    × ((admit (record_success (admit b 600).0 650) 651).1 ≡ allow)
unfolding record_failures new record_failure admit record_success
cooldown_admits_single_probe = (refl, refl, refl, refl, refl)

-- A bench outranks a closed breaker, and its end is seen by selection and console.
elapsed_bench :
    let b = bench_until (new config) 5000 in
    (looks_healthy b 4999 ≡ false)
    × (health b 4999 ≡ benched)
    × (looks_healthy b 5000 ≡ true)
    × (health b 5000 ≡ healthy)
unfolding bench_until new looks_healthy health
elapsed_bench = (refl, refl, refl, refl)

unpack-pack_example : (since_of (pack 600 2) ≡ 600) × (state_of (pack 600 2) ≡ 2)
unpack-pack_example = unpack-pack 600 2 (omega arith) (omega arith)

abbrev one_failure : Breaker
one_failure = record tripped { word = 0; failures = 1 }

record_failures-threshold_example :
    state_of (record_failures one_failure (10 ∷ 20 ∷ 30 ∷ [])).word ≡ open_state
record_failures-threshold_example =
    (record_failures-threshold one_failure (10 ∷ 20 ∷ 30 ∷ []) refl (omega arith) (omega arith)
        (omega arith)).1
      (omega arith)

-- Two callers race for the probe slot while a third reports a failure.
abbrev racers : List Thread
racers = admitting 600 ∷ admitting 601 ∷ failing 602 ∷ []

abbrev race : List (Bool × ℕ)
race =
    (false, 0)
    ∷ (false, 0)
    ∷ (false, 1)
    ∷ (false, 1)
    ∷ (false, 2)
    ∷ (true, 0)
    ∷ (false, 1)
    ∷ (false, 0)
    ∷ (false, 0)
    ∷ (false, 2)
    ∷ []

race_winner :
    (run race tripped racers).1 ≡ answered 600 deny ∷ answered 601 probe ∷ finished 602 ∷ []
unfolding run advance step
race_winner = refl

run-single_probe_example : probes (run race tripped racers).1 ≤ 1
run-single_probe_example = run-single_probe race 600 tripped racers (omega arith) refl
