-- ===== src/Breaker/Alone.antt =====
-- The calls as written in Breaker are what their threads do when no other thread runs between the
-- accesses.
use rapidrouter.Prelude.{ℕ, ◌≡◌, arith}
use rapidrouter.Breaker.{Breaker, admit, record_success, record_failure, bench_until}
use rapidrouter.Breaker.Threads.{
  admitting, answered, succeeding, failing, benching, finished, advance, run_alone,
}

-- Alone, `admit` returns within 4 steps, `record_success` within 3, `record_failure` within 7 and
-- `bench_until` with 1, and they leave the breaker and the answer that the sequential calls give.
pub run_alone-calls :
    (b : Breaker) (now_ms until_ms : ℕ)
    → (run_alone 4 b (admitting now_ms) ≡ ((admit b now_ms).0, answered now_ms (admit b now_ms).1))
      × (run_alone 3 b (succeeding now_ms) ≡ (record_success b now_ms, finished now_ms))
      × (run_alone 7 b (failing now_ms) ≡ (record_failure b now_ms, finished now_ms))
      × (run_alone 1 b (benching now_ms until_ms) ≡ (bench_until b until_ms, finished now_ms))
unfolding run_alone advance admit record_success record_failure bench_until
run_alone-calls b now_ms until_ms = (ground arith, ground arith, ground arith, ground arith)
