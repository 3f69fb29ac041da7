-- ===== src/Live/Examples.antt =====
-- The live window of crates/router-server/src/usage.rs on a ring of two minutes with one key each.
use Prim.Native.String.{String}
use rapidrouter.Prelude.{ℕ, ◌≡◌, refl, none, arith}
use rapidrouter.Rollup.{UsageRecord}
use rapidrouter.Live.{Aggregator, new_aggregator, record_usage, floor_minute}
use rapidrouter.Live.Counts.{requests_at, requests_at-record_usage}

abbrev request : ℕ → String → UsageRecord
request ts model = record {
  ts = ts;
  provider = "groq";
  model = model;
  vkey = none;
  status = 200;
  input_tokens = 1;
  output_tokens = 2;
  cached_tokens = 0;
  cost_micro_usd = 3;
  latency_ms = 4;
  attempts = 1;
}

abbrev window : Aggregator
unfolding new_aggregator record_usage
window =
    record_usage 2 1 (record_usage 2 1 (new_aggregator 2 0) (request 60000 "a")) (request 60001 "a")

-- The second request of a minute that has its one key is not counted, although the key is the same.
hot_key_lost : requests_at 2 window 1 ≡ 1
unfolding requests_at window new_aggregator record_usage
hot_key_lost = refl

floor_of_window : floor_minute 2 window 600000 ≡ 9
unfolding floor_minute window record_usage new_aggregator
floor_of_window = refl

-- A record of two minutes before takes the slot.
requests_at-record_usage_example :
    requests_at 2 (record_usage 2 1 (new_aggregator 2 0) (request 60000 "a")) 3 ≡ 0
unfolding requests_at new_aggregator
requests_at-record_usage_example =
    requests_at-record_usage 2 1 (new_aggregator 2 0) (request 60000 "a") 3 (omega arith) refl
