-- ===== src/Rollup/Examples.antt =====
-- Records of two flushes, and the theorem about crates/router-server/src/usage.rs there.
use rapidrouter.Prelude.{ℕ, ◌*◌, ◌≡◌, refl, some, [], ◌∷◌, ◌++◌, length}
use rapidrouter.Histogram.{Scale}
use rapidrouter.Rollup.{UsageRecord, fold_rows, roll_up}
use rapidrouter.Rollup.Fold.{fold_rows-roll_up}

abbrev doubled : Scale
doubled = record { steps = λ ms. ms; power = λ b. b * 2; rank = λ p n. n }

abbrev served : ℕ → ℕ → UsageRecord
served ts status = record {
  ts = ts;
  provider = "local";
  model = "m";
  vkey = some "00aaff";
  status = status;
  input_tokens = 3;
  output_tokens = 5;
  cached_tokens = 0;
  cost_micro_usd = 7;
  latency_ms = 2;
  attempts = 1;
}

two_hours : length (roll_up doubled (served 10 200 ∷ served 3600001 500 ∷ served 20 429 ∷ [])) ≡ 2
unfolding roll_up
two_hours = refl

fold_rows-roll_up_example :
    fold_rows (
      roll_up doubled (served 10 200 ∷ [])
      ++ roll_up doubled (served 20 429 ∷ served 3600001 200 ∷ []))
    ≡ roll_up doubled ((served 10 200 ∷ []) ++ (served 20 429 ∷ served 3600001 200 ∷ []))
fold_rows-roll_up_example =
    fold_rows-roll_up doubled (served 10 200 ∷ []) (served 20 429 ∷ served 3600001 200 ∷ [])
