-- ===== src/Rollup.antt =====
-- crates/router-server/src/usage.rs: the hourly rows that records of usage are added up in, and the rows'
-- folding. The fields of a record that no row counts are left out. A map from keys to rows is the list of
-- its rows, in no order.
pub mod Sums
pub mod Fold
mod Examples
use Prim.Native.String.{String}
use text.Mathlib.Text.{◌==◌ as str_eq}
use rapidrouter.Prelude.{
  ℕ, ◌-◌, ◌%◌, Bool, true, false, ◌&&◌, Option, none, some, List, [], ◌∷◌, leb, ◌==◌, if◌then◌else◌,
  add64,
}
use rapidrouter.Histogram.{Scale, LatencyHistogram, merge, record_ms}

abbrev pub hour : ℕ
hour = 3600000

pub record UsageRecord : Type 0 where
  pub ts : ℕ
  pub provider : String
  pub model : String
  pub vkey : Option String
  pub status : ℕ
  pub input_tokens : ℕ
  pub output_tokens : ℕ
  pub cached_tokens : ℕ
  pub cost_micro_usd : ℕ
  pub latency_ms : ℕ
  pub attempts : ℕ

pub record RollupRow : Type 0 where
  pub hour_ms : ℕ
  pub provider : String
  pub model : String
  pub vkey : Option String
  pub requests : ℕ
  pub failed : ℕ
  pub input_tokens : ℕ
  pub output_tokens : ℕ
  pub cached_tokens : ℕ
  pub cost_micro_usd : ℕ
  pub latency_ms_sum : ℕ
  pub attempts : ℕ
  pub latency : LatencyHistogram

unfoldable pub same_vkey : Option String → Option String → Bool
same_vkey none none = true
same_vkey (some a) (some b) = str_eq a b
same_vkey _ _ = false

-- `key() == key()`.
unfoldable pub same_key : RollupRow → RollupRow → Bool
unfolding same_vkey
same_key a b =
    (a.hour_ms == b.hour_ms)
    && (str_eq a.provider b.provider && (str_eq a.model b.model && same_vkey a.vkey b.vkey))

unfoldable pub absorb : RollupRow → RollupRow → RollupRow
unfolding merge
absorb row other = record row {
  requests = add64 row.requests other.requests;
  failed = add64 row.failed other.failed;
  input_tokens = add64 row.input_tokens other.input_tokens;
  output_tokens = add64 row.output_tokens other.output_tokens;
  cached_tokens = add64 row.cached_tokens other.cached_tokens;
  cost_micro_usd = add64 row.cost_micro_usd other.cost_micro_usd;
  latency_ms_sum = add64 row.latency_ms_sum other.latency_ms_sum;
  attempts = add64 row.attempts other.attempts;
  latency = merge row.latency other.latency;
}

unfoldable pub empty_row : ℕ → String → String → Option String → RollupRow
empty_row hour_ms provider model vkey = record {
  hour_ms = hour_ms;
  provider = provider;
  model = model;
  vkey = vkey;
  requests = 0;
  failed = 0;
  input_tokens = 0;
  output_tokens = 0;
  cached_tokens = 0;
  cost_micro_usd = 0;
  latency_ms_sum = 0;
  attempts = 0;
  latency = [];
}

-- A row is folded onto the row of its key, if there is one.
unfoldable pub fold_row : List RollupRow → RollupRow → List RollupRow
unfolding same_key absorb
fold_row [] row = row ∷ []
fold_row (slot ∷ rest) row =
    let later = fold_row rest row in
    if same_key slot row then absorb slot row ∷ rest else slot ∷ later

unfoldable pub fold_onto : List RollupRow → List RollupRow → List RollupRow
unfolding fold_row
fold_onto merged [] = merged
fold_onto merged (row ∷ rest) = fold_onto (fold_row merged row) rest

unfoldable pub fold_rows : List RollupRow → List RollupRow
unfolding fold_onto
fold_rows rows = fold_onto [] rows

module _ (scale : Scale) where
  -- What a record adds to the row of its key.
  unfoldable pub note_record : RollupRow → UsageRecord → RollupRow
  unfolding record_ms
  note_record row rec = record row {
    requests = add64 row.requests 1;
    failed = if leb 400 rec.status then add64 row.failed 1 else row.failed;
    input_tokens = add64 row.input_tokens rec.input_tokens;
    output_tokens = add64 row.output_tokens rec.output_tokens;
    cached_tokens = add64 row.cached_tokens rec.cached_tokens;
    cost_micro_usd = add64 row.cost_micro_usd rec.cost_micro_usd;
    latency_ms_sum = add64 row.latency_ms_sum rec.latency_ms;
    attempts = add64 row.attempts rec.attempts;
    latency = record_ms scale row.latency rec.latency_ms;
  }

  abbrev pub row_of : UsageRecord → RollupRow
  row_of rec = empty_row (rec.ts - (rec.ts % hour)) rec.provider rec.model rec.vkey

  unfoldable pub roll_record : List RollupRow → UsageRecord → List RollupRow
  unfolding same_key note_record empty_row
  roll_record [] rec = note_record (row_of rec) rec ∷ []
  roll_record (slot ∷ rest) rec =
      let later = roll_record rest rec in
      if same_key slot (row_of rec) then note_record slot rec ∷ rest else slot ∷ later

  unfoldable pub roll_onto : List RollupRow → List UsageRecord → List RollupRow
  unfolding roll_record
  roll_onto rows [] = rows
  roll_onto rows (rec ∷ rest) = roll_onto (roll_record rows rec) rest

  unfoldable pub roll_up : List UsageRecord → List RollupRow
  unfolding roll_onto
  roll_up batch = roll_onto [] batch
