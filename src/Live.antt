-- ===== src/Live.antt =====
-- crates/router-server/src/usage.rs, `Aggregator`: the live window, a ring of minutes with the totals of
-- each. The number of slots and the bound on the keys of a minute are arguments, `minutes` and
-- `max_keys_per_minute` in the source; the locks of the slots are taken one at a time.
pub mod Counts
mod Examples
use Prim.Native.String.{String}
use rapidrouter.Prelude.{
  ℕ, zero, suc, ◌-◌, ◌/◌, ◌%◌, Bool, true, false, not, ◌&&◌, Option, none, some, List, [], ◌∷◌,
  length, set, get_elem?, leb, ◌==◌, if◌then◌else◌, add64, min, max, str_eq,
}
use rapidrouter.Rollup.{UsageRecord, same_vkey}

abbrev pub minutes : ℕ
minutes = 1440

abbrev pub max_keys_per_minute : ℕ
max_keys_per_minute = 512

pub record AggKey : Type 0 where
  pub provider : String
  pub model : String
  pub vkey : Option String

same_agg_key : AggKey → AggKey → Bool
unfolding same_vkey
same_agg_key a b =
    str_eq a.provider b.provider && (str_eq a.model b.model && same_vkey a.vkey b.vkey)

pub record AggCell : Type 0 where
  pub requests : ℕ
  pub errors : ℕ
  pub input_tokens : ℕ
  pub output_tokens : ℕ
  pub cost_micro_usd : ℕ
  pub latency_ms_sum : ℕ

abbrev pub empty_cell : AggCell
empty_cell = record {
  requests = 0;
  errors = 0;
  input_tokens = 0;
  output_tokens = 0;
  cost_micro_usd = 0;
  latency_ms_sum = 0;
}

pub record MinuteSlot : Type 0 where
  pub minute : ℕ
  pub cells : List (AggKey × AggCell)

pub record Aggregator : Type 0 where
  pub slots : List MinuteSlot
  pub since_minute : ℕ

empty_slots : ℕ → List MinuteSlot
empty_slots zero = []
empty_slots (suc n) = record { minute = 0; cells = [] } ∷ empty_slots n

-- `Aggregator::new`, at a time.
unfoldable pub new_aggregator : ℕ → ℕ → Aggregator
unfolding empty_slots
new_aggregator count now_ms = record { slots = empty_slots count; since_minute = now_ms / 60000 }

unfoldable pub floor_minute : ℕ → Aggregator → ℕ → ℕ
floor_minute count a now_ms = max a.since_minute (now_ms / 60000 - (count - 1))

unfoldable pub note_in_cell : UsageRecord → AggCell → AggCell
note_in_cell rec cell = record {
  requests = add64 cell.requests 1;
  errors = if leb 400 rec.status then add64 cell.errors 1 else cell.errors;
  input_tokens = add64 cell.input_tokens rec.input_tokens;
  output_tokens = add64 cell.output_tokens rec.output_tokens;
  cost_micro_usd = add64 cell.cost_micro_usd rec.cost_micro_usd;
  latency_ms_sum = add64 cell.latency_ms_sum rec.latency_ms;
}

-- `entry(key).or_default()`, and the additions to it.
unfoldable pub add_to : List (AggKey × AggCell) → AggKey → UsageRecord → List (AggKey × AggCell)
unfolding same_agg_key note_in_cell
add_to [] key rec = (key, note_in_cell rec empty_cell) ∷ []
add_to ((at, cell) ∷ rest) key rec =
    if same_agg_key key at
    then (at, note_in_cell rec cell) ∷ rest
    else (at, cell) ∷ add_to rest key rec

key_of_record : UsageRecord → AggKey
key_of_record rec = record { provider = rec.provider; model = rec.model; vkey = rec.vkey }

-- A slot that holds another minute is cleared for this one first.
unfoldable pub claim_minute : MinuteSlot → ℕ → MinuteSlot
claim_minute slot minute =
    if not (slot.minute == minute) then record { minute = minute; cells = [] } else slot

unfoldable pub record_in : ℕ → MinuteSlot → UsageRecord → MinuteSlot
unfolding claim_minute add_to key_of_record
record_in max_keys slot rec =
    let held = claim_minute slot (rec.ts / 60000) in
    if leb max_keys (length held.cells)
    then held
    else record held { cells = add_to held.cells (key_of_record rec) rec }

in_slot : ℕ → List MinuteSlot → ℕ → UsageRecord → Option MinuteSlot → List MinuteSlot
unfolding record_in
in_slot max_keys slots i rec none = slots
in_slot max_keys slots i rec (some slot) = set slots i (record_in max_keys slot rec)

-- `Aggregator::record`.
unfoldable pub record_usage : ℕ → ℕ → Aggregator → UsageRecord → Aggregator
unfolding in_slot
record_usage count max_keys a rec =
    let minute = rec.ts / 60000 in
    let i = minute % count in
    record {
      slots = in_slot max_keys a.slots i rec (get_elem? a.slots i);
      since_minute = min a.since_minute minute;
    }
