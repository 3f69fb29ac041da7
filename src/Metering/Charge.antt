-- ===== src/Metering/Charge.antt =====
-- crates/router-server/src/usage.rs, `UsageHook::complete_with_body`: what a completed response is charged
-- to, and the record of it. The price of a usage is a float computation and an argument; the wall clock and
-- the monotonic clock are arguments. The runtimes are shared, and are given as they are when it is called.
-- Events for the console, prompts and bodies are left out.
use Prim.Native.String.{String}
use rapidrouter.Prelude.{ℕ, Option, none, some, List, [], ◌∷◌, str_eq, if◌then◌else◌}
use rapidrouter.Vkey.Runtime.{VkRuntime, debit_usage, period_ordinal}
use rapidrouter.Router.Key.{KeyRuntime, debit_tokens}
use rapidrouter.Rollup.{UsageRecord}
use rapidrouter.Metering.{TokenUsage, billable}

-- The hook, with the provider's keys and the name of the one that served the request, if one did.
pub record UsageHook : Type 0 where
  pub vkey : Option VkRuntime
  pub keys : List KeyRuntime
  pub seat : Option String
  pub provider : String
  pub model : String
  pub attempts : ℕ
  pub latency_ms : ℕ

unfoldable pub charge_vkey : Option VkRuntime → TokenUsage → ℕ → ℕ → ℕ → Option VkRuntime
charge_vkey none usage cost now_unix now_ms = none
charge_vkey (some vk) usage cost now_unix now_ms =
    some (debit_usage vk (billable usage) cost now_ms (period_ordinal vk now_unix))

-- The first key of the name.
unfoldable pub charge_key : List KeyRuntime → String → TokenUsage → ℕ → List KeyRuntime
charge_key [] name usage now_ms = []
charge_key (k ∷ rest) name usage now_ms =
    let others = charge_key rest name usage now_ms in
    if str_eq k.name name then debit_tokens k (billable usage) now_ms ∷ rest else k ∷ others

unfoldable pub charge_seat : List KeyRuntime → Option String → TokenUsage → ℕ → List KeyRuntime
unfolding charge_key
charge_seat keys none usage now_ms = keys
charge_seat keys (some name) usage now_ms = charge_key keys name usage now_ms

vkey_id : Option VkRuntime → Option String
vkey_id none = none
vkey_id (some vk) = some vk.def.id

unfoldable pub record_of : UsageHook → ℕ → TokenUsage → ℕ → ℕ → UsageRecord
unfolding vkey_id
record_of h status usage cost now_unix = record {
  ts = now_unix;
  provider = h.provider;
  model = h.model;
  vkey = vkey_id h.vkey;
  status = status;
  input_tokens = usage.input;
  output_tokens = usage.output;
  cached_tokens = usage.cached;
  cost_micro_usd = cost;
  latency_ms = h.latency_ms;
  attempts = h.attempts;
}

unfoldable pub complete_with_body :
    (TokenUsage → ℕ)
    → UsageHook
    → ℕ
    → TokenUsage
    → ℕ
    → ℕ
    → Option VkRuntime × List KeyRuntime × UsageRecord
unfolding charge_vkey charge_seat record_of
complete_with_body price h status usage now_unix now_ms = (
  charge_vkey h.vkey usage (price usage) now_unix now_ms,
  charge_seat h.keys h.seat usage now_ms,
  record_of h status usage (price usage) now_unix,
)
