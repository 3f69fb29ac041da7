-- ===== src/Proxy/Examples.antt =====
-- Requests to a provider without keys that first refuses, and the theorems about
-- crates/router-server/src/proxy.rs there.
use rapidrouter.Prelude.{
  ℕ, ◌+◌, ◌≡◌, ◌≢◌, ◌⊎◌, ◌↔◌, refl, true, false, none, some, [], ◌∷◌, ◌==◌, if◌then◌else◌,
}
use rapidrouter.Errors.{GatewayError, http_status}
use rapidrouter.Breaker.{Breaker, BreakerConfig, allow, admit as admit_breaker}
use rapidrouter.Router.Floats.{FloatOps}
use rapidrouter.Router.Pool.{ProviderRuntime, KeyChoice, admit_for}
use rapidrouter.Router.Table.{ResolvedRoute, RoutePlan, status_429}
use rapidrouter.Vkey.Runtime.{VkRuntime, allows_model, admit, period_ordinal}
use rapidrouter.Proxy.{Pool, Pools, resolved_name, vk_gate}
use rapidrouter.Proxy.Reply.{TranslationCtx, ReplyBody, replied, attempt}
use rapidrouter.Proxy.Dispatch.{ready, World, Result, result_of, dispatch}
use rapidrouter.Proxy.Permits.{held_by, dispatch-permits}
use rapidrouter.Proxy.Gate.{is_retry, vk_gate-judges}

abbrev floats : FloatOps
floats = record {
  ratio = λ leases weight. leases;
  lt = λ a b. false;
  eq = λ a b. true;
  total_le = λ a b. true;
  add = λ a b. a;
  sub = λ a b. a;
  mul = λ a b. a;
  le_zero = λ a. false;
  draw_key = λ u weight. u;
}

abbrev config : BreakerConfig
config = record { failure_threshold = 3; window_ms = 1000; cooldown_ms = 500 }

abbrev closed : Breaker
closed = record { word = 0; failures = 0; window_start_ms = 0; bench_until_ms = 0; config = config }

abbrev keyless : ProviderRuntime
keyless = record { name = "local"; keys = []; provider_breaker = closed; managed = false }

abbrev local : Pool
local = record { runtime = keyless; is_subscription = false; free = 2 }

abbrev pools : Pools
pools name = local

abbrev route : ResolvedRoute
route = record { provider = keyless; upstream_model = "m" }

abbrev plan : RoutePlan
plan = record { targets = route ∷ []; max_attempts_per_target = 2; retry_on = status_429 ∷ [] }

-- The dialect of the provider is another than the caller's, and the answer is not streamed.
abbrev ctx : TranslationCtx
ctx = record { passthrough = false; stream = false; codex = true }

abbrev body : ReplyBody
body = record {
  is_whole = true;
  failure = none;
  refused_ms = 20;
  bench_end_ms = 120020;
  judged_ms = 20;
}

abbrev overloaded : ReplyBody
overloaded = record body { failure = some (record { code = "server_is_overloaded" }) }

-- Every attempt but the one at `n` is refused with 429.
abbrev answers_at : ℕ → World
answers_at n = record {
  outbound = λ t. ready;
  ctx = λ t. ctx;
  budget_now = λ t. 10;
  now = λ t a. 10;
  draws = λ t a. record { floats = floats; blake3 = λ text. 0; draw = λ round m i. 0 };
  request = λ t a. none;
  reply = λ t a. replied (if a == n then 200 else 429) none false body;
  reply_now = λ t a. 20;
}

-- The second attempt is the last: what it replies is served, whatever it is.
abbrev choice : KeyChoice
choice = record { key = none; admission = allow; permit = false }

last_served : (dispatch (answers_at 5) plan none pools).1 ≡ Result.serving "local" choice false
unfolding dispatch result_of admit_for admit_breaker
last_served = refl

dispatch-permits_example :
    let (turn, result) = dispatch (answers_at 1) plan none pools in
    (turn.pools "local").free + held_by result "local" ≡ (pools "local").free
dispatch-permits_example = dispatch-permits (answers_at 1) plan none pools "local"

refused_again :
    is_retry (attempt local choice "m" [] false ctx 20 (replied 200 none false overloaded)).1 ≡ true
unfolding attempt
refused_again = refl

abbrev scoped : VkRuntime
scoped = record {
  def = record {
    id = "00aaff";
    name = "alice";
    secret_hash = "";
    prev_secret = none;
    models = "m" ∷ [];
    tenant = none;
    budget = none;
    rate = none;
    expires_ms = none;
    tags = [];
    enabled = true;
    created_ms = 0;
  };
  hash = none;
  prev = none;
  rpm = none;
  tpm = none;
  spend = 0;
  shares = 1;
}

-- The model is allowed, and the key has no limits.
vk_gate-judges_example :
    let allowed = allows_model scoped "m" (resolved_name plan.targets) in
    let admitted = admit (λ usd. usd) scoped 10 (period_ordinal scoped 20) in
    let gate = vk_gate (λ usd. usd) scoped "m" plan 20 10 in
    ((gate.1 ≡ none) ↔ ((allowed ≡ true) × (admitted.1 ≡ none)))
    × ((error : GatewayError)
        → gate.1 ≡ some error
        → ((http_status error.class ≡ 403)
            × (error.param ≡ some "model")
            × (allowed ≡ false)
            × (gate.0 ≡ scoped))
          ⊎ ((http_status error.class ≡ 429)
              × (allowed ≡ true)
              × (admitted.1 ≢ none)
              × (gate.0 ≡ admitted.0)))
vk_gate-judges_example = vk_gate-judges (λ usd. usd) scoped "m" plan 20 10
