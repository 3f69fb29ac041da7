-- ===== src/Router/Examples.antt =====
-- A provider with two labelled keys, and the theorems about crates/router-core/src/router.rs there.
use Prim.Native.String.{String}
use mathlib.Core.List.{Perm}
use rapidrouter.Prelude.{
  get, ℕ, ◌+◌, ◌-◌, ◌*◌, ◌≡◌, refl, true, none, some, [], ◌∷◌, is_some, ltb, leb, ◌==◌, arith,
}
use rapidrouter.Breaker.{Breaker, BreakerConfig, allow, looks_healthy}
use rapidrouter.Router.Floats.{FloatOps, IsOrdered}
use rapidrouter.Router.Key.{KeyRuntime, admit_now, try_reserve_slot, try_admit_request}
use rapidrouter.Router.Pick.{balanced_pick}
use rapidrouter.Router.Pool.{ProviderRuntime, Env, admit_for, recover_one}
use rapidrouter.Router.Selection.{Outcome}
use rapidrouter.Router.Ownership.{MaySpend, admit_for-MaySpend}
use rapidrouter.Router.Progress.{admit_for-some}
use rapidrouter.Router.Table.{
  TargetModel, RoutingGroup, RoutingTable, ResolvedRoute, RoutePlan, ok, plan, resolve_target,
  route_to, fallbacks_for,
}
use rapidrouter.Router.Plan.{plan-group}
use rapidrouter.Router.Ceilings.{recover_one-lost_probe}

-- Weights of 1, and shares small enough to be exact.
abbrev exact : FloatOps
exact = record {
  ratio = λ leases weight. leases;
  lt = ltb;
  eq = ◌==◌;
  total_le = leb;
  add = ◌+◌;
  sub = ◌-◌;
  mul = ◌*◌;
  le_zero = λ a. a == 0;
  draw_key = λ u weight. u;
}

abbrev env : Env
env = record { floats = exact; blake3 = λ text. 0; draw = λ round n i. 0 }

abbrev config : BreakerConfig
config = record { failure_threshold = 3; window_ms = 1000; cooldown_ms = 500 }

abbrev closed : Breaker
closed = record { word = 0; failures = 0; window_start_ms = 0; bench_until_ms = 0; config = config }

abbrev seat : String → String → ℕ → KeyRuntime
seat name tenant leases = record {
  name = name;
  weight = 1;
  models = none;
  tenant = some tenant;
  breaker = closed;
  rpm = none;
  tpm = none;
  max_concurrency = some 1;
  inflight = some 1;
  leases = leases;
}

abbrev pool : ProviderRuntime
pool = record {
  name = "codex";
  keys = seat "a" "slack" 4 ∷ seat "b" "agi" 7 ∷ seat "c" "slack" 2 ∷ [];
  provider_breaker = closed;
  managed = true;
}

-- The least used of the caller's own seats; a stranger gets none; a pool out of quota gives none.
levelled_choice :
    (admit_for env pool (some "gpt") (some "slack") none 10).1
    ≡ some (record { key = some 2; admission = allow; permit = true })
unfolding admit_for looks_healthy balanced_pick admit_now try_reserve_slot try_admit_request
levelled_choice = refl

stranger_gets_none : (admit_for env pool (some "gpt") (some "mail") none 10).1 ≡ none
unfolding admit_for
stranger_gets_none = refl

admit_for-MaySpend_example : Outcome (MaySpend pool (some "gpt") (some "slack") 10) 10 pool.keys (
  (admit_for env pool (some "gpt") (some "slack") none 10).0.keys,
  (admit_for env pool (some "gpt") (some "slack") none 10).1,
)
admit_for-MaySpend_example = admit_for-MaySpend env pool (some "gpt") (some "slack") none 10 refl

admit_for-some_example : is_some (admit_for env pool (some "gpt") (some "slack") none 10).1 ≡ true
unfolding admit_for admit_now looks_healthy try_reserve_slot try_admit_request
admit_for-some_example =
    admit_for-some env pool (some "gpt") (some "slack") none 10 0
      (seat "a" "slack" 4, refl, refl, refl, refl, refl)

exact-IsOrdered : IsOrdered exact (λ a. Unit)
exact-IsOrdered = record {
  lt_asymmetric = λ a b ra rb h. ground arith;
  lt_transitive = λ a b c ra rb rc h k. ground arith;
  eq_same = λ a b ra rb h. ground arith;
}

abbrev benched_pool : ProviderRuntime
benched_pool = record pool {
  keys = record (seat "a" "slack" 4) { breaker = record closed { bench_until_ms = 60000 } } ∷ [];
}

abbrev busy : KeyRuntime
busy = record (seat "a" "slack" 4) { inflight = some 0; breaker = record closed { word = 1 } }

recover_one-lost_probe_example : (recover_one (busy ∷ []) 0 600).1 ≡ none
recover_one-lost_probe_example =
    (recover_one-lost_probe (busy ∷ []) 0 600 700 busy refl refl refl refl (omega arith)
      (omega arith) (omega arith) (omega arith)).0

abbrev gpt : TargetModel
gpt = record { provider = "codex"; model = "gpt" }

abbrev gone : TargetModel
gone = record { provider = "gone"; model = "m" }

abbrev fast : RoutingGroup
fast = record {
  primary = record { target = gone; weight = 3 } ∷ record { target = gpt; weight = 1 } ∷ [];
  fallback = record { target = gpt; weight = 1 } ∷ [];
}

abbrev table : RoutingTable
table = record {
  providers = ("codex", pool) ∷ [];
  catalog = [];
  aliases = ("quick", gpt) ∷ [];
  fallbacks = (gpt, gone ∷ gpt ∷ []) ∷ [];
  groups = ("fast", fast) ∷ [];
  retries = record { max_attempts = 0; on = [] };
}

abbrev to_gpt : ResolvedRoute
to_gpt = record { provider = pool; upstream_model = "gpt" }

abbrev gpt_twice : RoutePlan
gpt_twice = record { targets = to_gpt ∷ to_gpt ∷ []; max_attempts_per_target = 1; retry_on = [] }

alias_plan : plan exact 0 (λ i. i) (λ i. i) table "quick" ≡ ok gpt_twice
unfolding plan resolve_target route_to get fallbacks_for
alias_plan = refl

fast_found : get table.groups "fast" ≡ some fast
unfolding get
fast_found = refl

plan-group_example :
    Perm (plan-group exact 0 (λ i. i) (λ i. i) table "fast" fast fast_found).0 (gone ∷ gpt ∷ [])
plan-group_example = (plan-group exact 0 (λ i. i) (λ i. i) table "fast" fast fast_found).2
