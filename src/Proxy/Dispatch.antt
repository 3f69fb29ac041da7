-- ===== src/Proxy/Dispatch.antt =====
-- The loops of `run_chat` in crates/router-server/src/proxy.rs: the targets of the plan in turn, and for
-- each the attempts of its budget.
use Prim.Native.String.{String}
use rapidrouter.Prelude.{
  ℕ, zero, suc, ◌-◌, Bool, true, false, ◌&&◌, Option, none, some, List, [], ◌∷◌, is_empty, ◌==◌,
  if◌then◌else◌,
}
use rapidrouter.Errors.{GatewayError, new_error, with_provider, no_capacity}
use rapidrouter.Router.Pool.{ProviderRuntime, Env, KeyChoice, admit_for}
use rapidrouter.Router.Table.{ResolvedRoute, RoutePlan}
use rapidrouter.Proxy.{Pool, Pools, set_pool, attempt_budget, pool_empty}
use rapidrouter.Proxy.Reply.{
  AttemptOutcome, serve, retry, TranslationCtx, Reply, attempt, drop_seat, drop_permit,
}

-- What the translators make of the request for a target: no adapter (with the error for it), an error that
-- is the caller's to mend, or a body.
pub data Outbound : Type 0 where
  unavailable : GatewayError → Outbound
  refused : GatewayError → Outbound
  ready : Outbound

-- The outside, by the place of the target and of the attempt. `request` is the error of the request that
-- cannot be put together, if it cannot.
pub record World : Type 0 where
  pub outbound : ℕ → Outbound
  pub ctx : ℕ → TranslationCtx
  pub budget_now : ℕ → ℕ
  pub now : ℕ → ℕ → ℕ
  pub draws : ℕ → ℕ → Env
  pub request : ℕ → ℕ → Option GatewayError
  pub reply : ℕ → ℕ → Reply
  pub reply_now : ℕ → ℕ → ℕ

-- The loop's variables, and the pools that all requests share.
pub record Turn : Type 0 where
  pub pools : Pools
  pub attempts : ℕ
  pub last_error : Option GatewayError

-- How a part of the loop ends: with the next part, with an answer, or with an error that is returned.
pub data Exit : Type 0 where
  next : Exit
  answered : (provider : String) → KeyChoice → (holds : Bool) → Exit
  returned : GatewayError → Exit

-- After the attempt.
unfoldable pub after_attempt : Turn → String → KeyChoice → Pool × AttemptOutcome → Turn × Exit
unfolding set_pool
after_attempt turn name choice (pool, serve holds) =
    (record turn { pools = set_pool turn.pools name pool }, Exit.answered name choice holds)
after_attempt turn name choice (pool, retry error) =
    (record turn { pools = set_pool turn.pools name pool; last_error = some error }, Exit.next)

-- The next round, unless this one broke out of the loop or ended the request; the next target, unless the
-- request has ended.
abbrev pub unless_over : (Turn × Exit) × Bool → (Turn → Turn × Exit) → Turn × Exit
unless_over ((turn, Exit.next), false) more = more turn
unless_over (ended, _) more = ended

abbrev pub then_next : Turn × Exit → (Turn → Turn × Exit) → Turn × Exit
then_next (turn, Exit.next) more = more turn
then_next ended more = ended

pub data Result : Type 0 where
  serving : (provider : String) → KeyChoice → (holds : Bool) → Result
  failing : GatewayError → Result

unfoldable pub result_of : Exit → Option GatewayError → Result
unfolding new_error
result_of (Exit.answered provider choice holds) last = serving provider choice holds
result_of (Exit.returned error) last = failing error
result_of Exit.next (some error) = failing error
result_of Exit.next none = failing (new_error no_capacity)

module _ (world : World) (plan : RoutePlan) (tenant : Option String) where
  -- An attempt with both its permits, from the error of a request that cannot be put together, if any.
  unfoldable pub permitted :
      ℕ → ℕ → Bool → ResolvedRoute → Pool → KeyChoice → Turn → Option GatewayError → Turn × Exit
  unfolding attempt drop_permit after_attempt
  permitted t a is_last route pool choice turn (some error) = (
    record turn {
      attempts = suc turn.attempts;
      pools = set_pool turn.pools route.provider.name (drop_permit pool choice);
    },
    Exit.returned error,
  )
  permitted t a is_last route pool choice turn none =
      after_attempt (record turn { attempts = suc turn.attempts }) route.provider.name choice
        (attempt pool choice route.upstream_model plan.retry_on is_last (world.ctx t)
          (world.reply_now t a) (world.reply t a))

  -- One round of the inner loop; `true` where it breaks out of it.
  unfoldable pub chosen :
      ℕ
      → ℕ
      → Bool
      → ResolvedRoute
      → Turn
      → ProviderRuntime × Option KeyChoice
      → (Turn × Exit) × Bool
  unfolding permitted set_pool pool_empty drop_seat new_error with_provider
  chosen t a is_last route turn (runtime, none) =
      let name = route.provider.name in
      let (read, error) = pool_empty runtime route.upstream_model tenant (world.now t a) in
      (
        (
          record turn {
            pools = set_pool turn.pools name (record (turn.pools name) { runtime = read });
            last_error = some error;
          },
          Exit.next,
        ),
        true,
      )
  chosen t a is_last route turn (runtime, some choice) =
      let name = route.provider.name in
      let pool = turn.pools name in
      if pool.free == 0
      then (
        (
          record turn {
            pools =
                set_pool turn.pools name
                  (record pool { runtime = drop_seat runtime choice.key choice.permit });
            last_error = some (with_provider (new_error no_capacity) name);
          },
          Exit.next,
        ),
        true,
      )
      else (
        permitted t a is_last route (record pool { runtime = runtime; free = pool.free - 1 }) choice
            turn (world.request t a),
        false,
      )

  unfoldable pub round : ℕ → ℕ → Bool → ResolvedRoute → Turn → (Turn × Exit) × Bool
  unfolding chosen
  round t a is_last route turn = chosen t a is_last route turn (
      admit_for (world.draws t a) (turn.pools route.provider.name).runtime
        (some route.upstream_model) tenant none (world.now t a))

  -- The rounds that are left of a target's budget; `a` counts those done.
  unfoldable pub attempts_loop : ℕ → ℕ → ℕ → Bool → ResolvedRoute → Turn → Turn × Exit
  unfolding round
  attempts_loop zero t a last_target route turn = (turn, Exit.next)
  attempts_loop (suc left) t a last_target route turn =
      unless_over (round t a (last_target && left == 0) route turn)
        (λ turn'. attempts_loop left t (suc a) last_target route turn')

  unfoldable pub target_loop : ℕ → Bool → ResolvedRoute → Turn → Outbound → Turn × Exit
  unfolding attempts_loop attempt_budget
  target_loop t last_target route turn (unavailable error) =
      (record turn { last_error = some error }, Exit.next)
  target_loop t last_target route turn (refused error) = (turn, Exit.returned error)
  target_loop t last_target route turn ready =
      attempts_loop
        (attempt_budget (turn.pools route.provider.name).runtime (some route.upstream_model) plan
          tenant (world.budget_now t))
        t 0 last_target route turn

  unfoldable pub targets_loop : ℕ → List ResolvedRoute → Turn → Turn × Exit
  unfolding target_loop
  targets_loop t [] turn = (turn, Exit.next)
  targets_loop t (route ∷ rest) turn =
      then_next (target_loop t (is_empty rest) route turn (world.outbound t))
        (λ turn'. targets_loop (suc t) rest turn')

  -- The answer, and the pools after it.
  unfoldable pub dispatch : Pools → Turn × Result
  unfolding targets_loop new_error
  dispatch pools =
      let (turn, exit) =
        targets_loop 0 plan.targets (record { pools = pools; attempts = 0; last_error = none }) in
      (turn, result_of exit turn.last_error)
