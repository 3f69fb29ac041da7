-- ===== src/Proxy/Permits.antt =====
-- The permits of a provider's semaphore: `run_chat` in crates/router-server/src/proxy.rs.
use Prim.Native.String.{String}
use text.Mathlib.Text.{◌==◌ as str_eq}
use text.Mathlib.TextEquality.{eq_iff}
use rapidrouter.Prelude.{
  ℕ, zero, suc, ◌+◌, ◌-◌, ◌≡◌, refl, ap, ◌∙◌, Bool, true, false, not, ◌&&◌, Option, none, some,
  List, [], ◌∷◌, is_empty, Bool-cases, inl, inr, arith, ◌==◌, if◌then◌else◌,
}
use rapidrouter.Errors.{GatewayError}
use rapidrouter.Router.Pool.{ProviderRuntime, KeyChoice, admit_for}
use rapidrouter.Router.Table.{ResolvedRoute, RoutePlan, RetryOn}
use rapidrouter.Proxy.{Pool, Pools, set_pool, attempt_budget}
use rapidrouter.Proxy.Reply.{
  AttemptOutcome, serve, retry, attempt, attempt_replied, served, translated_response,
  collected_response, refused_response, held_out, refusal_in, StreamFailure, TranslationCtx, Reply,
  ReplyBody, failed, replied, drop_permit, is_retryable, is_renewed,
}
use rapidrouter.Proxy.Dispatch.{
  Outbound, unavailable, refused, ready, World, Turn, Exit, Result, result_of, unless_over,
  then_next, after_attempt, permitted, chosen, round, attempts_loop, target_loop, targets_loop,
  dispatch,
}

-- What a request holds of a provider's permits: one where the provider's answer streams still.
unfoldable pub held : Exit → String → ℕ
held (Exit.answered name choice holds) other = if holds && str_eq other name then 1 else 0
held _ other = 0

-- The free permits, and those that the request holds, are those there were.
abbrev Balances : Pools → Turn × Exit → Type 0
Balances pools (turn, exit) =
    (name : String) → (turn.pools name).free + held exit name ≡ (pools name).free

abbrev kept : AttemptOutcome → ℕ
kept (serve true) = 1
kept (serve false) = 0
kept (retry error) = 0

-- The permit of an attempt is either dropped or held by what it serves.
abbrev Settles : Pool → Pool × AttemptOutcome → Type 0
Settles pool r = r.0.free + kept r.1 ≡ suc pool.free

collected-free :
    (pool : Pool) (key : Option ℕ) (model : String) (is_last : Bool) (body : ReplyBody)
    (found : Option StreamFailure)
    → let r = collected_response pool key model is_last body found in
      r.0.free + kept r.1 ≡ pool.free
unfolding collected_response refused_response held_out
collected-free pool key model is_last body none = omega arith
collected-free pool key model is_last body (some failure) = ground arith

served-Settles :
    (pool : Pool) (choice : KeyChoice) (model : String) (is_last : Bool) (ctx : TranslationCtx)
    (status : ℕ) (body : ReplyBody)
    → Settles pool (served pool choice model is_last ctx status body)
unfolding served translated_response drop_permit
served-Settles pool choice model is_last ctx status body =
    let collected =
      collected-free (drop_permit pool choice) choice.key model is_last body
        (refusal_in ctx body) in
    ground (arith, collected)

attempt-Settles :
    (pool : Pool) (choice : KeyChoice) (model : String) (ons : List RetryOn) (is_last : Bool)
    (ctx : TranslationCtx) (now_ms : ℕ) (reply : Reply)
    → Settles pool (attempt pool choice model ons is_last ctx now_ms reply)
unfolding attempt attempt_replied drop_permit
attempt-Settles pool choice model ons is_last ctx now_ms (failed error) = omega arith
attempt-Settles pool choice model ons is_last ctx now_ms (replied status bench renewed body) =
    let stays = λ (after : Pool). served-Settles after choice model is_last ctx status body in
    elim (Bool-cases (is_renewed pool.is_subscription status renewed)) [
      | inl fresh ↦ elim (Bool-cases is_last) [
        | inl last ↦ rw (fresh, last) (served-Settles _ choice model true ctx status body)
        | inr more ↦ rw (fresh, more) (omega arith)
      ]
      | inr stale ↦
          elim (Bool-cases (is_retryable ons pool.is_subscription status && not is_last)) [
            | inl again ↦ rw (stale, again) (omega arith)
            | inr done ↦ rw (stale, done) (stays _)
          ]
    ]

set_pool-free :
    (pools : Pools) (name : String) (pool : Pool) (other : String)
    → (set_pool pools name pool other).free
      ≡ (if str_eq other name then pool.free else (pools other).free)
unfolding set_pool
set_pool-free pools name pool other = ground arith

after_attempt-Balances :
    (turn : Turn) (name : String) (choice : KeyChoice) (r : Pool × AttemptOutcome)
    → r.0.free + kept r.1 ≡ (turn.pools name).free
    → Balances turn.pools (after_attempt turn name choice r)
unfolding after_attempt held
after_attempt-Balances turn name choice (pool, serve true) taken other =
    ground (arith, set_pool-free turn.pools name pool other, eq_iff other name, taken)
after_attempt-Balances turn name choice (pool, serve false) taken other =
    ground (arith, set_pool-free turn.pools name pool other, eq_iff other name, taken)
after_attempt-Balances turn name choice (pool, retry error) taken other =
    ground (arith, set_pool-free turn.pools name pool other, eq_iff other name, taken)

-- What the answer holds: the serving provider's permit, while it streams.
unfoldable pub held_by : Result → String → ℕ
held_by (Result.serving name choice holds) other = if holds && str_eq other name then 1 else 0
held_by (Result.failing error) other = 0

held_by-result_of :
    (exit : Exit) (last : Option GatewayError) (name : String)
    → held_by (result_of exit last) name ≡ held exit name
unfolding held_by held result_of
held_by-result_of Exit.next none name = refl
held_by-result_of Exit.next (some error) name = refl
held_by-result_of (Exit.answered provider choice holds) last name = refl
held_by-result_of (Exit.returned error) last name = refl

module _ (world : World) (plan : RoutePlan) (tenant : Option String) where
  permitted-Balances :
      (t a : ℕ) (is_last : Bool) (route : ResolvedRoute) (pool : Pool) (choice : KeyChoice)
      (turn : Turn) (o : Option GatewayError)
      → suc pool.free ≡ (turn.pools route.provider.name).free
      → Balances turn.pools (permitted world plan tenant t a is_last route pool choice turn o)
  unfolding permitted drop_permit held
  permitted-Balances t a is_last route pool choice turn (some error) taken = λ other. ground (
    arith,
    set_pool-free turn.pools route.provider.name (drop_permit pool choice) other,
    eq_iff other route.provider.name,
    taken,
  )
  permitted-Balances t a is_last route pool choice turn none taken =
      after_attempt-Balances (record turn { attempts = suc turn.attempts }) route.provider.name
        choice
        (attempt pool choice route.upstream_model plan.retry_on is_last (world.ctx t)
          (world.reply_now t a) (world.reply t a))
        (attempt-Settles pool choice route.upstream_model plan.retry_on is_last (world.ctx t)
            (world.reply_now t a) (world.reply t a)
          ∙ taken)

  chosen-Balances :
      (t a : ℕ) (is_last : Bool) (route : ResolvedRoute) (turn : Turn)
      (r : ProviderRuntime × Option KeyChoice)
      → Balances turn.pools (chosen world plan tenant t a is_last route turn r).0
  unfolding chosen held
  chosen-Balances t a is_last route turn (runtime, none) = λ other.
      let name = route.provider.name in
      ground (arith, set_pool-free turn.pools name _ other, eq_iff other name)
  chosen-Balances t a is_last route turn (runtime, some choice) =
      let name = route.provider.name in
      let pool = turn.pools name in
      elim (Bool-cases (pool.free == 0)) [
        | inl full ↦
            rw full
              (λ other. ground (arith, set_pool-free turn.pools name _ other, eq_iff other name))
        | inr room ↦ rw room (
            permitted-Balances t a is_last route
              (record pool { runtime = runtime; free = pool.free - 1 }) choice turn
              (world.request t a) (ground (arith, room)))
      ]

  round-Balances :
      (t a : ℕ) (is_last : Bool) (route : ResolvedRoute) (turn : Turn)
      → Balances turn.pools (round world plan tenant t a is_last route turn).0
  unfolding round
  round-Balances t a is_last route turn = chosen-Balances t a is_last route turn (
      admit_for (world.draws t a) (turn.pools route.provider.name).runtime
        (some route.upstream_model) tenant none (world.now t a))

  unless_over-Balances :
      (pools : Pools) (r : (Turn × Exit) × Bool) (more : Turn → Turn × Exit)
      → Balances pools r.0
      → ((later : Turn) → Balances later.pools (more later))
      → Balances pools (unless_over r more)
  unfolding held
  unless_over-Balances pools ((turn, Exit.next), false) more first later =
      λ name. let now = first name in let after = later turn name in omega arith
  unless_over-Balances pools ((turn, Exit.next), true) more first later = first
  unless_over-Balances pools ((turn, Exit.answered provider choice holds), b) more first later =
      first
  unless_over-Balances pools ((turn, Exit.returned error), b) more first later = first

  attempts_loop-Balances :
      (left t a : ℕ) (last_target : Bool) (route : ResolvedRoute) (turn : Turn)
      → Balances turn.pools (attempts_loop world plan tenant left t a last_target route turn)
  unfolding attempts_loop held
  attempts_loop-Balances zero t a last_target route turn = λ name. omega arith
  attempts_loop-Balances (suc left) t a last_target route turn =
      unless_over-Balances turn.pools
        (round world plan tenant t a (last_target && left == 0) route turn)
        (λ turn'. attempts_loop world plan tenant left t (suc a) last_target route turn')
        (round-Balances t a (last_target && left == 0) route turn)
        (λ later. attempts_loop-Balances left t (suc a) last_target route later)

  target_loop-Balances :
      (t : ℕ) (last_target : Bool) (route : ResolvedRoute) (turn : Turn) (outbound : Outbound)
      → Balances turn.pools (target_loop world plan tenant t last_target route turn outbound)
  unfolding target_loop held
  target_loop-Balances t last_target route turn (unavailable error) = λ name. omega arith
  target_loop-Balances t last_target route turn (refused error) = λ name. omega arith
  target_loop-Balances t last_target route turn ready =
      attempts_loop-Balances
        (attempt_budget (turn.pools route.provider.name).runtime (some route.upstream_model) plan
          tenant (world.budget_now t))
        t 0 last_target route turn

  then_next-Balances :
      (pools : Pools) (r : Turn × Exit) (more : Turn → Turn × Exit)
      → Balances pools r
      → ((later : Turn) → Balances later.pools (more later))
      → Balances pools (then_next r more)
  unfolding held
  then_next-Balances pools (turn, Exit.next) more first later =
      λ name. let now = first name in let after = later turn name in omega arith
  then_next-Balances pools (turn, Exit.answered provider choice holds) more first later = first
  then_next-Balances pools (turn, Exit.returned error) more first later = first

  targets_loop-Balances :
      (t : ℕ) (targets : List ResolvedRoute) (turn : Turn)
      → Balances turn.pools (targets_loop world plan tenant t targets turn)
  unfolding targets_loop held
  targets_loop-Balances t [] turn = λ name. omega arith
  targets_loop-Balances t (route ∷ rest) turn =
      then_next-Balances turn.pools
        (target_loop world plan tenant t (is_empty rest) route turn (world.outbound t))
        (λ turn'. targets_loop world plan tenant (suc t) rest turn')
        (target_loop-Balances t (is_empty rest) route turn (world.outbound t))
        (λ later. targets_loop-Balances (suc t) rest later)

  -- No permit leaks and none is given back twice: after a request, each provider's semaphore has the free
  -- permits it had, but for the one that the answer's response still holds, where it is forwarded or streams.
  pub dispatch-permits :
      (pools : Pools) (name : String)
      → let (turn, result) = dispatch world plan tenant pools in
        (turn.pools name).free + held_by result name ≡ (pools name).free
  unfolding dispatch
  dispatch-permits pools name =
      let start : Turn = record { pools = pools; attempts = 0; last_error = none } in
      let ended = targets_loop world plan tenant 0 plan.targets start in
      ap (λ n. (ended.0.pools name).free + n) (held_by-result_of ended.1 ended.0.last_error name)
      ∙ targets_loop-Balances 0 plan.targets start name
