-- ===== src/Proxy/Reply.antt =====
-- One attempt in crates/router-server/src/proxy.rs: what the provider's reply tells the breaker, whether it is
-- tried again, what the response path makes of it, and when the attempt's permits are dropped. The texts of
-- bodies and errors are left out, and so is a stream that has begun.
use Prim.Native.String.{String}
use text.Mathlib.Text.{◌==◌ as str_eq}
use rapidrouter.Prelude.{
  ℕ, suc, Bool, true, false, not, ◌&&◌, ◌||◌, Option, none, some, List, [], ◌∷◌, any_of, set,
  get_elem?, leb, ltb, ◌==◌, if◌then◌else◌,
}
use rapidrouter.Errors.{
  GatewayError, new_error, with_provider, with_upstream_status, upstream_error, no_capacity,
  rate_limited,
}
use rapidrouter.Breaker.{Breaker, record_success, record_failure, bench_until}
use rapidrouter.Router.Key.{release_slot}
use rapidrouter.Router.Pool.{ProviderRuntime, KeyChoice}
use rapidrouter.Router.Holding.{holding}
use rapidrouter.Router.Table.{RetryOn, status_429, status_5xx}
use rapidrouter.Proxy.{Pool, on_breaker}

-- A served response holds the permits until it has streamed, or they were dropped before.
pub data AttemptOutcome : Type 0 where
  serve : (holds : Bool) → AttemptOutcome
  retry : GatewayError → AttemptOutcome

-- A turn that the backend refuses within a 200, by its code.
pub record StreamFailure : Type 0 where
  pub code : String

is_one_of : List String → String → Bool
is_one_of codes code = any_of (λ c. str_eq code c) codes

abbrev overload_codes : List String
overload_codes = "server_is_overloaded" ∷ "service_unavailable_error" ∷ "overloaded" ∷ []

abbrev limit_codes : List String
limit_codes = "rate_limit_exceeded" ∷ "rate_limit_error" ∷ "usage_limit_reached" ∷ []

unfoldable pub to_gateway_error : StreamFailure → GatewayError
unfolding is_one_of new_error
to_gateway_error failure =
    if is_one_of overload_codes failure.code
    then new_error no_capacity
    else if is_one_of limit_codes failure.code
    then new_error rate_limited
    else new_error upstream_error

unfoldable pub is_account_throttle : StreamFailure → Bool
unfolding is_one_of
is_account_throttle failure =
    is_one_of overload_codes failure.code
    || (str_eq failure.code "server_error" || is_one_of limit_codes failure.code)

-- What the response path asks of `TranslationCtx`: a raw forward, a stream, and a provider of the dialect
-- `CodexResponses`.
pub record TranslationCtx : Type 0 where
  pub passthrough : Bool
  pub stream : Bool
  pub codex : Bool

-- The body of a reply: whether `collect_capped` has it whole, the refusal that `aggregate_sse` finds in it,
-- and the clock at the two places that a refusal reads it, with the end of the bench that is drawn there.
pub record ReplyBody : Type 0 where
  pub is_whole : Bool
  pub failure : Option StreamFailure
  pub refused_ms : ℕ
  pub bench_end_ms : ℕ
  pub judged_ms : ℕ

-- What the provider replies: no response, or a status, with the time until which the quota headers bench
-- the seat, whether the renewal of the seat's credential worked, and the body.
pub data Reply : Type 0 where
  failed : GatewayError → Reply
  replied : (status : ℕ) → (bench : Option ℕ) → (renewed : Bool) → ReplyBody → Reply

-- The permits of an attempt are dropped: the provider's and the seat's.
unfoldable pub drop_seat : ProviderRuntime → Option ℕ → Bool → ProviderRuntime
unfolding release_slot
drop_seat runtime none permit = runtime
drop_seat runtime (some i) permit = elim (get_elem? runtime.keys i) [
  | none ↦ runtime
  | some key ↦ record runtime { keys = set runtime.keys i (release_slot key permit) }
]

unfoldable pub drop_permit : Pool → KeyChoice → Pool
unfolding drop_seat
drop_permit pool choice = record pool {
  runtime = drop_seat pool.runtime choice.key choice.permit;
  free = suc pool.free;
}

unfoldable pub wants : RetryOn → List RetryOn → Bool
wants status_429 ons = any_of (λ on. elim on [ status_429 ↦ true | _ ↦ false ]) ons
wants status_5xx ons = any_of (λ on. elim on [ status_5xx ↦ true | _ ↦ false ]) ons
wants RetryOn.connect_error ons =
    any_of (λ on. elim on [ RetryOn.connect_error ↦ true | _ ↦ false ]) ons

abbrev pub is_server_error : ℕ → Bool
is_server_error status = leb 500 status && ltb status 600

unfoldable pub seat_auth_failure : Bool → ℕ → Bool
seat_auth_failure is_subscription status = is_subscription && (status == 401 || status == 403)

unfoldable pub is_retryable : List RetryOn → Bool → ℕ → Bool
unfolding wants seat_auth_failure
is_retryable ons is_subscription status =
    (status == 429 && wants status_429 ons)
    || (is_server_error status && wants status_5xx ons)
    || seat_auth_failure is_subscription status

-- What a status tells the breaker.
unfoldable pub note_status : Bool → ℕ → ℕ → Breaker → Breaker
unfolding seat_auth_failure record_failure record_success
note_status is_subscription status now_ms breaker =
    if is_server_error status || status == 429 || seat_auth_failure is_subscription status
    then record_failure breaker now_ms
    else record_success breaker now_ms

-- `bench_exhausted_seat`: only a 429 of a subscription, for as long as the provider said.
unfoldable pub bench_seat : Bool → ℕ → Option ℕ → Breaker → Breaker
unfolding bench_until
bench_seat is_subscription status none breaker = breaker
bench_seat is_subscription status (some until) breaker =
    if is_subscription && status == 429 then bench_until breaker until else breaker

-- A subscription's 401 whose credential was renewed.
unfoldable pub is_renewed : Bool → ℕ → Bool → Bool
is_renewed is_subscription status renewed = is_subscription && status == 401 && renewed

abbrev pub is_success : ℕ → Bool
is_success status = leb 200 status && ltb status 300

unfoldable pub hold_out_refused_seat : Bool → ℕ → ℕ → StreamFailure → Breaker → Breaker
unfolding record_failure bench_until is_account_throttle
hold_out_refused_seat is_subscription now_ms until failure breaker =
    let failing = record_failure breaker now_ms in
    if not (is_subscription && is_account_throttle failure)
    then failing
    else bench_until failing until

-- No key is left for the service of the key in use.
unfoldable pub nobody_left : ProviderRuntime → Option ℕ → String → ℕ → Bool
unfolding holding
nobody_left runtime none model now_ms = false
nobody_left runtime (some i) model now_ms = elim (get_elem? runtime.keys i) [
  | none ↦ false
  | some key ↦ (holding runtime (some model) key.tenant now_ms).usable == 0
]

-- The pool after a turn was refused within a 200.
unfoldable pub held_out : Pool → Option ℕ → ReplyBody → StreamFailure → Pool
unfolding on_breaker hold_out_refused_seat
held_out pool key body failure = record pool {
  runtime =
      on_breaker
        (hold_out_refused_seat pool.is_subscription body.refused_ms body.bench_end_ms failure)
        pool.runtime key;
}

unfoldable pub refused_response :
    Pool → Option ℕ → String → Bool → ReplyBody → StreamFailure → Pool × AttemptOutcome
unfolding held_out nobody_left to_gateway_error with_provider with_upstream_status
refused_response pool key model is_last body failure =
    let after = held_out pool key body failure in
    let error =
      with_upstream_status (with_provider (to_gateway_error failure) pool.runtime.name) 200 in
    if not is_last && not (nobody_left after.runtime key model body.judged_ms)
    then (after, retry error)
    else (after, serve false)

-- The refusal that is looked for in a whole body, of a Codex provider only.
unfoldable pub refusal_in : TranslationCtx → ReplyBody → Option StreamFailure
refusal_in ctx body = if ctx.codex then body.failure else none

unfoldable pub collected_response :
    Pool → Option ℕ → String → Bool → ReplyBody → Option StreamFailure → Pool × AttemptOutcome
unfolding refused_response
collected_response pool key model is_last body none = (pool, serve false)
collected_response pool key model is_last body (some failure) =
    refused_response pool key model is_last body failure

unfoldable pub translated_response :
    Pool → KeyChoice → String → Bool → TranslationCtx → ℕ → ReplyBody → Pool × AttemptOutcome
unfolding drop_permit collected_response refusal_in
translated_response pool choice model is_last ctx status body =
    if not (is_success status)
    then (drop_permit pool choice, serve false)
    else if ctx.stream
    then (pool, serve true)
    else if not body.is_whole
    then (drop_permit pool choice, serve false)
    else collected_response (drop_permit pool choice) choice.key model is_last body
        (refusal_in ctx body)

unfoldable pub served :
    Pool → KeyChoice → String → Bool → TranslationCtx → ℕ → ReplyBody → Pool × AttemptOutcome
unfolding translated_response
served pool choice model is_last ctx status body =
    if ctx.passthrough
    then (pool, serve true)
    else translated_response pool choice model is_last ctx status body

unfoldable pub attempt_replied :
    Pool
    → KeyChoice
    → String
    → List RetryOn
    → Bool
    → TranslationCtx
    → ℕ
    → ℕ
    → Option ℕ
    → Bool
    → ReplyBody
    → Pool × AttemptOutcome
unfolding on_breaker note_status bench_seat is_renewed is_retryable new_error with_provider
    with_upstream_status record_success drop_permit served
attempt_replied pool choice model ons is_last ctx now_ms status bench renewed body =
    let key = choice.key in
    let noted = on_breaker (note_status pool.is_subscription status now_ms) pool.runtime key in
    let benched = on_breaker (bench_seat pool.is_subscription status bench) noted key in
    let cleared = on_breaker (λ b. record_success b now_ms) benched key in
    let name = pool.runtime.name in
    let told = record pool { runtime = benched } in
    let again =
      retry (with_upstream_status (with_provider (new_error upstream_error) name) status) in
    if is_renewed pool.is_subscription status renewed
    then if not is_last
      then (drop_permit told choice, retry (with_provider (new_error upstream_error) name))
      else served (record pool { runtime = cleared }) choice model is_last ctx status body
    else if is_retryable ons pool.is_subscription status && not is_last
    then (drop_permit told choice, again)
    else served told choice model is_last ctx status body

unfoldable pub attempt :
    Pool
    → KeyChoice
    → String
    → List RetryOn
    → Bool
    → TranslationCtx
    → ℕ
    → Reply
    → Pool × AttemptOutcome
unfolding attempt_replied on_breaker record_failure drop_permit
attempt pool choice model ons is_last ctx now_ms (failed error) = (
  drop_permit
      (record pool { runtime = on_breaker (λ b. record_failure b now_ms) pool.runtime choice.key })
      choice,
  retry error,
)
attempt pool choice model ons is_last ctx now_ms (replied status bench renewed body) =
    attempt_replied pool choice model ons is_last ctx now_ms status bench renewed body
