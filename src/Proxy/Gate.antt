-- ===== src/Proxy/Gate.antt =====
-- The gate of a virtual key and the judgement of one reply: `vk_gate` and `attempt` in
-- crates/router-server/src/proxy.rs.
use Prim.Native.String.{String}
use rapidrouter.Prelude.{
  ℕ, ◌≡◌, ◌≢◌, ◌⊎◌, ◌↔◌, refl, sym, ap, Bool, true, false, not, ◌&&◌, Option, none, some, is_some,
  inl, inr, Bool-cases,
}
use rapidrouter.Errors.{
  GatewayError, http_status, new_error, with_param, permission, rate_limited, insufficient_quota,
}
use rapidrouter.Breaker.{Breaker}
use rapidrouter.Router.Table.{RoutePlan}
use rapidrouter.Vkey.Runtime.{VkRuntime, VkDeny, budget_spent, allows_model, admit, period_ordinal}
use rapidrouter.Proxy.{Pool, resolved_name, deny_error, vk_gate}
use rapidrouter.Proxy.Reply.{AttemptOutcome, serve, retry, TranslationCtx, ReplyBody, is_success}

deny_error-status :
    (answer : Option VkDeny) (error : GatewayError)
    → deny_error answer ≡ some error
    → http_status error.class ≡ 429
unfolding deny_error new_error http_status
deny_error-status none error h = absurd cc
deny_error-status (some (VkDeny.rate_limited after)) error h =
    let same : new_error rate_limited ≡ error = cc in
    ap (λ (e : GatewayError). http_status e.class) (sym same)
deny_error-status (some budget_spent) error h =
    let same : new_error insufficient_quota ≡ error = cc in
    ap (λ (e : GatewayError). http_status e.class) (sym same)

deny_error-none : (answer : Option VkDeny) → (deny_error answer ≡ none) ↔ (answer ≡ none)
unfolding deny_error
deny_error-none none = (λ h. refl, λ h. refl)
deny_error-none (some (VkDeny.rate_limited after)) = (λ h. cc, λ h. cc)
deny_error-none (some budget_spent) = (λ h. cc, λ h. cc)

-- The gate lets a request through exactly when the key allows the model and admits the request. A refusal is
-- a 403 about the model, for a model that the key does not allow, and then nothing is taken from the key's
-- rates; or a 429, for a model that it allows, where the key's admission denies the request.
pub vk_gate-judges :
    (usd_micro : ℕ → ℕ) (vk : VkRuntime) (requested : String) (plan : RoutePlan)
    (unix_ms mono_ms : ℕ)
    → let allowed = allows_model vk requested (resolved_name plan.targets) in
      let admitted = admit usd_micro vk mono_ms (period_ordinal vk unix_ms) in
      let gate = vk_gate usd_micro vk requested plan unix_ms mono_ms in
      ((gate.1 ≡ none) ↔ ((allowed ≡ true) × (admitted.1 ≡ none)))
      × ((error : GatewayError)
          → gate.1 ≡ some error
          → ((http_status error.class ≡ 403)
              × (error.param ≡ some "model")
              × (allowed ≡ false)
              × (gate.0 ≡ vk))
            ⊎ ((http_status error.class ≡ 429)
                × (allowed ≡ true)
                × (admitted.1 ≢ none)
                × (gate.0 ≡ admitted.0)))
unfolding vk_gate new_error with_param http_status
vk_gate-judges usd_micro vk requested plan unix_ms mono_ms =
    let answer = (admit usd_micro vk mono_ms (period_ordinal vk unix_ms)).1 in
    elim (Bool-cases (allows_model vk requested (resolved_name plan.targets))) [
      | inl allows ↦ rw allows (
        (λ h. (refl, (deny_error-none answer).0 h), λ h. (deny_error-none answer).1 h.1),
        λ error h. inr (
          deny_error-status answer error h,
          refl,
          λ nothing. let quiet = (deny_error-none answer).1 nothing in cc,
          refl,
        ),
      )
      | inr forbids ↦ rw forbids (
        (λ h. absurd cc, λ h. absurd cc),
        λ error h.
            let same : with_param (new_error permission) "model" ≡ error = cc in
            inl (
              ap (λ (e : GatewayError). http_status e.class) (sym same),
              ap (λ (e : GatewayError). e.param) (sym same),
              refl,
              refl,
            ),
      )
    ]

-- The attempt is tried again.
abbrev pub is_retry : AttemptOutcome → Bool
is_retry (serve holds) = false
is_retry (retry error) = true

-- A Codex provider refuses the turn within a success whose body is collected whole.
abbrev pub is_refusal : TranslationCtx → ℕ → ReplyBody → Bool
is_refusal ctx status body =
    not ctx.passthrough
    && (is_success status
        && (not ctx.stream && (body.is_whole && (ctx.codex && is_some body.failure))))

-- A retry names the provider.
abbrev pub IsNamed : String → AttemptOutcome → Type 0
IsNamed name (serve holds) = Unit {0}
IsNamed name (retry error) = error.provider ≡ some name
