-- ===== src/Vkey/Limits.antt =====
-- crates/router-core/src/vkey.rs, `VkRuntime::admit` and `debit_usage`: rate limits and the budget.
use rapidrouter.Prelude.{
  ℕ, ◌+◌, ◌≤◌, ◌<◌, ◌≡◌, ◌≢◌, refl, true, false, Option, none, some, List, [], ◌∷◌, All, arith, ◌∙◌,
  min, ap, ◌↔◌, u64_mod,
}
use rapidrouter.TokenBucket.{TokenBucket, try_consume, available_tokens}
use rapidrouter.Vkey.Spend.{spend_current, spend_mask, spend_add-current}
use rapidrouter.Vkey.Runtime.{
  Budget, VkRuntime, rate_limited, admit, take_request, poke_tokens, budget_exhausted, over_limit,
  debit_usage, retry_after,
}

-- The bucket, if there is one, gives one request.
abbrev pub GivesRequest : Option TokenBucket → ℕ → Type 0
GivesRequest rpm now = (b : TokenBucket) → rpm ≡ some b → (try_consume b 1 now).1 ≡ true

-- The bucket, if there is one, holds a token, as it is or refilled.
abbrev pub HasTokens : Option TokenBucket → ℕ → Type 0
HasTokens tpm now =
    (b : TokenBucket)
    → tpm ≡ some b
    → available_tokens b ≡ 0
    → 1 ≤ available_tokens (try_consume b 0 now).0

module _ (usd_micro : ℕ → ℕ) where
  -- The spend of the period is below the budget, if there is one.
  abbrev pub InBudget : VkRuntime → ℕ → Type 0
  InBudget rt ordinal =
      (b : Budget) → rt.def.budget ≡ some b → spend_current rt.spend ordinal < usd_micro b.usd

  take_request_iff :
      (rpm : Option TokenBucket) (now : ℕ)
      → ((take_request rpm now).1 ≡ true) ↔ GivesRequest rpm now
  unfolding take_request
  take_request_iff none now = (λ h. λ b same. ground arith, λ h. refl)
  take_request_iff (some b) now = (λ h. λ other same. ground arith, λ h. h b refl)

  poke_tokens_iff :
      (tpm : Option TokenBucket) (now : ℕ) → ((poke_tokens tpm now).1 ≡ true) ↔ HasTokens tpm now
  unfolding poke_tokens
  poke_tokens_iff none now = (λ h. λ b same. ground arith, λ h. refl)
  poke_tokens_iff (some b) now =
      (λ h. λ other same empty. ground arith, λ h. let held = h b refl in ground arith)

  over_limit_iff :
      (budget : Option Budget) (spent : ℕ)
      → (over_limit usd_micro budget spent ≡ false)
        ↔ ((b : Budget) → budget ≡ some b → spent < usd_micro b.usd)
  unfolding over_limit
  over_limit_iff none spent = (λ h. λ b same. ground arith, λ h. refl)
  over_limit_iff (some b) spent =
      (λ h. λ other same. ground arith, λ h. let below = h b refl in ground arith)

  budget_iff :
      (rt : VkRuntime) (ordinal : ℕ)
      → (budget_exhausted usd_micro rt ordinal ≡ false) ↔ InBudget rt ordinal
  unfolding budget_exhausted
  budget_iff rt ordinal = over_limit_iff rt.def.budget (spend_current rt.spend ordinal)

  -- A request is admitted if and only if its request bucket gives one, its token bucket is not empty and
  -- the spend is below the budget; a denial for rate names a wait of 1 to 60 seconds; whatever the
  -- answer, the spend is as before, and the request bucket is charged even when a later check denies.
  pub admit-answers :
      (rt : VkRuntime) (now ordinal : ℕ)
      → (((admit usd_micro rt now ordinal).1 ≡ none)
          ↔ (GivesRequest rt.rpm now × HasTokens rt.tpm now × InBudget rt ordinal))
        × ((wait : ℕ)
            → (admit usd_micro rt now ordinal).1 ≡ some (rate_limited wait)
            → (1 ≤ wait) × (wait ≤ 60))
        × ((admit usd_micro rt now ordinal).0.spend ≡ rt.spend)
        × ((admit usd_micro rt now ordinal).0.rpm ≡ (take_request rt.rpm now).0)
  unfolding admit retry_after
  admit-answers rt now ordinal =
      let (gives, given) = take_request_iff rt.rpm now in
      let (has, held) = poke_tokens_iff rt.tpm now in
      let (within, under) = budget_iff rt ordinal in
      (
        (
          λ h. (gives (ground arith), has (ground arith), within (ground arith)),
          λ (g, t, b).
              let taken = given g in let left = held t in let fits = under b in ground arith,
        ),
        (λ wait. λ h. ground arith),
        ground arith,
        ground arith,
      )

  budget_exhausted-denies :
      (rt : VkRuntime) (now ordinal : ℕ)
      → budget_exhausted usd_micro rt ordinal ≡ true
      → (admit usd_micro rt now ordinal).1 ≢ none
  unfolding admit
  budget_exhausted-denies rt now ordinal over h = ground (arith, over)

-- Responses debited in turn: the tokens, the micro-USD and the time of each.
unfoldable pub debit_all : VkRuntime → List (ℕ × ℕ × ℕ) → ℕ → VkRuntime
debit_all rt [] ordinal = rt
debit_all rt ((tokens, micro_usd, now) ∷ rest) ordinal =
    debit_all (debit_usage rt tokens micro_usd now ordinal) rest ordinal

abbrev pub charged : List (ℕ × ℕ × ℕ) → ℕ
charged [] = 0
charged ((_, micro_usd, _) ∷ rest) = micro_usd + charged rest

abbrev pub AreWords : List (ℕ × ℕ × ℕ) → Type 0
AreWords ds = All (λ d. d.1 < u64_mod) ds

debit_all-def :
    (rt : VkRuntime) (ds : List (ℕ × ℕ × ℕ)) (ordinal : ℕ) → (debit_all rt ds ordinal).def ≡ rt.def
unfolding debit_all debit_usage
debit_all-def rt [] ordinal = refl
debit_all-def rt ((tokens, micro_usd, now) ∷ rest) ordinal =
    debit_all-def (debit_usage rt tokens micro_usd now ordinal) rest ordinal

debit_usage-spend :
    (rt : VkRuntime) (tokens micro_usd now ordinal : ℕ)
    → micro_usd < u64_mod
    → spend_current rt.spend ordinal ≤ spend_mask
    → spend_current (debit_usage rt tokens micro_usd now ordinal).spend ordinal
      ≡ min (spend_current rt.spend ordinal + micro_usd) spend_mask
unfolding debit_usage
debit_usage-spend rt tokens micro_usd now ordinal fits small =
    let (_, grown, _) = spend_add-current rt.spend micro_usd ordinal ordinal fits in
    ground (arith, grown)

debit_all-spend :
    (rt : VkRuntime) (ds : List (ℕ × ℕ × ℕ)) (ordinal : ℕ)
    → AreWords ds
    → spend_current rt.spend ordinal ≤ spend_mask
    → spend_current (debit_all rt ds ordinal).spend ordinal
      ≡ min (spend_current rt.spend ordinal + charged ds) spend_mask
unfolding debit_all
debit_all-spend rt [] ordinal fits small = omega arith
debit_all-spend rt ((tokens, micro_usd, now) ∷ rest) ordinal fits small =
    let grown = debit_usage-spend rt tokens micro_usd now ordinal fits.0 small in
    debit_all-spend (debit_usage rt tokens micro_usd now ordinal) rest ordinal fits.1 (omega arith)
    ∙ omega arith

current_small : (word ordinal : ℕ) → spend_current word ordinal ≤ spend_mask
unfolding spend_current
current_small word ordinal = ground arith

module _ (usd_micro : ℕ → ℕ) where
  -- A budget of at most 2^40 - 1 micro-USD is kept: once the debits of a period, on top of what was spent
  -- in it, reach the budget, no request of the key is admitted in that period, at whatever time.
  pub admit-debit_all :
      (rt : VkRuntime) (ds : List (ℕ × ℕ × ℕ)) (ordinal now : ℕ) (b : Budget)
      → AreWords ds
      → rt.def.budget ≡ some b
      → usd_micro b.usd ≤ spend_mask
      → usd_micro b.usd ≤ spend_current rt.spend ordinal + charged ds
      → (admit usd_micro (debit_all rt ds ordinal) now ordinal).1 ≢ none
  unfolding budget_exhausted over_limit
  admit-debit_all rt ds ordinal now b fits has small reached =
      let spent = debit_all-spend rt ds ordinal fits (current_small rt.spend ordinal) in
      let same = ap (λ d. d.budget) (debit_all-def rt ds ordinal) ∙ has in
      budget_exhausted-denies usd_micro (debit_all rt ds ordinal) now ordinal
        (rw same (ground (arith, spent)))

  -- A budget of 2^40 micro-USD (about 1.1 million dollars) or more is never exhausted, whatever is debited:
  -- the spend saturates below it.
  pub budget_exhausted-debit_all :
      (rt : VkRuntime) (ds : List (ℕ × ℕ × ℕ)) (ordinal : ℕ) (b : Budget)
      → rt.def.budget ≡ some b
      → spend_mask < usd_micro b.usd
      → budget_exhausted usd_micro (debit_all rt ds ordinal) ordinal ≡ false
  unfolding budget_exhausted over_limit
  budget_exhausted-debit_all rt ds ordinal b has large =
      let small = current_small (debit_all rt ds ordinal).spend ordinal in
      let same = ap (λ d. d.budget) (debit_all-def rt ds ordinal) ∙ has in
      rw same (ground (arith, small))
