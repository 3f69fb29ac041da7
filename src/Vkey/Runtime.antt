-- ===== src/Vkey/Runtime.antt =====
-- crates/router-core/src/vkey.rs, `VkRuntime`: one key's definition, decoded hashes, buckets and spend.
-- BLAKE3 (`digest`) and the conversion of a float budget to micro-USD (`usd_micro`) are arguments. The
-- spend is the packed word: the source shares it by `Arc` with the runtime that a rebuild replaces.
use Prim.Native.String.{String}
use rapidrouter.Prelude.{
  ℕ, ◌/◌, Bool, true, false, not, ◌&&◌, ◌||◌, Option, none, some, List, [], ◌∷◌, any_of, is_empty,
  leb, ltb, ◌==◌, if◌then◌else◌, max, min, Map, str_eq,
}
use rapidrouter.TokenBucket.{
  TokenBucket, new_bucket as bucket, try_consume, debit_saturating, clone_state, available_tokens,
}
use rapidrouter.Vkey.Spend.{spend_add, spend_current}
use rapidrouter.Vkey.Period.{BudgetPeriod, monthly, period_ordinal as ordinal_of}
use rapidrouter.Vkey.Token.{decode_hash}

pub record PrevSecret : Type 0 where
  pub secret_hash : String
  pub valid_until_ms : ℕ

-- The float of a budget is given by its bit pattern.
pub record Budget : Type 0 where
  pub usd : ℕ
  pub period : BudgetPeriod

pub record RateLimit : Type 0 where
  pub rpm : Option ℕ
  pub tpm : Option ℕ

pub record VirtualKeyDef : Type 0 where
  pub id : String
  pub name : String
  pub secret_hash : String
  pub prev_secret : Option PrevSecret
  pub models : List String
  pub tenant : Option String
  pub budget : Option Budget
  pub rate : Option RateLimit
  pub expires_ms : Option ℕ
  pub tags : Map String
  pub enabled : Bool
  pub created_ms : ℕ

pub record VkRuntime : Type 0 where
  pub def : VirtualKeyDef
  pub hash : Option (List ℕ)
  pub prev : Option (List ℕ × ℕ)
  pub rpm : Option TokenBucket
  pub tpm : Option TokenBucket
  pub spend : ℕ
  pub shares : ℕ

pub data VkDeny : Type 0 where
  rate_limited : ℕ → VkDeny
  budget_spent : VkDeny

unfoldable pub same_limit : Option ℕ → Option ℕ → Bool
same_limit none none = true
same_limit (some a) (some b) = a == b
same_limit _ _ = false

unfoldable pub same_rate : Option RateLimit → Option RateLimit → Bool
unfolding same_limit
same_rate none none = true
same_rate (some a) (some b) = same_limit a.rpm b.rpm && same_limit a.tpm b.tpm
same_rate _ _ = false

unfoldable pub decode_prev : Option PrevSecret → Option (List ℕ × ℕ)
decode_prev none = none
decode_prev (some p) = elim (decode_hash p.secret_hash) [
  | none ↦ none
  | some hash ↦ some (hash, p.valid_until_ms)
]

-- A limit is fleet-wide; a node enforces its share.
unfoldable pub share : ℕ → Option ℕ → Option ℕ
share shares none = none
share shares (some l) = some (max (l / shares) 1)

unfoldable pub rate_or_default : Option RateLimit → RateLimit
rate_or_default none = record { rpm = none; tpm = none }
rate_or_default (some rate) = rate

unfoldable pub new_bucket : Option ℕ → Option TokenBucket
new_bucket none = none
new_bucket (some limit) = some (bucket limit (max (limit / 60) 1))

unfoldable pub take_bucket : Option TokenBucket → Option ℕ → Option TokenBucket
unfolding new_bucket
take_bucket (some b) (some limit) = some (clone_state b)
take_bucket (some b) none = none
take_bucket none limit = new_bucket limit

-- The buckets of a key whose limits and shares are those of the runtime before it carry over.
unfoldable pub carried : Option VkRuntime → Option RateLimit → ℕ → Bool
unfolding same_rate
carried none rate shares = false
carried (some p) rate shares = same_rate p.def.rate rate && (p.shares == shares)

unfoldable pub reuse :
    Option VkRuntime → (VkRuntime → Option TokenBucket) → Bool → Option ℕ → Option TokenBucket
unfolding take_bucket new_bucket
reuse (some p) field true limit = take_bucket (field p) limit
reuse _ field _ limit = new_bucket limit

unfoldable pub spend_before : Option VkRuntime → ℕ
spend_before none = 0
spend_before (some p) = p.spend

unfoldable pub new_runtime : VirtualKeyDef → Option VkRuntime → ℕ → VkRuntime
unfolding share rate_or_default carried reuse decode_prev spend_before
new_runtime def prev_rt count =
    let shares = max count 1 in
    let rate = rate_or_default def.rate in
    let same = carried prev_rt def.rate shares in
    record {
      def = def;
      hash = decode_hash def.secret_hash;
      prev = decode_prev def.prev_secret;
      rpm = reuse prev_rt (λ p. p.rpm) same (share shares rate.rpm);
      tpm = reuse prev_rt (λ p. p.tpm) same (share shares rate.tpm);
      spend = spend_before prev_rt;
      shares = shares;
    }

-- `ct_eq`.
unfoldable pub same_bytes : List ℕ → List ℕ → Bool
same_bytes [] [] = true
same_bytes (a ∷ first) (b ∷ second) = (a == b) && same_bytes first second
same_bytes _ _ = false

unfoldable pub hash_matches : Option (List ℕ) → List ℕ → Bool
hash_matches none candidate = false
hash_matches (some hash) candidate = same_bytes candidate hash

unfoldable pub prev_matches : Option (List ℕ × ℕ) → List ℕ → ℕ → Bool
prev_matches none candidate unix_ms = false
prev_matches (some (hash, valid_until)) candidate unix_ms =
    leb unix_ms valid_until && same_bytes candidate hash

module _ (digest : String → List ℕ) where
  unfoldable pub verify_secret : VkRuntime → String → ℕ → Bool
  unfolding hash_matches prev_matches
  verify_secret rt secret unix_ms =
      hash_matches rt.hash (digest secret) || prev_matches rt.prev (digest secret) unix_ms

unfoldable pub resolved_is : Option String → String → Bool
resolved_is none m = false
resolved_is (some r) m = str_eq m r

unfoldable pub allows_model : VkRuntime → String → Option String → Bool
unfolding resolved_is
allows_model rt requested resolved =
    if is_empty rt.def.models
    then true
    else any_of (λ m. str_eq m requested || resolved_is resolved m) rt.def.models

unfoldable pub take_request : Option TokenBucket → ℕ → Option TokenBucket × Bool
take_request none mono_ms = (none, true)
take_request (some b) mono_ms = let (next, taken) = try_consume b 1 mono_ms in (some next, taken)

-- An empty bucket is poked by a consume of nothing, which refills it.
unfoldable pub poke_tokens : Option TokenBucket → ℕ → Option TokenBucket × Bool
poke_tokens none mono_ms = (none, true)
poke_tokens (some b) mono_ms =
    let next = (try_consume b 0 mono_ms).0 in
    if available_tokens b == 0
    then (some next, not (available_tokens next == 0))
    else (some b, true)

unfoldable pub rpm_limit : Option ℕ → ℕ
rpm_limit none = 60
rpm_limit (some rpm) = rpm

unfoldable pub retry_after : VkRuntime → ℕ
unfolding rpm_limit rate_or_default
retry_after rt =
    let per_min = max (rpm_limit (rate_or_default rt.def.rate).rpm / rt.shares) 1 in
    max (min (60 / per_min) 60) 1

module _ (usd_micro : ℕ → ℕ) where
  unfoldable pub over_limit : Option Budget → ℕ → Bool
  over_limit none spent = false
  over_limit (some budget) spent = leb (usd_micro budget.usd) spent

  unfoldable pub budget_exhausted : VkRuntime → ℕ → Bool
  unfolding over_limit
  budget_exhausted rt ordinal = over_limit rt.def.budget (spend_current rt.spend ordinal)

  -- `none` is the source's `Ok(())`.
  unfoldable pub admit : VkRuntime → ℕ → ℕ → VkRuntime × Option VkDeny
  unfolding take_request poke_tokens retry_after budget_exhausted
  admit rt mono_ms ordinal =
      let (rpm, taken) = take_request rt.rpm mono_ms in
      let (tpm, left) = poke_tokens rt.tpm mono_ms in
      let counted : VkRuntime = record rt { rpm = rpm } in
      let poked : VkRuntime = record rt { rpm = rpm; tpm = tpm } in
      if not taken
      then (counted, some (rate_limited (retry_after rt)))
      else if not left
      then (poked, some (rate_limited 1))
      else if budget_exhausted rt ordinal
      then (poked, some budget_spent)
      else (poked, none)

unfoldable pub debit_tokens : Option TokenBucket → ℕ → ℕ → Option TokenBucket
debit_tokens none tokens mono_ms = none
debit_tokens (some b) tokens mono_ms =
    if ltb 0 tokens then some (debit_saturating b tokens mono_ms) else some b

unfoldable pub debit_usage : VkRuntime → ℕ → ℕ → ℕ → ℕ → VkRuntime
unfolding debit_tokens
debit_usage rt tokens micro_usd mono_ms ordinal = record rt {
  tpm = debit_tokens rt.tpm tokens mono_ms;
  spend = if ltb 0 micro_usd then spend_add rt.spend micro_usd ordinal else rt.spend;
}

unfoldable pub budget_period : Option Budget → BudgetPeriod
budget_period none = monthly
budget_period (some budget) = budget.period

unfoldable pub period_ordinal : VkRuntime → ℕ → ℕ
unfolding budget_period
period_ordinal rt unix_ms = ordinal_of (budget_period rt.def.budget) unix_ms
