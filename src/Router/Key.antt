-- ===== src/Router/Key.antt =====
-- crates/router-core/src/router.rs, `KeyRuntime`: one credential's ceilings. The credential itself and
-- the path where it is kept are not read by selection and are left out.
use Prim.Native.String.{String}
use rapidrouter.Prelude.{
  ℕ, suc, ◌-◌, Bool, true, false, ◌&&◌, Option, none, some, List, ltb, ◌==◌, if◌then◌else◌, add64,
}
use rapidrouter.Breaker.{Breaker}
use rapidrouter.TokenBucket.{TokenBucket, try_consume, debit_saturating, available_tokens}

-- A float is its bit pattern; a semaphore is the number of its free permits.
pub record KeyRuntime : Type 0 where
  pub name : String
  pub weight : ℕ
  pub models : Option (List String)
  pub tenant : Option String
  pub breaker : Breaker
  pub rpm : Option TokenBucket
  pub tpm : Option TokenBucket
  pub max_concurrency : Option ℕ
  pub inflight : Option ℕ
  pub leases : ℕ

-- `fetch_add(1)` on u64.
unfoldable pub take_lease : KeyRuntime → KeyRuntime
take_lease k = record k { leases = add64 k.leases 1 }

spend_request : KeyRuntime → Option TokenBucket → ℕ → KeyRuntime × Bool
spend_request k none now_ms = (k, true)
spend_request k (some rpm) now_ms =
    let (rpm', answer) = try_consume rpm 1 now_ms in (record k { rpm = some rpm' }, answer)

check_tokens : KeyRuntime → Option TokenBucket → ℕ → KeyRuntime × Bool
check_tokens k none now_ms = (k, true)
check_tokens k (some tpm) now_ms =
    let (tpm', _) = try_consume tpm 0 now_ms in
    (record k { tpm = some tpm' }, if available_tokens tpm' == 0 then false else true)

-- Tokens are only checked here, by a take of none that credits the time passed; one request is spent.
unfoldable pub try_admit_request : KeyRuntime → ℕ → KeyRuntime × Bool
unfolding spend_request check_tokens
try_admit_request k now_ms =
    let (k', has_tokens) = check_tokens k k.tpm now_ms in
    if has_tokens then spend_request k' k'.rpm now_ms else (k', false)

-- `some true` is a permit, `some false` a key with no ceiling, `none` a key whose slots are all taken.
reserve : KeyRuntime → Option ℕ → KeyRuntime × Option Bool
reserve k none = (k, some false)
reserve k (some free) =
    if free == 0 then (k, none) else (record k { inflight = some (free - 1) }, some true)

unfoldable pub try_reserve_slot : KeyRuntime → KeyRuntime × Option Bool
unfolding reserve
try_reserve_slot k = reserve k k.inflight

-- A permit that is dropped goes back to the semaphore.
abbrev add_permit : Option ℕ → Option ℕ
add_permit none = none
add_permit (some free) = some (suc free)

unfoldable pub release_slot : KeyRuntime → Bool → KeyRuntime
release_slot k false = k
release_slot k true = record k { inflight = add_permit k.inflight }

admit_reserved : KeyRuntime → Bool → ℕ → KeyRuntime × Option Bool
unfolding release_slot
admit_reserved k permit now_ms =
    let (k', answer) = try_admit_request k now_ms in
    if answer then (k', some permit) else (release_slot k' permit, none)

-- The slot first, which can be given back; then the request, which cannot.
unfoldable pub admit_now : KeyRuntime → ℕ → KeyRuntime × Option Bool
unfolding admit_reserved
admit_now k now_ms =
    let (k', reserved) = try_reserve_slot k in
    elim reserved [ none ↦ (k', none) | some permit ↦ admit_reserved k' permit now_ms ]

-- Requests in flight, and the ceiling.
unfoldable pub in_flight : KeyRuntime → Option (ℕ × ℕ)
in_flight k = elim k.max_concurrency [
  | none ↦ none
  | some limit ↦ elim k.inflight [
    | none ↦ some (limit - limit, limit)
    | some free ↦ some (limit - free, limit)
  ]
]

abbrev slot_free : Option ℕ → Bool
slot_free none = true
slot_free (some free) = ltb 0 free

-- A zero-token take, and whether a whole token is there.
abbrev peek : Option TokenBucket → ℕ → Option TokenBucket × Bool
peek none now_ms = (none, true)
peek (some b) now_ms =
    let (b', _) = try_consume b 0 now_ms in (some b', ltb 0 (available_tokens b'))

-- Both buckets are read, whatever the slots say.
unfoldable pub has_headroom : KeyRuntime → ℕ → KeyRuntime × Bool
has_headroom k now_ms =
    let (rpm', rpm_left) = peek k.rpm now_ms in
    let (tpm', tpm_left) = peek k.tpm now_ms in
    (record k { rpm = rpm'; tpm = tpm' }, slot_free k.inflight && rpm_left && tpm_left)

abbrev debit_bucket : Option TokenBucket → ℕ → ℕ → Option TokenBucket
debit_bucket none tokens now_ms = none
debit_bucket (some b) tokens now_ms = some (debit_saturating b tokens now_ms)

unfoldable pub debit_tokens : KeyRuntime → ℕ → ℕ → KeyRuntime
debit_tokens k tokens now_ms = record k { tpm = debit_bucket k.tpm tokens now_ms }
