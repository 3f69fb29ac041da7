-- ===== src/Breaker/Counting.antt =====
-- Runs of failures of crates/router-core/src/breaker.rs: the windowed count and the threshold.
use rapidrouter.Prelude.{
  Bool-cases, ltb, ltb→lt, ltb-false, ◌∙◌, inl, inr, ℕ, ◌+◌, ◌-◌, ◌≤◌, ◌<◌, ◌≡◌, refl, List, [],
  ◌∷◌, All, length, u32_mod, arith,
}
use rapidrouter.Breaker.{Breaker, record_failure}
use rapidrouter.Breaker.Word.{state_of, closed_state, open_state, pack_bounds}

-- `record_failure` at each of these times.
unfoldable pub record_failures : Breaker → List ℕ → Breaker
record_failures b [] = b
record_failures b (t ∷ ts) = record_failures (record_failure b t) ts

stays_open : (b : Breaker) (ts : List ℕ) → state_of b.word ≡ open_state → record_failures b ts ≡ b
unfolding record_failures record_failure
stays_open b [] h = refl
stays_open b (t ∷ ts) h = ground (arith, stays_open b ts h)

abbrev InWindow : Breaker → ℕ → Type 0
InWindow b t = t - b.window_start_ms ≤ b.config.window_ms

-- The first failure of a run: it is counted, and the breaker trips if the count reaches the threshold.
first_failure :
    (b : Breaker) (t : ℕ)
    → state_of b.word ≡ closed_state
    → b.failures < b.config.failure_threshold
    → b.config.failure_threshold < u32_mod
    → InWindow b t
    → ((b.failures + 1 < b.config.failure_threshold)
        → record_failure b t ≡ record b { failures = b.failures + 1 })
      × (b.config.failure_threshold ≤ b.failures + 1
          → state_of (record_failure b t).word ≡ open_state)
unfolding record_failure
first_failure b t closed below small inside = ground (arith, pack_bounds t open_state)

-- A closed breaker below its threshold, through failures that all fall in the running window: it stays
-- closed with the exact count while the count is below the threshold, and is open once the count has
-- reached it, whatever failures follow.
pub record_failures-threshold :
    (b : Breaker) (ts : List ℕ)
    → state_of b.word ≡ closed_state
    → b.failures < b.config.failure_threshold
    → b.config.failure_threshold < u32_mod
    → All (InWindow b) ts
    → (b.failures + length ts < b.config.failure_threshold
        → (state_of (record_failures b ts).word ≡ closed_state)
          × ((record_failures b ts).failures ≡ b.failures + length ts))
      × (b.config.failure_threshold ≤ b.failures + length ts
          → state_of (record_failures b ts).word ≡ open_state)
unfolding record_failures
record_failures-threshold b [] closed below small inside =
    (λ _. (closed, omega arith), λ h. absurd (omega arith))
record_failures-threshold b (t ∷ ts) closed below small inside =
    elim (Bool-cases (ltb (b.failures + 1) b.config.failure_threshold)) [
      | inl more ↦
          let under = ltb→lt (b.failures + 1) b.config.failure_threshold more in
          let counted = record b { failures = b.failures + 1 } in
          let rest = record_failures-threshold counted ts closed under small inside.1 in
          rw ((first_failure b t closed below small inside.0).0 under, record_failures)
            (
              λ h. ((rest.0 (omega arith)).0, (rest.0 (omega arith)).1 ∙ omega arith),
              λ h. rest.1 (omega arith),
            )
      | inr reached ↦
          let tripped =
            (first_failure b t closed below small inside.0).1
              (ltb-false (b.failures + 1) b.config.failure_threshold reached) in
          (
            λ h.
                absurd
                  (omega (arith, ltb-false (b.failures + 1) b.config.failure_threshold reached)),
            λ h. rw (stays_open (record_failure b t) ts tripped, record_failures) tripped,
          )
    ]
