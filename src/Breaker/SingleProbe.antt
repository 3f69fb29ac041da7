-- ===== src/Breaker/SingleProbe.antt =====
-- The invariant that the packed word of crates/router-core/src/breaker.rs protects: one half-open
-- probe at a time, over every interleaving of the calls.
use rapidrouter.Prelude.{
  ℕ, zero, suc, ◌+◌, ◌≤◌, ◌<◌, ◌≡◌, ◌⊎◌, inl, Bool, List, [], ◌∷◌, All, arith,
}
use rapidrouter.Breaker.{Breaker, Admission}
use rapidrouter.Breaker.Word.{
  since_of, state_of, closed_state, open_state, half_open_state, time_limit, unpack-pack,
}
use rapidrouter.Breaker.Threads.{
  Thread, admitting, clearing, loading, deciding, answered, succeeding, closing, unbenching,
  failing, judging, counting, rolling, restarting, adding, counted, opening, benching, finished,
  advance, step, run,
}

-- The time that a call was given.
abbrev pub time_of : Thread → ℕ
time_of (admitting t) = t
time_of (clearing t _) = t
time_of (loading t) = t
time_of (deciding t _) = t
time_of (answered t _) = t
time_of (succeeding t) = t
time_of (closing t) = t
time_of (unbenching t) = t
time_of (failing t) = t
time_of (judging t _) = t
time_of (counting t _) = t
time_of (rolling t _ _) = t
time_of (restarting t _) = t
time_of (adding t _) = t
time_of (counted t _ _) = t
time_of (opening t _) = t
time_of (benching t _) = t
time_of (finished t) = t

-- 1 for a thread that was given the probe slot.
abbrev pub probe_of : Thread → ℕ
probe_of (answered t Admission.probe) = 1
probe_of _ = 0

abbrev pub probes : List Thread → ℕ
probes [] = 0
probes (th ∷ ths) = probe_of th + probes ths

-- The word was written in the window that starts at `from`, or is closed.
abbrev IsFresh : ℕ → ℕ → Type 0
IsFresh from word = (state_of word ≡ closed_state) ⊎ (from ≤ since_of word)

-- A window of one cooldown, with times that fit the packed word.
abbrev pub InCooldown : ℕ → ℕ → Thread → Type 0
InCooldown from cooldown_ms th =
    (from ≤ time_of th) × (time_of th < from + cooldown_ms) × (time_of th < time_limit)

-- One step of a thread in the window keeps its time; either it keeps its count of probes and a fresh
-- word fresh, or it takes the probe slot of a word that was not fresh and leaves a fresh one.
abbrev Outcome : ℕ → Breaker → Thread → Breaker × Thread → Type 0
Outcome from b th (b', th') =
    (time_of th' ≡ time_of th)
    × (b'.config ≡ b.config)
    × (((probe_of th' ≡ probe_of th) × (IsFresh from b.word → IsFresh from b'.word))
        ⊎ ((probe_of th ≡ 0) × (probe_of th' ≡ 1) × ¬ IsFresh from b.word × IsFresh from b'.word))

advance-Outcome :
    (spurious : Bool) (from : ℕ) (b : Breaker) (th : Thread)
    → InCooldown from b.config.cooldown_ms th
    → Outcome from b th (advance spurious b th)
unfolding advance
advance-Outcome spurious from b (finished t) h = ground arith
advance-Outcome spurious from b th h = ground (
  arith,
  unpack-pack (time_of th) half_open_state,
  unpack-pack (time_of th) open_state,
  unpack-pack 0 closed_state,
)

-- The same of a step of the pool.
abbrev PoolOutcome : ℕ → Breaker → List Thread → Breaker × List Thread → Type 0
PoolOutcome from b ths (b', ths') =
    All (InCooldown from b.config.cooldown_ms) ths'
    × (b'.config ≡ b.config)
    × (((probes ths' ≡ probes ths) × (IsFresh from b.word → IsFresh from b'.word))
        ⊎ ((probes ths' ≡ suc (probes ths)) × ¬ IsFresh from b.word × IsFresh from b'.word))

step-PoolOutcome :
    (spurious : Bool) (i from : ℕ) (b : Breaker) (ths : List Thread)
    → All (InCooldown from b.config.cooldown_ms) ths
    → PoolOutcome from b ths (step spurious i b ths)
unfolding step
step-PoolOutcome spurious i from b [] h = ground arith
step-PoolOutcome spurious zero from b (th ∷ ths) h =
    ground (arith, advance-Outcome spurious from b th h.0)
step-PoolOutcome spurious (suc i) from b (th ∷ ths) h =
    ground (arith, step-PoolOutcome spurious i from b ths h.1)

-- No probe yet, or one with a word that nothing in the window will claim again.
abbrev Guarded : ℕ → Breaker → List Thread → Type 0
Guarded from b ths = (probes ths ≡ 0) ⊎ ((probes ths ≡ 1) × IsFresh from b.word)

run-Guarded :
    (schedule : List (Bool × ℕ)) (from : ℕ) (b : Breaker) (ths : List Thread)
    → All (InCooldown from b.config.cooldown_ms) ths
    → Guarded from b ths
    → probes (run schedule b ths).1 ≤ 1
unfolding run
run-Guarded [] from b ths h g = ground arith
run-Guarded ((spurious, i) ∷ schedule) from b ths h g =
    let (h', same, cases) = step-PoolOutcome spurious i from b ths h in
    let (b', ths') = step spurious i b ths in
    run-Guarded schedule from b' ths' (rw same h') (ground arith)

-- Calls of `admit`, `record_success`, `record_failure` and `bench_until`, any number of them, at any
-- points of their code, with times that all fall within one cooldown: no schedule of their atomic
-- accesses, spurious failures of the weak exchange included, hands out the probe slot twice.
pub run-single_probe :
    (schedule : List (Bool × ℕ)) (from : ℕ) (b : Breaker) (ths : List Thread)
    → All (InCooldown from b.config.cooldown_ms) ths
    → probes ths ≡ 0
    → probes (run schedule b ths).1 ≤ 1
run-single_probe schedule from b ths h none_yet = run-Guarded schedule from b ths h (inl none_yet)
