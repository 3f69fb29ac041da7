-- ===== src/TokenBucket/Conservation.antt =====
-- No interleaving of the calls of crates/router-core/src/token_bucket.rs gives out more than the bucket
-- held and the time credited.
use rapidrouter.Prelude.{
  ℕ, zero, suc, ◌+◌, ◌-◌, ◌*◌, ◌≤◌, ◌≡◌, Bool, true, List, [], ◌∷◌, All, arith,
}
use rapidrouter.TokenBucket.{TokenBucket, refill, try_consume, debit_saturating}
use rapidrouter.TokenBucket.Laws.{rate_gap}
use rapidrouter.TokenBucket.Threads.{
  consume, debit, Thread, advancing, crediting, topping, taking, settled, consuming, debiting,
  advance, step, run, run_alone,
}

-- The millitokens that a thread has taken, and the credit that it owns and has not yet paid in.
abbrev pub taken_by : Thread → ℕ
taken_by (settled taken _) = taken
taken_by _ = 0

abbrev pub pending : Thread → ℕ
pending (crediting _ credit) = credit
pending (topping _ credit _) = credit
pending _ = 0

-- A thread about to move the time stamp moves it forward.
abbrev pub IsForward : Thread → Type 0
IsForward (advancing _ now_ms last) = last ≤ now_ms
IsForward _ = Unit

abbrev pub taken : List Thread → ℕ
taken [] = 0
taken (th ∷ ths) = taken_by th + taken ths

abbrev pub all_pending : List Thread → ℕ
all_pending [] = 0
all_pending (th ∷ ths) = pending th + all_pending ths

-- A step gives out no more than the balance, and a credit of at most the rate times the time that the
-- time stamp moved over.
abbrev Outcome : TokenBucket → ℕ → ℕ → TokenBucket → ℕ → ℕ → Type 0
Outcome b given owed b' given' owed' =
    (b'.refill_milli_per_ms ≡ b.refill_milli_per_ms)
    × (b'.capacity_milli ≡ b.capacity_milli)
    × (given' + owed' + b'.available + b.refill_milli_per_ms * b.last_refill_ms
        ≤ given + owed + b.available + b.refill_milli_per_ms * b'.last_refill_ms)
    × (b.available ≤ b.capacity_milli → b'.available ≤ b.capacity_milli)

advance-Outcome :
    (spurious : Bool) (b : TokenBucket) (th : Thread)
    → IsForward th
    → IsForward (advance spurious b th).1
      × Outcome b
          (taken_by th)
          (pending th)
          (advance spurious b th).0
          (taken_by (advance spurious b th).1)
          (pending (advance spurious b th).1)
unfolding advance
advance-Outcome spurious b (settled t a) h = ground arith
advance-Outcome spurious b (advancing goal now_ms last) h =
    ground (arith, rate_gap b.refill_milli_per_ms last now_ms)
advance-Outcome spurious b (taking (consume need) current) h = ground arith
advance-Outcome spurious b (taking (debit need) current) h = ground arith
advance-Outcome spurious b th h = ground arith

step-Outcome :
    (spurious : Bool) (i : ℕ) (b : TokenBucket) (ths : List Thread)
    → All IsForward ths
    → All IsForward (step spurious i b ths).1
      × Outcome b
          (taken ths)
          (all_pending ths)
          (step spurious i b ths).0
          (taken (step spurious i b ths).1)
          (all_pending (step spurious i b ths).1)
unfolding step
step-Outcome spurious i b [] h = ground arith
step-Outcome spurious zero b (th ∷ ths) h = ground (arith, advance-Outcome spurious b th h.0)
step-Outcome spurious (suc i) b (th ∷ ths) h = ground (arith, step-Outcome spurious i b ths h.1)

run-Outcome :
    (schedule : List (Bool × ℕ)) (b : TokenBucket) (ths : List Thread)
    → All IsForward ths
    → Outcome b
        (taken ths)
        (all_pending ths)
        (run schedule b ths).0
        (taken (run schedule b ths).1)
        (all_pending (run schedule b ths).1)
unfolding run
run-Outcome [] b ths h = ground arith
run-Outcome ((spurious, i) ∷ schedule) b ths h =
    let (h', first) = step-Outcome spurious i b ths h in
    let (b', ths') = step spurious i b ths in
    let rest = run-Outcome schedule b' ths' h' in ground arith

-- Any number of `try_consume` and `debit_saturating` calls at any points of their code, under any
-- schedule of their atomic accesses: what they have taken, with the balance left, is at most what they
-- had taken before, the balance and the credits owned at the start, and the rate times the time that
-- the time stamp has moved over. And the balance never passes the capacity.
pub run-conserves :
    (schedule : List (Bool × ℕ)) (b : TokenBucket) (ths : List Thread)
    → All IsForward ths
    → let b' = (run schedule b ths).0 in
      (taken (run schedule b ths).1 + b'.available + b.refill_milli_per_ms * b.last_refill_ms
        ≤ taken ths + all_pending ths + b.available + b.refill_milli_per_ms * b'.last_refill_ms)
      × (b.available ≤ b.capacity_milli → b'.available ≤ b.capacity_milli)
run-conserves schedule b ths h = ground (arith, run-Outcome schedule b ths h)

-- Alone, a call of `try_consume` or of `debit_saturating` ends within 6 steps; it leaves the bucket and
-- gives the answer of the sequential call, and has taken what the refilled balance lost.
pub run_alone-bucket :
    (b : TokenBucket) (tokens now_ms : ℕ)
    → let (after, answer) = try_consume b tokens now_ms in
      let drained = debit_saturating b tokens now_ms in
      (run_alone 6 b (consuming tokens now_ms)
        ≡ (after, settled ((refill b now_ms).available - after.available) answer))
      × (run_alone 6 b (debiting tokens now_ms)
          ≡ (drained, settled ((refill b now_ms).available - drained.available) true))
unfolding run_alone advance try_consume debit_saturating refill
run_alone-bucket b tokens now_ms = (ground arith, ground arith)
