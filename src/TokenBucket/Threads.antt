-- ===== src/TokenBucket/Threads.antt =====
-- The calls of crates/router-core/src/token_bucket.rs as threads: one step for each atomic access of
-- `refill`, `try_consume` and `debit_saturating`, on one shared bucket. A weak compare-exchange may
-- fail spuriously.
use rapidrouter.Prelude.{
  ℕ, zero, suc, ◌-◌, Bool, true, false, not, ◌&&◌, List, [], ◌∷◌, ltb, leb, ◌==◌, if◌then◌else◌,
  mul64, sat_mul64,
}
use rapidrouter.TokenBucket.{TokenBucket, topped_up}

-- What a call takes once it has refilled: all of `need` or nothing, or as much of it as there is.
pub data Goal : Type 0 where
  consume : ℕ → Goal
  debit : ℕ → Goal

pub data Thread : Type 0 where
  -- `refill`: before it reads the time stamp; before it tries to move it on from the second time; with
  -- a credit before it reads the balance; and with the balance.
  refilling : Goal → ℕ → Thread
  advancing : Goal → ℕ → ℕ → Thread
  crediting : Goal → ℕ → Thread
  topping : Goal → ℕ → ℕ → Thread
  -- The balance loop: before it reads the balance, and with it.
  reading : Goal → Thread
  taking : Goal → ℕ → Thread
  -- Returned, with the millitokens taken and the answer.
  settled : ℕ → Bool → Thread

-- A call of `try_consume` and of `debit_saturating`.
abbrev pub consuming : ℕ → ℕ → Thread
consuming tokens now_ms = refilling (consume (mul64 tokens 1000)) now_ms

abbrev pub debiting : ℕ → ℕ → Thread
debiting tokens now_ms = refilling (debit (sat_mul64 tokens 1000)) now_ms

-- A weak compare-exchange of the balance.
exchange : Bool → TokenBucket → ℕ → ℕ → Thread → (ℕ → Thread) → TokenBucket × Thread
exchange spurious b current next done again =
    if not spurious && b.available == current
    then (record b { available = next }, done)
    else (b, again b.available)

take_round : Bool → TokenBucket → Goal → ℕ → TokenBucket × Thread
unfolding exchange
take_round spurious b (consume need) current =
    if ltb current need
    then (b, settled 0 false)
    else exchange spurious b current (current - need) (settled need true) (taking (consume need))
take_round spurious b (debit need) current =
    if (current - need) == current
    then (b, settled 0 true)
    else exchange spurious b current (current - need) (settled (current - (current - need)) true)
        (taking (debit need))

unfoldable pub advance : Bool → TokenBucket → Thread → TokenBucket × Thread
unfolding exchange take_round topped_up
advance spurious b (refilling goal now_ms) =
    if leb now_ms b.last_refill_ms
    then (b, reading goal)
    else (b, advancing goal now_ms b.last_refill_ms)
advance spurious b (advancing goal now_ms last) =
    if b.last_refill_ms == last
    then (
      record b { last_refill_ms = now_ms },
      crediting goal (sat_mul64 (now_ms - last) b.refill_milli_per_ms),
    )
    else (b, reading goal)
advance spurious b (crediting goal credit) = (b, topping goal credit b.available)
advance spurious b (topping goal credit current) =
    if topped_up b current credit == current
    then (b, reading goal)
    else exchange spurious b current (topped_up b current credit) (reading goal)
        (topping goal credit)
advance spurious b (reading goal) = (b, taking goal b.available)
advance spurious b (taking goal current) = take_round spurious b goal current
advance spurious b (settled taken answer) = (b, settled taken answer)

unfoldable pub step : Bool → ℕ → TokenBucket → List Thread → TokenBucket × List Thread
step spurious i b [] = (b, [])
step spurious zero b (th ∷ ths) = let (b', th') = advance spurious b th in (b', th' ∷ ths)
step spurious (suc i) b (th ∷ ths) = let (b', ths') = step spurious i b ths in (b', th ∷ ths')

unfoldable pub run : List (Bool × ℕ) → TokenBucket → List Thread → TokenBucket × List Thread
run [] b ths = (b, ths)
run ((spurious, i) ∷ schedule) b ths =
    let (b', ths') = step spurious i b ths in run schedule b' ths'

unfoldable pub run_alone : ℕ → TokenBucket → Thread → TokenBucket × Thread
run_alone zero b th = (b, th)
run_alone (suc n) b th = let (b', th') = advance false b th in run_alone n b' th'
