-- ===== src/Breaker/Threads.antt =====
-- The calls of crates/router-core/src/breaker.rs as threads: one step for each atomic access of
-- `admit`, `record_success`, `record_failure` and `bench_until`, on the one shared breaker. A weak
-- compare-exchange may fail though the word is the expected one (`spurious`). Accesses take effect in
-- one order, that of the schedule.
use rapidrouter.Prelude.{
  ℕ, zero, suc, ◌-◌, Bool, false, not, ◌&&◌, List, [], ◌∷◌, ltb, ◌==◌, if◌then◌else◌, max, add32,
}
use rapidrouter.Breaker.{Breaker, Admission, probe, deny, answer, claim, admit_round}
use rapidrouter.Breaker.Word.{pack, state_of, closed_state, open_state, half_open_state}

-- Where a call stands, with its local variables.
pub data Thread : Type 0 where
  -- `admit` before it reads the bench; with an elapsed bench to clear; before it reads the word; with
  -- the word in `current`; returned.
  admitting : ℕ → Thread
  clearing : ℕ → ℕ → Thread
  loading : ℕ → Thread
  deciding : ℕ → ℕ → Thread
  answered : ℕ → Admission → Thread
  -- `record_success` before each of its three stores.
  succeeding : ℕ → Thread
  closing : ℕ → Thread
  unbenching : ℕ → Thread
  -- `record_failure` before it reads the word; with the word in `current`; in the closed state before
  -- it reads the window, before it tries to begin a new one, before it stores 1, before it adds 1, and
  -- with the count; before the exchange that opens.
  failing : ℕ → Thread
  judging : ℕ → ℕ → Thread
  counting : ℕ → ℕ → Thread
  rolling : ℕ → ℕ → ℕ → Thread
  restarting : ℕ → ℕ → Thread
  adding : ℕ → ℕ → Thread
  counted : ℕ → ℕ → ℕ → Thread
  opening : ℕ → ℕ → Thread
  -- `bench_until`.
  benching : ℕ → ℕ → Thread
  finished : ℕ → Thread

-- The round of `admit` on `current`; the exchange against the word as it is now.
admit_advance : Bool → Breaker → ℕ → ℕ → Breaker × Thread
unfolding admit_round
admit_advance spurious b now_ms current = elim (admit_round b.config now_ms current) [
  | answer a ↦ (b, answered now_ms a)
  | claim next ↦
      if not spurious && b.word == current
      then (record b { word = next }, answered now_ms probe)
      else (b, deciding now_ms b.word)
]

-- The loop of `record_failure` on `current`.
judge : ℕ → ℕ → Thread
judge now_ms current =
    if state_of current == open_state
    then finished now_ms
    else if state_of current == half_open_state
    then opening now_ms current
    else counting now_ms current

-- One step of one thread: at most one atomic access.
unfoldable pub advance : Bool → Breaker → Thread → Breaker × Thread
unfolding admit_advance judge pack
advance spurious b (admitting now_ms) =
    if b.bench_until_ms == 0
    then (b, loading now_ms)
    else if ltb now_ms b.bench_until_ms
    then (b, answered now_ms deny)
    else (b, clearing now_ms b.bench_until_ms)
advance spurious b (clearing now_ms bench) =
    if b.bench_until_ms == bench
    then (record b { bench_until_ms = 0 }, loading now_ms)
    else (b, loading now_ms)
advance spurious b (loading now_ms) = (b, deciding now_ms b.word)
advance spurious b (deciding now_ms current) = admit_advance spurious b now_ms current
advance spurious b (answered now_ms a) = (b, answered now_ms a)
advance spurious b (succeeding now_ms) = (record b { failures = 0 }, closing now_ms)
advance spurious b (closing now_ms) = (record b { word = pack 0 closed_state }, unbenching now_ms)
advance spurious b (unbenching now_ms) = (record b { bench_until_ms = 0 }, finished now_ms)
advance spurious b (failing now_ms) = (b, judging now_ms b.word)
advance spurious b (judging now_ms current) = (b, judge now_ms current)
advance spurious b (counting now_ms current) =
    if ltb b.config.window_ms (now_ms - b.window_start_ms)
    then (b, rolling now_ms current b.window_start_ms)
    else (b, adding now_ms current)
advance spurious b (rolling now_ms current window_start) =
    if b.window_start_ms == window_start
    then (record b { window_start_ms = now_ms }, restarting now_ms current)
    else (b, adding now_ms current)
advance spurious b (restarting now_ms current) =
    (record b { failures = 1 }, counted now_ms current 1)
advance spurious b (adding now_ms current) =
    (record b { failures = add32 b.failures 1 }, counted now_ms current (add32 b.failures 1))
advance spurious b (counted now_ms current count) =
    if ltb count b.config.failure_threshold
    then (b, finished now_ms)
    else (b, opening now_ms current)
advance spurious b (opening now_ms current) =
    if not spurious && b.word == current
    then (record b { word = pack now_ms open_state }, finished now_ms)
    else (b, judging now_ms b.word)
advance spurious b (benching now_ms until_ms) =
    (record b { bench_until_ms = max b.bench_until_ms until_ms }, finished now_ms)
advance spurious b (finished now_ms) = (b, finished now_ms)

-- The thread at an index takes a step; an index past the end is idle.
unfoldable pub step : Bool → ℕ → Breaker → List Thread → Breaker × List Thread
step spurious i b [] = (b, [])
step spurious zero b (th ∷ ths) = let (b', th') = advance spurious b th in (b', th' ∷ ths)
step spurious (suc i) b (th ∷ ths) = let (b', ths') = step spurious i b ths in (b', th ∷ ths')

-- A schedule names the thread of each step, and whether its weak exchange fails spuriously.
unfoldable pub run : List (Bool × ℕ) → Breaker → List Thread → Breaker × List Thread
run [] b ths = (b, ths)
run ((spurious, i) ∷ schedule) b ths =
    let (b', ths') = step spurious i b ths in run schedule b' ths'

-- One thread alone on the breaker, for this many steps, with no spurious failure.
unfoldable pub run_alone : ℕ → Breaker → Thread → Breaker × Thread
run_alone zero b th = (b, th)
run_alone (suc n) b th = let (b', th') = advance false b th in run_alone n b' th'
