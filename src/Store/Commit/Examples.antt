-- ===== src/Store/Commit/Examples.antt =====
-- Schedules of two nodes, and the theorems about the writes of crates/router-store/src/lib.rs there.
use rapidrouter.Prelude.{ℕ, suc, ◌≡◌, refl, none, some, List, [], ◌∷◌, ◌++◌, length, arith}
use rapidrouter.Store.{StoreState, Command, put_setting, apply}
use rapidrouter.Store.Members.{apply_all}
use rapidrouter.Store.Plane.{conflict, failed, done}
use rapidrouter.Store.Commit.{Request, Writer, Move, opened, run, begin}
use rapidrouter.Store.Commit.Invariant.{IsConsistent, IsHonest}
use rapidrouter.Store.Commit.Steps.{run-IsConsistent}
use rapidrouter.Store.Commit.Answers.{run-IsHonest, answered-stays}
use rapidrouter.Store.Commit.Alone.{going_on, alone-done}

abbrev empty : StoreState
empty = record {
  config_text = none;
  virtual_keys = [];
  secrets = [];
  settings = [];
  users = [];
  teams = [];
}

abbrev dark : Request
dark = record { expect = none; command = put_setting "theme" "dark" }

-- The operator looks at version 0.
abbrev light : Request
light = record { expect = some 0; command = put_setting "theme" "light" }

-- Node 0's write overtakes node 1's, which is told of the conflict.
abbrev race : List (ℕ × Move)
race =
    (1, Move.write light)
    ∷ (1, Move.go_on)
    ∷ (0, Move.write dark)
    ∷ (0, Move.go_on)
    ∷ (0, Move.go_on)
    ∷ (1, Move.go_on)
    ∷ (1, Move.go_on)
    ∷ (1, Move.go_on)
    ∷ []

race_told :
    ((run (opened empty) race).nodes 1).writer ≡ Writer.answered light (failed (conflict 0 1))
unfolding run opened
race_told = refl

-- Both write without an expected version: the second is retried.
abbrev both : List (ℕ × Move)
both =
    (1, Move.write dark)
    ∷ (1, Move.go_on)
    ∷ (0, Move.write dark)
    ∷ (0, Move.go_on)
    ∷ (0, Move.go_on)
    ∷ going_on 1 5

-- The timer has fetched the document before the node's own write, and stores it after: the cache goes back
-- to version 0, after the node was told that it had made version 1.
abbrev timer : List (ℕ × Move)
timer =
    (0, Move.fetch)
    ∷ (0, Move.write dark)
    ∷ (0, Move.go_on)
    ∷ (0, Move.go_on)
    ∷ (0, Move.store)
    ∷ []

cache_goes_back :
    (((run (opened empty) timer).nodes 0).writer ≡ Writer.answered dark (done 1))
    × (((run (opened empty) timer).nodes 0).cached.version ≡ 0)
unfolding run opened
cache_goes_back = (refl, refl)

run-IsConsistent_example : IsConsistent empty (run (opened empty) both)
run-IsConsistent_example = run-IsConsistent empty both (omega arith)

run-IsHonest_example : IsHonest (run (opened empty) race).log 1 light (failed (conflict 0 1))
unfolding run opened
run-IsHonest_example = run-IsHonest empty race 1 light (failed (conflict 0 1)) (omega arith) refl

-- Node 1's write, which lost to node 0's and was written again.
answered-stays_example :
    (before : List Command) × (after : List Command) × ((run (opened empty) both).plane.state
      ≡ apply_all empty (before ++ (dark.command ∷ after)))
    × ((run (opened empty) both).plane.version ≡ length (before ++ (dark.command ∷ after)))
    × (suc (length before) ≡ 2)
unfolding run opened
answered-stays_example = answered-stays empty both 1 dark 2 (omega arith) refl

alone-done_example :
    let before = run (opened empty) timer in
    let after = run before ((0, Move.write dark) ∷ going_on 0 6) in
    (after.plane.state ≡ apply before.plane.state (put_setting "theme" "dark"))
    × (after.plane.version ≡ suc before.plane.version)
    × ((after.nodes 0).writer ≡ Writer.answered dark (done (suc before.plane.version)))
unfolding run opened begin
alone-done_example = alone-done empty timer 0 dark (omega arith) refl refl
