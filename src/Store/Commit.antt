-- ===== src/Store/Commit.antt =====
-- `Store::refresh` and `Store::commit` of crates/router-store/src/lib.rs, over the memory backend. Between
-- two awaits a node's code runs whole, and at an await any other task may run: another node's write, or
-- this node's timer, whose `refresh` the lock on writes does not hold back. A node's write is therefore a
-- program counter and the variables it needs there, and `step` is one move of one task. `log` is no state
-- of the program: it records which node's command made each version, the newest first.
pub mod Invariant
pub mod Rounds
pub mod Steps
pub mod Answers
pub mod Alone
mod Examples
use rapidrouter.Prelude.{
  ℕ, zero, suc, Bool, not, Option, none, some, List, [], ◌∷◌, leb, ◌==◌, if◌then◌else◌,
}
use rapidrouter.Store.{StoreState, Command, apply}
use rapidrouter.Store.Plane.{
  Snapshot, ControlPlaneError, conflict, unavailable, Answer, failed, done, Memory, load, commit,
}

abbrev pub commit_attempts : ℕ
commit_attempts = 5

-- What a write was asked: the version it expects, and the command.
pub record Request : Type 0 where
  pub expect : Option ℕ
  pub command : Command

-- Where a write stands: at the top of the loop, at the backend's write, at the two halves of the refresh
-- after a conflict, and answered.
pub data Writer : Type 0 where
  idle : Writer
  looping : (attempt : ℕ) → Request → Writer
  sending : (attempt : ℕ) → Request → (base : Snapshot) → (next : StoreState) → Writer
  reloading : (attempt : ℕ) → Request → (actual : ℕ) → Writer
  reloaded : (attempt : ℕ) → Request → (actual : ℕ) → (fetched : Snapshot) → Writer
  answered : Request → Answer ℕ → Writer

pub record Node : Type 0 where
  pub cached : Snapshot
  pub writer : Writer
  -- What the timer's `refresh` has fetched.
  pub fetched : Option Snapshot

-- The first check of the loop.
unfoldable pub is_stale : Option ℕ → ℕ → Bool
is_stale none version = Bool.false
is_stale (some expected) version = not (expected == version)

unfoldable pub expected_of : Option ℕ → ℕ
expected_of none = zero
expected_of (some expected) = expected

-- From the top of the loop to the backend's write.
unfoldable pub attempt_write : Snapshot → ℕ → Request → Writer
unfolding apply is_stale expected_of
attempt_write cached attempt request =
    if is_stale request.expect cached.version
    then Writer.answered request (failed (conflict (expected_of request.expect) cached.version))
    else Writer.sending (suc attempt) request cached (apply cached.state request.command)

-- The end of `refresh`: the snapshot is stored when its version is another.
unfoldable pub keep_fetched : Snapshot → Snapshot → Snapshot
keep_fetched cached fetched = if fetched.version == cached.version then cached else fetched

-- After the refresh of a lost write.
unfoldable pub after_conflict : ℕ → Request → ℕ → Option ℕ → Writer
after_conflict attempt request actual (some expected) =
    Writer.answered request (failed (conflict expected actual))
after_conflict attempt request actual none =
    if leb commit_attempts attempt
    then Writer.answered request (failed unavailable)
    else Writer.looping attempt request

-- The backend's answer: a written snapshot becomes the cache, and a conflict is followed by a refresh.
unfoldable pub after_write : Node → ℕ → Request → Answer Snapshot → Node
after_write node attempt request (done snapshot) = record node {
  cached = snapshot;
  writer = Writer.answered request (done snapshot.version);
}
after_write node attempt request (failed (conflict expected actual)) = record node {
  writer = Writer.reloading attempt request actual;
}
after_write node attempt request (failed other) = record node {
  writer = Writer.answered request (failed other);
}

abbrev pub Log : Type 0
Log = List (ℕ × Command)

abbrev pub noted : Log → ℕ → Command → Answer Snapshot → Log
noted log i command (done snapshot) = (i, command) ∷ log
noted log i command (failed error) = log

pub record System : Type 0 where
  pub plane : Memory
  pub nodes : ℕ → Node
  pub log : Log

unfoldable pub set_node : (ℕ → Node) → ℕ → Node → ℕ → Node
set_node nodes i node j = if j == i then node else nodes j

-- One move of a node's write.
unfoldable pub advance : ℕ → Writer → System → System
unfolding set_node attempt_write keep_fetched after_conflict after_write load commit
advance i Writer.idle s = s
advance i (Writer.looping attempt request) s =
    let node = s.nodes i in
    record s {
      nodes =
          set_node s.nodes i (record node { writer = attempt_write node.cached attempt request });
    }
advance i (Writer.sending attempt request base next) s =
    let (plane, answer) = commit s.plane base next in
    record {
      plane = plane;
      nodes = set_node s.nodes i (after_write (s.nodes i) attempt request answer);
      log = noted s.log i request.command answer;
    }
advance i (Writer.reloading attempt request actual) s =
    let node = s.nodes i in
    record s {
      nodes =
          set_node s.nodes i
            (record node { writer = Writer.reloaded attempt request actual (load s.plane) });
    }
advance i (Writer.reloaded attempt request actual fetched) s =
    let node = s.nodes i in
    record s {
      nodes = set_node s.nodes i (record node {
        cached = keep_fetched node.cached fetched;
        writer = after_conflict attempt request actual request.expect;
      });
    }
advance i (Writer.answered request answer) s = s

-- A write waits for the one before it, which holds the lock until it is answered.
unfoldable pub begin : Request → Writer → Writer
begin request Writer.idle = Writer.looping 0 request
begin request (Writer.answered before answer) = Writer.looping 0 request
begin request busy = busy

-- The moves of a node: it begins a write, goes on with it, and its timer fetches and stores.
pub data Move : Type 0 where
  write : Request → Move
  go_on : Move
  fetch : Move
  store : Move

unfoldable pub store_fetched : Node → Option Snapshot → Node
unfolding keep_fetched
store_fetched node none = node
store_fetched node (some fetched) = record node {
  cached = keep_fetched node.cached fetched;
  fetched = none;
}

unfoldable pub step : System → ℕ × Move → System
unfolding advance begin store_fetched
step s (i, Move.write request) =
    let node = s.nodes i in
    record s { nodes = set_node s.nodes i (record node { writer = begin request node.writer }) }
step s (i, Move.go_on) = advance i (s.nodes i).writer s
step s (i, Move.fetch) =
    let node = s.nodes i in
    record s { nodes = set_node s.nodes i (record node { fetched = some (load s.plane) }) }
step s (i, Move.store) =
    let node = s.nodes i in
    record s { nodes = set_node s.nodes i (store_fetched node node.fetched) }

unfoldable pub run : System → List (ℕ × Move) → System
unfolding step
run s [] = s
run s (move ∷ rest) = run (step s move) rest

-- Every node has just opened the store.
unfoldable pub opened : StoreState → System
opened state = record {
  plane = record { state = state; version = 0 };
  nodes = λ i. record {
    cached = load (record { state = state; version = 0 });
    writer = Writer.idle;
    fetched = none;
  };
  log = [];
}
