-- ===== src/Store/Commit/Invariant.antt =====
-- What every schedule keeps true of the writes in crates/router-store/src/lib.rs.
use Prim.{Unit, ⊥}
use rapidrouter.Prelude.{
  ℕ, zero, suc, ◌-◌, ◌≤◌, ◌<◌, ◌≡◌, ◌≢◌, sym, ap, subst, ◌∙◌, false, Option, none, some, [], ◌∷◌,
  length, drop, Bool-cases, inl, inr, ==_iff, ◌==◌, arith, if◌then◌else◌,
}
use rapidrouter.Store.{StoreState, Command, apply}
use rapidrouter.Store.Plane.{
  Snapshot, conflict, unavailable, fault, unsupported, Answer, failed, done, load,
}
use rapidrouter.Store.Commit.{
  commit_attempts, Request, Writer, Node, is_stale, keep_fetched, Log, System, set_node,
}

-- The commands of a log, applied in turn.
unfoldable pub document : StoreState → Log → StoreState
document first [] = first
document first ((i, command) ∷ log) = apply (document first log) command

-- The log when the document had a version.
abbrev pub at_version : ℕ → Log → Log
at_version v log = drop (length log - v) log

-- The snapshot is the document at its version.
abbrev pub IsKnown : StoreState → Log → Snapshot → Type 0
IsKnown first log snapshot =
    (snapshot.version ≤ length log)
    × (snapshot.state ≡ document first (at_version snapshot.version log))

-- Node `i` made the version, with the command.
abbrev pub IsMade : Log → ℕ → Command → ℕ → Type 0
IsMade log i command v =
    (1 ≤ v) × (v ≤ length log) × (at_version v log ≡ (i, command) ∷ at_version (v - 1) log)

-- A write that expects a version makes the next.
unfoldable pub Follows : Option ℕ → ℕ → Type 0
Follows none v = Unit
Follows (some expected) v = v ≡ suc expected

unfoldable pub IsLost : Option ℕ → ℕ → Type 0
IsLost none actual = Unit
IsLost (some expected) actual = expected ≢ actual

-- What an answer promises.
unfoldable pub IsHonest : Log → ℕ → Request → Answer ℕ → Type 0
IsHonest log i request (done v) = IsMade log i request.command v × Follows request.expect v
IsHonest log i request (failed (conflict expected actual)) =
    (request.expect ≡ some expected) × (expected ≢ actual)
IsHonest log i request (failed unavailable) = request.expect ≡ none
IsHonest log i request (failed fault) = ⊥
IsHonest log i request (failed unsupported) = ⊥

unfoldable pub IsSound : StoreState → Log → ℕ → Writer → Type 0
unfolding IsHonest
IsSound first log i Writer.idle = Unit
IsSound first log i (Writer.looping attempt request) = attempt < commit_attempts
IsSound first log i (Writer.sending attempt request base next) =
    (attempt ≤ commit_attempts)
    × IsKnown first log base
    × (next ≡ apply base.state request.command)
    × (is_stale request.expect base.version ≡ false)
IsSound first log i (Writer.reloading attempt request actual) =
    (attempt ≤ commit_attempts) × IsLost request.expect actual
IsSound first log i (Writer.reloaded attempt request actual fetched) =
    (attempt ≤ commit_attempts) × IsLost request.expect actual × IsKnown first log fetched
IsSound first log i (Writer.answered request answer) = IsHonest log i request answer

unfoldable pub IsKnownIf : StoreState → Log → Option Snapshot → Type 0
IsKnownIf first log none = Unit
IsKnownIf first log (some snapshot) = IsKnown first log snapshot

pub record IsGood (first : StoreState) (log : Log) (i : ℕ) (node : Node) : Type 0 where
  pub known : IsKnown first log node.cached
  pub fetched : IsKnownIf first log node.fetched
  pub sound : IsSound first log i node.writer

pub record IsConsistent (first : StoreState) (s : System) : Type 0 where
  pub counted : s.plane.version ≡ length s.log
  pub built : s.plane.state ≡ document first s.log
  pub each : (i : ℕ) → IsGood first s.log i (s.nodes i)

pub at_version-cons :
    (v : ℕ) (e : ℕ × Command) (log : Log)
    → v ≤ length log
    → at_version v (e ∷ log) ≡ at_version v log
at_version-cons v e log h =
    let more : suc (length log) - v ≡ suc (length log - v) = omega arith in
    ap (λ k. drop k (e ∷ log)) more

pub at_version-length : (log : Log) → at_version (length log) log ≡ log
at_version-length log =
    let whole : length log - length log ≡ zero = omega arith in ap (λ k. drop k log) whole

module _ (first : StoreState) (e : ℕ × Command) (log : Log) where
  pub IsKnown-cons :
      (snapshot : Snapshot) → IsKnown first log snapshot → IsKnown first (e ∷ log) snapshot
  IsKnown-cons snapshot (within, same) = (
    omega arith,
    same ∙ ap (document first) (sym (at_version-cons snapshot.version e log within)),
  )

  IsMade-cons :
      (i : ℕ) (command : Command) (v : ℕ) → IsMade log i command v → IsMade (e ∷ log) i command v
  IsMade-cons i command v (least, within, made) = (
    least,
    omega arith,
    at_version-cons v e log within
        ∙ made
        ∙ ap (λ l. (i, command) ∷ l) (sym (at_version-cons (v - 1) e log (omega arith))),
  )

  IsHonest-cons :
      (i : ℕ) (request : Request) (answer : Answer ℕ)
      → IsHonest log i request answer
      → IsHonest (e ∷ log) i request answer
  unfolding IsHonest
  IsHonest-cons i request (done v) (made, follows) = (IsMade-cons i request.command v made, follows)
  IsHonest-cons i request (failed (conflict expected actual)) h = h
  IsHonest-cons i request (failed unavailable) h = h
  IsHonest-cons i request (failed fault) h = h
  IsHonest-cons i request (failed unsupported) h = h

  IsSound-cons :
      (i : ℕ) (writer : Writer) → IsSound first log i writer → IsSound first (e ∷ log) i writer
  unfolding IsSound
  IsSound-cons i Writer.idle h = h
  IsSound-cons i (Writer.looping attempt request) h = h
  IsSound-cons i (Writer.sending attempt request base next) (bound, known, same, fresh) =
      (bound, IsKnown-cons base known, same, fresh)
  IsSound-cons i (Writer.reloading attempt request actual) h = h
  IsSound-cons i (Writer.reloaded attempt request actual fetched) (bound, lost, known) =
      (bound, lost, IsKnown-cons fetched known)
  IsSound-cons i (Writer.answered request answer) h = IsHonest-cons i request answer h

  IsKnownIf-cons :
      (fetched : Option Snapshot) → IsKnownIf first log fetched → IsKnownIf first (e ∷ log) fetched
  unfolding IsKnownIf
  IsKnownIf-cons none h = h
  IsKnownIf-cons (some snapshot) h = IsKnown-cons snapshot h

  pub IsGood-cons : (i : ℕ) (node : Node) → IsGood first log i node → IsGood first (e ∷ log) i node
  IsGood-cons i node good = record {
    known = IsKnown-cons node.cached good.known;
    fetched = IsKnownIf-cons node.fetched good.fetched;
    sound = IsSound-cons i node.writer good.sound;
  }

-- What holds of each node still does when one node is replaced by another of which it holds.
pub set_node-each :
    (P : ℕ → Node → Type 0) (nodes : ℕ → Node) (i : ℕ) (node : Node)
    → ((j : ℕ) → P j (nodes j))
    → P i node
    → (j : ℕ) → P j (set_node nodes i node j)
unfolding set_node
set_node-each P nodes i node each new j = elim (Bool-cases (j == i)) [
  | inl same ↦
      subst (λ b. P j (if b then node else nodes j)) (sym same)
        (subst (λ k. P k node) (sym ((==_iff j i).0 same)) new)
  | inr other ↦ subst (λ b. P j (if b then node else nodes j)) (sym other) (each j)
]

pub load-IsKnown :
    (first : StoreState) (s : System) → IsConsistent first s → IsKnown first s.log (load s.plane)
unfolding load
load-IsKnown first s good =
    (omega (arith, good.counted), rw (good.counted, at_version-length s.log) good.built)

pub keep_fetched-IsKnown :
    (first : StoreState) (log : Log) (cached fetched : Snapshot)
    → IsKnown first log cached
    → IsKnown first log fetched
    → IsKnown first log (keep_fetched cached fetched)
unfolding keep_fetched
keep_fetched-IsKnown first log cached fetched old new =
    elim (Bool-cases (fetched.version == cached.version)) [
      | inl same ↦ rw same old
      | inr other ↦ rw other new
    ]
