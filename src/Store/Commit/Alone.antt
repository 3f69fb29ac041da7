-- ===== src/Store/Commit/Alone.antt =====
-- `Store::commit` of crates/router-store/src/lib.rs when no other task runs meanwhile.
use rapidrouter.Prelude.{
  ℕ, zero, suc, ◌<◌, add64, u64_max, length, ◌≡◌, ◌≢◌, refl, sym, ap, ◌∙◌, true, false, none, List,
  [], ◌∷◌, arith, Bool-cases, inl, inr, ==_iff, ◌==◌,
}
use rapidrouter.Store.{StoreState, apply}
use rapidrouter.Store.Plane.{Answer, done, Memory, load, commit}
use rapidrouter.Store.Commit.{
  opened, Request, Writer, Node, is_stale, attempt_write, keep_fetched, after_conflict, after_write,
  System, set_node, advance, begin, Move, step, run,
}
use rapidrouter.Store.Commit.Invariant.{document, at_version, IsConsistent, at_version-length}
use rapidrouter.Store.Commit.Steps.{run-log, run-IsConsistent}

-- The node of the last move.
set_node-same : (nodes : ℕ → Node) (i : ℕ) (node : Node) → set_node nodes i node i ≡ node
unfolding set_node
set_node-same nodes i node = ground arith

-- What a move of the node's write makes of the backend and the node.
abbrev solo : Memory → Node → Writer → Memory × Node
solo plane node Writer.idle = (plane, node)
solo plane node (Writer.looping attempt request) =
    (plane, record node { writer = attempt_write node.cached attempt request })
solo plane node (Writer.sending attempt request base next) =
    let (after, answer) = commit plane base next in (after, after_write node attempt request answer)
solo plane node (Writer.reloading attempt request actual) =
    (plane, record node { writer = Writer.reloaded attempt request actual (load plane) })
solo plane node (Writer.reloaded attempt request actual fetched) = (
  plane,
  record node {
    cached = keep_fetched node.cached fetched;
    writer = after_conflict attempt request actual request.expect;
  },
)
solo plane node (Writer.answered request answer) = (plane, node)

abbrev At : System → ℕ → Memory × Node → Type 0
At s i (plane, node) = (s.plane ≡ plane) × (s.nodes i ≡ node)

advance-solo :
    (i : ℕ) (writer : Writer) (s : System)
    → At (advance i writer s) i (solo s.plane (s.nodes i) writer)
unfolding advance
advance-solo i Writer.idle s = (refl, refl)
advance-solo i (Writer.looping attempt request) s = (refl, set_node-same s.nodes i _)
advance-solo i (Writer.sending attempt request base next) s = (refl, set_node-same s.nodes i _)
advance-solo i (Writer.reloading attempt request actual) s = (refl, set_node-same s.nodes i _)
advance-solo i (Writer.reloaded attempt request actual fetched) s =
    (refl, set_node-same s.nodes i _)
advance-solo i (Writer.answered request answer) s = (refl, refl)

unfoldable solo_all : ℕ → Memory × Node → Memory × Node
solo_all zero r = r
solo_all (suc n) r = solo_all n (solo r.0 r.1 r.1.writer)

abbrev pub going_on : ℕ → ℕ → List (ℕ × Move)
going_on i zero = []
going_on i (suc n) = (i, Move.go_on) ∷ going_on i n

run-solo : (n i : ℕ) (s : System) → At (run s (going_on i n)) i (solo_all n (s.plane, s.nodes i))
unfolding run step solo_all
run-solo zero i s = (refl, refl)
run-solo (suc n) i s =
    let (plane, node) = advance-solo i (s.nodes i).writer s in
    let (plane', node') = run-solo n i (advance i (s.nodes i).writer s) in
    let both : (solo s.plane (s.nodes i) (s.nodes i).writer)
        ≡ ((advance i (s.nodes i).writer s).plane, (advance i (s.nodes i).writer s).nodes i) =
      cc (plane, node) in
    (
      plane' ∙ ap (λ (r : Memory × Node). (solo_all n r).0) (sym both),
      node' ∙ ap (λ (r : Memory × Node). (solo_all n r).1) (sym both),
    )

solo_step :
    (n : ℕ) (r after : Memory × Node)
    → solo r.0 r.1 r.1.writer ≡ after
    → solo_all (suc n) r ≡ solo_all n after
unfolding solo_all
solo_step n r after h = ap (solo_all n) h

solo_all-answered :
    (n : ℕ) (plane : Memory) (node : Node) (request : Request) (answer : Answer ℕ)
    → solo_all n (plane, record node { writer = Writer.answered request answer })
      ≡ (plane, record node { writer = Writer.answered request answer })
unfolding solo_all
solo_all-answered zero plane node request answer = refl
solo_all-answered (suc n) plane node request answer = solo_all-answered n plane node request answer

-- A write that expects no version: the first attempt is made on the backend's document, or it is lost and
-- the second is.
module _ (plane : Memory) (request : Request) (unasked : request.expect ≡ none)
    (room : add64 plane.version 1 ≡ suc plane.version) where
  abbrev result : Memory
  result = record { state = apply plane.state request.command; version = suc plane.version }

  abbrev told : Node → Node
  told node = record node {
    cached = load result;
    writer = Writer.answered request (done (suc plane.version));
  }

  abbrev at_top : ℕ → Node → Node
  at_top attempt node = record node { writer = Writer.looping attempt request }

  abbrev sent : ℕ → Node → Node
  sent attempt node = record node {
    writer = Writer.sending attempt request node.cached (apply node.cached.state request.command);
  }

  try_once :
      (attempt : ℕ) (node : Node)
      → solo plane (at_top attempt node) (at_top attempt node).writer
        ≡ (plane, sent (suc attempt) node)
  unfolding attempt_write is_stale
  try_once attempt node = rw unasked refl

  wins :
      (n attempt : ℕ) (node : Node)
      → node.cached.version ≡ plane.version
      → node.cached.state ≡ plane.state
      → solo_all (suc (suc n)) (plane, at_top attempt node) ≡ (result, told node)
  unfolding commit after_write load
  wins n attempt node at same =
      let equal : (plane.version == node.cached.version) ≡ true = ground (arith, at) in
      solo_step (suc n) (plane, at_top attempt node) (plane, sent (suc attempt) node)
        (try_once attempt node)
      ∙ solo_step n (plane, sent (suc attempt) node) (result, told node)
          (rw (equal, room) (rw same refl))
      ∙ solo_all-answered n result (told node) request (done (suc plane.version))

  loses :
      (n : ℕ) (node : Node)
      → node.cached.version ≢ plane.version
      → solo_all (suc (suc (suc (suc n)))) (plane, at_top 0 node)
        ≡ solo_all n (plane, at_top 1 (record node { cached = load plane }))
  unfolding commit after_write load keep_fetched after_conflict
  loses n node other =
      let equal : (plane.version == node.cached.version) ≡ false = ground (arith, other) in
      solo_step (suc (suc (suc n))) (plane, at_top 0 node) (plane, sent 1 node) (try_once 0 node)
      ∙ solo_step (suc (suc n)) (plane, sent 1 node)
          (plane, record node { writer = Writer.reloading 1 request plane.version }) (rw equal refl)
      ∙ solo_step (suc n) (plane, record node { writer = Writer.reloading 1 request plane.version })
          (plane, record node { writer = Writer.reloaded 1 request plane.version (load plane) })
          refl
      ∙ solo_step n
          (plane, record node { writer = Writer.reloaded 1 request plane.version (load plane) })
          (plane, at_top 1 (record node { cached = load plane })) (rw (unasked, equal) refl)

  settles :
      (node : Node)
      → (node.cached.version ≡ plane.version → node.cached.state ≡ plane.state)
      → solo_all 6 (plane, at_top 0 node) ≡ (result, told node)
  unfolding load
  settles node same = elim (Bool-cases (node.cached.version == plane.version)) [
    | inl equal ↦
        let at = (==_iff node.cached.version plane.version).0 equal in wins 4 0 node at (same at)
    | inr behind ↦
        loses 2 node (λ at. ground (arith, behind, at))
        ∙ wins 0 1 (record node { cached = load plane }) refl refl
  ]

-- A cache at the backend's version is the backend's document.
current-same :
    (first : StoreState) (s : System) (i : ℕ)
    → IsConsistent first s
    → (s.nodes i).cached.version ≡ s.plane.version
    → (s.nodes i).cached.state ≡ s.plane.state
current-same first s i good at =
    (good.each i).known.1
    ∙ ap (document first)
        (ap (λ v. at_version v s.log) (at ∙ good.counted) ∙ at_version-length s.log)
    ∙ sym good.built

-- The write holds the lock at once.
abbrev pub IsFree : Request → Node → Type 0
IsFree request node = begin request node.writer ≡ Writer.looping 0 request

-- Whatever happened before, in fewer than 2^64 - 1 moves, a write that expects no version and holds the lock is answered within six of
-- its moves if no other task moves meanwhile: with the next version, at which the backend has its command
-- applied to the document that was there.
pub alone-done :
    (first : StoreState) (moves : List (ℕ × Move)) (i : ℕ) (request : Request)
    → length moves < u64_max
    → request.expect ≡ none
    → IsFree request ((run (opened first) moves).nodes i)
    → let before = run (opened first) moves in
      let after = run before ((i, Move.write request) ∷ going_on i 6) in
      (after.plane.state ≡ apply before.plane.state request.command)
      × (after.plane.version ≡ suc before.plane.version)
      × ((after.nodes i).writer ≡ Writer.answered request (done (suc before.plane.version)))
unfolding run step opened
alone-done first moves i request few unasked free =
    let s = run (opened first) moves in
    let good = run-IsConsistent first moves (omega arith) in
    let logged = run-log (opened first) moves in
    let room : add64 s.plane.version 1 ≡ suc s.plane.version =
      ground (arith, few, logged, good.counted) in
    let node = s.nodes i in
    let begun = step s (i, Move.write request) in
    let top : begun.nodes i ≡ at_top s.plane request unasked room 0 node =
      set_node-same s.nodes i (record node { writer = begin request node.writer })
      ∙ ap (λ w. record node { writer = w }) free in
    let settled = settles s.plane request unasked room node (current-same first s i good) in
    let (plane, mine) = run-solo 6 i begun in
    let both : solo_all 6 (s.plane, begun.nodes i)
        ≡ (result s.plane request unasked room, told s.plane request unasked room node) =
      ap (λ n. solo_all 6 (s.plane, n)) top ∙ settled in
    let document : (run begun (going_on i 6)).plane ≡ result s.plane request unasked room =
      plane ∙ ap (λ (r : Memory × Node). r.0) both in
    let answer : (run begun (going_on i 6)).nodes i ≡ told s.plane request unasked room node =
      mine ∙ ap (λ (r : Memory × Node). r.1) both in
    (
      ap (λ (m : Memory). m.state) document,
      ap (λ (m : Memory). m.version) document,
      ap (λ (n : Node). n.writer) answer,
    )
