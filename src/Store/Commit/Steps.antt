-- ===== src/Store/Commit/Steps.antt =====
-- Every move of every node keeps the writes consistent: `Store::refresh` and `Store::commit` of
-- crates/router-store/src/lib.rs.
use Prim.{tt}
use rapidrouter.Prelude.{
  ℕ, suc, ◌+◌, ◌-◌, ◌<◌, u64_max, add64, ◌≤◌, ◌≡◌, refl, sym, ap, subst, ◌∙◌, true, false, Option,
  none, some, List, [], ◌∷◌, length, Bool-cases, inl, inr, ==_iff, ◌==◌, arith,
}
use rapidrouter.Store.{StoreState, Command, apply}
use rapidrouter.Store.Plane.{Snapshot, Answer, done, failed, load, commit, token}
use rapidrouter.Store.Commit.{
  Request, Writer, Node, attempt_write, keep_fetched, after_conflict, after_write, Log, noted,
  System, set_node, advance, begin, Move, store_fetched, step, run, opened,
}
use rapidrouter.Store.Commit.Invariant.{
  document, at_version, IsKnown, Follows, IsHonest, IsSound, IsKnownIf, IsGood, IsConsistent,
  IsGood-cons, at_version-cons, at_version-length, set_node-each, load-IsKnown,
  keep_fetched-IsKnown,
}
use rapidrouter.Store.Commit.Rounds.{
  fresh-IsLost, fresh-Follows, attempt_write-IsSound, after_conflict-IsSound,
}

-- A move logs one write at most.
noted-length :
    (log : Log) (i : ℕ) (command : Command) (answer : Answer Snapshot)
    → length (noted log i command answer) ≤ suc (length log)
noted-length log i command (done snapshot) = omega arith
noted-length log i command (failed error) = omega arith

advance-log :
    (i : ℕ) (writer : Writer) (s : System) → length (advance i writer s).log ≤ suc (length s.log)
unfolding advance
advance-log i Writer.idle s = omega arith
advance-log i (Writer.looping attempt request) s = omega arith
advance-log i (Writer.sending attempt request base next) s =
    noted-length s.log i request.command (commit s.plane base next).1
advance-log i (Writer.reloading attempt request actual) s = omega arith
advance-log i (Writer.reloaded attempt request actual fetched) s = omega arith
advance-log i (Writer.answered request answer) s = omega arith

step-log : (s : System) (m : ℕ × Move) → length (step s m).log ≤ suc (length s.log)
unfolding step
step-log s (i, Move.write request) = omega arith
step-log s (i, Move.go_on) = advance-log i (s.nodes i).writer s
step-log s (i, Move.fetch) = omega arith
step-log s (i, Move.store) = omega arith

pub run-log :
    (s : System) (moves : List (ℕ × Move)) → length (run s moves).log ≤ length s.log + length moves
unfolding run
run-log s [] = omega arith
run-log s (m ∷ rest) =
    let first = step-log s m in let later = run-log (step s m) rest in omega arith

module _ (first : StoreState) where
  -- Only node `i` changes, and not the document.
  replaced :
      (s : System) (i : ℕ) (node : Node)
      → IsConsistent first s
      → IsGood first s.log i node
      → IsConsistent first (record s { nodes = set_node s.nodes i node })
  replaced s i node good new = record {
    counted = good.counted;
    built = good.built;
    each = set_node-each (IsGood first s.log) s.nodes i node good.each new;
  }

  written :
      (s : System) (i attempt : ℕ) (request : Request) (base : Snapshot) (next : StoreState)
      → length s.log < u64_max
      → IsConsistent first s
      → IsSound first s.log i (Writer.sending attempt request base next)
      → (s.plane.version == base.version) ≡ true
      → IsConsistent first (advance i (Writer.sending attempt request base next) s)
  unfolding advance IsSound IsHonest commit after_write document
  written s i attempt request base next room good (bound, known, same, fresh) equal =
      let e : ℕ × Command = (i, request.command) in
      let log = s.log in
      let at = (==_iff s.plane.version base.version).0 equal in
      let current : at_version base.version log ≡ log =
        ap (λ v. at_version v log) (sym at ∙ good.counted) ∙ at_version-length log in
      let made : next ≡ document first (e ∷ log) =
        same ∙ ap (λ state. apply state request.command) (known.1 ∙ ap (document first) current) in
      let up : add64 s.plane.version 1 ≡ suc s.plane.version = ground (arith, room, good.counted) in
      let new_version = suc s.plane.version in
      let newest : at_version new_version (e ∷ log) ≡ e ∷ log =
        ap (λ v. at_version v (e ∷ log)) (ap suc good.counted) ∙ at_version-length (e ∷ log) in
      let older : at_version s.plane.version (e ∷ log) ≡ log =
        at_version-cons s.plane.version e log (omega (arith, good.counted))
        ∙ ap (λ v. at_version v log) good.counted
        ∙ at_version-length log in
      let within : new_version ≤ length (e ∷ log) = omega (arith, good.counted) in
      let new : IsKnown first (e ∷ log)
          (record { state = next; version = new_version; token = token new_version }) =
        (within, made ∙ ap (document first) (sym newest)) in
      let back : new_version - 1 ≡ s.plane.version = omega arith in
      let follows =
        subst (λ v. Follows request.expect (suc v)) (sym at)
          (fresh-Follows request.expect base.version fresh) in
      rw (equal, up)
        (record {
          counted = ap suc good.counted;
          built = made;
          each =
              set_node-each (IsGood first (e ∷ log)) s.nodes i
                (record (s.nodes i) {
                  cached = record {
                    state = next;
                    version = new_version;
                    token = token new_version;
                  };
                  writer = Writer.answered request (done new_version);
                })
                (λ j. IsGood-cons first e log j (s.nodes j) (good.each j))
                (record {
                  known = new;
                  fetched = (IsGood-cons first e log i (s.nodes i) (good.each i)).fetched;
                  sound = (
                    (
                      omega arith,
                      within,
                      newest
                          ∙ ap (λ l. e ∷ l) (sym (ap (λ v. at_version v (e ∷ log)) back ∙ older)),
                    ),
                    follows,
                  );
                });
        })

  lost :
      (s : System) (i attempt : ℕ) (request : Request) (base : Snapshot) (next : StoreState)
      → IsConsistent first s
      → IsSound first s.log i (Writer.sending attempt request base next)
      → (s.plane.version == base.version) ≡ false
      → IsConsistent first (advance i (Writer.sending attempt request base next) s)
  unfolding advance IsSound commit after_write
  lost s i attempt request base next good (bound, known, same, fresh) other =
      let before = good.each i in
      rw other (
        replaced s i
          (record (s.nodes i) { writer = Writer.reloading attempt request s.plane.version }) good
          (record {
            known = before.known;
            fetched = before.fetched;
            sound = (bound, fresh-IsLost request.expect base.version s.plane.version fresh other);
          }))

  advance-IsConsistent :
      (i : ℕ) (writer : Writer) (s : System)
      → length s.log < u64_max
      → IsConsistent first s
      → IsSound first s.log i writer
      → IsConsistent first (advance i writer s)
  unfolding advance IsSound
  advance-IsConsistent i Writer.idle s room good sound = good
  advance-IsConsistent i (Writer.looping attempt request) s room good sound =
      let before = good.each i in
      replaced s i
        (record (s.nodes i) { writer = attempt_write (s.nodes i).cached attempt request }) good
        (record {
          known = before.known;
          fetched = before.fetched;
          sound =
              attempt_write-IsSound first s.log i (s.nodes i).cached attempt request sound
                before.known;
        })
  advance-IsConsistent i (Writer.sending attempt request base next) s room good sound =
      elim (Bool-cases (s.plane.version == base.version)) [
        | inl equal ↦ written s i attempt request base next room good sound equal
        | inr other ↦ lost s i attempt request base next good sound other
      ]
  advance-IsConsistent i (Writer.reloading attempt request actual) s room good (bound, lost) =
      let before = good.each i in
      replaced s i
        (record (s.nodes i) { writer = Writer.reloaded attempt request actual (load s.plane) }) good
        (record {
          known = before.known;
          fetched = before.fetched;
          sound = (bound, lost, load-IsKnown first s good);
        })
  advance-IsConsistent i (Writer.reloaded attempt request actual fetched) s room good
        (bound, lost, new) =
      let before = good.each i in
      replaced s i
        (record (s.nodes i) {
          cached = keep_fetched (s.nodes i).cached fetched;
          writer = after_conflict attempt request actual request.expect;
        })
        good
        (record {
          known = keep_fetched-IsKnown first s.log (s.nodes i).cached fetched before.known new;
          fetched = before.fetched;
          sound =
              after_conflict-IsSound first s.log i attempt request actual request.expect bound refl
                lost;
        })
  advance-IsConsistent i (Writer.answered request answer) s room good sound = good

  begin-IsSound :
      (log : Log) (i : ℕ) (request : Request) (writer : Writer)
      → IsSound first log i writer
      → IsSound first log i (begin request writer)
  unfolding begin IsSound
  begin-IsSound log i request Writer.idle sound = omega arith
  begin-IsSound log i request (Writer.answered before answer) sound = omega arith
  begin-IsSound log i request (Writer.looping attempt busy) sound = sound
  begin-IsSound log i request (Writer.sending attempt busy base next) sound = sound
  begin-IsSound log i request (Writer.reloading attempt busy actual) sound = sound
  begin-IsSound log i request (Writer.reloaded attempt busy actual fetched) sound = sound

  store_fetched-IsGood :
      (log : Log) (i : ℕ) (node : Node) (fetched : Option Snapshot)
      → IsGood first log i node
      → IsKnownIf first log fetched
      → IsGood first log i (store_fetched node fetched)
  unfolding store_fetched IsKnownIf
  store_fetched-IsGood log i node none good new = good
  store_fetched-IsGood log i node (some fetched) good new = record {
    known = keep_fetched-IsKnown first log node.cached fetched good.known new;
    fetched = tt;
    sound = good.sound;
  }

  step-IsConsistent :
      (s : System) (i : ℕ) (move : Move)
      → length s.log < u64_max
      → IsConsistent first s
      → IsConsistent first (step s (i, move))
  unfolding step IsKnownIf
  step-IsConsistent s i (Move.write request) room good =
      let before = good.each i in
      replaced s i (record (s.nodes i) { writer = begin request (s.nodes i).writer }) good
        (record {
          known = before.known;
          fetched = before.fetched;
          sound = begin-IsSound s.log i request (s.nodes i).writer before.sound;
        })
  step-IsConsistent s i Move.go_on room good =
      advance-IsConsistent i (s.nodes i).writer s room good (good.each i).sound
  step-IsConsistent s i Move.fetch room good =
      let before = good.each i in
      replaced s i (record (s.nodes i) { fetched = some (load s.plane) }) good
        (record { known = before.known; fetched = load-IsKnown first s good; sound = before.sound })
  step-IsConsistent s i Move.store room good =
      replaced s i (store_fetched (s.nodes i) (s.nodes i).fetched) good (
        store_fetched-IsGood s.log i (s.nodes i) (s.nodes i).fetched (good.each i)
          (good.each i).fetched)

  opened-IsConsistent : IsConsistent first (opened first)
  unfolding opened IsSound IsKnownIf load document
  opened-IsConsistent = record {
    counted = refl;
    built = refl;
    each = λ i. record { known = (omega arith, refl); fetched = tt; sound = tt };
  }

  run-keeps :
      (s : System) (moves : List (ℕ × Move))
      → length s.log + length moves ≤ u64_max
      → IsConsistent first s
      → IsConsistent first (run s moves)
  unfolding run
  run-keeps s [] room good = good
  run-keeps s ((i, move) ∷ rest) room good =
      let grown = step-log s (i, move) in
      run-keeps (step s (i, move)) rest (omega arith)
        (step-IsConsistent s i move (omega arith) good)

  -- Whatever the moves of the nodes and their order, fewer than 2^64: the document is what the log's commands
  -- build, one version for each, and every node's copies and writes agree with it.
  pub run-IsConsistent :
      (moves : List (ℕ × Move))
      → length moves ≤ u64_max
      → IsConsistent first (run (opened first) moves)
  unfolding opened
  run-IsConsistent moves few = run-keeps (opened first) moves (omega arith) opened-IsConsistent
