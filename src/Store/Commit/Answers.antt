-- ===== src/Store/Commit/Answers.antt =====
-- What a node is told by `Store::commit` of crates/router-store/src/lib.rs.
use mathlib.Core.List.{append_assoc, append-nil}
use rapidrouter.Prelude.{
  ℕ, zero, suc, ◌-◌, ◌≤◌, ◌≡◌, u64_max, refl, sym, ap, ◌∙◌, subst, List, [], ◌∷◌, ◌++◌, length,
  drop, length-append, length-drop, arith,
}
use rapidrouter.Store.{StoreState, Command, apply}
use rapidrouter.Store.Plane.{Answer, done}
use rapidrouter.Store.Members.{apply_all}
use rapidrouter.Store.Commit.{Request, Writer, Log, Move, run, opened}
use rapidrouter.Store.Commit.Invariant.{document, at_version, IsHonest, IsSound}
use rapidrouter.Store.Commit.Steps.{run-IsConsistent}

-- Whatever the moves, fewer than 2^64, the answer of a write is honest: a version means that this node's command made it,
-- the next one if the write expected a version; a conflict is for the expected version, and names another;
-- giving up is for a write that expects none.
pub run-IsHonest :
    (first : StoreState) (moves : List (ℕ × Move)) (i : ℕ) (request : Request) (answer : Answer ℕ)
    → length moves ≤ u64_max
    → ((run (opened first) moves).nodes i).writer ≡ Writer.answered request answer
    → IsHonest (run (opened first) moves).log i request answer
unfolding IsSound
run-IsHonest first moves i request answer few h =
    let s = run (opened first) moves in
    subst (IsSound first s.log i) h ((run-IsConsistent first moves few).each i).sound

-- The commands of a log, the oldest first.
unfoldable pub commands : Log → List Command
commands [] = []
commands ((i, command) ∷ log) = commands log ++ (command ∷ [])

apply_all-append :
    (s : StoreState) (cs ds : List Command) → apply_all s (cs ++ ds) ≡ apply_all (apply_all s cs) ds
unfolding apply_all
apply_all-append s [] ds = refl
apply_all-append s (c ∷ cs) ds = apply_all-append (apply s c) cs ds

document-apply_all :
    (first : StoreState) (log : Log) → document first log ≡ apply_all first (commands log)
unfolding document commands apply_all
document-apply_all first [] = refl
document-apply_all first ((i, command) ∷ log) =
    ap (λ s. apply s command) (document-apply_all first log)
    ∙ sym (apply_all-append first (commands log) (command ∷ []))

length-commands : (log : Log) → length (commands log) ≡ length log
unfolding commands
length-commands [] = refl
length-commands ((i, command) ∷ log) =
    length-append (commands log) (command ∷ []) ∙ omega (arith, length-commands log)

-- What is above a place of the log comes after what is below it.
commands-drop :
    (n : ℕ) (log : Log) → (later : List Command) × (commands log ≡ commands (drop n log) ++ later)
unfolding commands
commands-drop zero log = ([], sym (append-nil (commands log)))
commands-drop (suc n) [] = ([], refl)
commands-drop (suc n) ((i, command) ∷ log) =
    let (later, same) = commands-drop n log in
    (
      later ++ (command ∷ []),
      ap (λ cs. cs ++ (command ∷ [])) same
          ∙ append_assoc (commands (drop n log)) later (command ∷ []),
    )

-- Whatever the moves, fewer than 2^64, a write that was told a version stays in the document: what the backend holds is the
-- first document with one command for each version applied in turn, and the write's command is the one that
-- made its version. Whatever is written after it is applied on top of it.
pub answered-stays :
    (first : StoreState) (moves : List (ℕ × Move)) (i : ℕ) (request : Request) (v : ℕ)
    → length moves ≤ u64_max
    → ((run (opened first) moves).nodes i).writer ≡ Writer.answered request (done v)
    → (before : List Command) × (after : List Command) × ((run (opened first) moves).plane.state
        ≡ apply_all first (before ++ (request.command ∷ after)))
      × ((run (opened first) moves).plane.version ≡ length (before ++ (request.command ∷ after)))
      × (suc (length before) ≡ v)
unfolding IsHonest commands
answered-stays first moves i request v few told =
    let s = run (opened first) moves in
    let good = run-IsConsistent first moves few in
    let (least, within, made) = (run-IsHonest first moves i request (done v) few told).0 in
    let below = at_version (v - 1) s.log in
    let (after, above) = commands-drop (length s.log - v) s.log in
    let split : commands s.log ≡ commands below ++ (request.command ∷ after) =
      above
      ∙ ap (λ log. commands log ++ after) made
      ∙ append_assoc (commands below) (request.command ∷ []) after in
    (
      commands below,
      after,
      good.built ∙ document-apply_all first s.log ∙ ap (apply_all first) split,
      good.counted ∙ sym (length-commands s.log) ∙ ap length split,
      omega (arith, length-commands below, length-drop (length s.log - (v - 1)) s.log),
    )
