-- ===== src/Store/Commit/Rounds.antt =====
-- One round of the loop of `Store::commit` in crates/router-store/src/lib.rs: what holds of the write after
-- its checks, and after a conflict.
use Prim.{tt}
use rapidrouter.Prelude.{
  ℕ, suc, ◌≤◌, ◌<◌, ◌≡◌, ◌≢◌, refl, true, false, Option, none, some, Bool-cases, inl, inr, leb,
  ◌==◌, arith,
}
use rapidrouter.Store.{StoreState}
use rapidrouter.Store.Plane.{Snapshot}
use rapidrouter.Store.Commit.{
  commit_attempts, Request, is_stale, expected_of, attempt_write, after_conflict, Log,
}
use rapidrouter.Store.Commit.Invariant.{IsKnown, Follows, IsLost, IsHonest, IsSound}

-- A write that was lost: the version the backend is at is not the one expected.
pub fresh-IsLost :
    (expect : Option ℕ) (base actual : ℕ)
    → is_stale expect base ≡ false
    → (actual == base) ≡ false
    → IsLost expect actual
unfolding is_stale IsLost
fresh-IsLost none base actual fresh other = tt
fresh-IsLost (some expected) base actual fresh other = λ same. ground (arith, fresh, other, same)

pub fresh-Follows :
    (expect : Option ℕ) (base : ℕ) → is_stale expect base ≡ false → Follows expect (suc base)
unfolding is_stale Follows
fresh-Follows none base fresh = tt
fresh-Follows (some expected) base fresh = ground (arith, fresh)

stale-expected :
    (expect : Option ℕ) (version : ℕ)
    → is_stale expect version ≡ true
    → (expect ≡ some (expected_of expect)) × (expected_of expect ≢ version)
unfolding is_stale expected_of
stale-expected none version h = absurd (ground (arith, h))
stale-expected (some expected) version h = (refl, λ same. ground (arith, h, same))

pub attempt_write-IsSound :
    (first : StoreState) (log : Log) (i : ℕ) (cached : Snapshot) (attempt : ℕ) (request : Request)
    → attempt < commit_attempts
    → IsKnown first log cached
    → IsSound first log i (attempt_write cached attempt request)
unfolding attempt_write IsSound IsHonest
attempt_write-IsSound first log i cached attempt request bound known =
    elim (Bool-cases (is_stale request.expect cached.version)) [
      | inl stale ↦ rw stale (stale-expected request.expect cached.version stale)
      | inr fresh ↦ rw fresh (omega arith, known, refl, fresh)
    ]

pub after_conflict-IsSound :
    (first : StoreState) (log : Log) (i attempt : ℕ) (request : Request) (actual : ℕ)
    (expect : Option ℕ)
    → attempt ≤ commit_attempts
    → request.expect ≡ expect
    → IsLost expect actual
    → IsSound first log i (after_conflict attempt request actual expect)
unfolding after_conflict IsSound IsHonest IsLost
after_conflict-IsSound first log i attempt request actual (some expected) bound asked lost =
    (asked, lost)
after_conflict-IsSound first log i attempt request actual none bound asked lost =
    elim (Bool-cases (leb commit_attempts attempt)) [
      | inl last ↦ rw last asked
      | inr more ↦ rw more (ground (arith, more))
    ]
