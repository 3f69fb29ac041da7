-- ===== src/Router/Balance.antt =====
-- What the picks of crates/router-core/src/router.rs promise: a session keeps its seat when other seats
-- leave, and the levelled pick is the candidate furthest behind its share.
use rapidrouter.Prelude.{
  ℕ, ◌≤◌, ◌≡◌, refl, ◌⊎◌, inl, inr, Bool, true, false, some, List, [], ◌∷◌, All, keep, ◌==◌, ==_iff,
  Bool-cases, arith,
}
use rapidrouter.Router.Floats.{FloatOps, IsOrdered}
use rapidrouter.Router.Pick.{Leader, consider, balanced_loop, balanced_pick, max_loop, pinned_seat}
use rapidrouter.Router.Members.{has, has-balanced_pick}

-- The loop of the seats that stay, from `b`, against the loop of all of them, from `j`: either both
-- start at one seat that stays, or `j` leaves and `b` scores no higher.
abbrev Behind : (ℕ → ℕ) → (ℕ → Bool) → ℕ → ℕ → Type 0
Behind score stays b j = ((b ≡ j) × (stays j ≡ true)) ⊎ ((stays j ≡ false) × (score b ≤ score j))

max_loop-keep :
    (score : ℕ → ℕ) (stays : ℕ → Bool) (js : List ℕ) (b j i : ℕ)
    → Behind score stays b j
    → max_loop score j js ≡ i
    → stays i ≡ true
    → max_loop score b (keep stays js) ≡ i
unfolding max_loop
max_loop-keep score stays [] b j i behind e h = ground arith
max_loop-keep score stays (m ∷ js) b j i behind e h = ground (
  arith,
  max_loop-keep score stays js m m i,
  max_loop-keep score stays js b m i,
  max_loop-keep score stays js b j i,
  max_loop-keep score stays js m j i,
)

pinned_left :
    (score : ℕ → ℕ) (stays : ℕ → Bool) (js : List ℕ) (j i : ℕ)
    → stays j ≡ false
    → max_loop score j js ≡ i
    → stays i ≡ true
    → pinned_seat score (keep stays js) ≡ some i
unfolding max_loop pinned_seat
pinned_left score stays [] j i leaves e h = ground arith
pinned_left score stays (m ∷ js) j i leaves e h = ground (
  arith,
  pinned_left score stays js m i,
  pinned_left score stays js j i,
  max_loop-keep score stays js m m i,
  max_loop-keep score stays js m j i,
)

-- A session whose pinned seat stays among the candidates keeps it, whichever other seats leave: only
-- the sessions of the seats that leave are moved.
pub pinned_seat-keep :
    (score : ℕ → ℕ) (stays : ℕ → Bool) (js : List ℕ) (i : ℕ)
    → pinned_seat score js ≡ some i
    → stays i ≡ true
    → pinned_seat score (keep stays js) ≡ some i
unfolding pinned_seat
pinned_seat-keep score stays [] i e h = cc
pinned_seat-keep score stays (j ∷ js) i e h =
    ground (arith, max_loop-keep score stays js j j i, pinned_left score stays js j i)

only : (i j : ℕ) → has i (j ∷ []) ≡ true → i ≡ j
only i j h = ground arith

module _ (f : FloatOps) (InRange : ℕ → Type 0) (laws : IsOrdered f InRange) (share : ℕ → ℕ)
    (draw : ℕ → ℕ → ℕ) where
  open laws use {lt_asymmetric, lt_transitive, eq_same}

  -- The leader's share is that of its candidate, and `x` is not below it.
  abbrev Leads : ℕ → Leader → Type 0
  Leads x l = (l.best_share ≡ share l.best) × InRange l.best_share × (f.lt x l.best_share ≡ false)

  consider-Leads :
      (x i : ℕ) (l : Leader)
      → InRange x
      → InRange (share i)
      → Leads x l
      → Leads x (consider f draw l i (share i))
  unfolding consider
  consider-Leads x i l rx ri (same, rl, below) = ground (
    arith,
    lt_asymmetric (share i) l.best_share ri rl,
    lt_transitive (share i) l.best_share x ri rl rx,
    eq_same (share i) l.best_share ri rl,
  )

  -- A new candidate is not below the leader that it leaves.
  consider-below :
      (i : ℕ) (l : Leader)
      → InRange (share i)
      → InRange l.best_share
      → f.lt (share i) (share i) ≡ false
      → f.lt (share i) (consider f draw l i (share i)).best_share ≡ false
  unfolding consider
  consider-below i l ri rl self = ground arith

  balanced_loop-min :
      (js : List ℕ) (x : ℕ) (l : Leader)
      → All (λ j. InRange (share j)) js
      → InRange x
      → Leads x l
      → f.lt x (share (balanced_loop f share draw l js)) ≡ false
  unfolding balanced_loop
  balanced_loop-min [] x l ranges rx (same, rl, below) = rw (← same) below
  balanced_loop-min (j ∷ js) x l ranges rx leads =
      balanced_loop-min js x (consider f draw l j (share j)) ranges.1 rx
        (consider-Leads x j l rx ranges.0 leads)

  irreflexive : (a : ℕ) → InRange a → f.lt a a ≡ false
  irreflexive a r = ground (arith, lt_asymmetric a a r r)

  -- A leader with the share of its candidate, after one more.
  abbrev IsLeader : Leader → Type 0
  IsLeader l = (l.best_share ≡ share l.best) × InRange l.best_share

  consider-IsLeader :
      (j : ℕ) (l : Leader)
      → InRange (share j)
      → IsLeader l
      → IsLeader (consider f draw l j (share j))
  consider-IsLeader j l rj (same, rl) =
      let (same', rl', below) =
        consider-Leads l.best_share j l rl rj (same, rl, irreflexive l.best_share rl) in
      (same', rl')

  -- The same of a candidate that the loop has yet to meet.
  balanced_loop-member :
      (js : List ℕ) (i : ℕ) (l : Leader)
      → All (λ j. InRange (share j)) js
      → has i js ≡ true
      → IsLeader l
      → f.lt (share i) (share (balanced_loop f share draw l js)) ≡ false
  unfolding balanced_loop
  balanced_loop-member [] i l ranges member leads = cc
  balanced_loop-member (j ∷ js) i l ranges member leads =
      let (same, rl) = consider-IsLeader j l ranges.0 leads in
      elim (Bool-cases (i == j)) [
        | inl hit ↦
            let e = (==_iff i j).0 hit in
            rw e (
              balanced_loop-min js (share j) (consider f draw l j (share j)) ranges.1 ranges.0
                (same, rl, consider-below j l ranges.0 leads.1 (irreflexive (share j) ranges.0)))
        | inr miss ↦
            balanced_loop-member js i (consider f draw l j (share j)) ranges.1 (ground arith)
              (same, rl)
      ]

  -- The levelled pick is one of the candidates, and no candidate's share is below its share, whatever
  -- the draws that break ties.
  pub balanced_pick-min :
      (j : ℕ) (js : List ℕ)
      → All (λ i. InRange (share i)) (j ∷ js)
      → (has (balanced_pick f share draw j js) (j ∷ js) ≡ true)
        × ((i : ℕ)
            → has i (j ∷ js) ≡ true
            → f.lt (share i) (share (balanced_pick f share draw j js)) ≡ false)
  unfolding balanced_pick
  balanced_pick-min j [] ranges = (
    has-balanced_pick f share draw j [],
    λ i member. rw (only i j member) (irreflexive (share j) ranges.0),
  )
  balanced_pick-min j (m ∷ js) ranges = (
    has-balanced_pick f share draw j (m ∷ js),
    λ i member. elim (Bool-cases (i == j)) [
      | inl hit ↦ rw ((==_iff i j).0 hit) (
          balanced_loop-min (m ∷ js) (share j) (record { best = j; best_share = share j; tied = 1 })
            ranges.1 ranges.0 (refl, ranges.0, irreflexive (share j) ranges.0))
      | inr miss ↦
          balanced_loop-member (m ∷ js) i (record { best = j; best_share = share j; tied = 1 })
            ranges.1 (ground arith) (refl, ranges.0)
    ],
  )
