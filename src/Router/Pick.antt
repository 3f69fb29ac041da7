-- ===== src/Router/Pick.antt =====
-- crates/router-core/src/router.rs, `balanced_pick`, `pinned_seat` and their scores: the choice of one
-- key among candidates. A candidate is a reference to a key, its place in the provider's list; the
-- draws of the random number generator are an argument.
use Prim.Native.String.{String, ◌++◌}
use mathlib.Core.List.{Perm}
use mathlib.Core.List.Perm
use rapidrouter.Prelude.{
  Bool-cases, inl, inr, ℕ, ◌+◌, Bool, Option, none, some, List, [], ◌∷◌, leb, ◌==◌, if◌then◌else◌,
}
use rapidrouter.Router.Floats.{FloatOps}

-- The loop's variables: the best candidate so far, its share, and how many were level with it.
pub record Leader : Type 0 where
  pub best : ℕ
  pub best_share : ℕ
  pub tied : ℕ

-- One round of the loop of `balanced_pick`, on candidate `i` with its share; `draw n i` is the draw
-- below `n` made there.
unfoldable pub consider : FloatOps → (ℕ → ℕ → ℕ) → Leader → ℕ → ℕ → Leader
consider f draw l i share =
    if f.lt share l.best_share
    then record { best = i; best_share = share; tied = 1 }
    else if f.eq share l.best_share
    then record l { tied = l.tied + 1; best = if draw (l.tied + 1) i == 0 then i else l.best }
    else l

unfoldable pub balanced_loop : FloatOps → (ℕ → ℕ) → (ℕ → ℕ → ℕ) → Leader → List ℕ → ℕ
unfolding consider
balanced_loop f share draw l [] = l.best
balanced_loop f share draw l (i ∷ rest) =
    balanced_loop f share draw (consider f draw l i (share i)) rest

-- The candidates are never empty here: the first, and the others.
unfoldable pub balanced_pick : FloatOps → (ℕ → ℕ) → (ℕ → ℕ → ℕ) → ℕ → List ℕ → ℕ
unfolding balanced_loop
balanced_pick f share draw first [] = first
balanced_pick f share draw first (i ∷ rest) =
    balanced_loop f share draw (record { best = first; best_share = share first; tied = 1 })
      (i ∷ rest)

-- `blake3` stands for the first eight bytes, little-endian, of the BLAKE3 digest of the text.
unfoldable pub rendezvous_score : (String → ℕ) → String → String → ℕ
rendezvous_score blake3 session seat = blake3 (session ++ "\0" ++ seat)

-- `Iterator::max_by_key`: of equal scores the last.
unfoldable pub max_loop : (ℕ → ℕ) → ℕ → List ℕ → ℕ
max_loop score best [] = best
max_loop score best (i ∷ rest) =
    max_loop score (if leb (score best) (score i) then i else best) rest

unfoldable pub pinned_seat : (ℕ → ℕ) → List ℕ → Option ℕ
unfolding max_loop
pinned_seat score [] = none
pinned_seat score (i ∷ rest) = some (max_loop score i rest)

-- `sort_by`: a stable sort.
module _ {ℓ} {A : Type ℓ} (le : A → A → Bool) where
  unfoldable pub insert_by : A → List A → List A
  insert_by a [] = a ∷ []
  insert_by a (b ∷ rest) =
      let later = insert_by a rest in if le a b then a ∷ b ∷ rest else b ∷ later

  unfoldable pub sort_by : List A → List A
  unfolding insert_by
  sort_by [] = []
  sort_by (a ∷ rest) = insert_by a (sort_by rest)

  insert_by-perm : (a : A) (rest : List A) → Perm (insert_by a rest) (a ∷ rest)
  unfolding insert_by
  insert_by-perm a [] = Perm.refl (a ∷ [])
  insert_by-perm a (b ∷ rest) = elim (Bool-cases (le a b)) [
    | inl first ↦ rw first (Perm.refl (a ∷ b ∷ rest))
    | inr later ↦ rw later (Perm.trans (Perm.cons b (insert_by-perm a rest)) (Perm.swap a b rest))
  ]

  pub sort_by-perm : (rest : List A) → Perm (sort_by rest) rest
  unfolding sort_by
  sort_by-perm [] = Perm.refl []
  sort_by-perm (a ∷ rest) =
      Perm.trans (insert_by-perm a (sort_by rest)) (Perm.cons a (sort_by-perm rest))
