-- ===== src/Router/Members.antt =====
-- Membership of a place in a list of candidates, through the filters, picks and sorts of
-- crates/router-core/src/router.rs.
use rapidrouter.Prelude.{
  ℕ, zero, suc, ◌+◌, ◌<◌, ◌≡◌, ◌⊎◌, refl, Bool, true, false, not, ◌&&◌, ◌||◌, some, List, [], ◌∷◌,
  keep, ◌==◌, arith,
}
use rapidrouter.Router.Floats.{FloatOps}
use rapidrouter.Router.Key.{KeyRuntime}
use rapidrouter.Router.Pick.{
  Leader, consider, balanced_loop, balanced_pick, max_loop, pinned_seat, insert_by, sort_by,
}
use rapidrouter.Router.Pool.{places, retain, test_at}

abbrev pub has : ℕ → List ℕ → Bool
has i [] = false
has i (j ∷ js) = (i == j) || has i js

pub has-keep : (p : ℕ → Bool) (i : ℕ) (js : List ℕ) → has i (keep p js) ≡ (has i js && p i)
has-keep p i [] = refl
has-keep p i (j ∷ js) = ground (arith, has-keep p i js)

pub has-retain : (i j : ℕ) (js : List ℕ) → has i (retain j js) ≡ (has i js && not (i == j))
unfolding retain
has-retain i j js = has-keep (λ n. not (n == j)) i js

consider_best :
    (f : FloatOps) (draw : ℕ → ℕ → ℕ) (l : Leader) (i share : ℕ)
    → ((consider f draw l i share).best ≡ l.best) ⊎ ((consider f draw l i share).best ≡ i)
unfolding consider
consider_best f draw l i share = ground arith

has-balanced_loop :
    (f : FloatOps) (share : ℕ → ℕ) (draw : ℕ → ℕ → ℕ) (l : Leader) (js : List ℕ)
    → has (balanced_loop f share draw l js) (l.best ∷ js) ≡ true
unfolding balanced_loop
has-balanced_loop f share draw l [] = ground arith
has-balanced_loop f share draw l (j ∷ js) =
    let l' = consider f draw l j (share j) in
    ground (arith, consider_best f draw l j (share j), has-balanced_loop f share draw l' js)

pub has-balanced_pick :
    (f : FloatOps) (share : ℕ → ℕ) (draw : ℕ → ℕ → ℕ) (j : ℕ) (js : List ℕ)
    → has (balanced_pick f share draw j js) (j ∷ js) ≡ true
unfolding balanced_pick
has-balanced_pick f share draw j [] = ground arith
has-balanced_pick f share draw j (i ∷ js) =
    has-balanced_loop f share draw (record { best = j; best_share = share j; tied = 1 }) (i ∷ js)

has-max_loop :
    (score : ℕ → ℕ) (best : ℕ) (js : List ℕ) → has (max_loop score best js) (best ∷ js) ≡ true
unfolding max_loop
has-max_loop score best [] = ground arith
has-max_loop score best (j ∷ js) =
    ground (arith, has-max_loop score best js, has-max_loop score j js)

pub has-pinned_seat :
    (score : ℕ → ℕ) (i : ℕ) (js : List ℕ) → pinned_seat score js ≡ some i → has i js ≡ true
unfolding pinned_seat
has-pinned_seat score i [] e = cc
has-pinned_seat score i (j ∷ js) e = ground (arith, has-max_loop score j js)

has-insert_by :
    (le : ℕ → ℕ → Bool) (i j : ℕ) (js : List ℕ) → has i (insert_by le j js) ≡ has i (j ∷ js)
unfolding insert_by
has-insert_by le i j [] = refl
has-insert_by le i j (n ∷ js) = ground (arith, has-insert_by le i j js)

pub has-sort_by : (le : ℕ → ℕ → Bool) (i : ℕ) (js : List ℕ) → has i (sort_by le js) ≡ has i js
unfolding sort_by
has-sort_by le i [] = refl
has-sort_by le i (j ∷ js) =
    ground (arith, has-insert_by le i j (sort_by le js), has-sort_by le i js)

places_below :
    (test : KeyRuntime → Bool) (i n : ℕ) (keys : List KeyRuntime)
    → i < n
    → has i (places test n keys) ≡ false
unfolding places
places_below test i n [] h = refl
places_below test i n (k ∷ keys) h = ground (arith, places_below test i (suc n) keys)

has-places_from :
    (test : KeyRuntime → Bool) (i n m : ℕ) (keys : List KeyRuntime)
    → m ≡ n + i
    → has m (places test n keys) ≡ test_at test keys i
unfolding places test_at
has-places_from test i n m [] e = refl
has-places_from test zero n m (k ∷ keys) e = ground (arith, places_below test m (suc n) keys)
has-places_from test (suc i) n m (k ∷ keys) e =
    let rest = has-places_from test i (suc n) m keys (omega arith) in ground arith

-- A place is among those of the keys that pass a test when the key there passes it.
pub has-places :
    (test : KeyRuntime → Bool) (i : ℕ) (keys : List KeyRuntime)
    → has i (places test 0 keys) ≡ test_at test keys i
has-places test i keys = has-places_from test i 0 i keys (omega arith)
