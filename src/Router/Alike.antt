-- ===== src/Router/Alike.antt =====
-- What an admission leaves alone: keys compared by what selection reads of them.
use rapidrouter.Prelude.{
  ℕ, zero, suc, ◌≡◌, refl, ◌≢◌, false, some, List, [], ◌∷◌, get_elem?, set, add64, arith,
}
use rapidrouter.Breaker.{Breaker, is_benched, admit, deny}
use rapidrouter.Router.Key.{KeyRuntime, try_admit_request, try_reserve_slot, admit_now}

-- The same key, with its ceilings and its breaker perhaps moved on, but no bench begun or ended.
abbrev pub Same : ℕ → KeyRuntime → KeyRuntime → Type 0
Same now_ms k l =
    (l.name ≡ k.name)
    × (l.weight ≡ k.weight)
    × (l.models ≡ k.models)
    × (l.tenant ≡ k.tenant)
    × (is_benched l.breaker now_ms ≡ is_benched k.breaker now_ms)

-- And with no lease taken; or with one.
abbrev pub Idle : ℕ → KeyRuntime → KeyRuntime → Type 0
Idle now_ms k l = Same now_ms k l × (l.leases ≡ k.leases)

abbrev pub Leased : ℕ → KeyRuntime → KeyRuntime → Type 0
Leased now_ms k l = Same now_ms k l × (l.leases ≡ add64 k.leases 1)

abbrev pub Alike : ℕ → List KeyRuntime → List KeyRuntime → Type 0
Alike now_ms [] [] = Unit
Alike now_ms (k ∷ ks) (l ∷ ls) = Idle now_ms k l × Alike now_ms ks ls
Alike now_ms _ _ = ⊥

-- The key at the place is leased and all others are alike.
abbrev pub LeasedAt : ℕ → List KeyRuntime → ℕ → List KeyRuntime → Type 0
LeasedAt now_ms (k ∷ ks) zero (l ∷ ls) = Leased now_ms k l × Alike now_ms ks ls
LeasedAt now_ms (k ∷ ks) (suc i) (l ∷ ls) = Idle now_ms k l × LeasedAt now_ms ks i ls
LeasedAt now_ms _ _ _ = ⊥

pub Alike-refl : (now_ms : ℕ) (ks : List KeyRuntime) → Alike now_ms ks ks
Alike-refl now_ms [] = tt
Alike-refl now_ms (k ∷ ks) = (((refl, refl, refl, refl, refl), refl), Alike-refl now_ms ks)

pub Alike-trans :
    (now_ms : ℕ) (ks ls ms : List KeyRuntime)
    → Alike now_ms ks ls
    → Alike now_ms ls ms
    → Alike now_ms ks ms
Alike-trans now_ms [] [] [] a b = tt
Alike-trans now_ms [] [] (m ∷ ms) a b = b
Alike-trans now_ms [] (l ∷ ls) ms a b = absurd a
Alike-trans now_ms (k ∷ ks) [] ms a b = absurd a
Alike-trans now_ms (k ∷ ks) (l ∷ ls) [] a b = b
Alike-trans now_ms (k ∷ ks) (l ∷ ls) (m ∷ ms) a b =
    ground (arith, Alike-trans now_ms ks ls ms a.1 b.1)

pub Alike-LeasedAt :
    (now_ms i : ℕ) (ks ls ms : List KeyRuntime)
    → Alike now_ms ks ls
    → LeasedAt now_ms ls i ms
    → LeasedAt now_ms ks i ms
Alike-LeasedAt now_ms i [] [] ms a b = elim i [ zero ↦ absurd b | suc j ↦ absurd b ]
Alike-LeasedAt now_ms i [] (l ∷ ls) ms a b = absurd a
Alike-LeasedAt now_ms i (k ∷ ks) [] ms a b = absurd a
Alike-LeasedAt now_ms zero (k ∷ ks) (l ∷ ls) [] a b = b
Alike-LeasedAt now_ms (suc i) (k ∷ ks) (l ∷ ls) [] a b = b
Alike-LeasedAt now_ms zero (k ∷ ks) (l ∷ ls) (m ∷ ms) a b =
    ground (arith, Alike-trans now_ms ks ls ms a.1 b.1)
Alike-LeasedAt now_ms (suc i) (k ∷ ks) (l ∷ ls) (m ∷ ms) a b =
    ground (arith, Alike-LeasedAt now_ms i ks ls ms a.1 b.1)

pub set-Alike :
    (now_ms i : ℕ) (ks : List KeyRuntime) (k l : KeyRuntime)
    → get_elem? ks i ≡ some k
    → Idle now_ms k l
    → Alike now_ms ks (set ks i l)
set-Alike now_ms i [] k l e s = tt
set-Alike now_ms zero (j ∷ ks) k l e s = ground (arith, Alike-refl now_ms ks)
set-Alike now_ms (suc i) (j ∷ ks) k l e s = ground (arith, set-Alike now_ms i ks k l e s)

pub set-LeasedAt :
    (now_ms i : ℕ) (ks : List KeyRuntime) (k l : KeyRuntime)
    → get_elem? ks i ≡ some k
    → Leased now_ms k l
    → LeasedAt now_ms ks i (set ks i l)
set-LeasedAt now_ms zero [] k l e s = cc
set-LeasedAt now_ms (suc i) [] k l e s = cc
set-LeasedAt now_ms zero (j ∷ ks) k l e s = ground (arith, Alike-refl now_ms ks)
set-LeasedAt now_ms (suc i) (j ∷ ks) k l e s = ground (arith, set-LeasedAt now_ms i ks k l e s)

-- A key admitted or refused under its ceilings is the same key, with no lease yet.
pub admit_now-Idle : (now_ms : ℕ) (k : KeyRuntime) → Idle now_ms k (admit_now k now_ms).0
unfolding admit_now try_admit_request try_reserve_slot
admit_now-Idle now_ms k = ground arith

pub try_reserve_slot-Idle : (now_ms : ℕ) (k : KeyRuntime) → Idle now_ms k (try_reserve_slot k).0
unfolding try_reserve_slot
try_reserve_slot-Idle now_ms k = ground arith

pub Idle-trans :
    (now_ms : ℕ) (k l m : KeyRuntime) → Idle now_ms k l → Idle now_ms l m → Idle now_ms k m
Idle-trans now_ms k l m a b = ground arith

-- `admit` begins and ends no bench that is running.
admit-is_benched :
    (b : Breaker) (now_ms : ℕ) → is_benched (admit b now_ms).0 now_ms ≡ is_benched b now_ms
unfolding admit is_benched
admit-is_benched b now_ms = ground arith

pub admitted-Idle :
    (now_ms : ℕ) (k : KeyRuntime)
    → Idle now_ms k (record k { breaker = (admit k.breaker now_ms).0 })
admitted-Idle now_ms k = ground (arith, admit-is_benched k.breaker now_ms)

pub not_deny-unbenched :
    (now_ms : ℕ) (b : Breaker) → (admit b now_ms).1 ≢ deny → is_benched b now_ms ≡ false
unfolding admit is_benched
not_deny-unbenched now_ms b h = ground arith

-- A key among alike ones, and its counterpart.
pub Alike-at :
    (now_ms i : ℕ) (ks ls : List KeyRuntime) (k : KeyRuntime)
    → Alike now_ms ks ls
    → get_elem? ks i ≡ some k
    → (l : KeyRuntime) × (get_elem? ls i ≡ some l) × Idle now_ms k l
Alike-at now_ms i [] ls k a e = cc
Alike-at now_ms i (j ∷ ks) [] k a e = absurd a
Alike-at now_ms zero (j ∷ ks) (l ∷ ls) k a e = (l, refl, ground arith)
Alike-at now_ms (suc i) (j ∷ ks) (l ∷ ls) k a e = Alike-at now_ms i ks ls k a.1 e

pub Alike-unbenched :
    (now_ms : ℕ) (ks ls : List KeyRuntime) (i : ℕ)
    → Alike now_ms ks ls
    → ((l : KeyRuntime) → get_elem? ls i ≡ some l → is_benched l.breaker now_ms ≡ false)
    → (k : KeyRuntime) → get_elem? ks i ≡ some k
    → is_benched k.breaker now_ms ≡ false
Alike-unbenched now_ms ks ls i a h k e =
    let (l, found, idle) = Alike-at now_ms i ks ls k a e in ground (arith, h l found)
