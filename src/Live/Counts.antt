-- ===== src/Live/Counts.antt =====
-- What the live window of crates/router-server/src/usage.rs counts: the proofs about
-- `Aggregator::record`.
use rapidrouter.Prelude.{
  ℕ, zero, suc, ◌/◌, ◌%◌, ◌<◌, ◌≡◌, refl, false, Option, none, some, List, [], ◌∷◌, length, set,
  get_elem?, leb, ◌==◌, if◌then◌else◌, add64, arith, Bool-cases, inl, inr,
}
use rapidrouter.Rollup.{UsageRecord}
use rapidrouter.Live.{
  AggKey, AggCell, MinuteSlot, Aggregator, note_in_cell, add_to, key_of_record, claim_minute,
  record_in, record_usage,
}

unfoldable pub requests_of : List (AggKey × AggCell) → ℕ
requests_of [] = 0
requests_of ((key, cell) ∷ rest) = add64 cell.requests (requests_of rest)

-- The requests that a slot answers for a minute.
unfoldable pub slot_requests : MinuteSlot → ℕ → ℕ
unfolding requests_of
slot_requests slot minute = if slot.minute == minute then requests_of slot.cells else 0

in_ring : Option MinuteSlot → ℕ → ℕ
unfolding slot_requests
in_ring none minute = 0
in_ring (some slot) minute = slot_requests slot minute

-- The requests that the window answers for a minute, as `series` and `query` read a slot.
unfoldable pub requests_at : ℕ → Aggregator → ℕ → ℕ
unfolding in_ring
requests_at count a minute = in_ring (get_elem? a.slots (minute % count)) minute

requests_of-add_to :
    (cells : List (AggKey × AggCell)) (key : AggKey) (rec : UsageRecord)
    → requests_of (add_to cells key rec) ≡ add64 (requests_of cells) 1
unfolding requests_of add_to note_in_cell
requests_of-add_to [] key rec = omega arith
requests_of-add_to ((at, cell) ∷ rest) key rec = ground (arith, requests_of-add_to rest key rec)

-- The keys that a slot holds of a minute.
unfoldable pub slot_keys : MinuteSlot → ℕ → ℕ
slot_keys slot minute = if slot.minute == minute then length slot.cells else 0

in_ring_keys : Option MinuteSlot → ℕ → ℕ
unfolding slot_keys
in_ring_keys none minute = 0
in_ring_keys (some slot) minute = slot_keys slot minute

unfoldable pub keys_at : ℕ → Aggregator → ℕ → ℕ
unfolding in_ring_keys
keys_at count a minute = in_ring_keys (get_elem? a.slots (minute % count)) minute

-- What a minute counts after a record that falls in it.
abbrev pub counted : ℕ → ℕ → ℕ → ℕ
counted max_keys keys requests = if leb max_keys keys then requests else add64 requests 1

record_in-requests :
    (max_keys : ℕ) (slot : MinuteSlot) (rec : UsageRecord) (asked : ℕ)
    → slot_requests (record_in max_keys slot rec) asked ≡ (
        if asked == (rec.ts / 60000)
        then counted max_keys (slot_keys slot asked) (slot_requests slot asked)
        else 0)
unfolding record_in claim_minute slot_requests slot_keys requests_of
record_in-requests max_keys slot rec asked = elim (Bool-cases (slot.minute == (rec.ts / 60000))) [
  | inl same ↦ ground (arith, requests_of-add_to slot.cells (key_of_record rec) rec)
  | inr other ↦ ground (arith, requests_of-add_to [] (key_of_record rec) rec)
]

module _ {A : Type 0} where
  get_elem?-set_self :
      (xs : List A) (i : ℕ) (x v : A) → get_elem? xs i ≡ some x → get_elem? (set xs i v) i ≡ some v
  get_elem?-set_self [] i x v found = cc
  get_elem?-set_self (y ∷ xs) zero x v found = refl
  get_elem?-set_self (y ∷ xs) (suc i) x v found = get_elem?-set_self xs i x v found

  get_elem?-set_other :
      (xs : List A) (i k : ℕ) (v : A) → (i == k) ≡ false → get_elem? (set xs i v) k ≡ get_elem? xs k
  get_elem?-set_other [] i k v other = refl
  get_elem?-set_other (y ∷ xs) zero zero v other = absurd (ground arith)
  get_elem?-set_other (y ∷ xs) zero (suc k) v other = refl
  get_elem?-set_other (y ∷ xs) (suc i) zero v other = refl
  get_elem?-set_other (y ∷ xs) (suc i) (suc k) v other = get_elem?-set_other xs i k v (ground arith)

  get_elem?-lt : (xs : List A) (i : ℕ) → i < length xs → (x : A) × (get_elem? xs i ≡ some x)
  get_elem?-lt [] i h = absurd (omega arith)
  get_elem?-lt (x ∷ xs) zero h = (x, refl)
  get_elem?-lt (x ∷ xs) (suc i) h = get_elem?-lt xs i (omega arith)

mod-lt : (n m : ℕ) → 0 < m → n % m < m
mod-lt n m h = grind arith

-- A record counts once in its own minute, unless that minute holds as many keys as it may, and then not at
-- all; a minute that shares the slot with it counts nothing from then on, be it older or newer; and every
-- other minute counts what it did. The ring has as many slots as it is told, and at least one.
pub requests_at-record_usage :
    (count max_keys : ℕ) (a : Aggregator) (rec : UsageRecord) (asked : ℕ)
    → 0 < count
    → length a.slots ≡ count
    → requests_at count (record_usage count max_keys a rec) asked ≡ (
        if asked % count == (rec.ts / 60000) % count
        then (if asked == (rec.ts / 60000)
            then counted max_keys (keys_at count a asked) (requests_at count a asked)
            else 0)
        else requests_at count a asked)
unfolding requests_at keys_at record_usage
requests_at-record_usage count max_keys a rec asked some_slot full =
    let minute = rec.ts / 60000 in
    let i = minute % count in
    let (slot, found) = get_elem?-lt a.slots i (rw full (mod-lt minute count some_slot)) in
    let slot' = record_in max_keys slot rec in
    elim (Bool-cases (asked % count == i)) [
      | inl here ↦
          let at : asked % count ≡ i = ground arith in
          let self = get_elem?-set_self a.slots i slot slot' found in
          rw (here, at, found, self) (record_in-requests max_keys slot rec asked)
      | inr elsewhere ↦
          let other = get_elem?-set_other a.slots i (asked % count) slot' (ground arith) in
          rw (elsewhere, found, other) refl
    ]
