-- ===== src/Rollup/Sums.antt =====
-- Rows are pure sums: crates/router-server/src/usage.rs.
use Prim.Native.String.{String}
use text.Mathlib.Text.{◌==◌ as str_eq}
use text.Mathlib.TextEquality.{eq_iff}
use rapidrouter.Prelude.{
  ℕ, ◌<◌, ◌≡◌, refl, sym, ap, ◌∙◌, Bool, true, false, ◌&&◌, Option, none, some, ==_iff, arith, leb,
  ◌==◌, if◌then◌else◌, add64, u64_mod,
}
use rapidrouter.Histogram.{Scale, add_count, merge, bucket_of, record_ms}
use rapidrouter.Histogram.Merge.{
  add_count-merge, merge-add_count, add_count-zero, add64-sum, add64-add64,
}
use rapidrouter.Rollup.{
  UsageRecord, RollupRow, same_vkey, same_key, absorb, empty_row, note_record, row_of,
}

same_vkey-eq : (a b : Option String) → same_vkey a b ≡ true → a ≡ b
unfolding same_vkey
same_vkey-eq none none h = refl
same_vkey-eq (some a) (some b) h = ap (λ (v : String). some v) ((eq_iff a b).0 h)
same_vkey-eq none (some b) h = absurd cc
same_vkey-eq (some a) none h = absurd cc

and-both : (a b : Bool) → (a && b) ≡ true → (a ≡ true) × (b ≡ true)
and-both true true h = (refl, refl)
and-both true false h = absurd cc
and-both false b h = absurd cc

-- Rows of one key are told from any other row alike.
pub same_key-alike : (a b x : RollupRow) → same_key a b ≡ true → same_key x a ≡ same_key x b
unfolding same_key
same_key-alike a b x h =
    let (hours, h') = and-both (a.hour_ms == b.hour_ms) _ h in
    let (providers, h'') = and-both (str_eq a.provider b.provider) _ h' in
    let (models, vkeys) = and-both (str_eq a.model b.model) _ h'' in
    rw
      (
        (==_iff a.hour_ms b.hour_ms).0 hours,
        (eq_iff a.provider b.provider).0 providers,
        (eq_iff a.model b.model).0 models,
        same_vkey-eq a.vkey b.vkey vkeys,
      )
      refl

-- A count of failures, with one more or not.
one_more :
    (f g : ℕ) (b : Bool)
    → add64 f (if b then add64 g 1 else g) ≡ (if b then add64 (add64 f g) 1 else add64 f g)
one_more f g true = sym (add64-sum f g 1) ∙ omega arith
one_more f g false = refl

one_before :
    (f g : ℕ) (b : Bool)
    → add64 (if b then add64 f 1 else f) g ≡ (if b then add64 (add64 f g) 1 else add64 f g)
one_before f g true = add64-add64 f 1 g
one_before f g false = refl

none_more :
    (f : ℕ) (b : Bool)
    → f < u64_mod
    → add64 f (if b then add64 0 1 else 0) ≡ (if b then add64 f 1 else f)
none_more f true room = omega arith
none_more f false room = omega arith

zero_more : (f n : ℕ) → add64 f (add64 0 n) ≡ add64 f n
zero_more f n = omega arith

module _ (scale : Scale) where
  pub absorb-note :
      (slot row : RollupRow) (rec : UsageRecord)
      → absorb slot (note_record scale row rec) ≡ note_record scale (absorb slot row) rec
  unfolding absorb note_record record_ms
  absorb-note slot row rec =
      rw
        (
          sym (add64-sum slot.requests row.requests 1),
          one_more slot.failed row.failed (leb 400 rec.status),
          sym (add64-sum slot.input_tokens row.input_tokens rec.input_tokens),
          sym (add64-sum slot.output_tokens row.output_tokens rec.output_tokens),
          sym (add64-sum slot.cached_tokens row.cached_tokens rec.cached_tokens),
          sym (add64-sum slot.cost_micro_usd row.cost_micro_usd rec.cost_micro_usd),
          sym (add64-sum slot.latency_ms_sum row.latency_ms_sum rec.latency_ms),
          sym (add64-sum slot.attempts row.attempts rec.attempts),
          merge-add_count (bucket_of scale rec.latency_ms) 1 slot.latency row.latency,
        )
        refl

  pub note-absorb :
      (slot row : RollupRow) (rec : UsageRecord)
      → absorb (note_record scale slot rec) row ≡ note_record scale (absorb slot row) rec
  unfolding absorb note_record record_ms
  note-absorb slot row rec =
      rw
        (
          add64-add64 slot.requests 1 row.requests,
          one_before slot.failed row.failed (leb 400 rec.status),
          add64-add64 slot.input_tokens rec.input_tokens row.input_tokens,
          add64-add64 slot.output_tokens rec.output_tokens row.output_tokens,
          add64-add64 slot.cached_tokens rec.cached_tokens row.cached_tokens,
          add64-add64 slot.cost_micro_usd rec.cost_micro_usd row.cost_micro_usd,
          add64-add64 slot.latency_ms_sum rec.latency_ms row.latency_ms_sum,
          add64-add64 slot.attempts rec.attempts row.attempts,
          sym (add_count-merge (bucket_of scale rec.latency_ms) 1 slot.latency row.latency),
        )
        refl

  pub absorb-first :
      (slot : RollupRow) (rec : UsageRecord)
      → slot.failed < u64_mod
      → absorb slot (note_record scale (row_of scale rec) rec) ≡ note_record scale slot rec
  unfolding absorb note_record record_ms empty_row add_count merge
  absorb-first slot rec room =
      rw
        (
          zero_more slot.requests 1,
          none_more slot.failed (leb 400 rec.status) room,
          zero_more slot.input_tokens rec.input_tokens,
          zero_more slot.output_tokens rec.output_tokens,
          zero_more slot.cached_tokens rec.cached_tokens,
          zero_more slot.cost_micro_usd rec.cost_micro_usd,
          zero_more slot.latency_ms_sum rec.latency_ms,
          zero_more slot.attempts rec.attempts,
          add_count-zero (bucket_of scale rec.latency_ms) 1 slot.latency,
        )
        refl
