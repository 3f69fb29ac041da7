-- ===== src/Rollup/Fold.antt =====
-- The rows of a batch, folded onto the rows of those before it, are the rows of all the records:
-- crates/router-server/src/usage.rs.
use Prim.{Unit, tt}
use rapidrouter.Prelude.{
  ◌<◌, ◌≡◌, refl, sym, ap, ◌∙◌, Bool, true, false, List, [], ◌∷◌, ◌++◌, Bool-cases, inl, inr, arith,
  leb, if◌then◌else◌, u64_mod,
}
use rapidrouter.Histogram.{Scale}
use rapidrouter.Rollup.{
  UsageRecord, RollupRow, same_key, absorb, empty_row, fold_row, fold_onto, fold_rows, note_record,
  row_of, roll_record, roll_onto, roll_up,
}
use rapidrouter.Rollup.Sums.{same_key-alike, absorb-note, note-absorb, absorb-first}

-- The rows' counts of failures are words.
unfoldable pub AreWords : List RollupRow → Type 0
AreWords [] = Unit
AreWords (row ∷ rest) = (row.failed < u64_mod) × AreWords rest

-- Some row has the key.
unfoldable pub has_key : List RollupRow → RollupRow → Bool
has_key [] row = false
has_key (slot ∷ rest) row =
    let later = has_key rest row in if same_key slot row then true else later

absorb-key : (slot row x : RollupRow) → same_key (absorb slot row) x ≡ same_key slot x
unfolding same_key absorb
absorb-key slot row x = refl

has_key-later :
    (slot : RollupRow) (rest : List RollupRow) (x : RollupRow)
    → has_key (slot ∷ rest) x ≡ true
    → same_key slot x ≡ false
    → has_key rest x ≡ true
unfolding has_key
has_key-later slot rest x has other = ground (arith, has, other)

module _ (scale : Scale) where
  key-note :
      (x row : RollupRow) (rec : UsageRecord)
      → same_key x (note_record scale row rec) ≡ same_key x row
  unfolding same_key note_record
  key-note x row rec = refl

  note-key :
      (row : RollupRow) (rec : UsageRecord) (x : RollupRow)
      → same_key (note_record scale row rec) x ≡ same_key row x
  unfolding same_key note_record
  note-key row rec x = refl

  absorb-word : (slot row : RollupRow) → (absorb slot row).failed < u64_mod
  unfolding absorb
  absorb-word slot row = omega arith

  note-word :
      (row : RollupRow) (rec : UsageRecord)
      → row.failed < u64_mod
      → (note_record scale row rec).failed < u64_mod
  unfolding note_record
  note-word row rec h = elim (Bool-cases (leb 400 rec.status)) [
    | inl bad ↦ rw bad (omega arith)
    | inr good ↦ rw good h
  ]

  fold_row-AreWords :
      (rows : List RollupRow) (row : RollupRow)
      → AreWords rows
      → row.failed < u64_mod
      → AreWords (fold_row rows row)
  unfolding AreWords fold_row
  fold_row-AreWords [] row words word = (word, tt)
  fold_row-AreWords (slot ∷ rest) row (first, others) word = elim (Bool-cases (same_key slot row)) [
    | inl same ↦ rw same (absorb-word slot row, others)
    | inr other ↦ rw other (first, fold_row-AreWords rest row others word)
  ]

  roll_record-AreWords :
      (rows : List RollupRow) (rec : UsageRecord)
      → AreWords rows
      → AreWords (roll_record scale rows rec)
  unfolding AreWords roll_record empty_row
  roll_record-AreWords [] rec words = (note-word (row_of scale rec) rec (omega arith), tt)
  roll_record-AreWords (slot ∷ rest) rec (first, others) =
      elim (Bool-cases (same_key slot (row_of scale rec))) [
        | inl same ↦ rw same (note-word slot rec first, others)
        | inr other ↦ rw other (first, roll_record-AreWords rest rec others)
      ]

  -- The first record of a key in the batch.
  fold_row-new :
      (rows : List RollupRow) (rec : UsageRecord)
      → AreWords rows
      → fold_row rows (note_record scale (row_of scale rec) rec) ≡ roll_record scale rows rec
  unfolding fold_row roll_record AreWords
  fold_row-new [] rec words = refl
  fold_row-new (slot ∷ rest) rec (first, others) =
      let alike = key-note slot (row_of scale rec) rec in
      elim (Bool-cases (same_key slot (row_of scale rec))) [
        | inl same ↦ rw (alike, same) (ap (λ r. r ∷ rest) (absorb-first scale slot rec first))
        | inr other ↦ rw (alike, other) (ap (λ l. slot ∷ l) (fold_row-new rest rec others))
      ]

  -- A record noted in a row of the batch.
  fold_row-note :
      (rows : List RollupRow) (row : RollupRow) (rec : UsageRecord)
      → same_key row (row_of scale rec) ≡ true
      → fold_row rows (note_record scale row rec) ≡ roll_record scale (fold_row rows row) rec
  unfolding fold_row roll_record
  fold_row-note [] row rec key = rw key refl
  fold_row-note (slot ∷ rest) row rec key =
      let alike = key-note slot row rec in
      let kept = absorb-key slot row (row_of scale rec) in
      let keys = same_key-alike row (row_of scale rec) slot key in
      elim (Bool-cases (same_key slot row)) [
        | inl same ↦
            rw (alike, same)
              (rw (kept, sym keys ∙ same) (ap (λ r. r ∷ rest) (absorb-note scale slot row rec)))
        | inr other ↦
            rw (alike, other)
              (rw (sym keys ∙ other) (ap (λ l. slot ∷ l) (fold_row-note rest row rec key)))
      ]

  -- A record noted before a row is folded, or after: in a list that has the record's key.
  fold_row-after :
      (rows : List RollupRow) (row : RollupRow) (rec : UsageRecord)
      → has_key rows (row_of scale rec) ≡ true
      → fold_row (roll_record scale rows rec) row ≡ roll_record scale (fold_row rows row) rec
  unfolding fold_row roll_record has_key
  fold_row-after [] row rec has = absurd cc
  fold_row-after (slot ∷ rest) row rec has =
      let kept = absorb-key slot row (row_of scale rec) in
      elim (Bool-cases (same_key slot (row_of scale rec))) [
        | inl mine ↦ elim (Bool-cases (same_key slot row)) [
          | inl same ↦
              rw (mine, same)
                (rw (kept, mine) (ap (λ r. r ∷ rest) (note-absorb scale slot row rec)))
          | inr other ↦ rw (mine, other) (rw mine refl)
        ]
        | inr not_mine ↦ elim (Bool-cases (same_key slot row)) [
          | inl same ↦ rw (not_mine, same) (rw (kept, not_mine) refl)
          | inr other ↦
              let later =
                fold_row-after rest row rec
                  (has_key-later slot rest (row_of scale rec) has not_mine) in
              rw (not_mine, other) (rw not_mine (ap (λ l. slot ∷ l) later))
        ]
      ]

  has_key-fold_row :
      (rows : List RollupRow) (row x : RollupRow)
      → has_key rows x ≡ true
      → has_key (fold_row rows row) x ≡ true
  unfolding fold_row has_key
  has_key-fold_row [] row x has = absurd cc
  has_key-fold_row (slot ∷ rest) row x has =
      let kept = absorb-key slot row x in
      elim (Bool-cases (same_key slot row)) [
        | inl same ↦ rw (same, kept) has
        | inr other ↦ rw other (elim (Bool-cases (same_key slot x)) [
          | inl mine ↦ rw mine refl
          | inr not_mine ↦
              rw not_mine (has_key-fold_row rest row x (has_key-later slot rest x has not_mine))
        ])
      ]

  has_key-own :
      (rows : List RollupRow) (row x : RollupRow)
      → same_key row x ≡ true
      → has_key (fold_row rows row) x ≡ true
  unfolding fold_row has_key
  has_key-own [] row x key = rw key refl
  has_key-own (slot ∷ rest) row x key =
      let kept = absorb-key slot row x in
      let keys = same_key-alike row x slot key in
      elim (Bool-cases (same_key slot row)) [
        | inl same ↦ rw (same, kept) (rw (sym keys ∙ same) refl)
        | inr other ↦ rw other (rw (sym keys ∙ other) (has_key-own rest row x key))
      ]

  fold_onto-after :
      (merged rest : List RollupRow) (rec : UsageRecord)
      → has_key merged (row_of scale rec) ≡ true
      → fold_onto (roll_record scale merged rec) rest
        ≡ roll_record scale (fold_onto merged rest) rec
  unfolding fold_onto
  fold_onto-after merged [] rec has = refl
  fold_onto-after merged (row ∷ rest) rec has =
      ap (λ l. fold_onto l rest) (fold_row-after merged row rec has)
      ∙ fold_onto-after (fold_row merged row) rest rec
          (has_key-fold_row merged row (row_of scale rec) has)

  fold_onto-record :
      (merged rows : List RollupRow) (rec : UsageRecord)
      → AreWords merged
      → AreWords rows
      → fold_onto merged (roll_record scale rows rec)
        ≡ roll_record scale (fold_onto merged rows) rec
  unfolding fold_onto roll_record AreWords
  fold_onto-record merged [] rec words none_more = fold_row-new merged rec words
  fold_onto-record merged (slot ∷ rest) rec words (first, others) =
      let more = fold_row merged slot in
      elim (Bool-cases (same_key slot (row_of scale rec))) [
        | inl same ↦ rw same (
            ap (λ l. fold_onto l rest) (fold_row-note merged slot rec same)
            ∙ fold_onto-after more rest rec (has_key-own merged slot (row_of scale rec) same))
        | inr other ↦
            rw other
              (fold_onto-record more rest rec (fold_row-AreWords merged slot words first) others)
      ]

  fold_onto-records :
      (merged rows : List RollupRow) (recs : List UsageRecord)
      → AreWords merged
      → AreWords rows
      → fold_onto merged (roll_onto scale rows recs) ≡ roll_onto scale (fold_onto merged rows) recs
  unfolding roll_onto
  fold_onto-records merged rows [] words words' = refl
  fold_onto-records merged rows (rec ∷ rest) words words' =
      fold_onto-records merged (roll_record scale rows rec) rest words
        (roll_record-AreWords rows rec words')
      ∙ ap (λ l. roll_onto scale l rest) (fold_onto-record merged rows rec words words')

  roll_onto-AreWords :
      (rows : List RollupRow) (recs : List UsageRecord)
      → AreWords rows
      → AreWords (roll_onto scale rows recs)
  unfolding roll_onto
  roll_onto-AreWords rows [] words = words
  roll_onto-AreWords rows (rec ∷ rest) words =
      roll_onto-AreWords (roll_record scale rows rec) rest (roll_record-AreWords rows rec words)

  roll_onto-append :
      (rows : List RollupRow) (xs ys : List UsageRecord)
      → roll_onto scale rows (xs ++ ys) ≡ roll_onto scale (roll_onto scale rows xs) ys
  unfolding roll_onto
  roll_onto-append rows [] ys = refl
  roll_onto-append rows (x ∷ xs) ys = roll_onto-append (roll_record scale rows x) xs ys

  fold_onto-append :
      (merged xs ys : List RollupRow)
      → fold_onto merged (xs ++ ys) ≡ fold_onto (fold_onto merged xs) ys
  unfolding fold_onto
  fold_onto-append merged [] ys = refl
  fold_onto-append merged (x ∷ xs) ys = fold_onto-append (fold_row merged x) xs ys

  -- Whatever batches the flushes make of the records: the rows of two batches, folded, are the rows of all
  -- their records rolled up at once, with the same sums and the same distribution of latencies.
  pub fold_rows-roll_up :
      (xs ys : List UsageRecord)
      → fold_rows (roll_up scale xs ++ roll_up scale ys) ≡ roll_up scale (xs ++ ys)
  unfolding fold_rows roll_up AreWords fold_onto
  fold_rows-roll_up xs ys =
      let first = roll_onto scale [] xs in
      let again : fold_onto [] first ≡ first = fold_onto-records [] [] xs tt tt in
      fold_onto-append [] first (roll_onto scale [] ys)
      ∙ ap (λ l. fold_onto l (roll_onto scale [] ys)) again
      ∙ fold_onto-records first [] ys (roll_onto-AreWords [] xs tt) tt
      ∙ sym (roll_onto-append [] xs ys)
