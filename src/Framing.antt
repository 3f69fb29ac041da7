-- ===== src/Framing.antt =====
-- What the stream parsers of the gateway share: a buffer of bytes, from whose front frames are cut while
-- it holds a whole one. A cut says how many bytes the frame takes and what it yields, which may be
-- nothing. The loop over cuts is the reference that crates/router-core/src/sse.rs and
-- crates/router-core/src/eventstream.rs are compared with.
use rapidrouter.Prelude.{
  ℕ, zero, suc, ◌+◌, ◌≤◌, ◌≡◌, refl, sym, ap, ◌∙◌, Option, none, some, List, [], ◌∷◌, ◌++◌,
  Option-cases, inl, inr, length, take, drop, length-append, length-drop, arith,
}

abbrev pub emit {ℓ} : {E : Type ℓ} → Option E → List E → List E
emit none es = es
emit (some e) es = e ∷ es

-- A cut takes something, no more than there is, and does not depend on what comes later.
pub record IsCut {ℓ} {E : Type ℓ} (cut : List ℕ → Option (ℕ × Option E)) : Type ℓ where
  pub takes :
      (buf : List ℕ) (n : ℕ) (e : Option E) → cut buf ≡ some (n, e) → (1 ≤ n) × (n ≤ length buf)
  pub grows :
      (buf more : List ℕ) (n : ℕ) (e : Option E)
      → cut buf ≡ some (n, e)
      → cut (buf ++ more) ≡ some (n, e)

pub drop-append-le {ℓ} :
    {A : Type ℓ} (n : ℕ) (xs ys : List A) → n ≤ length xs → drop n (xs ++ ys) ≡ drop n xs ++ ys
drop-append-le zero xs ys h = refl
drop-append-le (suc n) [] ys h = absurd (omega arith)
drop-append-le (suc n) (x ∷ xs) ys h = drop-append-le n xs ys (omega arith)

pub take-append-le {ℓ} :
    {A : Type ℓ} (n : ℕ) (xs ys : List A) → n ≤ length xs → take n (xs ++ ys) ≡ take n xs
take-append-le zero xs ys h = refl
take-append-le (suc n) [] ys h = absurd (omega arith)
take-append-le (suc n) (x ∷ xs) ys h = ap (λ t. x ∷ t) (take-append-le n xs ys (omega arith))

module _ {ℓ} {E : Type ℓ} (cut : List ℕ → Option (ℕ × Option E)) where
  -- The frames of a buffer, and what is left of it.
  unfoldable pub frames : ℕ → List ℕ → List E × List ℕ
  frames zero buf = ([], buf)
  frames (suc fuel) buf = elim (cut buf) [
    | none ↦ ([], buf)
    | some (n, e) ↦ (emit e (frames fuel (drop n buf)).0, (frames fuel (drop n buf)).1)
  ]

  pub frames_stop : (f : ℕ) (buf : List ℕ) → cut buf ≡ none → frames f buf ≡ ([], buf)
  unfolding frames
  frames_stop zero buf h = refl
  frames_stop (suc f) buf h = rw (h, frames)

  frames_step :
      (f : ℕ) (buf : List ℕ) (n : ℕ) (e : Option E)
      → cut buf ≡ some (n, e)
      → frames (suc f) buf ≡ (emit e (frames f (drop n buf)).0, (frames f (drop n buf)).1)
  unfolding frames
  frames_step f buf n e h = rw (h, frames)

module _ {ℓ} {E : Type ℓ} (cut : List ℕ → Option (ℕ × Option E)) (law : IsCut cut) where
  no_room : (buf : List ℕ) → length buf ≤ 0 → cut buf ≡ none
  no_room buf h = elim (Option-cases (cut buf)) [
    | inl stop ↦ stop
    | inr ((n, e), found) ↦
        let (some_bytes, within) = law.takes buf n e found in absurd (omega arith)
  ]

  -- As much fuel as there are bytes is enough.
  pub frames_fuel :
      (f g : ℕ) (buf : List ℕ)
      → length buf ≤ f
      → length buf ≤ g
      → frames cut f buf ≡ frames cut g buf
  frames_fuel zero g buf hf hg =
      frames_stop cut zero buf (no_room buf hf) ∙ sym (frames_stop cut g buf (no_room buf hf))
  frames_fuel (suc f) zero buf hf hg =
      frames_stop cut (suc f) buf (no_room buf hg) ∙ sym (frames_stop cut zero buf (no_room buf hg))
  frames_fuel (suc f) (suc g) buf hf hg = elim (Option-cases (cut buf)) [
    | inl stop ↦ frames_stop cut (suc f) buf stop ∙ sym (frames_stop cut (suc g) buf stop)
    | inr ((n, e), found) ↦
        let (some_bytes, within) = law.takes buf n e found in
        let shorter = length-drop n buf in
        let same = frames_fuel f g (drop n buf) (omega arith) (omega arith) in
        frames_step cut f buf n e found
        ∙ ap (λ (r : List E × List ℕ). (emit e r.0, r.1)) same
        ∙ sym (frames_step cut g buf n e found)
  ]

  -- A frame that is cut is the first of the buffer's.
  pub frames-cut :
      (f : ℕ) (buf : List ℕ) (n : ℕ) (e : Option E)
      → length buf ≤ f
      → cut buf ≡ some (n, e)
      → frames cut f buf ≡ (emit e (frames cut f (drop n buf)).0, (frames cut f (drop n buf)).1)
  frames-cut zero buf n e hf found =
      let (some_bytes, within) = law.takes buf n e found in absurd (omega arith)
  frames-cut (suc f) buf n e hf found =
      let (some_bytes, within) = law.takes buf n e found in
      let shorter = length-drop n buf in
      frames_step cut f buf n e found
      ∙ ap (λ (r : List E × List ℕ). (emit e r.0, r.1))
          (frames_fuel f (suc f) (drop n buf) (omega arith) (omega arith))

  -- What is left over is no longer than the buffer.
  pub frames_left : (f : ℕ) (buf : List ℕ) → length (frames cut f buf).1 ≤ length buf
  unfolding frames
  frames_left zero buf = omega arith
  frames_left (suc f) buf = elim (Option-cases (cut buf)) [
    | inl stop ↦ rw (frames_stop cut (suc f) buf stop) (omega arith)
    | inr ((n, e), found) ↦
        rw (frames_step cut f buf n e found)
          (omega (arith, frames_left f (drop n buf), length-drop n buf))
  ]

  -- With as much fuel as there are bytes the loop ends where no frame can be cut.
  pub frames_done : (f : ℕ) (buf : List ℕ) → length buf ≤ f → cut (frames cut f buf).1 ≡ none
  unfolding frames
  frames_done zero buf h = no_room buf h
  frames_done (suc f) buf h = elim (Option-cases (cut buf)) [
    | inl stop ↦ rw (frames_stop cut (suc f) buf stop) stop
    | inr ((n, e), found) ↦
        let (some_bytes, within) = law.takes buf n e found in
        rw (frames_step cut f buf n e found)
          (frames_done f (drop n buf) (omega (arith, length-drop n buf)))
  ]

  emit-append : (e : Option E) (xs ys : List E) → emit e (xs ++ ys) ≡ emit e xs ++ ys
  emit-append none xs ys = refl
  emit-append (some x) xs ys = refl

  -- Bytes that come later are read after what was left over.
  pub frames-append :
      (f g : ℕ) (a b : List ℕ)
      → length a ≤ f
      → length a + length b ≤ g
      → frames cut g (a ++ b) ≡ (
        (frames cut f a).0 ++ (frames cut g ((frames cut f a).1 ++ b)).0,
        (frames cut g ((frames cut f a).1 ++ b)).1,
      )
  frames-append zero g a b hf hg = rw (frames_stop cut zero a (no_room a hf)) refl
  frames-append (suc f) g a b hf hg = elim (Option-cases (cut a)) [
    | inl stop ↦ rw (frames_stop cut (suc f) a stop) refl
    | inr ((n, e), found) ↦
        let (some_bytes, within) = law.takes a n e found in
        let shorter = length-drop n a in
        let both = length-append a b in
        frames-cut g (a ++ b) n e (omega arith) (law.grows a b n e found)
        ∙ rw (drop-append-le n a b within, frames_step cut f a n e found)
            (ap (λ (r : List E × List ℕ). (emit e r.0, r.1))
                (frames-append f g (drop n a) b (omega arith) (omega arith))
              ∙ ap (λ es. (es, (frames cut g ((frames cut f (drop n a)).1 ++ b)).1))
                  (emit-append e (frames cut f (drop n a)).0
                    (frames cut g ((frames cut f (drop n a)).1 ++ b)).0))
  ]
