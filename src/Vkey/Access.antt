-- ===== src/Vkey/Access.antt =====
-- crates/router-core/src/vkey.rs, `VkTable::verify`: who is let in.
use Prim.Native.String.{String}
use rapidrouter.Prelude.{
  ℕ, ◌≤◌, ◌<◌, ◌≡◌, refl, ◌↔◌, ◌⊎◌, inl, inr, true, false, Option, none, some, List, [], ◌∷◌,
  Bool-cases, get, arith, ◌∙◌, sym, ap, subst, Option-cases,
}
use rapidrouter.Vkey.Token.{parse}
use rapidrouter.Vkey.Runtime.{VkRuntime, same_bytes, hash_matches, prev_matches, verify_secret}
use rapidrouter.Vkey.Table.{
  VkTable, accepted, rejected, verify, verify_parsed, verify_runtime, is_expired, disabled,
  bad_secret, unknown,
}

pub same_bytes_iff : (a b : List ℕ) → (same_bytes a b ≡ true) ↔ (a ≡ b)
unfolding same_bytes
same_bytes_iff [] [] = ground arith
same_bytes_iff [] (b ∷ bs) = ground arith
same_bytes_iff (a ∷ xs) [] = ground arith
same_bytes_iff (a ∷ xs) (b ∷ bs) = ground (arith, same_bytes_iff xs bs)

module _ (digest : String → List ℕ) where
  -- The secret is the one stored, or the one before it while its grace lasts.
  abbrev pub Knows : VkRuntime → String → ℕ → Type 0
  Knows rt secret now =
      (rt.hash ≡ some (digest secret))
      ⊎ ((until : ℕ) × (rt.prev ≡ some (digest secret, until)) × (now ≤ until))

  abbrev pub IsUnexpired : Option ℕ → ℕ → Type 0
  IsUnexpired expires now = (exp : ℕ) → expires ≡ some exp → now < exp

  pub hash_matches_iff :
      (hash : Option (List ℕ)) (bytes : List ℕ)
      → (hash_matches hash bytes ≡ true) ↔ (hash ≡ some bytes)
  unfolding hash_matches
  hash_matches_iff none bytes = ground arith
  hash_matches_iff (some h) bytes = ground (arith, same_bytes_iff bytes h)

  pub prev_matches_iff :
      (prev : Option (List ℕ × ℕ)) (bytes : List ℕ) (now : ℕ)
      → (prev_matches prev bytes now ≡ true)
        ↔ ((until : ℕ) × (prev ≡ some (bytes, until)) × (now ≤ until))
  unfolding prev_matches
  prev_matches_iff none bytes now = (λ h. ground arith, λ (until, same, ends). ground arith)
  prev_matches_iff (some (h, until)) bytes now =
      let (into, back) = same_bytes_iff bytes h in
      (
        λ h'. (until, ground (arith, into), ground arith),
        λ (ends, same, within). ground (arith, back),
      )

  pub verify_secret_iff :
      (rt : VkRuntime) (secret : String) (now : ℕ)
      → (verify_secret digest rt secret now ≡ true) ↔ Knows rt secret now
  unfolding verify_secret
  verify_secret_iff rt secret now =
      let (now_into, now_back) = hash_matches_iff rt.hash (digest secret) in
      let (old_into, old_back) = prev_matches_iff rt.prev (digest secret) now in
      (
        λ h. elim (Bool-cases (hash_matches rt.hash (digest secret))) [
          | inl current ↦ inl (now_into current)
          | inr other ↦ inr (old_into (ground arith))
        ],
        elim [
          | inl same ↦ ground (arith, now_back same)
          | inr grace ↦ ground (arith, old_back grace)
        ],
      )

  is_expired_iff :
      (expires : Option ℕ) (now : ℕ) → (is_expired expires now ≡ false) ↔ IsUnexpired expires now
  unfolding is_expired
  is_expired_iff none now = (λ h. λ exp same. ground arith, λ h. refl)
  is_expired_iff (some exp) now =
      (λ h. λ other same. ground arith, λ h. let late = h exp refl in ground arith)

  -- What a key that is let in has shown.
  abbrev pub MayEnter : VkRuntime → String → ℕ → Type 0
  MayEnter rt secret now =
      Knows rt secret now × (rt.def.enabled ≡ true) × IsUnexpired rt.def.expires_ms now

  runtime-accepted :
      (found : VkRuntime) (secret : String) (now : ℕ) (rt : VkRuntime)
      → verify_runtime digest (some found) secret now ≡ accepted rt
      → (found ≡ rt) × MayEnter found secret now
  unfolding verify_runtime
  runtime-accepted found secret now rt h =
      let (knows, shown) = verify_secret_iff found secret now in
      let (lasts, lasting) = is_expired_iff found.def.expires_ms now in
      (ground arith, (knows (ground arith), ground arith, lasts (ground arith)))

  runtime_enters :
      (rt : VkRuntime) (secret : String) (now : ℕ)
      → MayEnter rt secret now
      → verify_runtime digest (some rt) secret now ≡ accepted rt
  unfolding verify_runtime
  runtime_enters rt secret now (known, on, alive) =
      let (_, shown) = verify_secret_iff rt secret now in
      let there = shown known in
      let (_, lasting) = is_expired_iff rt.def.expires_ms now in
      let late = lasting alive in ground (arith, there, on, late)

  parsed-accepted :
      (t : VkTable) (parsed : Option (String × String)) (now : ℕ) (rt : VkRuntime)
      → verify_parsed digest t parsed now ≡ accepted rt
      → (id : String) × (secret : String) × (parsed ≡ some (id, secret))
        × (get t.by_id id ≡ some rt)
        × MayEnter rt secret now
  unfolding verify_parsed verify_runtime
  parsed-accepted t none now rt h = ground arith
  parsed-accepted t (some (id, secret)) now rt h = elim (Option-cases (get t.by_id id)) [
    | inl missing ↦ ground (arith, missing)
    | inr (found, there) ↦
        let (same, may) =
          runtime-accepted found secret now rt
            (sym (ap (λ o. verify_runtime digest o secret now) there) ∙ h) in
        (id, secret, refl, there ∙ ap some same, subst (λ r. MayEnter r secret now) same may)
  ]

  -- A token is accepted, as the runtime it is, if and only if it parses to an id of the table and a secret
  -- that is the stored one, or the previous one within its grace, and the key is enabled and unexpired.
  pub verify-accepted :
      (t : VkTable) (token : String) (now : ℕ) (rt : VkRuntime)
      → (verify digest t token now ≡ accepted rt) ↔ (
          (id : String) × (secret : String) × (parse token ≡ some (id, secret))
          × (get t.by_id id ≡ some rt)
          × MayEnter rt secret now)
  unfolding verify verify_parsed
  verify-accepted t token now rt = (
    parsed-accepted t (parse token) now rt,
    λ (id, secret, reads, there, may).
        ap (λ p. verify_parsed digest t p now) reads
        ∙ ap (λ o. verify_runtime digest o secret now) there
        ∙ runtime_enters rt secret now may,
  )

  runtime-rejected :
      (rt : VkRuntime) (secret : String) (now : ℕ)
      → ((verify_runtime digest (some rt) secret now ≡ rejected bad_secret)
          ↔ (¬ Knows rt secret now))
        × ((verify_runtime digest (some rt) secret now ≡ rejected disabled)
            ↔ (Knows rt secret now × (rt.def.enabled ≡ false)))
        × (¬ (verify_runtime digest (some rt) secret now ≡ rejected unknown))
  unfolding verify_runtime
  runtime-rejected rt secret now =
      let (knows, shown) = verify_secret_iff rt secret now in
      (
        (
          λ h. λ known. let there = shown known in ground arith,
          λ h. elim (Bool-cases (verify_secret digest rt secret now)) [
            | inl there ↦ absurd (h (knows there))
            | inr missing ↦ ground (arith, missing)
          ],
        ),
        (
          λ h. (knows (ground arith), ground arith),
          λ (known, off). let there = shown known in ground arith,
        ),
        λ h. ground arith,
      )

  -- What else is said of a token: no key of its id, a wrong secret, a key switched off, a key that ran out;
  -- the first that applies. A secret is judged before the state of the key is told.
  pub verify-rejected :
      (t : VkTable) (id secret token : String) (now : ℕ) (rt : VkRuntime)
      → parse token ≡ some (id, secret)
      → get t.by_id id ≡ some rt
      → ((verify digest t token now ≡ rejected bad_secret) ↔ (¬ Knows rt secret now))
        × ((verify digest t token now ≡ rejected disabled)
            ↔ (Knows rt secret now × (rt.def.enabled ≡ false)))
        × (¬ (verify digest t token now ≡ rejected unknown))
  unfolding verify verify_parsed verify_runtime
  verify-rejected t id secret token now rt reads there =
      rw (reads, there) (runtime-rejected rt secret now)
