-- ===== src/Vkey/Rebuild.antt =====
-- crates/router-core/src/vkey.rs, `VkTable::build_with_shares`: what a rebuilt table holds.
use Prim.Native.String.{String}
use native.Mathlib.Nat.{mul-div-le}
use text.Mathlib.TextEquality.{eq_iff}
use rapidrouter.Prelude.{
  ℕ, ◌*◌, ◌/◌, ◌≤◌, ◌≡◌, refl, true, false, Option, none, some, List, [], ◌∷◌, if◌then◌else◌, Map,
  get, insert, get-insert, str_eq, arith, ◌∙◌, Bool-cases, Option-cases, inl, inr, ◌==◌, ==_iff,
  leb, ◌&&◌, sym, ap, max, no_text,
}
use rapidrouter.TokenBucket.{TokenBucket, clone_state}
use rapidrouter.Vkey.Token.{full_key, IsId, parse-full_key, decode_hash}
use rapidrouter.Vkey.Runtime.{
  VirtualKeyDef, RateLimit, VkRuntime, new_runtime, share, carried, reuse, take_bucket, same_rate,
  spend_before, rate_or_default,
}
use rapidrouter.Vkey.Table.{
  VkTable, accepted, build_with_shares, insert_all, known, verify, get_key,
}
use rapidrouter.Vkey.Access.{verify-accepted, IsUnexpired}

-- The definition that counts for an id: the last one.
unfoldable pub last_def : List VirtualKeyDef → String → Option VirtualKeyDef
last_def [] id = none
last_def (def ∷ defs) id = elim (last_def defs id) [
  | some found ↦ some found
  | none ↦ if str_eq id def.id then some def else none
]

unfoldable pub made_of :
    Option VirtualKeyDef → Option VkTable → ℕ → String → Option VkRuntime → Option VkRuntime
made_of none prev shares id before = before
made_of (some def) prev shares id before = some (new_runtime def (known prev id) shares)

made_here :
    (def : VirtualKeyDef) (prev : Option VkTable) (shares : ℕ) (id : String)
    (before : Option VkRuntime)
    → (if str_eq id def.id then some (new_runtime def (known prev def.id) shares) else before)
      ≡ made_of (if str_eq id def.id then some def else none) prev shares id before
unfolding made_of
made_here def prev shares id before =
    let (same_id, _) = eq_iff id def.id in
    elim (Bool-cases (str_eq id def.id)) [
      | inl same ↦
          rw same (ap (λ i. some (new_runtime def (known prev i) shares)) (sym (same_id same)))
      | inr other ↦ rw other refl
    ]

insert_all-get :
    (defs : List VirtualKeyDef) (prev : Option VkTable) (shares : ℕ) (by_id : Map VkRuntime)
    (id : String)
    → get (insert_all defs prev shares by_id) id
      ≡ made_of (last_def defs id) prev shares id (get by_id id)
unfolding insert_all last_def made_of
insert_all-get [] prev shares by_id id = refl
insert_all-get (def ∷ defs) prev shares by_id id =
    let made = new_runtime def (known prev def.id) shares in
    insert_all-get defs prev shares (insert by_id def.id made) id
    ∙ elim (Option-cases (last_def defs id)) [
      | inl absent ↦
          rw absent
            (rw (get-insert by_id def.id id made) (made_here def prev shares id (get by_id id)))
      | inr (found, there) ↦ rw there refl
    ]

-- A rebuilt table has a key for exactly the ids defined, each made from its last definition and from the
-- runtime of the same id in the table before it.
pub get_key-build :
    (defs : List VirtualKeyDef) (prev : Option VkTable) (shares : ℕ) (id : String)
    → get_key (build_with_shares defs prev shares) id
      ≡ made_of (last_def defs id) prev shares id none
unfolding build_with_shares get_key get
get_key-build defs prev shares id = insert_all-get defs prev shares [] id

reuse-same :
    (old : VkRuntime) (field : VkRuntime → Option TokenBucket) (rate : Option RateLimit)
    (shares l : ℕ) (limit : Option ℕ) (b : TokenBucket)
    → same_rate old.def.rate rate ≡ true
    → old.shares ≡ shares
    → field old ≡ some b
    → limit ≡ some l
    → reuse (some old) field (carried (some old) rate shares) (share shares limit) ≡ some b
unfolding reuse carried share take_bucket clone_state
reuse-same old field rate shares l limit b same kept held there =
    let (_, equal) = ==_iff old.shares shares in
    let known = equal kept in
    let both : (same_rate old.def.rate rate && (old.shares == shares)) ≡ true = ground arith in
    rw (both, there, held) refl

-- What carries over from the runtime of the same id: the spend, whatever changed, and each bucket's
-- balance, where the rate limits and the share of the fleet are the same as before and the bucket exists.
pub build_carries :
    (t : VkTable) (defs : List VirtualKeyDef) (shares : ℕ) (id : String) (def : VirtualKeyDef)
    (old : VkRuntime)
    → last_def defs id ≡ some def
    → get_key t id ≡ some old
    → (rt : VkRuntime) × (get_key (build_with_shares defs (some t) shares) id ≡ some rt)
      × (rt.def ≡ def)
      × (rt.spend ≡ old.spend)
      × (same_rate old.def.rate def.rate ≡ true
          → old.shares ≡ max shares 1
          → (b : TokenBucket) → (l : ℕ)
          → (old.rpm ≡ some b → (rate_or_default def.rate).rpm ≡ some l → rt.rpm ≡ some b)
            × (old.tpm ≡ some b → (rate_or_default def.rate).tpm ≡ some l → rt.tpm ≡ some b))
unfolding get_key new_runtime made_of known spend_before
build_carries t defs shares id def old last was = (
  new_runtime def (some old) shares,
  get_key-build defs (some t) shares id ∙ rw last (ap (λ o. some (new_runtime def o shares)) was),
  refl,
  refl,
  λ same kept b l. (
    λ held limit.
        reuse-same old (λ p. p.rpm) def.rate (max shares 1) l (rate_or_default def.rate).rpm b same
          kept held limit,
    λ held limit.
        reuse-same old (λ p. p.tpm) def.rate (max shares 1) l (rate_or_default def.rate).tpm b same
          kept held limit,
  ),
)

share_bound : (limit m : ℕ) → 1 ≤ m → m * max (limit / m) 1 ≤ max limit m
share_bound limit m some_node =
    let bound = mul-div-le limit m in
    elim (Bool-cases (leb 1 (limit / m))) [
      | inl large ↦
          let exact : max (limit / m) 1 ≡ limit / m = ground (arith, large) in
          rw exact (ground (arith, bound))
      | inr small ↦
          let least : max (limit / m) 1 ≡ 1 = ground (arith, small) in rw least (ground arith)
    ]

-- A node's share of a limit is at least one, and the shares of all nodes together are within the limit,
-- unless there are more nodes than the limit counts: then they sum to the number of nodes.
pub share_sum :
    (limit nodes : ℕ)
    → (s : ℕ) × (share (max nodes 1) (some limit) ≡ some s)
      × (1 ≤ s)
      × (max nodes 1 * s ≤ max limit (max nodes 1))
unfolding share
share_sum limit nodes =
    (max (limit / max nodes 1) 1, refl, omega arith, share_bound limit (max nodes 1) (omega arith))

-- A key that was issued is let in: whatever table was there before, once the definitions hold it under its
-- id with the hash of its secret, enabled and unexpired, its full token is accepted as that definition.
pub verify-build :
    (digest : String → List ℕ) (defs : List VirtualKeyDef) (prev : Option VkTable) (shares : ℕ)
    (def : VirtualKeyDef) (secret : String) (now : ℕ)
    → IsId def.id
    → no_text secret ≡ false
    → last_def defs def.id ≡ some def
    → decode_hash def.secret_hash ≡ some (digest secret)
    → def.enabled ≡ true
    → IsUnexpired digest def.expires_ms now
    → verify digest (build_with_shares defs prev shares) (full_key def.id secret) now
      ≡ accepted (new_runtime def (known prev def.id) shares)
unfolding new_runtime made_of get_key
verify-build digest defs prev shares def secret now id_ok there last hashed on alive =
    let rt = new_runtime def (known prev def.id) shares in
    let (_, enters) =
      verify-accepted digest (build_with_shares defs prev shares) (full_key def.id secret) now rt in
    enters (
      def.id,
      secret,
      parse-full_key def.id secret id_ok there,
      get_key-build defs prev shares def.id ∙ rw last refl,
      (inl hashed, on, alive),
    )
