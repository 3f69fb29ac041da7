-- ===== src/Config/VirtualKeyRules.antt =====
-- What the virtual keys of an accepted document hold: the proofs about `validate_virtual_keys` of
-- crates/router-core/src/config/validate.rs.
use Prim.Native.String.{String}
use mathlib.Core.List.{append_assoc, append-nil}
use rapidrouter.Prelude.{
  ℕ, suc, ◌≡◌, refl, sym, subst, ◌∙◌, Bool, true, false, not, Option, none, some, List, [], ◌∷◌,
  ◌++◌, Map, All, Pairs, is_some, is_empty, str_eq, arith, Bool-cases, Option-cases, inl, inr,
  if◌then◌else◌,
}
use rapidrouter.Router.Table.{TargetModel, RoutingGroup}
use rapidrouter.Vkey.Period.{BudgetPeriod}
use rapidrouter.Vkey.Runtime.{VirtualKeyDef, Budget, RateLimit}
use rapidrouter.Vkey.Expiry.{parse_rfc3339_utc_ms}
use rapidrouter.Config.Raw.{RawVirtualKey, RawBudget, RawRateLimit, RawConfig}
use rapidrouter.Config.Checked.{
  Part, ConfigError, field, nth, Accepts, append-eq-nil, >>=-Accepts, complain_if-Accepts,
}
use rapidrouter.Config.Aliases.{has_name}
use rapidrouter.Config.Keys.{is_zero}
use rapidrouter.Config.Numbers.{is_positive}
use rapidrouter.Config.Tenants.{check_tenant}
use rapidrouter.Config.VirtualKeys.{
  is_hex_text, after_blake3, check_id, named_period, budget_for, budget_of, rate_of, expiry_of,
  key_block, keys_with, vkeys_onto, validate_virtual_keys,
}

-- A limit that is written is there, and one that is not is not.
abbrev pub SamePresence : {A B : Type 0} → Option A → Option B → Type 0
SamePresence a b = is_some a ≡ is_some b

-- The service of a key is declared, if it names one.
abbrev pub IsDeclared : List String → Option String → Type 0
IsDeclared tenants none = Unit {0}
IsDeclared tenants (some tenant) = has_name tenants tenant ≡ true

abbrev pub IsBudget : Option Budget → Type 0
IsBudget none = Unit {0}
IsBudget (some b) = is_positive b.usd ≡ true

abbrev pub IsRate : Option RateLimit → Type 0
IsRate none = Unit {0}
IsRate (some r) = (is_zero r.rpm ≡ false) × (is_zero r.tpm ≡ false)

not-eq-false : (b : Bool) → not b ≡ false → b ≡ true
not-eq-false b h = ground arith

pub check_tenant-Accepts :
    (tenants : List String) (place : List Part) (tenant : Option String)
    → Accepts (check_tenant tenants place tenant)
    → IsDeclared tenants tenant
unfolding check_tenant
check_tenant-Accepts tenants place none clean = tt
check_tenant-Accepts tenants place (some tenant) clean =
    let held = complain_if-Accepts (not (has_name tenants tenant)) _ _ clean in ground arith

check_id-Accepts :
    (place : List Part) (seen : List String) (id : String)
    → Accepts (check_id place seen id)
    → (is_hex_text 6 id ≡ true)
      × (has_name seen id ≡ false)
      × ((check_id place seen id).1 ≡ id ∷ seen)
unfolding check_id
check_id-Accepts place seen id clean = elim (Bool-cases (is_hex_text 6 id)) [
  | inr bad ↦ absurd (ground arith)
  | inl hex ↦ elim (Bool-cases (has_name seen id)) [
    | inl again ↦ absurd (ground arith)
    | inr new ↦ (hex, new, rw (hex, new) refl)
  ]
]

named_period-Accepts :
    (place : List Part) (text : String)
    → Accepts (named_period place text)
    → (period : BudgetPeriod) × ((named_period place text).1 ≡ some period)
unfolding named_period
named_period-Accepts place text clean = elim (Option-cases (named_period place text).1) [
  | inr (period, made) ↦ (period, made)
  | inl nothing ↦ absurd (ground arith)
]

budget_for-Accepts :
    (place : List Part) (usd : ℕ) (period : Option BudgetPeriod) (p : BudgetPeriod)
    → period ≡ some p
    → Accepts (budget_for place usd period)
    → (is_some (budget_for place usd period).1 ≡ true) × IsBudget (budget_for place usd period).1
unfolding budget_for
budget_for-Accepts place usd none p e clean = cc
budget_for-Accepts place usd (some period) p e clean = elim (Bool-cases (is_positive usd)) [
  | inl positive ↦ rw positive (refl, positive)
  | inr bad ↦ absurd (ground arith)
]

budget_of-Accepts :
    (place : List Part) (b : Option RawBudget)
    → Accepts (budget_of place b)
    → SamePresence b (budget_of place b).1 × IsBudget (budget_of place b).1
unfolding budget_of
budget_of-Accepts place none clean = (refl, tt)
budget_of-Accepts place (some b) clean =
    let named = named_period (place ++ (field "period" ∷ [])) b.period in
    let (clean_period, clean_budget) =
      >>=-Accepts named (budget_for (place ++ (field "usd" ∷ [])) b.usd) clean in
    let (period, found) =
      named_period-Accepts (place ++ (field "period" ∷ [])) b.period clean_period in
    let (there, positive) =
      budget_for-Accepts (place ++ (field "usd" ∷ [])) b.usd named.1 period found clean_budget in
    (sym there, positive)

rate_of-Accepts :
    (place : List Part) (r : Option RawRateLimit)
    → Accepts (rate_of place r)
    → SamePresence r (rate_of place r).1 × IsRate (rate_of place r).1
unfolding rate_of
rate_of-Accepts place none clean = (refl, tt)
rate_of-Accepts place (some r) clean =
    let (rpm, after) = append-eq-nil _ _ clean in
    let (tpm, _) = append-eq-nil _ _ after in
    (
      refl,
      (complain_if-Accepts (is_zero r.rpm) _ _ rpm, complain_if-Accepts (is_zero r.tpm) _ _ tpm),
    )

expiry_of-Accepts :
    (place : List Part) (expires : Option String)
    → Accepts (expiry_of place expires)
    → SamePresence expires (expiry_of place expires).1
unfolding expiry_of
expiry_of-Accepts place none clean = refl
expiry_of-Accepts place (some s) clean = elim (Option-cases (parse_rfc3339_utc_ms s)) [
  | inl malformed ↦ absurd (ground arith)
  | inr (ms, parsed) ↦ ground arith
]

-- A virtual key and its description in the document.
abbrev pub WrittenVkey : List String → RawVirtualKey → VirtualKeyDef → Type 0
WrittenVkey tenants rk d =
    (d.id ≡ rk.id)
    × (is_hex_text 6 rk.id ≡ true)
    × (d.secret_hash ≡ rk.secret_hash)
    × (is_hex_text 64 (after_blake3 rk.secret_hash) ≡ true)
    × (d.models ≡ rk.models)
    × (d.tenant ≡ rk.tenant)
    × IsDeclared tenants rk.tenant
    × (d.enabled ≡ rk.enabled)
    × (SamePresence rk.budget d.budget × IsBudget d.budget)
    × (SamePresence rk.rate_limit d.rate × IsRate d.rate)
    × SamePresence rk.expires d.expires_ms

-- No two keys have the same id.
abbrev pub HasDistinctIds : List VirtualKeyDef → Type 0
HasDistinctIds [] = Unit {0}
HasDistinctIds (d ∷ rest) = All (λ d'. str_eq d.id d'.id ≡ false) rest × HasDistinctIds rest

abbrev AreNewIds : List String → List VirtualKeyDef → Type 0
AreNewIds seen = All (λ d. has_name seen d.id ≡ false)

AreNewIds-tail :
    (id : String) (seen : List String) (defs : List VirtualKeyDef)
    → AreNewIds (id ∷ seen) defs
    → AreNewIds seen defs × All (λ d. str_eq id d.id ≡ false) defs
unfolding has_name
AreNewIds-tail id seen [] new = (tt, tt)
AreNewIds-tail id seen (d ∷ defs) new =
    let (rest, others) = AreNewIds-tail id seen defs new.1 in
    ((ground arith, rest), (ground arith, others))

module _ {P : Type 0} (providers : Map P) (aliases : Map TargetModel) (groups : Map RoutingGroup)
    (tenants : List String) where
  key_block-Accepts :
      (place : List Part) (seen : List String) (rk : RawVirtualKey)
      → Accepts (key_block providers aliases groups tenants place seen rk)
      → (has_name seen rk.id ≡ false)
        × ((key_block providers aliases groups tenants place seen rk).1.0 ≡ rk.id ∷ seen)
        × WrittenVkey tenants rk (key_block providers aliases groups tenants place seen rk).1.1
  unfolding key_block
  key_block-Accepts place seen rk clean =
      let (_, after_name) = append-eq-nil _ _ clean in
      let (id, after_id) =
        append-eq-nil (check_id (place ++ (field "id" ∷ [])) seen rk.id).0 _ after_name in
      let (hash, after_hash) = append-eq-nil _ _ after_id in
      let (_, after_scopes) = append-eq-nil _ _ after_hash in
      let (tenant, after_tenant) = append-eq-nil _ _ after_scopes in
      let (budget, after_budget) = append-eq-nil _ _ after_tenant in
      let (rate, after_rate) = append-eq-nil _ _ after_budget in
      let (expires, _) = append-eq-nil _ _ after_rate in
      let (hex, new, seen') = check_id-Accepts (place ++ (field "id" ∷ [])) seen rk.id id in
      let hex_hash = is_hex_text 64 (after_blake3 rk.secret_hash) in
      let hashed = not-eq-false hex_hash (complain_if-Accepts (not hex_hash) _ _ hash) in
      (
        new,
        seen',
        (
          refl,
          hex,
          refl,
          hashed,
          refl,
          refl,
          check_tenant-Accepts tenants place rk.tenant tenant,
          refl,
          budget_of-Accepts (place ++ (field "budget" ∷ [])) rk.budget budget,
          rate_of-Accepts (place ++ (field "rate_limit" ∷ [])) rk.rate_limit rate,
          expiry_of-Accepts (place ++ (field "expires" ∷ [])) rk.expires expires,
        ),
      )

  vkeys_onto-Accepts :
      (i : ℕ) (seen : List String) (defs : List VirtualKeyDef) (entries : List RawVirtualKey)
      → Accepts (vkeys_onto providers aliases groups tenants i seen defs entries)
      → (added : List VirtualKeyDef) × ((vkeys_onto providers aliases groups tenants i seen defs
            entries).1
          ≡ defs ++ added)
        × Pairs (WrittenVkey tenants) entries added
        × AreNewIds seen added
        × HasDistinctIds added
  unfolding vkeys_onto keys_with
  vkeys_onto-Accepts i seen defs [] clean = ([], sym (append-nil defs), tt, tt, tt)
  vkeys_onto-Accepts i seen defs (rk ∷ rest) clean =
      let place = field "virtual_keys" ∷ nth i ∷ [] in
      let block = key_block providers aliases groups tenants place seen rk in
      let (clean_key, clean_rest) = append-eq-nil block.0 _ clean in
      let (new, seen', written) = key_block-Accepts place seen rk clean_key in
      let clean_rest' : Accepts (
          vkeys_onto providers aliases groups tenants (suc i) (rk.id ∷ seen)
            (defs ++ (block.1.1 ∷ [])) rest) =
        rw (← seen') (
          subst
            (λ (es : List ConfigError). Accepts (
              vkeys_onto providers aliases groups tenants (suc i) block.1.0
                (if is_empty es then defs ++ (block.1.1 ∷ []) else defs) rest))
            clean_key clean_rest) in
      let (ds, all, pairs, new', distinct) =
        vkeys_onto-Accepts (suc i) (rk.id ∷ seen) (defs ++ (block.1.1 ∷ [])) rest clean_rest' in
      let (others, differ) = AreNewIds-tail rk.id seen ds new' in
      (
        block.1.1 ∷ ds,
        rw (clean_key, seen') (all ∙ append_assoc defs (block.1.1 ∷ []) ds),
        (written, pairs),
        (new, others),
        (differ, distinct),
      )

  pub validate_virtual_keys-Accepts :
      (raw : RawConfig)
      → Accepts (validate_virtual_keys providers aliases groups tenants raw)
      → Pairs
          (WrittenVkey tenants)
          raw.virtual_keys
          (validate_virtual_keys providers aliases groups tenants raw).1
        × HasDistinctIds (validate_virtual_keys providers aliases groups tenants raw).1
  unfolding validate_virtual_keys
  validate_virtual_keys-Accepts raw clean =
      let (defs, made, pairs, _, distinct) = vkeys_onto-Accepts 0 [] [] raw.virtual_keys clean in
      (
        subst (Pairs (WrittenVkey tenants) raw.virtual_keys) (sym made) pairs,
        subst HasDistinctIds (sym made) distinct,
      )
