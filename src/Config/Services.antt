-- ===== src/Config/Services.antt =====
-- The services of a document that crates/router-core/src/config/validate.rs accepts, and the accounts and
-- virtual keys that name one.
use Prim.Native.String.{String}
use rapidrouter.Prelude.{
  ℕ, suc, ◌≡◌, refl, ◌||◌, List, [], ◌∷◌, ◌++◌, Map, All, Pairs, no_text, arith, Bool-cases, inl,
  inr,
}
use rapidrouter.Config.Raw.{RawConfig, RawProvider, RawKey}
use rapidrouter.Config.Checked.{Part, field, nth, Accepts, append-eq-nil}
use rapidrouter.Config.Secrets.{Sources, trim}
use rapidrouter.Config.Aliases.{has_name}
use rapidrouter.Config.Pools.{validate_groups}
use rapidrouter.Config.Tenants.{
  add_tenant, tenants_onto, validate_tenants, check_tenant, account_tenants, provider_tenants,
  validate_account_tenants,
}
use rapidrouter.Config.VirtualKeyRules.{
  IsDeclared, WrittenVkey, HasDistinctIds, check_tenant-Accepts, validate_virtual_keys-Accepts,
}
use rapidrouter.Config.Validate.{Settings, validate_sections, accepted, validate}
use rapidrouter.Config.Accepted.{providers_of, aliases_of, tenants_of, validate-accepted}

-- Every account of a provider names a declared service, or none.
abbrev pub AreDeclared : List String → List RawKey → Type 0
AreDeclared tenants = All (λ k. IsDeclared tenants k.tenant)

account_tenants-Accepts :
    (tenants : List String) (place : List Part) (i : ℕ) (keys : List RawKey)
    → Accepts (account_tenants tenants place i keys)
    → AreDeclared tenants keys
unfolding account_tenants
account_tenants-Accepts tenants place i [] clean = tt
account_tenants-Accepts tenants place i (k ∷ rest) clean =
    let place' = place ++ (field "keys" ∷ nth i ∷ []) in
    let (first, later) = append-eq-nil (check_tenant tenants place' k.tenant).0 _ clean in
    (
      check_tenant-Accepts tenants place' k.tenant first,
      account_tenants-Accepts tenants place (suc i) rest later,
    )

provider_tenants-Accepts :
    (tenants : List String) (section : Map RawProvider)
    → Accepts (provider_tenants tenants section)
    → All (λ entry. AreDeclared tenants entry.1.keys) section
unfolding provider_tenants
provider_tenants-Accepts tenants [] clean = tt
provider_tenants-Accepts tenants ((name, rp) ∷ rest) clean =
    let place = field "providers" ∷ field name ∷ [] in
    let (first, later) = append-eq-nil (account_tenants tenants place 0 rp.keys).0 _ clean in
    (
      account_tenants-Accepts tenants place 0 rp.keys first,
      provider_tenants-Accepts tenants rest later,
    )

add_tenant-Accepts :
    (i : ℕ) (tenants : List String) (name : String)
    → Accepts (add_tenant i tenants name)
    → (add_tenant i tenants name).1 ≡ name ∷ tenants
unfolding add_tenant
add_tenant-Accepts i tenants name clean = elim (Bool-cases (no_text (trim name))) [
  | inl blank ↦ absurd (ground arith)
  | inr named ↦ elim (Bool-cases (has_name tenants name)) [
    | inl again ↦ absurd (ground arith)
    | inr new ↦ rw (named, new) refl
  ]
]

has_name-tenants_onto :
    (i : ℕ) (tenants names : List String) (asked : String)
    → Accepts (tenants_onto i tenants names)
    → has_name (tenants_onto i tenants names).1 asked
      ≡ (has_name tenants asked || has_name names asked)
unfolding tenants_onto has_name
has_name-tenants_onto i tenants [] asked clean = ground arith
has_name-tenants_onto i tenants (name ∷ rest) asked clean =
    let (first, later) = append-eq-nil (add_tenant i tenants name).0 _ clean in
    let added = add_tenant-Accepts i tenants name first in
    let later' : Accepts (tenants_onto (suc i) (name ∷ tenants) rest) = rw (← added) later in
    let told = has_name-tenants_onto (suc i) (name ∷ tenants) rest asked later' in
    rw added (ground arith)

-- In an accepted document the services are those that are listed; every account and every virtual key that
-- names a service names one of them. The virtual keys are those of the document in their order: no two with
-- one id, the id and the hash of the right length and all hexadecimal, the models, the service and the state
-- as written; and a key has a budget, a rate limit or an expiry exactly when one is written for it, with a
-- positive budget and no limit of zero.
pub validate-services :
    (s : Sources) (raw : RawConfig) (c : Settings)
    → validate s raw ≡ accepted c
    → ((name : String) → has_name c.tenants name ≡ has_name raw.tenants name)
      × All (λ entry. AreDeclared c.tenants entry.1.keys) raw.providers
      × Pairs (WrittenVkey c.tenants) raw.virtual_keys c.virtual_keys
      × HasDistinctIds c.virtual_keys
unfolding validate_sections validate_tenants validate_account_tenants
validate-services s raw c e =
    let (clean, same) = validate-accepted s raw c e in
    let groups = validate_groups raw (providers_of s raw).1 (aliases_of s raw).1 in
    let (pairs, distinct) =
      validate_virtual_keys-Accepts (providers_of s raw).1 (aliases_of s raw).1 groups.1
        (tenants_of s raw).1 raw clean.virtual_keys in
    let accounts = provider_tenants-Accepts (tenants_of s raw).1 raw.providers clean.accounts in
    rw same
      (λ name. has_name-tenants_onto 0 [] raw.tenants name clean.tenants, accounts, pairs, distinct)
