-- ===== src/Config/Tenants.antt =====
-- `validate_tenants` and `validate_account_tenants` of
-- crates/router-core/src/config/validate.rs: the services, and the accounts that name one.
use Prim.Native.String.{String}
use rapidrouter.Prelude.{
  ℕ, suc, not, Option, none, some, List, [], ◌∷◌, ◌++◌, Map, no_text, if◌then◌else◌,
}
use rapidrouter.Config.Raw.{RawConfig, RawProvider, RawKey}
use rapidrouter.Config.Checked.{
  Part, field, nth, empty_value, duplicate, undeclared_service, Checked, ◌>>=◌, ◌>>◌, fail, pure,
  complain_if,
}
use rapidrouter.Config.Secrets.{trim}
use rapidrouter.Config.Aliases.{has_name}

unfoldable pub add_tenant : ℕ → List String → String → Checked (List String)
unfolding trim has_name
add_tenant i tenants name =
    if no_text (trim name)
    then fail (field "tenants" ∷ nth i ∷ []) empty_value tenants
    else if has_name tenants name
    then fail (field "tenants" ∷ nth i ∷ []) (duplicate name) tenants
    else pure (name ∷ tenants)

unfoldable pub tenants_onto : ℕ → List String → List String → Checked (List String)
unfolding add_tenant
tenants_onto i tenants [] = pure tenants
tenants_onto i tenants (name ∷ rest) = do
  tenants' ← add_tenant i tenants name
  tenants_onto (suc i) tenants' rest

unfoldable pub validate_tenants : RawConfig → Checked (List String)
unfolding tenants_onto
validate_tenants raw = tenants_onto 0 [] raw.tenants

-- A service that is named must be declared.
unfoldable pub check_tenant : List String → List Part → Option String → Checked (Unit {0})
unfolding has_name
check_tenant tenants place none = pure tt
check_tenant tenants place (some tenant) =
    complain_if (not (has_name tenants tenant)) (place ++ (field "tenant" ∷ []))
      (undeclared_service tenant)

unfoldable pub account_tenants : List String → List Part → ℕ → List RawKey → Checked (Unit {0})
unfolding check_tenant
account_tenants tenants place i [] = pure tt
account_tenants tenants place i (k ∷ rest) =
    check_tenant tenants (place ++ (field "keys" ∷ nth i ∷ [])) k.tenant
    >> account_tenants tenants place (suc i) rest

unfoldable pub provider_tenants : List String → Map RawProvider → Checked (Unit {0})
unfolding account_tenants
provider_tenants tenants [] = pure tt
provider_tenants tenants ((name, rp) ∷ rest) =
    account_tenants tenants (field "providers" ∷ field name ∷ []) 0 rp.keys
    >> provider_tenants tenants rest

unfoldable pub validate_account_tenants : RawConfig → List String → Checked (Unit {0})
unfolding provider_tenants
validate_account_tenants raw tenants = provider_tenants tenants raw.providers
