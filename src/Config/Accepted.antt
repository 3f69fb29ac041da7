-- ===== src/Config/Accepted.antt =====
-- What is known of a document that `validate` of crates/router-core/src/config/validate.rs accepts: every
-- section was clean, and the configuration has the results of the sections.
use Prim.Native.String.{String}
use rapidrouter.Prelude.{◌≡◌, refl, true, List, [], ◌∷◌, Map, is_empty, arith, Bool-cases, inl, inr}
use rapidrouter.Router.Table.{TargetModel}
use rapidrouter.Config.Raw.{RawConfig}
use rapidrouter.Config.Checked.{Checked, Accepts, append-eq-nil, HasDistinctNames}
use rapidrouter.Config.Secrets.{Sources}
use rapidrouter.Config.Aliases.{validate_aliases}
use rapidrouter.Config.Pools.{validate_fallbacks, validate_groups}
use rapidrouter.Config.Providers.{ProviderSettings, validate_providers}
use rapidrouter.Config.Tenants.{validate_tenants, validate_account_tenants}
use rapidrouter.Config.VirtualKeys.{validate_virtual_keys}
use rapidrouter.Config.Validate.{Settings, validate_sections, accepted, validate}

-- The names of each section are distinct, as in the maps of the document.
pub record IsDocument (raw : RawConfig) : Type 0 where
  pub providers : HasDistinctNames raw.providers
  pub aliases : HasDistinctNames raw.aliases
  pub groups : HasDistinctNames raw.groups

module _ (s : Sources) (raw : RawConfig) where
  abbrev pub providers_of : Checked (Map ProviderSettings)
  providers_of = validate_providers s raw

  abbrev pub aliases_of : Checked (Map TargetModel)
  aliases_of = validate_aliases raw providers_of.1

  abbrev pub tenants_of : Checked (List String)
  tenants_of = validate_tenants raw

  -- The sections that routing and access depend on are clean.
  pub record IsClean : Type 0 where
    pub tenants : Accepts tenants_of
    pub providers : Accepts providers_of
    pub aliases : Accepts aliases_of
    pub fallbacks : Accepts (validate_fallbacks raw providers_of.1 aliases_of.1)
    pub groups : Accepts (validate_groups raw providers_of.1 aliases_of.1)
    pub accounts : Accepts (validate_account_tenants raw tenants_of.1)
    pub virtual_keys : Accepts (
        validate_virtual_keys providers_of.1 aliases_of.1
          (validate_groups raw providers_of.1 aliases_of.1).1
          tenants_of.1
          raw)

  validate_sections-IsClean : Accepts (validate_sections s raw) → IsClean
  unfolding validate_sections
  validate_sections-IsClean clean =
      let (tenants, after_tenants) = append-eq-nil tenants_of.0 _ clean in
      let (_, after_server) = append-eq-nil _ _ after_tenants in
      let (providers, after_providers) = append-eq-nil providers_of.0 _ after_server in
      let (aliases, after_aliases) = append-eq-nil aliases_of.0 _ after_providers in
      let (fallbacks, after_fallbacks) = append-eq-nil _ _ after_aliases in
      let (groups, after_groups) = append-eq-nil _ _ after_fallbacks in
      let (_, after_reliability) = append-eq-nil _ _ after_groups in
      let (accounts, after_accounts) = append-eq-nil _ _ after_reliability in
      let (virtual_keys, _) = append-eq-nil _ _ after_accounts in
      record {
        tenants = tenants;
        providers = providers;
        aliases = aliases;
        fallbacks = fallbacks;
        groups = groups;
        accounts = accounts;
        virtual_keys = virtual_keys;
      }

  is_empty-eq : {A : Type 0} (xs : List A) → is_empty xs ≡ true → xs ≡ []
  is_empty-eq [] h = refl
  is_empty-eq (x ∷ xs) h = cc

  pub validate-accepted :
      (c : Settings) → validate s raw ≡ accepted c → IsClean × (c ≡ (validate_sections s raw).1)
  unfolding validate
  validate-accepted c e = elim (Bool-cases (is_empty (validate_sections s raw).0)) [
    | inr dirty ↦ absurd (ground arith)
    | inl clean ↦
        (validate_sections-IsClean (is_empty-eq (validate_sections s raw).0 clean), ground arith)
  ]
