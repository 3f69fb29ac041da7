-- ===== src/Config/Keys.antt =====
-- The keys of a provider in `validate_provider` of crates/router-core/src/config/validate.rs: distinct
-- names, positive weights, ceilings that are not zero, and what a key inherits from `key_limits`. A key
-- is that of Router/Rebuild with its secret and the file that it came from.
use Prim.Native.String.{String}
use rapidrouter.Prelude.{
  ℕ, suc, Bool, false, not, Option, none, some, List, [], ◌∷◌, ◌++◌, no_text, strip_prefix,
  if◌then◌else◌, ◌==◌,
}
use rapidrouter.Router.Rebuild.{ApiKey}
use rapidrouter.Config.Raw.{RawKey, RawKeyLimits}
use rapidrouter.Config.Checked.{
  Part, field, nth, empty_value, duplicate, bad_number, not_positive, Checked, ◌>>=◌, ◌>>◌, fail,
  pure, complain_if,
}
use rapidrouter.Config.Secrets.{Sources, Secret, refused, secret, resolve_secret}
use rapidrouter.Config.Aliases.{has_name}
use rapidrouter.Config.Numbers.{is_positive}

pub record KeySettings : Type 0 where
  pub key : ApiKey
  pub secret : String
  pub source_path : Option String

-- `limit == Some(0)`.
unfoldable pub is_zero : Option ℕ → Bool
is_zero none = false
is_zero (some limit) = limit == 0

-- The three ceilings of a key or of a provider.
unfoldable pub check_limits : List Part → Option ℕ → Option ℕ → Option ℕ → Checked (Unit {0})
unfolding is_zero
check_limits place rpm tpm max_concurrency = do
  complain_if (is_zero rpm) (place ++ (field "rpm" ∷ [])) not_positive
  complain_if (is_zero tpm) (place ++ (field "tpm" ∷ [])) not_positive
  complain_if (is_zero max_concurrency) (place ++ (field "max_concurrency" ∷ [])) not_positive

unfoldable pub check_defaults : List Part → Option RawKeyLimits → Checked (Unit {0})
unfolding check_limits
check_defaults place none = pure tt
check_defaults place (some limits) =
    check_limits (place ++ (field "key_limits" ∷ [])) limits.rpm limits.tpm limits.max_concurrency

-- `Option::or`.
abbrev pub or_default : Option ℕ → Option ℕ → Option ℕ
or_default (some own) default = some own
or_default none default = default

abbrev pub default_rpm : Option RawKeyLimits → Option ℕ
default_rpm none = none
default_rpm (some d) = d.rpm

abbrev pub default_tpm : Option RawKeyLimits → Option ℕ
default_tpm none = none
default_tpm (some d) = d.tpm

abbrev pub default_concurrency : Option RawKeyLimits → Option ℕ
default_concurrency none = none
default_concurrency (some d) = d.max_concurrency

source_path : String → Option String
source_path value = elim (strip_prefix "file:" value) [
  | none ↦ none
  | some path ↦ if no_text path then none else some path
]

unfoldable pub key_of : Option RawKeyLimits → RawKey → String → KeySettings
unfolding source_path
key_of defaults rk value = record {
  key = record {
    name = rk.name;
    weight = rk.weight;
    models = rk.models;
    tenant = rk.tenant;
    rpm = or_default rk.rpm (default_rpm defaults);
    tpm = or_default rk.tpm (default_tpm defaults);
    max_concurrency = or_default rk.max_concurrency (default_concurrency defaults);
  };
  secret = value;
  source_path = source_path rk.value;
}

-- A name that is there already is reported; the names so far come back.
unfoldable pub check_name : List Part → List String → String → Checked (List String)
unfolding has_name
check_name place names name =
    if no_text name
    then fail place empty_value names
    else if has_name names name
    then fail place (duplicate name) names
    else pure (name ∷ names)

unfoldable pub resolved_key :
    List Part
    → Option RawKeyLimits
    → List KeySettings
    → RawKey
    → Secret
    → Checked (List KeySettings)
unfolding key_of
resolved_key place defaults keys rk (secret value) = pure (keys ++ (key_of defaults rk value ∷ []))
resolved_key place defaults keys rk (refused why) = fail (place ++ (field "value" ∷ [])) why keys

module _ (s : Sources) (place : List Part) (defaults : Option RawKeyLimits) where
  unfoldable pub check_key : ℕ → List KeySettings → RawKey → Checked (List KeySettings)
  unfolding check_limits resolved_key resolve_secret
  check_key i keys rk = do
    let place' = place ++ (field "keys" ∷ nth i ∷ [])
    complain_if (not (is_positive rk.weight)) (place' ++ (field "weight" ∷ [])) bad_number
    check_limits place' rk.rpm rk.tpm rk.max_concurrency
    resolved_key place' defaults keys rk (resolve_secret s rk.value)

  unfoldable pub validate_keys :
      ℕ → List String → List KeySettings → List RawKey → Checked (List KeySettings)
  unfolding check_key check_name
  validate_keys i names keys [] = pure keys
  validate_keys i names keys (rk ∷ rest) = do
    names' ← check_name (place ++ (field "keys" ∷ nth i ∷ field "name" ∷ [])) names rk.name
    keys' ← check_key i keys rk
    validate_keys (suc i) names' keys' rest
