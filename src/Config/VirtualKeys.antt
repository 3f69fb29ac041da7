-- ===== src/Config/VirtualKeys.antt =====
-- `validate_virtual_keys` of crates/router-core/src/config/validate.rs: the virtual keys that a
-- configuration file declares.
use Prim.Native.String.{String}
use rapidrouter.Prelude.{
  ℕ, suc, Bool, not, ◌&&◌, ◌||◌, Option, none, some, List, [], ◌∷◌, ◌++◌, Map, get, is_some,
  is_empty, no_text, length, all_of, leb, ◌==◌, if◌then◌else◌, str_eq, split_once, strip_prefix,
  codes,
}
use rapidrouter.Router.Table.{TargetModel, RoutingGroup, slash}
use rapidrouter.Vkey.Period.{BudgetPeriod, daily, weekly, monthly}
use rapidrouter.Vkey.Runtime.{VirtualKeyDef, Budget, RateLimit}
use rapidrouter.Vkey.Expiry.{parse_rfc3339_utc_ms}
use rapidrouter.Config.Raw.{RawConfig, RawVirtualKey, RawBudget, RawRateLimit}
use rapidrouter.Config.Checked.{
  Part, field, nth, empty_value, duplicate, not_hex, bad_hash, bad_period, bad_number, bad_expiry,
  no_limit, not_positive, unknown_provider, unknown_scope, Checked, ◌>>=◌, ◌>>◌, fail, pure,
  complain_if,
}
use rapidrouter.Config.Aliases.{has_name}
use rapidrouter.Config.Numbers.{is_positive}
use rapidrouter.Config.Keys.{is_zero}
use rapidrouter.Config.Tenants.{check_tenant}

unfoldable pub is_hex : ℕ → Bool
is_hex c = (leb 48 c && leb c 57) || (leb 65 c && leb c 70) || (leb 97 c && leb c 102)

-- A text of so many bytes, all hexadecimal digits.
unfoldable pub is_hex_text : ℕ → String → Bool
unfolding is_hex
is_hex_text n s = (length (codes s) == n) && all_of is_hex (codes s)

unfoldable pub after_blake3 : String → String
after_blake3 s = elim (strip_prefix "blake3:" s) [ none ↦ "" | some hex ↦ hex ]

unfoldable pub check_id : List Part → List String → String → Checked (List String)
unfolding is_hex_text has_name
check_id place seen id =
    if not (is_hex_text 6 id)
    then fail place not_hex seen
    else if has_name seen id
    then fail place (duplicate id) seen
    else pure (id ∷ seen)

module _ {P : Type 0} (providers : Map P) (aliases : Map TargetModel)
    (groups : Map RoutingGroup) where
  -- A model scope: `provider/model` at a validated provider, or an alias or a group.
  unfoldable pub check_scope : List Part → String → Checked (Unit {0})
  check_scope place scope =
      if no_text scope then fail place empty_value tt else elim (split_once slash scope) [
        | some (provider, _) ↦
            complain_if (not (is_some (get providers provider))) place (unknown_provider provider)
        | none ↦
            complain_if (not (is_some (get aliases scope)) && not (is_some (get groups scope)))
              place (unknown_scope scope)
      ]

  unfoldable pub check_scopes : List Part → ℕ → List String → Checked (Unit {0})
  unfolding check_scope
  check_scopes place i [] = pure tt
  check_scopes place i (scope ∷ rest) =
      check_scope (place ++ (field "models" ∷ nth i ∷ [])) scope >> check_scopes place (suc i) rest

unfoldable pub named_period : List Part → String → Checked (Option BudgetPeriod)
named_period place s =
    if str_eq s "daily"
    then pure (some daily)
    else if str_eq s "weekly"
    then pure (some weekly)
    else if str_eq s "monthly"
    then pure (some monthly)
    else fail place bad_period none

unfoldable pub budget_for : List Part → ℕ → Option BudgetPeriod → Checked (Option Budget)
budget_for place usd none = pure none
budget_for place usd (some period) =
    if not (is_positive usd)
    then fail place bad_number none
    else pure (some (record { usd = usd; period = period }))

unfoldable pub budget_of : List Part → Option RawBudget → Checked (Option Budget)
unfolding named_period budget_for
budget_of place none = pure none
budget_of place (some b) =
    named_period (place ++ (field "period" ∷ [])) b.period
    >>= budget_for (place ++ (field "usd" ∷ [])) b.usd

unfoldable pub rate_of : List Part → Option RawRateLimit → Checked (Option RateLimit)
unfolding is_zero
rate_of place none = pure none
rate_of place (some r) = do
  complain_if (is_zero r.rpm) (place ++ (field "rpm" ∷ [])) not_positive
  complain_if (is_zero r.tpm) (place ++ (field "tpm" ∷ [])) not_positive
  complain_if (not (is_some r.rpm) && not (is_some r.tpm)) place no_limit
  pure (some (record { rpm = r.rpm; tpm = r.tpm }))

unfoldable pub expiry_of : List Part → Option String → Checked (Option ℕ)
unfolding parse_rfc3339_utc_ms
expiry_of place none = pure none
expiry_of place (some s) = elim (parse_rfc3339_utc_ms s) [
  | none ↦ fail place bad_expiry none
  | some ms ↦ pure (some ms)
]

-- The settings of one key; what comes back are the ids so far and the key as it would be.
unfoldable pub key_block :
    {P : Type 0}
    → Map P
    → Map TargetModel
    → Map RoutingGroup
    → List String
    → List Part
    → List String
    → RawVirtualKey
    → Checked (List String × VirtualKeyDef)
unfolding check_id after_blake3 is_hex_text check_scopes check_tenant budget_of rate_of expiry_of
key_block providers aliases groups tenants place seen rk = do
  complain_if (no_text rk.name) (place ++ (field "name" ∷ [])) empty_value
  seen' ← check_id (place ++ (field "id" ∷ [])) seen rk.id
  complain_if (not (is_hex_text 64 (after_blake3 rk.secret_hash)))
      (place ++ (field "secret_hash" ∷ [])) bad_hash
  check_scopes providers aliases groups place 0 rk.models
  check_tenant tenants place rk.tenant
  budget ← budget_of (place ++ (field "budget" ∷ [])) rk.budget
  rate ← rate_of (place ++ (field "rate_limit" ∷ [])) rk.rate_limit
  expires ← expiry_of (place ++ (field "expires" ∷ [])) rk.expires
  pure (
    seen',
    record {
      id = rk.id;
      name = rk.name;
      secret_hash = rk.secret_hash;
      prev_secret = none;
      models = rk.models;
      tenant = rk.tenant;
      budget = budget;
      rate = rate;
      expires_ms = expires;
      tags = rk.tags;
      enabled = rk.enabled;
      created_ms = 0;
    },
  )

-- A key with an error of its own is left out, and its id counts as seen all the same.
unfoldable pub keys_with :
    List VirtualKeyDef
    → Checked (List String × VirtualKeyDef)
    → Checked (List String × List VirtualKeyDef)
keys_with defs m = (m.0, (m.1.0, if is_empty m.0 then defs ++ (m.1.1 ∷ []) else defs))

module _ {P : Type 0} (providers : Map P) (aliases : Map TargetModel) (groups : Map RoutingGroup)
    (tenants : List String) where
  unfoldable pub vkeys_onto :
      ℕ → List String → List VirtualKeyDef → List RawVirtualKey → Checked (List VirtualKeyDef)
  unfolding key_block keys_with
  vkeys_onto i seen defs [] = pure defs
  vkeys_onto i seen defs (rk ∷ rest) = do
    let place = field "virtual_keys" ∷ nth i ∷ []
    next ← keys_with defs (key_block providers aliases groups tenants place seen rk)
    vkeys_onto (suc i) next.0 next.1 rest

  unfoldable pub validate_virtual_keys : RawConfig → Checked (List VirtualKeyDef)
  unfolding vkeys_onto
  validate_virtual_keys raw = vkeys_onto 0 [] [] raw.virtual_keys
