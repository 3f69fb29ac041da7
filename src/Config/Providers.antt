-- ===== src/Config/Providers.antt =====
-- `validate_providers` and `validate_provider` of crates/router-core/src/config/validate.rs, and
-- `Provider` of crates/router-core/src/config/mod.rs.
use Prim.Native.String.{String, ◌++◌ as join}
use rapidrouter.Prelude.{
  ℕ, Bool, true, false, not, ◌&&◌, Option, none, some, List, [], ◌∷◌, ◌++◌, Map, is_some, is_empty,
  str_eq, if◌then◌else◌, ◌==◌,
}
use rapidrouter.Config.Raw.{RawConfig, RawProvider}
use rapidrouter.Config.Checked.{
  Part, field, unknown_type, required, not_allowed, bad_url, unknown_auth, not_positive, Checked,
  ◌>>=◌, ◌>>◌, fail, pure, complain_if, validate_each,
}
use rapidrouter.Config.Secrets.{Sources}
use rapidrouter.Config.Presets.{
  ProviderKind, azure, bedrock, vertex, open_ai_compat, claude_subscription, codex_subscription,
  same_kind, AuthMode, by_key, unauthenticated, Preset, preset,
}
use rapidrouter.Config.Kinds.{
  AzureSettings, BedrockSettings, VertexSettings, CodexSettings, is_http, validate_azure,
  validate_bedrock, validate_vertex, validate_codex,
}
use rapidrouter.Config.Keys.{KeySettings, check_defaults, validate_keys}

-- The timeout is in seconds.
pub record ProviderSettings : Type 0 where
  pub kind : ProviderKind
  pub base_url : Option String
  pub auth : AuthMode
  pub keys : List KeySettings
  pub max_concurrency : ℕ
  pub timeout_secs : ℕ
  pub azure : Option AzureSettings
  pub bedrock : Option BedrockSettings
  pub vertex : Option VertexSettings
  pub codex : Option CodexSettings

-- A name that is neither well known nor typed ends the provider at once; a superfluous type does not.
unfoldable pub kind_of : List Part → Option Preset → Option String → Checked (Option ProviderKind)
unfolding same_kind
kind_of place (some p) none = pure (some p.kind)
kind_of place none none = fail place required none
kind_of place none (some t) =
    if str_eq t "openai_compat"
    then pure (some open_ai_compat)
    else if str_eq t "claude_subscription"
    then pure (some claude_subscription)
    else if str_eq t "codex_subscription"
    then pure (some codex_subscription)
    else fail (place ++ (field "type" ∷ [])) (unknown_type t) none
kind_of place (some p) (some t) =
    if str_eq t "claude_subscription"
    then pure (some claude_subscription)
    else if str_eq t "codex_subscription"
    then pure (some codex_subscription)
    else if not (same_kind p.kind open_ai_compat && str_eq t "openai_compat")
    then fail (place ++ (field "type" ∷ [])) not_allowed (some p.kind)
    else pure (some p.kind)

abbrev preset_url : Option Preset → Option String
preset_url none = none
preset_url (some p) = p.base_url

abbrev is_keyless : Option Preset → Bool
is_keyless none = false
is_keyless (some p) = p.keyless_ok

-- `Option::or_else`.
abbrev or_url : Option String → Option String → Option String
or_url (some url) default = some url
or_url none default = default

check_url : List Part → ProviderKind → Option String → Checked (Unit {0})
unfolding same_kind is_http
check_url place kind none = complain_if (same_kind kind open_ai_compat) place required
check_url place kind (some url) = complain_if (not (is_http url)) place bad_url

unfoldable pub auth_of : List Part → Bool → Bool → Option String → Checked AuthMode
auth_of place keyless no_keys none = pure (if keyless && no_keys then unauthenticated else by_key)
auth_of place keyless no_keys (some mode) =
    if str_eq mode "none"
    then pure unauthenticated
    else if str_eq mode "bearer"
    then pure by_key
    else if str_eq mode "key"
    then pure by_key
    else fail place (unknown_auth mode) by_key

abbrev pub is_keyed : AuthMode → Bool
is_keyed by_key = true
is_keyed unauthenticated = false

-- The fields that only one kind may have.
foreign_fields : List Part → ProviderKind → RawProvider → Checked (Unit {0})
unfolding same_kind
foreign_fields place kind rp = do
  let other = not (same_kind kind azure)
  complain_if (is_some rp.endpoint && other) (place ++ (field "endpoint" ∷ [])) not_allowed
  complain_if (is_some rp.api_version && other) (place ++ (field "api_version" ∷ [])) not_allowed
  complain_if (not (is_empty rp.deployments) && other) (place ++ (field "deployments" ∷ []))
      not_allowed

foreign_places : List Part → ProviderKind → RawProvider → Checked (Unit {0})
unfolding same_kind
foreign_places place kind rp = do
  let not_vertex = not (same_kind kind vertex)
  let not_bedrock = not (same_kind kind bedrock)
  complain_if (is_some rp.project && not_vertex) (place ++ (field "project" ∷ [])) not_allowed
  complain_if (is_some rp.location && not_vertex) (place ++ (field "location" ∷ [])) not_allowed
  complain_if (is_some rp.region && not_bedrock) (place ++ (field "region" ∷ [])) not_allowed
  complain_if (is_some rp.access_key_id && not_bedrock) (place ++ (field "access_key_id" ∷ []))
      not_allowed

vertex_url : String → String
vertex_url location =
    if str_eq location "global"
    then "https://aiplatform.googleapis.com"
    else join "https://" (join location "-aiplatform.googleapis.com")

azure_url : Option String → Option AzureSettings → Option String
azure_url url none = url
azure_url url (some a) = some a.endpoint

bedrock_url : Option String → Option BedrockSettings → Option String
bedrock_url url none = url
bedrock_url url (some b) =
    or_url url (some (join "https://bedrock-runtime." (join b.region ".amazonaws.com")))

vertex_base : Option String → Option VertexSettings → Option String
unfolding vertex_url
vertex_base url none = url
vertex_base url (some v) = or_url url (some (vertex_url v.location))

-- The address that requests go to, once the kind's settings are known.
unfoldable pub final_url :
    ProviderKind
    → Option AzureSettings
    → Option BedrockSettings
    → Option VertexSettings
    → Option String
    → Option String
unfolding azure_url bedrock_url vertex_base
final_url azure a b v url = azure_url url a
final_url bedrock a b v url = bedrock_url url b
final_url vertex a b v url = vertex_base url v
final_url claude_subscription a b v url = or_url url (some "https://api.anthropic.com")
final_url codex_subscription a b v url = or_url url (some "https://chatgpt.com")
final_url _ a b v url = url

-- The provider, built whatever errors there were on the way.
unfoldable pub settings_of :
    Sources → List Part → Option Preset → RawProvider → ProviderKind → Checked ProviderSettings
unfolding check_url auth_of foreign_fields foreign_places final_url check_defaults validate_keys
    validate_azure validate_bedrock validate_vertex validate_codex
settings_of s place known rp kind = do
  let url = or_url rp.base_url (preset_url known)
  check_url (place ++ (field "base_url" ∷ [])) kind url
  auth ← auth_of (place ++ (field "auth" ∷ [])) (is_keyless known) (is_empty rp.keys) rp.auth
  complain_if (is_keyed auth && is_empty rp.keys) (place ++ (field "keys" ∷ [])) required
  check_defaults place rp.key_limits
  keys ← validate_keys s place rp.key_limits 0 [] [] rp.keys
  complain_if (rp.max_concurrency == 0) (place ++ (field "max_concurrency" ∷ [])) not_positive
  complain_if (rp.timeout_secs == 0) (place ++ (field "timeout_secs" ∷ [])) not_positive
  azure' ← validate_azure kind rp place
  foreign_fields place kind rp
  bedrock' ← validate_bedrock s kind rp place
  vertex' ← validate_vertex kind rp place
  foreign_places place kind rp
  codex' ← validate_codex kind rp place
  pure (record {
    kind = kind;
    base_url = final_url kind azure' bedrock' vertex' url;
    auth = auth;
    keys = keys;
    max_concurrency = rp.max_concurrency;
    timeout_secs = rp.timeout_secs;
    azure = azure';
    bedrock = bedrock';
    vertex = vertex';
    codex = codex';
  })

-- `if errors.len() > before { return None }`.
unfoldable pub if_clean : {A : Type 0} → Checked (Option A) → Checked (Option A)
if_clean m = (m.0, if is_empty m.0 then m.1 else none)

unfoldable pub of_kind :
    Sources
    → List Part
    → Option Preset
    → RawProvider
    → Option ProviderKind
    → Checked (Option ProviderSettings)
unfolding settings_of
of_kind s place known rp none = pure none
of_kind s place known rp (some kind) = do
  settings ← settings_of s place known rp kind
  pure (some settings)

unfoldable pub validate_provider :
    Sources → String → RawProvider → Checked (Option ProviderSettings)
unfolding if_clean kind_of of_kind preset
validate_provider s name rp =
    let place = field "providers" ∷ field name ∷ [] in
    if_clean (kind_of place (preset name) rp.type_name >>= of_kind s place (preset name) rp)

unfoldable pub validate_providers : Sources → RawConfig → Checked (Map ProviderSettings)
unfolding validate_provider validate_each
validate_providers s raw = validate_each (validate_provider s) [] raw.providers
