-- ===== src/Config/Kinds.antt =====
-- `validate_azure`, `validate_bedrock`, `validate_vertex` and `validate_codex` of
-- crates/router-core/src/config/validate.rs, with the settings they make: what one kind of provider needs
-- beside its keys.
use Prim.Native.String.{String}
use rapidrouter.Prelude.{
  ℕ, Bool, not, ◌||◌, Option, none, some, List, [], ◌∷◌, ◌++◌, Map, is_some, no_text, any_of,
  str_eq, strip_prefix, if◌then◌else◌, ◌==◌,
}
use rapidrouter.Config.Raw.{RawProvider, RawCodex}
use rapidrouter.Config.Checked.{
  Part, field, bad_url, required, not_allowed, empty_value, bad_choice, out_of_range, not_positive,
  Checked, ◌>>=◌, fail, pure,
}
use rapidrouter.Config.Secrets.{Sources, Secret, refused, secret, resolve_secret}
use rapidrouter.Config.Numbers.{is_within}
use rapidrouter.Config.Presets.{ProviderKind, azure, bedrock, vertex, codex_subscription, same_kind}

pub record AzureSettings : Type 0 where
  pub endpoint : String
  pub api_version : String
  pub deployments : Map String

pub record BedrockSettings : Type 0 where
  pub region : String
  pub access_key_id : String

pub record VertexSettings : Type 0 where
  pub project : String
  pub location : String

pub record CodexSettings : Type 0 where
  pub version : String
  pub reasoning_effort : Option String
  pub verbosity : Option String
  pub pdf_dpi : ℕ
  pub pdf_max_pages : ℕ

abbrev pub default_codex : CodexSettings
default_codex = record {
  version = "0.146.0";
  reasoning_effort = some "low";
  verbosity = some "low";
  pdf_dpi = 150;
  pdf_max_pages = 50;
}

unfoldable pub is_http : String → Bool
is_http url = is_some (strip_prefix "http://" url) || is_some (strip_prefix "https://" url)

abbrev required_value : List Part → Option String → Checked (Option String)
required_value place none = fail place required none
required_value place (some v) = pure (some v)

-- The same, where an empty text counts as missing.
abbrev filled_value : List Part → Option String → Checked (Option String)
filled_value place none = fail place required none
filled_value place (some v) = if no_text v then fail place required none else pure (some v)

checked_endpoint : List Part → Option String → Checked (Option String)
unfolding is_http
checked_endpoint place none = fail place required none
checked_endpoint place (some e) = if is_http e then pure (some e) else fail place bad_url none

azure_of : Map String → Option String → Option String → Option AzureSettings
azure_of deployments (some endpoint) (some api_version) =
    some (record { endpoint = endpoint; api_version = api_version; deployments = deployments })
azure_of deployments none api_version = none
azure_of deployments (some endpoint) none = none

unfoldable pub validate_azure :
    ProviderKind → RawProvider → List Part → Checked (Option AzureSettings)
unfolding checked_endpoint azure_of
validate_azure kind rp place = if not (same_kind kind azure) then pure none else do
  endpoint ← checked_endpoint (place ++ (field "endpoint" ∷ [])) rp.endpoint
  api_version ← required_value (place ++ (field "api_version" ∷ [])) rp.api_version
  pure (azure_of rp.deployments endpoint api_version)

checked_secret : List Part → Secret → Checked (Option String)
checked_secret place (secret v) = pure (some v)
checked_secret place (refused why) = fail place why none

access_key : Sources → List Part → Option String → Checked (Option String)
unfolding checked_secret resolve_secret
access_key s place none = fail place required none
access_key s place (some reference) = checked_secret place (resolve_secret s reference)

bedrock_of : Option String → Option String → Option BedrockSettings
bedrock_of (some region) (some key) = some (record { region = region; access_key_id = key })
bedrock_of none key = none
bedrock_of (some region) none = none

unfoldable pub validate_bedrock :
    Sources → ProviderKind → RawProvider → List Part → Checked (Option BedrockSettings)
unfolding access_key bedrock_of
validate_bedrock s kind rp place = if not (same_kind kind bedrock) then pure none else do
  region ← filled_value (place ++ (field "region" ∷ [])) rp.region
  key ← access_key s (place ++ (field "access_key_id" ∷ [])) rp.access_key_id
  pure (bedrock_of region key)

location_or : Option String → String
location_or none = "us-central1"
location_or (some location) = location

vertex_of : Option String → String → Option VertexSettings
vertex_of none location = none
vertex_of (some project) location = some (record { project = project; location = location })

unfoldable pub validate_vertex :
    ProviderKind → RawProvider → List Part → Checked (Option VertexSettings)
unfolding vertex_of location_or
validate_vertex kind rp place = if not (same_kind kind vertex) then pure none else do
  project ← filled_value (place ++ (field "project" ∷ [])) rp.project
  pure (vertex_of project (location_or rp.location))

abbrev efforts : List String
efforts = "none" ∷ "minimal" ∷ "low" ∷ "medium" ∷ "high" ∷ "xhigh" ∷ "max" ∷ []

abbrev verbosities : List String
verbosities = "low" ∷ "medium" ∷ "high" ∷ []

-- A choice from a list; the empty text asks for the backend's own default.
codex_choice : List Part → List String → Option String → Option String → Checked (Option String)
codex_choice place allowed default none = pure default
codex_choice place allowed default (some v) =
    if no_text v
    then pure none
    else if not (any_of (λ a. str_eq a v) allowed)
    then fail place bad_choice default
    else pure (some v)

codex_version : List Part → Option String → Checked String
codex_version place none = pure default_codex.version
codex_version place (some v) =
    if no_text v then fail place empty_value default_codex.version else pure v

codex_dpi : List Part → Option ℕ → Checked ℕ
unfolding is_within
codex_dpi place none = pure default_codex.pdf_dpi
codex_dpi place (some dpi) =
    if not (is_within 36 600 dpi) then fail place out_of_range default_codex.pdf_dpi else pure dpi

codex_pages : List Part → Option ℕ → Checked ℕ
codex_pages place none = pure default_codex.pdf_max_pages
codex_pages place (some pages) =
    if pages == 0 then fail place not_positive default_codex.pdf_max_pages else pure pages

codex_block : List Part → Option RawCodex → Checked CodexSettings
unfolding codex_choice codex_version codex_dpi codex_pages
codex_block place none = pure default_codex
codex_block place (some raw) = do
  version ← codex_version (place ++ (field "version" ∷ [])) raw.version
  effort ←
      codex_choice (place ++ (field "reasoning_effort" ∷ [])) efforts default_codex.reasoning_effort
        raw.reasoning_effort
  verbosity ←
      codex_choice (place ++ (field "verbosity" ∷ [])) verbosities default_codex.verbosity
        raw.verbosity
  dpi ← codex_dpi (place ++ (field "pdf_dpi" ∷ [])) raw.pdf_dpi
  pages ← codex_pages (place ++ (field "pdf_max_pages" ∷ [])) raw.pdf_max_pages
  pure (record {
    version = version;
    reasoning_effort = effort;
    verbosity = verbosity;
    pdf_dpi = dpi;
    pdf_max_pages = pages;
  })

some_codex : Checked CodexSettings → Checked (Option CodexSettings)
some_codex m = (m.0, some m.1)

unfoldable pub validate_codex :
    ProviderKind → RawProvider → List Part → Checked (Option CodexSettings)
unfolding codex_block some_codex
validate_codex kind rp place =
    let place' = place ++ (field "codex" ∷ []) in
    if not (same_kind kind codex_subscription)
    then (if is_some rp.codex then fail place' not_allowed none else pure none)
    else some_codex (codex_block place' rp.codex)
