-- ===== src/Config/Presets.antt =====
-- `ProviderKind` and `AuthMode` of crates/router-core/src/config/mod.rs, and `preset` of
-- crates/router-core/src/config/presets.rs: what a well-known provider name stands for.
use Prim.Native.String.{String}
use rapidrouter.Prelude.{ℕ, Bool, true, false, Option, none, some, ◌==◌, str_eq, if◌then◌else◌}

pub data ProviderKind : Type 0 where
  open_ai anthropic gemini azure bedrock vertex open_ai_compat : ProviderKind
  claude_subscription codex_subscription : ProviderKind

kind_index : ProviderKind → ℕ
kind_index open_ai = 0
kind_index anthropic = 1
kind_index gemini = 2
kind_index azure = 3
kind_index bedrock = 4
kind_index vertex = 5
kind_index open_ai_compat = 6
kind_index claude_subscription = 7
kind_index codex_subscription = 8

-- The derived equality.
unfoldable pub same_kind : ProviderKind → ProviderKind → Bool
unfolding kind_index
same_kind a b = kind_index a == kind_index b

pub data AuthMode : Type 0 where
  by_key unauthenticated : AuthMode

pub record Preset : Type 0 where
  pub kind : ProviderKind
  pub base_url : Option String
  pub discovery_env : Option String
  pub keyless_ok : Bool

open_ai_compat_preset : String → Option String → Preset
open_ai_compat_preset base_url discovery_env = record {
  kind = open_ai_compat;
  base_url = some base_url;
  discovery_env = discovery_env;
  keyless_ok = false;
}

plain : ProviderKind → Option String → Option String → Preset
plain kind base_url discovery_env = record {
  kind = kind;
  base_url = base_url;
  discovery_env = discovery_env;
  keyless_ok = false;
}

local_preset : String → Preset
local_preset base_url = record {
  kind = open_ai_compat;
  base_url = some base_url;
  discovery_env = none;
  keyless_ok = true;
}

unfoldable pub preset : String → Option Preset
unfolding open_ai_compat_preset plain local_preset
preset name =
    if str_eq name "openai"
    then some (plain open_ai (some "https://api.openai.com/v1") (some "OPENAI_API_KEY"))
    else if str_eq name "anthropic"
    then some (plain anthropic (some "https://api.anthropic.com") (some "ANTHROPIC_API_KEY"))
    else if str_eq name "gemini"
    then some
        (plain gemini (some "https://generativelanguage.googleapis.com") (some "GEMINI_API_KEY"))
    else if str_eq name "azure"
    then some (plain azure none none)
    else if str_eq name "bedrock"
    then some (plain bedrock none none)
    else if str_eq name "vertex"
    then some (plain vertex none none)
    else if str_eq name "databricks"
    then some (plain open_ai_compat none none)
    else if str_eq name "groq"
    then some (open_ai_compat_preset "https://api.groq.com/openai/v1" (some "GROQ_API_KEY"))
    else if str_eq name "mistral"
    then some (open_ai_compat_preset "https://api.mistral.ai/v1" (some "MISTRAL_API_KEY"))
    else if str_eq name "cerebras"
    then some (open_ai_compat_preset "https://api.cerebras.ai/v1" (some "CEREBRAS_API_KEY"))
    else if str_eq name "openrouter"
    then some (open_ai_compat_preset "https://openrouter.ai/api/v1" (some "OPENROUTER_API_KEY"))
    else if str_eq name "ollama"
    then some (local_preset "http://localhost:11434/v1")
    else if str_eq name "vllm"
    then some (local_preset "http://localhost:8000/v1")
    else none
