-- ===== src/Models/Registry.antt =====
-- packages/models/src/registry.ts and types.ts. Prices are whole units, so they are not negative;
-- what an adapter answers is a parameter, and messages and answers are opaque texts.
use ryvan_os.Base.Map.{Map, get, set, delete, has, values, keys}
use ryvan_os.Base.{
  ℕ, String, Bool, true, false, Option, List, [], ◌∷◌, ltb, ◌==◌, is_empty, option_case, keep_if,
  any, all, validation_error, conflict_error, Result, returns, ◌>>◌, throw_if, Outcome,
}

pub data ModelProvider : Type 0 where
  anthropic openai google ollama deepseek self_hosted : ModelProvider

abbrev pub provider_name : ModelProvider → String
provider_name anthropic = "anthropic"
provider_name openai = "openai"
provider_name google = "google"
provider_name ollama = "ollama"
provider_name deepseek = "deepseek"
provider_name self_hosted = "local"

pub data ModelCapability : Type 0 where
  text vision code reasoning embedding function_calling : ModelCapability

abbrev pub capability_eq : ModelCapability → ModelCapability → Bool
capability_eq text text = true
capability_eq vision vision = true
capability_eq code code = true
capability_eq reasoning reasoning = true
capability_eq embedding embedding = true
capability_eq function_calling function_calling = true
capability_eq _ _ = false

pub record ModelConfig : Type 0 where
  pub id : String
  pub provider : ModelProvider
  pub name : String
  pub context_window : ℕ
  pub max_output_tokens : ℕ
  pub input_price_per_token : ℕ
  pub output_price_per_token : ℕ
  pub capabilities : List ModelCapability
  pub is_local : Bool

pub record RoutingHints : Type 0 where
  pub prefer_local : Bool
  pub max_cost_per_call : Option ℕ
  pub required_capabilities : List ModelCapability
  pub privacy_sensitive : Bool
  pub estimated_input_tokens : Option ℕ

-- The temperature is in hundredths.
pub record ModelRequest : Type 0 where
  pub model : Option String
  pub messages : List String
  pub temperature : Option ℕ
  pub max_tokens : Option ℕ
  pub routing_hints : Option RoutingHints

pub record ModelProviderAdapter : Type 0 where
  pub provider : ModelProvider
  pub models : List ModelConfig
  pub chat : ModelRequest → ModelConfig → Outcome String

pub record ModelRegistry : Type 0 where
  pub models : Map ModelConfig
  pub providers : Map ModelProviderAdapter

abbrev delete_models : List ModelConfig → Map ModelConfig → Map ModelConfig
delete_models [] m = m
delete_models (c ∷ cs) m = delete_models cs (delete m c.id)

abbrev set_models : List ModelConfig → Map ModelConfig → Map ModelConfig
set_models [] m = m
set_models (c ∷ cs) m = set_models cs (set m c.id c)

unfoldable pub register_provider : ModelRegistry → ModelProviderAdapter → ModelRegistry
register_provider r adapter =
    let name = provider_name adapter.provider in
    let kept =
      option_case (get r.providers name) r.models
        (λ (old : ModelProviderAdapter). delete_models old.models r.models) in
    record { models = set_models adapter.models kept; providers = set r.providers name adapter }

unfoldable pub register_model : ModelRegistry → ModelConfig → Result ModelRegistry
register_model r config =
    throw_if (is_empty config.id) (validation_error "id")
    >> throw_if (ltb config.context_window 1) (validation_error "contextWindow")
    >> throw_if (has r.models config.id) (conflict_error config.id)
    >> returns (record r { models = set r.models config.id config })

abbrev pub get_model : ModelRegistry → String → Option ModelConfig
get_model r = get r.models

abbrev pub get_provider : ModelRegistry → ModelProvider → Option ModelProviderAdapter
get_provider r provider = get r.providers (provider_name provider)

-- `required.every((cap) => capabilities.includes(cap))`, true when nothing is required.
abbrev pub is_capable : List ModelCapability → ModelConfig → Bool
is_capable required m = all (λ cap. any (λ c. capability_eq c cap) m.capabilities) required

abbrev pub list_models :
    ModelRegistry → Option ModelProvider → List ModelCapability → List ModelConfig
list_models r provider required = keep_if (is_capable required) (
    option_case provider (values r.models) (λ p.
      keep_if (λ (m : ModelConfig). provider_name m.provider == provider_name p) (values r.models)))

abbrev pub list_providers : ModelRegistry → List String
list_providers r = keys r.providers
