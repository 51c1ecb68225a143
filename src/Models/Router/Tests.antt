-- ===== src/Models/Router/Tests.antt =====
-- A registry of two models.
use ryvan_os.Models.Registry.{
  ModelConfig, ModelProvider, ModelCapability, RoutingHints, ModelRequest, ModelProviderAdapter,
  is_capable,
}
use ryvan_os.Models.Router.{
  validate_request, estimate_cost, ModelRouter, select_model, chat, is_affordable, price,
}
use ryvan_os.Models.Router.Selecting.{select_model_lem, Eligible}
use ryvan_os.Models.Router.Falling.{sensitive_leaves}
use ryvan_os.Base.Map.{get, values}
use ryvan_os.Base.{
  ℕ, ◌≤◌, String, ◌≡◌, refl, Bool, true, false, none, some, [], ◌∷◌, Member, returns, returned,
  sort_by,
}

abbrev model : String → ℕ → ModelConfig
model id price_per_token = record {
  id = id;
  provider = ModelProvider.anthropic;
  name = id;
  context_window = 1000;
  max_output_tokens = 100;
  input_price_per_token = price_per_token;
  output_price_per_token = price_per_token;
  capabilities = ModelCapability.text ∷ [];
  is_local = false;
}

abbrev adapter : ModelProviderAdapter
adapter = record {
  provider = ModelProvider.anthropic;
  models = [];
  chat = λ request config. returned config.id;
}

abbrev router : ModelRouter
router = record {
  registry = record {
    models = ("big", model "big" 9) ∷ ("small", model "small" 2) ∷ [];
    providers = ("anthropic", adapter) ∷ [];
  };
  default_model = "big";
}

abbrev hints : Bool → RoutingHints
hints sensitive = record {
  prefer_local = false;
  max_cost_per_call = some 5000;
  required_capabilities = ModelCapability.text ∷ [];
  privacy_sensitive = sensitive;
  estimated_input_tokens = none;
}

cheapest : select_model router (hints false) ≡ returns (model "small" 2)
unfolding select_model sort_by estimate_cost
cheapest = refl

select_model_lem_example :
    Member (model "small" 2) (values router.registry.models)
    × (is_capable (ModelCapability.text ∷ []) (model "small" 2) ≡ true)
    × (is_affordable (hints false) (model "small" 2) ≡ true)
    × (false ≡ true → false ≡ true)
    × ((o : ModelConfig) → Eligible router (hints false) o → 4 ≤ price o)
select_model_lem_example = select_model_lem router (hints false) (model "small" 2) cheapest

abbrev request : ModelRequest
request = record {
  model = none;
  messages = "hello" ∷ [];
  temperature = none;
  max_tokens = none;
  routing_hints = some (hints true);
}

sensitive_leaves_example :
    (chat router request ≡ returns (model "big" 9, returned "big")) × (false ≡ false)
unfolding validate_request get
sensitive_leaves_example =
    sensitive_leaves router request (hints true) (model "big" 9) adapter refl refl refl refl
      (refl, (refl, tt)) refl refl
