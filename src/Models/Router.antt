-- ===== src/Models/Router.antt =====
-- packages/models/src/router.ts. Events and measured times are left out; costs are whole units.
pub mod Selecting
pub mod Falling
pub mod Tests
use ryvan_os.Models.Registry.{
  ModelConfig, RoutingHints, ModelRequest, ModelRegistry, get_model, get_provider, is_capable,
  list_models,
}
use ryvan_os.Base.{
  ℕ, ◌+◌, ◌*◌, ◌/◌, min, String, Bool, true, false, Option, none, List, [], ◌∷◌, ltb, leb,
  if◌then◌else◌, or_default, option_case, length, keep_if, Result, throws, returns, ◌>>◌, throw_if,
  Outcome, sort_by, model_error,
}

pub record ModelRouter : Type 0 where
  pub registry : ModelRegistry
  pub default_model : String

abbrev is_over : Option ℕ → ℕ → Bool
is_over value bound = option_case value false (λ v. ltb bound v)

abbrev is_zero : Option ℕ → Bool
is_zero value = option_case value false (λ v. ltb v 1)

unfoldable pub validate_request : ModelRequest → Result (Unit {0})
validate_request request =
    throw_if (ltb (length request.messages) 1) (model_error "request")
    >> throw_if (is_over request.temperature 200) (model_error "request")
    >> throw_if (is_zero request.max_tokens) (model_error "request")
    >> returns tt

-- `Math.round(maxOutputTokens * 0.25)` rounds a half up.
unfoldable pub estimate_cost : ModelConfig → ℕ → ℕ
estimate_cost m input_tokens =
    let output_tokens = min ((m.max_output_tokens + 2) / 4) input_tokens in
    m.input_price_per_token * input_tokens + m.output_price_per_token * output_tokens

abbrev pub is_affordable : RoutingHints → ModelConfig → Bool
is_affordable hints m =
    option_case hints.max_cost_per_call true
      (λ most. leb (estimate_cost m (or_default hints.estimated_input_tokens 1000)) most)

abbrev local_of : ModelConfig → Bool
local_of m = m.is_local

-- The local ones if there are any.
abbrev preferring_local : List ModelConfig → List ModelConfig
preferring_local models =
    let locals = keep_if local_of models in if ltb 0 (length locals) then locals else models

abbrev placed : RoutingHints → List ModelConfig → List ModelConfig
placed hints models =
    if hints.privacy_sensitive
    then keep_if local_of models
    else if hints.prefer_local
    then preferring_local models
    else models

unfoldable pub candidates : ModelRouter → RoutingHints → List ModelConfig
candidates r hints = keep_if (is_affordable hints) (
    placed hints
      (keep_if (is_capable hints.required_capabilities) (list_models r.registry none [])))

abbrev pub price : ModelConfig → ℕ
price m = m.input_price_per_token + m.output_price_per_token

abbrev first_model : List ModelConfig → Result ModelConfig
first_model [] = throws (model_error "none")
first_model (m ∷ ms) = returns m

unfoldable pub select_model : ModelRouter → RoutingHints → Result ModelConfig
unfolding candidates
select_model r hints = first_model (sort_by price (candidates r hints))

abbrev selected_id : ModelRouter → Result ModelConfig → String
selected_id r (throws e) = r.default_model
selected_id r (returns m) = m.id

unfoldable pub resolve_model_id : ModelRouter → Option RoutingHints → String
unfolding select_model
resolve_model_id r hints = option_case hints r.default_model (λ h. selected_id r (select_model r h))

-- The model that is called, and what its adapter answers.
unfoldable pub chat : ModelRouter → ModelRequest → Result (ModelConfig × Outcome String)
unfolding validate_request resolve_model_id
chat r request =
    let model_id = or_default request.model (resolve_model_id r request.routing_hints) in
    let answer : Result (ModelConfig × Outcome String) =
      option_case (get_model r.registry model_id) (throws (model_error model_id)) (λ config.
        option_case (get_provider r.registry config.provider) (throws (model_error model_id))
          (λ adapter. returns (config, adapter.chat request config))) in
    validate_request request >> answer
