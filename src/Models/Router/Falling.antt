-- ===== src/Models/Router/Falling.antt =====
-- packages/models/src/router.ts: what happens to a request that no model fits.
use ryvan_os.Models.Router.Selecting.{select_model_lem}
use ryvan_os.Models.Registry.{
  ModelConfig, RoutingHints, ModelRequest, ModelProviderAdapter, get_model, get_provider,
}
use ryvan_os.Models.Router.{select_model, resolve_model_id, ModelRouter, chat, validate_request}
use ryvan_os.Base.Map.{All-values-get, values}
use ryvan_os.Base.{
  ◌≡◌, refl, ◌⊎◌, inl, inr, true, false, none, some, All, All-member, Error, Result, throws,
  returns,
}

Result-cases :
    {A : Type 0} (x : Result A) → ((e : Error) × (x ≡ throws e)) ⊎ ((a : A) × (x ≡ returns a))
Result-cases (throws e) = inl (e, refl)
Result-cases (returns a) = inr (a, refl)

falls_back :
    (r : ModelRouter) (hints : RoutingHints)
    → hints.privacy_sensitive ≡ true
    → All (λ (m : ModelConfig). m.is_local ≡ false) (values r.registry.models)
    → resolve_model_id r (some hints) ≡ r.default_model
unfolding resolve_model_id
falls_back r hints sensitive remote = elim (Result-cases (select_model r hints)) [
  | inl (e, none_fits) ↦ rw none_fits refl
  | inr (m, picked) ↦
      let (known, able, affordable, is_local, least) = select_model_lem r hints m picked in
      let no : m.is_local ≡ false =
        All-member (λ (o : ModelConfig). o.is_local ≡ false) remote known in
      let yes = is_local sensitive in cc
]

-- When no registered model is local, a valid request that names no model and is marked as sensitive
-- goes to the default model, if that is registered with its provider, and it is not local.
pub sensitive_leaves :
    (r : ModelRouter) (request : ModelRequest) (hints : RoutingHints) (config : ModelConfig)
    (adapter : ModelProviderAdapter)
    → validate_request request ≡ returns tt
    → request.model ≡ none
    → request.routing_hints ≡ some hints
    → hints.privacy_sensitive ≡ true
    → All (λ (m : ModelConfig). m.is_local ≡ false) (values r.registry.models)
    → get_model r.registry r.default_model ≡ some config
    → get_provider r.registry config.provider ≡ some adapter
    → (chat r request ≡ returns (config, adapter.chat request config)) × (config.is_local ≡ false)
unfolding chat
sensitive_leaves r request hints config adapter valid unnamed hinted sensitive remote found
      offered =
    (
      rw (valid, unnamed, hinted, falls_back r hints sensitive remote, found, offered) refl,
      All-values-get (λ (m : ModelConfig). m.is_local ≡ false) r.registry.models r.default_model
          remote found,
    )
