-- ===== src/Examples/Models.antt =====
-- The backends of cafe-llm/src/main.rs with concrete models. A backend is the models that it lists.
use observable_cafev.Base.{String, ◌≡◌, refl, true, Option, none, some, List, [], ◌∷◌, contains}
use observable_cafev.Llm.Router.{
  BackendModels, BackendEntry, BackendRouter, all_models, list_models, catalog, candidates,
  backend_for, normalize, new, default_model_for,
}
use observable_cafev.Llm.Router.Catalog.{Reaches, backend_for-Reaches}
use observable_cafev.Llm.Router.Offers.{Honours}

abbrev Backend : Type 0
Backend = Option (List String)

abbrev listing : Backend → Option (List String)
listing b = b

abbrev given : List (BackendEntry Backend)
given =
    record {
      name = "ollama";
      backend = some ("shared" ∷ "gemma" ∷ []);
      default_model = some "gemma";
    }
    ∷ record { name = "openai"; backend = none; default_model = some "ornith" }
    ∷ record {
      name = "opencode-go";
      backend = some ("shared" ∷ "deep" ∷ "deep" ∷ []);
      default_model = some "deep";
    }
    ∷ []

abbrev router : BackendRouter Backend
router = record { entries = given; default_name = "ollama" }

normalize_test : normalize " OpenCode_Go " ≡ "opencode-go"
unfolding normalize
normalize_test = refl

list_models_test : list_models listing router ≡ "deep" ∷ "gemma" ∷ "shared" ∷ []
unfolding list_models
list_models_test = refl

default_model_for_test : default_model_for router (some "OpenCodeGo") ≡ some "deep"
unfolding default_model_for
default_model_for_test = refl

unknown_test : default_model_for router (some "nope") ≡ some "gemma"
unfolding default_model_for
unknown_test = refl

backend_for-Reaches_example :
    (contains (all_models (catalog listing router)) "shared" ≡ true)
    × (b : BackendModels) × (backend_for (catalog listing router) "shared" (some "opencode-go")
        ≡ some b)
    × Reaches listing router "shared" b
    × Honours (some "opencode-go") (candidates (catalog listing router) "shared") b
unfolding new normalize list_models
backend_for-Reaches_example =
    backend_for-Reaches listing "ollama" "shared" (some "opencode-go") given router
      ((refl, refl), ((refl, refl), ((refl, refl), tt)))
      ((refl, (refl, tt)), ((refl, tt), (tt, tt))) refl refl
