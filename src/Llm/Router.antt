-- ===== src/Llm/Router.antt =====
-- cafe-llm/src/backends/router.rs and cafe-types/src/models.rs: the choice of a backend, and the
-- catalog of models, which cafe-llm/src/bus_client.rs publishes.
--
-- A backend is opaque; `listing` is what it answers when it is asked for its models, `none` if it fails.
-- `none` as an entry stands for the panic of `entries[0]` without entries. Texts are compared by their
-- characters' numbers, as Rust compares them by their bytes.
pub mod Offers
pub mod Catalog
use Prim.Native.Char.{Char, code}
use Prim.Native.Nat.{Ordering}
use Prim.Native.String
use observable_cafev.Base.{
  ℕ, zero, suc, ◌-◌, String, Bool, true, false, ◌&&◌, ◌||◌, Option, none, some, List, [], ◌∷◌, ◌++◌,
  map, ◌==◌, leb, filter, contains, map_or, unwrap_or, if◌then◌else◌,
}
use observable_cafev.Tags.{is_whitespace}

-- `text.trim_start()`
unfoldable pub trim_start : String → String
unfolding is_whitespace
trim_start String.[] = ""
trim_start (String.◌∷◌ c s) = if is_whitespace (code c) then trim_start s else String.◌∷◌ c s

abbrev keep_char : Bool → Char → String → String
keep_char white c String.[] = if white then "" else String.◌∷◌ c String.[]
keep_char white c (String.◌∷◌ d s) = String.◌∷◌ c (String.◌∷◌ d s)

-- `text.trim_end()`
unfoldable pub trim_end : String → String
unfolding is_whitespace
trim_end String.[] = ""
trim_end (String.◌∷◌ c s) = keep_char (is_whitespace (code c)) c (trim_end s)

abbrev letter : ℕ → String → Char → Char
letter n String.[] c = c
letter zero (String.◌∷◌ d s) c = d
letter (suc n) (String.◌∷◌ d s) c = letter n s c

-- `text.to_ascii_lowercase()`
unfoldable pub to_ascii_lowercase : String → String
to_ascii_lowercase String.[] = ""
to_ascii_lowercase (String.◌∷◌ c s) =
    String.◌∷◌
      (if leb 65 (code c) && leb (code c) 90
        then letter (code c - 65) "abcdefghijklmnopqrstuvwxyz" c
        else c)
      (to_ascii_lowercase s)

abbrev alias : String → String
alias name = if name == "opencode_go" || name == "opencodego" then "opencode-go" else name

unfoldable pub normalize : String → String
unfolding trim_start trim_end to_ascii_lowercase
normalize name = alias (to_ascii_lowercase (trim_end (trim_start name)))

-- `models.sort()`
abbrev le_text : Ordering → Bool
le_text Ordering.gt = false
le_text _ = true

unfoldable pub insert_sorted : String → List String → List String
insert_sorted t [] = t ∷ []
insert_sorted t (u ∷ us) =
    let later = insert_sorted t us in if le_text (String.compare t u) then t ∷ u ∷ us else u ∷ later

unfoldable pub sort : List String → List String
unfolding insert_sorted
sort [] = []
sort (t ∷ ts) = insert_sorted t (sort ts)

-- `models.dedup()`
unfoldable pub dedup_from : String → List String → List String
dedup_from t [] = t ∷ []
dedup_from t (u ∷ us) =
    let same = dedup_from t us in let other = dedup_from u us in if t == u then same else t ∷ other

unfoldable pub dedup : List String → List String
unfolding dedup_from
dedup [] = []
dedup (t ∷ ts) = dedup_from t ts

pub record BackendModels : Type 0 where
  pub backend : String
  pub default_model : Option String
  pub models : List String

pub record ModelCatalog : Type 0 where
  pub default_backend : Option String
  pub backends : List BackendModels

abbrev pub flat_models : List BackendModels → List String
flat_models [] = []
flat_models (b ∷ bs) = b.models ++ flat_models bs

unfoldable pub all_models : ModelCatalog → List String
unfolding sort dedup
all_models catalog = dedup (sort (flat_models catalog.backends))

abbrev pub first {ℓ} : {A : Type ℓ} → List A → Option A
first [] = none
first (x ∷ xs) = some x

-- `option.or(other)`
abbrev pub or {ℓ} : {A : Type ℓ} → Option A → Option A → Option A
or none other = other
or (some a) other = some a

-- the backends that serve the model
abbrev pub candidates : ModelCatalog → String → List BackendModels
candidates catalog model = filter (λ b. contains b.models model) catalog.backends

unfoldable pub backend_for : ModelCatalog → String → Option String → Option BackendModels
backend_for catalog model preferred =
    let found = candidates catalog model in
    map_or preferred (first found)
      (λ name. or (first (filter (λ b. b.backend == name) found)) (first found))

-- the models of a backend that answers
unfoldable pub sorted_models : Option (List String) → List String
unfolding sort dedup
sorted_models none = []
sorted_models (some models) = dedup (sort models)

module _ (Backend : Type 0) where
  pub record BackendEntry : Type 0 where
    pub name : String
    pub backend : Backend
    pub default_model : Option String

  pub record BackendRouter : Type 0 where
    pub entries : List BackendEntry
    pub default_name : String

module _ {Backend : Type 0} where
  unfoldable pub new_entries : List (BackendEntry Backend) → List (BackendEntry Backend)
  unfolding normalize
  new_entries [] = []
  new_entries (e ∷ es) = record e { name = normalize e.name } ∷ new_entries es

  -- `none` is the panic of the assertion
  unfoldable pub new : String → List (BackendEntry Backend) → Option (BackendRouter Backend)
  unfolding new_entries normalize
  new default_name [] = none
  new default_name (e ∷ es) =
      some (record { entries = new_entries (e ∷ es); default_name = normalize default_name })

  -- `entries.iter().find(|e| e.name == name)`
  unfoldable pub find : String → List (BackendEntry Backend) → Option (BackendEntry Backend)
  find name [] = none
  find name (e ∷ es) = if e.name == name then some e else find name es

  unfoldable pub default_entry : BackendRouter Backend → Option (BackendEntry Backend)
  unfolding find
  default_entry router = or (find router.default_name router.entries) (first router.entries)

  unfoldable pub resolve : BackendRouter Backend → Option String → Option (BackendEntry Backend)
  unfolding default_entry find normalize
  resolve router none = default_entry router
  resolve router (some requested) =
      if requested == ""
      then default_entry router
      else or (find (normalize requested) router.entries) (default_entry router)

  unfoldable pub default_backend : BackendRouter Backend → Option (String × Option String)
  unfolding default_entry
  default_backend router = map_or (default_entry router) none (λ e. some (e.name, e.default_model))

  module _ (listing : Backend → Option (List String)) where
    unfoldable pub backend_models : BackendEntry Backend → BackendModels
    unfolding sorted_models
    backend_models e = record {
      backend = e.name;
      default_model = e.default_model;
      models = sorted_models (listing e.backend);
    }

    abbrev pub flat_listings : List (BackendEntry Backend) → List String
    flat_listings [] = []
    flat_listings (e ∷ es) = unwrap_or (listing e.backend) [] ++ flat_listings es

    unfoldable pub list_models : BackendRouter Backend → List String
    unfolding sort dedup
    list_models router = dedup (sort (flat_listings router.entries))

    unfoldable pub list_backends : List (BackendEntry Backend) → List BackendModels
    unfolding backend_models
    list_backends [] = []
    list_backends (e ∷ es) = backend_models e ∷ list_backends es

    -- the catalog that is published
    unfoldable pub catalog : BackendRouter Backend → ModelCatalog
    unfolding default_backend list_backends
    catalog router = record {
      default_backend = map_or (default_backend router) none (λ (name, model). some name);
      backends = list_backends router.entries;
    }

  unfoldable pub default_model_for : BackendRouter Backend → Option String → Option String
  unfolding resolve
  default_model_for router requested = map_or (resolve router requested) none (λ e. e.default_model)
