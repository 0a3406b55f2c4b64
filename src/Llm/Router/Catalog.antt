-- ===== src/Llm/Router/Catalog.antt =====
-- A model that the catalog offers is served by the backend that a session selects for it.
use observable_cafev.Base.{
  String, ◌≡◌, refl, ap, ◌∙◌, sym, true, false, ◌||◌, Option, none, some, List, [], ◌∷◌, ◌==◌,
  contains, All, unwrap_or, arith, some_inj, subst, eq_refl, All-filter, filter_all, Option-cases,
  inl, inr,
}
use observable_cafev.Llm.Router.{
  sort, BackendModels, flat_models, all_models, candidates, backend_for, normalize, BackendEntry,
  BackendRouter, new_entries, new, find, resolve, backend_models, list_backends, catalog,
  sorted_models, list_models, flat_listings,
}
use observable_cafev.Llm.Router.Offers.{
  contains-sort, contains-dedup, contains-append, serving-exists, All-both, backend_for-All,
  absurd-of, Honours,
}

module _ {Backend : Type 0} where
  abbrev pub Distinct : List (BackendEntry Backend) → Type 0
  Distinct [] = Unit
  Distinct (e ∷ es) = All (λ f. (e.name == f.name) ≡ false) es × Distinct es

  -- the name is in normal form, and a session can select it
  abbrev pub IsNamed : BackendEntry Backend → Type 0
  IsNamed e = (normalize e.name ≡ e.name) × ((e.name == "") ≡ false)

  find_self :
      (es : List (BackendEntry Backend)) → Distinct es → All (λ e. find e.name es ≡ some e) es
  unfolding find
  find_self [] d = tt
  find_self (e ∷ es) (fresh, d) = (
    rw (eq_refl e.name) refl,
    All-both (λ f. (e.name == f.name) ≡ false) (λ f. find f.name es ≡ some f)
        (λ f. find f.name (e ∷ es) ≡ some f) es (λ f other found. rw (other) found) fresh
        (find_self es d),
  )

  new_entries_self : (es : List (BackendEntry Backend)) → All IsNamed es → new_entries es ≡ es
  unfolding new_entries
  new_entries_self [] h = refl
  new_entries_self (e ∷ es) ((normal, _), h) =
      ap (λ n. record e { name = n } ∷ new_entries es) normal
      ∙ ap (λ l. e ∷ l) (new_entries_self es h)

  resolve_self :
      (router : BackendRouter Backend) (e : BackendEntry Backend)
      → IsNamed e
      → find e.name router.entries ≡ some e
      → resolve router (some e.name) ≡ some e
  unfolding resolve
  resolve_self router e (normal, named) found = rw (named, normal, found) refl

  module _ (listing : Backend → Option (List String)) where
    abbrev pub Serves : String → BackendEntry Backend → Type 0
    Serves m e =
        (models : List String) × (listing e.backend ≡ some models) × (contains models m ≡ true)

    backend_models-Serves :
        (m : String) (e : BackendEntry Backend)
        → contains (backend_models listing e).models m ≡ true
        → Serves m e
    unfolding backend_models sorted_models
    backend_models-Serves m e h = elim (Option-cases (listing e.backend)) [
      | inl failed ↦ absurd-of (ap (λ o. contains (sorted_models o) m) failed) h
      | inr (models, listed) ↦ (
        models,
        listed,
        sym (contains-sort m models)
            ∙ sym (contains-dedup m (sort models))
            ∙ sym (ap (λ o. contains (sorted_models o) m) listed)
            ∙ h,
      )
    ]

    All-list_backends :
        (P : BackendModels → Type 0) (es : List (BackendEntry Backend))
        → All (λ e. P (backend_models listing e)) es
        → All P (list_backends listing es)
    unfolding list_backends
    All-list_backends P [] h = tt
    All-list_backends P (e ∷ es) h = (h.0, All-list_backends P es h.1)

    abbrev pub Reaches : BackendRouter Backend → String → BackendModels → Type 0
    Reaches router m b =
        (e : BackendEntry Backend) × (resolve router (some b.backend) ≡ some e)
        × (e.default_model ≡ b.default_model)
        × Serves m e

    entry-Reaches :
        (router : BackendRouter Backend) (m : String) (e : BackendEntry Backend)
        → IsNamed e
        → find e.name router.entries ≡ some e
        → contains (backend_models listing e).models m ≡ true
        → Reaches router m (backend_models listing e)
    unfolding backend_models
    entry-Reaches router m e named found serves =
        (e, resolve_self router e named found, refl, backend_models-Serves m e serves)

    candidates-Reaches :
        (router : BackendRouter Backend) (m : String)
        → All IsNamed router.entries
        → Distinct router.entries
        → All (Reaches router m) (candidates (catalog listing router) m)
    unfolding catalog
    candidates-Reaches router m named distinct =
        let serves : BackendModels → Type 0 = λ b. contains b.models m ≡ true in
        let backends = list_backends listing router.entries in
        All-both (λ b. serves b → Reaches router m b) serves (Reaches router m)
          (candidates (catalog listing router) m) (λ b reaches h. reaches h)
          (All-filter (λ b. serves b → Reaches router m b) (λ b. contains b.models m) backends
            (All-list_backends (λ b. serves b → Reaches router m b) router.entries
              (All-both IsNamed (λ e. find e.name router.entries ≡ some e)
                (λ e.
                  serves (backend_models listing e) → Reaches router m (backend_models listing e))
                router.entries (entry-Reaches router m) named (find_self router.entries distinct))))
          (filter_all (λ b. contains b.models m) backends)

    new-entries :
        (default_name : String) (given : List (BackendEntry Backend))
        (router : BackendRouter Backend)
        → All IsNamed given
        → new default_name given ≡ some router
        → given ≡ router.entries
    unfolding new
    new-entries default_name [] router named e = ground arith
    new-entries default_name (g ∷ given) router named e =
        sym (new_entries_self (g ∷ given) named) ∙ ap (λ r. r.entries) (some_inj e)

    contains-sorted_models :
        (m : String) (o : Option (List String))
        → contains (sorted_models o) m ≡ contains (unwrap_or o []) m
    unfolding sorted_models
    contains-sorted_models m none = refl
    contains-sorted_models m (some models) = contains-dedup m (sort models) ∙ contains-sort m models

    contains-flat_listings :
        (m : String) (es : List (BackendEntry Backend))
        → contains (flat_models (list_backends listing es)) m
          ≡ contains (flat_listings listing es) m
    unfolding list_backends backend_models
    contains-flat_listings m [] = refl
    contains-flat_listings m (e ∷ es) =
        let answer = listing e.backend in
        contains-append m (sorted_models answer) (flat_models (list_backends listing es))
        ∙ ap (λ b. b || contains (flat_models (list_backends listing es)) m)
            (contains-sorted_models m answer)
        ∙ ap (λ b. contains (unwrap_or answer []) m || b) (contains-flat_listings m es)
        ∙ sym (contains-append m (unwrap_or answer []) (flat_listings listing es))

    -- the flat list and the catalog offer the same models
    contains-list_models :
        (m : String) (router : BackendRouter Backend)
        → contains (list_models listing router) m ≡ contains (all_models (catalog listing router)) m
    unfolding list_models all_models catalog
    contains-list_models m router =
        let flat = flat_listings listing router.entries in
        let offered = flat_models (list_backends listing router.entries) in
        contains-dedup m (sort flat)
        ∙ contains-sort m flat
        ∙ sym (contains-flat_listings m router.entries)
        ∙ sym (contains-sort m offered)
        ∙ sym (contains-dedup m (sort offered))

    -- Where the backends are given to the router under distinct names, in normal form and not empty, and
    -- each answers every listing of its models alike: for each model of the router's flat list, the
    -- published catalog has the model too and names a backend for it, the preferred one if that serves
    -- the model. A session that selects this backend's name is routed to a backend whose listing
    -- succeeded and has the model, and whose default model is the one in the catalog.
    pub backend_for-Reaches :
        (default_name m : String) (preferred : Option String) (given : List (BackendEntry Backend))
        (router : BackendRouter Backend)
        → All IsNamed given
        → Distinct given
        → new default_name given ≡ some router
        → contains (list_models listing router) m ≡ true
        → (contains (all_models (catalog listing router)) m ≡ true)
          × (b : BackendModels) × (backend_for (catalog listing router) m preferred ≡ some b)
          × Reaches router m b
          × Honours preferred (candidates (catalog listing router) m) b
    unfolding all_models
    backend_for-Reaches default_name m preferred given router named distinct made listed =
        let same = new-entries default_name given router named made in
        let cat = catalog listing router in
        let offered = sym (contains-list_models m router) ∙ listed in
        let (b, found, reaches, honours) =
          backend_for-All (Reaches router m) cat m preferred
            (candidates-Reaches router m (subst (All IsNamed) same named)
              (subst Distinct same distinct))
            (serving-exists m cat.backends (
              sym (contains-sort m (flat_models cat.backends))
              ∙ sym (contains-dedup m (sort (flat_models cat.backends)))
              ∙ offered)) in
        (offered, b, found, reaches, honours)
