-- ===== src/Llm/Router/Offers.antt =====
-- What sorting and joining do to a list of models, and the backend that a catalog names for a model.
use observable_cafev.Base.{
  String, ◌≡◌, refl, ap, ◌∙◌, sym, Bool, true, false, ◌||◌, Option, none, some, List, [], ◌∷◌, ◌++◌,
  ◌==◌, eq_iff, filter, contains, any, All, arith, some_inj, subst, All-filter, filter_all,
  Bool-cases, Option-cases, inl, inr,
}
use observable_cafev.Llm.Router.{
  insert_sorted, sort, dedup_from, dedup, BackendModels, ModelCatalog, flat_models, first, or,
  candidates, backend_for,
}

contains-insert_sorted :
    (m t : String) (us : List String) → contains (insert_sorted t us) m ≡ (t == m || contains us m)
unfolding insert_sorted
contains-insert_sorted m t [] = refl
contains-insert_sorted m t (u ∷ us) = ground (arith, contains-insert_sorted m t us)

pub contains-sort : (m : String) (ts : List String) → contains (sort ts) m ≡ contains ts m
unfolding sort
contains-sort m [] = refl
contains-sort m (t ∷ ts) =
    contains-insert_sorted m t (sort ts) ∙ ap (λ b. t == m || b) (contains-sort m ts)

absorbed : (a b : Bool) → (a || (a || b)) ≡ (a || b)
absorbed true b = refl
absorbed false b = refl

contains-dedup_from :
    (m t : String) (us : List String) → contains (dedup_from t us) m ≡ (t == m || contains us m)
unfolding dedup_from
contains-dedup_from m t [] = refl
contains-dedup_from m t (u ∷ us) = elim (Bool-cases (t == u)) [
  | inl same ↦ rw (same) (
      contains-dedup_from m t us
      ∙ sym (absorbed (t == m) (contains us m))
      ∙ ap (λ v. t == m || (v == m || contains us m)) ((eq_iff t u).0 same))
  | inr other ↦ rw (other) (ap (λ b. t == m || b) (contains-dedup_from m u us))
]

pub contains-dedup : (m : String) (ts : List String) → contains (dedup ts) m ≡ contains ts m
unfolding dedup
contains-dedup m [] = refl
contains-dedup m (t ∷ ts) = contains-dedup_from m t ts

pub contains-append :
    (m : String) (ts us : List String) → contains (ts ++ us) m ≡ (contains ts m || contains us m)
contains-append m [] us = refl
contains-append m (t ∷ ts) us = ground (arith, contains-append m ts us)

-- some backend of the list serves the model
pub serving-exists :
    (m : String) (bs : List BackendModels)
    → contains (flat_models bs) m ≡ true
    → (b : BackendModels) × (first (filter (λ b. contains b.models m) bs) ≡ some b)
serving-exists m [] h = ground arith
serving-exists m (b ∷ bs) h = elim (Bool-cases (contains b.models m)) [
  | inl serves ↦ rw (serves) (b, refl)
  | inr not_here ↦ rw (not_here) (
      serving-exists m bs (
        sym (ap (λ x. x || contains (flat_models bs) m) not_here)
        ∙ sym (contains-append m b.models (flat_models bs))
        ∙ h))
]

first-All {ℓ κ} :
    {A : Type ℓ} (P : A → Type κ) (xs : List A) (x : A) → All P xs → first xs ≡ some x → P x
first-All P [] x all e = ground arith
first-All P (y ∷ ys) x all e = subst P (some_inj e) all.0

pub absurd-of : {A : Type 0} {a : Bool} → a ≡ false → a ≡ true → A
absurd-of e h = ground (arith, e, h)

first-any {ℓ} :
    {A : Type ℓ} (p : A → Bool) (xs : List A) → first (filter p xs) ≡ none → any p xs ≡ false
first-any p [] e = refl
first-any p (x ∷ xs) e = ground (arith, first-any p xs)

pub All-both {ℓ κ μ ν} :
    {A : Type ℓ} (P : A → Type κ) (Q : A → Type μ) (R : A → Type ν) (xs : List A)
    → ((x : A) → P x → Q x → R x)
    → All P xs
    → All Q xs
    → All R xs
All-both P Q R [] f ps qs = tt
All-both P Q R (x ∷ xs) f ps qs = (f x ps.0 qs.0, All-both P Q R xs f ps.1 qs.1)

-- the backend is the one that is preferred, if that is among those found
abbrev pub Honours : Option String → List BackendModels → BackendModels → Type 0
Honours none found b = Unit
Honours (some name) found b = any (λ c. c.backend == name) found ≡ true → b.backend == name ≡ true

-- what holds of all backends that serve the model holds of the one that is chosen
pub backend_for-All :
    (P : BackendModels → Type 0) (cat : ModelCatalog) (m : String) (preferred : Option String)
    → All P (candidates cat m)
    → (b : BackendModels) × (first (candidates cat m) ≡ some b)
    → (b : BackendModels) × (backend_for cat m preferred ≡ some b)
      × P b
      × Honours preferred (candidates cat m) b
unfolding backend_for
backend_for-All P cat m none all (b, e) = (b, e, first-All P (candidates cat m) b all e, tt)
backend_for-All P cat m (some name) all (b, e) =
    elim (Option-cases (first (filter (λ c. c.backend == name) (candidates cat m)))) [
      | inl absent ↦ (
        b,
        ap (λ o. or o (first (candidates cat m))) absent ∙ e,
        first-All P (candidates cat m) b all e,
        λ present.
            ground (arith, first-any (λ c. c.backend == name) (candidates cat m) absent, present),
      )
      | inr (c, found) ↦ (
        c,
        ap (λ o. or o (first (candidates cat m))) found,
        first-All P (filter (λ c. c.backend == name) (candidates cat m)) c
            (All-filter P (λ c. c.backend == name) (candidates cat m) all) found,
        λ _.
            first-All (λ c. c.backend == name ≡ true)
              (filter (λ c. c.backend == name) (candidates cat m)) c
              (filter_all (λ c. c.backend == name) (candidates cat m)) found,
      )
    ]
