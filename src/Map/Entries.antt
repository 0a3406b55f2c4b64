-- ===== src/Map/Entries.antt =====
-- Facts about all entries of a map, and that no key has two.
use observable_cafev.Base.{
  ◌≡◌, refl, String, false, some, [], ◌∷◌, arith, ◌==◌, eq_iff, Bool-cases, inl, inr, subst,
}
use observable_cafev.Map.{Map, contains_key, get, insert, remove, get-insert, get-remove}

module _ {ℓ} {V : Type ℓ} where
  abbrev pub Distinct : Map V → Type 0
  Distinct [] = Unit
  Distinct ((k, v) ∷ m) = (contains_key m k ≡ false) × Distinct m

  abbrev pub Entries {κ} : (String → V → Type κ) → Map V → Type κ
  Entries Q [] = Unit
  Entries Q ((k, v) ∷ m) = Q k v × Entries Q m

module _ {ℓ} {V : Type ℓ} where
  pub insert-Distinct : (m : Map V) (k : String) (v : V) → Distinct m → Distinct (insert m k v)
  insert-Distinct [] k v h = (refl, tt)
  insert-Distinct ((j, w) ∷ m) k v h =
      ground (arith, eq_iff j k, eq_iff k j, get-insert m k v j, insert-Distinct m k v h.1)

  pub remove-Distinct : (m : Map V) (k : String) → Distinct m → Distinct (remove m k)
  remove-Distinct [] k h = tt
  remove-Distinct ((j, w) ∷ m) k h =
      ground (arith, eq_iff j k, eq_iff k j, get-remove m k j, remove-Distinct m k h.1)

module _ {ℓ κ} {V : Type ℓ} (Q : String → V → Type κ) where
  pub insert-Entries :
      (m : Map V) (k : String) (v : V) → Q k v → Entries Q m → Entries Q (insert m k v)
  insert-Entries [] k v q h = (q, tt)
  insert-Entries ((j, w) ∷ m) k v q h = ground (arith, insert-Entries m k v q h.1)

  pub remove-Entries : (m : Map V) (k : String) → Entries Q m → Entries Q (remove m k)
  remove-Entries [] k h = tt
  remove-Entries ((j, w) ∷ m) k h = ground (arith, remove-Entries m k h.1)

  pub get-Entries : (m : Map V) (k : String) {v : V} → get m k ≡ some v → Entries Q m → Q k v
  get-Entries [] k e h = cc
  get-Entries ((j, w) ∷ m) k {v} e h = elim (Bool-cases (j == k)) [
    | inl same ↦ subst (λ i. Q i v) ((eq_iff j k).0 same) (subst (Q j) (ground arith) h.0)
    | inr other ↦ get-Entries m k (ground arith) h.1
  ]
