-- ===== src/Map.antt =====
-- `HashMap<String, V>` of the standard library, as a list of entries. The order of the list stands
-- for the order of iteration, which the program may not rely on.
pub mod Entries
use observable_cafev.Base.{
  String, ◌≡◌, refl, Bool, Option, none, some, List, [], ◌∷◌, map, ◌==◌, eq_iff, arith,
  if◌then◌else◌, is_some,
}

abbrev pub Map {ℓ} : Type ℓ → Type ℓ
Map V = List (String × V)

module _ {ℓ} {V : Type ℓ} where
  abbrev pub get : Map V → String → Option V
  get [] k = none
  get ((j, v) ∷ m) k = if j == k then some v else get m k

  abbrev pub insert : Map V → String → V → Map V
  insert [] k v = (k, v) ∷ []
  insert ((j, w) ∷ m) k v = if j == k then (k, v) ∷ m else (j, w) ∷ insert m k v

  abbrev pub remove : Map V → String → Map V
  remove [] k = []
  remove ((j, v) ∷ m) k = if j == k then remove m k else (j, v) ∷ remove m k

  abbrev pub values : Map V → List V
  values [] = []
  values ((k, v) ∷ m) = v ∷ values m

  abbrev pub contains_key : Map V → String → Bool
  contains_key m k = is_some (get m k)

module _ {ℓ} {V : Type ℓ} where
  pub get-insert :
      (m : Map V) (k : String) (v : V) (j : String)
      → get (insert m k v) j ≡ (if k == j then some v else get m j)
  get-insert [] k v j = refl
  get-insert ((i, w) ∷ m) k v j =
      ground (arith, eq_iff k j, eq_iff i k, eq_iff i j, get-insert m k v j)

  pub get-remove :
      (m : Map V) (k j : String) → get (remove m k) j ≡ (if k == j then none else get m j)
  get-remove [] k j = ground arith
  get-remove ((i, w) ∷ m) k j = ground (arith, eq_iff k j, eq_iff i k, eq_iff i j, get-remove m k j)
