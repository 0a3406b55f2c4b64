-- ===== src/Chunk/Annotations.antt =====
-- The annotations of a chunk after its builders: what was set is read back, and nothing else moves.
use observable_cafev.Base.{ℕ, ◌<◌, ◌^◌, String, ◌≡◌, false, some, arith, ◌==◌, if◌then◌else◌}
use observable_cafev.Platform.{Platform}
use observable_cafev.Map.{get, get-insert}
use observable_cafev.Chunk.{
  Chunk, Stamp, with_annotation, get_str, is_transient, as_transient, with_retain, retain_secs,
  mutation, is_mutation,
}
use observable_cafev.Chunk.Keys.{cafe_transient}

module _ ⦃P : Platform⦄ where
  pub get-with_annotation :
      (c : Chunk) (k : String) (v : P.Value) (j : String)
      → get (with_annotation c k v).annotations j ≡ (if k == j then some v else get c.annotations j)
  unfolding with_annotation
  get-with_annotation c k v j = get-insert c.annotations k v j

  pub get_str-with_annotation :
      (c : Chunk) (k : String) (v : P.Value) (j : String)
      → get_str (with_annotation c k v) j ≡ (if k == j then P.as_str v else get_str c j)
  unfolding get_str
  get_str-with_annotation c k v j = ground (arith, get-with_annotation c k v j)

  -- Only the transient key decides whether a chunk is transient.
  pub is_transient-with_annotation :
      (c : Chunk) (k : String) (v : P.Value)
      → (k == cafe_transient) ≡ false
      → is_transient (with_annotation c k v) ≡ is_transient c
  unfolding is_transient
  is_transient-with_annotation c k v h = ground (arith, get-with_annotation c k v cafe_transient)

  -- A chunk made transient and then given a retention period below 2⁶⁴ seconds is retained for exactly
  -- that period.
  pub retain_secs-with_retain :
      (c : Chunk) (n : ℕ) → n < 2 ^ 64 → retain_secs (with_retain (as_transient c) n) ≡ some n
  unfolding retain_secs with_retain as_transient is_transient
  retain_secs-with_retain c n h = simp (get-insert, P.as_bool-bool) (P.as_u64-number n h)

  mutation-is_mutation :
      (st : Stamp) (t source : String) → is_mutation (mutation st t source) ≡ some t
  unfolding is_mutation mutation
  mutation-is_mutation st t source = simp (get-insert, P.as_str-string)
