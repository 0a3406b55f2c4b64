-- ===== src/Client/Following.antt =====
-- What a filter demands of a chunk's annotations.
pub mod Selection
pub mod Arrival
use observable_cafev.Base.{
  ℕ, suc, ◌≡◌, ◌↔◌, refl, String, true, false, Option, none, some, List, [], ◌∷◌, ◌++◌, arith, ◌⊎◌,
  filter, map, All, filter-append, append_assoc,
}
use mathlib.Core.List.{map-append}
use observable_cafev.Platform.{Platform}
use observable_cafev.Map.{Map, get}
use observable_cafev.Chunk.{Chunk}
use observable_cafev.Envelope.{SubscribeFilter, chunk}
use observable_cafev.Filter.{annotation_matches, annotations_match}
use observable_cafev.Handlers.SubscribeAll.{passes, replay_filtered, forward_matching}

module _ ⦃P : Platform⦄ where
  -- A wanted annotation holds of a chunk that carries that value, and `false` of one without it.
  abbrev pub Carries : Chunk → String × P.Value → Type 0
  Carries c (key, wanted) =
      (get c.annotations key ≡ some wanted)
      ⊎ ((get c.annotations key ≡ none) × (wanted ≡ P.bool false))

  annotation_matches_iff :
      (o : Option P.Value) (wanted : P.Value)
      → (annotation_matches o wanted ≡ true)
        ↔ ((o ≡ some wanted) ⊎ ((o ≡ none) × (wanted ≡ P.bool false)))
  unfolding annotation_matches
  annotation_matches_iff none wanted = ground (arith, P.eq_value_iff wanted (P.bool false))
  annotation_matches_iff (some v) wanted = ground (arith, P.eq_value_iff v wanted)

  -- The annotation part of a filter: it matches exactly if each wanted annotation is there with that
  -- value, or is absent and `false` is wanted.
  pub annotations_match_iff :
      (c : Chunk) (wanted : Map P.Value)
      → (annotations_match c wanted ≡ true) ↔ All (Carries c) wanted
  unfolding annotations_match
  annotations_match_iff c [] = ground arith
  annotations_match_iff c ((key, w) ∷ rest) =
      ground (arith, annotation_matches_iff (get c.annotations key) w, annotations_match_iff c rest)
