-- ===== src/Filter.antt =====
-- The subscription filters of cafe-bus/src/client.rs.
use observable_cafev.Base.{
  Bool, true, false, Option, none, some, [], ◌∷◌, ◌&&◌, not, map_or, any, contains,
}
use observable_cafev.Platform.{Platform}
use observable_cafev.Map.{Map, get}
use observable_cafev.Chunk.{Chunk, is_type}
use observable_cafev.Envelope.{SubscribeFilter}
use observable_cafev.Session.{SessionState}

module _ ⦃P : Platform⦄ where
  -- One wanted annotation: a wanted `false` also matches an absent one.
  unfoldable pub annotation_matches : Option P.Value → P.Value → Bool
  annotation_matches (some v) wanted = P.eq v wanted
  annotation_matches none wanted = P.eq wanted (P.bool false)

  unfoldable pub annotations_match : Chunk → Map P.Value → Bool
  unfolding annotation_matches
  annotations_match c [] = true
  annotations_match c ((key, wanted) ∷ rest) =
      annotation_matches (get c.annotations key) wanted && annotations_match c rest

  unfoldable pub chunk_matches_filter : Chunk → SubscribeFilter → Bool
  chunk_matches_filter c f =
      map_or f.content_types true (λ types. any (λ t. is_type t c.content_type) types)
      && map_or f.annotations true (annotations_match c)

  unfoldable pub session_matches_filter : SessionState → SubscribeFilter → Bool
  session_matches_filter s f =
      map_or f.sessions true (λ ids. contains ids s.session_id)
      && map_or f.agents true (λ ids. contains ids s.agent_id)
      && map_or f.tags true (λ tags. any (contains s.tags) tags)
      && map_or f.tags_exclude true (λ tags. not (any (contains tags) s.tags))
