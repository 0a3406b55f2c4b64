-- ===== src/Handlers/Publish.antt =====
-- The message `Publish`: to one connection if the chunk says so, else into its session.
use observable_cafev.Base.{String, Option, none, some, and_then, push_str, if◌then◌else◌}
use observable_cafev.Platform.{Platform}
use observable_cafev.Map.{get, contains_key}
use observable_cafev.Chunk.{Chunk, with_annotation, get_str}
use observable_cafev.Chunk.Keys.{cafe_source_connection, cafe_direct_to}
use observable_cafev.Envelope.{chunk}
use observable_cafev.Session.{publish}
use observable_cafev.Registry.{put}
use observable_cafev.Bus.{Bus, Env, send_msg, send_error}
use observable_cafev.Handlers.Sessions.{not_found}

module _ ⦃P : Platform⦄ where
  -- The chunk as the bus passes it on: it names the connection that it came from.
  unfoldable pub tagged : String → Chunk → Chunk
  tagged conn c = with_annotation c cafe_source_connection (P.string conn)

  unfoldable pub direct : String → String → String → Chunk → Bus → Bus
  unfolding send_msg send_error
  direct conn target session_id c b =
      if contains_key b.connections target
      then send_msg target (chunk session_id c) b
      else send_error conn session_id (push_str "Target connection not found: " target)
          "TARGET_NOT_FOUND" b

  unfoldable pub publish_to : Env → String → String → Chunk → Bus → Option Bus
  unfolding not_found
  publish_to env conn session_id c b = elim (get b.registry.sessions session_id) [
    | none ↦ some (not_found conn session_id b)
    | some s ↦
        and_then (publish env.now c s)
          (λ s'. some (record b { registry = put b.registry session_id s' }))
  ]

  unfoldable pub handle_publish : Env → String → String → Chunk → Bus → Option Bus
  unfolding direct publish_to
  handle_publish env conn session_id c b =
      let c' = tagged conn c in
      elim (get_str c' cafe_direct_to) [
        | some target ↦ some (direct conn target session_id c' b)
        | none ↦ publish_to env conn session_id c' b
      ]
