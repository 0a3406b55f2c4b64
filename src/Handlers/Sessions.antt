-- ===== src/Handlers/Sessions.antt =====
-- The messages `CreateSession`, `SetSessionTags`, `ForkSession`, `DeleteSession` and `ListSessions`.
use observable_cafev.Base.{
  String, Bool, true, false, Option, none, some, List, [], ◌∷◌, ◌||◌, if◌then◌else◌, and_then,
  is_some, map_or, unwrap_or, push_str,
}
use observable_cafev.Platform.{Platform}
use observable_cafev.Map.{get}
use observable_cafev.Chunk.{Chunk}
use observable_cafev.Tags.{validate_tags, to_string, error_code}
use observable_cafev.Envelope.{
  SessionConfig, session_created, session_deleted, session_tags_updated, session_forked,
  sessions_list,
}
use observable_cafev.Session
use observable_cafev.Session.{SessionState, Instant, publish}
use observable_cafev.Registry.{
  ForkResult, ok, err, parent_not_found, session_exists, contains, insert, put, remove, fork,
  set_tags, list,
}
use observable_cafev.Bus.{Bus, Env, send_msg, send_error}
use observable_cafev.Handlers.Notices.{make_config_chunk, make_tags_chunk}

module _ ⦃P : Platform⦄ where
  unfoldable pub has_tags : SessionConfig → Bool
  has_tags config = map_or config.tags false (λ t. elim t [ [] ↦ false | x ∷ r ↦ true ])

  unfoldable pub has_config : SessionConfig → Bool
  has_config config = is_some config.backend || is_some config.model || is_some config.system_prompt

  abbrev pub publish_if : Bool → Instant → Chunk → SessionState → Option SessionState
  publish_if b now c s = if b then publish now c s else some s

  unfoldable pub configured : String → String → SessionConfig → SessionState
  unfolding has_tags Session.new
  configured session_id agent_id config = record (Session.new session_id agent_id) {
    ephemeral = config.ephemeral;
    tags = if has_tags config then unwrap_or config.tags [] else [];
  }

  -- The state of the session when it is inserted.
  unfoldable pub created : Env → String → String → SessionConfig → Option SessionState
  unfolding configured has_tags has_config
  created env session_id agent_id config =
      and_then
        (publish_if (has_config config) env.now (make_config_chunk (env.stamp 0) config)
          (configured session_id agent_id config))
        (publish_if (has_tags config) env.now
          (make_tags_chunk (env.stamp 1) (unwrap_or config.tags [])))

  unfoldable pub insert_created : String → String → SessionState → Bus → Bus
  unfolding send_msg
  insert_created conn agent_id s b =
      send_msg conn (session_created s.session_id agent_id)
        (record b { registry = insert b.registry s })

  unfoldable pub handle_create : Env → String → String → String → SessionConfig → Bus → Option Bus
  unfolding created insert_created send_error
  handle_create env conn session_id agent_id config b =
      elim (map_or config.tags none (validate_tags P.debug)) [
        | some e ↦ some (send_error conn session_id (to_string e) (error_code e) b)
        | none ↦
            if contains b.registry session_id
            then some (
                send_error conn session_id (push_str "Session already exists: " session_id)
                  "SESSION_EXISTS" b)
            else and_then (created env session_id agent_id config)
                (λ s. some (insert_created conn agent_id s b))
      ]

  unfoldable pub not_found : String → String → Bus → Bus
  unfolding send_error
  not_found conn session_id b =
      send_error conn session_id (push_str "Session not found: " session_id) "SESSION_NOT_FOUND" b

  -- The tags are written to the session and then once more by `set_tags`.
  unfoldable pub retag : String → String → List String → SessionState → Bus → Bus
  unfolding send_msg
  retag conn session_id tags s b =
      let written = put b.registry session_id (record s { tags = tags }) in
      send_msg conn (session_tags_updated session_id tags)
        (record b { registry = (set_tags written session_id tags).0 })

  unfoldable pub handle_set_tags : Env → String → String → List String → Bus → Option Bus
  unfolding retag not_found send_error
  handle_set_tags env conn session_id tags b = elim (validate_tags P.debug tags) [
    | some e ↦ some (send_error conn session_id (to_string e) (error_code e) b)
    | none ↦ elim (get b.registry.sessions session_id) [
      | none ↦ some (not_found conn session_id b)
      | some s ↦
          and_then (publish env.now (make_tags_chunk (env.stamp 0) tags) s)
            (λ s'. some (retag conn session_id tags s' b))
    ]
  ]

  unfoldable pub fork_reply : String → String → String → ForkResult → Bus → Bus
  unfolding send_msg send_error
  fork_reply conn parent_id session_id (ok new_id) b =
      send_msg conn (session_forked parent_id session_id) b
  fork_reply conn parent_id session_id (err parent_not_found) b =
      send_error conn session_id (push_str "Parent session not found: " parent_id)
        "SESSION_NOT_FOUND" b
  fork_reply conn parent_id session_id (err session_exists) b =
      send_error conn session_id (push_str "Session already exists: " session_id) "SESSION_EXISTS" b

  unfoldable pub handle_fork : Env → String → String → String → Bus → Bus
  unfolding fork_reply
  handle_fork env conn parent_id session_id b =
      let (registry, result) = fork env.now (env.stamp 0) parent_id session_id b.registry in
      fork_reply conn parent_id session_id result (record b { registry = registry })

  unfoldable pub handle_delete : String → String → Bus → Bus
  unfolding send_msg not_found
  handle_delete conn session_id b =
      let (registry, removed) = remove b.registry session_id in
      if removed
      then send_msg conn (session_deleted session_id) (record b { registry = registry })
      else not_found conn session_id b

  unfoldable pub handle_list : String → Bus → Bus
  unfolding send_msg
  handle_list conn b = send_msg conn (sessions_list (list b.registry)) b
