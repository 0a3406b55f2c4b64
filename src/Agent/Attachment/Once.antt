-- ===== src/Agent/Attachment/Once.antt =====
-- No session runs two pipelines at once.
use observable_cafev.Base.{
  ℕ, ◌+◌, ◌≤◌, String, ◌≡◌, refl, false, not, List, [], ◌∷◌, ◌++◌, ◌==◌, eq_iff, arith,
  if◌then◌else◌, filter, contains, Bool-cases, Option-cases, inl, inr,
}
use observable_cafev.Platform.{Platform}
use observable_cafev.Map.{Map, get}
use observable_cafev.Chunk.{Stamp}
use observable_cafev.Envelope.{ServerMessage, SessionInfo, session_created, session_deleted}
use observable_cafev.Agent.Attachment.{
  AgentPipelineInfo, Task, publish_config, publish_schemas, session_loop, config_task,
  attach_to_session, attach_known, reattach, on_message, follow, run_pipeline_subscriber,
}

module _ ⦃P : Platform⦄ where
  -- how many pipelines are started for a session
  abbrev pub loops : String → List Task → ℕ
  loops id [] = 0
  loops id (session_loop s ex ∷ tasks) = (if s == id then 1 else 0) + loops id tasks
  loops id (_ ∷ tasks) = loops id tasks

  -- how often a session is deleted
  abbrev pub deletions : String → List ServerMessage → ℕ
  deletions id [] = 0
  deletions id (session_deleted s ∷ messages) = (if s == id then 1 else 0) + deletions id messages
  deletions id (_ ∷ messages) = deletions id messages

  -- how many pipelines may still be started for a session without a deletion
  abbrev room : String → List String → ℕ
  room id attached = if contains attached id then 0 else 1

  loops-append : (id : String) (a b : List Task) → loops id (a ++ b) ≡ loops id a + loops id b
  loops-append id [] b = omega arith
  loops-append id (publish_config s c ∷ a) b = loops-append id a b
  loops-append id (publish_schemas s steps ∷ a) b = loops-append id a b
  loops-append id (session_loop s ex ∷ a) b = omega (arith, loops-append id a b)

  loops-config_task :
      (st : Stamp) (s agent : String) (info : AgentPipelineInfo) (id : String)
      → loops id (config_task st s agent info) ≡ 0
  unfolding config_task
  loops-config_task st s agent info id = ground arith

  attach_to_session-room :
      (st : Stamp) (s agent : String) (info : AgentPipelineInfo) (attached : List String)
      (id : String)
      → loops id (attach_to_session st s agent info attached).1
          + room id (attach_to_session st s agent info attached).0
        ≤ room id attached
  unfolding attach_to_session
  attach_to_session-room st s agent info attached id = elim (Bool-cases (contains attached s)) [
    | inl there ↦ rw (there) (omega arith)
    | inr fresh ↦ rw (fresh, loops-append, loops-config_task) (ground (arith, eq_iff s id, fresh))
  ]

  attach_known-room :
      (pipelines : Map AgentPipelineInfo) (st : Stamp) (s agent : String) (attached : List String)
      (id : String)
      → loops id (attach_known pipelines st s agent attached).1
          + room id (attach_known pipelines st s agent attached).0
        ≤ room id attached
  unfolding attach_known
  attach_known-room pipelines st s agent attached id = elim (Option-cases (get pipelines agent)) [
    | inl missing ↦ rw (missing, attach_known) (omega arith)
    | inr (info, found) ↦
        rw (found, attach_known) (attach_to_session-room st s agent info attached id)
  ]

  reattach-room :
      (pipelines : Map AgentPipelineInfo) (st : Stamp) (sessions : List SessionInfo)
      (attached : List String) (id : String)
      → loops id (reattach pipelines st sessions attached).1
          + room id (reattach pipelines st sessions attached).0
        ≤ room id attached
  unfolding reattach
  reattach-room pipelines st [] attached id = omega arith
  reattach-room pipelines st (s ∷ sessions) attached id =
      let now = attach_known pipelines st s.session_id s.agent_id attached in
      omega (
        arith,
        loops-append id now.1 (reattach pipelines st sessions now.0).1,
        attach_known-room pipelines st s.session_id s.agent_id attached id,
        reattach-room pipelines st sessions now.0 id,
      )

  contains-forget :
      (attached : List String) (s id : String)
      → (s == id) ≡ false
      → contains (filter (λ a. not (a == s)) attached) id ≡ contains attached id
  contains-forget [] s id other = refl
  contains-forget (a ∷ attached) s id other =
      ground (arith, eq_iff a s, eq_iff s id, eq_iff a id, contains-forget attached s id other)

  forget-room :
      (attached : List String) (s id : String)
      → room id (filter (λ a. not (a == s)) attached)
        ≤ (if s == id then 1 else 0) + room id attached
  forget-room attached s id = elim (Bool-cases (s == id)) [
    | inl same ↦ rw (same) (ground arith)
    | inr other ↦ rw (other, contains-forget attached s id other) (omega arith)
  ]

  on_message-room :
      (pipelines : Map AgentPipelineInfo) (st : Stamp) (msg : ServerMessage)
      (attached : List String) (id : String)
      → loops id (on_message pipelines st msg attached).1
          + room id (on_message pipelines st msg attached).0
        ≤ deletions id (msg ∷ []) + room id attached
  unfolding on_message
  on_message-room pipelines st (session_created s agent) attached id =
      omega (arith, attach_known-room pipelines st s agent attached id)
  on_message-room pipelines st (session_deleted s) attached id =
      omega (arith, forget-room attached s id)
  on_message-room pipelines st _ attached id = omega arith

  deletions-cons :
      (id : String) (msg : ServerMessage) (rest : List ServerMessage)
      → deletions id (msg ∷ rest) ≡ deletions id (msg ∷ []) + deletions id rest
  deletions-cons id (session_deleted s) rest = omega arith
  deletions-cons id _ rest = omega arith

  follow-room :
      (pipelines : Map AgentPipelineInfo) (st : Stamp) (messages : List ServerMessage)
      (attached : List String) (id : String)
      → loops id (follow pipelines st messages attached) ≤ deletions id messages + room id attached
  unfolding follow
  follow-room pipelines st [] attached id = omega arith
  follow-room pipelines st (msg ∷ rest) attached id =
      let now = on_message pipelines st msg attached in
      omega (
        arith,
        deletions-cons id msg rest,
        loops-append id now.1 (follow pipelines st rest now.0),
        on_message-room pipelines st msg attached id,
        follow-room pipelines st rest now.0 id,
      )

  -- However often a session is listed and announced, the agent runtime starts at most one pipeline for
  -- it, and one more for each announced deletion of the session.
  pub run_pipeline_subscriber_once :
      (pipelines : Map AgentPipelineInfo) (st : Stamp) (sessions : List SessionInfo)
      (messages : List ServerMessage) (id : String)
      → loops id (run_pipeline_subscriber pipelines st sessions messages)
        ≤ 1 + deletions id messages
  unfolding run_pipeline_subscriber
  run_pipeline_subscriber_once pipelines st sessions messages id =
      let start = reattach pipelines st sessions [] in
      omega (
        arith,
        loops-append id start.1 (follow pipelines st messages start.0),
        reattach-room pipelines st sessions [] id,
        follow-room pipelines st messages start.0 id,
      )
