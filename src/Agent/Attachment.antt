-- ===== src/Agent/Attachment.antt =====
-- cafe-agent-runtime/src/main.rs: which agents get a pipeline, and how pipelines are attached to the
-- sessions that exist at the start and to those that are created later.
pub mod Once
use observable_cafev.Base.{
  ℕ, String, Bool, true, false, not, Option, none, some, List, [], ◌∷◌, ◌++◌, ◌==◌, ◌&&◌,
  if◌then◌else◌, any, filter, contains, push_str, is_some,
}
use observable_cafev.Platform.{Platform}
use observable_cafev.Map.{Map, get, insert}
use observable_cafev.Chunk.{Chunk, Stamp, new_null, with_annotation}
use observable_cafev.Envelope.{ServerMessage, SessionInfo, session_created, session_deleted}
use observable_cafev.Agent.Steps.{StepDef}
use observable_cafev.Agent.Dispatch.{runtime}
use observable_cafev.Agent.Executor.{PipelineExecutor}
use observable_cafev.Agent.Loader.{AgentDefinition}
use observable_cafev.Agent.Lifecycle.{annotate}

unfoldable pub has_rpc_steps : List StepDef → Bool
has_rpc_steps steps =
    any
      (λ s. not (
        contains ("role-annotator" ∷ "trust-filter" ∷ "tool-detector" ∷ "tool-executor" ∷ [])
          s.step_type))
      steps

-- the test of the schema publication
unfoldable pub is_builtin : StepDef → Bool
is_builtin s =
    contains ("role-annotator" ∷ "trust-filter" ∷ "tool-detector" ∷ "tool-executor" ∷ "mcp" ∷ [])
      s.step_type

module _ ⦃P : Platform⦄ where
  -- The agents that are kept when the names `js_names` are taken.
  unfoldable pub unshadowed : List String → List AgentDefinition → List AgentDefinition
  unshadowed js_names agents = filter (λ d. not (contains js_names d.name)) agents

  pub record AgentPipelineInfo : Type 0 where
    pub steps : List StepDef
    pub rpc_timeout_secs : ℕ
    pub max_pipeline_depth : ℕ
    pub initial_chunk_type : String
    pub initial_chunk_annotations : Map P.Value

  -- the part of the start that records the pipelines
  unfoldable pub agent_pipelines :
      List AgentDefinition → Map AgentPipelineInfo → Map AgentPipelineInfo
  unfolding has_rpc_steps
  agent_pipelines [] pipelines = pipelines
  agent_pipelines (def ∷ defs) pipelines = agent_pipelines defs (
      if has_rpc_steps def.steps
      then insert pipelines def.name (record {
        steps = def.steps;
        rpc_timeout_secs = def.rpc_timeout_secs;
        max_pipeline_depth = def.max_pipeline_depth;
        initial_chunk_type = def.initial_chunk_type;
        initial_chunk_annotations = def.initial_chunk_annotations;
      })
      else pipelines)

  -- a task that is spawned
  pub data Task : Type 0 where
    publish_config : (session_id : String) (c : Chunk) → Task
    publish_schemas : (session_id : String) (steps : List StepDef) → Task
    session_loop : (session_id : String) (executor : PipelineExecutor) → Task

  abbrev is_empty : Map P.Value → Bool
  is_empty [] = true
  is_empty _ = false

  unfoldable pub config_task : Stamp → String → String → AgentPipelineInfo → List Task
  config_task st session_id agent_id info =
      if info.initial_chunk_type == "null" && not (is_empty info.initial_chunk_annotations)
      then publish_config session_id (
          annotate (new_null st (push_str "com.nominal.cafe-agent-runtime/" agent_id))
            info.initial_chunk_annotations)
        ∷ []
      else []

  -- The set of attached sessions, and the tasks that are spawned.
  unfoldable pub attach_to_session :
      Stamp → String → String → AgentPipelineInfo → List String → List String × List Task
  unfolding config_task is_builtin
  attach_to_session st session_id agent_id info attached =
      if contains attached session_id then (attached, []) else (
        session_id ∷ attached,
        config_task st session_id agent_id info
            ++ publish_schemas session_id (filter (λ s. not (is_builtin s)) info.steps)
              ∷ session_loop session_id
                  (record { steps = info.steps; max_depth = info.max_pipeline_depth })
              ∷ [],
      )

  unfoldable pub attach_known :
      Map AgentPipelineInfo → Stamp → String → String → List String → List String × List Task
  unfolding attach_to_session
  attach_known pipelines st session_id agent_id attached = elim (get pipelines agent_id) [
    | none ↦ (attached, [])
    | some info ↦ attach_to_session st session_id agent_id info attached
  ]

  -- the sessions that exist at the start
  unfoldable pub reattach :
      Map AgentPipelineInfo → Stamp → List SessionInfo → List String → List String × List Task
  unfolding attach_known
  reattach pipelines st [] attached = (attached, [])
  reattach pipelines st (s ∷ sessions) attached =
      let (now, tasks) = attach_known pipelines st s.session_id s.agent_id attached in
      let (last, later) = reattach pipelines st sessions now in (last, tasks ++ later)

  -- one message of the subscription
  unfoldable pub on_message :
      Map AgentPipelineInfo → Stamp → ServerMessage → List String → List String × List Task
  unfolding attach_known
  on_message pipelines st (session_created id agent) attached =
      attach_known pipelines st id agent attached
  on_message pipelines st (session_deleted id) attached = (filter (λ a. not (a == id)) attached, [])
  on_message pipelines st _ attached = (attached, [])

  unfoldable pub follow :
      Map AgentPipelineInfo → Stamp → List ServerMessage → List String → List Task
  unfolding on_message
  follow pipelines st [] attached = []
  follow pipelines st (msg ∷ rest) attached =
      let (now, tasks) = on_message pipelines st msg attached in
      tasks ++ follow pipelines st rest now

  -- After `subscribe_all` has succeeded: the tasks spawned, given the answer of `list_sessions` (none
  -- where it fails) and the messages of the subscription.
  unfoldable pub run_pipeline_subscriber :
      Map AgentPipelineInfo → Stamp → List SessionInfo → List ServerMessage → List Task
  unfolding reattach follow
  run_pipeline_subscriber pipelines st sessions messages =
      let (attached, tasks) = reattach pipelines st sessions [] in
      tasks ++ follow pipelines st messages attached
