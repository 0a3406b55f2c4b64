-- ===== src/Agent/Loader.antt =====
-- `AgentDefinition` of cafe-types/src/session.rs and its making from an agent file in
-- cafe-agent-runtime/src/loader.rs.
use observable_cafev.Base.{
  ℕ, String, Bool, true, false, Option, none, some, List, [], ◌∷◌, unwrap_or, and_then,
}
use observable_cafev.Platform.{Platform}
use observable_cafev.Map.{Map}
use observable_cafev.Agent.Steps.{StepDef}

module _ ⦃P : Platform⦄ where
  pub record InitialChunkTable : Type 0 where
    pub chunk_type : Option String
    pub content : Option String
    pub encoded : Option String
    pub mime_type : Option String
    pub annotations : Option (Map P.Value)

  pub record AgentFile : Type 0 where
    pub name : String
    pub description : Option String
    pub background : Option Bool
    pub allows_reload : Option Bool
    pub persists_state : Option Bool
    pub steps : Option (List StepDef)
    pub schedule : Option String
    pub initial_chunk_content : Option String
    pub initial_chunk_type : Option String
    pub initial_chunk_data : Option String
    pub initial_chunk_mime_type : Option String
    pub initial_chunk_annotations : Option (Map P.Value)
    pub initial_chunk : Option InitialChunkTable
    pub rpc_timeout_secs : Option ℕ
    pub max_pipeline_depth : Option ℕ
    pub ephemeral_keepalive_secs : Option ℕ
    pub ephemeral_count_role : Option String

  pub record AgentDefinition : Type 0 where
    pub name : String
    pub description : String
    pub background : Bool
    pub allows_reload : Bool
    pub persists_state : Bool
    pub steps : List StepDef
    pub schedule : Option String
    pub initial_chunk_content : String
    pub initial_chunk_type : String
    pub initial_chunk_data : Option (List ℕ)
    pub initial_chunk_mime_type : Option String
    pub initial_chunk_annotations : Map P.Value
    pub rpc_timeout_secs : ℕ
    pub max_pipeline_depth : ℕ
    pub ephemeral_keepalive_secs : Option ℕ
    pub ephemeral_count_role : Option String

  -- the tuple of the initial chunk's parts
  pub record InitialChunk : Type 0 where
    pub chunk_type : String
    pub content : String
    pub bytes : Option (List ℕ)
    pub mime_type : Option String
    pub annotations : Map P.Value

  -- `decode`: `STANDARD.decode` of the crate `base64`, whose errors are only logged
  unfoldable pub initial_chunk_of : (String → Option (List ℕ)) → AgentFile → InitialChunk
  initial_chunk_of decode f = elim f.initial_chunk [
    | some ic ↦ record {
      chunk_type = unwrap_or ic.chunk_type "text";
      content = unwrap_or ic.content "";
      bytes = and_then ic.encoded decode;
      mime_type = ic.mime_type;
      annotations = unwrap_or ic.annotations [];
    }
    | none ↦ record {
      chunk_type = unwrap_or f.initial_chunk_type "text";
      content = unwrap_or f.initial_chunk_content "";
      bytes = and_then f.initial_chunk_data decode;
      mime_type = f.initial_chunk_mime_type;
      annotations = unwrap_or f.initial_chunk_annotations [];
    }
  ]

  abbrev pub llm_step : StepDef
  llm_step = record { id = "llm"; step_type = "llm"; trigger = "user_message"; enabled_if = none }

  -- `AgentDefinition::from(f)`
  unfoldable pub definition_of : (String → Option (List ℕ)) → AgentFile → AgentDefinition
  unfolding initial_chunk_of
  definition_of decode f =
      let c = initial_chunk_of decode f in
      record {
        name = f.name;
        description = unwrap_or f.description "";
        background = unwrap_or f.background false;
        allows_reload = unwrap_or f.allows_reload true;
        persists_state = unwrap_or f.persists_state true;
        steps = unwrap_or f.steps (llm_step ∷ []);
        schedule = f.schedule;
        initial_chunk_content = c.content;
        initial_chunk_type = c.chunk_type;
        initial_chunk_data = c.bytes;
        initial_chunk_mime_type = c.mime_type;
        initial_chunk_annotations = c.annotations;
        rpc_timeout_secs = unwrap_or f.rpc_timeout_secs 60;
        max_pipeline_depth = unwrap_or f.max_pipeline_depth 10;
        ephemeral_keepalive_secs = f.ephemeral_keepalive_secs;
        ephemeral_count_role = f.ephemeral_count_role;
      }

  -- `AgentDefinition::default()`
  abbrev pub default_definition : AgentDefinition
  default_definition = record {
    name = "default";
    description = "Standard chat agent";
    background = false;
    allows_reload = true;
    persists_state = true;
    steps =
        record {
          id = "trust-filter";
          step_type = "trust-filter";
          trigger = "user_message";
          enabled_if = none;
        }
        ∷ llm_step
        ∷ [];
    schedule = none;
    initial_chunk_content = "";
    initial_chunk_type = "text";
    initial_chunk_data = none;
    initial_chunk_mime_type = none;
    initial_chunk_annotations = [];
    rpc_timeout_secs = 60;
    max_pipeline_depth = 10;
    ephemeral_keepalive_secs = none;
    ephemeral_count_role = none;
  }
