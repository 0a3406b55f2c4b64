-- ===== src/Envelope.antt =====
-- cafe-types/src/envelope.rs and `SessionInfo` of cafe-types/src/session.rs: what clients and the bus
-- say to one another.
use observable_cafev.Base.{ℕ, String, Bool, Option, List, ℤ}
use observable_cafev.Platform.{Platform}
use observable_cafev.Map.{Map}
use observable_cafev.Chunk.{Chunk, ContentType}

pub record EphemeralConfig : Type 0 where
  pub keepalive_secs : ℕ
  pub count_role : Option String

pub record SessionInfo : Type 0 where
  pub session_id : String
  pub agent_id : String
  pub display_name : Option String
  pub tags : List String
  pub is_background : Bool
  pub ui_mode : String
  pub message_count : ℕ
  pub created_at : ℤ
  pub parent_id : Option String

module _ ⦃P : Platform⦄ where
  pub record SessionConfig : Type 0 where
    pub backend : Option String
    pub model : Option String
    pub system_prompt : Option String
    pub temperature : Option P.Float
    pub max_tokens : Option ℕ
    pub compaction_mode : Option String
    pub max_history_messages : Option ℕ
    pub max_history_chars : Option ℕ
    pub ephemeral : Option EphemeralConfig
    pub tags : Option (List String)

  pub record SubscribeFilter : Type 0 where
    pub sessions : Option (List String)
    pub agents : Option (List String)
    pub content_types : Option (List ContentType)
    pub annotations : Option (Map P.Value)
    pub tags : Option (List String)
    pub tags_exclude : Option (List String)

  pub data ClientMessage : Type 0 where
    subscribe : (session_id : String) → ClientMessage
    subscribe_all : ClientMessage
    subscribe_filtered : (filter : SubscribeFilter) → ClientMessage
    publish : (session_id : String) (chunk : Chunk) → ClientMessage
    set_meta : (role : Option String) (codecs : Option (List String)) → ClientMessage
    create_session : (session_id agent_id : String) (config : SessionConfig) → ClientMessage
    delete_session : (session_id : String) → ClientMessage
    set_session_tags : (session_id : String) (tags : List String) → ClientMessage
    fork_session : (parent_session_id session_id : String) (config : SessionConfig) → ClientMessage
    list_sessions : ClientMessage
    ping : ClientMessage

  pub data ServerMessage : Type 0 where
    connected : (connection_id : String) → ServerMessage
    codec_set : (codec connection_id : String) → ServerMessage
    chunk : (session_id : String) (chunk : Chunk) → ServerMessage
    session_created : (session_id agent_id : String) → ServerMessage
    session_deleted : (session_id : String) → ServerMessage
    sessions_list : (sessions : List SessionInfo) → ServerMessage
    history_complete : (session_id : String) (count : ℕ) → ServerMessage
    session_tags_updated : (session_id : String) (tags : List String) → ServerMessage
    session_forked : (parent_session_id session_id : String) → ServerMessage
    error : (session_id : Option String) (message code : String) → ServerMessage
    pong : ServerMessage
