-- ===== src/Chunk/Keys.antt =====
-- cafe-types/src/annotation.rs: the annotation keys that the modelled code reads or writes.
use observable_cafev.Base.{String}

abbrev pub chat_role : String
chat_role = "chat.role"

abbrev pub security_trust_level : String
security_trust_level = "security.trust-level"

abbrev pub config_type : String
config_type = "config.type"

abbrev pub config_backend : String
config_backend = "config.backend"

abbrev pub config_model : String
config_model = "config.model"

abbrev pub config_system_prompt : String
config_system_prompt = "config.system_prompt"

abbrev pub config_temperature : String
config_temperature = "config.temperature"

abbrev pub config_max_tokens : String
config_max_tokens = "config.max_tokens"

abbrev pub config_llm_system_prompt : String
config_llm_system_prompt = "config.llm.system_prompt"

abbrev pub config_llm_temperature : String
config_llm_temperature = "config.llm.temperature"

abbrev pub config_llm_max_tokens : String
config_llm_max_tokens = "config.llm.max_tokens"

abbrev pub config_llm_model : String
config_llm_model = "config.llm.model"

abbrev pub config_llm_backend : String
config_llm_backend = "config.llm.backend"

abbrev pub config_llm_compaction_mode : String
config_llm_compaction_mode = "config.llm.compaction_mode"

abbrev pub config_llm_max_history_messages : String
config_llm_max_history_messages = "config.llm.max_history_messages"

abbrev pub config_llm_max_history_chars : String
config_llm_max_history_chars = "config.llm.max_history_chars"

abbrev pub session_tags : String
session_tags = "session.tags"

abbrev pub flow_target_chunk_id : String
flow_target_chunk_id = "flow.target_chunk_id"

abbrev pub cafe_transient : String
cafe_transient = "cafe.transient"

abbrev pub cafe_transient_retain_secs : String
cafe_transient_retain_secs = "cafe.transient.retain_secs"

abbrev pub cafe_source_connection : String
cafe_source_connection = "cafe.source.connection"

abbrev pub cafe_direct_to : String
cafe_direct_to = "cafe.direct_to"

abbrev pub cafe_mutates_target_id : String
cafe_mutates_target_id = "cafe.mutates.target_id"

abbrev pub cafe_flow_signal : String
cafe_flow_signal = "cafe.flow.signal"

abbrev pub fork_parent_id : String
fork_parent_id = "fork.parent_id"

abbrev pub chat_stream_complete : String
chat_stream_complete = "chat.stream_complete"

abbrev pub cafe_schema_evaluator : String
cafe_schema_evaluator = "cafe.schema.evaluator"

abbrev pub cafe_jsonrpc_request : String
cafe_jsonrpc_request = "cafe.jsonrpc.request"

abbrev pub cafe_jsonrpc_response : String
cafe_jsonrpc_response = "cafe.jsonrpc.response"

abbrev pub cafe_tool_call : String
cafe_tool_call = "cafe.tool.call"

abbrev pub cafe_tool_result : String
cafe_tool_result = "cafe.tool.result"

abbrev pub cafe_error_message : String
cafe_error_message = "cafe.error.message"

abbrev pub chat_model : String
chat_model = "chat.model"

abbrev pub chat_finish_reason : String
chat_finish_reason = "chat.finish_reason"

abbrev pub chat_is_streaming : String
chat_is_streaming = "chat.is_streaming"

abbrev pub cafe_flow_tombstone : String
cafe_flow_tombstone = "cafe.flow.tombstone"
