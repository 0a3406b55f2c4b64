-- ===== src/Agent/Lifecycle.antt =====
-- cafe-agent-runtime/src/lifecycle.rs: the session of a background agent and its first chunk.
use observable_cafev.Base.{
  ℕ, String, Option, none, some, List, [], ◌∷◌, ◌==◌, unwrap_or, map_or, if◌then◌else◌,
}
use observable_cafev.Platform.{Platform}
use observable_cafev.Map.{Map}
use observable_cafev.Chunk.{Chunk, Stamp, new_text, new_null, new_binary, with_annotation}
use observable_cafev.Chunk.Keys.{chat_role, cafe_flow_signal}
use observable_cafev.Envelope.{SessionConfig}
use observable_cafev.Agent.Dispatch.{runtime}

module _ ⦃P : Platform⦄ where
  -- `SessionConfig::default()`
  abbrev pub default_config : SessionConfig
  default_config = record {
    backend = none;
    model = none;
    system_prompt = none;
    temperature = none;
    max_tokens = none;
    compaction_mode = none;
    max_history_messages = none;
    max_history_chars = none;
    ephemeral = none;
    tags = none;
  }

  -- what `create_session` is called with
  unfoldable pub config_for : Option ℕ → Option String → SessionConfig
  config_for none count_role = default_config
  config_for (some keepalive) count_role = record default_config {
    ephemeral = some (record { keepalive_secs = keepalive; count_role = count_role });
  }

  -- `for (key, value) in annotations { chunk = chunk.with_annotation(key, value); }`
  unfoldable pub annotate : Chunk → Map P.Value → Chunk
  unfolding with_annotation
  annotate c [] = c
  annotate c ((key, value) ∷ rest) = annotate (with_annotation c key value) rest

  -- the chunk that is published once the session is created, if any; `trim` is that of `str`
  unfoldable pub first_chunk :
      (String → String)
      → Stamp
      → String
      → Option String
      → Option String
      → Option (List ℕ)
      → Option String
      → Map P.Value
      → Option Chunk
  unfolding annotate
  first_chunk trim st agent content chunk_type bytes mime annotations =
      let kind = unwrap_or chunk_type "text" in
      let body = unwrap_or content "" in
      if kind == "text"
      then (if trim body == ""
          then none
          else some (
              annotate (with_annotation (new_text st body agent) chat_role (P.string "user"))
                annotations))
      else if kind == "null"
      then some (annotate (new_null st agent) annotations)
      else if kind == "binary"
      then map_or bytes none (λ d.
        some (
          annotate (new_binary st d (unwrap_or mime "application/octet-stream") agent) annotations))
      else none

  -- the chunk that `tick_agent` publishes
  unfoldable pub tick : Stamp → Chunk
  tick st = with_annotation (new_null st runtime) cafe_flow_signal (P.string "tick")

  -- the chunk that `reset_agent_session` publishes
  unfoldable pub reset : Stamp → String → Chunk
  reset st agent =
      with_annotation (with_annotation (new_null st runtime) cafe_flow_signal (P.string "reset"))
        "cafe.flow.agent_id" (P.string agent)
