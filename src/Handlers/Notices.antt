-- ===== src/Handlers/Notices.antt =====
-- `make_config_chunk` and `make_tags_chunk` of cafe-bus/src/client.rs.
use observable_cafev.Base.{String, Option, none, some, List, map}
use observable_cafev.Platform.{Platform}
use observable_cafev.Chunk.{Chunk, Stamp, new_null, with_annotation}
use observable_cafev.Chunk.Keys.{
  config_type, config_backend, config_model, config_system_prompt, config_temperature,
  config_max_tokens, config_llm_compaction_mode, config_llm_max_history_messages,
  config_llm_max_history_chars, session_tags,
}
use observable_cafev.Envelope.{SessionConfig}
use observable_cafev.Registry.{bus_producer}

module _ ⦃P : Platform⦄ where
  -- `if let Some(v) = field { chunk = chunk.with_annotation(key, v); }`
  unfoldable pub annotate {ℓ} : {A : Type ℓ} → String → (A → P.Value) → Option A → Chunk → Chunk
  annotate key value none c = c
  annotate key value (some v) c = with_annotation c key (value v)

  unfoldable pub make_config_chunk : Stamp → SessionConfig → Chunk
  unfolding annotate new_null with_annotation
  make_config_chunk st config =
      let c₀ = with_annotation (new_null st bus_producer) config_type (P.string "runtime") in
      let c₁ = annotate config_backend P.string config.backend c₀ in
      let c₂ = annotate config_model P.string config.model c₁ in
      let c₃ = annotate config_system_prompt P.string config.system_prompt c₂ in
      let c₄ = annotate config_temperature P.float config.temperature c₃ in
      let c₅ = annotate config_max_tokens P.number config.max_tokens c₄ in
      let c₆ = annotate config_llm_compaction_mode P.string config.compaction_mode c₅ in
      let c₇ = annotate config_llm_max_history_messages P.number config.max_history_messages c₆ in
      annotate config_llm_max_history_chars P.number config.max_history_chars c₇

  unfoldable pub make_tags_chunk : Stamp → List String → Chunk
  unfolding new_null with_annotation
  make_tags_chunk st tags =
      with_annotation (new_null st bus_producer) session_tags (P.array (map P.string tags))
