-- ===== src/Llm/Config.antt =====
-- `extract_config` of cafe-llm/src/context.rs.
use observable_cafev.Base.{
  ℕ, ◌%◌, ◌^◌, String, Bool, Option, none, some, List, [], ◌∷◌, ◌&&◌, is, and_then, map_or,
  if◌then◌else◌,
}
use observable_cafev.Platform.{Platform}
use observable_cafev.Map.{get}
use observable_cafev.Chunk.{Chunk, is_type, null, get_str}
use observable_cafev.Chunk.Keys.{
  config_type, config_backend, config_model, config_system_prompt, config_temperature,
  config_max_tokens, config_llm_backend, config_llm_model, config_llm_system_prompt,
  config_llm_temperature, config_llm_max_tokens, config_llm_compaction_mode,
  config_llm_max_history_messages, config_llm_max_history_chars,
}
use observable_cafev.Llm.{LlmConfig}

module _ ⦃P : Platform⦄ where
  -- `option.or_else(alternative)`
  abbrev or_else {ℓ} : {A : Type ℓ} → Option A → Option A → Option A
  or_else none other = other
  or_else (some a) other = some a

  abbrev map_u32 : Option ℕ → Option ℕ
  map_u32 none = none
  map_u32 (some n) = some (n % 2 ^ 32)

  unfoldable pub u32_of : P.Value → Option ℕ
  u32_of v = or_else (map_u32 (P.as_u64 v)) (and_then (P.as_str v) P.parse_u32)

  unfoldable pub float_of : P.Value → Option P.Float
  float_of v = or_else (P.as_float v) (and_then (P.as_str v) P.parse_float)

  -- `if let Some(v) = chunk.annotations.get(key) { field = read(v); }`
  unfoldable pub overwrite {ℓ} :
      {A : Type ℓ} → Chunk → String → (P.Value → Option A) → Option A → Option A
  overwrite c key read old = map_or (get c.annotations key) old read

  -- The same, only if the field is not set.
  unfoldable pub fill {ℓ} :
      {A : Type ℓ} → Chunk → String → (P.Value → Option A) → Option A → Option A
  unfolding overwrite
  fill c key read (some a) = some a
  fill c key read none = overwrite c key read none

  unfoldable pub is_config : Chunk → Bool
  unfolding get_str
  is_config c = is_type c.content_type null && is (get_str c config_type) "runtime"

  unfoldable pub merge_config : Chunk → LlmConfig → LlmConfig
  unfolding fill overwrite u32_of float_of
  merge_config c cfg = record {
    backend = fill c config_backend P.as_str (overwrite c config_llm_backend P.as_str cfg.backend);
    model = fill c config_model P.as_str (overwrite c config_llm_model P.as_str cfg.model);
    system_prompt =
        fill c config_system_prompt P.as_str
          (overwrite c config_llm_system_prompt P.as_str cfg.system_prompt);
    temperature =
        fill c config_temperature float_of
          (overwrite c config_llm_temperature float_of cfg.temperature);
    max_tokens =
        fill c config_max_tokens u32_of (overwrite c config_llm_max_tokens u32_of cfg.max_tokens);
    compaction_mode = overwrite c config_llm_compaction_mode P.as_str cfg.compaction_mode;
    max_history_messages =
        overwrite c config_llm_max_history_messages u32_of cfg.max_history_messages;
    max_history_chars = overwrite c config_llm_max_history_chars u32_of cfg.max_history_chars;
  }

  unfoldable pub extract_from : List Chunk → LlmConfig → LlmConfig
  unfolding is_config merge_config
  extract_from [] cfg = cfg
  extract_from (c ∷ history) cfg =
      extract_from history (if is_config c then merge_config c cfg else cfg)

  abbrev pub unset : LlmConfig
  unset = record {
    backend = none;
    model = none;
    system_prompt = none;
    temperature = none;
    max_tokens = none;
    compaction_mode = none;
    max_history_messages = none;
    max_history_chars = none;
  }

  unfoldable pub extract_config : List Chunk → LlmConfig
  unfolding extract_from
  extract_config history = extract_from history unset
