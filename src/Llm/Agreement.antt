-- ===== src/Llm/Agreement.antt =====
-- What the bus writes into a configuration chunk is what the LLM service reads from it.
use observable_cafev.Base.{
  ℕ, ◌<◌, ◌^◌, ◌%◌, ◌≡◌, refl, String, true, Option, none, some, [], ◌∷◌, arith, eq_refl, map_or,
  ◌∙◌, Bool-cases, inl, inr, if◌then◌else◌,
}
use observable_cafev.Platform.{Platform}
use observable_cafev.Map.{get, get-insert}
use observable_cafev.Chunk.{Chunk, Stamp, get_str, null, new_null, with_annotation}
use observable_cafev.Chunk.Keys.{
  config_type, config_backend, config_model, config_system_prompt, config_temperature,
  config_max_tokens, config_llm_backend, config_llm_model, config_llm_system_prompt,
  config_llm_temperature, config_llm_max_tokens, config_llm_compaction_mode,
  config_llm_max_history_messages, config_llm_max_history_chars,
}
use observable_cafev.Envelope.{SessionConfig}
use observable_cafev.Handlers.Notices.{annotate, make_config_chunk}
use observable_cafev.Client.Creation.{get-annotate}
use observable_cafev.Llm.{LlmConfig}
use observable_cafev.Llm.Config.{
  overwrite, fill, is_config, merge_config, extract_config, unset, u32_of, float_of,
}

module _ ⦃P : Platform⦄ where
  abbrev pub option_map {ℓ κ} : {A : Type ℓ} {B : Type κ} → (A → B) → Option A → Option B
  option_map f none = none
  option_map f (some a) = some (f a)

  get-annotate_same {ℓ} :
      {A : Type ℓ} (key : String) (value : A → P.Value) (o : Option A) (c : Chunk)
      → get c.annotations key ≡ none
      → get (annotate key value o c).annotations key ≡ option_map value o
  unfolding annotate with_annotation
  get-annotate_same key value none c h = h
  get-annotate_same key value (some a) c h = simp (get-insert, eq_refl)

  content_type-annotate {ℓ} :
      {A : Type ℓ} (key : String) (value : A → P.Value) (o : Option A) (c : Chunk)
      → (annotate key value o c).content_type ≡ c.content_type
  unfolding annotate with_annotation
  content_type-annotate key value none c = refl
  content_type-annotate key value (some a) c = refl

  is_config_lem :
      (c : Chunk)
      → c.content_type ≡ null
      → get c.annotations config_type ≡ some (P.string "runtime")
      → is_config c ≡ true
  unfolding is_config get_str
  is_config_lem c h k = rw (h, k, P.as_str-string "runtime") (eq_refl "runtime")

  -- What the configuration chunk carries under each key that the LLM service reads.
  record Carried (config : SessionConfig) (c : Chunk) : Type 0 where
    kind : is_config c ≡ true
    backend : get c.annotations config_backend ≡ option_map P.string config.backend
    model : get c.annotations config_model ≡ option_map P.string config.model
    system_prompt :
        get c.annotations config_system_prompt ≡ option_map P.string config.system_prompt
    temperature : get c.annotations config_temperature ≡ option_map P.float config.temperature
    max_tokens : get c.annotations config_max_tokens ≡ option_map P.number config.max_tokens
    compaction_mode :
        get c.annotations config_llm_compaction_mode ≡ option_map P.string config.compaction_mode
    max_history_messages :
        get c.annotations config_llm_max_history_messages
        ≡ option_map P.number config.max_history_messages
    max_history_chars :
        get c.annotations config_llm_max_history_chars
        ≡ option_map P.number config.max_history_chars
    no_backend : get c.annotations config_llm_backend ≡ none
    no_model : get c.annotations config_llm_model ≡ none
    no_system_prompt : get c.annotations config_llm_system_prompt ≡ none
    no_temperature : get c.annotations config_llm_temperature ≡ none
    no_max_tokens : get c.annotations config_llm_max_tokens ≡ none

  make_config_chunk-Carried :
      (st : Stamp) (config : SessionConfig) → Carried config (make_config_chunk st config)
  unfolding make_config_chunk new_null with_annotation
  make_config_chunk-Carried st config = record {
    kind =
        is_config_lem (make_config_chunk st config) (simp content_type-annotate)
          (simp get-annotate);
    backend = simp (get-annotate, get-annotate_same);
    model = simp (get-annotate, get-annotate_same);
    system_prompt = simp (get-annotate, get-annotate_same);
    temperature = simp (get-annotate, get-annotate_same);
    max_tokens = simp (get-annotate, get-annotate_same);
    compaction_mode = simp (get-annotate, get-annotate_same);
    max_history_messages = simp (get-annotate, get-annotate_same);
    max_history_chars = simp (get-annotate, get-annotate_same);
    no_backend = simp get-annotate;
    no_model = simp get-annotate;
    no_system_prompt = simp get-annotate;
    no_temperature = simp get-annotate;
    no_max_tokens = simp get-annotate;
  }

  fill_lem {ℓ} :
      {A : Type ℓ} (c : Chunk) (key llm_key : String) (read : P.Value → Option A)
      (v : Option P.Value)
      → get c.annotations llm_key ≡ none
      → get c.annotations key ≡ v
      → fill c key read (overwrite c llm_key read none) ≡ map_or v none read
  unfolding fill overwrite
  fill_lem c key llm_key read v missing here = rw (missing, fill, here)

  overwrite_lem {ℓ} :
      {A : Type ℓ} (c : Chunk) (key : String) (read : P.Value → Option A) (v : Option P.Value)
      → get c.annotations key ≡ v
      → overwrite c key read none ≡ map_or v none read
  unfolding overwrite
  overwrite_lem c key read v here = rw here

  read_text : (o : Option String) → map_or (option_map P.string o) none P.as_str ≡ o
  read_text none = refl
  read_text (some s) = P.as_str-string s

  -- A number that JSON can hold.
  abbrev pub finite : Option P.Float → Option P.Float
  finite none = none
  finite (some x) = if P.is_finite x then some x else none

  read_float : (o : Option P.Float) → map_or (option_map P.float o) none float_of ≡ finite o
  unfolding float_of
  read_float none = refl
  read_float (some x) = elim (Bool-cases (P.is_finite x)) [
    | inl holds ↦ rw (holds, P.as_float-float x holds) refl
    | inr fails ↦ rw (fails, P.float-null x fails, P.as_float-null, P.as_str-null) refl
  ]

  -- The number fits the `u32` of the configuration.
  abbrev pub FitsU32 : Option ℕ → Type 0
  FitsU32 o = (n : ℕ) → o ≡ some n → n < 2 ^ 32

  read_u32 : (o : Option ℕ) → FitsU32 o → map_or (option_map P.number o) none u32_of ≡ o
  unfolding u32_of
  read_u32 none h = refl
  read_u32 (some n) h =
      let small : n < 2 ^ 32 = h n refl in
      let same : n % 2 ^ 32 ≡ n = omega arith in rw (P.as_u64-number n (omega arith), same)

  -- The configuration that the session's creator meant, but for a temperature that is not finite.
  abbrev pub intended : SessionConfig → LlmConfig
  intended config = record {
    backend = config.backend;
    model = config.model;
    system_prompt = config.system_prompt;
    temperature = finite config.temperature;
    max_tokens = config.max_tokens;
    compaction_mode = config.compaction_mode;
    max_history_messages = config.max_history_messages;
    max_history_chars = config.max_history_chars;
  }

  merge_config-Carried :
      (config : SessionConfig) (c : Chunk)
      → Carried config c
      → FitsU32 config.max_tokens
      → FitsU32 config.max_history_messages
      → FitsU32 config.max_history_chars
      → merge_config c unset ≡ intended config
  unfolding merge_config
  merge_config-Carried config c h tokens messages chars = rw (
    fill_lem c config_backend config_llm_backend P.as_str (option_map P.string config.backend)
          h.no_backend h.backend
        ∙ read_text config.backend,
    fill_lem c config_model config_llm_model P.as_str (option_map P.string config.model) h.no_model
          h.model
        ∙ read_text config.model,
    fill_lem c config_system_prompt config_llm_system_prompt P.as_str
          (option_map P.string config.system_prompt) h.no_system_prompt h.system_prompt
        ∙ read_text config.system_prompt,
    fill_lem c config_temperature config_llm_temperature float_of
          (option_map P.float config.temperature) h.no_temperature h.temperature
        ∙ read_float config.temperature,
    fill_lem c config_max_tokens config_llm_max_tokens u32_of
          (option_map P.number config.max_tokens) h.no_max_tokens h.max_tokens
        ∙ read_u32 config.max_tokens tokens,
    overwrite_lem c config_llm_compaction_mode P.as_str (option_map P.string config.compaction_mode)
          h.compaction_mode
        ∙ read_text config.compaction_mode,
    overwrite_lem c config_llm_max_history_messages u32_of
          (option_map P.number config.max_history_messages) h.max_history_messages
        ∙ read_u32 config.max_history_messages messages,
    overwrite_lem c config_llm_max_history_chars u32_of
          (option_map P.number config.max_history_chars) h.max_history_chars
        ∙ read_u32 config.max_history_chars chars,
  )

  -- From a history that is the configuration chunk that the bus makes of a session's configuration, the
  -- LLM service extracts that configuration, in every field that it reads, if the whole numbers of the
  -- configuration fit 32 bits, as their type says. One value is lost: a temperature that is infinite or
  -- no number is extracted as none.
  pub extract_config-make_config_chunk :
      (st : Stamp) (config : SessionConfig)
      → FitsU32 config.max_tokens
      → FitsU32 config.max_history_messages
      → FitsU32 config.max_history_chars
      → extract_config (make_config_chunk st config ∷ []) ≡ intended config
  unfolding extract_config
  extract_config-make_config_chunk st config tokens messages chars =
      let h = make_config_chunk-Carried st config in
      rw h.kind (merge_config-Carried config (make_config_chunk st config) h tokens messages chars)
