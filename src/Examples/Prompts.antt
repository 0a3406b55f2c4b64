-- ===== src/Examples/Prompts.antt =====
-- Prompts at concrete inputs.
use observable_cafev.Base.{◌≡◌, ◌++◌, none, some, List, [], ◌∷◌, arith, some_inj}
use observable_cafev.Chunk.{Chunk, new_text, with_annotation}
use observable_cafev.Chunk.Keys.{chat_role}
use observable_cafev.Llm.{LlmMessage, LlmConfig, apply_compaction, build_messages, system_message}
use observable_cafev.Llm.Compaction.{Outcome, apply_compaction-Compacted}
use observable_cafev.Llm.Prompt.{
  Alternates, runs, turns, build_messages_lem, build_messages-Alternates,
}
use observable_cafev.Envelope.{SessionConfig}
use observable_cafev.Handlers.Notices.{make_config_chunk}
use observable_cafev.Llm.Config.{extract_config}
use observable_cafev.Llm.Agreement.{FitsU32, intended, extract_config-make_config_chunk}
use observable_cafev.Examples.Plain.{plain, string}
use observable_cafev.Examples.Sessions.{at_start, a_bit_later}

abbrev history : List Chunk
history =
    with_annotation (new_text at_start "hi" "cli") chat_role (string "user")
    ∷ with_annotation (new_text a_bit_later "are you there?" "cli") chat_role (string "user")
    ∷ with_annotation (new_text a_bit_later "yes" "llm") chat_role (string "assistant")
    ∷ []

build_messages_lem_example :
    build_messages history (some "be brief")
    ≡ system_message (some "be brief") ++ runs (turns history)
build_messages_lem_example = build_messages_lem history (some "be brief")

build_messages-Alternates_example : Alternates (build_messages history (some "be brief"))
build_messages-Alternates_example = build_messages-Alternates history (some "be brief")

abbrev dialogue : List LlmMessage
dialogue =
    record { role = "system"; content = "be brief" }
    ∷ record { role = "user"; content = "hi" }
    ∷ record { role = "assistant"; content = "hello" }
    ∷ record { role = "user"; content = "how are you?" }
    ∷ []

abbrev two_messages : LlmConfig
two_messages = record {
  backend = none;
  model = none;
  system_prompt = none;
  temperature = none;
  max_tokens = none;
  compaction_mode = some "truncate";
  max_history_messages = some 2;
  max_history_chars = some 15;
}

apply_compaction-Compacted_example :
    Outcome dialogue two_messages (apply_compaction dialogue two_messages)
apply_compaction-Compacted_example = apply_compaction-Compacted dialogue two_messages

abbrev chosen : SessionConfig
chosen = record {
  backend = some "local";
  model = some "small";
  system_prompt = none;
  temperature = some (some 7);
  max_tokens = some 100;
  compaction_mode = some "truncate";
  max_history_messages = some 2;
  max_history_chars = none;
  tags = none;
  ephemeral = none;
}

hundred_fits : FitsU32 (some 100)
hundred_fits n h = let same : 100 ≡ n = some_inj h in omega arith

two_fits : FitsU32 (some 2)
two_fits n h = let same : 2 ≡ n = some_inj h in omega arith

extract_config-make_config_chunk_example :
    extract_config (make_config_chunk at_start chosen ∷ []) ≡ intended chosen
extract_config-make_config_chunk_example =
    extract_config-make_config_chunk at_start chosen hundred_fits two_fits (λ n h. absurd (cc h))
