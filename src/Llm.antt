-- ===== src/Llm.antt =====
-- cafe-llm/src/context.rs: the prompt that is made of a session's history.
--
-- A temperature is opaque. `content.len()` is the number of bytes in UTF-8.
pub mod Config
pub mod Agreement
pub mod Prompt
pub mod Compaction
pub mod Service
pub mod Router
use Prim.Native.Char.{code}
use Prim.Native.String
use observable_cafev.Base.{
  ℕ, suc, zero, ◌+◌, String, Bool, true, false, Option, none, some, List, [], ◌∷◌, ◌++◌, ◌&&◌, ◌||◌,
  not, ◌==◌, ltb, leb, length, drop, map_or, unwrap_or, push_str, if◌then◌else◌,
}
use observable_cafev.Platform.{Platform}
use observable_cafev.Map.{get}
use observable_cafev.Chunk.{Chunk, is_type, text, role}

pub record LlmMessage : Type 0 where
  pub role : String
  pub content : String

abbrev utf8_len : ℕ → ℕ
utf8_len c = if ltb c 0x80 then 1 else if ltb c 0x800 then 2 else if ltb c 0x10000 then 3 else 4

-- `str::len`
unfoldable pub byte_len : String → ℕ
byte_len String.[] = 0
byte_len (String.◌∷◌ c s) = utf8_len (code c) + byte_len s

-- The end of the loop's body: the message joins the last one if that has the same role.
unfoldable pub push_message : LlmMessage → List LlmMessage → List LlmMessage
push_message m [] = m ∷ []
push_message m (last ∷ []) =
    if last.role == m.role
    then record last { content = push_str (push_str last.content "\n") m.content } ∷ []
    else last ∷ m ∷ []
push_message m (first ∷ second ∷ rest) = first ∷ push_message m (second ∷ rest)

module _ ⦃P : Platform⦄ where
  -- The chunk was marked as not to be trusted.
  unfoldable pub is_untrusted : Chunk → Bool
  is_untrusted c =
      map_or (get c.annotations "security.trust-level") false
        (λ trust. P.eq (P.index trust "trusted") (P.bool false))

  abbrev pub turn_of : Option String → Option String → Option LlmMessage
  turn_of none content = none
  turn_of (some r) content =
      if r == "user" || r == "assistant"
      then some (record { role = r; content = unwrap_or content "" })
      else none

  -- What a chunk contributes to the conversation.
  unfoldable pub turn : Chunk → Option LlmMessage
  unfolding is_untrusted role
  turn c =
      if not (is_type c.content_type text) || is_untrusted c
      then none
      else turn_of (role c) c.content

  unfoldable pub push_turn : Option LlmMessage → List LlmMessage → List LlmMessage
  unfolding push_message
  push_turn none messages = messages
  push_turn (some m) messages = push_message m messages

  unfoldable pub build_from : List Chunk → List LlmMessage → List LlmMessage
  unfolding push_turn turn
  build_from [] messages = messages
  build_from (c ∷ history) messages = build_from history (push_turn (turn c) messages)

  abbrev pub system_message : Option String → List LlmMessage
  system_message none = []
  system_message (some prompt) = record { role = "system"; content = prompt } ∷ []

  unfoldable pub build_messages : List Chunk → Option String → List LlmMessage
  unfolding build_from
  build_messages history system_prompt = build_from history (system_message system_prompt)

  pub record LlmConfig : Type 0 where
    pub backend : Option String
    pub model : Option String
    pub system_prompt : Option String
    pub temperature : Option P.Float
    pub max_tokens : Option ℕ
    pub compaction_mode : Option String
    pub max_history_messages : Option ℕ
    pub max_history_chars : Option ℕ

pub record CompactionInfo : Type 0 where
  pub dropped_messages : ℕ
  pub dropped_chars : ℕ
  pub dropped : List LlmMessage

unfoldable pub chars : List LlmMessage → ℕ
unfolding byte_len
chars [] = 0
chars (m ∷ ms) = byte_len m.content + chars ms

-- `limit.map(|m| n <= m).unwrap_or(true)`
abbrev pub within : Option ℕ → ℕ → Bool
within none n = true
within (some m) n = leb n m

-- `.filter(|&n| n >= 1)`
unfoldable pub positive : Option ℕ → Option ℕ
positive none = none
positive (some n) = if leb 1 n then some n else none

unfoldable pub fits_budgets : Option ℕ → Option ℕ → List LlmMessage → Bool
unfolding chars
fits_budgets max_messages max_chars window =
    within max_messages (length window) && within max_chars (chars window)

-- The loop for the start of the window.
unfoldable pub window_start : Option ℕ → Option ℕ → List LlmMessage → ℕ
unfolding fits_budgets
window_start max_messages max_chars [] = 0
window_start max_messages max_chars (m ∷ rest) =
    let later = window_start max_messages max_chars rest in
    if fits_budgets max_messages max_chars (m ∷ rest) || leb (length (m ∷ rest)) 1
    then 0
    else suc later

abbrev pub take : ℕ → List LlmMessage → List LlmMessage
take zero ms = []
take (suc n) [] = []
take (suc n) (m ∷ ms) = m ∷ take n ms

unfoldable pub split_system : List LlmMessage → List LlmMessage × List LlmMessage
split_system [] = ([], [])
split_system (first ∷ rest) =
    if first.role == "system" then (first ∷ [], rest) else ([], first ∷ rest)

abbrev pub uncompacted : List LlmMessage → List LlmMessage × CompactionInfo
uncompacted messages = (messages, record { dropped_messages = 0; dropped_chars = 0; dropped = [] })

unfoldable pub compact_with :
    Option ℕ → Option ℕ → List LlmMessage × List LlmMessage → List LlmMessage × CompactionInfo
unfolding window_start chars
compact_with max_messages max_chars (system, rest) =
    let start = window_start max_messages max_chars rest in
    (
      system ++ drop start rest,
      record {
        dropped_messages = start;
        dropped_chars = chars (take start rest);
        dropped = take start rest;
      },
    )

abbrev pub no_budget : Option ℕ → Option ℕ → Bool
no_budget none none = true
no_budget _ _ = false

abbrev pub compacts : Option String → Bool
compacts mode = unwrap_or mode "none" == "truncate" || unwrap_or mode "none" == "summarize"

module _ ⦃P : Platform⦄ where
  unfoldable pub apply_compaction : List LlmMessage → LlmConfig → List LlmMessage × CompactionInfo
  unfolding compact_with split_system positive
  apply_compaction messages cfg =
      if not (compacts cfg.compaction_mode)
        || no_budget (positive cfg.max_history_messages) (positive cfg.max_history_chars)
      then uncompacted messages
      else compact_with (positive cfg.max_history_messages) (positive cfg.max_history_chars)
          (split_system messages)

unfoldable pub transcript : List LlmMessage → String
transcript [] = ""
transcript (m ∷ ms) =
    push_str (push_str (push_str (push_str m.role ": ") m.content) "\n") (transcript ms)

unfoldable pub build_summary_request : List LlmMessage → List LlmMessage
unfolding transcript
build_summary_request dropped =
    record {
      role = "system";
      content =
          "Summarize the following conversation prefix concisely. Preserve key facts, decisions, user preferences, and open questions. Reply with the summary only, no preamble.";
    }
    ∷ record { role = "user"; content = transcript dropped }
    ∷ []

unfoldable pub insert_summary : List LlmMessage → String → List LlmMessage
unfolding split_system
insert_summary messages summary =
    let (system, rest) = split_system messages in
    system
    ++ record {
      role = "system";
      content = push_str "Prior conversation summary (compacted):\n" summary;
    }
      ∷ rest
