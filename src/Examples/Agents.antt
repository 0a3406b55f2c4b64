-- ===== src/Examples/Agents.antt =====
-- The agent runtime at a concrete bus.
use observable_cafev.Base.{
  ℕ, ◌+◌, ◌≤◌, ◌≡◌, refl, false, none, some, List, [], ◌∷◌, if◌then◌else◌, contains,
}
use observable_cafev.Map.{get}
use observable_cafev.Chunk.{Chunk, new_null, new_text, with_annotation, as_transient}
use observable_cafev.Chunk.Keys.{cafe_jsonrpc_response, chat_role, config_type}
use observable_cafev.Envelope.{
  SessionInfo, chunk, history_complete, session_created, session_deleted,
}
use observable_cafev.Rpc.{JsonRpcResponse, as_rpc_response}
use observable_cafev.Agent.Steps.{StepDef, PipelineContext, user_message}
use observable_cafev.Agent.Config.{known_config_keys, resolve_session_config}
use observable_cafev.Agent.Config.Merge.{given, resolve_session_config_lem}
use observable_cafev.Agent.Network.{Network, Log, Outcome, timed_out}
use observable_cafev.Agent.Network.Yields.{Calls}
use observable_cafev.Agent.Network.About.{IsAbout}
use observable_cafev.Agent.Dispatch.{PipelineError, dispatch_rpc}
use observable_cafev.Agent.Dispatch.Answered.{
  IsAnswered, IsTaken, concluded, dispatch_rpc-IsAnswered,
}
use observable_cafev.Agent.Tools.{Pattern}
use observable_cafev.Agent.Executor.{PipelineExecutor, on_trigger, run_queue, weight}
use observable_cafev.Agent.Executor.Terminates.{on_trigger_terminates}
use observable_cafev.Agent.Executor.Confined.{on_trigger_confined}
use observable_cafev.Agent.SessionLoop.{run_session_loop}
use observable_cafev.Agent.SessionLoop.Routing.{live_triggers, AllHandled, run_session_loop_lem}
use observable_cafev.Agent.Attachment.{AgentPipelineInfo, run_pipeline_subscriber}
use observable_cafev.Agent.Attachment.Once.{loops, deletions, run_pipeline_subscriber_once}
use observable_cafev.Examples.Plain.{plain, stamp, string, number}
use observable_cafev.Examples.Serde.{serde}

abbrev answer : JsonRpcResponse
answer = record { jsonrpc = "2.0"; id = "call-1"; result = some (number 7); error = none }

abbrev answer_chunk : Chunk
answer_chunk =
    with_annotation (new_null stamp "llm") cafe_jsonrpc_response (serde.of_response answer)

-- a bus that takes every call, and on which every call gets the answer to `call-1`
abbrev network : Network
network = record {
  published = λ log. none;
  history = λ log. [];
  history_fault = λ log. none;
  subscribed = λ log. none;
  messages = λ log. history_complete "s" 0 ∷ chunk "s" answer_chunk ∷ [];
  ending = λ log. timed_out;
  stamp = λ log. stamp;
  uuid = λ log. "call-1";
  schema = λ log name. none;
  snapshot = λ log. [];
}

abbrev pattern_none : Pattern
pattern_none = record { captures = λ s. []; remove_all = λ s. s; trim = λ s. s }

-- a step that runs on every completion, its own included
abbrev echo : StepDef
echo = record { id = "echo"; step_type = "echo"; trigger = "step_complete"; enabled_if = none }

abbrev first : StepDef
first = record { id = "llm"; step_type = "llm"; trigger = "user_message"; enabled_if = none }

abbrev executor : PipelineExecutor
executor = record { steps = first ∷ echo ∷ []; max_depth = 3 }

abbrev context : PipelineContext
context = record {
  session_id = "s";
  config = record { values = []; extra = [] };
  assembled_llm_text = none;
  user_text = some "hi";
  depth = 0;
}

on_trigger_terminates_example :
    (end : Outcome PipelineError Unit) × (on_trigger network pattern_none executor user_message
        context []
      ≡ some end)
    × ((extra : ℕ)
        → run_queue network pattern_none executor context
            (weight executor (user_message, context) + extra)
            ((user_message, context) ∷ [])
            []
          ≡ some end)
on_trigger_terminates_example =
    on_trigger_terminates network pattern_none executor user_message context []

on_trigger_confined_example :
    (end : Outcome PipelineError Unit) × (on_trigger network pattern_none executor user_message
        context []
      ≡ some end)
    × Calls (IsAbout "s") end
on_trigger_confined_example = on_trigger_confined network pattern_none executor user_message context

taken : IsTaken network first context []
taken = record { seen = refl; sent = refl; joined = refl }

answered : IsAnswered "call-1" (history_complete "s" 0 ∷ chunk "s" answer_chunk ∷ []) answer
unfolding as_rpc_response with_annotation new_null
answered = record {
  before = history_complete "s" 0 ∷ [];
  session_id = "s";
  answer = answer_chunk;
  after = [];
  split = refl;
  quiet = (tt, tt);
  read = refl;
  matching = refl;
}

dispatch_rpc-IsAnswered_example :
    dispatch_rpc network first context [] ≡ concluded network first context [] none
dispatch_rpc-IsAnswered_example =
    dispatch_rpc-IsAnswered network first context [] taken answer answered

abbrev settings : List Chunk
settings =
    record (new_null stamp "cli") {
      annotations = (config_type, string "runtime") ∷ ("config.tts.voice", string "a") ∷ [];
    }
    ∷ record (new_null stamp "cli") {
      annotations = ("config.tts.voice", string "b") ∷ (config_type, string "runtime") ∷ [];
    }
    ∷ []

resolve_session_config_lem_example :
    (get (resolve_session_config settings []).values "config.tts.voice"
      ≡ given settings "config.tts.voice")
    × (get (resolve_session_config settings []).extra "config.tts.voice" ≡ (
        if contains (known_config_keys []) "config.tts.voice"
        then none
        else given settings "config.tts.voice"))
resolve_session_config_lem_example =
    resolve_session_config_lem settings [] "config.tts.voice"
      ((refl, (refl, tt)), ((refl, (refl, tt)), tt))

abbrev question : Chunk
question = with_annotation (new_text stamp "hi" "cli") chat_role (string "user")

run_session_loop_lem_example :
    (last : Log) × (run_session_loop network pattern_none executor "s" false
        (chunk "s" question
          ∷ history_complete "s" 1
          ∷ chunk "s" (as_transient question)
          ∷ chunk "s" question
          ∷ [])
        []
      ≡ some last)
    × AllHandled network pattern_none executor "s"
        (live_triggers (chunk "s" (as_transient question) ∷ chunk "s" question ∷ []))
        []
        last
run_session_loop_lem_example =
    run_session_loop_lem network pattern_none executor "s" (chunk "s" question ∷ []) "s" 1
      (chunk "s" (as_transient question) ∷ chunk "s" question ∷ []) [] (tt, tt)

abbrev pipeline_info : AgentPipelineInfo
pipeline_info = record {
  steps = first ∷ [];
  rpc_timeout_secs = 60;
  max_pipeline_depth = 10;
  initial_chunk_type = "text";
  initial_chunk_annotations = [];
}

abbrev listed : SessionInfo
listed = record {
  session_id = "s";
  agent_id = "a";
  display_name = none;
  tags = [];
  is_background = false;
  ui_mode = "chat";
  message_count = 0;
  created_at = stamp.now_ms;
  parent_id = none;
}

run_pipeline_subscriber_once_example :
    loops "s" (
      run_pipeline_subscriber
        (("a", pipeline_info) ∷ [])
        stamp
        (listed ∷ [])
        (session_created "s" "a" ∷ session_deleted "s" ∷ session_created "s" "a" ∷ []))
    ≤ 1
      + deletions "s" (session_created "s" "a" ∷ session_deleted "s" ∷ session_created "s" "a" ∷ [])
run_pipeline_subscriber_once_example =
    run_pipeline_subscriber_once (("a", pipeline_info) ∷ []) stamp (listed ∷ [])
      (session_created "s" "a" ∷ session_deleted "s" ∷ session_created "s" "a" ∷ []) "s"
