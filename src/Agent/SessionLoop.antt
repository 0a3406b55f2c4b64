-- ===== src/Agent/SessionLoop.antt =====
-- cafe-agent-runtime/src/session_loop.rs: which chunks of a session start the pipeline.
pub mod Routing
use observable_cafev.Base.{
  String, Bool, true, false, not, Option, none, some, List, [], ◌∷◌, ◌&&◌, ◌==◌, and_then, is,
  unwrap_or, if◌then◌else◌,
}
use observable_cafev.Platform.{Platform}
use observable_cafev.Map.{get}
use observable_cafev.Chunk
use observable_cafev.Chunk.{
  Chunk, is_type, binary_ref, role, is_transient, get_str, new_null, with_annotation,
}
use observable_cafev.Chunk.Keys.{chat_stream_complete, cafe_flow_signal, cafe_error_message}
use observable_cafev.Envelope.{ServerMessage, chunk, history_complete}
use observable_cafev.Rpc.{Serde}
use observable_cafev.Agent.Steps.{
  TriggerType, user_message, llm_complete, scheduler_tick, PipelineContext,
}
use observable_cafev.Agent.Config.{resolve_session_config}
use observable_cafev.Agent.Network.{Network, Log, Fault, Outcome, ok, err, bus_history, bus_publish}
use observable_cafev.Agent.Dispatch.{PipelineError, runtime, display}
use observable_cafev.Agent.Tools.{Pattern}
use observable_cafev.Agent.Executor.{PipelineExecutor, on_trigger}

module _ ⦃P : Platform⦄ where
  -- the text of the last chunk with one by the language model, onto that of the earlier chunks
  unfoldable pub last_text : List Chunk → Option String → Option String
  last_text [] earlier = earlier
  last_text (c ∷ history) earlier = elim c.content [
    | none ↦ last_text history earlier
    | some body ↦ last_text history (
        if is_type c.content_type Chunk.text
          && is (role c) "assistant"
          && c.producer == "com.nominal.cafe-llm"
          && not (body == "")
        then some body
        else earlier)
  ]

  unfoldable pub extract_last_assistant_text : List Chunk → Option String
  unfolding last_text
  extract_last_assistant_text history = last_text history none

  unfoldable pub is_complete : Chunk → Bool
  is_complete c = unwrap_or (and_then (get c.annotations chat_stream_complete) P.as_bool) false

  -- the `match` that determines the trigger
  unfoldable pub trigger_of : Chunk → Option TriggerType
  unfolding role is_complete get_str
  trigger_of c =
      if is_type c.content_type Chunk.text && is (role c) "user"
      then some user_message
      else if is_type c.content_type binary_ref && is (role c) "user"
      then some user_message
      else if is (role c) "assistant" && is_complete c
      then some llm_complete
      else if is (get_str c cafe_flow_signal) "tick"
      then some scheduler_tick
      else none

  -- One message: whether the replay is over, and what it triggers with which chunk.
  unfoldable pub route : Bool → ServerMessage → Bool × Option (TriggerType × Chunk)
  unfolding is_transient trigger_of
  route done (chunk id c) =
      if is_transient c
      then (done, none)
      else if not done
      then (done, none)
      else (done, and_then (trigger_of c) (λ t. some (t, c)))
  route done (history_complete id count) = (true, none)
  route done _ = (done, none)

  module _ ⦃S : Serde⦄ where
    unfoldable pub assembled : TriggerType → Chunk → List Chunk → Option String
    unfolding extract_last_assistant_text
    assembled llm_complete c history = elim (extract_last_assistant_text history) [
      | some body ↦ some body
      | none ↦ c.content
    ]
    assembled _ c history = none

    abbrev pub said_by_user : TriggerType → Chunk → Option String
    said_by_user user_message c = c.content
    said_by_user _ c = none

    unfoldable pub context_of :
        Network → Log → String → TriggerType → Chunk → List Chunk → PipelineContext
    unfolding assembled resolve_session_config
    context_of net log id trigger c history = record {
      session_id = id;
      config = resolve_session_config history (net.snapshot log);
      assembled_llm_text = assembled trigger c history;
      user_text = said_by_user trigger c;
      depth = 0;
    }

    -- After the pipeline: an error is published into the session.
    unfoldable pub conclude_pipeline :
        Network → String → Option (Outcome PipelineError Unit) → Option Log
    unfolding display
    conclude_pipeline net id none = none
    conclude_pipeline net id (some (ok a log)) = some log
    conclude_pipeline net id (some (err e log)) =
        let c =
          with_annotation
            (with_annotation (new_null (net.stamp log) runtime) cafe_error_message
              (P.string (display e)))
            "error.source" (P.string "pipeline") in
        elim (bus_publish net id c log) [ ok a next ↦ some next | err f next ↦ some next ]

    -- A routed chunk, once the history is there. `none`: the pipeline ran out of the model's fuel.
    unfoldable pub fire :
        Network
        → Pattern
        → PipelineExecutor
        → String
        → TriggerType
        → Chunk
        → Outcome Fault (List Chunk)
        → Option Log
    unfolding context_of on_trigger conclude_pipeline
    fire net re ex id trigger c (err e log) = some log
    fire net re ex id trigger c (ok history log) =
        conclude_pipeline net id
          (on_trigger net re ex trigger (context_of net log id trigger c history) log)

    -- `run_session_loop`, on the messages that the subscription yields
    unfoldable pub run_session_loop :
        Network → Pattern → PipelineExecutor → String → Bool → List ServerMessage → Log → Option Log
    unfolding route fire
    run_session_loop net re ex id done [] log = some log
    run_session_loop net re ex id done (msg ∷ rest) log =
        let (next, trigger) = route done msg in
        elim trigger [
          | none ↦ run_session_loop net re ex id next rest log
          | some (t, c) ↦
              and_then (fire net re ex id t c (bus_history net id log))
                (run_session_loop net re ex id next rest)
        ]
