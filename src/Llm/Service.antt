-- ===== src/Llm/Service.antt =====
-- cafe-llm/src/evaluator.rs: how the LLM service answers the JSON-RPC requests of a session. A backend, as
-- `LlmBackend` of cafe-llm/src/backends/mod.rs, is a parameter.
--
-- What is published is the list of chunks in order, whatever becomes of it; chunk number `n` takes its id
-- and its time from `stamps n`.
pub mod Answers
use observable_cafev.Base.{
  ℕ, suc, ◌+◌, String, Bool, true, false, not, Option, none, some, List, [], ◌∷◌, ◌++◌, ◌==◌, ◌&&◌,
  map, is, ltb, unwrap_or, length, push_str, if◌then◌else◌, ℤ,
}
use observable_cafev.Platform.{Platform}
use observable_cafev.Chunk.{
  Chunk, Stamp, new_null, new_text, with_annotation, as_transient, with_retain, get_str, is_type,
  null,
}
use observable_cafev.Chunk.Keys.{
  chat_role, chat_stream_complete, chat_model, chat_finish_reason, chat_is_streaming,
  cafe_flow_tombstone, cafe_flow_signal, cafe_error_message, cafe_jsonrpc_response,
}
use observable_cafev.Envelope.{ServerMessage, chunk, history_complete}
use observable_cafev.Rpc.{
  Serde, JsonRpcRequest, JsonRpcResponse, ok_response, err_response, as_rpc_request,
}
use observable_cafev.Llm.{
  LlmMessage, LlmConfig, build_messages, apply_compaction, build_summary_request, insert_summary,
}
use observable_cafev.Llm.Config.{extract_config}

-- What the loop over a token stream sees, in order: a token, an error of the stream, or a change of the
-- abort flag. The end of the list is the end of the stream.
pub data Event : Type 0 where
  token : (body : String) → Event
  failure : Event
  changed : (abort : Bool) → Event

-- the result of `LlmBackend::complete`
pub data Completion : Type 0 where
  refused : (message : String) → Completion
  streams : (events : List Event) → Completion

abbrev pub service : String
service = "com.nominal.cafe-llm"

module _ ⦃P : Platform⦄ where
  pub record LlmParams : Type 0 where
    pub model : String
    pub temperature : Option P.Float
    pub max_tokens : Option ℕ
    pub session_id : Option String
    pub backend : Option String

  pub record LlmBackend : Type 0 where
    pub complete : List LlmMessage → LlmParams → Completion
    pub default_model_for : Option String → Option String

  -- `complete_to_string`; a change of the abort flag is no item of the stream
  unfoldable pub collect_text : List Event → Option String
  collect_text [] = some ""
  collect_text (token t ∷ rest) = elim (collect_text rest) [
    | some u ↦ some (push_str t u)
    | none ↦ none
  ]
  collect_text (failure ∷ rest) = none
  collect_text (changed abort ∷ rest) = collect_text rest

  unfoldable pub complete_to_string : LlmBackend → List LlmMessage → LlmParams → Option String
  unfolding collect_text
  complete_to_string backend messages params = elim (backend.complete messages params) [
    | refused e ↦ none
    | streams events ↦ collect_text events
  ]

  pub record Streamed : Type 0 where
    pub finish_reason : String
    pub full_response : String
    pub token_ids : List String
    pub emitted : List Chunk

  unfoldable pub token_chunk : Stamp → String → Chunk
  token_chunk st t = as_transient (
      with_annotation (with_annotation (new_text st t service) chat_role (P.string "assistant"))
        chat_is_streaming (P.bool true))

  abbrev pub stopped : String → Streamed
  stopped reason = record {
    finish_reason = reason;
    full_response = "";
    token_ids = [];
    emitted = [];
  }

  unfoldable pub run_stream_loop : (ℕ → Stamp) → ℕ → List Event → Streamed
  unfolding token_chunk
  run_stream_loop stamps n [] = stopped "stop"
  run_stream_loop stamps n (token t ∷ rest) =
      let later = run_stream_loop stamps (n + 1) rest in
      record {
        finish_reason = later.finish_reason;
        full_response = push_str t later.full_response;
        token_ids = (stamps n).uuid ∷ later.token_ids;
        emitted = token_chunk (stamps n) t ∷ later.emitted;
      }
  run_stream_loop stamps n (failure ∷ rest) = stopped "error"
  run_stream_loop stamps n (changed true ∷ rest) = stopped "abort"
  run_stream_loop stamps n (changed false ∷ rest) = run_stream_loop stamps n rest

  unfoldable pub summarize_prefix :
      LlmBackend
      → (String → String)
      → String
      → Option String
      → List LlmMessage
      → List LlmMessage
      → String
      → List LlmMessage
  unfolding complete_to_string build_summary_request insert_summary
  summarize_prefix backend trim model name messages [] session_id = messages
  summarize_prefix backend trim model name messages (m ∷ dropped) session_id =
      elim (complete_to_string backend (build_summary_request (m ∷ dropped)) (record {
        model = model;
        temperature = none;
        max_tokens = none;
        session_id = some session_id;
        backend = name;
      })) [
        | none ↦ messages
        | some summary ↦
            if trim summary == "" then messages else insert_summary messages (trim summary)
      ]

  -- what an `llm.invoke` asks the backend, given the history
  unfoldable pub prepare_invoke :
      LlmBackend → (String → String) → String → String → List Chunk → List LlmMessage × LlmParams
  unfolding extract_config build_messages apply_compaction summarize_prefix
  prepare_invoke backend trim default_model session_id history =
      let cfg = extract_config history in
      let model =
        unwrap_or cfg.model (unwrap_or (backend.default_model_for cfg.backend) default_model) in
      let (messages, compaction) =
        apply_compaction (build_messages history cfg.system_prompt) cfg in
      (
        if ltb 0 compaction.dropped_messages && is cfg.compaction_mode "summarize"
            then summarize_prefix backend trim model cfg.backend messages compaction.dropped
                session_id
            else messages,
        record {
          model = model;
          temperature = cfg.temperature;
          max_tokens = cfg.max_tokens;
          session_id = some session_id;
          backend = cfg.backend;
        },
      )

  module _ ⦃S : Serde⦄ where
    unfoldable pub response_chunk : Stamp → JsonRpcResponse → Chunk
    response_chunk st r =
        with_retain
          (as_transient
            (with_annotation (new_null st service) cafe_jsonrpc_response (S.of_response r)))
          60

    unfoldable pub error_chunk : Stamp → String → Chunk
    error_chunk st message =
        with_annotation
          (with_annotation
            (with_annotation
              (with_annotation (new_null st service) cafe_error_message (P.string message))
              chat_role (P.string "assistant"))
            chat_stream_complete (P.bool true))
          chat_finish_reason (P.string "error")

    unfoldable pub start_chunk : Stamp → Chunk
    start_chunk st =
        with_retain
          (as_transient (
            with_annotation (with_annotation (new_null st service) chat_role (P.string "assistant"))
              chat_is_streaming (P.bool true)))
          5

    unfoldable pub text_chunk : Stamp → String → String → Chunk
    text_chunk st body model =
        with_annotation
          (with_annotation
            (with_annotation (new_text st body service) chat_role (P.string "assistant"))
            chat_is_streaming (P.bool true))
          chat_model (P.string model)

    unfoldable pub tombstone : Stamp → List String → Chunk
    tombstone st ids =
        as_transient
          (with_annotation (new_null st service) cafe_flow_tombstone (P.array (map P.string ids)))

    unfoldable pub done_chunk : Stamp → String → Chunk
    done_chunk st reason =
        with_annotation
          (with_annotation (with_annotation (new_null st service) chat_role (P.string "assistant"))
            chat_stream_complete (P.bool true))
          chat_finish_reason (P.string reason)

    unfoldable pub status_ok : P.Value
    status_ok = S.object (("status", P.string "ok") ∷ [])

    -- after the stream
    unfoldable pub closing : (ℕ → Stamp) → ℕ → String → String → Streamed → List Chunk
    unfolding text_chunk tombstone done_chunk response_chunk status_ok
    closing stamps n model call_id s =
        (if s.full_response == "" then [] else text_chunk (stamps n) s.full_response model ∷ [])
        ++ tombstone (stamps (n + 1)) s.token_ids
          ∷ done_chunk (stamps (n + 2)) s.finish_reason
          ∷ response_chunk (stamps (n + 3)) (ok_response call_id status_ok)
          ∷ []

    unfoldable pub handle_llm_response : (ℕ → Stamp) → String → String → Completion → List Chunk
    unfolding run_stream_loop closing error_chunk start_chunk response_chunk
    handle_llm_response stamps model call_id (refused e) =
        error_chunk (stamps 0) e
        ∷ response_chunk (stamps 1) (err_response call_id (ℤ.negsuc 0) e)
        ∷ []
    handle_llm_response stamps model call_id (streams events) =
        let s = run_stream_loop stamps 1 events in
        start_chunk (stamps 0) ∷ s.emitted ++ closing stamps (1 + length s.emitted) model call_id s

    -- One message of the subscription: whether the replay is over, and the request that is handled.
    unfoldable pub accept : String → Bool → ServerMessage → Bool × Option JsonRpcRequest
    unfolding as_rpc_request get_str
    accept session_id done (chunk sid c) =
        if not (sid == session_id)
        then (done, none)
        else if is_type c.content_type null && is (get_str c cafe_flow_signal) "abort"
        then (done, none)
        else if done
        then (done, as_rpc_request c)
        else (done, none)
    accept session_id done (history_complete id count) = (true, none)
    accept session_id done _ = (done, none)
