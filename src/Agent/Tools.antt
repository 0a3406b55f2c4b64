-- ===== src/Agent/Tools.antt =====
-- cafe-agent-runtime/src/tool_detector.rs and tool_executor.rs: the tool calls that a model writes into
-- its text, and how one is carried out.
pub mod Confined
use observable_cafev.Base.{
  String, none, some, List, [], ◌∷◌, is, unwrap_or, if◌then◌else◌, push_str,
}
use observable_cafev.Platform.{Platform}
use observable_cafev.Chunk.{Chunk, new_null, new_text, with_annotation, as_transient, with_retain}
use observable_cafev.Chunk.Keys.{cafe_tool_call, cafe_tool_result, chat_role}
use observable_cafev.Rpc.{Serde, ToolCall, ToolResult, new_request}
use observable_cafev.Agent.Network.{
  Network, Log, Fault, Program, Ending, timed_out, disconnected, ◌>>=◌, return, ask, bus_post,
  bus_history, bus_subscribe, bus_receive, fresh_uuid, attempt,
}
use observable_cafev.Agent.Dispatch.{
  PipelineError, runtime, request_chunk, Awaited, response, malformed, unanswered, await,
}

-- `regex`, at the pattern of the detector: the first groups of its matches, in order, and the text with
-- the matches removed; and `str::trim`.
pub record Pattern : Type 0 where
  pub captures : String → List String
  pub remove_all : String → String
  pub trim : String → String

module _ ⦃P : Platform⦄ ⦃S : Serde⦄ where
  -- A call that is no valid JSON is left out.
  unfoldable pub parsed_calls : List String → List ToolCall
  parsed_calls [] = []
  parsed_calls (json ∷ rest) = elim (S.parse_tool_call json) [
    | some call ↦ call ∷ parsed_calls rest
    | none ↦ parsed_calls rest
  ]

  unfoldable pub detect : Pattern → String → String × List ToolCall
  unfolding parsed_calls
  detect re body = elim (parsed_calls (re.captures body)) [
    | [] ↦ (body, [])
    | call ∷ calls ↦ (re.trim (re.remove_all body), call ∷ calls)
  ]

  -- the chunk that carries the result of a tool
  unfoldable pub result_chunk : Network → Log → ToolResult → Chunk
  result_chunk net log result =
      with_annotation (new_null (net.stamp log) runtime) cafe_tool_result (S.of_tool_result result)

  module _ (net : Network) (session_id : String) where
    unfoldable pub publish_result : ToolResult → Program Fault Unit
    unfolding result_chunk
    publish_result result =
        bus_post net session_id (λ log. with_retain (as_transient (result_chunk net log result)) 60)

    -- the chunk of a call that timed out, which is not retained
    unfoldable pub publish_timeout : ToolResult → Program Fault Unit
    unfolding result_chunk
    publish_timeout result =
        bus_post net session_id (λ log. as_transient (result_chunk net log result))

    unfoldable pub publish_text : String → Program Fault Unit
    publish_text body = bus_post net session_id (λ log.
        with_annotation (new_text (net.stamp log) body runtime) chat_role (P.string "assistant"))

    unfoldable pub succeeded : ToolCall → P.Value → Program Fault Unit
    unfolding publish_result publish_text
    succeeded call output = do
      _ ←
          publish_result
            (record { name = call.name; output = output; error = none; provider = call.provider })
      publish_text (
          push_str "Tool call completed: " (
            push_str call.name
              (push_str "\n```\n" (push_str (unwrap_or (S.to_string_pretty output) "{}") "\n```"))))

    unfoldable pub failed : ToolCall → String → Program Fault Unit
    unfolding publish_result publish_text
    failed call message = do
      _ ← publish_result (record {
        name = call.name;
        output = P.null;
        error = some message;
        provider = call.provider;
      })
      publish_text (push_str "Tool call " (push_str call.name (push_str " failed: " message)))

    unfoldable pub expired : ToolCall → Program Fault Unit
    unfolding publish_timeout publish_text
    expired call = do
      _ ← publish_timeout (record {
        name = call.name;
        output = P.null;
        error = some "RPC timeout after 30s";
        provider = call.provider;
      })
      publish_text (push_str "Tool call " (push_str call.name " timed out"))

    -- A response that cannot be read, or a lost bus, is only logged.
    unfoldable pub report : ToolCall → Awaited → Ending → Program Fault Unit
    unfolding succeeded failed expired
    report call (response r) ending = elim r.error [
      | none ↦ succeeded call (unwrap_or r.result P.null)
      | some e ↦ failed call e.message
    ]
    report call malformed ending = return tt
    report call unanswered disconnected = return tt
    report call unanswered timed_out = expired call

    unfoldable pub request_tool : ToolCall → Program Fault Unit
    unfolding request_chunk await report
    request_tool call = do
      uuid ← fresh_uuid net
      let request = new_request uuid call.name call.parameters
      history ← bus_history net session_id
      sent ← bus_post net session_id (λ log. request_chunk net log request)
      subscribed ← bus_subscribe net session_id
      (messages, ending) ← bus_receive net session_id
      report call (await request.id messages) ending

    unfoldable pub execute : ToolCall → Program Fault Unit
    unfolding request_tool
    execute call = if is call.provider "mcp" then return tt else request_tool call

    -- the loop of `on_trigger` over the calls that were detected
    unfoldable pub publish_calls : List ToolCall → Program PipelineError Unit
    publish_calls [] = return tt
    publish_calls (call ∷ calls) = do
      _ ← attempt (
          bus_post net session_id (λ log.
            with_annotation (new_null (net.stamp log) runtime) cafe_tool_call
              (S.of_tool_call call)))
      publish_calls calls

    -- the loop of `on_trigger` over the calls to carry out
    unfoldable pub execute_all : List ToolCall → Program PipelineError Unit
    unfolding execute
    execute_all [] = return tt
    execute_all (call ∷ calls) = do _ ← attempt (execute call); execute_all calls
