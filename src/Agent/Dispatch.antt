-- ===== src/Agent/Dispatch.antt =====
-- `build_rpc_params` and `dispatch_rpc` of cafe-agent-runtime/src/executor.rs: how an RPC step asks an
-- evaluator and waits for its answer.
pub mod Confined
pub mod Answered
use observable_cafev.Base.{
  ℕ, ◌+◌, String, Option, none, some, List, [], ◌∷◌, ◌==◌, ◌||◌, and_then, map_or, unwrap_or,
  if◌then◌else◌, push_str, ℤ,
}
use observable_cafev.Platform.{Platform}
use observable_cafev.Map.{Map, get, insert}
use observable_cafev.Chunk.{Chunk, new_null, with_annotation, as_transient, with_retain}
use observable_cafev.Chunk.Keys.{cafe_jsonrpc_request}
use observable_cafev.Envelope.{ServerMessage, chunk}
use observable_cafev.Rpc.{
  Serde, EvaluatorSchema, JsonRpcResponse, JsonRpcRequest, new_request, is_rpc_response_for,
  as_rpc_response,
}
use observable_cafev.Agent.Steps.{StepDef, TriggerType, step_complete, PipelineContext}
use observable_cafev.Agent.Network.{
  Network, Log, Program, Ending, timed_out, disconnected, ◌>>=◌, return, fail, map_err, ask,
  bus_post, bus_history, bus_subscribe, bus_receive, fresh_uuid,
}

-- `PipelineError`; the source of `bus` is kept by its display.
pub data PipelineError : Type 0 where
  timeout : (step_id call_id : String) → PipelineError
  rpc_error : (step_id : String) (code : ℤ) (message : String) → PipelineError
  bus : (step_id source : String) → PipelineError
  sdk : (source : String) → PipelineError
  io : (source : String) → PipelineError

abbrev pub runtime : String
runtime = "com.nominal.cafe-agent-runtime"

module _ ⦃P : Platform⦄ where
  -- an item of the work queue
  abbrev pub Entry : Type 0
  Entry = TriggerType × PipelineContext

  -- `assembled_llm_text`, else `user_text`
  unfoldable pub available_text : PipelineContext → Option String
  available_text ctx = elim ctx.assembled_llm_text [ some t ↦ some t | none ↦ ctx.user_text ]

  module _ ⦃S : Serde⦄ where
    -- `to_string` of an error
    unfoldable pub display : PipelineError → String
    display (timeout step call) =
        push_str "RPC step '" (push_str step (push_str "' timed out waiting for call_id=" call))
    display (rpc_error step code message) = push_str "RPC step '" (
        push_str step
          (push_str "' returned error: [" (push_str (S.show_i32 code) (push_str "] " message))))
    display (bus step source) =
        push_str "Bus error in step '" (push_str step (push_str "': " source))
    display (sdk source) = push_str "SDK error: " source
    display (io source) = push_str "I/O error: " source

    -- one round of the loop over the declared properties
    unfoldable pub param : String → PipelineContext → String → P.Value → Map P.Value → Map P.Value
    unfolding available_text
    param namespace ctx name spec params =
        if name == "session_id"
        then params
        else if name == "text" || name == "prompt"
        then insert params name (P.string (unwrap_or (available_text ctx) ""))
        else map_or
            (get ctx.config.values (
              unwrap_or (P.as_str (P.index spec "x-config-key"))
                (push_str "config." (push_str namespace (push_str "." name)))))
            params (insert params name)

    unfoldable pub fill : String → PipelineContext → Map P.Value → Map P.Value → Map P.Value
    unfolding param
    fill namespace ctx [] params = params
    fill namespace ctx ((name, spec) ∷ props) params =
        fill namespace ctx props (param namespace ctx name spec params)

    -- A member that is not there reads as `Null`, which is not an object.
    unfoldable pub build_rpc_params :
        String → PipelineContext → Option EvaluatorSchema → Map P.Value
    unfolding fill available_text
    build_rpc_params namespace ctx schema =
        let params = insert [] "session_id" (P.string ctx.session_id) in
        elim (and_then schema (λ s. S.as_object (P.index s.rpc_params_schema "properties"))) [
          | some props ↦ fill namespace ctx props params
          | none ↦ map_or (available_text ctx) params (λ t. insert params "text" (P.string t))
        ]

    -- how the wait for a response ends
    pub data Awaited : Type 0 where
      response : JsonRpcResponse → Awaited
      malformed unanswered : Awaited

    -- the loop over `rx.recv()`
    unfoldable pub await : String → List ServerMessage → Awaited
    await call_id [] = unanswered
    await call_id (chunk id c ∷ rest) =
        if is_rpc_response_for c call_id
        then elim (as_rpc_response c) [ some r ↦ response r | none ↦ malformed ]
        else await call_id rest
    await call_id (_ ∷ rest) = await call_id rest

    unfoldable pub received :
        String → String → Awaited → Ending → Program PipelineError JsonRpcResponse
    unfolding display
    received step call_id (response r) ending = return r
    received step call_id malformed ending =
        fail (
          bus step (display (io (push_str "failed to deserialize RPC response for call " call_id))))
    received step call_id unanswered disconnected =
        fail (bus step (display (io "bus disconnected while waiting for RPC response")))
    received step call_id unanswered timed_out = fail (timeout step call_id)

    -- the chunk that carries a request
    unfoldable pub request_chunk : Network → Log → JsonRpcRequest → Chunk
    request_chunk net log request =
        with_retain
          (as_transient (
            with_annotation (new_null (net.stamp log) runtime) cafe_jsonrpc_request
              (S.of_request request)))
          60

    -- the `StepComplete` that follows a step
    unfoldable pub follow_up : StepDef → PipelineContext → ℕ → Entry
    follow_up step ctx depth = (step_complete step.id, record ctx { depth = depth + 1 })

    unfoldable pub conclude :
        StepDef → PipelineContext → JsonRpcResponse → Program PipelineError (Option Entry)
    unfolding follow_up
    conclude step ctx r = elim r.error [
      | none ↦ return (some (follow_up step ctx ctx.depth))
      | some e ↦ fail (rpc_error step.id e.code e.message)
    ]

    -- up to the response
    unfoldable pub request_rpc :
        Network → StepDef → PipelineContext → Program PipelineError JsonRpcResponse
    unfolding build_rpc_params await received request_chunk
    request_rpc net step ctx = do
      schema ← ask net (λ log. net.schema log step.step_type)
      uuid ← fresh_uuid net
      let request =
          new_request uuid (push_str step.step_type ".invoke")
            (S.object (build_rpc_params step.step_type ctx schema))
      history ← map_err (bus step.id) (bus_history net ctx.session_id)
      sent ←
          map_err (bus step.id) (bus_post net ctx.session_id (λ log. request_chunk net log request))
      subscribed ← map_err (bus step.id) (bus_subscribe net ctx.session_id)
      (messages, ending) ← bus_receive net ctx.session_id
      received step.id request.id (await request.id messages) ending

    unfoldable pub dispatch_rpc :
        Network → StepDef → PipelineContext → Program PipelineError (Option Entry)
    unfolding request_rpc conclude
    dispatch_rpc net step ctx = do r ← request_rpc net step ctx; conclude step ctx r
