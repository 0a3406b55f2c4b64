-- ===== src/Rpc.antt =====
-- cafe-types/src/jsonrpc.rs, tools.rs and schema.rs, and the accessors of cafe-types/src/chunk.rs
-- that read their types out of the annotations of a chunk.
pub mod Responses
use observable_cafev.Base.{
  String, ◌≡◌, Bool, false, not, Option, none, some, ◌==◌, and_then, map_or, is_some, if◌then◌else◌,
  ℤ,
}
use observable_cafev.Platform.{Platform}
use observable_cafev.Map.{Map, get}
use observable_cafev.Chunk.{Chunk}
use observable_cafev.Chunk.Keys.{
  cafe_jsonrpc_request, cafe_jsonrpc_response, cafe_tool_call, cafe_tool_result,
  cafe_schema_evaluator,
}

module _ ⦃P : Platform⦄ where
  pub record JsonRpcRequest : Type 0 where
    pub jsonrpc : String
    pub id : String
    pub method : String
    pub params : P.Value

  -- The field `data` is called `details`.
  pub record JsonRpcError : Type 0 where
    pub code : ℤ
    pub message : String
    pub details : Option P.Value

  pub record JsonRpcResponse : Type 0 where
    pub jsonrpc : String
    pub id : String
    pub result : Option P.Value
    pub error : Option JsonRpcError

  -- The id is a fresh `Uuid::new_v4`.
  unfoldable pub new_request : String → String → P.Value → JsonRpcRequest
  new_request uuid method params = record {
    jsonrpc = "2.0";
    id = uuid;
    method = method;
    params = params;
  }

  unfoldable pub ok_response : String → P.Value → JsonRpcResponse
  ok_response id result = record { jsonrpc = "2.0"; id = id; result = some result; error = none }

  unfoldable pub err_response : String → ℤ → String → JsonRpcResponse
  err_response id code message = record {
    jsonrpc = "2.0";
    id = id;
    result = none;
    error = some (record { code = code; message = message; details = none });
  }

  unfoldable pub is_ok : JsonRpcResponse → Bool
  is_ok r = not (is_some r.error)

  pub record ToolCall : Type 0 where
    pub name : String
    pub parameters : P.Value
    pub provider : Option String

  pub record ToolResult : Type 0 where
    pub name : String
    pub output : P.Value
    pub error : Option String
    pub provider : Option String

  pub record EvaluatorSchema : Type 0 where
    pub name : String
    pub description : String
    pub config_schema : P.Value
    pub rpc_params_schema : P.Value

  -- An optional JSON value that is `null` is read back as absent.
  abbrev pub revived : Option P.Value → Option P.Value
  revived none = none
  revived (some v) = if P.eq v P.null then none else some v

  abbrev pub revived_error : Option JsonRpcError → Option JsonRpcError
  revived_error none = none
  revived_error (some e) = some (record e { details = revived e.details })

  -- `serde_json`, at the types that travel in annotations: `to_value`, `from_value`, `as_object` and
  -- the making of an object. A field that is `None` is not written.
  pub record Serde : Type 0 where
    pub as_object : P.Value → Option (Map P.Value)
    pub object : Map P.Value → P.Value
    pub to_string_pretty : P.Value → Option String
    pub of_request : JsonRpcRequest → P.Value
    pub to_request : P.Value → Option JsonRpcRequest
    pub of_response : JsonRpcResponse → P.Value
    pub to_response : P.Value → Option JsonRpcResponse
    pub of_tool_call : ToolCall → P.Value
    pub to_tool_call : P.Value → Option ToolCall
    pub of_tool_result : ToolResult → P.Value
    pub to_tool_result : P.Value → Option ToolResult
    pub to_schema : P.Value → Option EvaluatorSchema
    -- `serde_json::from_str::<ToolCall>`
    pub parse_tool_call : String → Option ToolCall
    -- `{}` of an `i32`
    pub show_i32 : ℤ → String
    pub to_request-of_request : (r : JsonRpcRequest) → to_request (of_request r) ≡ some r
    pub to_response-of_response :
        (r : JsonRpcResponse)
        → to_response (of_response r)
          ≡ some (record r { result = revived r.result; error = revived_error r.error })

  module _ ⦃S : Serde⦄ where
    unfoldable pub as_rpc_request : Chunk → Option JsonRpcRequest
    as_rpc_request c = and_then (get c.annotations cafe_jsonrpc_request) S.to_request

    unfoldable pub as_rpc_response : Chunk → Option JsonRpcResponse
    as_rpc_response c = and_then (get c.annotations cafe_jsonrpc_response) S.to_response

    unfoldable pub is_rpc_response_for : Chunk → String → Bool
    unfolding as_rpc_response
    is_rpc_response_for c call_id = map_or (as_rpc_response c) false (λ r. r.id == call_id)

    unfoldable pub as_tool_call : Chunk → Option ToolCall
    as_tool_call c = and_then (get c.annotations cafe_tool_call) S.to_tool_call

    unfoldable pub as_tool_result : Chunk → Option ToolResult
    as_tool_result c = and_then (get c.annotations cafe_tool_result) S.to_tool_result

    unfoldable pub extract_schema : Chunk → Option EvaluatorSchema
    extract_schema c = and_then (get c.annotations cafe_schema_evaluator) S.to_schema
