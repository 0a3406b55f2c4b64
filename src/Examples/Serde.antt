-- ===== src/Examples/Serde.antt =====
-- The concrete platform's way with the types that travel in annotations.
use observable_cafev.Base.{◌≡◌, refl, Option, none, some, unwrap_or, arith}
use observable_cafev.Rpc.{
  Serde, JsonRpcRequest, JsonRpcResponse, JsonRpcError, revived, revived_error,
}
use observable_cafev.Examples.Plain.{plain, Value, null, request, response, failure}

abbrev present : Value → Option Value
present null = none
present v = some v

abbrev of_request : JsonRpcRequest → Value
of_request r = request r.jsonrpc r.id r.method r.params

abbrev to_request : Value → Option JsonRpcRequest
to_request (request j i m p) = some (record { jsonrpc = j; id = i; method = m; params = p })
to_request _ = none

abbrev with_error : JsonRpcResponse → Option JsonRpcError → Value
with_error r none = response r.jsonrpc r.id (unwrap_or r.result null)
with_error r (some e) =
    failure r.jsonrpc r.id (unwrap_or r.result null) e.code e.message (unwrap_or e.details null)

abbrev of_response : JsonRpcResponse → Value
of_response r = with_error r r.error

abbrev to_response : Value → Option JsonRpcResponse
to_response (response j i v) =
    some (record { jsonrpc = j; id = i; result = present v; error = none })
to_response (failure j i v c m d) = some (record {
  jsonrpc = j;
  id = i;
  result = present v;
  error = some (record { code = c; message = m; details = present d });
})
to_response _ = none

present-revived : (v : Option Value) → present (unwrap_or v null) ≡ revived v
present-revived none = refl
present-revived (some null) = refl
present-revived (some _) = ground arith

pub to_response-of_response :
    (r : JsonRpcResponse)
    → to_response (of_response r)
      ≡ some (record r { result = revived r.result; error = revived_error r.error })
to_response-of_response r = by_error r.error
  where
    by_error :
        (e : Option JsonRpcError)
        → to_response (with_error r e)
          ≡ some (record r { result = revived r.result; error = revived_error e })
    by_error none = rw (present-revived r.result) refl
    by_error (some e) = rw (present-revived r.result, present-revived e.details) refl

instance abbrev pub serde : Serde
serde = record {
  as_object = λ v. none;
  object = λ m. null;
  to_string_pretty = λ v. none;
  of_request = of_request;
  to_request = to_request;
  of_response = of_response;
  to_response = to_response;
  of_tool_call = λ c. null;
  to_tool_call = λ v. none;
  of_tool_result = λ r. null;
  to_tool_result = λ v. none;
  to_schema = λ v. none;
  parse_tool_call = λ s. none;
  show_i32 = λ c. "0";
  to_request-of_request = λ r. refl;
  to_response-of_response = to_response-of_response;
}
