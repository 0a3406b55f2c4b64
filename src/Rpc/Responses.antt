-- ===== src/Rpc/Responses.antt =====
-- How a response finds its request: the chunk that an evaluator answers with.
use observable_cafev.Base.{String, ◌≡◌, refl, true, false, some, ◌==◌, ℤ}
use observable_cafev.Platform.{Platform}
use observable_cafev.Map.{get-insert}
use observable_cafev.Chunk.{Chunk, with_annotation}
use observable_cafev.Chunk.Keys.{cafe_jsonrpc_response}
use observable_cafev.Rpc.{
  Serde, JsonRpcResponse, ok_response, err_response, is_ok, revived, revived_error, as_rpc_response,
  is_rpc_response_for,
}

module _ ⦃P : Platform⦄ ⦃S : Serde⦄ where
  -- the response as the waiting side reads it
  pub as_rpc_response-of_response :
      (c : Chunk) (r : JsonRpcResponse)
      → as_rpc_response (with_annotation c cafe_jsonrpc_response (S.of_response r))
        ≡ some (record r { result = revived r.result; error = revived_error r.error })
  unfolding as_rpc_response with_annotation
  as_rpc_response-of_response c r = simp (get-insert, S.to_response-of_response)

  -- A chunk that carries a response is the answer to the call with the response's id and to no other
  -- call. It is read back as a success exactly if it was one, and an error keeps its code and its
  -- message.
  pub response_roundtrip :
      (c : Chunk) (id call_id message : String) (code : ℤ) (result : P.Value)
      → let success =
          with_annotation c cafe_jsonrpc_response (S.of_response (ok_response id result)) in
        let failure =
          with_annotation c cafe_jsonrpc_response (S.of_response (err_response id code message)) in
        (is_rpc_response_for success call_id ≡ (id == call_id))
        × (is_rpc_response_for failure call_id ≡ (id == call_id))
        × (as_rpc_response success
            ≡ some (record (ok_response id result) { result = revived (some result) }))
        × (as_rpc_response failure ≡ some (err_response id code message))
        × (is_ok (ok_response id result) ≡ true)
        × (is_ok (err_response id code message) ≡ false)
  unfolding is_rpc_response_for is_ok ok_response err_response
  response_roundtrip c id call_id message code result =
      let s = as_rpc_response-of_response c (ok_response id result) in
      let f = as_rpc_response-of_response c (err_response id code message) in
      (rw (s) refl, rw (f) refl, s, f, refl, refl)
