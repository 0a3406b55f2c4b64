-- ===== src/Agent/Dispatch/Confined.antt =====
-- An RPC step only concerns the session of its context.
use observable_cafev.Base.{String, refl, Option-cases, inl, inr}
use observable_cafev.Platform.{Platform}
use observable_cafev.Chunk.{new_null, with_annotation, as_transient, with_retain}
use observable_cafev.Rpc.{Serde, JsonRpcResponse}
use observable_cafev.Agent.Steps.{StepDef, PipelineContext}
use observable_cafev.Agent.Network.{Network, Call, Ending, timed_out, disconnected}
use observable_cafev.Agent.Network.Yields.{Keeps, Keeps-bind}
use observable_cafev.Agent.Dispatch.{
  bus, request_chunk, Awaited, response, malformed, unanswered, received, conclude, request_rpc,
  dispatch_rpc,
}
use observable_cafev.Agent.Tools.{failed}
use observable_cafev.Agent.Network.About.{
  IsAbout, bus_post-Keeps, bus_history-Keeps, bus_subscribe-Keeps, fresh_uuid-Keeps,
  bus_receive-Keeps, ask-Keeps, map_err-Keeps,
}

module _ ⦃P : Platform⦄ where
  module _ ⦃S : Serde⦄ (net : Network) where
    pub received-Keeps :
        (Q : Call → Type 0) (step call_id : String) (w : Awaited) (ending : Ending)
        → Keeps Q (received step call_id w ending)
    unfolding received
    received-Keeps Q step call_id (response r) ending = record { kept = λ log h. h }
    received-Keeps Q step call_id malformed ending = record { kept = λ log h. h }
    received-Keeps Q step call_id unanswered disconnected = record { kept = λ log h. h }
    received-Keeps Q step call_id unanswered timed_out = record { kept = λ log h. h }

    pub conclude-Keeps :
        (Q : Call → Type 0) (step : StepDef) (ctx : PipelineContext) (r : JsonRpcResponse)
        → Keeps Q (conclude step ctx r)
    unfolding conclude
    conclude-Keeps Q step ctx r = elim (Option-cases r.error) [
      | inl fine ↦ rw (fine, conclude) (record { kept = λ log h. h })
      | inr (e, failed) ↦ rw (failed, conclude) (record { kept = λ log h. h })
    ]

    pub request_rpc-Keeps :
        (step : StepDef) (ctx : PipelineContext)
        → Keeps (IsAbout ctx.session_id) (request_rpc net step ctx)
    unfolding request_rpc request_chunk with_retain as_transient with_annotation new_null
    request_rpc-Keeps step ctx =
        let id = ctx.session_id in
        Keeps-bind _ _ _ (ask-Keeps net _ _ _ (λ log. net.schema log step.step_type)) λ schema.
          Keeps-bind _ _ _ (fresh_uuid-Keeps net _ id) λ uuid.
            Keeps-bind _ _ _ (map_err-Keeps _ (bus step.id) _ (bus_history-Keeps net id)) λ history.
              Keeps-bind _ _ _
                (map_err-Keeps _ (bus step.id) _
                  (bus_post-Keeps net id (λ log. request_chunk net log _) (λ log. refl)))
                λ sent.
                  Keeps-bind _ _ _ (map_err-Keeps _ (bus step.id) _ (bus_subscribe-Keeps net id))
                    λ subscribed.
                      Keeps-bind _ _ _ (bus_receive-Keeps net _ id) λ got. received-Keeps _ _ _ _ _

    pub dispatch_rpc-Keeps :
        (step : StepDef) (ctx : PipelineContext)
        → Keeps (IsAbout ctx.session_id) (dispatch_rpc net step ctx)
    unfolding dispatch_rpc
    dispatch_rpc-Keeps step ctx =
        Keeps-bind _ _ _ (request_rpc-Keeps step ctx) (conclude-Keeps _ step ctx)
