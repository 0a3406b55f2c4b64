-- ===== src/Agent/Tools/Confined.antt =====
-- Tools only concern the session that they are called in.
use observable_cafev.Base.{String, refl, List, [], ◌∷◌, is, Bool-cases, Option-cases, inl, inr}
use observable_cafev.Platform.{Platform}
use observable_cafev.Chunk.{new_null, new_text, with_annotation, as_transient, with_retain}
use observable_cafev.Rpc.{Serde, ToolCall, ToolResult}
use observable_cafev.Agent.Network.{Network, Ending, timed_out, disconnected}
use observable_cafev.Agent.Network.Yields.{Keeps, Keeps-bind}
use observable_cafev.Agent.Dispatch.{request_chunk, Awaited, response, malformed, unanswered}
use observable_cafev.Agent.Tools.{
  result_chunk, publish_result, publish_timeout, publish_text, succeeded, failed, expired, report,
  request_tool, execute, publish_calls, execute_all,
}
use observable_cafev.Agent.Network.About.{
  IsAbout, bus_post-Keeps, bus_history-Keeps, bus_subscribe-Keeps, fresh_uuid-Keeps,
  bus_receive-Keeps, return-Keeps, attempt-Keeps,
}

module _ ⦃P : Platform⦄ where
  module _ ⦃S : Serde⦄ (net : Network) (id : String) where
    pub post_result-Keeps : (r : ToolResult) → Keeps (IsAbout id) (publish_result net id r)
    unfolding publish_result result_chunk with_retain as_transient with_annotation new_null
    post_result-Keeps r = bus_post-Keeps net id _ (λ log. refl)

    pub post_timeout-Keeps : (r : ToolResult) → Keeps (IsAbout id) (publish_timeout net id r)
    unfolding publish_timeout result_chunk as_transient with_annotation new_null
    post_timeout-Keeps r = bus_post-Keeps net id _ (λ log. refl)

    pub post_text-Keeps : (body : String) → Keeps (IsAbout id) (publish_text net id body)
    unfolding publish_text with_annotation new_text
    post_text-Keeps body = bus_post-Keeps net id _ (λ log. refl)

    pub report-Keeps :
        (call : ToolCall) (w : Awaited) (ending : Ending)
        → Keeps (IsAbout id) (report net id call w ending)
    unfolding report succeeded failed expired
    report-Keeps call (response r) ending = elim (Option-cases r.error) [
      | inl fine ↦
          rw (fine, report) (Keeps-bind _ _ _ (post_result-Keeps _) (λ u. post_text-Keeps _))
      | inr (e, problem) ↦
          rw (problem, report) (Keeps-bind _ _ _ (post_result-Keeps _) (λ u. post_text-Keeps _))
    ]
    report-Keeps call malformed ending = return-Keeps _ tt
    report-Keeps call unanswered disconnected = return-Keeps _ tt
    report-Keeps call unanswered timed_out =
        Keeps-bind _ _ _ (post_timeout-Keeps _) (λ u. post_text-Keeps _)

    pub request_tool-Keeps : (call : ToolCall) → Keeps (IsAbout id) (request_tool net id call)
    unfolding request_tool request_chunk with_retain as_transient with_annotation new_null
    request_tool-Keeps call = Keeps-bind _ _ _ (fresh_uuid-Keeps net _ id) λ uuid.
        Keeps-bind _ _ _ (bus_history-Keeps net id) λ history.
          Keeps-bind _ _ _ (bus_post-Keeps net id (λ log. request_chunk net log _) (λ log. refl))
            λ sent. Keeps-bind _ _ _ (bus_subscribe-Keeps net id) λ subscribed.
              Keeps-bind _ _ _ (bus_receive-Keeps net _ id) λ got. report-Keeps call _ _

    pub execute-Keeps : (call : ToolCall) → Keeps (IsAbout id) (execute net id call)
    unfolding execute
    execute-Keeps call = elim (Bool-cases (is call.provider "mcp")) [
      | inl elsewhere ↦ rw (elsewhere, execute) (return-Keeps _ tt)
      | inr ours ↦ rw (ours, execute) (request_tool-Keeps call)
    ]

    pub execute_all-Keeps : (calls : List ToolCall) → Keeps (IsAbout id) (execute_all net id calls)
    unfolding execute_all
    execute_all-Keeps [] = return-Keeps _ tt
    execute_all-Keeps (call ∷ calls) =
        Keeps-bind _ _ _ (attempt-Keeps _ _ (execute-Keeps call)) (λ u. execute_all-Keeps calls)

    pub publish_calls-Keeps :
        (calls : List ToolCall) → Keeps (IsAbout id) (publish_calls net id calls)
    unfolding publish_calls with_annotation new_null
    publish_calls-Keeps [] = return-Keeps _ tt
    publish_calls-Keeps (call ∷ calls) =
        Keeps-bind _ _ _ (attempt-Keeps _ _ (bus_post-Keeps net id _ (λ log. refl)))
          (λ u. publish_calls-Keeps calls)
