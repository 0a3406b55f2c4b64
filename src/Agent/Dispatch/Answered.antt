-- ===== src/Agent/Dispatch/Answered.antt =====
-- When an RPC step completes: the first response to its request decides.
use observable_cafev.Base.{
  String, ◌≡◌, refl, true, false, Option, none, some, List, [], ◌∷◌, ◌++◌, eq_iff, All,
  Option-cases, inl, inr, push_str, ap, ◌∙◌,
}
use observable_cafev.Platform.{Platform}
use observable_cafev.Chunk.{Chunk}
use observable_cafev.Envelope.{ServerMessage, chunk}
use observable_cafev.Rpc.{
  Serde, JsonRpcResponse, JsonRpcRequest, JsonRpcError, new_request, as_rpc_response,
  is_rpc_response_for,
}
use observable_cafev.Agent.Steps.{StepDef, PipelineContext}
use observable_cafev.Agent.Network.{
  Network, publish, get_history, subscribe, receive, new_uuid, Log, ok, err, Outcome, map_err,
  bus_post, bus_publish, bus_history, bus_subscribe, bus_receive, fresh_uuid,
}
use observable_cafev.Agent.Network.Yields.{bind-ok, map_err-ok, answer-none}
use observable_cafev.Agent.Dispatch.{
  PipelineError, Entry, bus, rpc_error, request_chunk, build_rpc_params, response, await, received,
  conclude, request_rpc, dispatch_rpc, follow_up,
}

module _ ⦃P : Platform⦄ ⦃S : Serde⦄ where
  -- a message that is no response to a call
  abbrev pub IsQuiet : String → ServerMessage → Type 0
  IsQuiet call_id (chunk s c) = is_rpc_response_for c call_id ≡ false
  IsQuiet call_id _ = Unit

  -- The first response to a call among some messages is `r`.
  pub record IsAnswered (call_id : String) (messages : List ServerMessage) (r : JsonRpcResponse)
      : Type 0 where
    pub before : List ServerMessage
    pub session_id : String
    pub answer : Chunk
    pub after : List ServerMessage
    pub split : messages ≡ before ++ chunk session_id answer ∷ after
    pub quiet : All (IsQuiet call_id) before
    pub read : as_rpc_response answer ≡ some r
    pub matching : r.id ≡ call_id

  await-skip :
      (call_id : String) (msg : ServerMessage) (rest : List ServerMessage)
      → IsQuiet call_id msg
      → await call_id (msg ∷ rest) ≡ await call_id rest
  unfolding await
  await-skip call_id (chunk s c) rest quiet = rw (quiet) refl
  await-skip call_id _ rest quiet = refl

  await-append :
      (call_id : String) (before rest : List ServerMessage)
      → All (IsQuiet call_id) before
      → await call_id (before ++ rest) ≡ await call_id rest
  await-append call_id [] rest quiet = refl
  await-append call_id (msg ∷ before) rest quiet =
      await-skip call_id msg (before ++ rest) quiet.0 ∙ await-append call_id before rest quiet.1

  matches :
      (c : Chunk) (call_id : String) (r : JsonRpcResponse)
      → as_rpc_response c ≡ some r
      → r.id ≡ call_id
      → is_rpc_response_for c call_id ≡ true
  unfolding is_rpc_response_for
  matches c call_id r read matching = rw (read) ((eq_iff r.id call_id).1 matching)

  await-IsAnswered :
      (call_id : String) (messages : List ServerMessage) (r : JsonRpcResponse)
      → IsAnswered call_id messages r
      → await call_id messages ≡ response r
  unfolding await
  await-IsAnswered call_id messages r a =
      ap (await call_id) a.split
      ∙ await-append call_id a.before (chunk a.session_id a.answer ∷ a.after) a.quiet
      ∙ rw (matches a.answer call_id r a.read a.matching, a.read) refl

  module _ (net : Network) (step : StepDef) (ctx : PipelineContext) (log : Log) where
    -- the id of the call, and the calls made up to each point
    abbrev pub call_id : String
    call_id = net.uuid (new_uuid ∷ log)

    abbrev pub looked : Log
    looked = get_history ctx.session_id ∷ new_uuid ∷ log

    abbrev pub request : JsonRpcRequest
    request =
        new_request call_id (push_str step.step_type ".invoke")
          (S.object (build_rpc_params step.step_type ctx (net.schema log step.step_type)))

    abbrev pub asked : Log
    asked = publish ctx.session_id (request_chunk net looked request) ∷ looked

    abbrev pub listening : Log
    listening = subscribe ctx.session_id ∷ asked

    abbrev pub heard : Log
    heard = receive ctx.session_id ∷ listening

    -- The bus takes the three calls of a request.
    pub record IsTaken : Type 0 where
      pub seen : net.history_fault looked ≡ none
      pub sent : net.published asked ≡ none
      pub joined : net.subscribed listening ≡ none

    looked-ok :
        net.history_fault looked ≡ none
        → map_err (bus step.id) (bus_history net ctx.session_id) (new_uuid ∷ log)
          ≡ ok (net.history looked) looked
    unfolding bus_history
    looked-ok e = map_err-ok _ (bus_history net ctx.session_id) _ _ _ (answer-none _ _ _ e)

    asked-ok :
        net.published asked ≡ none
        → map_err
            (bus step.id)
            (bus_post net ctx.session_id (λ l. request_chunk net l request))
            looked
          ≡ ok tt asked
    unfolding bus_post bus_publish
    asked-ok e =
        map_err-ok _ (bus_post net ctx.session_id (λ l. request_chunk net l request)) _ _ _
          (answer-none _ _ _ e)

    listening-ok :
        net.subscribed listening ≡ none
        → map_err (bus step.id) (bus_subscribe net ctx.session_id) asked ≡ ok tt listening
    unfolding bus_subscribe
    listening-ok e = map_err-ok _ (bus_subscribe net ctx.session_id) _ _ _ (answer-none _ _ _ e)

    received-ok :
        (r : JsonRpcResponse)
        → IsAnswered call_id (net.messages heard) r
        → received step.id call_id (await call_id (net.messages heard)) (net.ending heard) heard
          ≡ ok r heard
    unfolding received
    received-ok r a = rw (await-IsAnswered call_id (net.messages heard) r a) refl

    request_rpc-IsTaken :
        IsTaken
        → (r : JsonRpcResponse) → IsAnswered call_id (net.messages heard) r
        → request_rpc net step ctx log ≡ ok r heard
    unfolding request_rpc fresh_uuid bus_receive new_request
    request_rpc-IsTaken taken r a =
        bind-ok _ _ log log (net.schema log step.step_type) refl
        ∙ bind-ok _ _ log (new_uuid ∷ log) call_id refl
        ∙ bind-ok _ _ (new_uuid ∷ log) looked (net.history looked) (looked-ok taken.seen)
        ∙ bind-ok _ _ looked asked tt (asked-ok taken.sent)
        ∙ bind-ok _ _ asked listening tt (listening-ok taken.joined)
        ∙ bind-ok _ _ listening heard (net.messages heard, net.ending heard) refl
        ∙ received-ok r a

    -- the outcome of a step whose response has this error
    abbrev pub concluded : Option JsonRpcError → Outcome PipelineError (Option Entry)
    concluded none = ok (some (follow_up step ctx ctx.depth)) heard
    concluded (some e) = err (rpc_error step.id e.code e.message) heard

    conclude-concluded : (r : JsonRpcResponse) → conclude step ctx r heard ≡ concluded r.error
    unfolding conclude
    conclude-concluded r = elim (Option-cases r.error) [
      | inl fine ↦ rw (fine, conclude) refl
      | inr (e, problem) ↦ rw (problem, conclude) refl
    ]

    -- If the bus takes the calls of an RPC step, and the first response to its request that the receiver
    -- yields is `r`: the step completes, with its completion one level deeper as the follow-up, if `r`
    -- is a success, and fails with the code and the message of `r` otherwise.
    pub dispatch_rpc-IsAnswered :
        IsTaken
        → (r : JsonRpcResponse) → IsAnswered call_id (net.messages heard) r
        → dispatch_rpc net step ctx log ≡ concluded r.error
    unfolding dispatch_rpc
    dispatch_rpc-IsAnswered taken r a =
        bind-ok (request_rpc net step ctx) _ log heard r (request_rpc-IsTaken taken r a)
        ∙ conclude-concluded r
