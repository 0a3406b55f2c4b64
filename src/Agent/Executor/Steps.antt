-- ===== src/Agent/Executor/Steps.antt =====
-- The steps that an event runs only concern its own session.
use observable_cafev.Base.{
  String, ◌≡◌, refl, sym, subst, Option, none, some, List, [], ◌∷◌, ◌++◌, All, All-append,
  Option-cases, inl, inr,
}
use observable_cafev.Platform.{Platform}
use observable_cafev.Chunk.{Chunk}
use observable_cafev.Rpc.{Serde, ToolCall, JsonRpcResponse}
use observable_cafev.Agent.Steps.{
  StepDef, step_type_of, StepType, built_in, rpc, role_annotator, trust_filter, tool_detector,
  tool_executor, mcp, PipelineContext,
}
use observable_cafev.Agent.Network.{
  Network, Log, Fault, Program, Outcome, ok, err, ◌>>=◌, return, bus_history,
}
use observable_cafev.Agent.Network.Yields.{
  Yields-bind, Yields-any, Calls, Keeps, Keeps-bind, Yields,
}
use observable_cafev.Agent.Dispatch.{
  PipelineError, Entry, conclude, request_rpc, dispatch_rpc, follow_up,
}
use observable_cafev.Agent.Tools.{Pattern, publish_calls, execute_all, detect}
use observable_cafev.Agent.Network.About.{IsAbout, bus_history-Keeps, return-Keeps}
use observable_cafev.Agent.Dispatch.Confined.{dispatch_rpc-Keeps}
use observable_cafev.Agent.Tools.Confined.{execute_all-Keeps, publish_calls-Keeps}
use observable_cafev.Agent.Executor.{
  tool_calls, run_calls, run_executor, run_detector, run_built_in, built_ins, pushed_by, run_rpc,
  dispatches,
}

module _ ⦃P : Platform⦄ ⦃S : Serde⦄ where
  -- items of the work queue that concern a session
  abbrev pub Within : String → List Entry → Type 0
  Within id entries = All (λ e. e.1.session_id ≡ id) entries

  -- a program that concerns one session and pushes items for it only
  abbrev pub Stays : String → Program PipelineError (List Entry) → Type 0
  Stays id p = Keeps (IsAbout id) p × ((log : Log) → Yields (Within id) (p log))

  pub nothing-Stays : (id : String) → Stays id (return [])
  nothing-Stays id = (return-Keeps _ [], λ log. tt)

  pub append-Stays :
      (id : String) (p q : Program PipelineError (List Entry))
      → Stays id p
      → Stays id q
      → Stays id (do a ← p; b ← q; return (a ++ b))
  append-Stays id p q h k = (
    Keeps-bind _ _ _ h.0 (λ a. Keeps-bind _ _ _ k.0 (λ b. return-Keeps _ _)),
    λ log. Yields-bind _ _ p _ log (h.1 log) (λ a next w.
        Yields-bind _ _ q _ next (k.1 next)
          (λ b last v. All-append (λ e. e.1.session_id ≡ id) a b w v)),
  )

  module _ (net : Network) (re : Pattern) (origin : PipelineContext) (id : String)
      (own : origin.session_id ≡ id) where
    run_calls-Stays :
        (step : StepDef) (ctx : PipelineContext) (calls : List ToolCall)
        → ctx.session_id ≡ id
        → Stays id (run_calls net re origin step ctx calls)
    unfolding run_calls follow_up
    run_calls-Stays step ctx [] e = nothing-Stays id
    run_calls-Stays step ctx (call ∷ calls) e =
        rw (e, run_calls)
          (
            Keeps-bind _ _ _ (execute_all-Keeps net id (call ∷ calls)) (λ u. return-Keeps _ _),
            λ log.
                Yields-bind (λ u. Unit) _ (execute_all net id (call ∷ calls)) _ log (Yields-any _)
                  (λ u next t. (own, tt)),
          )

    run_executor-Stays :
        (step : StepDef) (ctx : PipelineContext)
        → ctx.session_id ≡ id
        → Stays id (λ log. run_executor net re origin step ctx (bus_history net id log))
    unfolding run_executor
    run_executor-Stays step ctx e = (
      record {
        kept = λ log so_far.
            calls (bus_history net id log) ((bus_history-Keeps net id).kept log so_far);
      },
      λ log. entries (bus_history net id log),
    )
      where
        calls :
            (o : Outcome Fault (List Chunk))
            → Calls (IsAbout id) o
            → Calls (IsAbout id) (run_executor net re origin step ctx o)
        calls (ok history log) h = (run_calls-Stays step ctx (tool_calls history []) e).0.kept log h
        calls (err f log) h = h

        entries :
            (o : Outcome Fault (List Chunk))
            → Yields (Within id) (run_executor net re origin step ctx o)
        entries (ok history log) = (run_calls-Stays step ctx (tool_calls history []) e).1 log
        entries (err f log) = tt

    run_detector-Stays :
        (ctx : PipelineContext) (t : Option String)
        → ctx.session_id ≡ id
        → Stays id (run_detector net re origin ctx t)
    unfolding run_detector
    run_detector-Stays ctx none e = nothing-Stays id
    run_detector-Stays ctx (some body) e =
        rw (e, run_detector)
          (
            Keeps-bind _ _ _ (publish_calls-Keeps net id (detect re body).1)
                (λ u. return-Keeps _ _),
            λ log.
                Yields-bind (λ u. Unit) _ (publish_calls net id (detect re body).1) _ log
                  (Yields-any _) (λ u next t. tt),
          )

    run_built_in-Stays :
        (step : StepDef) (ctx : PipelineContext) (k : StepType)
        → ctx.session_id ≡ id
        → Stays id (run_built_in net re origin step ctx k)
    unfolding run_built_in
    run_built_in-Stays step ctx (built_in role_annotator) e = nothing-Stays id
    run_built_in-Stays step ctx (built_in trust_filter) e = nothing-Stays id
    run_built_in-Stays step ctx (built_in mcp) e = nothing-Stays id
    run_built_in-Stays step ctx (built_in tool_detector) e =
        run_detector-Stays ctx ctx.assembled_llm_text e
    run_built_in-Stays step ctx (built_in tool_executor) e =
        subst (λ s. Stays id (λ log. run_executor net re origin step ctx (bus_history net s log)))
          (sym e) (run_executor-Stays step ctx e)
    run_built_in-Stays step ctx (rpc namespace) e = nothing-Stays id

    pub built_ins-Stays :
        (ctx : PipelineContext) (steps : List StepDef)
        → ctx.session_id ≡ id
        → Stays id (built_ins net re origin ctx steps)
    unfolding built_ins
    built_ins-Stays ctx [] e = nothing-Stays id
    built_ins-Stays ctx (step ∷ steps) e =
        append-Stays id _ _ (run_built_in-Stays step ctx (step_type_of step.step_type) e)
          (built_ins-Stays ctx steps e)

  conclude-Within :
      (step : StepDef) (ctx : PipelineContext) (r : JsonRpcResponse) (log : Log)
      → Yields (λ o. Within ctx.session_id (pushed_by o)) (conclude step ctx r log)
  unfolding conclude follow_up
  conclude-Within step ctx r log = elim (Option-cases r.error) [
    | inl fine ↦ rw (fine) (refl, tt)
    | inr (e, problem) ↦ rw (problem) tt
  ]

  module _ (net : Network) where
    run_rpc-Keeps :
        (step : StepDef) (ctx : PipelineContext) (k : StepType)
        → Keeps (IsAbout ctx.session_id) (run_rpc net step ctx k)
    unfolding run_rpc
    run_rpc-Keeps step ctx (built_in eval) = return-Keeps _ none
    run_rpc-Keeps step ctx (rpc namespace) = dispatch_rpc-Keeps net step ctx

    run_rpc-Within :
        (step : StepDef) (ctx : PipelineContext) (k : StepType) (log : Log)
        → Yields (λ o. Within ctx.session_id (pushed_by o)) (run_rpc net step ctx k log)
    unfolding run_rpc dispatch_rpc
    run_rpc-Within step ctx (built_in eval) log = tt
    run_rpc-Within step ctx (rpc namespace) log =
        Yields-bind _ _ (request_rpc net step ctx) _ log (Yields-any _)
          (λ r next u. conclude-Within step ctx r next)

    pub dispatches-Stays :
        (ctx : PipelineContext) (steps : List StepDef)
        → Stays ctx.session_id (dispatches net ctx steps)
    unfolding dispatches
    dispatches-Stays ctx [] = nothing-Stays _
    dispatches-Stays ctx (step ∷ steps) =
        let k = step_type_of step.step_type in
        (
          Keeps-bind _ _ _ (run_rpc-Keeps step ctx k)
              (λ o. Keeps-bind _ _ _ (dispatches-Stays ctx steps).0 (λ later. return-Keeps _ _)),
          λ log.
              Yields-bind _ _ (run_rpc net step ctx k) _ log (run_rpc-Within step ctx k log)
                (λ o next w.
                  Yields-bind _ _ (dispatches net ctx steps) _ next
                    ((dispatches-Stays ctx steps).1 next)
                    (λ later last v.
                      All-append (λ e. e.1.session_id ≡ ctx.session_id) (pushed_by o) later w v)),
        )
