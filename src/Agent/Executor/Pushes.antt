-- ===== src/Agent/Executor/Pushes.antt =====
-- What one round of the work queue pushes.
use observable_cafev.Base.{
  ℕ, ◌+◌, ◌≤◌, String, ◌≡◌, refl, true, false, Option, none, some, List, [], ◌∷◌, ◌++◌, leb, ◌&&◌,
  length, All, length-append, All-append, arith, length-filter-le, filter, inl, inr, Option-cases,
}
use observable_cafev.Platform.{Platform}
use observable_cafev.Chunk.{Chunk}
use observable_cafev.Rpc.{Serde, ToolCall, JsonRpcResponse}
use observable_cafev.Agent.Steps.{
  StepDef, TriggerType, StepType, built_in, rpc, role_annotator, trust_filter, tool_detector,
  tool_executor, mcp, step_type_of, PipelineContext, eligible, is_enabled, trigger_matches,
}
use observable_cafev.Agent.Network.{Network, Log, Fault, Outcome, ok, err, bus_history}
use observable_cafev.Agent.Network.Yields.{Yields, Yields-bind, Yields-any}
use observable_cafev.Agent.Dispatch.{
  PipelineError, Entry, follow_up, dispatch_rpc, request_rpc, conclude,
}
use observable_cafev.Agent.Tools.{Pattern, detect, publish_calls, execute_all}
use observable_cafev.Agent.Executor.{
  PipelineExecutor, is_completion, tool_calls, run_calls, run_executor, run_detector, run_built_in,
  built_ins, pushed_by, run_rpc, dispatches, run_entry,
}

module _ ⦃P : Platform⦄ ⦃S : Serde⦄ where
  -- a completion event at a depth
  abbrev pub IsNext : ℕ → Entry → Type 0
  IsNext d (event, ctx) = (is_completion event ≡ true) × (ctx.depth ≡ d)

  -- at most `n` completions at a depth
  abbrev pub Pushes : ℕ → ℕ → List Entry → Type 0
  Pushes d n entries = All (IsNext d) entries × (length entries ≤ n)

  Pushes-append :
      (d m n : ℕ) (a b : List Entry) → Pushes d m a → Pushes d n b → Pushes d (m + n) (a ++ b)
  Pushes-append d m n a b h k =
      (All-append (IsNext d) a b h.0 k.0, omega (arith, length-append a b, h.1, k.1))

  run_calls-Pushes :
      (net : Network) (re : Pattern) (origin : PipelineContext) (step : StepDef)
      (ctx : PipelineContext) (calls : List ToolCall) (log : Log)
      → Yields (Pushes (ctx.depth + 1) 1) (run_calls net re origin step ctx calls log)
  unfolding run_calls follow_up
  run_calls-Pushes net re origin step ctx [] log = (tt, omega arith)
  run_calls-Pushes net re origin step ctx (call ∷ calls) log =
      Yields-bind _ _ (execute_all net ctx.session_id (call ∷ calls)) _ log (Yields-any _)
        (λ a next u. (((refl, refl), tt), omega arith))

  run_executor-Pushes :
      (net : Network) (re : Pattern) (origin : PipelineContext) (step : StepDef)
      (ctx : PipelineContext) (o : Outcome Fault (List Chunk))
      → Yields (Pushes (ctx.depth + 1) 1) (run_executor net re origin step ctx o)
  unfolding run_executor
  run_executor-Pushes net re origin step ctx (ok history log) =
      run_calls-Pushes net re origin step ctx (tool_calls history []) log
  run_executor-Pushes net re origin step ctx (err e log) = (tt, omega arith)

  run_detector-Pushes :
      (net : Network) (re : Pattern) (origin ctx : PipelineContext) (t : Option String) (log : Log)
      → Yields (Pushes (ctx.depth + 1) 0) (run_detector net re origin ctx t log)
  unfolding run_detector
  run_detector-Pushes net re origin ctx none log = (tt, omega arith)
  run_detector-Pushes net re origin ctx (some body) log =
      Yields-bind _ _ (publish_calls net ctx.session_id (detect re body).1) _ log (Yields-any _)
        (λ a next u. (tt, omega arith))

  -- a step of each kind: what the first loop can push for it, and what the second can
  abbrev pub built_in_room : StepType → ℕ
  built_in_room (built_in eval) = 1
  built_in_room (rpc namespace) = 0

  abbrev pub rpc_room : StepType → ℕ
  rpc_room (built_in eval) = 0
  rpc_room (rpc namespace) = 1

  room_split : (k : StepType) → built_in_room k + rpc_room k ≡ 1
  room_split (built_in eval) = refl
  room_split (rpc namespace) = refl

  abbrev pub room : (StepType → ℕ) → List StepDef → ℕ
  room f [] = 0
  room f (step ∷ steps) = f (step_type_of step.step_type) + room f steps

  room-length :
      (steps : List StepDef) → room built_in_room steps + room rpc_room steps ≡ length steps
  room-length [] = refl
  room-length (step ∷ steps) =
      omega (arith, room-length steps, room_split (step_type_of step.step_type))

  weaken :
      (d m n : ℕ) (o : Outcome PipelineError (List Entry))
      → m ≤ n
      → Yields (Pushes d m) o
      → Yields (Pushes d n) o
  weaken d m n (ok a log) le h = (h.0, omega (arith, h.1))
  weaken d m n (err e log) le h = tt

  run_built_in-Pushes :
      (net : Network) (re : Pattern) (origin : PipelineContext) (step : StepDef)
      (ctx : PipelineContext) (k : StepType) (log : Log)
      → Yields
          (Pushes (ctx.depth + 1) (built_in_room k))
          (run_built_in net re origin step ctx k log)
  unfolding run_built_in
  run_built_in-Pushes net re origin step ctx (built_in role_annotator) log = (tt, omega arith)
  run_built_in-Pushes net re origin step ctx (built_in trust_filter) log = (tt, omega arith)
  run_built_in-Pushes net re origin step ctx (built_in mcp) log = (tt, omega arith)
  run_built_in-Pushes net re origin step ctx (built_in tool_detector) log =
      weaken _ 0 1 _ (omega arith)
        (run_detector-Pushes net re origin ctx ctx.assembled_llm_text log)
  run_built_in-Pushes net re origin step ctx (built_in tool_executor) log =
      run_executor-Pushes net re origin step ctx (bus_history net ctx.session_id log)
  run_built_in-Pushes net re origin step ctx (rpc namespace) log = (tt, omega arith)

  built_ins-Pushes :
      (net : Network) (re : Pattern) (origin ctx : PipelineContext) (steps : List StepDef)
      (log : Log)
      → Yields
          (Pushes (ctx.depth + 1) (room built_in_room steps))
          (built_ins net re origin ctx steps log)
  unfolding built_ins
  built_ins-Pushes net re origin ctx [] log = (tt, omega arith)
  built_ins-Pushes net re origin ctx (step ∷ steps) log =
      Yields-bind _ _ (run_built_in net re origin step ctx (step_type_of step.step_type)) _ log
        (run_built_in-Pushes net re origin step ctx (step_type_of step.step_type) log)
        λ pushed next h.
          Yields-bind _ _ (built_ins net re origin ctx steps) _ next
            (built_ins-Pushes net re origin ctx steps next)
            λ later last k. Pushes-append _ _ _ pushed later h k

  conclude-Pushes :
      (step : StepDef) (ctx : PipelineContext) (r : JsonRpcResponse) (log : Log)
      → Yields (λ o. Pushes (ctx.depth + 1) 1 (pushed_by o)) (conclude step ctx r log)
  unfolding conclude follow_up
  conclude-Pushes step ctx r log = elim (Option-cases r.error) [
    | inl fine ↦ rw (fine) (((refl, refl), tt), omega arith)
    | inr (e, failed) ↦ rw (failed) tt
  ]

  run_rpc-Pushes :
      (net : Network) (step : StepDef) (ctx : PipelineContext) (k : StepType) (log : Log)
      → Yields (λ o. Pushes (ctx.depth + 1) (rpc_room k) (pushed_by o)) (run_rpc net step ctx k log)
  unfolding run_rpc dispatch_rpc
  run_rpc-Pushes net step ctx (built_in eval) log = (tt, omega arith)
  run_rpc-Pushes net step ctx (rpc namespace) log =
      Yields-bind _ _ (request_rpc net step ctx) _ log (Yields-any _)
        (λ r next u. conclude-Pushes step ctx r next)

  dispatches-Pushes :
      (net : Network) (ctx : PipelineContext) (steps : List StepDef) (log : Log)
      → Yields (Pushes (ctx.depth + 1) (room rpc_room steps)) (dispatches net ctx steps log)
  unfolding dispatches
  dispatches-Pushes net ctx [] log = (tt, omega arith)
  dispatches-Pushes net ctx (step ∷ steps) log =
      Yields-bind _ _ (run_rpc net step ctx (step_type_of step.step_type)) _ log
        (run_rpc-Pushes net step ctx (step_type_of step.step_type) log)
        λ pushed next h.
          Yields-bind _ _ (dispatches net ctx steps) _ next (dispatches-Pushes net ctx steps next)
            λ later last k. Pushes-append _ _ _ (pushed_by pushed) later h k

  length-eligible :
      (steps : List StepDef) (event : TriggerType) (ctx : PipelineContext)
      → length (eligible steps event ctx) ≤ length steps
  unfolding eligible
  length-eligible steps event ctx = omega (
    arith,
    length-filter-le (λ s. is_enabled s ctx.config)
        (filter (λ s. trigger_matches s.trigger event) steps),
    length-filter-le (λ s. trigger_matches s.trigger event) steps,
  )

  -- A round pushes at most one completion for each step, one level deeper.
  pub run_entry-Pushes :
      (net : Network) (re : Pattern) (ex : PipelineExecutor) (origin : PipelineContext)
      (event : TriggerType) (ctx : PipelineContext) (log : Log)
      → (is_completion event && leb ex.max_depth ctx.depth) ≡ false
      → Yields
          (Pushes (ctx.depth + 1) (length ex.steps))
          (run_entry net re ex origin (event, ctx) log)
  unfolding run_entry
  run_entry-Pushes net re ex origin event ctx log goes_on =
      let steps = eligible ex.steps event ctx in
      let enough : room built_in_room steps + room rpc_room steps ≤ length ex.steps =
        omega (arith, room-length steps, length-eligible ex.steps event ctx) in
      rw (goes_on) (
        weaken _ _ _ _ enough (
          Yields-bind _ _ (built_ins net re origin ctx steps) _ log
            (built_ins-Pushes net re origin ctx steps log)
            λ pushed next h.
              Yields-bind _ _ (dispatches net ctx steps) _ next
                (dispatches-Pushes net ctx steps next)
                λ later last k. Pushes-append _ _ _ pushed later h k))
