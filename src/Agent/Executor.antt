-- ===== src/Agent/Executor.antt =====
-- `PipelineExecutor::on_trigger` of cafe-agent-runtime/src/executor.rs: the work queue that runs the
-- steps of an event and of the completions that follow from it.
--
-- The loop runs on fuel. An item of the queue needs one round and those of the items that it pushes:
-- at most one for each step, one level deeper, and none at the depth limit.
pub mod Pushes
pub mod Rounds
pub mod Terminates
pub mod Steps
pub mod Confined
use observable_cafev.Base.{
  ℕ, zero, suc, ◌+◌, ◌-◌, ◌*◌, String, Bool, true, false, Option, none, some, List, [], ◌∷◌, ◌++◌,
  leb, ◌&&◌, if◌then◌else◌, length,
}
use observable_cafev.Platform.{Platform}
use observable_cafev.Chunk.{Chunk}
use observable_cafev.Rpc.{Serde, ToolCall, as_tool_call}
use observable_cafev.Agent.Steps.{
  StepDef, TriggerType, user_message, llm_complete, scheduler_tick, step_complete, StepType,
  built_in, rpc, BuiltInEvaluator, role_annotator, trust_filter, tool_detector, tool_executor, mcp,
  step_type_of, PipelineContext, eligible,
}
use observable_cafev.Agent.Network.{
  Network, Log, Fault, Program, Outcome, ok, err, ◌>>=◌, return, bus_history,
}
use observable_cafev.Agent.Dispatch.{PipelineError, Entry, follow_up, dispatch_rpc}
use observable_cafev.Agent.Tools.{Pattern, detect, publish_calls, execute_all}

-- `PipelineExecutor`; the timeout of a request is part of the network, the schemas too.
pub record PipelineExecutor : Type 0 where
  pub steps : List StepDef
  pub max_depth : ℕ

abbrev pub is_completion : TriggerType → Bool
is_completion (step_complete id) = true
is_completion _ = false

module _ ⦃P : Platform⦄ ⦃S : Serde⦄ where
  -- `history.iter().rev().filter_map(|c| c.as_tool_call())`, onto the calls of earlier chunks
  unfoldable pub tool_calls : List Chunk → List ToolCall → List ToolCall
  tool_calls [] earlier = earlier
  tool_calls (c ∷ history) earlier = elim (as_tool_call c) [
    | some call ↦ tool_calls history (call ∷ earlier)
    | none ↦ tool_calls history earlier
  ]

  module _ (net : Network) (re : Pattern) (origin : PipelineContext) where
    -- the calls of a history that are carried out, and what is pushed after them
    unfoldable pub run_calls :
        StepDef → PipelineContext → List ToolCall → Program PipelineError (List Entry)
    run_calls step ctx [] = return []
    run_calls step ctx (call ∷ calls) = do
      _ ← execute_all net ctx.session_id (call ∷ calls)
      return (follow_up step origin ctx.depth ∷ [])

    -- the tool executor, once the history is there
    unfoldable pub run_executor :
        StepDef → PipelineContext → Outcome Fault (List Chunk) → Outcome PipelineError (List Entry)
    unfolding tool_calls run_calls
    run_executor step ctx (ok history log) = run_calls step ctx (tool_calls history []) log
    run_executor step ctx (err e log) = ok [] log

    unfoldable pub run_detector :
        PipelineContext → Option String → Program PipelineError (List Entry)
    unfolding detect publish_calls
    run_detector ctx none = return []
    run_detector ctx (some body) = do
      _ ← publish_calls net ctx.session_id (detect re body).1
      return []

    -- the first loop's body; a step that is an RPC is passed over
    unfoldable pub run_built_in :
        StepDef → PipelineContext → StepType → Program PipelineError (List Entry)
    unfolding run_executor run_detector
    run_built_in step ctx (built_in role_annotator) log = ok [] log
    run_built_in step ctx (built_in trust_filter) log = ok [] log
    run_built_in step ctx (built_in mcp) log = ok [] log
    run_built_in step ctx (built_in tool_detector) log = run_detector ctx ctx.assembled_llm_text log
    run_built_in step ctx (built_in tool_executor) log =
        run_executor step ctx (bus_history net ctx.session_id log)
    run_built_in step ctx (rpc namespace) log = ok [] log

    -- the first loop over the eligible steps: what it pushes
    unfoldable pub built_ins : PipelineContext → List StepDef → Program PipelineError (List Entry)
    unfolding run_built_in step_type_of
    built_ins ctx [] = return []
    built_ins ctx (step ∷ steps) = do
      pushed ← run_built_in step ctx (step_type_of step.step_type)
      later ← built_ins ctx steps
      return (pushed ++ later)

  abbrev pub pushed_by : Option Entry → List Entry
  pushed_by none = []
  pushed_by (some entry) = entry ∷ []

  module _ (net : Network) where
    -- the second loop's body; a step that is built in is passed over
    unfoldable pub run_rpc :
        StepDef → PipelineContext → StepType → Program PipelineError (Option Entry)
    unfolding dispatch_rpc
    run_rpc step ctx (built_in eval) = return none
    run_rpc step ctx (rpc namespace) = dispatch_rpc net step ctx

    -- the second loop over the eligible steps
    unfoldable pub dispatches : PipelineContext → List StepDef → Program PipelineError (List Entry)
    unfolding run_rpc step_type_of
    dispatches ctx [] = return []
    dispatches ctx (step ∷ steps) = do
      pushed ← run_rpc step ctx (step_type_of step.step_type)
      later ← dispatches ctx steps
      return (pushed_by pushed ++ later)

  module _ (net : Network) (re : Pattern) (ex : PipelineExecutor) (origin : PipelineContext) where
    -- One round of the `while` loop: what it pushes.
    unfoldable pub run_entry : Entry → Program PipelineError (List Entry)
    unfolding built_ins dispatches eligible
    run_entry (event, ctx) =
        if is_completion event && leb ex.max_depth ctx.depth then return [] else do
          let steps = eligible ex.steps event ctx
          pushed ← built_ins net re origin ctx steps
          later ← dispatches net ctx steps
          return (pushed ++ later)

    -- `none`: out of fuel
    unfoldable pub run_queue : ℕ → List Entry → Log → Option (Outcome PipelineError Unit)
    unfolding run_entry
    run_queue fuel [] log = some (ok tt log)
    run_queue zero (entry ∷ queue) log = none
    run_queue (suc fuel) (entry ∷ queue) log = elim (run_entry entry log) [
      | ok pushed next ↦ run_queue fuel (queue ++ pushed) next
      | err e next ↦ some (err e next)
    ]

  -- the rounds of a completion event that has `levels` levels left, in a pipeline of `steps` steps
  abbrev pub rounds : ℕ → ℕ → ℕ
  rounds steps zero = 1
  rounds steps (suc levels) = 1 + steps * rounds steps levels

  -- the rounds of an item of the queue
  unfoldable pub weight : PipelineExecutor → Entry → ℕ
  weight ex (step_complete id, ctx) = rounds (length ex.steps) (ex.max_depth - ctx.depth)
  weight ex (_, ctx) =
      1 + length ex.steps * rounds (length ex.steps) (ex.max_depth - (ctx.depth + 1))

  unfoldable pub on_trigger :
      Network
      → Pattern
      → PipelineExecutor
      → TriggerType
      → PipelineContext
      → Log
      → Option (Outcome PipelineError Unit)
  unfolding run_queue weight
  on_trigger net re ex event ctx log =
      run_queue net re ex ctx (weight ex (event, ctx)) ((event, ctx) ∷ []) log
