-- ===== src/Agent/Steps.antt =====
-- cafe-types/src/step.rs, `SessionConfig` of cafe-agent-runtime/src/config.rs, and of
-- cafe-agent-runtime/src/executor.rs the triggers, the kinds of steps, and which steps an event runs.
use Prim.Native.String.{len, slice}
use text.Mathlib.Text.{starts_with}
use observable_cafev.Base.{
  ℕ, String, Bool, true, false, Option, none, some, List, ◌||◌, ◌==◌, and_then, unwrap_or,
  if◌then◌else◌, push_str, filter,
}
use observable_cafev.Platform.{Platform}
use observable_cafev.Map.{Map, get}

pub record StepDef : Type 0 where
  pub id : String
  pub step_type : String
  pub trigger : String
  pub enabled_if : Option String

pub data TriggerType : Type 0 where
  user_message llm_complete scheduler_tick : TriggerType
  step_complete : String → TriggerType

-- `s.strip_prefix(prefix)`
abbrev pub strip_prefix : String → String → Option String
strip_prefix s prefix = if starts_with s prefix then some (slice s (len prefix) (len s)) else none

unfoldable pub trigger_type_of : String → TriggerType
trigger_type_of s =
    if s == "user_message"
    then user_message
    else if s == "llm_complete"
    then llm_complete
    else if s == "scheduler_tick"
    then scheduler_tick
    else elim (strip_prefix s "step_complete:") [ some id ↦ step_complete id | none ↦ user_message ]

pub data BuiltInEvaluator : Type 0 where
  role_annotator trust_filter tool_detector tool_executor mcp : BuiltInEvaluator

pub data StepType : Type 0 where
  built_in : BuiltInEvaluator → StepType
  rpc : String → StepType

unfoldable pub step_type_of : String → StepType
step_type_of s =
    if s == "role-annotator"
    then built_in role_annotator
    else if s == "trust-filter"
    then built_in trust_filter
    else if s == "tool-detector"
    then built_in tool_detector
    else if s == "tool-executor"
    then built_in tool_executor
    else if s == "mcp"
    then built_in mcp
    else rpc s

unfoldable pub trigger_matches : String → TriggerType → Bool
trigger_matches step_trigger user_message = step_trigger == "user_message"
trigger_matches step_trigger llm_complete = step_trigger == "llm_complete"
trigger_matches step_trigger scheduler_tick = step_trigger == "scheduler_tick"
trigger_matches step_trigger (step_complete id) =
    step_trigger == push_str "step_complete:" id || step_trigger == "step_complete"

module _ ⦃P : Platform⦄ where
  pub record SessionConfig : Type 0 where
    pub values : Map P.Value
    pub extra : Map P.Value

  -- `opt.or_else(|| other)`
  abbrev pub or_else : Option P.Value → Option P.Value → Option P.Value
  or_else none other = other
  or_else (some v) other = some v

  unfoldable pub is_enabled : StepDef → SessionConfig → Bool
  is_enabled step config = elim step.enabled_if [
    | none ↦ true
    | some key ↦
        unwrap_or (and_then (or_else (get config.values key) (get config.extra key)) P.as_bool)
          false
  ]

  -- `PipelineContext`
  pub record PipelineContext : Type 0 where
    pub session_id : String
    pub config : SessionConfig
    pub assembled_llm_text : Option String
    pub user_text : Option String
    pub depth : ℕ

  -- the steps that `on_trigger` runs for an event, in their order
  unfoldable pub eligible : List StepDef → TriggerType → PipelineContext → List StepDef
  unfolding trigger_matches is_enabled
  eligible steps event ctx =
      filter (λ s. is_enabled s ctx.config) (filter (λ s. trigger_matches s.trigger event) steps)
