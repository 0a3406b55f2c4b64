-- ===== src/Agent/Executor/Rounds.antt =====
-- How many rounds the items of the work queue need.
use native.Mathlib.Nat.{mul-le-mul_right}
use observable_cafev.Base.{
  ℕ, zero, suc, ◌+◌, ◌-◌, ◌*◌, ◌≤◌, ◌<◌, ◌≡◌, refl, false, List, [], ◌∷◌, ◌++◌, leb, ◌&&◌, length,
  All, arith,
}
use observable_cafev.Platform.{Platform}
use observable_cafev.Rpc.{Serde}
use observable_cafev.Agent.Steps.{
  TriggerType, user_message, llm_complete, scheduler_tick, step_complete, PipelineContext,
}
use observable_cafev.Agent.Dispatch.{Entry}
use observable_cafev.Agent.Executor.{PipelineExecutor, is_completion, rounds, weight}
use observable_cafev.Agent.Executor.Pushes.{IsNext, Pushes}

module _ ⦃P : Platform⦄ ⦃S : Serde⦄ where
  abbrev pub total : PipelineExecutor → List Entry → ℕ
  total ex [] = 0
  total ex (entry ∷ queue) = weight ex entry + total ex queue

  pub total-append :
      (ex : PipelineExecutor) (a b : List Entry) → total ex (a ++ b) ≡ total ex a + total ex b
  total-append ex [] b = omega arith
  total-append ex (entry ∷ a) b = omega (arith, total-append ex a b)

  rounds_pos : (steps levels : ℕ) → 1 ≤ rounds steps levels
  rounds_pos steps zero = omega arith
  rounds_pos steps (suc levels) = omega arith

  -- completions of one depth weigh the same
  total-next :
      (ex : PipelineExecutor) (d : ℕ) (entries : List Entry)
      → All (IsNext d) entries
      → total ex entries ≡ length entries * rounds (length ex.steps) (ex.max_depth - d)
  unfolding weight
  total-next ex d [] h = omega arith
  total-next ex d ((step_complete id, ctx) ∷ entries) h =
      let e = total-next ex d entries h.1 in rw (h.0.1) (grind (arith, e))
  total-next ex d ((user_message, ctx) ∷ entries) h = absurd (cc h.0.0)
  total-next ex d ((llm_complete, ctx) ∷ entries) h = absurd (cc h.0.0)
  total-next ex d ((scheduler_tick, ctx) ∷ entries) h = absurd (cc h.0.0)

  weight_lem :
      (ex : PipelineExecutor) (event : TriggerType) (ctx : PipelineContext)
      → (is_completion event && leb ex.max_depth ctx.depth) ≡ false
      → weight ex (event, ctx)
        ≡ 1 + length ex.steps * rounds (length ex.steps) (ex.max_depth - (ctx.depth + 1))
  unfolding weight
  weight_lem ex (step_complete id) ctx goes_on =
      let e : ex.max_depth - ctx.depth ≡ suc (ex.max_depth - (ctx.depth + 1)) = ground arith in
      rw (e) refl
  weight_lem ex user_message ctx goes_on = refl
  weight_lem ex llm_complete ctx goes_on = refl
  weight_lem ex scheduler_tick ctx goes_on = refl

  -- what a round pushes needs fewer rounds than the item that it took
  pub weight_falls :
      (ex : PipelineExecutor) (event : TriggerType) (ctx : PipelineContext) (pushed : List Entry)
      → (is_completion event && leb ex.max_depth ctx.depth) ≡ false
      → Pushes (ctx.depth + 1) (length ex.steps) pushed
      → total ex pushed < weight ex (event, ctx)
  weight_falls ex event ctx pushed goes_on h =
      let r = rounds (length ex.steps) (ex.max_depth - (ctx.depth + 1)) in
      let e = total-next ex (ctx.depth + 1) pushed h.0 in
      let w = weight_lem ex event ctx goes_on in
      let le : length pushed * r ≤ length ex.steps * r = mul-le-mul_right r h.1 in
      omega (arith, e, w, le)

  pub weight_pos : (ex : PipelineExecutor) (entry : Entry) → 1 ≤ weight ex entry
  unfolding weight
  weight_pos ex (step_complete id, ctx) = rounds_pos _ _
  weight_pos ex (user_message, ctx) = omega arith
  weight_pos ex (llm_complete, ctx) = omega arith
  weight_pos ex (scheduler_tick, ctx) = omega arith
