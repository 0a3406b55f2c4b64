-- ===== src/Agent/Executor/Terminates.antt =====
-- The work queue empties: `on_trigger` returns, whatever the bus answers.
use observable_cafev.Base.{
  ℕ, zero, suc, ◌+◌, ◌≤◌, ◌<◌, ◌≡◌, refl, Option, some, List, [], ◌∷◌, ◌++◌, leb, ◌&&◌, arith,
  Bool-cases, inl, inr,
}
use observable_cafev.Platform.{Platform}
use observable_cafev.Rpc.{Serde}
use observable_cafev.Agent.Steps.{TriggerType, PipelineContext}
use observable_cafev.Agent.Network.{Network, Log, Outcome, ok, err}
use observable_cafev.Agent.Network.Yields.{Yields}
use observable_cafev.Agent.Dispatch.{PipelineError, Entry}
use observable_cafev.Agent.Tools.{Pattern}
use observable_cafev.Agent.Executor.{
  PipelineExecutor, is_completion, run_entry, run_queue, weight, on_trigger,
}
use observable_cafev.Agent.Executor.Pushes.{run_entry-Pushes}
use observable_cafev.Agent.Executor.Rounds.{total, total-append, weight_falls, weight_pos}

module _ ⦃P : Platform⦄ ⦃S : Serde⦄ where
  Yields-map :
      {Q R : List Entry → Type 0} (o : Outcome PipelineError (List Entry))
      → ((pushed : List Entry) → Q pushed → R pushed)
      → Yields Q o
      → Yields R o
  Yields-map (ok pushed log) f h = f pushed h
  Yields-map (err e log) f h = tt

  run_entry-falls :
      (net : Network) (re : Pattern) (ex : PipelineExecutor) (origin : PipelineContext)
      (event : TriggerType) (ctx : PipelineContext) (log : Log)
      → Yields
          (λ pushed. total ex pushed < weight ex (event, ctx))
          (run_entry net re ex origin (event, ctx) log)
  unfolding run_entry
  run_entry-falls net re ex origin event ctx log =
      elim (Bool-cases (is_completion event && leb ex.max_depth ctx.depth)) [
        | inl skipped ↦ rw (skipped) (omega (arith, weight_pos ex (event, ctx)))
        | inr goes_on ↦
            Yields-map (run_entry net re ex origin (event, ctx) log)
              (λ pushed h. weight_falls ex event ctx pushed goes_on h)
              (run_entry-Pushes net re ex origin event ctx log goes_on)
      ]

  -- an outcome that the queue can reach
  abbrev Ends : Option (Outcome PipelineError Unit) → Type 0
  Ends o = (end : Outcome PipelineError Unit) × (o ≡ some end)

  module _ (net : Network) (re : Pattern) (ex : PipelineExecutor) (origin : PipelineContext) where
    run_queue-Ends :
        (fuel : ℕ) (queue : List Entry) (log : Log)
        → total ex queue ≤ fuel
        → Ends (run_queue net re ex origin fuel queue log)
    unfolding run_queue
    run_queue-Ends fuel [] log le = (ok tt log, refl)
    run_queue-Ends zero (entry ∷ queue) log le = absurd (omega (arith, weight_pos ex entry))
    run_queue-Ends (suc fuel) ((event, ctx) ∷ queue) log le =
        after (run_entry net re ex origin (event, ctx) log)
          (run_entry-falls net re ex origin event ctx log)
          (λ pushed next falls.
            run_queue-Ends fuel (queue ++ pushed) next
              (omega (arith, total-append ex queue pushed, falls)))
      where
        after :
            (o : Outcome PipelineError (List Entry))
            → Yields (λ pushed. total ex pushed < weight ex (event, ctx)) o
            → ((pushed : List Entry) (next : Log)
                → total ex pushed < weight ex (event, ctx)
                → Ends (run_queue net re ex origin fuel (queue ++ pushed) next))
            → Ends (elim o [
              | ok pushed next ↦ run_queue net re ex origin fuel (queue ++ pushed) next
              | err e next ↦ some (err e next)
            ])
        after (ok pushed next) falls rest = rest pushed next falls
        after (err e next) falls rest = (err e next, refl)

    run_queue-more :
        (fuel extra : ℕ) (queue : List Entry) (log : Log) (end : Outcome PipelineError Unit)
        → run_queue net re ex origin fuel queue log ≡ some end
        → run_queue net re ex origin (fuel + extra) queue log ≡ some end
    unfolding run_queue
    run_queue-more fuel extra [] log end h = h
    run_queue-more zero extra (entry ∷ queue) log end h = absurd (cc h)
    run_queue-more (suc fuel) extra (entry ∷ queue) log end h =
        let e : suc fuel + extra ≡ suc (fuel + extra) = omega arith in
        rw (e) (
          after (run_entry net re ex origin entry log)
            (λ pushed next. run_queue-more fuel extra (queue ++ pushed) next end) h)
      where
        after :
            (o : Outcome PipelineError (List Entry))
            → ((pushed : List Entry) (next : Log)
                → run_queue net re ex origin fuel (queue ++ pushed) next ≡ some end
                → run_queue net re ex origin (fuel + extra) (queue ++ pushed) next ≡ some end)
            → elim o [
              | ok pushed next ↦ run_queue net re ex origin fuel (queue ++ pushed) next
              | err e next ↦ some (err e next)
            ]
              ≡ some end
            → elim o [
              | ok pushed next ↦ run_queue net re ex origin (fuel + extra) (queue ++ pushed) next
              | err e next ↦ some (err e next)
            ]
              ≡ some end
        after (ok pushed next) rest h = rest pushed next h
        after (err e next) rest h = h

  -- `on_trigger` returns, whatever the bus and the evaluators answer and however the steps trigger one
  -- another: the queue empties, or a step fails, within the rounds that the model allows, and any
  -- further rounds would not change the outcome.
  pub on_trigger_terminates :
      (net : Network) (re : Pattern) (ex : PipelineExecutor) (event : TriggerType)
      (ctx : PipelineContext) (log : Log)
      → (end : Outcome PipelineError Unit) × (on_trigger net re ex event ctx log ≡ some end)
        × ((extra : ℕ)
            → run_queue net re ex ctx (weight ex (event, ctx) + extra) ((event, ctx) ∷ []) log
              ≡ some end)
  unfolding on_trigger
  on_trigger_terminates net re ex event ctx log =
      let queue : List Entry = (event, ctx) ∷ [] in
      let (end, reached) =
        run_queue-Ends net re ex ctx (weight ex (event, ctx)) queue log (omega arith) in
      (
        end,
        reached,
        λ extra. run_queue-more net re ex ctx (weight ex (event, ctx)) extra queue log end reached,
      )
