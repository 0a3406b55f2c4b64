-- ===== src/Agent/Executor/Confined.antt =====
-- What the pipeline of an event touches: its own session only.
use observable_cafev.Base.{
  ℕ, zero, suc, ◌≡◌, refl, subst, Option, none, some, List, [], ◌∷◌, ◌++◌, leb, ◌&&◌, All,
  All-append, Bool-cases, inl, inr,
}
use observable_cafev.Platform.{Platform}
use observable_cafev.Rpc.{Serde}
use observable_cafev.Agent.Steps.{TriggerType, PipelineContext, eligible}
use observable_cafev.Agent.Network.{Network, Log, Outcome, ok, err}
use observable_cafev.Agent.Network.Yields.{Calls, Yields}
use observable_cafev.Agent.Dispatch.{PipelineError, Entry}
use observable_cafev.Agent.Tools.{Pattern}
use observable_cafev.Agent.Network.About.{IsAbout}
use observable_cafev.Agent.Executor.{
  PipelineExecutor, is_completion, dispatches, run_entry, run_queue, weight, on_trigger,
}
use observable_cafev.Agent.Executor.Terminates.{on_trigger_terminates}
use observable_cafev.Agent.Executor.Steps.{
  Within, Stays, nothing-Stays, append-Stays, built_ins-Stays, dispatches-Stays,
}

module _ ⦃P : Platform⦄ ⦃S : Serde⦄ where
  module _ (net : Network) (re : Pattern) (ex : PipelineExecutor) (origin : PipelineContext) where
    run_entry-Stays :
        (event : TriggerType) (ctx : PipelineContext)
        → ctx.session_id ≡ origin.session_id
        → Stays origin.session_id (run_entry net re ex origin (event, ctx))
    unfolding run_entry
    run_entry-Stays event ctx e =
        let id = origin.session_id in
        let steps = eligible ex.steps event ctx in
        elim (Bool-cases (is_completion event && leb ex.max_depth ctx.depth)) [
          | inl skipped ↦ rw (skipped, run_entry) (nothing-Stays id)
          | inr goes_on ↦
              rw (goes_on, run_entry)
                (append-Stays id _ _ (built_ins-Stays net re origin id refl ctx steps e) (
                  subst (λ s. Stays s (dispatches net ctx steps)) e
                    (dispatches-Stays net ctx steps)))
        ]

    abbrev About : Option (Outcome PipelineError Unit) → Type 0
    About none = Unit
    About (some end) = Calls (IsAbout origin.session_id) end

    run_queue-About :
        (fuel : ℕ) (queue : List Entry) (log : Log)
        → Within origin.session_id queue
        → All (IsAbout origin.session_id) log
        → About (run_queue net re ex origin fuel queue log)
    unfolding run_queue
    run_queue-About fuel [] log w h = h
    run_queue-About zero (entry ∷ queue) log w h = tt
    run_queue-About (suc fuel) ((event, ctx) ∷ queue) log w h =
        after (run_entry net re ex origin (event, ctx) log)
          ((run_entry-Stays event ctx w.0).0.kept log h) ((run_entry-Stays event ctx w.0).1 log)
          (λ pushed next v.
            run_queue-About fuel (queue ++ pushed) next
              (All-append (λ e. e.1.session_id ≡ origin.session_id) queue pushed w.1 v))
      where
        after :
            (o : Outcome PipelineError (List Entry))
            → Calls (IsAbout origin.session_id) o
            → Yields (Within origin.session_id) o
            → ((pushed : List Entry) (next : Log)
                → Within origin.session_id pushed
                → All (IsAbout origin.session_id) next
                → About (run_queue net re ex origin fuel (queue ++ pushed) next))
            → About (elim o [
              | ok pushed next ↦ run_queue net re ex origin fuel (queue ++ pushed) next
              | err e next ↦ some (err e next)
            ])
        after (ok pushed next) c v rest = rest pushed next v c
        after (err e next) c v rest = c

  -- Whatever an event triggers in a session, to any depth and on every error: each call that the
  -- pipeline makes on the bus is about that session, and each chunk that it publishes there names the
  -- agent runtime as its producer.
  pub on_trigger_confined :
      (net : Network) (re : Pattern) (ex : PipelineExecutor) (event : TriggerType)
      (ctx : PipelineContext)
      → (end : Outcome PipelineError Unit) × (on_trigger net re ex event ctx [] ≡ some end)
        × Calls (IsAbout ctx.session_id) end
  unfolding on_trigger
  on_trigger_confined net re ex event ctx =
      let (end, reached, more) = on_trigger_terminates net re ex event ctx [] in
      (
        end,
        reached,
        subst (About net re ex ctx) reached (
            run_queue-About net re ex ctx (weight ex (event, ctx)) ((event, ctx) ∷ []) [] (refl, tt)
              tt),
      )
