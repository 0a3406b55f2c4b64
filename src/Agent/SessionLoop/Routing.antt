-- ===== src/Agent/SessionLoop/Routing.antt =====
-- Which chunks of a session are triggers, and what the loop does with them.
use observable_cafev.Base.{
  ℕ, String, ◌≡◌, refl, ap, Bool, true, false, Option, none, some, List, [], ◌∷◌, ◌++◌, All,
  and_then, if◌then◌else◌, Bool-cases, Option-cases, inl, inr, ◌∙◌,
}
use observable_cafev.Platform.{Platform}
use observable_cafev.Chunk.{Chunk, is_transient, get_str, new_null, with_annotation}
use observable_cafev.Chunk.Keys.{cafe_error_message}
use observable_cafev.Map.{get-insert}
use observable_cafev.Envelope.{ServerMessage, chunk, history_complete}
use observable_cafev.Rpc.{Serde}
use observable_cafev.Agent.Steps.{TriggerType}
use observable_cafev.Agent.Network.{Network, Log, Fault, Outcome, ok, err, bus_history, bus_publish}
use observable_cafev.Agent.Dispatch.{PipelineError, runtime, display}
use observable_cafev.Agent.Tools.{Pattern}
use observable_cafev.Agent.Executor.{PipelineExecutor, on_trigger}
use observable_cafev.Agent.Executor.Terminates.{on_trigger_terminates}
use observable_cafev.Agent.SessionLoop.{
  trigger_of, route, context_of, conclude_pipeline, fire, run_session_loop,
}

module _ ⦃P : Platform⦄ where
  -- the trigger of a chunk that is kept in the history, with the chunk
  abbrev pub starts : Chunk → List (TriggerType × Chunk)
  starts c = if is_transient c then [] else elim (trigger_of c) [ some t ↦ (t, c) ∷ [] | none ↦ [] ]

  -- what the chunks among some messages trigger, in order
  abbrev pub live_triggers : List ServerMessage → List (TriggerType × Chunk)
  live_triggers [] = []
  live_triggers (chunk id c ∷ rest) = starts c ++ live_triggers rest
  live_triggers (_ ∷ rest) = live_triggers rest

  -- no `history_complete`
  abbrev pub IsReplay : ServerMessage → Type 0
  IsReplay (history_complete id count) = false ≡ true
  IsReplay _ = Unit

  route-transient :
      (done : Bool) (id : String) (c : Chunk)
      → is_transient c ≡ true
      → route done (chunk id c) ≡ (done, none)
  unfolding route
  route-transient done id c transient = rw (transient, route) refl

  route-early :
      (id : String) (c : Chunk) → is_transient c ≡ false → route false (chunk id c) ≡ (false, none)
  unfolding route
  route-early id c kept = rw (kept, route) refl

  route-live :
      (id : String) (c : Chunk) (t : Option TriggerType)
      → is_transient c ≡ false
      → trigger_of c ≡ t
      → route true (chunk id c) ≡ (true, and_then t (λ u. some (u, c)))
  unfolding route
  route-live id c t kept found = rw (kept, route, found) refl

  module _ ⦃S : Serde⦄ (net : Network) (re : Pattern) (ex : PipelineExecutor) (id : String) where
    abbrev left_by : {E A : Type 0} → Outcome E A → Log
    left_by (ok a log) = log
    left_by (err e log) = log

    -- How a pipeline ends: well, or with an error whose text the runtime publishes into the session.
    abbrev pub Ends : Option (Outcome PipelineError Unit) → Log → Type 0
    Ends none next = ⊥
    Ends (some (ok a log)) next = next ≡ log
    Ends (some (err e log)) next =
        (c : Chunk) × (get_str c cafe_error_message ≡ some (display e))
        × (c.producer ≡ runtime)
        × (next ≡ left_by (bus_publish net id c log))

    -- After the history has been read: if that succeeded, the pipeline runs to its end on it.
    abbrev pub Runs : TriggerType → Chunk → Outcome Fault (List Chunk) → Log → Type 0
    Runs t c (err e read) next = next ≡ read
    Runs t c (ok history read) next =
        Ends (on_trigger net re ex t (context_of net read id t c history) read) next

    -- one trigger
    abbrev pub Handled : TriggerType → Chunk → Log → Log → Type 0
    Handled t c log next = Runs t c (bus_history net id log) next

    -- all triggers, one after the other
    abbrev pub AllHandled : List (TriggerType × Chunk) → Log → Log → Type 0
    AllHandled [] log last = last ≡ log
    AllHandled ((t, c) ∷ later) log last =
        (next : Log) × Handled t c log next × AllHandled later next last

    reported :
        (c : Chunk) (e : PipelineError) (log : Log) (o : Outcome Fault Unit)
        → o ≡ bus_publish net id c log
        → get_str c cafe_error_message ≡ some (display e)
        → c.producer ≡ runtime
        → (next : Log) × (elim o [ ok a next ↦ some next | err f next ↦ some next ] ≡ some next)
          × Ends (some (err e log)) next
    reported c e log (ok a next) same text producer =
        (next, refl, (c, text, producer, ap left_by same))
    reported c e log (err f next) same text producer =
        (next, refl, (c, text, producer, ap left_by same))

    conclude_pipeline-Ends :
        (end : Outcome PipelineError Unit)
        → (next : Log) × (conclude_pipeline net id (some end) ≡ some next) × Ends (some end) next
    unfolding conclude_pipeline new_null with_annotation get_str
    conclude_pipeline-Ends (ok a log) = (log, refl, refl)
    conclude_pipeline-Ends (err e log) =
        let c =
          with_annotation
            (with_annotation (new_null (net.stamp log) runtime) cafe_error_message
              (P.string (display e)))
            "error.source" (P.string "pipeline") in
        reported c e log (bus_publish net id c log) refl (simp (get-insert, P.as_str-string)) refl

    fire-Runs :
        (t : TriggerType) (c : Chunk) (o : Outcome Fault (List Chunk))
        → (next : Log) × (fire net re ex id t c o ≡ some next) × Runs t c o next
    unfolding fire
    fire-Runs t c (err e read) = (read, refl, refl)
    fire-Runs t c (ok history read) =
        let ctx = context_of net read id t c history in
        let (end, reached, more) = on_trigger_terminates net re ex t ctx read in
        let (next, concluded, ends) = conclude_pipeline-Ends end in
        (next, rw (reached) concluded, rw (reached) ends)

    run-quiet :
        (done next : Bool) (msg : ServerMessage) (rest : List ServerMessage) (log : Log)
        → route done msg ≡ (next, none)
        → run_session_loop net re ex id done (msg ∷ rest) log
          ≡ run_session_loop net re ex id next rest log
    unfolding run_session_loop
    run-quiet done next msg rest log e =
        rw (run_session_loop, e) (ap (λ r. run_session_loop net re ex id r.0 rest log) e)

    run-trigger :
        (done next : Bool) (t : TriggerType) (c : Chunk) (msg : ServerMessage)
        (rest : List ServerMessage) (log after : Log)
        → route done msg ≡ (next, some (t, c))
        → fire net re ex id t c (bus_history net id log) ≡ some after
        → run_session_loop net re ex id done (msg ∷ rest) log
          ≡ run_session_loop net re ex id next rest after
    unfolding run_session_loop
    run-trigger done next t c msg rest log after e fired =
        rw (run_session_loop, e, fired) (ap (λ r. run_session_loop net re ex id r.0 rest after) e)

    -- The loop returns, having handled these triggers.
    abbrev Handles : List (TriggerType × Chunk) → Log → Option Log → Type 0
    Handles triggers log o = (last : Log) × (o ≡ some last) × AllHandled triggers log last

    run_session_loop-live :
        (messages : List ServerMessage) (log : Log)
        → Handles (live_triggers messages) log (run_session_loop net re ex id true messages log)
    unfolding run_session_loop
    run_session_loop-live [] log = (log, refl, refl)
    run_session_loop-live (chunk s c ∷ rest) log = elim (Bool-cases (is_transient c)) [
      | inl transient ↦
          rw
            (
              transient,
              run-quiet true true (chunk s c) rest log (route-transient true s c transient),
            )
            (run_session_loop-live rest log)
      | inr kept ↦ elim (Option-cases (trigger_of c)) [
        | inl nothing ↦
            rw
              (
                kept,
                nothing,
                run-quiet true true (chunk s c) rest log (route-live s c none kept nothing),
              )
              (run_session_loop-live rest log)
        | inr (t, found) ↦
            let (next, fired, handled) = fire-Runs t c (bus_history net id log) in
            let (last, ran, others) = run_session_loop-live rest next in
            (
              last,
              run-trigger true true t c (chunk s c) rest log next
                    (route-live s c (some t) kept found) fired
                  ∙ ran,
              rw (kept, found) (next, handled, others),
            )
      ]
    ]
    run_session_loop-live (history_complete s n ∷ rest) log =
        rw (run-quiet true true (history_complete s n) rest log (unfold route in refl))
          (run_session_loop-live rest log)
    run_session_loop-live (m ∷ rest) log =
        rw (run-quiet true true m rest log (unfold route in refl)) (run_session_loop-live rest log)

    -- The messages of a subscription are those of the replay, its end, and later ones. The loop of the
    -- session then returns. It has handled exactly the triggers of the later chunks that are not
    -- transient, one after the other in the order in which they arrived, and none of the replay: for each
    -- it has read the history, and if that succeeded, run the pipeline to its end, and published the
    -- error if it ended with one. A failed read or pipeline does not keep it from the next trigger.
    pub run_session_loop_lem :
        (replay : List ServerMessage) (s : String) (count : ℕ) (live : List ServerMessage)
        (log : Log)
        → All IsReplay replay
        → (last : Log) × (run_session_loop net re ex id false
              (replay ++ history_complete s count ∷ live)
              log
            ≡ some last)
          × AllHandled (live_triggers live) log last
    unfolding run_session_loop
    run_session_loop_lem [] s count live log h =
        rw (run-quiet false true (history_complete s count) live log (unfold route in refl))
          (run_session_loop-live live log)
    run_session_loop_lem (chunk i c ∷ replay) s count live log h =
        elim (Bool-cases (is_transient c)) [
          | inl transient ↦
              rw (run-quiet false false (chunk i c) _ log (route-transient false i c transient))
                (run_session_loop_lem replay s count live log h.1)
          | inr kept ↦
              rw (run-quiet false false (chunk i c) _ log (route-early i c kept))
                (run_session_loop_lem replay s count live log h.1)
        ]
    run_session_loop_lem (history_complete i n ∷ replay) s count live log h = absurd (cc h.0)
    run_session_loop_lem (m ∷ replay) s count live log h =
        rw (run-quiet false false m _ log (unfold route in refl))
          (run_session_loop_lem replay s count live log h.1)
