-- ===== src/Agent/Network/About.antt =====
-- Programs that only concern one session.
use observable_cafev.Base.{String, ◌≡◌, refl, Option, none, some}
use observable_cafev.Platform.{Platform}
use observable_cafev.Chunk.{Chunk}
use observable_cafev.Agent.Network.{
  Network, Call, publish, get_history, subscribe, receive, new_uuid, Log, Fault, Program, Outcome,
  ok, err, return, map_err, attempt, ask, answer, bus_publish, bus_post, bus_history, bus_subscribe,
  bus_receive, fresh_uuid,
}
use observable_cafev.Agent.Network.Yields.{Calls, Keeps}
use observable_cafev.Agent.Dispatch.{PipelineError, runtime}

module _ ⦃P : Platform⦄ where
  -- a call about a session; what is published there names the runtime as its producer
  abbrev pub IsAbout : String → Call → Type 0
  IsAbout id (publish s c) = (s ≡ id) × (c.producer ≡ runtime)
  IsAbout id (get_history s) = s ≡ id
  IsAbout id (subscribe s) = s ≡ id
  IsAbout id (receive s) = s ≡ id
  IsAbout id new_uuid = Unit

  module _ (net : Network) where
    pub answer-Keeps :
        {A : Type 0} (Q : Call → Type 0) (f : Option Fault) (a : A) → Keeps Q (answer f a)
    answer-Keeps Q none a = record { kept = λ log h. h }
    answer-Keeps Q (some e) a = record { kept = λ log h. h }

    pub bus_post-Keeps :
        (id : String) (make : Log → Chunk)
        → ((log : Log) → (make log).producer ≡ runtime)
        → Keeps (IsAbout id) (bus_post net id make)
    unfolding bus_post bus_publish
    bus_post-Keeps id make e = record {
      kept = λ log h. (answer-Keeps (IsAbout id) _ tt).kept _ ((refl, e log), h);
    }

    pub bus_history-Keeps : (id : String) → Keeps (IsAbout id) (bus_history net id)
    unfolding bus_history
    bus_history-Keeps id = record {
      kept = λ log h. (answer-Keeps (IsAbout id) _ _).kept _ (refl, h);
    }

    pub bus_subscribe-Keeps : (id : String) → Keeps (IsAbout id) (bus_subscribe net id)
    unfolding bus_subscribe
    bus_subscribe-Keeps id = record {
      kept = λ log h. (answer-Keeps (IsAbout id) _ tt).kept _ (refl, h);
    }

    pub fresh_uuid-Keeps : (E : Type 0) (id : String) → Keeps (IsAbout id) (fresh_uuid net {E = E})
    unfolding fresh_uuid
    fresh_uuid-Keeps E id = record { kept = λ log h. (tt, h) }

    pub bus_receive-Keeps :
        (E : Type 0) (id : String) → Keeps (IsAbout id) (bus_receive net {E = E} id)
    unfolding bus_receive
    bus_receive-Keeps E id = record { kept = λ log h. (refl, h) }

    pub ask-Keeps : (E A : Type 0) (Q : Call → Type 0) (f : Log → A) → Keeps Q (ask net {E = E} f)
    ask-Keeps E A Q f = record { kept = λ log h. h }

  pub return-Keeps : {E A : Type 0} (Q : Call → Type 0) (a : A) → Keeps {E = E} Q (return a)
  return-Keeps Q a = record { kept = λ log h. h }

  pub map_err-Keeps :
      {A : Type 0} (Q : Call → Type 0) (f : Fault → PipelineError) (p : Program Fault A)
      → Keeps Q p
      → Keeps Q (map_err f p)
  map_err-Keeps {A} Q f p h = record { kept = λ log so_far. split (p log) (h.kept log so_far) }
    where
      split :
          (o : Outcome Fault A)
          → Calls Q o
          → Calls {E = PipelineError} {A = A} Q
              (elim o [ ok a next ↦ ok a next | err e next ↦ err (f e) next ])
      split (ok a next) q = q
      split (err e next) q = q

  pub attempt-Keeps :
      (Q : Call → Type 0) (p : Program Fault Unit)
      → Keeps Q p
      → Keeps {E = PipelineError} Q (attempt p)
  attempt-Keeps Q p h = record { kept = λ log so_far. split (p log) (h.kept log so_far) }
    where
      split :
          (o : Outcome Fault Unit)
          → Calls Q o
          → Calls {E = PipelineError} {A = Unit} Q
              (elim o [ ok a next ↦ ok tt next | err e next ↦ ok tt next ])
      split (ok a next) q = q
      split (err e next) q = q
