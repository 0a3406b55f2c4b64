-- ===== src/Agent/Network.antt =====
-- What the agent runtime sees of the bus: cafe-sdk's `BusClient`, by the calls that are made on it and
-- by their answers. The answers may depend in any way on what was called before, so the theorems
-- hold for any bus, any other client and any timing.
pub mod About
pub mod Yields
use observable_cafev.Base.{ℕ, String, Option, none, some, List, [], ◌∷◌}
use observable_cafev.Platform.{Platform}
use observable_cafev.Chunk.{Chunk, Stamp}
use observable_cafev.Envelope.{ServerMessage}
use observable_cafev.Rpc.{EvaluatorSchema}

-- the display of an `SdkError`
abbrev pub Fault : Type 0
Fault = String

-- how a wait for messages ends
pub data Ending : Type 0 where
  timed_out disconnected : Ending

module _ ⦃P : Platform⦄ where
  pub data Call : Type 0 where
    publish : (session_id : String) (c : Chunk) → Call
    get_history : (session_id : String) → Call
    subscribe : (session_id : String) → Call
    -- `rx.recv()` until the answer has come or the time is over
    receive : (session_id : String) → Call
    -- `Uuid::new_v4` for the id of a request
    new_uuid : Call

  -- The calls made so far, the newest first.
  abbrev pub Log : Type 0
  Log = List Call

  pub record Network : Type 0 where
    pub published : Log → Option Fault
    pub history : Log → List Chunk
    pub history_fault : Log → Option Fault
    pub subscribed : Log → Option Fault
    -- what a receiver yields, and how the wait ends if none of it is the answer
    pub messages : Log → List ServerMessage
    pub ending : Log → Ending
    pub stamp : Log → Stamp
    pub uuid : Log → String
    -- the live `SchemaRegistry`: `get` and `snapshot`
    pub schema : Log → String → Option EvaluatorSchema
    pub snapshot : Log → List EvaluatorSchema

  -- a result, and the calls made up to it
  pub data Outcome (E A : Type 0) : Type 0 where
    ok : A → Log → Outcome E A
    err : E → Log → Outcome E A

  abbrev pub Program : Type 0 → Type 0 → Type 0
  Program E A = Log → Outcome E A

  infixl 5 ◌>>=◌
  unfoldable pub ◌>>=◌ : {E A B : Type 0} → Program E A → (A → Program E B) → Program E B
  (p >>= k) log = elim (p log) [ ok a next ↦ k a next | err e next ↦ err e next ]

  abbrev pub return : {E A : Type 0} → A → Program E A
  return a log = ok a log

  abbrev pub fail : {E A : Type 0} → E → Program E A
  fail e log = err e log

  -- `.map_err(f)`
  abbrev pub map_err : {E F A : Type 0} → (E → F) → Program E A → Program F A
  map_err f p log = elim (p log) [ ok a next ↦ ok a next | err e next ↦ err (f e) next ]

  -- `if let Err(e) = p { warn!(…) }`
  abbrev pub attempt : {E F : Type 0} → Program E Unit → Program F Unit
  attempt p log = elim (p log) [ ok a next ↦ ok tt next | err e next ↦ ok tt next ]

  abbrev pub answer : {A : Type 0} → Option Fault → A → Program Fault A
  answer none a = return a
  answer (some e) a = fail e

  module _ (net : Network) where
    unfoldable pub bus_publish : String → Chunk → Program Fault Unit
    bus_publish id c log = answer (net.published (publish id c ∷ log)) tt (publish id c ∷ log)

    -- the publication of a chunk that is made at that moment, by what its making takes from outside
    unfoldable pub bus_post : String → (Log → Chunk) → Program Fault Unit
    unfolding bus_publish
    bus_post id make log = bus_publish id (make log) log

    unfoldable pub bus_history : String → Program Fault (List Chunk)
    bus_history id log =
        let called = get_history id ∷ log in
        answer (net.history_fault called) (net.history called) called

    unfoldable pub bus_subscribe : String → Program Fault Unit
    bus_subscribe id log = answer (net.subscribed (subscribe id ∷ log)) tt (subscribe id ∷ log)

    unfoldable pub fresh_uuid : {E : Type 0} → Program E String
    fresh_uuid log = ok (net.uuid (new_uuid ∷ log)) (new_uuid ∷ log)

    abbrev pub ask : {E A : Type 0} → (Log → A) → Program E A
    ask f log = ok (f log) log

    -- the messages of a wait and its ending
    unfoldable pub bus_receive : {E : Type 0} → String → Program E (List ServerMessage × Ending)
    bus_receive id log =
        let called = receive id ∷ log in ok (net.messages called, net.ending called) called
