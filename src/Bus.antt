-- ===== src/Bus.antt =====
-- The state that the connections of the bus share: cafe-bus/src/client.rs and the registry.
--
-- A connection's writer is known by the connection's id, and `outbox` is the log of all messages
-- handed to a writer, oldest first. Encoding succeeds. `timers` are the deletion tasks still asleep,
-- `detached` the forwarding tasks that no connection holds a handle of.
use observable_cafev.Base.{ℕ, String, Bool, Option, some, List, [], ◌∷◌, ◌++◌}
use observable_cafev.Platform.{Platform}
use observable_cafev.Map.{Map}
use observable_cafev.Chunk.{Stamp}
use observable_cafev.Envelope.{ServerMessage, SubscribeFilter, error}
use observable_cafev.Session.{Instant}
use observable_cafev.Registry
use observable_cafev.Registry.{SessionRegistry, Timer}

pub record ConnectionMeta : Type 0 where
  pub role : Option String

-- What a handler takes from its surroundings: the clock, the ids and times of the chunks that it
-- makes, and whether the writes of the connection succeed, by their number.
pub record Env : Type 0 where
  pub now : Instant
  pub stamp : ℕ → Stamp
  pub accepts : ℕ → Bool

module _ ⦃P : Platform⦄ where
  -- A task that forwards what a receiver yields. The position is that of the receiver in the log of
  -- what its channel was sent.
  pub data Task : Type 0 where
    forward_chunks : (session_id : String) (position : ℕ) → Task
    forward_events : (filter : Option SubscribeFilter) (position : ℕ) → Task

  -- `replay_and_forward` spawns such a task and drops its handle.
  pub record Detached : Type 0 where
    pub conn : String
    pub session_id : String
    pub position : ℕ
    pub filter : Option SubscribeFilter

  pub record Bus : Type 0 where
    pub registry : SessionRegistry
    pub connections : Map (Unit {0})
    pub conn_meta : Map ConnectionMeta
    pub outbox : List (String × ServerMessage)
    pub timers : List Timer
    pub detached : List Detached

  -- The loop variables of one connection.
  pub record Conn : Type 0 where
    pub id : String
    pub subscriber_tasks : List (String × Task)

  unfoldable pub start : Bus
  unfolding Registry.new
  start = record {
    registry = Registry.new;
    connections = [];
    conn_meta = [];
    outbox = [];
    timers = [];
    detached = [];
  }

  unfoldable pub send_msg : String → ServerMessage → Bus → Bus
  send_msg conn m b = record b { outbox = b.outbox ++ (conn, m) ∷ [] }

  unfoldable pub send_error : String → String → String → String → Bus → Bus
  unfolding send_msg
  send_error conn session message code b = send_msg conn (error (some session) message code) b

  unfoldable pub send_all : String → List ServerMessage → Bus → Bus
  unfolding send_msg
  send_all conn [] b = b
  send_all conn (m ∷ ms) b = send_all conn ms (send_msg conn m b)
