-- ===== src/Client/Run.antt =====
-- The bus as a whole: connections, deletion timers and event-following tasks take turns. A step is one
-- round of a connection's loop, or one wake of a task; the registry's lock makes the registry's part
-- of each atomic.
use observable_cafev.Base.{
  ℕ, ◌+◌, ◌≤◌, ◌≡◌, refl, String, Bool, false, Option, none, some, List, [], ◌∷◌, ◌++◌, arith,
  subst, some_inj,
}
use observable_cafev.Platform.{Platform}
use observable_cafev.Map.{contains_key}
use observable_cafev.Envelope.{
  ClientMessage, ServerMessage, SubscribeFilter, subscribe, subscribe_all, subscribe_filtered,
  publish, set_meta, create_session, delete_session, set_session_tags, fork_session, list_sessions,
  ping,
}
use observable_cafev.Session.{Instant}
use observable_cafev.Registry.{Timer, fire}
use observable_cafev.Registry.Consistent.{IsConsistent}
use observable_cafev.Registry.Events.{Tracks}
use observable_cafev.Registry.Steps.{
  RegistrySteps, stay, RegistrySteps-trans, RegistrySteps-IsConsistent, RegistrySteps-Tracks,
}
use observable_cafev.Bus.{Bus, Env, Conn, start}
use observable_cafev.Handlers.Sessions.{handle_list}
use observable_cafev.Handlers.SubscribeAll.{on_event}
use observable_cafev.Handlers.Disconnect.{disconnect}
use observable_cafev.Client
use observable_cafev.Client.{handle, handshake, greet}
use observable_cafev.Client.Moves.{Moves, MovesIf, unmoved}
use observable_cafev.Client.Moves.Publish.{handle_publish-Moves}
use observable_cafev.Client.Moves.Sessions.{
  handle_fork-Moves, handle_delete-Moves, handle_set_tags-Moves,
}
use observable_cafev.Client.Moves.Create.{handle_create-Moves}
use observable_cafev.Client.Moves.Subscribe.{
  handle_subscribe-Moves, handle_subscribe_all-Moves, on_event-Moves,
}
use observable_cafev.Client.Moves.Leave.{fire-Moves, disconnect-Moves}

module _ ⦃P : Platform⦄ where
  pub record World : Type 0 where
    pub bus : Bus
    pub conns : List Conn
    pub now : Instant

  pub data Step (w : World) : World → Type 0 where
    connects :
        (bincode : Bool) (id : String) (first : ClientMessage)
        → contains_key w.bus.connections id ≡ false
        → Step w (record w {
          bus = (handshake bincode id first w.bus).1;
          conns = (handshake bincode id first w.bus).0 ∷ w.conns;
        })
    -- The same without negotiation, as `handle_client` starts.
    greets :
        (id : String)
        → contains_key w.bus.connections id ≡ false
        → Step w (record w { bus = (greet id w.bus).1; conns = (greet id w.bus).0 ∷ w.conns })
    receives :
        (env : Env) (m : ClientMessage) (before : List Conn) (conn : Conn) (after : List Conn)
        {conn' : Conn} {b : Bus}
        → w.conns ≡ before ++ conn ∷ after
        → env.now ≡ w.now
        → handle env m conn w.bus ≡ some (conn', b)
        → Step w (record w { bus = b; conns = before ++ conn' ∷ after })
    -- The task of the connection dies, and nothing is cleaned up.
    panics :
        (env : Env) (m : ClientMessage) (before : List Conn) (conn : Conn) (after : List Conn)
        → w.conns ≡ before ++ conn ∷ after
        → env.now ≡ w.now
        → handle env m conn w.bus ≡ none
        → Step w (record w { conns = before ++ after })
    disconnects :
        (before : List Conn) (conn : Conn) (after : List Conn)
        → w.conns ≡ before ++ conn ∷ after
        → Step w (record w { bus = disconnect w.now conn w.bus; conns = before ++ after })
    fires :
        (before : List Timer) (t : Timer) (after : List Timer)
        → w.bus.timers ≡ before ++ t ∷ after
        → t.fire_at ≤ w.now
        → Step w (record w {
          bus = record w.bus {
            registry = fire w.bus.registry t.session_id;
            timers = before ++ after;
          };
        })
    follows :
        (conn : String) (f : Option SubscribeFilter) (event : ServerMessage)
        (earlier later : List ServerMessage)
        → w.bus.registry.events ≡ earlier ++ event ∷ later
        → Step w (record w { bus = on_event w.now conn f event w.bus })
    waits : (n : ℕ) → Step w (record w { now = w.now + n })

  pub data Reach (w : World) : World → Type 0 where
    here : Reach w w
    next : {u v : World} → Reach w u → Step u v → Reach w v

  abbrev pub begin : Instant → World
  begin now = record { bus = start; conns = []; now = now }

  moved :
      (b : Bus) (p : Conn × Bus) {conn' : Conn} {b' : Bus}
      → RegistrySteps b.registry p.1.registry
      → some p ≡ some (conn', b')
      → RegistrySteps b.registry b'.registry
  moved b p moves h =
      subst (λ (q : Conn × Bus). RegistrySteps b.registry q.1.registry) (some_inj h) moves

  keep-Moves :
      (conn : Conn) (b : Bus) (o : Option Bus) {conn' : Conn} {b' : Bus}
      → MovesIf b o
      → Client.keep conn o ≡ some (conn', b')
      → Moves b b'
  keep-Moves conn b none moves h = absurd (cc h)
  keep-Moves conn b (some t) moves h = moved b (conn, t) moves h

  handle-Moves :
      (env : Env) (m : ClientMessage) (conn : Conn) (b : Bus) {conn' : Conn} {b' : Bus}
      → handle env m conn b ≡ some (conn', b')
      → Moves b b'
  unfolding handle handle_list
  handle-Moves env ping conn b h = moved b _ stay h
  handle-Moves env (set_meta role codecs) conn b h = moved b _ stay h
  handle-Moves env list_sessions conn b h = moved b _ stay h
  handle-Moves env (create_session id agent config) conn b h =
      keep-Moves conn b _ (handle_create-Moves env conn.id id agent config b) h
  handle-Moves env (set_session_tags id tags) conn b h =
      keep-Moves conn b _ (handle_set_tags-Moves env conn.id id tags b) h
  handle-Moves env (fork_session parent id config) conn b h =
      moved b _ (handle_fork-Moves env conn.id parent id b) h
  handle-Moves env (delete_session id) conn b h = moved b _ (handle_delete-Moves conn.id id b) h
  handle-Moves env (publish id c) conn b h =
      keep-Moves conn b _ (handle_publish-Moves env conn.id id c b) h
  handle-Moves env (subscribe id) conn b h = moved b _ (handle_subscribe-Moves env id conn b) h
  handle-Moves env subscribe_all conn b h = moved b _ (handle_subscribe_all-Moves env none conn b) h
  handle-Moves env (subscribe_filtered f) conn b h =
      moved b _ (handle_subscribe_all-Moves env (some f) conn b) h

  registry-handshake :
      (bincode : Bool) (id : String) (first : ClientMessage) (b : Bus)
      → (handshake bincode id first b).1.registry ≡ b.registry
  unfolding handshake
  registry-handshake bincode id first b = ground arith

  registry-greet : (id : String) (b : Bus) → (greet id b).1.registry ≡ b.registry
  unfolding greet
  registry-greet id b = refl

  Step-Moves : {w w' : World} → Step w w' → Moves w.bus w'.bus
  Step-Moves {w} (connects bincode id first fresh) =
      unmoved (registry-handshake bincode id first w.bus)
  Step-Moves {w} (greets id fresh) = unmoved (registry-greet id w.bus)
  Step-Moves {w} (receives env m before conn after {conn'} {b} e n h) =
      handle-Moves env m conn w.bus h
  Step-Moves (panics env m before conn after e n h) = stay
  Step-Moves {w} (disconnects before conn after e) = disconnect-Moves w.now conn w.bus
  Step-Moves {w} (fires before t after e due) = fire-Moves w.bus.registry t.session_id
  Step-Moves {w} (follows conn f event earlier later e) = on_event-Moves w.now conn f event w.bus
  Step-Moves (waits n) = stay

  Reach-Moves : {w w' : World} → Reach w w' → Moves w.bus w'.bus
  Reach-Moves here = stay
  Reach-Moves (next r step) = RegistrySteps-trans (Reach-Moves r) (Step-Moves step)

  begin-IsConsistent : (now : Instant) → IsConsistent (begin now).bus.registry
  unfolding start
  begin-IsConsistent now = record { distinct = tt; stored = tt }

  begin-Tracks : (now : Instant) → Tracks (begin now).bus.registry
  unfolding start
  begin-Tracks now id = refl

  -- In every state that the bus can reach, whatever the connections send, in whatever order they,
  -- the timers and the event tasks take turns, and whichever writes fail: each session is stored
  -- once and under its own id, its history holds no transient chunk and no delete signal (also none that
  -- is not transient, contrary to docs/adr-135-chunk-deletion.md), its retained chunks are all
  -- transient, and no connection is subscribed to it twice.
  pub Reach-IsConsistent :
      (now : Instant) (w : World) → Reach (begin now) w → IsConsistent w.bus.registry
  Reach-IsConsistent now w r = RegistrySteps-IsConsistent (Reach-Moves r) (begin-IsConsistent now)

  -- In every state that the bus can reach from its start, replaying all registry events that were
  -- ever emitted tells of each id whether that session exists: no session appears or disappears
  -- without its event.
  pub Reach-Tracks : (now : Instant) (w : World) → Reach (begin now) w → Tracks w.bus.registry
  Reach-Tracks now w r = RegistrySteps-Tracks (Reach-Moves r) (begin-Tracks now)
