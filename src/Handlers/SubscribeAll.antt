-- ===== src/Handlers/SubscribeAll.antt =====
-- The messages `SubscribeAll` and `SubscribeFiltered`: a snapshot of the sessions, its replay, and the
-- task that follows the registry's events. Without a filter every session and chunk matches.
use observable_cafev.Base.{
  ℕ, String, Bool, true, Option, none, some, List, [], ◌∷◌, ◌++◌, map, map_or, length, filter,
  if◌then◌else◌, is_some,
}
use observable_cafev.Platform.{Platform}
use observable_cafev.Map.{get}
use observable_cafev.Chunk.{Chunk}
use observable_cafev.Envelope.{ServerMessage, SessionInfo, SubscribeFilter, chunk, session_created}
use observable_cafev.Session.{Instant, SessionState, drain_retained, subscribe}
use observable_cafev.Filter.{chunk_matches_filter, session_matches_filter}
use observable_cafev.Registry.{SessionRegistry, put, list}
use observable_cafev.Bus.{Bus, Env, Conn, Task, forward_events, send_msg, send_all}

module _ ⦃P : Platform⦄ where
  pub record Snapshot : Type 0 where
    pub session_id : String
    pub agent_id : String
    pub history : List Chunk
    pub retained : List Chunk
    pub position : ℕ

  unfoldable pub selects : Option SubscribeFilter → SessionState → Bool
  selects f s = map_or f true (session_matches_filter s)

  unfoldable pub passes : Option SubscribeFilter → Chunk → Bool
  passes f c = map_or f true (chunk_matches_filter c)

  unfoldable pub snapshot_of : Instant → SessionState → SessionState × Snapshot
  snapshot_of now s =
      let (s', retained) = drain_retained now s in
      (
        s',
        record {
          session_id = s'.session_id;
          agent_id = s'.agent_id;
          history = s'.history;
          retained = retained;
          position = subscribe s';
        },
      )

  -- The closure of `filter_map` at one session: drained and recorded if the filter selects it.
  unfoldable pub snapshot_step :
      Instant → Option SubscribeFilter → String → SessionRegistry → SessionRegistry × List Snapshot
  unfolding selects snapshot_of
  snapshot_step now f id r = elim (get r.sessions id) [
    | none ↦ (r, [])
    | some s ↦
        let (s', shot) = snapshot_of now s in
        if selects f s then (put r id s', shot ∷ []) else (r, [])
  ]

  unfoldable pub snapshots :
      Instant
      → Option SubscribeFilter
      → List SessionInfo
      → SessionRegistry
      → SessionRegistry × List Snapshot
  snapshots now f [] r = (r, [])
  snapshots now f (i ∷ rest) r =
      let (r', first) = snapshot_step now f i.session_id r in
      let (r'', others) = snapshots now f rest r' in (r'', first ++ others)

  -- The messages that `replay_and_forward` writes at once.
  unfoldable pub replay_filtered :
      Option SubscribeFilter → String → List Chunk → List Chunk → List ServerMessage
  unfolding passes
  replay_filtered f session_id history retained =
      map (chunk session_id) (filter (passes f) history)
      ++ map (chunk session_id) (filter (passes f) retained)

  unfoldable pub replay_and_forward :
      String → Option SubscribeFilter → String → List Chunk → List Chunk → ℕ → Bus → Bus
  unfolding replay_filtered send_all
  replay_and_forward conn f session_id history retained position b =
      let b' = send_all conn (replay_filtered f session_id history retained) b in
      record b' {
        detached =
            b'.detached
            ++ record { conn = conn; session_id = session_id; position = position; filter = f }
              ∷ [];
      }

  unfoldable pub announce_all : String → Option SubscribeFilter → List Snapshot → Bus → Bus
  unfolding send_msg replay_and_forward
  announce_all conn f [] b = b
  announce_all conn f (x ∷ rest) b = announce_all conn f rest (
      replay_and_forward conn f x.session_id x.history x.retained x.position
        (send_msg conn (session_created x.session_id x.agent_id) b))

  unfoldable pub handle_subscribe_all : Env → Option SubscribeFilter → Conn → Bus → Conn × Bus
  handle_subscribe_all env f conn b =
      let (registry, shots) = snapshots env.now f (list b.registry) b.registry in
      let position = length registry.events in
      let task : String × Task = ("", forward_events f position) in
      (
        record conn { subscriber_tasks = conn.subscriber_tasks ++ task ∷ [] },
        announce_all conn.id f shots (record b { registry = registry }),
      )

  -- The spawned task, at the creation of a session: the event is forwarded whether or not the
  -- session still exists if there is no filter, and only with a selected session otherwise.
  unfoldable pub on_created :
      Instant → String → Option SubscribeFilter → String → ServerMessage → Bus → Bus
  unfolding selects snapshot_of send_msg replay_and_forward
  on_created now conn f id event b = elim (get b.registry.sessions id) [
    | none ↦ if is_some f then b else send_msg conn event b
    | some s ↦
        let (s', shot) = snapshot_of now s in
        let announced = send_msg conn event (record b { registry = put b.registry id s' }) in
        if selects f s
        then replay_and_forward conn f id shot.history shot.retained shot.position announced
        else b
  ]

  unfoldable pub on_event : Instant → String → Option SubscribeFilter → ServerMessage → Bus → Bus
  unfolding on_created send_msg
  on_event now conn f (session_created id agent) b =
      on_created now conn f id (session_created id agent) b
  on_event now conn f event b = send_msg conn event b

  -- The task that `replay_and_forward` spawns, over the chunks that its receiver yields in order.
  unfoldable pub forward_matching :
      (ℕ → Bool) → ℕ → Option SubscribeFilter → String → List Chunk → List ServerMessage
  unfolding passes
  forward_matching accepts i f session_id [] = []
  forward_matching accepts i f session_id (c ∷ rest) =
      let skipped = forward_matching accepts i f session_id rest in
      let more = forward_matching accepts (ℕ.suc i) f session_id rest in
      if passes f c
      then (if accepts i then chunk session_id c ∷ more else chunk session_id c ∷ [])
      else skipped
