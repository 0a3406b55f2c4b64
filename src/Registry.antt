-- ===== src/Registry.antt =====
-- cafe-bus/src/registry.rs: all sessions of the bus, and the events that announce their lifecycle.
--
-- `events` stands for the sender `event_tx`: the events handed to it, oldest first. The task that
-- `schedule_deletion` spawns is a `Timer`, and `fire` is its body after the sleep.
pub mod Consistent
pub mod Fork
pub mod Events
pub mod Steps
use observable_cafev.Base.{
  ℕ, ◌+◌, ◌*◌, String, Bool, true, false, Option, none, some, List, [], ◌∷◌, ◌++◌, map, eqb, not,
  ◌&&◌, if◌then◌else◌, is_some, map_or, length, ℤ,
}
use observable_cafev.Platform.{Platform}
use observable_cafev.Map
use observable_cafev.Map.{Map, get, values, contains_key}
use observable_cafev.Chunk.{Chunk, Stamp, new_null, with_annotation}
use observable_cafev.Chunk.Keys.{fork_parent_id}
use observable_cafev.Envelope.{
  ServerMessage, SessionInfo, session_created, session_deleted, session_tags_updated,
}
use observable_cafev.Session
use observable_cafev.Session.{
  SessionState, Instant, nanos, seed, retained_with_deadlines, is_ephemeral,
  counted_subscriber_count,
}

pub data ForkError : Type 0 where
  parent_not_found session_exists : ForkError

pub record Timer : Type 0 where
  pub session_id : String
  pub fire_at : Instant

abbrev pub bus_producer : String
bus_producer = "com.nominal.cafe-bus"

module _ ⦃P : Platform⦄ where
  pub record SessionRegistry : Type 0 where
    pub sessions : Map SessionState
    pub events : List ServerMessage

  unfoldable pub new : SessionRegistry
  new = record { sessions = []; events = [] }

  abbrev pub contains : SessionRegistry → String → Bool
  contains r id = contains_key r.sessions id

  -- A write through the `&mut SessionState` that `get_mut` gives.
  abbrev pub put : SessionRegistry → String → SessionState → SessionRegistry
  put r id s = record r { sessions = Map.insert r.sessions id s }

  abbrev emit : SessionRegistry → ServerMessage → SessionRegistry
  emit r e = record r { events = r.events ++ e ∷ [] }

  unfoldable pub insert : SessionRegistry → SessionState → SessionRegistry
  insert r s =
      emit (record r { sessions = Map.insert r.sessions s.session_id s })
        (session_created s.session_id s.agent_id)

  unfoldable pub provenance : Stamp → String → Chunk
  unfolding new_null with_annotation
  provenance st parent = with_annotation (new_null st bus_producer) fork_parent_id (P.string parent)

  -- The new session: a verbatim copy of what the parent keeps, and the provenance chunk.
  unfoldable pub forked :
      Stamp → SessionState → List (Chunk × Instant) → String → String → SessionState
  unfolding provenance seed Session.new
  forked st parent retained parent_id new_id =
      let fork = record (Session.new new_id parent.agent_id) {
        tags = parent.tags;
        parent_id = some parent_id;
      } in
      let seeded = seed parent.history retained fork in
      record seeded { history = seeded.history ++ provenance st parent_id ∷ [] }

  pub data ForkResult : Type 0 where
    ok : String → ForkResult
    err : ForkError → ForkResult

  unfoldable pub fork_from :
      Instant
      → Stamp
      → SessionState
      → String
      → String
      → SessionRegistry
      → SessionRegistry × ForkResult
  unfolding forked retained_with_deadlines insert
  fork_from now st parent parent_id new_id r =
      let (parent', retained) = retained_with_deadlines now parent in
      let fork = forked st parent' retained parent_id new_id in
      (insert (put r parent_id parent') fork, ok fork.session_id)

  unfoldable pub fork :
      Instant → Stamp → String → String → SessionRegistry → SessionRegistry × ForkResult
  unfolding fork_from
  fork now st parent_id new_id r =
      if contains r new_id then (r, err session_exists) else elim (get r.sessions parent_id) [
        | none ↦ (r, err parent_not_found)
        | some parent ↦ fork_from now st parent parent_id new_id r
      ]

  unfoldable pub remove : SessionRegistry → String → SessionRegistry × Bool
  remove r id =
      if contains r id
      then (emit (record r { sessions = Map.remove r.sessions id }) (session_deleted id), true)
      else (r, false)

  abbrev ephemeral_session : SessionRegistry → String → Bool
  ephemeral_session r id = map_or (get r.sessions id) false is_ephemeral

  unfoldable pub schedule_deletion :
      Instant → SessionRegistry → String → Option ℕ → SessionRegistry × Option Timer
  unfolding remove is_ephemeral
  schedule_deletion now r id delay =
      if not (ephemeral_session r id)
      then (r, none)
      else if map_or delay true (λ d. eqb d 0)
      then ((remove r id).0, none)
      else (r, some (record { session_id = id; fire_at = now + map_or delay 0 (λ d. d) * nanos }))

  unfoldable pub fire : SessionRegistry → String → SessionRegistry
  unfolding remove is_ephemeral
  fire r id =
      if map_or (get r.sessions id) false
        (λ s. is_ephemeral s && eqb (counted_subscriber_count s) 0)
      then (remove r id).0
      else r

  unfoldable pub cancel_scheduled_deletion : SessionRegistry → String → SessionRegistry
  cancel_scheduled_deletion r id = r

  unfoldable pub info : SessionState → SessionInfo
  info s = record {
    session_id = s.session_id;
    agent_id = s.agent_id;
    display_name = none;
    tags = s.tags;
    is_background = false;
    ui_mode = "chat";
    message_count = length s.history;
    created_at = ℤ.pos 0;
    parent_id = s.parent_id;
  }

  unfoldable pub list : SessionRegistry → List SessionInfo
  unfolding info
  list r = map info (values r.sessions)

  unfoldable pub set_tags : SessionRegistry → String → List String → SessionRegistry × Bool
  set_tags r id tags = elim (get r.sessions id) [
    | none ↦ (r, false)
    | some s ↦ (emit (put r id (record s { tags = tags })) (session_tags_updated id tags), true)
  ]
