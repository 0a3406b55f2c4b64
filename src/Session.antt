-- ===== src/Session.antt =====
-- cafe-bus/src/session.rs: the state of one session and its operations.
--
-- `Instant` is a number of nanoseconds, an argument of the operations that read the clock. Adding a
-- duration to it panics past the seconds of an `i64`, as `std` does on Unix; `none` is that panic.
-- `sent` stands for the sender `tx` of the broadcast channel: the chunks handed to it, oldest first.
pub mod View
pub mod Publish
pub mod Sound
pub mod Replay
pub mod Retained
use observable_cafev.Base.{
  ℕ, ◌+◌, ◌*◌, ◌^◌, ◌/◌, String, Bool, true, false, Option, none, some, List, [], ◌∷◌, ◌++◌, ltb,
  ◌==◌, not, if◌then◌else◌, is, is_some, map_or, filter, length, map, eqb,
}
use observable_cafev.Platform.{Platform}
use observable_cafev.Map.{Map, insert, remove, values, get}
use observable_cafev.Chunk.{Chunk, get_str, is_transient, retain_secs}
use observable_cafev.Chunk.Keys.{cafe_flow_signal, flow_target_chunk_id}
use observable_cafev.Envelope.{EphemeralConfig}

pub record SubscriberInfo : Type 0 where
  pub conn_id : String
  pub role : Option String

abbrev pub Instant : Type 0
Instant = ℕ

abbrev pub nanos : ℕ
nanos = 1_000_000_000

-- `instant + Duration::from_secs(secs)`
unfoldable pub add_secs : Instant → ℕ → Option Instant
add_secs now secs = if ltb (now / nanos + secs) (2 ^ 63) then some (now + secs * nanos) else none

module _ ⦃P : Platform⦄ where
  -- The chunk that a delete signal retires.
  unfoldable pub delete_target : Chunk → Option String
  unfolding get_str
  delete_target c =
      if not (is (get_str c cafe_flow_signal) "delete")
      then none
      else get_str c flow_target_chunk_id

  pub record SessionState : Type 0 where
    pub session_id : String
    pub agent_id : String
    pub history : List Chunk
    pub sent : List Chunk
    pub retained : List (Chunk × Instant)
    pub subscribers : Map SubscriberInfo
    pub ephemeral : Option EphemeralConfig
    pub tags : List String
    pub parent_id : Option String

  unfoldable pub new : String → String → SessionState
  new session_id agent_id = record {
    session_id = session_id;
    agent_id = agent_id;
    history = [];
    sent = [];
    retained = [];
    subscribers = [];
    ephemeral = none;
    tags = [];
    parent_id = none;
  }

  abbrev pub differs : String → Chunk → Bool
  differs id c = not (c.id == id)

  -- `c.id != chunk_id` for the chunk of a retained entry
  abbrev pub entry_differs : String → Chunk × Instant → Bool
  entry_differs id (c, deadline) = not (c.id == id)

  unfoldable pub remove_chunk : String → SessionState → SessionState × Bool
  remove_chunk id s =
      let history = filter (differs id) s.history in
      let retained = filter (entry_differs id) s.retained in
      (
        record s { history = history; retained = retained },
        not (eqb (length history) (length s.history)),
      )

  abbrev pub send : Chunk → SessionState → SessionState
  send c s = record s { sent = s.sent ++ c ∷ [] }

  -- A retained transient chunk: the panic comes before anything is written.
  unfoldable pub retain : Instant → Chunk → Option ℕ → SessionState → Option SessionState
  unfolding add_secs
  retain now c none s = some (send c s)
  retain now c (some secs) s = elim (add_secs now secs) [
    | none ↦ none
    | some deadline ↦ some (send c (record s { retained = s.retained ++ (c, deadline) ∷ [] }))
  ]

  unfoldable pub publish_live : Instant → Chunk → SessionState → Option SessionState
  unfolding retain
  publish_live now c s =
      if not (is_transient c)
      then some (send c (record s { history = s.history ++ c ∷ [] }))
      else retain now c (retain_secs c) s

  unfoldable pub publish : Instant → Chunk → SessionState → Option SessionState
  unfolding publish_live remove_chunk
  publish now c s = elim (delete_target c) [
    | some target ↦ some (send c (remove_chunk target s).0)
    | none ↦ publish_live now c s
  ]

  abbrev pub live : Instant → Chunk × Instant → Bool
  live now (c, deadline) = ltb now deadline

  abbrev pub chunk_of : Chunk × Instant → Chunk
  chunk_of (c, deadline) = c

  -- The loop of `drain_retained`: the chunks that have not expired, and the number of those that have.
  unfoldable pub split_retained : Instant → List (Chunk × Instant) → List Chunk × ℕ
  split_retained now [] = ([], 0)
  split_retained now (e ∷ rest) =
      let (valid, expired) = split_retained now rest in
      if live now e then (chunk_of e ∷ valid, expired) else (valid, expired + 1)

  unfoldable pub drain_retained : Instant → SessionState → SessionState × List Chunk
  unfolding split_retained
  drain_retained now s =
      let (valid, expired) = split_retained now s.retained in
      (if ltb 0 expired then record s { retained = filter (live now) s.retained } else s, valid)

  unfoldable pub retained_with_deadlines :
      Instant → SessionState → SessionState × List (Chunk × Instant)
  retained_with_deadlines now s =
      let valid = filter (live now) s.retained in
      (record s { retained = filter (live now) s.retained }, valid)

  unfoldable pub seed : List Chunk → List (Chunk × Instant) → SessionState → SessionState
  seed history retained s = record s { history = history; retained = retained }

  -- `subscribe` gives a receiver of what is sent from now on: the position in `sent`.
  unfoldable pub subscribe : SessionState → ℕ
  subscribe s = length s.sent

  unfoldable pub add_subscriber :
      String → Option String → SessionState → SessionState × Option SubscriberInfo
  add_subscriber conn role s = (
    record s { subscribers = insert s.subscribers conn (record { conn_id = conn; role = role }) },
    get s.subscribers conn,
  )

  unfoldable pub remove_subscriber : String → SessionState → SessionState × Option SubscriberInfo
  remove_subscriber conn s =
      (record s { subscribers = remove s.subscribers conn }, get s.subscribers conn)

  -- `role_filter.map_or(true, |r| s.role.as_deref() == Some(r))`
  abbrev pub counts : Option String → SubscriberInfo → Bool
  counts none info = true
  counts (some r) info = is info.role r

  unfoldable pub counted_subscriber_count : SessionState → ℕ
  counted_subscriber_count s = elim s.ephemeral [
    | some cfg ↦ length (filter (counts cfg.count_role) (values s.subscribers))
    | none ↦ length s.subscribers
  ]

  unfoldable pub is_ephemeral : SessionState → Bool
  is_ephemeral s = is_some s.ephemeral

  unfoldable pub subscriber_conn_ids : SessionState → List String
  subscriber_conn_ids s = map (λ (e : String × SubscriberInfo). e.0) s.subscribers
