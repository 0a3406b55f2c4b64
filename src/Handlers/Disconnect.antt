-- ===== src/Handlers/Disconnect.antt =====
-- The end of a connection: the clean-up that `handle_client` and `handle_connection` share.
use observable_cafev.Base.{
  String, Bool, true, false, Option, none, some, List, [], ◌∷◌, ◌++◌, ◌&&◌, eqb, is, map_or,
  if◌then◌else◌,
}
use observable_cafev.Platform.{Platform}
use observable_cafev.Map
use observable_cafev.Map.{get}
use observable_cafev.Envelope.{EphemeralConfig}
use observable_cafev.Session.{
  Instant, SessionState, SubscriberInfo, remove_subscriber, is_ephemeral, counted_subscriber_count,
}
use observable_cafev.Registry.{SessionRegistry, Timer, put, schedule_deletion}
use observable_cafev.Bus.{Bus, Conn, Task}

unfoldable pub departing_connection_was_counted :
    Option SubscriberInfo → Option EphemeralConfig → Bool
departing_connection_was_counted (some info) (some cfg) = map_or cfg.count_role true (is info.role)
departing_connection_was_counted (some info) none = true
departing_connection_was_counted none cfg = false

abbrev pub with_timer : List Timer → Option Timer → List Timer
with_timer ts none = ts
with_timer ts (some t) = ts ++ t ∷ []

module _ ⦃P : Platform⦄ where
  -- The body of the loop for a session that exists; `s` is the session without the subscriber.
  unfoldable pub after_leave :
      Instant
      → String
      → SessionState
      → Option SubscriberInfo
      → SessionRegistry
      → List Timer
      → SessionRegistry × List Timer
  unfolding departing_connection_was_counted is_ephemeral
  after_leave now session_id s removed r timers =
      if is_ephemeral s
        && departing_connection_was_counted removed s.ephemeral
        && eqb (counted_subscriber_count s) 0
      then (let keepalive =
            map_or s.ephemeral none (λ (c : EphemeralConfig). some c.keepalive_secs) in
          let (r', timer) = schedule_deletion now r session_id keepalive in
          (r', with_timer timers timer))
      else (r, timers)

  unfoldable pub leave :
      Instant → String → String → SessionRegistry → List Timer → SessionRegistry × List Timer
  unfolding after_leave
  leave now conn session_id r timers = elim (get r.sessions session_id) [
    | none ↦ (r, timers)
    | some s ↦
        let (s', removed) = remove_subscriber conn s in
        after_leave now session_id s' removed (put r session_id s') timers
  ]

  unfoldable pub leave_all :
      Instant
      → String
      → List (String × Task)
      → SessionRegistry
      → List Timer
      → SessionRegistry × List Timer
  leave_all now conn [] r timers = (r, timers)
  leave_all now conn ((session_id, task) ∷ rest) r timers =
      let (r', timers') = leave now conn session_id r timers in leave_all now conn rest r' timers'

  unfoldable pub disconnect : Instant → Conn → Bus → Bus
  disconnect now conn b =
      let (registry, timers) = leave_all now conn.id conn.subscriber_tasks b.registry b.timers in
      record b {
        registry = registry;
        connections = Map.remove b.connections conn.id;
        conn_meta = Map.remove b.conn_meta conn.id;
        timers = timers;
      }
