-- ===== src/Client/Moves.antt =====
-- How a handler changes the registry: by the steps of `Registry.Steps`, and by no others.
pub mod Publish
pub mod Sessions
pub mod Create
pub mod Subscribe
pub mod Leave
use observable_cafev.Base.{
  ℕ, suc, ◌≡◌, refl, String, Bool, true, false, Option, none, some, List, [], ◌∷◌, ◌++◌, ap, sym,
  ◌∙◌, subst, some_inj, and_then-some, arith, Option-cases, Bool-cases, inl, inr, and_then, map_or,
  is_some, if◌then◌else◌, unwrap_or,
}
use observable_cafev.Platform.{Platform}
use observable_cafev.Map
use observable_cafev.Map.{get}
use observable_cafev.Chunk.{Chunk, get_str}
use observable_cafev.Chunk.Keys.{cafe_direct_to}
use observable_cafev.Tags.{validate_tags}
use observable_cafev.Envelope.{ServerMessage, SessionConfig, SubscribeFilter, SessionInfo}
use observable_cafev.Session.{
  SessionState, Instant, publish, add_subscriber, drain_retained, remove_subscriber,
}
use observable_cafev.Session
use observable_cafev.Session.Sound.{IsSound, publish-IsSound, new-IsSound}
use observable_cafev.Registry.{
  SessionRegistry, Timer, ForkResult, ok, err, parent_not_found, session_exists, contains, put,
  remove, fork, set_tags, schedule_deletion, fire, cancel_scheduled_deletion,
}
use observable_cafev.Registry.Steps.{
  SessionSteps, here, next, published, drained, joined, left, tagged, RegistryStep, updated,
  inserted, removed, forks, retagged, RegistrySteps, stay, move, RegistrySteps-trans,
  SessionSteps-IsSound, SessionSteps-session_id,
}
use observable_cafev.Bus.{Bus, Env, Conn, Task, send_msg, send_error, send_all}
use observable_cafev.Handlers.Notices.{make_tags_chunk, make_config_chunk}
use observable_cafev.Handlers.Sessions.{
  configured, publish_if, created, has_tags, has_config, insert_created, handle_create,
  handle_set_tags, retag, not_found, fork_reply, handle_fork, handle_delete, handle_list,
}
use observable_cafev.Handlers.Publish.{tagged as with_source, direct, publish_to, handle_publish}
use observable_cafev.Handlers.Subscribe.{handle_subscribe, subscribe_to}
use observable_cafev.Handlers.Disconnect.{leave, leave_all, after_leave, disconnect}
use observable_cafev.Handlers.SubscribeAll.{
  Snapshot, snapshot_step, snapshots, snapshot_of, selects, replay_and_forward, announce_all,
  handle_subscribe_all, on_created, on_event,
}

module _ ⦃P : Platform⦄ where
  abbrev pub Moves : Bus → Bus → Type 0
  Moves b b' = RegistrySteps b.registry b'.registry

  -- The outcome of a handler that may panic.
  abbrev pub MovesIf : Bus → Option Bus → Type 0
  MovesIf b none = Unit
  MovesIf b (some b') = Moves b b'

  pub unmoved : {r r' : SessionRegistry} → r' ≡ r → RegistrySteps r r'
  unmoved {r} e = subst (RegistrySteps r) (sym e) stay

  pub registry-send_all :
      (conn : String) (ms : List ServerMessage) (b : Bus)
      → (send_all conn ms b).registry ≡ b.registry
  unfolding send_all
  registry-send_all conn [] b = refl
  registry-send_all conn (m ∷ ms) b = registry-send_all conn ms (send_msg conn m b)
