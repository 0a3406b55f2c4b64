-- ===== src/Client/Moves/Subscribe.antt =====
-- The registry under the handlers of the subscriptions, and under the tasks that follow events.
use observable_cafev.Base.{
  ℕ, ◌≡◌, refl, String, Option, some, List, [], ◌∷◌, ◌∙◌, arith, Option-cases, Bool-cases, inl, inr,
}
use observable_cafev.Platform.{Platform}
use observable_cafev.Map.{get}
use observable_cafev.Chunk.{Chunk}
use observable_cafev.Envelope.{session_created, ServerMessage, SubscribeFilter, SessionInfo}
use observable_cafev.Session.{SessionState, Instant}
use observable_cafev.Registry.{SessionRegistry, list}
use observable_cafev.Registry.Steps.{
  here, next, drained, joined, updated, RegistrySteps, stay, move, RegistrySteps-trans,
}
use observable_cafev.Bus.{Bus, Env, Conn}
use observable_cafev.Handlers.Subscribe.{handle_subscribe, subscribe_to, conn_role}
use observable_cafev.Handlers.SubscribeAll.{
  Snapshot, snapshot_step, snapshots, selects, replay_and_forward, announce_all,
  handle_subscribe_all, on_created, on_event,
}
use observable_cafev.Client.Moves.{Moves, registry-send_all}

module _ ⦃P : Platform⦄ where
  subscribe_to-Moves :
      (env : Env) (id : String) (s : SessionState) (conn : Conn) (b : Bus)
      → get b.registry.sessions id ≡ some s
      → Moves b (subscribe_to env id s conn b).1
  unfolding subscribe_to
  subscribe_to-Moves env id s conn b found = rw registry-send_all (
      move stay (
        updated id found
          (next (next here (joined conn.id (conn_role conn.id b))) (drained env.now))))

  pub handle_subscribe-Moves :
      (env : Env) (id : String) (conn : Conn) (b : Bus) → Moves b (handle_subscribe env id conn b).1
  handle_subscribe-Moves env id conn b = elim (Option-cases (get b.registry.sessions id)) [
    | inl missing ↦ unfold handle_subscribe in rw (missing, handle_subscribe) stay
    | inr (s, found) ↦
        unfold handle_subscribe in
        rw (found, handle_subscribe) (subscribe_to-Moves env id s conn b found)
  ]

  snapshot_step-Moves :
      (now : Instant) (f : Option SubscribeFilter) (id : String) (r : SessionRegistry)
      → RegistrySteps r (snapshot_step now f id r).0
  snapshot_step-Moves now f id r = elim (Option-cases (get r.sessions id)) [
    | inl missing ↦ unfold snapshot_step in rw (missing, snapshot_step) stay
    | inr (s, found) ↦ elim (Bool-cases (selects f s)) [
      | inl chosen ↦
          unfold snapshot_step in
          rw (found, snapshot_step, chosen) (move stay (updated id found (next here (drained now))))
      | inr other ↦ unfold snapshot_step in rw (found, snapshot_step, other) stay
    ]
  ]

  snapshots-Moves :
      (now : Instant) (f : Option SubscribeFilter) (infos : List SessionInfo) (r : SessionRegistry)
      → RegistrySteps r (snapshots now f infos r).0
  unfolding snapshots
  snapshots-Moves now f [] r = stay
  snapshots-Moves now f (i ∷ rest) r =
      RegistrySteps-trans (snapshot_step-Moves now f i.session_id r)
        (snapshots-Moves now f rest (snapshot_step now f i.session_id r).0)

  registry-replay_and_forward :
      (conn : String) (f : Option SubscribeFilter) (id : String) (history retained : List Chunk)
      (n : ℕ) (b : Bus)
      → (replay_and_forward conn f id history retained n b).registry ≡ b.registry
  unfolding replay_and_forward
  registry-replay_and_forward conn f id history retained n b = rw registry-send_all

  registry-announce_all :
      (conn : String) (f : Option SubscribeFilter) (shots : List Snapshot) (b : Bus)
      → (announce_all conn f shots b).registry ≡ b.registry
  unfolding announce_all
  registry-announce_all conn f [] b = refl
  registry-announce_all conn f (x ∷ rest) b =
      registry-announce_all conn f rest _
      ∙ registry-replay_and_forward conn f x.session_id x.history x.retained x.position _

  pub handle_subscribe_all-Moves :
      (env : Env) (f : Option SubscribeFilter) (conn : Conn) (b : Bus)
      → Moves b (handle_subscribe_all env f conn b).1
  unfolding handle_subscribe_all
  handle_subscribe_all-Moves env f conn b =
      rw registry-announce_all (snapshots-Moves env.now f (list b.registry) b.registry)

  on_created-Moves :
      (now : Instant) (conn : String) (f : Option SubscribeFilter) (id : String)
      (event : ServerMessage) (b : Bus)
      → Moves b (on_created now conn f id event b)
  on_created-Moves now conn f id event b = elim (Option-cases (get b.registry.sessions id)) [
    | inl missing ↦
        let kept : RegistrySteps b.registry b.registry = stay in
        unfold on_created in rw (missing, on_created) (ground arith)
    | inr (s, found) ↦ elim (Bool-cases (selects f s)) [
      | inl chosen ↦
          unfold on_created in
          rw (found, on_created, chosen, registry-send_all)
            (move stay (updated id found (next here (drained now))))
      | inr other ↦ unfold on_created in rw (found, on_created, other) stay
    ]
  ]

  pub on_event-Moves :
      (now : Instant) (conn : String) (f : Option SubscribeFilter) (event : ServerMessage) (b : Bus)
      → Moves b (on_event now conn f event b)
  unfolding on_event
  on_event-Moves now conn f (session_created id agent) b =
      on_created-Moves now conn f id (session_created id agent) b
  on_event-Moves now conn f _ b = stay
