-- ===== src/Client/Moves/Leave.antt =====
-- The registry under the clean-up of a connection and under deletion timers.
use observable_cafev.Base.{
  ℕ, String, Option, none, some, List, [], ◌∷◌, arith, Option-cases, inl, inr, map_or,
}
use observable_cafev.Platform.{Platform}
use observable_cafev.Map.{get}
use observable_cafev.Envelope.{EphemeralConfig}
use observable_cafev.Session.{SessionState, SubscriberInfo, Instant, remove_subscriber}
use observable_cafev.Registry.{SessionRegistry, Timer, put, remove, schedule_deletion, fire}
use observable_cafev.Registry.Steps.{
  here, next, left, updated, removed, RegistrySteps, stay, move, RegistrySteps-trans,
}
use observable_cafev.Bus.{Bus, Conn, Task}
use observable_cafev.Handlers.Disconnect.{leave, leave_all, after_leave, disconnect}
use observable_cafev.Client.Moves.{Moves}

module _ ⦃P : Platform⦄ where
  schedule_deletion-Moves :
      (now : Instant) (r : SessionRegistry) (id : String) (delay : Option ℕ)
      → RegistrySteps r (schedule_deletion now r id delay).0
  unfolding schedule_deletion
  schedule_deletion-Moves now r id delay =
      let gone : RegistrySteps r (remove r id).0 = move stay (removed id) in
      let kept : RegistrySteps r r = stay in ground arith

  pub fire-Moves : (r : SessionRegistry) (id : String) → RegistrySteps r (fire r id)
  unfolding fire
  fire-Moves r id =
      let gone : RegistrySteps r (remove r id).0 = move stay (removed id) in
      let kept : RegistrySteps r r = stay in ground arith

  after_leave-Moves :
      (now : Instant) (id : String) (s : SessionState) (info : Option SubscriberInfo)
      (r : SessionRegistry) (timers : List Timer)
      → RegistrySteps r (after_leave now id s info r timers).0
  unfolding after_leave
  after_leave-Moves now id s info r timers =
      let keepalive : Option ℕ =
        map_or s.ephemeral none (λ (c : EphemeralConfig). some c.keepalive_secs) in
      let scheduled : RegistrySteps r (schedule_deletion now r id keepalive).0 =
        schedule_deletion-Moves now r id keepalive in
      let kept : RegistrySteps r r = stay in ground arith

  leave-Moves :
      (now : Instant) (conn id : String) (r : SessionRegistry) (timers : List Timer)
      → RegistrySteps r (leave now conn id r timers).0
  leave-Moves now conn id r timers = elim (Option-cases (get r.sessions id)) [
    | inl missing ↦ unfold leave in rw (missing, leave) stay
    | inr (s, found) ↦
        unfold leave in
        rw (found, leave)
          (RegistrySteps-trans (move stay (updated id found (next here (left conn)))) (
            after_leave-Moves now id (remove_subscriber conn s).0 (remove_subscriber conn s).1
              (put r id (remove_subscriber conn s).0) timers))
  ]

  leave_all-Moves :
      (now : Instant) (conn : String) (tasks : List (String × Task)) (r : SessionRegistry)
      (timers : List Timer)
      → RegistrySteps r (leave_all now conn tasks r timers).0
  unfolding leave_all
  leave_all-Moves now conn [] r timers = stay
  leave_all-Moves now conn ((id, task) ∷ rest) r timers =
      RegistrySteps-trans (leave-Moves now conn id r timers) (
        leave_all-Moves now conn rest (leave now conn id r timers).0 (leave now conn id r timers).1)

  pub disconnect-Moves : (now : Instant) (conn : Conn) (b : Bus) → Moves b (disconnect now conn b)
  unfolding disconnect
  disconnect-Moves now conn b =
      leave_all-Moves now conn.id conn.subscriber_tasks b.registry b.timers
