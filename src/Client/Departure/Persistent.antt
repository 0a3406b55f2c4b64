-- ===== src/Client/Departure/Persistent.antt =====
-- A session that is not ephemeral outlives the connections.
use observable_cafev.Base.{
  ℕ, ◌≡◌, refl, String, false, Option, none, some, List, [], ◌∷◌, arith, ◌==◌, eq_refl, eq_iff,
  ◌&&◌, Option-cases, Bool-cases, inl, inr, is_some, ap, ◌∙◌, map_or, eqb,
}
use observable_cafev.Platform.{Platform}
use observable_cafev.Map.{get, get-insert, get-remove}
use observable_cafev.Envelope.{EphemeralConfig}
use observable_cafev.Session.{
  SessionState, SubscriberInfo, Instant, is_ephemeral, counted_subscriber_count,
}
use observable_cafev.Registry.{SessionRegistry, Timer, put, schedule_deletion}
use observable_cafev.Bus.{Bus, Conn, Task}
use observable_cafev.Handlers.Disconnect.{
  departing_connection_was_counted, after_leave, leave, leave_all, disconnect,
}
use observable_cafev.Client.Departure.{get-remove_other}
use observable_cafev.Client.Departure.Leaving.{without, leave_lem, after_leave_stays}

module _ ⦃P : Platform⦄ where
  -- What remains of a session: all but the subscription of one connection.
  pub record Outlives (conn : String) (s t : SessionState) : Type 0 where
    pub rest : t ≡ record s { subscribers = t.subscribers }
    pub others : (j : String) → (conn == j) ≡ false → get t.subscribers j ≡ get s.subscribers j

  get-put_other :
      (r : SessionRegistry) (id j : String) (s : SessionState)
      → (j == id) ≡ false
      → get (put r j s).sessions id ≡ get r.sessions id
  get-put_other r id j s h = simp (get-insert, h)

  get-schedule_other :
      (now : Instant) (r : SessionRegistry) (id j : String) (delay : Option ℕ)
      → (j == id) ≡ false
      → get (schedule_deletion now r j delay).0.sessions id ≡ get r.sessions id
  unfolding schedule_deletion
  get-schedule_other now r id j delay h = ground (arith, get-remove_other r j id h)

  get-after_leave_other :
      (now : Instant) (id j : String) (s : SessionState) (o : Option SubscriberInfo)
      (r : SessionRegistry) (timers : List Timer)
      → (j == id) ≡ false
      → get (after_leave now j s o r timers).0.sessions id ≡ get r.sessions id
  unfolding after_leave
  get-after_leave_other now id j s o r timers h = ground (
    arith,
    get-schedule_other now r id j
        (map_or s.ephemeral none (λ (c : EphemeralConfig). some c.keepalive_secs)) h,
  )

  get-leave_other :
      (now : Instant) (conn id j : String) (r : SessionRegistry) (timers : List Timer)
      → (j == id) ≡ false
      → get (leave now conn j r timers).0.sessions id ≡ get r.sessions id
  get-leave_other now conn id j r timers h = elim (Option-cases (get r.sessions j)) [
    | inl missing ↦ unfold leave in rw (missing, leave)
    | inr (s, found) ↦ rw (leave_lem now conn j s r timers found) (
        get-after_leave_other now id j (without conn s) (get s.subscribers conn)
          (put r j (without conn s)) timers h
        ∙ get-put_other r id j (without conn s) h)
  ]

  Outlives-refl : (conn : String) (s : SessionState) → Outlives conn s s
  Outlives-refl conn s = record { rest = refl; others = λ j h. refl }

  Outlives-trans :
      (conn : String) {s t u : SessionState}
      → Outlives conn s t
      → Outlives conn t u
      → Outlives conn s u
  Outlives-trans conn {s} {t} {u} one two = record {
    rest = two.rest ∙ ap (λ (x : SessionState). record x { subscribers = u.subscribers }) one.rest;
    others = λ j h. two.others j h ∙ one.others j h;
  }

  without-Outlives : (conn : String) (s : SessionState) → Outlives conn s (without conn s)
  without-Outlives conn s = record {
    rest = refl;
    others = λ j h. get-remove s.subscribers conn j ∙ rw h refl;
  }

  is_ephemeral-Outlives :
      (conn : String) {s t : SessionState}
      → Outlives conn s t
      → is_ephemeral s ≡ false
      → is_ephemeral t ≡ false
  unfolding is_ephemeral
  is_ephemeral-Outlives conn o h = ap (λ (x : SessionState). is_some x.ephemeral) o.rest ∙ h

  persistent_stays :
      (s : SessionState) (o : Option SubscriberInfo) (conn : String)
      → is_ephemeral s ≡ false
      → (is_ephemeral (without conn s)
          && departing_connection_was_counted o s.ephemeral
          && eqb (counted_subscriber_count (without conn s)) 0)
        ≡ false
  unfolding is_ephemeral
  persistent_stays s o conn h = rw h

  abbrev Remains : String → String → SessionState → SessionRegistry → Type 0
  Remains conn id s r = (t : SessionState) × (get r.sessions id ≡ some t) × Outlives conn s t

  leave-Remains :
      (now : Instant) (conn id j : String) (s : SessionState) (r : SessionRegistry)
      (timers : List Timer)
      → get r.sessions id ≡ some s
      → is_ephemeral s ≡ false
      → Remains conn id s (leave now conn j r timers).0
  leave-Remains now conn id j s r timers found h = elim (Bool-cases (j == id)) [
    | inr other ↦ (s, get-leave_other now conn id j r timers other ∙ found, Outlives-refl conn s)
    | inl this ↦
        let same : j ≡ id = (eq_iff j id).0 this in
        rw
          (
            same,
            leave_lem now conn id s r timers found
                ∙ after_leave_stays now id (without conn s) (get s.subscribers conn)
                    (put r id (without conn s)) timers
                    (persistent_stays s (get s.subscribers conn) conn h),
          )
          (without conn s, simp (get-insert, eq_refl), without-Outlives conn s)
  ]

  leave_all-Remains :
      (tasks : List (String × Task)) (now : Instant) (conn id : String) (s : SessionState)
      (r : SessionRegistry) (timers : List Timer)
      → get r.sessions id ≡ some s
      → is_ephemeral s ≡ false
      → Remains conn id s (leave_all now conn tasks r timers).0
  unfolding leave_all
  leave_all-Remains [] now conn id s r timers found h = (s, found, Outlives-refl conn s)
  leave_all-Remains ((j, task) ∷ rest) now conn id s r timers found h =
      let (t, there, o) = leave-Remains now conn id j s r timers found h in
      let (u, last, p) =
        leave_all-Remains rest now conn id t (leave now conn j r timers).0
          (leave now conn j r timers).1 there (is_ephemeral-Outlives conn o h) in
      (u, last, Outlives-trans conn o p)

  -- The end of a connection, whatever it was subscribed to, leaves every session that is not
  -- ephemeral where it is, and unchanged but for the subscription of that connection.
  pub disconnect-Outlives :
      (now : Instant) (conn : Conn) (b : Bus) (id : String) (s : SessionState)
      → get b.registry.sessions id ≡ some s
      → is_ephemeral s ≡ false
      → (t : SessionState) × (get (disconnect now conn b).registry.sessions id ≡ some t)
        × Outlives conn.id s t
  unfolding disconnect
  disconnect-Outlives now conn b id s found h =
      leave_all-Remains conn.subscriber_tasks now conn.id id s b.registry b.timers found h
