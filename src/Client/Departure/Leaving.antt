-- ===== src/Client/Departure/Leaving.antt =====
-- What becomes of the sessions that a connection leaves.
use observable_cafev.Base.{
  ℕ, ◌+◌, ◌*◌, ◌≡◌, ◌↔◌, ◌≢◌, refl, String, Bool, true, false, Option, none, some, List, [], ◌∷◌,
  ◌++◌, arith, eq_refl, ◌&&◌, Bool-cases, inl, inr, is_some, ap, sym, subst, some_inj, ◌∙◌, filter,
  length, map_or, eqb,
}
use observable_cafev.Platform.{Platform}
use observable_cafev.Map
use observable_cafev.Map.{Map, get, values, contains_key, get-insert, get-remove}
use observable_cafev.Envelope.{EphemeralConfig}
use observable_cafev.Session.{
  SessionState, SubscriberInfo, Instant, nanos, counts, is_ephemeral, counted_subscriber_count,
  remove_subscriber,
}
use observable_cafev.Registry.{SessionRegistry, Timer, put, remove, schedule_deletion}
use observable_cafev.Handlers.Disconnect.{
  departing_connection_was_counted, after_leave, leave, with_timer,
}
use observable_cafev.Client.Departure.{Deleted, remove-Deleted}

module _ ⦃P : Platform⦄ where
  -- The connection is a counted subscriber, and the only one.
  abbrev pub Deserts : String → EphemeralConfig → SessionState → Type 0
  Deserts conn cfg s =
      ((info : SubscriberInfo) × (get s.subscribers conn ≡ some info)
        × (counts cfg.count_role info ≡ true))
      × (length (filter (counts cfg.count_role) (values (Map.remove s.subscribers conn))) ≡ 0)

  was_counted :
      (cfg : EphemeralConfig) (o : Option SubscriberInfo)
      → departing_connection_was_counted o (some cfg) ≡ map_or o false (counts cfg.count_role)
  unfolding departing_connection_was_counted
  was_counted cfg o = ground arith

  -- The session once the connection is no longer a subscriber.
  abbrev pub without : String → SessionState → SessionState
  without conn s = record s { subscribers = Map.remove s.subscribers conn }

  pub leave_lem :
      (now : Instant) (conn id : String) (s : SessionState) (r : SessionRegistry)
      (timers : List Timer)
      → get r.sessions id ≡ some s
      → leave now conn id r timers
        ≡ after_leave now id
            (without conn s)
            (get s.subscribers conn)
            (put r id (without conn s))
            timers
  unfolding leave remove_subscriber
  leave_lem now conn id s r timers found = rw (found, leave)

  pub after_leave_stays :
      (now : Instant) (id : String) (s : SessionState) (o : Option SubscriberInfo)
      (r : SessionRegistry) (timers : List Timer)
      → (is_ephemeral s
          && departing_connection_was_counted o s.ephemeral
          && eqb (counted_subscriber_count s) 0)
        ≡ false
      → after_leave now id s o r timers ≡ (r, timers)
  unfolding after_leave
  after_leave_stays now id s o r timers h = rw (h, after_leave)

  schedule_now :
      (now : Instant) (r : SessionRegistry) (id : String) (s : SessionState) (keepalive : ℕ)
      → get r.sessions id ≡ some s
      → is_ephemeral s ≡ true
      → keepalive ≡ 0
      → schedule_deletion now r id (some keepalive) ≡ ((remove r id).0, none)
  unfolding schedule_deletion
  schedule_now now r id s keepalive found e none_left = rw (found, schedule_deletion, e, none_left)

  schedule_later :
      (now : Instant) (r : SessionRegistry) (id : String) (s : SessionState) (keepalive : ℕ)
      → get r.sessions id ≡ some s
      → is_ephemeral s ≡ true
      → eqb keepalive 0 ≡ false
      → schedule_deletion now r id (some keepalive)
        ≡ (r, some (record { session_id = id; fire_at = now + keepalive * nanos }))
  unfolding schedule_deletion
  schedule_later now r id s keepalive found e later = rw (found, schedule_deletion, e, later)

  after_leave_deserted :
      (now : Instant) (id : String) (s : SessionState) (cfg : EphemeralConfig)
      (o : Option SubscriberInfo) (r : SessionRegistry) (timers : List Timer)
      → s.ephemeral ≡ some cfg
      → (is_ephemeral s
          && departing_connection_was_counted o s.ephemeral
          && eqb (counted_subscriber_count s) 0)
        ≡ true
      → after_leave now id s o r timers ≡ (
        (schedule_deletion now r id (some cfg.keepalive_secs)).0,
        with_timer timers (schedule_deletion now r id (some cfg.keepalive_secs)).1,
      )
  unfolding after_leave
  after_leave_deserted now id s cfg o r timers e h = rw (h, after_leave, e)

  -- The test that the handler makes, for what it leaves.
  abbrev deserts : String → SessionState → Bool
  deserts conn s =
      is_ephemeral (without conn s)
      && departing_connection_was_counted (get s.subscribers conn) s.ephemeral
      && eqb (counted_subscriber_count (without conn s)) 0

  deserts_test :
      (conn : String) (cfg : EphemeralConfig) (s : SessionState)
      → s.ephemeral ≡ some cfg
      → deserts conn s ≡ (
          map_or (get s.subscribers conn) false (counts cfg.count_role)
          && eqb
              (length (filter (counts cfg.count_role) (values (Map.remove s.subscribers conn))))
              0)
  unfolding is_ephemeral counted_subscriber_count
  deserts_test conn cfg s e = rw (e, was_counted cfg (get s.subscribers conn))

  counted_iff :
      (p : SubscriberInfo → Bool) (o : Option SubscriberInfo) (n : ℕ)
      → ((map_or o false p && eqb n 0) ≡ true)
        ↔ (((info : SubscriberInfo) × (o ≡ some info) × (p info ≡ true)) × (n ≡ 0))
  counted_iff p none n = (λ h. absurd (cc h), λ h. absurd (cc h.0.1))
  counted_iff p (some info) n = (
    λ h. ((info, refl, ground arith), ground arith),
    λ ((other, same, q), zeros). let one : info ≡ other = some_inj same in ground arith,
  )

  deserts_iff :
      (conn : String) (cfg : EphemeralConfig) (s : SessionState)
      → s.ephemeral ≡ some cfg
      → (deserts conn s ≡ true) ↔ Deserts conn cfg s
  deserts_iff conn cfg s e =
      subst (λ b. (b ≡ true) ↔ Deserts conn cfg s) (sym (deserts_test conn cfg s e))
        (counted_iff (counts cfg.count_role) (get s.subscribers conn)
          (length (filter (counts cfg.count_role) (values (Map.remove s.subscribers conn)))))

  get-put :
      (r : SessionRegistry) (id : String) (s : SessionState) → get (put r id s).sessions id ≡ some s
  get-put r id s = simp (get-insert, eq_refl)

  -- What leaving does to an ephemeral session, on each of its ways.
  pub data Leaves (now : Instant) (conn id : String) (cfg : EphemeralConfig) (s : SessionState)
      (r : SessionRegistry) (timers : List Timer) (out : SessionRegistry × List Timer)
      : Type 0 where
    stays :
        ¬ Deserts conn cfg s
        → out ≡ (put r id (without conn s), timers)
        → Leaves now conn id cfg s r timers out
    deleted :
        Deserts conn cfg s
        → cfg.keepalive_secs ≡ 0
        → Deleted id (put r id (without conn s)) out.0
        → out.1 ≡ timers
        → Leaves now conn id cfg s r timers out
    scheduled :
        Deserts conn cfg s
        → cfg.keepalive_secs ≢ 0
        → out ≡ (
          put r id (without conn s),
          timers ++ record { session_id = id; fire_at = now + cfg.keepalive_secs * nanos } ∷ [],
        )
        → Leaves now conn id cfg s r timers out

  leave_deserted :
      (now : Instant) (conn id : String) (cfg : EphemeralConfig) (s : SessionState)
      (r : SessionRegistry) (timers : List Timer)
      → get r.sessions id ≡ some s
      → s.ephemeral ≡ some cfg
      → deserts conn s ≡ true
      → leave now conn id r timers ≡ (
        (schedule_deletion now (put r id (without conn s)) id (some cfg.keepalive_secs)).0,
        with_timer timers
            (schedule_deletion now (put r id (without conn s)) id (some cfg.keepalive_secs)).1,
      )
  leave_deserted now conn id cfg s r timers found e h =
      leave_lem now conn id s r timers found
      ∙ after_leave_deserted now id (without conn s) cfg (get s.subscribers conn)
          (put r id (without conn s)) timers e h

  ephemeral_without :
      (conn : String) (cfg : EphemeralConfig) (s : SessionState)
      → s.ephemeral ≡ some cfg
      → is_ephemeral (without conn s) ≡ true
  unfolding is_ephemeral
  ephemeral_without conn cfg s e = rw e

  leave_deserted-Leaves :
      (now : Instant) (conn id : String) (cfg : EphemeralConfig) (s : SessionState)
      (r : SessionRegistry) (timers : List Timer)
      → get r.sessions id ≡ some s
      → s.ephemeral ≡ some cfg
      → deserts conn s ≡ true
      → Leaves now conn id cfg s r timers (leave now conn id r timers)
  leave_deserted-Leaves now conn id cfg s r timers found e h =
      let left = put r id (without conn s) in
      let still = get-put r id (without conn s) in
      let lives = ephemeral_without conn cfg s e in
      elim (Bool-cases (eqb cfg.keepalive_secs 0)) [
        | inl zeros ↦
            let at_once : cfg.keepalive_secs ≡ 0 = ground (arith, zeros) in
            rw
              (
                leave_deserted now conn id cfg s r timers found e h,
                schedule_now now left id (without conn s) cfg.keepalive_secs still lives at_once,
              )
              (deleted ((deserts_iff conn cfg s e).0 h) at_once
                (remove-Deleted left id (ap is_some still)) refl)
        | inr later ↦
            rw
              (
                leave_deserted now conn id cfg s r timers found e h,
                schedule_later now left id (without conn s) cfg.keepalive_secs still lives later,
              )
              (scheduled ((deserts_iff conn cfg s e).0 h) (λ zeros. ground (arith, later, zeros))
                refl)
      ]

  -- When a connection leaves an ephemeral session, the session loses its subscription. If the
  -- connection was the last subscriber that the session counts, by the configured role, the session is
  -- deleted at once for a keepalive of 0, and a timer for its deletion after the keepalive is set
  -- otherwise. In every other case the session stays, without a new timer.
  pub leave-Leaves :
      (now : Instant) (conn id : String) (cfg : EphemeralConfig) (s : SessionState)
      (r : SessionRegistry) (timers : List Timer)
      → get r.sessions id ≡ some s
      → s.ephemeral ≡ some cfg
      → Leaves now conn id cfg s r timers (leave now conn id r timers)
  leave-Leaves now conn id cfg s r timers found e = elim (Bool-cases (deserts conn s)) [
    | inl h ↦ leave_deserted-Leaves now conn id cfg s r timers found e h
    | inr h ↦
        stays (λ d. ground (arith, (deserts_iff conn cfg s e).1 d, h))
          (leave_lem now conn id s r timers found
            ∙ after_leave_stays now id (without conn s) (get s.subscribers conn)
                (put r id (without conn s)) timers h)
  ]
