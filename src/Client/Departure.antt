-- ===== src/Client/Departure.antt =====
-- The deletion of ephemeral sessions.
pub mod Leaving
pub mod Persistent
use observable_cafev.Base.{
  ℕ, suc, zero, ◌+◌, ◌*◌, ◌≡◌, ◌↔◌, refl, String, Bool, true, false, Option, none, some, List, [],
  ◌∷◌, ◌++◌, arith, ◌==◌, eq_refl, eq_iff, not, ◌&&◌, ◌||◌, Option-cases, Bool-cases, inl, inr,
  if◌then◌else◌, and_then, is_some, ap, sym, subst, some_inj, ◌∙◌, ◌⊎◌, filter, length, any, map_or,
  is, eqb,
}
use observable_cafev.Platform.{Platform}
use observable_cafev.Map
use observable_cafev.Map.{Map, get, values, contains_key, get-insert, get-remove}
use observable_cafev.Map.Entries.{Distinct}
use observable_cafev.Envelope.{EphemeralConfig, ServerMessage, session_deleted}
use observable_cafev.Session.{
  SessionState, SubscriberInfo, Instant, nanos, counts, is_ephemeral, counted_subscriber_count,
  remove_subscriber,
}
use observable_cafev.Registry.{
  SessionRegistry, Timer, contains, put, remove, fire, schedule_deletion,
}
use observable_cafev.Bus.{Bus, Env, Conn, Task}
use observable_cafev.Handlers.Disconnect.{
  departing_connection_was_counted, after_leave, leave, leave_all, disconnect,
}

module _ ⦃P : Platform⦄ where
  -- What a fired timer must find to delete the session.
  abbrev pub Unattended : SessionRegistry → String → Type 0
  Unattended r id =
      (s : SessionState) × (get r.sessions id ≡ some s)
      × (is_ephemeral s ≡ true)
      × (counted_subscriber_count s ≡ 0)

  contains-remove : (r : SessionRegistry) (id : String) → contains (remove r id).0 id ≡ false
  unfolding remove
  contains-remove r id = ground (arith, get-remove r.sessions id id, eq_refl id)

  get-remove_other :
      (r : SessionRegistry) (id j : String)
      → (id == j) ≡ false
      → get (remove r id).0.sessions j ≡ get r.sessions j
  unfolding remove
  get-remove_other r id j h = ground (arith, get-remove r.sessions id j)

  fire_unattended :
      (r : SessionRegistry) (id : String) (s : SessionState)
      → get r.sessions id ≡ some s
      → is_ephemeral s ≡ true
      → counted_subscriber_count s ≡ 0
      → fire r id ≡ (remove r id).0
  unfolding fire
  fire_unattended r id s found ephemeral none_left = rw (found, fire, ephemeral, none_left)

  fire_attended :
      (r : SessionRegistry) (id : String) (s : SessionState)
      → get r.sessions id ≡ some s
      → (is_ephemeral s && eqb (counted_subscriber_count s) 0) ≡ false
      → fire r id ≡ r
  unfolding fire
  fire_attended r id s found h = rw (found, fire, h)

  fire_missing : (r : SessionRegistry) (id : String) → get r.sessions id ≡ none → fire r id ≡ r
  unfolding fire
  fire_missing r id missing = rw (missing, fire)

  events-remove :
      (r : SessionRegistry) (id : String)
      → contains r id ≡ true
      → (remove r id).0.events ≡ r.events ++ session_deleted id ∷ []
  unfolding remove
  events-remove r id h = rw (h, remove)

  pub record Deleted (id : String) (r r' : SessionRegistry) : Type 0 where
    pub gone : contains r' id ≡ false
    pub told : r'.events ≡ r.events ++ session_deleted id ∷ []
    pub others : (j : String) → (id == j) ≡ false → get r'.sessions j ≡ get r.sessions j

  pub remove-Deleted :
      (r : SessionRegistry) (id : String) → contains r id ≡ true → Deleted id r (remove r id).0
  remove-Deleted r id h = record {
    gone = contains-remove r id;
    told = events-remove r id h;
    others = get-remove_other r id;
  }

  attended_contra :
      (r : SessionRegistry) (id : String) (s : SessionState)
      → get r.sessions id ≡ some s
      → (is_ephemeral s && eqb (counted_subscriber_count s) 0) ≡ false
      → (t : SessionState) → get r.sessions id ≡ some t
      → is_ephemeral t ≡ true
      → ¬ (counted_subscriber_count t ≡ 0)
  attended_contra r id s found attended t same e n =
      let one : s ≡ t = some_inj (sym found ∙ same) in
      let never : (is_ephemeral t && eqb (counted_subscriber_count t) 0) ≡ false =
        subst (λ (u : SessionState). (is_ephemeral u && eqb (counted_subscriber_count u) 0) ≡ false)
          one attended in
      ground arith

  -- A timer that fires finds an ephemeral session of its id without a counted subscriber, deletes
  -- that session and no other, and tells of it; or else it changes nothing.
  pub fire_lem :
      (r : SessionRegistry) (id : String)
      → (Unattended r id × Deleted id r (fire r id)) ⊎ (¬ Unattended r id × (fire r id ≡ r))
  fire_lem r id = elim (Option-cases (get r.sessions id)) [
    | inl missing ↦ inr (λ (s, found, e, n). cc, fire_missing r id missing)
    | inr (s, found) ↦ elim (Bool-cases (is_ephemeral s && eqb (counted_subscriber_count s) 0)) [
      | inl over ↦
          let e : is_ephemeral s ≡ true = ground (arith, over) in
          let n : counted_subscriber_count s ≡ 0 = ground (arith, over) in
          inl (
            (s, found, e, n),
            subst (Deleted id r) (sym (fire_unattended r id s found e n))
                (remove-Deleted r id (ap is_some found)),
          )
      | inr attended ↦ inr (
        λ (t, same, e, n). attended_contra r id s found attended t same e n,
        fire_attended r id s found attended,
      )
    ]
  ]
