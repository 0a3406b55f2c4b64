-- ===== src/Registry/Steps.antt =====
-- The ways in which the bus changes one session and the registry, as step relations, and the
-- invariants that they keep.
use observable_cafev.Base.{◌≡◌, refl, String, false, Option, some, List, ap, is_some, ◌∙◌, arith}
use observable_cafev.Platform.{Platform}
use observable_cafev.Map.{get}
use observable_cafev.Map.Entries.{get-Entries}
use observable_cafev.Chunk.{Chunk, Stamp}
use observable_cafev.Session.{
  SessionState, Instant, publish, publish_live, retain, remove_chunk, drain_retained,
  add_subscriber, remove_subscriber,
}
use observable_cafev.Session.Retained.{drain_retained_lem}
use observable_cafev.Session.Sound.{
  IsSound, publish-IsSound, drain_retained-IsSound, add_subscriber-IsSound,
  remove_subscriber-IsSound,
}
use observable_cafev.Registry.{SessionRegistry, contains, insert, put, remove, fork, set_tags}
use observable_cafev.Registry.Consistent.{
  IsConsistent, IsStored, put-IsConsistent, insert-IsConsistent, remove-IsConsistent,
  fork-IsConsistent, set_tags-IsConsistent,
}
use observable_cafev.Registry.Events.{
  Tracks, put-Tracks, insert-Tracks, remove-Tracks, fork-Tracks, set_tags-Tracks,
}

module _ ⦃P : Platform⦄ where
  pub data SessionStep (s : SessionState) : SessionState → Type 0 where
    published :
        (now : Instant) (c : Chunk) {t : SessionState} → publish now c s ≡ some t → SessionStep s t
    drained : (now : Instant) → SessionStep s (drain_retained now s).0
    joined : (conn : String) (role : Option String) → SessionStep s (add_subscriber conn role s).0
    left : (conn : String) → SessionStep s (remove_subscriber conn s).0
    tagged : (tags : List String) → SessionStep s (record s { tags = tags })

  pub data SessionSteps (s : SessionState) : SessionState → Type 0 where
    here : SessionSteps s s
    next : {t u : SessionState} → SessionSteps s t → SessionStep t u → SessionSteps s u

  pub data RegistryStep (r : SessionRegistry) : SessionRegistry → Type 0 where
    updated :
        (id : String) {s t : SessionState}
        → get r.sessions id ≡ some s
        → SessionSteps s t
        → RegistryStep r (put r id t)
    inserted :
        (s : SessionState)
        → contains r s.session_id ≡ false
        → IsSound s
        → RegistryStep r (insert r s)
    removed : (id : String) → RegistryStep r (remove r id).0
    forks :
        (now : Instant) (st : Stamp) (id new_id : String)
        → RegistryStep r (fork now st id new_id r).0
    retagged : (id : String) (tags : List String) → RegistryStep r (set_tags r id tags).0

  pub data RegistrySteps (r : SessionRegistry) : SessionRegistry → Type 0 where
    stay : RegistrySteps r r
    move : {t u : SessionRegistry} → RegistrySteps r t → RegistryStep t u → RegistrySteps r u

  retag-IsSound :
      (s : SessionState) (tags : List String) → IsSound s → IsSound (record s { tags = tags })
  retag-IsSound s tags v = record {
    history = v.history;
    retained = v.retained;
    subscribers = v.subscribers;
  }

  SessionStep-IsSound : {s t : SessionState} → SessionStep s t → IsSound s → IsSound t
  SessionStep-IsSound {s} (published now c e) v = publish-IsSound now c s v e
  SessionStep-IsSound {s} (drained now) v = drain_retained-IsSound now s v
  SessionStep-IsSound {s} (joined conn role) v = add_subscriber-IsSound conn role s v
  SessionStep-IsSound {s} (left conn) v = remove_subscriber-IsSound conn s v
  SessionStep-IsSound {s} (tagged tags) v = retag-IsSound s tags v

  pub SessionSteps-IsSound : {s t : SessionState} → SessionSteps s t → IsSound s → IsSound t
  SessionSteps-IsSound here v = v
  SessionSteps-IsSound (next steps step) v = SessionStep-IsSound step (SessionSteps-IsSound steps v)

  publish-session_id :
      (now : Instant) (c : Chunk) (s : SessionState) {t : SessionState}
      → publish now c s ≡ some t
      → t.session_id ≡ s.session_id
  unfolding publish publish_live retain remove_chunk
  publish-session_id now c s h = ground arith

  -- No step changes the id of a session.
  SessionStep-session_id : {s t : SessionState} → SessionStep s t → t.session_id ≡ s.session_id
  SessionStep-session_id {s} (published now c e) = publish-session_id now c s e
  SessionStep-session_id {s} (drained now) = rw (drain_retained_lem now s)
  SessionStep-session_id (joined conn role) = unfold add_subscriber in refl
  SessionStep-session_id (left conn) = unfold remove_subscriber in refl
  SessionStep-session_id (tagged tags) = refl

  pub SessionSteps-session_id :
      {s t : SessionState} → SessionSteps s t → t.session_id ≡ s.session_id
  SessionSteps-session_id here = refl
  SessionSteps-session_id (next steps step) =
      SessionStep-session_id step ∙ SessionSteps-session_id steps

  pub RegistryStep-IsConsistent :
      {r r' : SessionRegistry} → RegistryStep r r' → IsConsistent r → IsConsistent r'
  RegistryStep-IsConsistent {r} (updated id {s} {t} found steps) v =
      let (same, sound) = get-Entries IsStored r.sessions id found v.stored in
      put-IsConsistent r id t
        (SessionSteps-session_id steps ∙ same, SessionSteps-IsSound steps sound) v
  RegistryStep-IsConsistent {r} (inserted s free sound) v = insert-IsConsistent r s sound v
  RegistryStep-IsConsistent {r} (removed id) v = remove-IsConsistent r id v
  RegistryStep-IsConsistent {r} (forks now st id new_id) v = fork-IsConsistent now st id new_id r v
  RegistryStep-IsConsistent {r} (retagged id tags) v = set_tags-IsConsistent r id tags v

  pub RegistryStep-Tracks : {r r' : SessionRegistry} → RegistryStep r r' → Tracks r → Tracks r'
  RegistryStep-Tracks {r} (updated id {s} {t} found steps) h =
      put-Tracks r id t (ap is_some found) h
  RegistryStep-Tracks {r} (inserted s free sound) h = insert-Tracks r s h
  RegistryStep-Tracks {r} (removed id) h = remove-Tracks r id h
  RegistryStep-Tracks {r} (forks now st id new_id) h = fork-Tracks now st id new_id r h
  RegistryStep-Tracks {r} (retagged id tags) h = set_tags-Tracks r id tags h

  pub RegistrySteps-IsConsistent :
      {r r' : SessionRegistry} → RegistrySteps r r' → IsConsistent r → IsConsistent r'
  RegistrySteps-IsConsistent stay v = v
  RegistrySteps-IsConsistent (move steps step) v =
      RegistryStep-IsConsistent step (RegistrySteps-IsConsistent steps v)

  pub RegistrySteps-Tracks : {r r' : SessionRegistry} → RegistrySteps r r' → Tracks r → Tracks r'
  RegistrySteps-Tracks stay h = h
  RegistrySteps-Tracks (move steps step) h = RegistryStep-Tracks step (RegistrySteps-Tracks steps h)

  pub RegistrySteps-trans :
      {r s t : SessionRegistry} → RegistrySteps r s → RegistrySteps s t → RegistrySteps r t
  RegistrySteps-trans a stay = a
  RegistrySteps-trans a (move steps step) = move (RegistrySteps-trans a steps) step
