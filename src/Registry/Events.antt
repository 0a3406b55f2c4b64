-- ===== src/Registry/Events.antt =====
-- The events of the registry, read as a log: a listener that replays them knows which sessions exist.
use observable_cafev.Base.{
  ℕ, ◌≡◌, refl, String, Bool, true, false, Option, List, [], ◌∷◌, ◌++◌, arith, ◌==◌, eq_iff,
  if◌then◌else◌, is_some, ap, Option-cases, Bool-cases, inl, inr,
}
use observable_cafev.Platform.{Platform}
use observable_cafev.Map.{get, get-insert, get-remove}
use observable_cafev.Chunk.{Stamp}
use observable_cafev.Envelope.{
  ServerMessage, session_created, session_deleted, session_tags_updated,
}
use observable_cafev.Session.{SessionState, Instant}
use observable_cafev.Registry.{
  SessionRegistry, contains, insert, put, remove, fork, set_tags, schedule_deletion, fire,
  fork_from, forked,
}
use observable_cafev.Registry.Consistent.{fork_found}
use observable_cafev.Registry.Fork.{pruned}

module _ ⦃P : Platform⦄ where
  -- What a listener believes of the session `id` after one event, and after a log of them.
  abbrev pub hear : String → Bool → ServerMessage → Bool
  hear id known (session_created j agent) = if j == id then true else known
  hear id known (session_deleted j) = if j == id then false else known
  hear id known _ = known

  abbrev pub replay_events : String → Bool → List ServerMessage → Bool
  replay_events id known [] = known
  replay_events id known (e ∷ es) = replay_events id (hear id known e) es

  -- The log of events tells, of every id, whether the session exists.
  abbrev pub Tracks : SessionRegistry → Type 0
  Tracks r = (id : String) → replay_events id false r.events ≡ contains r id

  replay_events-append :
      (id : String) (known : Bool) (es : List ServerMessage) (e : ServerMessage)
      → replay_events id known (es ++ e ∷ []) ≡ hear id (replay_events id known es) e
  replay_events-append id known [] e = refl
  replay_events-append id known (x ∷ es) e = replay_events-append id (hear id known x) es e

  pub put-Tracks :
      (r : SessionRegistry) (id : String) (s : SessionState)
      → contains r id ≡ true
      → Tracks r
      → Tracks (put r id s)
  put-Tracks r id s h t k = ground (arith, get-insert r.sessions id s k, eq_iff id k, t k)

  pub insert-Tracks : (r : SessionRegistry) (s : SessionState) → Tracks r → Tracks (insert r s)
  unfolding insert
  insert-Tracks r s t k = ground (
    arith,
    replay_events-append k false r.events (session_created s.session_id s.agent_id),
    get-insert r.sessions s.session_id s k,
    eq_iff s.session_id k,
    t k,
  )

  pub remove-Tracks : (r : SessionRegistry) (id : String) → Tracks r → Tracks (remove r id).0
  unfolding remove
  remove-Tracks r id t k = ground (
    arith,
    replay_events-append k false r.events (session_deleted id),
    get-remove r.sessions id k,
    eq_iff id k,
    t k,
  )

  pub set_tags-Tracks :
      (r : SessionRegistry) (id : String) (tags : List String)
      → Tracks r
      → Tracks (set_tags r id tags).0
  set_tags-Tracks r id tags t = elim (Option-cases (get r.sessions id)) [
    | inl missing ↦ unfold set_tags in rw (missing, set_tags) t
    | inr (s, found) ↦
        unfold set_tags in
        rw (found, set_tags)
          (λ k. ground (
            arith,
            replay_events-append k false r.events (session_tags_updated id tags),
            put-Tracks r id (record s { tags = tags }) (ap is_some found) t k,
          ))
  ]

  fork_from-Tracks :
      (now : Instant) (st : Stamp) (parent : SessionState) (id new_id : String)
      (r : SessionRegistry)
      → contains r id ≡ true
      → Tracks r
      → Tracks (fork_from now st parent id new_id r).0
  unfolding fork_from
  fork_from-Tracks now st parent id new_id r known t =
      let kept = pruned now parent in
      insert-Tracks (put r id kept) (forked st kept kept.retained id new_id)
        (put-Tracks r id kept known t)

  pub fork-Tracks :
      (now : Instant) (st : Stamp) (id new_id : String) (r : SessionRegistry)
      → Tracks r
      → Tracks (fork now st id new_id r).0
  fork-Tracks now st id new_id r t = elim (Bool-cases (contains r new_id)) [
    | inl taken ↦ unfold fork in rw taken t
    | inr free ↦ elim (Option-cases (get r.sessions id)) [
      | inl missing ↦ unfold fork in rw (free, missing, fork) t
      | inr (parent, found) ↦
          rw (fork_found now st id new_id r free found)
            (fork_from-Tracks now st parent id new_id r (ap is_some found) t)
    ]
  ]

  pub schedule_deletion-Tracks :
      (now : Instant) (r : SessionRegistry) (id : String) (delay : Option ℕ)
      → Tracks r
      → Tracks (schedule_deletion now r id delay).0
  unfolding schedule_deletion
  schedule_deletion-Tracks now r id delay t k = ground (arith, remove-Tracks r id t k, t k)

  pub fire-Tracks : (r : SessionRegistry) (id : String) → Tracks r → Tracks (fire r id)
  unfolding fire
  fire-Tracks r id t k = ground (arith, remove-Tracks r id t k, t k)
