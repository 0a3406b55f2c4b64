-- ===== src/Registry/Fork.antt =====
-- What `fork` does to the registry, branch by branch.
use observable_cafev.Base.{
  ◌≤◌, ◌≡◌, ◌≢◌, refl, String, true, false, none, some, [], ◌∷◌, ◌++◌, arith, ◌==◌, eq_iff, eq_refl,
  if◌then◌else◌, filter, ◌⊎◌,
}
use observable_cafev.Platform.{Platform}
use observable_cafev.Map.{get, get-insert}
use observable_cafev.Chunk.{Stamp}
use observable_cafev.Envelope.{session_created}
use observable_cafev.Session.{SessionState, Instant, live, drain_retained}
use observable_cafev.Session.Retained.{drain_retained_lem, filter-live_later}
use observable_cafev.Registry.{
  SessionRegistry, ForkError, ok, err, parent_not_found, session_exists, contains, fork, fork_from,
  forked, provenance,
}
use observable_cafev.Registry.Consistent.{fork_found}

module _ ⦃P : Platform⦄ where
  -- The parent after a fork: only what had expired is gone.
  abbrev pub pruned : Instant → SessionState → SessionState
  pruned now s = record s { retained = filter (live now) s.retained }

  -- What a fork must be.
  pub record IsFork (now : Instant) (st : Stamp) (parent_id new_id : String)
      (parent child : SessionState) : Type 0 where
    pub session_id : child.session_id ≡ new_id
    pub agent_id : child.agent_id ≡ parent.agent_id
    pub history : child.history ≡ parent.history ++ provenance st parent_id ∷ []
    pub retained : child.retained ≡ filter (live now) parent.retained
    pub tags : child.tags ≡ parent.tags
    pub origin : child.parent_id ≡ some parent_id
    pub unseen : child.sent ≡ []
    pub unsubscribed : child.subscribers ≡ []
    pub persistent : child.ephemeral ≡ none

  pub record Forks (now : Instant) (st : Stamp) (parent_id new_id : String) (parent : SessionState)
      (r r' : SessionRegistry) : Type 0 where
    pub child : SessionState
    pub stored : get r'.sessions new_id ≡ some child
    pub is_fork : IsFork now st parent_id new_id parent child
    pub parent_kept : get r'.sessions parent_id ≡ some (pruned now parent)
    pub others : (k : String) → k ≢ new_id → k ≢ parent_id → get r'.sessions k ≡ get r.sessions k
    pub announced : r'.events ≡ r.events ++ session_created new_id parent.agent_id ∷ []

  forked-IsFork :
      (now : Instant) (st : Stamp) (parent : SessionState) (id new_id : String)
      → IsFork now st id new_id parent
          (forked st (pruned now parent) (filter (live now) parent.retained) id new_id)
  unfolding forked
  forked-IsFork now st parent id new_id = record {
    session_id = refl;
    agent_id = refl;
    history = refl;
    retained = refl;
    tags = refl;
    origin = refl;
    unseen = refl;
    unsubscribed = refl;
    persistent = refl;
  }

  get-fork_from :
      (now : Instant) (st : Stamp) (parent : SessionState) (id new_id : String)
      (r : SessionRegistry) (k : String)
      → get (fork_from now st parent id new_id r).0.sessions k ≡ (
          if new_id == k
          then some (forked st (pruned now parent) (filter (live now) parent.retained) id new_id)
          else if id == k
          then some (pruned now parent)
          else get r.sessions k)
  unfolding fork_from
  get-fork_from now st parent id new_id r k = simp get-insert

  -- Forking a session that exists under an id that is free succeeds, and gives the new id. The new
  -- session has the parent's agent and tags, the parent's whole history unchanged followed by the
  -- provenance chunk, and the parent's unexpired transient chunks with their deadlines unchanged; it
  -- has no subscribers, nothing has been broadcast in it, and it is not ephemeral. The parent loses
  -- its expired transient chunks and nothing else, every other session stays as it was, and one
  -- event, the creation of the new session, is emitted.
  pub fork_success :
      (now : Instant) (st : Stamp) (parent_id new_id : String) (r : SessionRegistry)
      (parent : SessionState)
      → contains r new_id ≡ false
      → get r.sessions parent_id ≡ some parent
      → ((fork now st parent_id new_id r).1 ≡ ok new_id)
        × Forks now st parent_id new_id parent r (fork now st parent_id new_id r).0
  fork_success now st id new_id r parent free found =
      rw (fork_found now st id new_id r free found) (
        unfold fork_from in refl,
        record {
          child = forked st (pruned now parent) (filter (live now) parent.retained) id new_id;
          stored = rw get-fork_from (simp eq_refl);
          is_fork = forked-IsFork now st parent id new_id;
          parent_kept =
              ground
                (arith, get-fork_from now st parent id new_id r id, eq_iff new_id id, eq_refl id);
          others = λ k a b.
              ground
                (arith, get-fork_from now st parent id new_id r k, eq_iff new_id k, eq_iff id k);
          announced = unfold fork_from in refl;
        },
      )

  -- A fork that fails leaves the registry as it was, and its error says why: the new id is taken, or
  -- it is free and the parent does not exist.
  pub fork_failure :
      (now : Instant) (st : Stamp) (parent_id new_id : String) (r : SessionRegistry) (e : ForkError)
      → (fork now st parent_id new_id r).1 ≡ err e
      → ((fork now st parent_id new_id r).0 ≡ r)
        × (((e ≡ session_exists) × (contains r new_id ≡ true))
            ⊎ ((e ≡ parent_not_found)
                × (contains r new_id ≡ false)
                × (contains r parent_id ≡ false)))
  unfolding fork
  fork_failure now st id new_id r e h = ground arith

  -- Forking a session that exists under an id that is free does not change a deadline: at any later
  -- time, a subscriber of the new session, and one of the parent after the fork, are replayed exactly
  -- the transient chunks that a subscriber of the parent would be replayed then without the fork.
  pub fork_replay :
      (now later : Instant) (st : Stamp) (parent_id new_id : String) (r : SessionRegistry)
      (parent : SessionState)
      → now ≤ later
      → contains r new_id ≡ false
      → get r.sessions parent_id ≡ some parent
      → (child parent' : SessionState) × (get (fork now st parent_id new_id r).0.sessions new_id
          ≡ some child)
        × (get (fork now st parent_id new_id r).0.sessions parent_id ≡ some parent')
        × ((drain_retained later child).1 ≡ (drain_retained later parent).1)
        × ((drain_retained later parent').1 ≡ (drain_retained later parent).1)
  fork_replay now later st id new_id r parent h free found =
      let forks = (fork_success now st id new_id r parent free found).1 in
      (
        forks.child,
        pruned now parent,
        forks.stored,
        forks.parent_kept,
        simp (
          drain_retained_lem,
          forks.is_fork.retained,
          filter-live_later now later parent.retained h,
        ),
        simp (drain_retained_lem, filter-live_later now later parent.retained h),
      )
