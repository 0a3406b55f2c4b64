-- ===== src/Registry/Consistent.antt =====
-- The invariant of the registry: every session is stored once, under its own id, and is sound.
use observable_cafev.Base.{
  ℕ, ◌≡◌, refl, String, false, Option, some, List, [], ◌∷◌, arith, All-append, Option-cases,
  Bool-cases, inl, inr, filter,
}
use observable_cafev.Platform.{Platform}
use observable_cafev.Map.{get}
use observable_cafev.Map.Entries.{
  Distinct, Entries, insert-Distinct, remove-Distinct, insert-Entries, remove-Entries, get-Entries,
}
use observable_cafev.Chunk.{Stamp, is_transient}
use observable_cafev.Session.{SessionState, Instant, live, delete_target}
use observable_cafev.Session.Sound.{IsSound, IsLasting, retained_with_deadlines-IsSound}
use observable_cafev.Registry.{
  SessionRegistry, contains, insert, put, remove, fork, fork_from, forked, provenance, set_tags,
  schedule_deletion, fire,
}

module _ ⦃P : Platform⦄ where
  abbrev pub IsStored : String → SessionState → Type 0
  IsStored id s = (s.session_id ≡ id) × IsSound s

  pub record IsConsistent (r : SessionRegistry) : Type 0 where
    pub distinct : Distinct r.sessions
    pub stored : Entries IsStored r.sessions

  pub put-IsConsistent :
      (r : SessionRegistry) (id : String) (s : SessionState)
      → IsStored id s
      → IsConsistent r
      → IsConsistent (put r id s)
  put-IsConsistent r id s q v = record {
    distinct = insert-Distinct r.sessions id s v.distinct;
    stored = insert-Entries IsStored r.sessions id s q v.stored;
  }

  pub insert-IsConsistent :
      (r : SessionRegistry) (s : SessionState)
      → IsSound s
      → IsConsistent r
      → IsConsistent (insert r s)
  unfolding insert
  insert-IsConsistent r s q v = record {
    distinct = insert-Distinct r.sessions s.session_id s v.distinct;
    stored = insert-Entries IsStored r.sessions s.session_id s (refl, q) v.stored;
  }

  pub remove-IsConsistent :
      (r : SessionRegistry) (id : String) → IsConsistent r → IsConsistent (remove r id).0
  unfolding remove
  remove-IsConsistent r id v = ground (
    arith,
    remove-Distinct r.sessions id v.distinct,
    remove-Entries IsStored r.sessions id v.stored,
  )

  provenance-IsLasting : (st : Stamp) (parent : String) → IsLasting (provenance st parent)
  unfolding provenance delete_target is_transient
  provenance-IsLasting st parent = refl

  forked-IsSound :
      (st : Stamp) (parent : SessionState) (id new_id : String)
      → IsSound parent
      → IsSound (forked st parent parent.retained id new_id)
  forked-IsSound st parent id new_id v = record {
    history =
        unfold forked in
        All-append IsLasting parent.history (provenance st id ∷ []) v.history
          (provenance-IsLasting st id, tt);
    retained = unfold forked in v.retained;
    subscribers = unfold forked in tt;
  }

  fork_from-IsConsistent :
      (now : Instant) (st : Stamp) (parent : SessionState) (id new_id : String)
      (r : SessionRegistry)
      → IsStored id parent
      → IsConsistent r
      → IsConsistent (fork_from now st parent id new_id r).0
  unfolding fork_from
  fork_from-IsConsistent now st parent id new_id r q v =
      let kept : SessionState = record parent { retained = filter (live now) parent.retained } in
      let sound : IsSound kept = retained_with_deadlines-IsSound now parent q.1 in
      insert-IsConsistent (put r id kept) (forked st kept kept.retained id new_id)
        (forked-IsSound st kept id new_id sound) (put-IsConsistent r id kept (q.0, sound) v)

  -- The branches of `fork`.
  pub fork_found :
      (now : Instant) (st : Stamp) (id new_id : String) (r : SessionRegistry)
      {parent : SessionState}
      → contains r new_id ≡ false
      → get r.sessions id ≡ some parent
      → fork now st id new_id r ≡ fork_from now st parent id new_id r
  unfolding fork
  fork_found now st id new_id r free found = rw (free, found, fork)

  pub fork-IsConsistent :
      (now : Instant) (st : Stamp) (id new_id : String) (r : SessionRegistry)
      → IsConsistent r
      → IsConsistent (fork now st id new_id r).0
  fork-IsConsistent now st id new_id r v = elim (Bool-cases (contains r new_id)) [
    | inl taken ↦ unfold fork in rw taken v
    | inr free ↦ elim (Option-cases (get r.sessions id)) [
      | inl missing ↦ unfold fork in rw (free, missing, fork) v
      | inr (parent, found) ↦
          let stored : IsStored id parent = get-Entries IsStored r.sessions id found v.stored in
          let kept : IsConsistent (fork_from now st parent id new_id r).0 =
            fork_from-IsConsistent now st parent id new_id r stored v in
          rw (fork_found now st id new_id r free found) kept
    ]
  ]

  retag-IsSound :
      (s : SessionState) (tags : List String) → IsSound s → IsSound (record s { tags = tags })
  retag-IsSound s tags v = record {
    history = v.history;
    retained = v.retained;
    subscribers = v.subscribers;
  }

  pub set_tags-IsConsistent :
      (r : SessionRegistry) (id : String) (tags : List String)
      → IsConsistent r
      → IsConsistent (set_tags r id tags).0
  set_tags-IsConsistent r id tags v = elim (Option-cases (get r.sessions id)) [
    | inl missing ↦ unfold set_tags in rw (missing, set_tags) v
    | inr (s, found) ↦
        let (same, sound) = get-Entries IsStored r.sessions id found v.stored in
        let kept : IsConsistent (put r id (record s { tags = tags })) =
          put-IsConsistent r id (record s { tags = tags }) (same, retag-IsSound s tags sound) v in
        unfold set_tags in
        rw (found, set_tags) (record { distinct = kept.distinct; stored = kept.stored })
  ]

  pub schedule_deletion-IsConsistent :
      (now : Instant) (r : SessionRegistry) (id : String) (delay : Option ℕ)
      → IsConsistent r
      → IsConsistent (schedule_deletion now r id delay).0
  unfolding schedule_deletion
  schedule_deletion-IsConsistent now r id delay v = ground (arith, remove-IsConsistent r id v)

  pub fire-IsConsistent :
      (r : SessionRegistry) (id : String) → IsConsistent r → IsConsistent (fire r id)
  unfolding fire
  fire-IsConsistent r id v = ground (arith, remove-IsConsistent r id v)
