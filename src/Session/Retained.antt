-- ===== src/Session/Retained.antt =====
-- The two readers of the retained buffer: `drain_retained`, which counts before it prunes, and
-- `retained_with_deadlines`, which forking uses.
use observable_cafev.Base.{
  ◌≤◌, ◌≡◌, refl, List, [], ◌∷◌, map, filter, arith, ltb, Bool-cases, inl, inr,
}
use observable_cafev.Platform.{Platform}
use observable_cafev.Chunk.{Chunk}
use observable_cafev.Session.{
  SessionState, Instant, live, chunk_of, split_retained, drain_retained, retained_with_deadlines,
}

module _ ⦃P : Platform⦄ where
  valid-split_retained :
      (now : Instant) (es : List (Chunk × Instant))
      → (split_retained now es).0 ≡ map chunk_of (filter (live now) es)
  unfolding split_retained
  valid-split_retained now [] = refl
  valid-split_retained now (e ∷ es) = ground (arith, valid-split_retained now es)

  none_expired :
      (now : Instant) (es : List (Chunk × Instant))
      → (split_retained now es).1 ≡ 0
      → filter (live now) es ≡ es
  unfolding split_retained
  none_expired now [] h = refl
  none_expired now (e ∷ es) h = ground (arith, none_expired now es)

  abbrev prune : Instant → SessionState → SessionState
  prune now s = record s { retained = filter (live now) s.retained }

  -- Counting first changes nothing: a drain gives the chunks whose deadline is still to come, oldest
  -- first, leaves exactly their entries in the buffer, and changes no other part of the session.
  pub drain_retained_lem :
      (now : Instant) (s : SessionState)
      → drain_retained now s ≡ (
        record s { retained = filter (live now) s.retained },
        map chunk_of (filter (live now) s.retained),
      )
  unfolding drain_retained
  drain_retained_lem now s = elim (Bool-cases (ltb 0 (split_retained now s.retained).1)) [
    | inl e ↦ rw (e, valid-split_retained now s.retained)
    | inr e ↦
        rw (e, valid-split_retained now s.retained, none_expired now s.retained (ground arith))
  ]

  pub filter-live_later :
      (now later : Instant) (es : List (Chunk × Instant))
      → now ≤ later
      → filter (live later) (filter (live now) es) ≡ filter (live later) es
  filter-live_later now later [] h = refl
  filter-live_later now later ((c, d) ∷ es) h = ground (arith, filter-live_later now later es h)

  -- An earlier drain, by a subscriber or by a fork, never changes what a later one gives.
  pub drain_retained_later :
      (now later : Instant) (s : SessionState)
      → now ≤ later
      → (drain_retained later (drain_retained now s).0 ≡ drain_retained later s)
        × (drain_retained later (retained_with_deadlines now s).0 ≡ drain_retained later s)
  drain_retained_later now later s h = (
    simp (drain_retained_lem, filter-live_later now later s.retained h),
    unfold retained_with_deadlines in
        simp (drain_retained_lem, filter-live_later now later s.retained h),
  )
