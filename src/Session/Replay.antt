-- ===== src/Session/Replay.antt =====
-- `publish` implements the abstract view of what a session keeps for replay.
use observable_cafev.Base.{
  ℕ, ◌+◌, ◌*◌, String, ◌≡◌, refl, ap, ◌∙◌, true, Option, none, some, List, [], ◌∷◌, ◌++◌,
  append-nil, arith, filter, All, eq_iff, Option-cases, inl, inr, Bool-cases,
}
use observable_cafev.Platform.{Platform}
use observable_cafev.Chunk.{Chunk, is_transient, retain_secs}
use observable_cafev.Session.{
  SessionState, Instant, nanos, add_secs, delete_target, publish, retain, differs, entry_differs,
}
use observable_cafev.Session.Publish.{publish_delete, publish_append, publish-retain}
use observable_cafev.Session.View.{
  Published, survives, entry_survives, publish_all, Fits, Replays, Replays-cons,
}

module _ ⦃P : Platform⦄ where
  filter_unretired :
      (now : Instant) (c : Chunk) (xs : List Chunk)
      → delete_target c ≡ none
      → filter (survives ((now, c) ∷ [])) xs ≡ xs
  filter_unretired now c [] h = refl
  filter_unretired now c (x ∷ xs) h = ground (arith, filter_unretired now c xs h)

  entries_unretired :
      (now : Instant) (c : Chunk) (xs : List (Chunk × Instant))
      → delete_target c ≡ none
      → filter (entry_survives ((now, c) ∷ [])) xs ≡ xs
  entries_unretired now c [] h = refl
  entries_unretired now c ((x, d) ∷ xs) h = ground (arith, entries_unretired now c xs h)

  filter_retired :
      (now : Instant) (c : Chunk) (target : String) (xs : List Chunk)
      → delete_target c ≡ some target
      → filter (differs target) xs ≡ filter (survives ((now, c) ∷ [])) xs
  filter_retired now c target [] h = refl
  filter_retired now c target (x ∷ xs) h =
      ground (arith, eq_iff x.id target, eq_iff target x.id, filter_retired now c target xs h)

  entries_retired :
      (now : Instant) (c : Chunk) (target : String) (xs : List (Chunk × Instant))
      → delete_target c ≡ some target
      → filter (entry_differs target) xs ≡ filter (entry_survives ((now, c) ∷ [])) xs
  entries_retired now c target [] h = refl
  entries_retired now c target ((x, d) ∷ xs) h =
      ground (arith, eq_iff x.id target, eq_iff target x.id, entries_retired now c target xs h)

  retain_one :
      (now : Instant) (c : Chunk) (s : SessionState)
      → delete_target c ≡ none
      → is_transient c ≡ true
      → (o : Option ℕ) → retain_secs c ≡ o
      → Fits (now, c)
      → (t : SessionState) × (retain now c o s ≡ some t) × Replays ((now, c) ∷ []) s t
  retain_one now c s live fleeting none e fits = (
    record s { sent = s.sent ++ c ∷ [] },
    unfold retain in refl,
    record {
      history = ground (arith, filter_unretired now c s.history live, append-nil s.history);
      retained = ground (arith, entries_unretired now c s.retained live, append-nil s.retained);
      sent = refl;
    },
  )
  retain_one now c s live fleeting (some n) e fits = (
    record s { sent = s.sent ++ c ∷ []; retained = s.retained ++ (c, now + n * nanos) ∷ [] },
    unfold retain in ground (arith, fits n e),
    record {
      history = ground (arith, filter_unretired now c s.history live, append-nil s.history);
      retained =
          unfold add_secs in ground (arith, fits n e, entries_unretired now c s.retained live);
      sent = refl;
    },
  )

  pub publish_one :
      (now : Instant) (c : Chunk) (s : SessionState)
      → Fits (now, c)
      → (t : SessionState) × (publish now c s ≡ some t) × Replays ((now, c) ∷ []) s t
  publish_one now c s fits = elim (Option-cases (delete_target c)) [
    | inr (target, e) ↦ (
      record s {
        history = filter (differs target) s.history;
        retained = filter (entry_differs target) s.retained;
        sent = s.sent ++ c ∷ [];
      },
      publish_delete now c s e,
      record {
        history = ground (
          arith,
          filter_retired now c target s.history e,
          append-nil (filter (survives ((now, c) ∷ [])) s.history),
        );
        retained = ground (
          arith,
          entries_retired now c target s.retained e,
          append-nil (filter (entry_survives ((now, c) ∷ [])) s.retained),
        );
        sent = refl;
      },
    )
    | inl e ↦ elim (Bool-cases (is_transient c)) [
      | inl fleeting ↦
          let (t, done, replays) = retain_one now c s e fleeting (retain_secs c) refl fits in
          (t, publish-retain now c s e fleeting ∙ done, replays)
      | inr stays ↦ (
        record s { history = s.history ++ c ∷ []; sent = s.sent ++ c ∷ [] },
        publish_append now c s e stays,
        record {
          history = ground (arith, filter_unretired now c s.history e);
          retained =
              unfold retain_secs in
              ground (arith, entries_unretired now c s.retained e, append-nil s.retained);
          sent = refl;
        },
      )
    ]
  ]

  none_retired : (xs : List Chunk) → filter (survives []) xs ≡ xs
  none_retired [] = refl
  none_retired (x ∷ xs) = ap (λ (l : List Chunk). x ∷ l) (none_retired xs)

  no_entry_retired : (xs : List (Chunk × Instant)) → filter (entry_survives []) xs ≡ xs
  no_entry_retired [] = refl
  no_entry_retired ((x, d) ∷ xs) =
      ap (λ (l : List (Chunk × Instant)). (x, d) ∷ l) (no_entry_retired xs)

  Replays-nil : (s : SessionState) → Replays [] s s
  Replays-nil s = record {
    history = simp (none_retired, append-nil);
    retained = simp (no_entry_retired, append-nil);
    sent = simp append-nil;
  }

  publish_all-cons :
      (now : Instant) (c : Chunk) (later : List Published) (s : SessionState) {t : SessionState}
      → publish now c s ≡ some t
      → publish_all ((now, c) ∷ later) s ≡ publish_all later t
  unfolding publish_all
  publish_all-cons now c later s e = rw (e, publish_all)

  -- Publishing a sequence of chunks whose retention periods do not overflow the clock never panics.
  -- The history that it leaves is the earlier one without the chunks retired meanwhile, followed by
  -- the published chunks that are neither transient nor delete signals and are not retired later, in
  -- order. The same holds of the retained transient chunks, each with its deadline. All the chunks
  -- have been handed to the broadcast channel, in order. So a delete signal is broadcast, but never
  -- stored, also where it is not transient, contrary to docs/adr-135-chunk-deletion.md.
  pub publish_all-Replays :
      (cs : List Published) (s : SessionState)
      → All Fits cs
      → (t : SessionState) × (publish_all cs s ≡ some t) × Replays cs s t
  publish_all-Replays [] s fits = (s, unfold publish_all in refl, Replays-nil s)
  publish_all-Replays ((now, c) ∷ later) s fits =
      let (t, done, one) = publish_one now c s fits.0 in
      let (u, all_done, rest) = publish_all-Replays later t fits.1 in
      (u, publish_all-cons now c later s done ∙ all_done, Replays-cons (now, c) later one rest)
