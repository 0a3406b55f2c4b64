-- ===== src/Session/Publish.antt =====
-- The three ways of `publish`, as equations.
use observable_cafev.Base.{◌≡◌, String, true, false, none, some, [], ◌∷◌, ◌++◌, filter}
use observable_cafev.Platform.{Platform}
use observable_cafev.Chunk.{Chunk, is_transient, retain_secs}
use observable_cafev.Session.{
  SessionState, Instant, delete_target, publish, publish_live, retain, differs, entry_differs,
}

module _ ⦃P : Platform⦄ (now : Instant) (c : Chunk) (s : SessionState) where
  -- What a delete signal leaves.
  abbrev pub after_delete : String → SessionState
  after_delete target = record s {
    history = filter (differs target) s.history;
    retained = filter (entry_differs target) s.retained;
    sent = s.sent ++ c ∷ [];
  }

  abbrev pub after_append : SessionState
  after_append = record s { history = s.history ++ c ∷ []; sent = s.sent ++ c ∷ [] }

  pub publish_delete :
      {target : String}
      → delete_target c ≡ some target
      → publish now c s ≡ some (after_delete target)
  unfolding publish
  publish_delete e = rw (e, publish)

  pub publish_append :
      delete_target c ≡ none → is_transient c ≡ false → publish now c s ≡ some after_append
  unfolding publish publish_live
  publish_append e f = rw (e, publish, f)

  pub publish-retain :
      delete_target c ≡ none
      → is_transient c ≡ true
      → publish now c s ≡ retain now c (retain_secs c) s
  unfolding publish publish_live
  publish-retain e f = rw (e, publish, f)
