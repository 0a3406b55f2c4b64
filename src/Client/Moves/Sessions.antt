-- ===== src/Client/Moves/Sessions.antt =====
-- The registry under the handlers of `ForkSession`, `DeleteSession` and `SetSessionTags`.
use observable_cafev.Base.{◌≡◌, refl, String, List, arith, Option-cases, inl, inr}
use observable_cafev.Platform.{Platform}
use observable_cafev.Map.{get}
use observable_cafev.Tags.{validate_tags}
use observable_cafev.Session.{publish}
use observable_cafev.Registry.{ForkResult, ok, err, parent_not_found, session_exists, remove, fork}
use observable_cafev.Registry.Steps.{
  here, next, published, tagged, updated, removed, forks, retagged, stay, move,
}
use observable_cafev.Bus.{Bus, Env}
use observable_cafev.Handlers.Notices.{make_tags_chunk}
use observable_cafev.Handlers.Sessions.{handle_set_tags, fork_reply, handle_fork, handle_delete}
use observable_cafev.Client.Moves.{Moves, MovesIf}

module _ ⦃P : Platform⦄ where
  registry-fork_reply :
      (conn parent id : String) (result : ForkResult) (b : Bus)
      → (fork_reply conn parent id result b).registry ≡ b.registry
  unfolding fork_reply
  registry-fork_reply conn parent id (ok new_id) b = refl
  registry-fork_reply conn parent id (err parent_not_found) b = refl
  registry-fork_reply conn parent id (err session_exists) b = refl

  pub handle_fork-Moves :
      (env : Env) (conn parent id : String) (b : Bus) → Moves b (handle_fork env conn parent id b)
  unfolding handle_fork
  handle_fork-Moves env conn parent id b =
      let (registry, result) = fork env.now (env.stamp 0) parent id b.registry in
      rw (registry-fork_reply conn parent id result (record b { registry = registry }))
        (move stay (forks env.now (env.stamp 0) parent id))

  registry-handle_delete :
      (conn id : String) (b : Bus) → (handle_delete conn id b).registry ≡ (remove b.registry id).0
  unfolding handle_delete remove
  registry-handle_delete conn id b = ground arith

  pub handle_delete-Moves : (conn id : String) (b : Bus) → Moves b (handle_delete conn id b)
  handle_delete-Moves conn id b = rw (registry-handle_delete conn id b) (move stay (removed id))

  pub handle_set_tags-Moves :
      (env : Env) (conn id : String) (tags : List String) (b : Bus)
      → MovesIf b (handle_set_tags env conn id tags b)
  handle_set_tags-Moves env conn id tags b = elim (Option-cases (validate_tags P.debug tags)) [
    | inr (e, invalid) ↦ unfold handle_set_tags in rw (invalid, handle_set_tags) stay
    | inl valid ↦ elim (Option-cases (get b.registry.sessions id)) [
      | inl missing ↦ unfold handle_set_tags in rw (valid, handle_set_tags, missing) stay
      | inr (s, found) ↦
          elim (Option-cases (publish env.now (make_tags_chunk (env.stamp 0) tags) s)) [
            | inl panic ↦ unfold handle_set_tags in rw (valid, handle_set_tags, found, panic) tt
            | inr (t, done) ↦
                let steps = next (next here (published env.now _ done)) (tagged tags) in
                unfold handle_set_tags in
                rw (valid, handle_set_tags, found, done)
                  (move (move stay (updated id found steps)) (retagged id tags))
          ]
    ]
  ]
