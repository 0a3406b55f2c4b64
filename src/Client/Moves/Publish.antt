-- ===== src/Client/Moves/Publish.antt =====
-- The registry under the handler of `Publish`.
use observable_cafev.Base.{◌≡◌, String, arith, Option-cases, inl, inr}
use observable_cafev.Platform.{Platform}
use observable_cafev.Map.{get}
use observable_cafev.Chunk.{Chunk, get_str}
use observable_cafev.Chunk.Keys.{cafe_direct_to}
use observable_cafev.Session.{publish}
use observable_cafev.Registry.Steps.{here, next, published, updated, stay, move}
use observable_cafev.Bus.{Bus, Env}
use observable_cafev.Handlers.Publish.{tagged as with_source, direct, publish_to, handle_publish}
use observable_cafev.Client.Moves.{MovesIf, unmoved}

module _ ⦃P : Platform⦄ where
  registry-direct :
      (conn target id : String) (c : Chunk) (b : Bus)
      → (direct conn target id c b).registry ≡ b.registry
  unfolding direct
  registry-direct conn target id c b = ground arith

  publish_to-Moves :
      (env : Env) (conn id : String) (c : Chunk) (b : Bus) → MovesIf b (publish_to env conn id c b)
  publish_to-Moves env conn id c b = elim (Option-cases (get b.registry.sessions id)) [
    | inl missing ↦ unfold publish_to in rw (missing, publish_to) stay
    | inr (s, found) ↦ elim (Option-cases (publish env.now c s)) [
      | inl panic ↦ unfold publish_to in rw (found, publish_to, panic) tt
      | inr (t, done) ↦
          unfold publish_to in
          rw (found, publish_to, done)
            (move stay (updated id found (next here (published env.now c done))))
    ]
  ]

  pub handle_publish-Moves :
      (env : Env) (conn id : String) (c : Chunk) (b : Bus)
      → MovesIf b (handle_publish env conn id c b)
  handle_publish-Moves env conn id c b =
      elim (Option-cases (get_str (with_source conn c) cafe_direct_to)) [
        | inl shared ↦
            unfold handle_publish in
            rw (shared, handle_publish) (publish_to-Moves env conn id (with_source conn c) b)
        | inr (target, e) ↦
            unfold handle_publish in
            rw (e, handle_publish) (unmoved (registry-direct conn target id (with_source conn c) b))
      ]
