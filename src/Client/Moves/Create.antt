-- ===== src/Client/Moves/Create.antt =====
-- The registry under the handler of `CreateSession`.
use observable_cafev.Base.{
  ◌≡◌, refl, String, Bool, true, false, none, some, [], sym, ◌∙◌, subst, some_inj, and_then-some,
  Option-cases, Bool-cases, inl, inr, and_then, map_or, unwrap_or,
}
use observable_cafev.Platform.{Platform}
use observable_cafev.Chunk.{Chunk}
use observable_cafev.Tags.{validate_tags}
use observable_cafev.Envelope.{SessionConfig}
use observable_cafev.Session.{SessionState, Instant}
use observable_cafev.Session.Sound.{IsSound}
use observable_cafev.Registry.{contains}
use observable_cafev.Registry.Steps.{
  SessionSteps, here, next, published, inserted, stay, move, SessionSteps-IsSound,
  SessionSteps-session_id,
}
use observable_cafev.Bus.{Bus, Env}
use observable_cafev.Handlers.Notices.{make_tags_chunk, make_config_chunk}
use observable_cafev.Handlers.Sessions.{
  configured, publish_if, created, has_tags, has_config, insert_created, handle_create,
}
use observable_cafev.Client.Moves.{Moves, MovesIf}

module _ ⦃P : Platform⦄ where
  configured-IsSound :
      (id agent : String) (config : SessionConfig) → IsSound (configured id agent config)
  unfolding configured
  configured-IsSound id agent config = record { history = tt; retained = tt; subscribers = tt }

  publish_if-steps :
      (b : Bool) (now : Instant) (c : Chunk) (s : SessionState) {t : SessionState}
      → publish_if b now c s ≡ some t
      → SessionSteps s t
  publish_if-steps true now c s h = next here (published now c h)
  publish_if-steps false now c s h = subst (SessionSteps s) (some_inj h) here

  publish_if_again-steps :
      (b : Bool) (now : Instant) (c : Chunk) {s t u : SessionState}
      → SessionSteps s t
      → publish_if b now c t ≡ some u
      → SessionSteps s u
  publish_if_again-steps true now c steps h = next steps (published now c h)
  publish_if_again-steps false now c {s} steps h = subst (SessionSteps s) (some_inj h) steps

  session_id-configured :
      (id agent : String) (config : SessionConfig) → (configured id agent config).session_id ≡ id
  unfolding configured
  session_id-configured id agent config = refl

  created_lem :
      (env : Env) (id agent : String) (config : SessionConfig)
      → and_then
          (publish_if
            (has_config config)
            env.now
            (make_config_chunk (env.stamp 0) config)
            (configured id agent config))
          (publish_if
            (has_tags config)
            env.now
            (make_tags_chunk (env.stamp 1) (unwrap_or config.tags [])))
        ≡ created env id agent config
  unfolding created
  created_lem env id agent config = refl

  pub created-steps :
      (env : Env) (id agent : String) (config : SessionConfig) {s : SessionState}
      → created env id agent config ≡ some s
      → SessionSteps (configured id agent config) s
  created-steps env id agent config h =
      let (t, first, second) = and_then-some _ _ (created_lem env id agent config ∙ h) in
      publish_if_again-steps (has_tags config) env.now
        (make_tags_chunk (env.stamp 1) (unwrap_or config.tags []))
        (publish_if-steps (has_config config) env.now (make_config_chunk (env.stamp 0) config)
          (configured id agent config) first)
        second

  insert_created-Moves :
      (env : Env) (conn id agent : String) (config : SessionConfig) (b : Bus) {s : SessionState}
      → contains b.registry id ≡ false
      → created env id agent config ≡ some s
      → Moves b (insert_created conn agent s b)
  insert_created-Moves env conn id agent config b {s} free done =
      let steps = created-steps env id agent config done in
      let named : s.session_id ≡ id =
        SessionSteps-session_id steps ∙ session_id-configured id agent config in
      unfold insert_created in
      move stay (
        inserted s (subst (λ k. contains b.registry k ≡ false) (sym named) free)
          (SessionSteps-IsSound steps (configured-IsSound id agent config)))

  pub handle_create-Moves :
      (env : Env) (conn id agent : String) (config : SessionConfig) (b : Bus)
      → MovesIf b (handle_create env conn id agent config b)
  handle_create-Moves env conn id agent config b =
      elim (Option-cases (map_or config.tags none (validate_tags P.debug))) [
        | inr (e, invalid) ↦ unfold handle_create in rw (invalid, handle_create) stay
        | inl valid ↦ elim (Bool-cases (contains b.registry id)) [
          | inl taken ↦ unfold handle_create in rw (valid, handle_create, taken) stay
          | inr free ↦ elim (Option-cases (created env id agent config)) [
            | inl panic ↦ unfold handle_create in rw (valid, handle_create, free, panic) tt
            | inr (s, done) ↦
                unfold handle_create in
                rw (valid, handle_create, free, done)
                  (insert_created-Moves env conn id agent config b free done)
          ]
        ]
      ]
