-- ===== src/Client/Creation.antt =====
-- What `CreateSession` does, on each of its ways.
use observable_cafev.Base.{
  ◌≡◌, refl, String, Bool, true, false, Option, none, some, List, [], ◌∷◌, ◌++◌, ◌==◌, eq_refl,
  Option-cases, inl, inr, if◌then◌else◌, and_then, map_or, ◌⊎◌, unwrap_or, push_str, append_assoc,
  append-nil,
}
use observable_cafev.Platform.{Platform}
use observable_cafev.Map.{get, get-insert}
use observable_cafev.Chunk.{Chunk, Stamp, get_str, with_annotation, new_null, is_transient}
use observable_cafev.Chunk.Keys.{cafe_flow_signal, cafe_transient}
use observable_cafev.Tags.{CafeError, validate_tags, to_string, error_code}
use observable_cafev.Envelope.{SessionConfig, error, session_created}
use observable_cafev.Session
use observable_cafev.Session.{SessionState, Instant, delete_target, publish}
use observable_cafev.Session.Publish.{publish_append, after_append}
use observable_cafev.Registry.{contains, insert}
use observable_cafev.Bus.{Bus, Env}
use observable_cafev.Handlers.Notices.{annotate, make_config_chunk, make_tags_chunk}
use observable_cafev.Handlers.Sessions.{
  publish_if, has_config, has_tags, configured, created, insert_created, handle_create,
}

module _ ⦃P : Platform⦄ where
  pub get-annotate {ℓ} :
      {A : Type ℓ} (key : String) (value : A → P.Value) (o : Option A) (c : Chunk) (j : String)
      → (key == j) ≡ false
      → get (annotate key value o c).annotations j ≡ get c.annotations j
  unfolding annotate with_annotation
  get-annotate key value none c j h = refl
  get-annotate key value (some a) c j h = simp (get-insert, h)

  get-make_config_chunk :
      (st : Stamp) (config : SessionConfig)
      → (get (make_config_chunk st config).annotations cafe_flow_signal ≡ none)
        × (get (make_config_chunk st config).annotations cafe_transient ≡ none)
  unfolding make_config_chunk new_null with_annotation
  get-make_config_chunk st config = (simp get-annotate, simp get-annotate)

  get-make_tags_chunk :
      (st : Stamp) (tags : List String)
      → (get (make_tags_chunk st tags).annotations cafe_flow_signal ≡ none)
        × (get (make_tags_chunk st tags).annotations cafe_transient ≡ none)
  unfolding make_tags_chunk new_null with_annotation
  get-make_tags_chunk st tags = (refl, refl)

  -- A chunk without a signal and without the transient mark is appended to the history.
  publish_plain :
      (now : Instant) (c : Chunk) (s : SessionState)
      → (get c.annotations cafe_flow_signal ≡ none) × (get c.annotations cafe_transient ≡ none)
      → publish now c s ≡ some (after_append now c s)
  unfolding delete_target is_transient get_str
  publish_plain now c s (calm, lasting) =
      publish_append now c s (unfold delete_target get_str in rw (calm, delete_target, get_str))
        (unfold is_transient in rw (lasting, is_transient))

  -- The chunks that the bus itself writes into a new session.
  abbrev pub notices : Env → SessionConfig → List Chunk
  notices env config =
      (if has_config config then make_config_chunk (env.stamp 0) config ∷ [] else [])
      ++ (if has_tags config
          then make_tags_chunk (env.stamp 1) (unwrap_or config.tags []) ∷ []
          else [])

  -- The session that must come of it.
  abbrev pub fresh : Env → String → String → SessionConfig → SessionState
  fresh env id agent config = record {
    session_id = id;
    agent_id = agent;
    history = notices env config;
    sent = notices env config;
    retained = [];
    subscribers = [];
    ephemeral = config.ephemeral;
    tags = unwrap_or config.tags [];
    parent_id = none;
  }

  publish_two :
      (first second : Bool) (now : Instant) (c d : Chunk) (s : SessionState)
      → ((t : SessionState) → publish now c t ≡ some (after_append now c t))
      → ((t : SessionState) → publish now d t ≡ some (after_append now d t))
      → and_then (publish_if first now c s) (publish_if second now d)
        ≡ some (record s {
          history =
              s.history ++ ((if first then c ∷ [] else []) ++ (if second then d ∷ [] else []));
          sent = s.sent ++ ((if first then c ∷ [] else []) ++ (if second then d ∷ [] else []));
        })
  publish_two true true now c d s p q = simp (p, q, append_assoc)
  publish_two true false now c d s p q = simp p
  publish_two false true now c d s p q = simp q
  publish_two false false now c d s p q = simp append-nil

  tags_kept :
      (tags : Option (List String)) (config : SessionConfig)
      → config.tags ≡ tags
      → (if has_tags config then unwrap_or config.tags [] else []) ≡ unwrap_or config.tags []
  unfolding has_tags
  tags_kept none config h = rw h
  tags_kept (some []) config h = rw h
  tags_kept (some (t ∷ ts)) config h = rw h

  created-fresh :
      (env : Env) (id agent : String) (config : SessionConfig)
      → created env id agent config ≡ some (fresh env id agent config)
  unfolding created configured Session.new
  created-fresh env id agent config = rw (
    publish_two (has_config config) (has_tags config) env.now
        (make_config_chunk (env.stamp 0) config)
        (make_tags_chunk (env.stamp 1) (unwrap_or config.tags [])) (configured id agent config)
        (λ t.
          publish_plain env.now (make_config_chunk (env.stamp 0) config) t
            (get-make_config_chunk (env.stamp 0) config))
        (λ t.
          publish_plain env.now (make_tags_chunk (env.stamp 1) (unwrap_or config.tags [])) t
            (get-make_tags_chunk (env.stamp 1) (unwrap_or config.tags []))),
    tags_kept config.tags config refl,
  )

  -- The bus after a session was created.
  pub record Made (env : Env) (conn id agent : String) (config : SessionConfig) (b b' : Bus)
      : Type 0 where
    pub session : get b'.registry.sessions id ≡ some (fresh env id agent config)
    pub others :
        (j : String) → (id == j) ≡ false → get b'.registry.sessions j ≡ get b.registry.sessions j
    pub event : b'.registry.events ≡ b.registry.events ++ session_created id agent ∷ []
    pub reply : b'.outbox ≡ b.outbox ++ (conn, session_created id agent) ∷ []

  insert_created-Made :
      (env : Env) (conn id agent : String) (config : SessionConfig) (b : Bus)
      → Made env conn id agent config b (insert_created conn agent (fresh env id agent config) b)
  unfolding insert_created insert
  insert_created-Made env conn id agent config b = record {
    session = simp (get-insert, eq_refl);
    others = λ j other. simp (get-insert, other);
    event = refl;
    reply = refl;
  }

  -- Creating a session with a new id and with tags that are valid, if any: the handler does not
  -- panic. The session is entered under its id with the configured tags and lifetime and without a
  -- subscriber; its history holds the configuration chunk if a backend, a model or a prompt is given,
  -- then the tags chunk if there are tags, and nothing else. The other sessions stay, one event
  -- tells of the new one, and the connection is told.
  pub create_success :
      (env : Env) (conn id agent : String) (config : SessionConfig) (b : Bus)
      → map_or config.tags none (validate_tags P.debug) ≡ none
      → contains b.registry id ≡ false
      → (b' : Bus) × (handle_create env conn id agent config b ≡ some b')
        × Made env conn id agent config b b'
  create_success env conn id agent config b valid free = (
    insert_created conn agent (fresh env id agent config) b,
    unfold handle_create in rw (valid, handle_create, free, created-fresh env id agent config),
    insert_created-Made env conn id agent config b,
  )

  -- Creating a session with invalid tags or with an id that is in use: nothing changes but that the
  -- connection is sent one error, about this session.
  pub create_refused :
      (env : Env) (conn id agent : String) (config : SessionConfig) (b : Bus)
      → ((e : CafeError) × (map_or config.tags none (validate_tags P.debug) ≡ some e))
        ⊎ (contains b.registry id ≡ true)
      → (message code : String) × (handle_create env conn id agent config b
          ≡ some (record b { outbox = b.outbox ++ (conn, error (some id) message code) ∷ [] }))
  create_refused env conn id agent config b (inl (e, invalid)) =
      (to_string e, error_code e, unfold handle_create in rw (invalid, handle_create))
  create_refused env conn id agent config b (inr taken) =
      elim (Option-cases (map_or config.tags none (validate_tags P.debug))) [
        | inr (e, invalid) ↦
            (to_string e, error_code e, unfold handle_create in rw (invalid, handle_create))
        | inl valid ↦ (
          push_str "Session already exists: " id,
          "SESSION_EXISTS",
          unfold handle_create in rw (valid, handle_create, taken),
        )
      ]
