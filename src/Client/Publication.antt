-- ===== src/Client/Publication.antt =====
-- What a client's `Publish` does: to the session, to one connection, and to nothing else.
use observable_cafev.Base.{
  ◌≡◌, refl, String, true, false, none, some, [], ◌∷◌, ◌++◌, arith, ◌==◌, eq_refl, push_str, ◌∙◌,
}
use observable_cafev.Platform.{Platform}
use observable_cafev.Map.{get, contains_key, get-insert}
use observable_cafev.Chunk.{Chunk, get_str, with_annotation}
use observable_cafev.Chunk.Keys.{cafe_direct_to, cafe_source_connection}
use observable_cafev.Envelope.{chunk, error}
use observable_cafev.Session.View.{Fits, Replays}
use observable_cafev.Session.Replay.{publish_one}
use observable_cafev.Session.{SessionState, publish}
use observable_cafev.Registry.{put}
use observable_cafev.Bus.{Bus, Env}
use observable_cafev.Handlers.Publish.{tagged, direct, publish_to, handle_publish}

module _ ⦃P : Platform⦄ where
  -- What the connection's name replaces, and what it leaves.
  get_str-tagged_source :
      (conn : String) (c : Chunk) → get_str (tagged conn c) cafe_source_connection ≡ some conn
  unfolding tagged get_str with_annotation
  get_str-tagged_source conn c = simp (get-insert, P.as_str-string)

  get_str-tagged :
      (conn : String) (c : Chunk) (key : String)
      → (cafe_source_connection == key) ≡ false
      → get_str (tagged conn c) key ≡ get_str c key
  unfolding tagged get_str with_annotation
  get_str-tagged conn c key other = simp (get-insert, other)

  -- The bus after a publication into a session that exists.
  pub record Shared (env : Env) (conn id : String) (c : Chunk) (b : Bus) (s : SessionState)
      (b' : Bus) : Type 0 where
    pub source : get_str (tagged conn c) cafe_source_connection ≡ some conn
    pub session :
        (t : SessionState) × (get b'.registry.sessions id ≡ some t)
        × Replays ((env.now, tagged conn c) ∷ []) s t
    pub others :
        (j : String) → (id == j) ≡ false → get b'.registry.sessions j ≡ get b.registry.sessions j
    pub outbox : b'.outbox ≡ b.outbox

  publish_to_lem :
      (env : Env) (conn id : String) (c : Chunk) (b : Bus) (s t : SessionState)
      → get b.registry.sessions id ≡ some s
      → publish env.now (tagged conn c) s ≡ some t
      → publish_to env conn id (tagged conn c) b
        ≡ some (record b { registry = put b.registry id t })
  unfolding publish_to
  publish_to_lem env conn id c b s t found done = rw (found, publish_to, done)

  handle_publish-shared :
      (env : Env) (conn id : String) (c : Chunk) (b : Bus)
      → get_str c cafe_direct_to ≡ none
      → handle_publish env conn id c b ≡ publish_to env conn id (tagged conn c) b
  unfolding handle_publish
  handle_publish-shared env conn id c b h =
      rw (get_str-tagged conn c cafe_direct_to refl ∙ h, handle_publish)

  -- A publication into a session that exists, of a chunk that is for no single connection and whose
  -- retention period does not overflow the clock: the handler does not panic. The session takes the
  -- chunk as the abstract view says, with the sender's connection as its source, whatever source the
  -- client wrote on it. No other session changes, and no message is written to any connection.
  pub publish_into :
      (env : Env) (conn id : String) (c : Chunk) (b : Bus) (s : SessionState)
      → get b.registry.sessions id ≡ some s
      → get_str c cafe_direct_to ≡ none
      → Fits (env.now, tagged conn c)
      → (b' : Bus) × (handle_publish env conn id c b ≡ some b') × Shared env conn id c b s b'
  publish_into env conn id c b s found shared fits =
      let (t, done, r) = publish_one env.now (tagged conn c) s fits in
      (
        record b { registry = put b.registry id t },
        handle_publish-shared env conn id c b shared
            ∙ publish_to_lem env conn id c b s t found done,
        record {
          source = get_str-tagged_source conn c;
          session = (t, simp (get-insert, eq_refl), r);
          others = λ j other. simp (get-insert, other);
          outbox = refl;
        },
      )

  -- A chunk is another one, but that it names the connection that it came from.
  pub record IsFrom (conn : String) (c sent : Chunk) : Type 0 where
    pub source : get_str sent cafe_source_connection ≡ some conn
    pub others :
        (key : String)
        → (cafe_source_connection == key) ≡ false
        → get sent.annotations key ≡ get c.annotations key
    pub rest : sent ≡ record c { annotations = sent.annotations }

  tagged-IsFrom : (conn : String) (c : Chunk) → IsFrom conn c (tagged conn c)
  unfolding tagged with_annotation
  tagged-IsFrom conn c = record {
    source = get_str-tagged_source conn c;
    others = λ key other. simp (get-insert, other);
    rest = refl;
  }

  -- The bus after a publication to one connection.
  pub record Directed (conn target id : String) (c : Chunk) (b b' : Bus) : Type 0 where
    pub registry : b'.registry ≡ b.registry
    pub reaches :
        contains_key b.connections target ≡ true
        → (sent : Chunk) × (b'.outbox ≡ b.outbox ++ (target, chunk id sent) ∷ [])
          × IsFrom conn c sent
    pub misses :
        contains_key b.connections target ≡ false
        → b'.outbox
          ≡ b.outbox
            ++ (
              conn,
              error (some id) (push_str "Target connection not found: " target) "TARGET_NOT_FOUND",
            )
              ∷ []

  direct-Directed :
      (conn target id : String) (c : Chunk) (b : Bus)
      → Directed conn target id c b (direct conn target id (tagged conn c) b)
  unfolding direct
  direct-Directed conn target id c b = record {
    registry = ground arith;
    reaches = λ h. (tagged conn c, rw (h) refl, tagged-IsFrom conn c);
    misses = λ h. rw h;
  }

  -- A chunk that names a connection in `cafe.direct_to` never enters a session: the registry stays as
  -- it was. One message is written. If the named connection is open, that connection gets the chunk with
  -- the sender's connection as its source, whatever source the client wrote on it, and otherwise as the
  -- client wrote it. If it is not open, the sender gets an error.
  pub publish_direct :
      (env : Env) (conn target id : String) (c : Chunk) (b : Bus)
      → get_str c cafe_direct_to ≡ some target
      → (b' : Bus) × (handle_publish env conn id c b ≡ some b') × Directed conn target id c b b'
  publish_direct env conn target id c b h = (
    direct conn target id (tagged conn c) b,
    unfold handle_publish in rw (get_str-tagged conn c cafe_direct_to refl ∙ h, handle_publish),
    direct-Directed conn target id c b,
  )
