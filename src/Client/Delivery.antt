-- ===== src/Client/Delivery.antt =====
-- What a subscriber receives: the replay at `Subscribe`, and the chunks that are forwarded afterwards.
use observable_cafev.Base.{
  ℕ, suc, ◌+◌, ◌≡◌, refl, String, Bool, true, some, List, [], ◌∷◌, ◌++◌, map, append_assoc,
  append-nil, arith, ap, sym, ◌∙◌, subst, some_inj, filter, length, drop, drop-length, All, eq_refl,
}
use observable_cafev.Platform.{Platform}
use observable_cafev.Map
use observable_cafev.Map.{get, get-insert}
use observable_cafev.Chunk.{Chunk}
use observable_cafev.Envelope.{ServerMessage, chunk, history_complete}
use observable_cafev.Session
use observable_cafev.Session.{
  SessionState, SubscriberInfo, Instant, live, chunk_of, add_subscriber, drain_retained,
}
use observable_cafev.Session.View.{Published, visible, kept, publish_all, Fits, Replays}
use observable_cafev.Session.Replay.{publish_all-Replays}
use observable_cafev.Session.Retained.{drain_retained_lem}
use observable_cafev.Bus.{Bus, Env, Conn, forward_chunks, send_msg, send_all}
use observable_cafev.Handlers.Subscribe.{
  Recv, got, write_until, conn_role, replay, subscribe_to, handle_subscribe, forward_live,
}

module _ ⦃P : Platform⦄ where
  write_until_all :
      (accepts : ℕ → Bool) (i : ℕ) (ms : List ServerMessage)
      → ((k : ℕ) → accepts k ≡ true)
      → (write_until accepts i ms).0 ≡ ms
  unfolding write_until
  write_until_all accepts i [] h = refl
  write_until_all accepts i (m ∷ ms) h = ground (arith, h i, write_until_all accepts (suc i) ms h)

  -- The messages of a whole replay.
  abbrev pub replayed : String → List Chunk → List Chunk → List ServerMessage
  replayed id history retained =
      map (chunk id) history
      ++ (map (chunk id) retained ++ history_complete id (length history + length retained) ∷ [])

  replay_all :
      (accepts : ℕ → Bool) (id : String) (history retained : List Chunk)
      → ((k : ℕ) → accepts k ≡ true)
      → replay accepts id history retained ≡ (replayed id history retained, true)
  unfolding replay
  replay_all accepts id history retained h =
      let first = write_until accepts 0 (map (chunk id) history) in
      let second = write_until accepts first.1 (map (chunk id) retained) in
      ground (
        arith,
        write_until_all accepts 0 (map (chunk id) history) h,
        write_until_all accepts first.1 (map (chunk id) retained) h,
        h second.1,
      )

  pub send_all_lem :
      (conn : String) (ms : List ServerMessage) (b : Bus)
      → send_all conn ms b
        ≡ record b { outbox = b.outbox ++ map (λ (m : ServerMessage). (conn, m)) ms }
  unfolding send_all
  send_all_lem conn [] b =
      ap (λ (l : List (String × ServerMessage)). record b { outbox = l })
        (sym (append-nil b.outbox))
  send_all_lem conn (m ∷ ms) b =
      send_all_lem conn ms (send_msg conn m b)
      ∙ ap (λ (l : List (String × ServerMessage)). record b { outbox = l })
          (append_assoc b.outbox ((conn, m) ∷ []) (map (λ (x : ServerMessage). (conn, x)) ms))

  -- The session after a subscription: the subscriber is entered, and what had expired is gone.
  abbrev pub subscribed : Env → Conn → Bus → SessionState → SessionState
  subscribed env conn b s = record s {
    subscribers =
        Map.insert s.subscribers conn.id (record { conn_id = conn.id; role = conn_role conn.id b });
    retained = filter (live env.now) s.retained;
  }

  pub record Subscribed (env : Env) (id : String) (conn : Conn) (b : Bus) (s : SessionState)
      (r : Conn × Bus) : Type 0 where
    pub written :
        r.1.outbox
        ≡ b.outbox
          ++ map
              (λ (m : ServerMessage). (conn.id, m))
              (replayed id s.history (map chunk_of (filter (live env.now) s.retained)))
    pub task :
        r.0.subscriber_tasks ≡ conn.subscriber_tasks ++ (id, forward_chunks id (length s.sent)) ∷ []
    pub session : get r.1.registry.sessions id ≡ some (subscribed env conn b s)
    pub events : r.1.registry.events ≡ b.registry.events

  subscribe_to_lem :
      (env : Env) (id : String) (s : SessionState) (conn : Conn) (b : Bus)
      → ((k : ℕ) → env.accepts k ≡ true)
      → Subscribed env id conn b s (subscribe_to env id s conn b)
  unfolding subscribe_to add_subscriber Session.subscribe
  subscribe_to_lem env id s conn b alive =
      simp
        (
          drain_retained_lem,
          replay_all env.accepts id s.history (map chunk_of (filter (live env.now) s.retained))
              alive,
          send_all_lem,
        )
        (record {
          written = refl;
          task = refl;
          session = simp (get-insert, eq_refl);
          events = refl;
        })

  -- Subscribing to a session that exists, with a connection that takes all writes: the connection is
  -- sent the history, then the transient chunks that have not expired, oldest first, then the end of
  -- the replay with their number, and nothing else. It is entered as a subscriber with its declared
  -- role, its receiver starts at what the session sends next, the rest of the session stays as it
  -- was but for expired chunks, and no registry event is emitted.
  pub subscribe_delivers :
      (env : Env) (id : String) (s : SessionState) (conn : Conn) (b : Bus)
      → ((k : ℕ) → env.accepts k ≡ true)
      → get b.registry.sessions id ≡ some s
      → Subscribed env id conn b s (handle_subscribe env id conn b)
  subscribe_delivers env id s conn b alive found =
      unfold handle_subscribe in
      rw (found, handle_subscribe) (subscribe_to_lem env id s conn b alive)

  forward_live_all :
      (i : ℕ) (id : String) (cs : List Chunk)
      → forward_live (λ k. true) i id (map got cs) ≡ map (chunk id) cs
  unfolding forward_live
  forward_live_all i id [] = refl
  forward_live_all i id (c ∷ cs) =
      ap (λ (l : List ServerMessage). chunk id c ∷ l) (forward_live_all (suc i) id cs)

  -- What a session has after a run of publications that did not panic.
  replays :
      (cs : List Published) (s : SessionState) {t : SessionState}
      → All Fits cs
      → publish_all cs s ≡ some t
      → Replays cs s t
  replays cs s fits h =
      let (t', done, r) = publish_all-Replays cs s fits in
      subst (Replays cs s) (some_inj (sym done ∙ h)) r

  -- What a connection is sent from its subscription on: at once, and by the forwarding task over what
  -- its receiver yields.
  pub record NoGap (env : Env) (id : String) (conn : Conn) (b : Bus) (before later : List Published)
      (received : List Recv) (r : Conn × Bus) : Type 0 where
    pub at_once :
        r.1.outbox
        ≡ b.outbox
          ++ map
              (λ (m : ServerMessage). (conn.id, m))
              (replayed id (visible before) (map chunk_of (filter (live env.now) (kept before))))
    pub forwards :
        r.0.subscriber_tasks ≡ conn.subscriber_tasks ++ (id, forward_chunks id (length before)) ∷ []
    pub live_on :
        forward_live (λ k. true) 0 id received ≡ map (chunk id) (map (λ (e : Published). e.1) later)

  length-map : {A : Type 0} {B : Type 0} (f : A → B) (xs : List A) → length (map f xs) ≡ length xs
  length-map f [] = refl
  length-map f (x ∷ xs) = omega (arith, length-map f xs)

  forwarded_lem :
      (id : String) (s t u : SessionState) (later : List Published) (received : List Recv)
      → t.sent ≡ s.sent
      → Replays later t u
      → received ≡ map got (drop (length s.sent) u.sent)
      → forward_live (λ k. true) 0 id received ≡ map (chunk id) (map (λ (e : Published). e.1) later)
  forwarded_lem id s t u later received same future e =
      rw (e, future.sent, same, drop-length, forward_live_all)

  -- Between the replay and the forwarded chunks nothing is lost and nothing comes twice. A new session
  -- takes the publications `before`, a connection that takes all writes subscribes to it on a bus
  -- that holds it, and the session then takes the publications `later`; no retention period among them
  -- overflows the clock. At once, the connection is sent the chunks of `before` that the abstract
  -- view keeps, and the end of the replay. Its forwarding task starts after the chunks of `before`.
  -- If the receiver yields what was sent since, in order, the task sends exactly the chunks of
  -- `later`, in order.
  pub subscriber_stream :
      (env : Env) (id agent : String) (conn : Conn) (b : Bus) (before later : List Published)
      (s t u : SessionState) (received : List Recv)
      → ((k : ℕ) → env.accepts k ≡ true)
      → All Fits before
      → All Fits later
      → publish_all before (Session.new id agent) ≡ some s
      → get b.registry.sessions id ≡ some s
      → get (handle_subscribe env id conn b).1.registry.sessions id ≡ some t
      → publish_all later t ≡ some u
      → received ≡ map got (drop (length s.sent) u.sent)
      → NoGap env id conn b before later received (handle_subscribe env id conn b)
  subscriber_stream env id agent conn b before later s t u received alive fits more first found
        there second e =
      let past : Replays before (Session.new id agent) s =
        replays before (Session.new id agent) fits first in
      let history : s.history ≡ visible before = unfold Session.new in past.history in
      let retained : s.retained ≡ kept before = unfold Session.new in past.retained in
      let sent : s.sent ≡ map (λ (e : Published). e.1) before = unfold Session.new in past.sent in
      let count : length s.sent ≡ length before =
        rw sent (length-map (λ (e : Published). e.1) before) in
      let d = subscribe_delivers env id s conn b alive found in
      let same : t ≡ subscribed env conn b s = some_inj (sym there ∙ d.session) in
      record {
        at_once =
            subst
              (λ (h : List Chunk).
                (handle_subscribe env id conn b).1.outbox
                ≡ b.outbox
                  ++ map (λ (m : ServerMessage). (conn.id, m))
                      (replayed id h (map chunk_of (filter (live env.now) (kept before)))))
              history
              (subst
                (λ (r : List (Chunk × Instant)).
                  (handle_subscribe env id conn b).1.outbox
                  ≡ b.outbox
                    ++ map (λ (m : ServerMessage). (conn.id, m))
                        (replayed id s.history (map chunk_of (filter (live env.now) r))))
                retained d.written);
        forwards = d.task ∙ rw count refl;
        live_on =
            forwarded_lem id s t u later received (ap (λ (x : SessionState). x.sent) same)
              (replays later t more second) e;
      }
