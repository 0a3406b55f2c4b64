-- ===== src/Client/Following/Arrival.antt =====
-- What a connection that follows under a filter is sent when a session is created.
use observable_cafev.Base.{
  ℕ, suc, ◌≡◌, refl, sym, ap, ◌∙◌, String, true, false, some, List, [], ◌∷◌, ◌++◌, arith, filter,
  map, length, append_assoc, append-nil, Bool-cases, ◌⊎◌, inl, inr,
}
use observable_cafev.Platform.{Platform}
use observable_cafev.Map.{get}
use observable_cafev.Chunk.{Chunk}
use observable_cafev.Envelope.{SubscribeFilter, ServerMessage, chunk, session_created}
use observable_cafev.Session.{Instant, SessionState, live, chunk_of, subscribe}
use observable_cafev.Session.Retained.{drain_retained_lem}
use observable_cafev.Filter.{chunk_matches_filter, session_matches_filter}
use observable_cafev.Registry.{put}
use observable_cafev.Bus.{Bus, send_msg, send_all}
use observable_cafev.Handlers.SubscribeAll.{
  selects, passes, snapshot_of, replay_filtered, replay_and_forward, on_created, on_event,
  forward_matching,
}
use observable_cafev.Client.Following.Selection.{
  Picks, filter-Picks, Passes, Selected, chunk_matches_filter_iff, session_matches_filter_iff,
}

module _ ⦃P : Platform⦄ where
  forward_matching_all :
      (i : ℕ) (f : SubscribeFilter) (id : String) (cs : List Chunk)
      → forward_matching (λ k. true) i (some f) id cs
        ≡ map (chunk id) (filter (λ c. chunk_matches_filter c f) cs)
  unfolding forward_matching passes
  forward_matching_all i f id [] = refl
  forward_matching_all i f id (c ∷ cs) =
      ground (arith, forward_matching_all i f id cs, forward_matching_all (suc i) f id cs)

  abbrev pub paired : String → ServerMessage → String × ServerMessage
  paired conn m = (conn, m)

  outbox-send_all :
      (conn : String) (ms : List ServerMessage) (b : Bus)
      → (send_all conn ms b).outbox ≡ b.outbox ++ map (paired conn) ms
  unfolding send_all send_msg
  outbox-send_all conn [] b = sym (append-nil b.outbox)
  outbox-send_all conn (m ∷ ms) b =
      outbox-send_all conn ms (send_msg conn m b)
      ∙ append_assoc b.outbox ((conn, m) ∷ []) (map (paired conn) ms)

  detached-send_all :
      (conn : String) (ms : List ServerMessage) (b : Bus)
      → (send_all conn ms b).detached ≡ b.detached
  unfolding send_all send_msg
  detached-send_all conn [] b = refl
  detached-send_all conn (m ∷ ms) b = detached-send_all conn ms (send_msg conn m b)

  one_by_one :
      (conn id : String) (cs : List Chunk)
      → map (paired conn) (map (chunk id) cs) ≡ map (λ c. paired conn (chunk id c)) cs
  one_by_one conn id [] = refl
  one_by_one conn id (c ∷ cs) = ap (λ l. (conn, chunk id c) ∷ l) (one_by_one conn id cs)

  in_one :
      (conn id : String) (cs ds : List Chunk)
      → map (paired conn) (map (chunk id) cs ++ map (chunk id) ds)
        ≡ map (λ c. paired conn (chunk id c)) (cs ++ ds)
  in_one conn id [] ds = one_by_one conn id ds
  in_one conn id (c ∷ cs) ds = ap (λ l. (conn, chunk id c) ∷ l) (in_one conn id cs ds)

  -- What a selected session is to its follower `conn`. `received` is what its receiver yields.
  pub record Follows (now : Instant) (conn id agent : String) (f : SubscribeFilter)
      (s : SessionState) (received : List Chunk) (b b' : Bus) : Type 0 where
    pub history : List Chunk
    pub retained : List Chunk
    pub forwarded : List Chunk
    pub from_history : Picks (Passes f) s.history history
    pub from_retained : Picks (Passes f) (map chunk_of (filter (live now) s.retained)) retained
    pub from_received : Picks (Passes f) received forwarded
    pub written :
        b'.outbox
        ≡ b.outbox
          ++ (conn, session_created id agent)
            ∷ map (λ c. paired conn (chunk id c)) (history ++ retained)
    pub task :
        b'.detached
        ≡ b.detached
          ++ record { conn = conn; session_id = id; position = length s.sent; filter = some f } ∷ []
    pub forwards : forward_matching (λ k. true) 0 (some f) id received ≡ map (chunk id) forwarded

  -- The bus once the creation has been announced, with the expired chunks gone.
  abbrev announced : Instant → String → String → ServerMessage → SessionState → Bus → Bus
  announced now conn id event s b = send_msg conn event (record b {
    registry = put b.registry id (record s { retained = filter (live now) s.retained });
  })

  on_event-selected :
      (now : Instant) (conn id agent : String) (f : SubscribeFilter) (s : SessionState) (b : Bus)
      → get b.registry.sessions id ≡ some s
      → session_matches_filter s f ≡ true
      → on_event now conn (some f) (session_created id agent) b
        ≡ replay_and_forward conn
            (some f)
            id
            s.history
            (map chunk_of (filter (live now) s.retained))
            (length s.sent)
            (announced now conn id (session_created id agent) s b)
  unfolding on_event on_created selects snapshot_of subscribe
  on_event-selected now conn id agent f s b found selected =
      rw (found, on_created, drain_retained_lem now s, selected) refl

  on_event-other :
      (now : Instant) (conn id agent : String) (f : SubscribeFilter) (s : SessionState) (b : Bus)
      → get b.registry.sessions id ≡ some s
      → session_matches_filter s f ≡ false
      → on_event now conn (some f) (session_created id agent) b ≡ b
  unfolding on_event on_created selects snapshot_of
  on_event-other now conn id agent f s b found other =
      rw (found, on_created, drain_retained_lem now s, other) refl

  replay_and_forward-Follows :
      (now : Instant) (conn id agent : String) (f : SubscribeFilter) (s : SessionState)
      (received : List Chunk) (b : Bus)
      → Follows now conn id agent f s received b (
          replay_and_forward conn
            (some f)
            id
            s.history
            (map chunk_of (filter (live now) s.retained))
            (length s.sent)
            (announced now conn id (session_created id agent) s b))
  unfolding replay_and_forward replay_filtered passes send_msg
  replay_and_forward-Follows now conn id agent f s received b = record {
    history = filter (λ c. chunk_matches_filter c f) s.history;
    retained = filter (λ c. chunk_matches_filter c f) (map chunk_of (filter (live now) s.retained));
    forwarded = filter (λ c. chunk_matches_filter c f) received;
    from_history = filter-Picks _ _ _ (λ c. chunk_matches_filter_iff c f);
    from_retained = filter-Picks _ _ _ (λ c. chunk_matches_filter_iff c f);
    from_received = filter-Picks _ _ _ (λ c. chunk_matches_filter_iff c f);
    written =
        outbox-send_all conn
          (replay_filtered (some f) id s.history (map chunk_of (filter (live now) s.retained)))
          (announced now conn id (session_created id agent) s b)
        ∙ append_assoc b.outbox ((conn, session_created id agent) ∷ []) (
            map (paired conn)
              (replay_filtered (some f) id s.history (map chunk_of (filter (live now) s.retained))))
        ∙ ap (λ l. b.outbox ++ (conn, session_created id agent) ∷ l)
            (in_one conn id (filter (λ c. chunk_matches_filter c f) s.history) (
              filter (λ c. chunk_matches_filter c f)
                (map chunk_of (filter (live now) s.retained))));
    task =
        ap
          (λ d.
            d
            ++ record { conn = conn; session_id = id; position = length s.sent; filter = some f }
              ∷ [])
          (detached-send_all conn
            (replay_filtered (some f) id s.history (map chunk_of (filter (live now) s.retained)))
            (announced now conn id (session_created id agent) s b));
    forwards = forward_matching_all 0 f id received;
  }

  -- A connection follows the bus under a filter, takes all writes, and its task learns that a session was
  -- created, which is still there. If the filter's demands on sessions select it, the connection is
  -- sent the event, and then exactly those chunks of the session's history, and then of its unexpired
  -- transient chunks, that the filter's demands on chunks let through, in order. A task is left that
  -- starts at the next chunk sent in the session; of what its receiver yields, it sends exactly the chunks
  -- that the filter lets through, in order. If the filter does not select the session, nothing happens.
  pub on_event_lem :
      (now : Instant) (conn id agent : String) (f : SubscribeFilter) (s : SessionState)
      (received : List Chunk) (b : Bus)
      → get b.registry.sessions id ≡ some s
      → (Selected f s
          × Follows now conn id agent f s received b
              (on_event now conn (some f) (session_created id agent) b))
        ⊎ ((¬ Selected f s) × (on_event now conn (some f) (session_created id agent) b ≡ b))
  on_event_lem now conn id agent f s received b found =
      elim (Bool-cases (session_matches_filter s f)) [
        | inl matches ↦ inl (
          (session_matches_filter_iff s f).0 matches,
          rw (on_event-selected now conn id agent f s b found matches)
              (replay_and_forward-Follows now conn id agent f s received b),
        )
        | inr fails ↦ inr (
          (λ selected. absurd (ground (arith, (session_matches_filter_iff s f).1 selected, fails))),
          on_event-other now conn id agent f s b found fails,
        )
      ]
