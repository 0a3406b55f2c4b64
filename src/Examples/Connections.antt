-- ===== src/Examples/Connections.antt =====
-- Subscriptions, creations and runs of the bus at concrete inputs.
use observable_cafev.Base.{◌+◌, ◌≡◌, inr, refl, String, false, true, none, some, [], ◌∷◌, All}
use observable_cafev.Chunk.{
  Chunk, new_text, new_null, with_annotation, as_transient, with_retain, retain_secs, is_transient,
  get_str,
}
use observable_cafev.Envelope.{SessionConfig, error, create_session, ping}
use observable_cafev.Tags.{validate_tags, validate_tag}
use observable_cafev.Session
use observable_cafev.Session.{
  is_ephemeral, SessionState, SubscriberInfo, Instant, publish, publish_live, retain, add_secs,
  remove_chunk, delete_target, live, chunk_of,
}
use observable_cafev.Session.View.{Fits, publish_all}
use observable_cafev.Registry.{contains}
use observable_cafev.Registry.Consistent.{IsConsistent}
use observable_cafev.Registry.Events.{Tracks}
use observable_cafev.Bus.{Bus, Env, Conn, start}
use observable_cafev.Handlers.Sessions.{handle_create}
use observable_cafev.Handlers.Subscribe.{got, handle_subscribe}
use observable_cafev.Handlers.Disconnect.{disconnect}
use observable_cafev.Client.{handshake, handle}
use observable_cafev.Client.Run.{
  World, Reach, here, next, connects, waits, receives, disconnects, begin, Reach-IsConsistent,
  Reach-Tracks,
}
use observable_cafev.Client.Delivery.{
  Subscribed, subscribed, NoGap, subscribe_delivers, subscriber_stream,
}
use observable_cafev.Client.Creation.{Made, create_success, create_refused}
use observable_cafev.Examples.Plain.{plain}
use observable_cafev.Examples.Sessions.{
  at_start, a_bit_later, hello, typing, unsay, three, three-Fits, keeping,
}

abbrev pub env : Env
env = record { now = 2_000_000_000; stamp = λ n. at_start; accepts = λ k. true }

abbrev pub conn : Conn
conn = record { id = "c-1"; subscriber_tasks = [] }

abbrev pub bus : Bus
bus = record {
  registry = record { sessions = ("s", keeping) ∷ []; events = [] };
  connections = ("c-1", tt) ∷ ("c-2", tt) ∷ [];
  conn_meta = ("c-1", record { role = some "chat" }) ∷ [];
  outbox = [];
  timers = [];
  detached = [];
}

subscribe_delivers_example : Subscribed env "s" conn bus keeping (handle_subscribe env "s" conn bus)
subscribe_delivers_example = subscribe_delivers env "s" keeping conn bus (λ k. refl) refl

-- The session after the three chunks.
abbrev after_three : SessionState
after_three = record {
  session_id = "s";
  agent_id = "agent";
  history = [];
  sent = hello ∷ typing ∷ unsay ∷ [];
  retained = (typing, 6_000_000_000) ∷ [];
  subscribers = [];
  ephemeral = none;
  tags = [];
  parent_id = none;
}

-- The bus that holds it.
abbrev bus_three : Bus
bus_three = record bus { registry = record { sessions = ("s", after_three) ∷ []; events = [] } }

publish_three : publish_all three (Session.new "s" "agent") ≡ some after_three
unfolding publish_all publish publish_live retain add_secs remove_chunk delete_target is_transient
    retain_secs get_str new_text new_null with_annotation as_transient with_retain Session.new
publish_three = refl

abbrev answer : Chunk
answer = new_text a_bit_later "hi" "llm"

abbrev after_answer : SessionState
after_answer = record (subscribed env conn bus_three after_three) {
  history = answer ∷ [];
  sent = hello ∷ typing ∷ unsay ∷ answer ∷ [];
}

answer-Fits : All Fits ((2_000_000_000, answer) ∷ [])
unfolding new_text retain_secs is_transient
answer-Fits = (λ n h. absurd (cc h), tt)

publish_answer :
    publish_all ((2_000_000_000, answer) ∷ []) (subscribed env conn bus_three after_three)
    ≡ some after_answer
unfolding publish_all publish publish_live delete_target is_transient get_str new_text
publish_answer = refl

-- The session after the subscription.
abbrev joined :
    Subscribed env "s" conn bus_three after_three (handle_subscribe env "s" conn bus_three)
joined = subscribe_delivers env "s" after_three conn bus_three (λ k. refl) refl

subscriber_stream_example :
    NoGap env "s" conn bus_three three
      ((2_000_000_000, answer) ∷ [])
      (got answer ∷ [])
      (handle_subscribe env "s" conn bus_three)
subscriber_stream_example =
    subscriber_stream env "s" "agent" conn bus_three three ((2_000_000_000, answer) ∷ [])
      after_three (subscribed env conn bus_three after_three) after_answer (got answer ∷ [])
      (λ k. refl) three-Fits answer-Fits publish_three refl joined.session publish_answer refl

abbrev plain_config : SessionConfig
plain_config = record {
  backend = none;
  model = some "small";
  system_prompt = none;
  temperature = none;
  max_tokens = none;
  compaction_mode = none;
  max_history_messages = none;
  max_history_chars = none;
  tags = some ("work" ∷ []);
  ephemeral = some (record { keepalive_secs = 30; count_role = some "chat" });
}

work_valid : validate_tags (λ s. s) ("work" ∷ []) ≡ none
unfolding validate_tags validate_tag
work_valid = refl

create_success_example :
    (b' : Bus) × (handle_create env "c-1" "t" "agent" plain_config bus ≡ some b')
    × Made env "c-1" "t" "agent" plain_config bus b'
create_success_example = create_success env "c-1" "t" "agent" plain_config bus work_valid refl

create_refused_example :
    (message code : String) × (handle_create env "c-1" "s" "agent" plain_config bus
      ≡ some (record bus { outbox = ("c-1", error (some "s") message code) ∷ [] }))
create_refused_example = create_refused env "c-1" "s" "agent" plain_config bus (inr refl)

-- A connection arrives, creates a session, time passes, and the connection ends.
abbrev arrived : Conn × Bus
arrived = handshake false "c-1" ping (begin 0).bus

abbrev early : Env
early = record { now = 0; stamp = λ n. at_start; accepts = λ k. true }

arrived_free : contains arrived.1.registry "t" ≡ false
unfolding handshake start
arrived_free = refl

abbrev creation :
    (b' : Bus) × (handle_create early arrived.0.id "t" "agent" plain_config arrived.1 ≡ some b')
    × Made early arrived.0.id "t" "agent" plain_config arrived.1 b'
creation =
    create_success early arrived.0.id "t" "agent" plain_config arrived.1 work_valid arrived_free

received :
    handle early (create_session "t" "agent" plain_config) arrived.0 arrived.1
    ≡ some (arrived.0, creation.0)
unfolding handle
received = rw creation.1 refl

abbrev last_world : World
last_world = record { bus = disconnect (0 + 5) arrived.0 creation.0; conns = []; now = 0 + 5 }

some_run : Reach (begin 0) last_world
unfolding start
some_run =
    next
      (next
        (next (next here (connects false "c-1" ping refl)) (
          receives early (create_session "t" "agent" plain_config) [] arrived.0 [] refl refl
            received))
        (waits 5))
      (disconnects [] arrived.0 [] refl)

Reach-IsConsistent_example : IsConsistent last_world.bus.registry
Reach-IsConsistent_example = Reach-IsConsistent 0 last_world some_run

Reach-Tracks_example : Tracks last_world.bus.registry
Reach-Tracks_example = Reach-Tracks 0 last_world some_run
