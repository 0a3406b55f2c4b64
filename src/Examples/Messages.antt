-- ===== src/Examples/Messages.antt =====
-- Publications, filters and departures at concrete inputs.
use observable_cafev.Base.{◌≡◌, ◌↔◌, ◌⊎◌, refl, false, true, none, some, [], ◌∷◌, All}
use observable_cafev.Map.{get}
use observable_cafev.Chunk.{Chunk, new_text, with_annotation, retain_secs, is_transient, get_str}
use observable_cafev.Chunk.Keys.{cafe_direct_to}
use observable_cafev.Handlers.SubscribeAll.{on_event}
use observable_cafev.Envelope.{EphemeralConfig, SubscribeFilter, session_created}
use observable_cafev.Session
use observable_cafev.Session.{
  is_ephemeral, SessionState, SubscriberInfo, Instant, publish, publish_live, retain, add_secs,
  remove_chunk, delete_target, live, chunk_of,
}
use observable_cafev.Session.View.{Fits}
use observable_cafev.Registry.{SessionRegistry, fire}
use observable_cafev.Bus.{forward_chunks, Bus, Conn}
use observable_cafev.Handlers.Publish.{handle_publish, tagged}
use observable_cafev.Handlers.Disconnect.{leave, disconnect}
use observable_cafev.Client.{select_codec}
use observable_cafev.Client.Negotiation.{PrefersBincode, select_codec_iff}
use observable_cafev.Client.Publication.{Shared, Directed, publish_into, publish_direct}
use observable_cafev.Client.Departure.{Unattended, Deleted, fire_lem}
use observable_cafev.Client.Departure.Persistent.{Outlives, disconnect-Outlives}
use observable_cafev.Client.Departure.Leaving.{Leaves, leave-Leaves}
use observable_cafev.Client.Following.{Carries, annotations_match_iff}
use observable_cafev.Client.Following.Selection.{Selected}
use observable_cafev.Client.Following.Arrival.{Follows, on_event_lem}
use observable_cafev.Filter.{annotations_match}
use observable_cafev.Examples.Plain.{plain, string, bool}
use observable_cafev.Examples.Sessions.{hello, keeping}
use observable_cafev.Examples.Connections.{env, bus}

abbrev chat_only : EphemeralConfig
chat_only = record { keepalive_secs = 30; count_role = some "chat" }

-- An ephemeral session with one counted subscriber and one that does not count.
abbrev watched : SessionState
watched = record keeping {
  ephemeral = some chat_only;
  subscribers =
      ("c-1", record { conn_id = "c-1"; role = some "chat" })
      ∷ ("c-2", record { conn_id = "c-2"; role = none })
      ∷ [];
}

abbrev watching : SessionRegistry
watching = record { sessions = ("s", watched) ∷ []; events = [] }

leave-Leaves_example :
    Leaves 5 "c-1" "s" chat_only watched watching [] (leave 5 "c-1" "s" watching [])
leave-Leaves_example = leave-Leaves 5 "c-1" "s" chat_only watched watching [] refl refl

fire_lem_example :
    (Unattended watching "s" × Deleted "s" watching (fire watching "s"))
    ⊎ (¬ Unattended watching "s" × (fire watching "s" ≡ watching))
fire_lem_example = fire_lem watching "s"

hello_shared : get_str hello cafe_direct_to ≡ none
unfolding get_str new_text
hello_shared = refl

hello-Fits : Fits (2_000_000_000, tagged "c-1" hello)
unfolding tagged with_annotation new_text retain_secs is_transient
hello-Fits n h = absurd (cc h)

publish_into_example :
    (b' : Bus) × (handle_publish env "c-1" "s" hello bus ≡ some b')
    × Shared env "c-1" "s" hello bus keeping b'
publish_into_example = publish_into env "c-1" "s" hello bus keeping refl hello_shared hello-Fits

abbrev whisper : Chunk
whisper = with_annotation hello cafe_direct_to (string "c-2")

whisper_direct : get_str whisper cafe_direct_to ≡ some "c-2"
unfolding get_str new_text with_annotation
whisper_direct = refl

publish_direct_example :
    (b' : Bus) × (handle_publish env "c-1" "s" whisper bus ≡ some b')
    × Directed "c-1" "c-2" "s" whisper bus b'
publish_direct_example = publish_direct env "c-1" "c-2" "s" whisper bus whisper_direct

annotations_match_iff_example :
    (annotations_match whisper ((cafe_direct_to, string "c-2") ∷ ("hidden", bool false) ∷ [])
      ≡ true)
    ↔ All (Carries whisper) ((cafe_direct_to, string "c-2") ∷ ("hidden", bool false) ∷ [])
annotations_match_iff_example =
    annotations_match_iff whisper ((cafe_direct_to, string "c-2") ∷ ("hidden", bool false) ∷ [])

abbrev only_direct : SubscribeFilter
only_direct = record {
  sessions = none;
  agents = none;
  content_types = none;
  annotations = some ((cafe_direct_to, string "c-2") ∷ []);
  tags = none;
  tags_exclude = none;
}

on_event_lem_example :
    (Selected only_direct keeping
      × Follows 5 "c-1" "s" "agent" only_direct keeping
          (whisper ∷ hello ∷ [])
          bus
          (on_event 5 "c-1" (some only_direct) (session_created "s" "agent") bus))
    ⊎ ((¬ Selected only_direct keeping)
        × (on_event 5 "c-1" (some only_direct) (session_created "s" "agent") bus ≡ bus))
on_event_lem_example =
    on_event_lem 5 "c-1" "s" "agent" only_direct keeping (whisper ∷ hello ∷ []) bus refl

persistent : is_ephemeral keeping ≡ false
unfolding is_ephemeral Session.new
persistent = refl

abbrev subscriber : Conn
subscriber = record { id = "c-1"; subscriber_tasks = ("s", forward_chunks "s" 0) ∷ [] }

disconnect-Outlives_example :
    (t : SessionState) × (get (disconnect 5 subscriber bus).registry.sessions "s" ≡ some t)
    × Outlives "c-1" keeping t
disconnect-Outlives_example = disconnect-Outlives 5 subscriber bus "s" keeping refl persistent

select_codec_iff_example :
    ((select_codec true ("cbor" ∷ "bincode" ∷ "json" ∷ []) ≡ "bincode")
      ↔ ((true ≡ true) × PrefersBincode ("cbor" ∷ "bincode" ∷ "json" ∷ [])))
    × ((select_codec true ("cbor" ∷ "bincode" ∷ "json" ∷ []) ≡ "json")
        ⊎ (select_codec true ("cbor" ∷ "bincode" ∷ "json" ∷ []) ≡ "bincode"))
select_codec_iff_example = select_codec_iff true ("cbor" ∷ "bincode" ∷ "json" ∷ [])
