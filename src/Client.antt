-- ===== src/Client.antt =====
-- `client_loop` and the handshake of `handle_connection` in cafe-bus/src/client.rs.
pub mod Moves
pub mod Run
pub mod Delivery
pub mod Publication
pub mod Creation
pub mod Departure
pub mod Following
pub mod Negotiation
use observable_cafev.Base.{
  ℕ, String, Bool, true, false, Option, none, some, List, [], ◌∷◌, ◌&&◌, ◌==◌, map_or, and_then,
  if◌then◌else◌, is_some, unwrap_or,
}
use observable_cafev.Platform.{Platform}
use observable_cafev.Map
use observable_cafev.Envelope.{
  ClientMessage, ServerMessage, connected, codec_set, pong, subscribe, subscribe_all,
  subscribe_filtered, publish, set_meta, create_session, delete_session, set_session_tags,
  fork_session, list_sessions, ping,
}
use observable_cafev.Bus.{Bus, Env, Conn, send_msg}
use observable_cafev.Handlers.Sessions.{
  handle_create, handle_set_tags, handle_fork, handle_delete, handle_list,
}
use observable_cafev.Handlers.Publish.{handle_publish}
use observable_cafev.Handlers.Subscribe.{handle_subscribe}
use observable_cafev.Handlers.SubscribeAll.{handle_subscribe_all}

module _ ⦃P : Platform⦄ where
  unfoldable pub handle_ping : String → Bus → Bus
  unfolding send_msg
  handle_ping conn b = send_msg conn pong b

  unfoldable pub handle_set_meta : String → Option String → Bus → Bus
  handle_set_meta conn role b = record b {
    conn_meta = Map.insert b.conn_meta conn (record { role = role });
  }

  abbrev pub keep : Conn → Option Bus → Option (Conn × Bus)
  keep conn none = none
  keep conn (some b) = some (conn, b)

  -- One round of the loop.
  unfoldable pub handle : Env → ClientMessage → Conn → Bus → Option (Conn × Bus)
  unfolding handle_ping handle_set_meta
  handle env ping conn b = some (conn, handle_ping conn.id b)
  handle env (set_meta role codecs) conn b = some (conn, handle_set_meta conn.id role b)
  handle env list_sessions conn b = some (conn, handle_list conn.id b)
  handle env (create_session id agent config) conn b =
      keep conn (handle_create env conn.id id agent config b)
  handle env (set_session_tags id tags) conn b = keep conn (handle_set_tags env conn.id id tags b)
  handle env (fork_session parent id config) conn b =
      some (conn, handle_fork env conn.id parent id b)
  handle env (delete_session id) conn b = some (conn, handle_delete conn.id id b)
  handle env (publish id c) conn b = keep conn (handle_publish env conn.id id c b)
  handle env (subscribe id) conn b = some (handle_subscribe env id conn b)
  handle env subscribe_all conn b = some (handle_subscribe_all env none conn b)
  handle env (subscribe_filtered f) conn b = some (handle_subscribe_all env (some f) conn b)

  -- `cs.iter().find_map(…)`; `bincode` is the feature `bincode-listener`.
  unfoldable pub select_codec : Bool → List String → String
  select_codec bincode [] = "json"
  select_codec bincode (c ∷ cs) =
      if c == "json"
      then "json"
      else if bincode && c == "bincode"
      then "bincode"
      else select_codec bincode cs

  unfoldable pub negotiate : Bool → ClientMessage → String × Option String
  negotiate bincode (set_meta role (some codecs)) = (select_codec bincode codecs, role)
  negotiate bincode _ = ("json", none)

  unfoldable pub apply_negotiated_role : Option String → String → Bus → Bus
  apply_negotiated_role none conn b = b
  apply_negotiated_role (some r) conn b = record b {
    conn_meta = Map.insert b.conn_meta conn (record { role = some r });
  }

  unfoldable pub greeting : String → String → ClientMessage → ServerMessage
  greeting conn codec (set_meta role (some codecs)) = codec_set codec conn
  greeting conn codec _ = connected conn

  -- `handle_connection` up to the start of the loop: the first message has been read.
  unfoldable pub handshake : Bool → String → ClientMessage → Bus → Conn × Bus
  unfolding negotiate select_codec apply_negotiated_role greeting send_msg
  handshake bincode conn first b =
      let (codec, role) = negotiate bincode first in
      let registered = record b { connections = Map.insert b.connections conn tt } in
      (
        record { id = conn; subscriber_tasks = [] },
        send_msg conn (greeting conn codec first) (apply_negotiated_role role conn registered),
      )

  -- `handle_client` greets before it reads anything.
  unfoldable pub greet : String → Bus → Conn × Bus
  unfolding send_msg
  greet conn b = (
    record { id = conn; subscriber_tasks = [] },
    send_msg conn (connected conn) (record b { connections = Map.insert b.connections conn tt }),
  )
