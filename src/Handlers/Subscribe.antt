-- ===== src/Handlers/Subscribe.antt =====
-- The message `Subscribe`: what is written at once, and the task that forwards what comes later.
use observable_cafev.Base.{
  ℕ, suc, ◌+◌, String, Bool, Option, none, some, List, [], ◌∷◌, ◌++◌, map, length, and_then,
  if◌then◌else◌,
}
use observable_cafev.Platform.{Platform}
use observable_cafev.Map.{get}
use observable_cafev.Chunk.{Chunk}
use observable_cafev.Envelope.{ServerMessage, chunk, history_complete, error}
use observable_cafev.Session.{SessionState, add_subscriber, drain_retained, subscribe}
use observable_cafev.Registry.{put, cancel_scheduled_deletion}
use observable_cafev.Bus.{Bus, Env, Conn, Task, forward_chunks, send_all}
use observable_cafev.Handlers.Sessions.{not_found}

module _ ⦃P : Platform⦄ where
  -- A loop of writes that ends at the first failure: the messages handed to the writer, and the
  -- number of the next write.
  unfoldable pub write_until : (ℕ → Bool) → ℕ → List ServerMessage → List ServerMessage × ℕ
  write_until accepts i [] = ([], i)
  write_until accepts i (m ∷ ms) =
      let (written, next) = write_until accepts (suc i) ms in
      if accepts i then (m ∷ written, next) else (m ∷ [], suc i)

  -- The role that the connection declared.
  unfoldable pub conn_role : String → Bus → Option String
  conn_role conn b = and_then (get b.conn_meta conn) (λ m. m.role)

  -- The two replay loops and the closing `HistoryComplete`; the last write decides.
  unfoldable pub replay : (ℕ → Bool) → String → List Chunk → List Chunk → List ServerMessage × Bool
  unfolding write_until
  replay accepts session_id history retained =
      let (first, i) = write_until accepts 0 (map (chunk session_id) history) in
      let (second, j) = write_until accepts i (map (chunk session_id) retained) in
      let count = length history + length retained in
      (first ++ (second ++ history_complete session_id count ∷ []), accepts j)

  unfoldable pub subscribe_to : Env → String → SessionState → Conn → Bus → Conn × Bus
  subscribe_to env session_id s conn b =
      let (s₁, previous) = add_subscriber conn.id (conn_role conn.id b) s in
      let (s₂, retained) = drain_retained env.now s₁ in
      let (written, alive) = replay env.accepts session_id s₂.history retained in
      let task : String × Task = (session_id, forward_chunks session_id (subscribe s₂)) in
      let tasks = conn.subscriber_tasks in
      (
        record conn { subscriber_tasks = if alive then tasks ++ task ∷ [] else tasks },
        send_all conn.id written (record b { registry = put b.registry session_id s₂ }),
      )

  unfoldable pub handle_subscribe : Env → String → Conn → Bus → Conn × Bus
  unfolding subscribe_to not_found cancel_scheduled_deletion
  handle_subscribe env session_id conn b =
      let registry = cancel_scheduled_deletion b.registry session_id in
      elim (get registry.sessions session_id) [
        | none ↦ (conn, not_found conn.id session_id (record b { registry = registry }))
        | some s ↦ subscribe_to env session_id s conn (record b { registry = registry })
      ]

  -- What the receiver of a broadcast channel yields.
  pub data Recv : Type 0 where
    got : Chunk → Recv
    lagged : ℕ → Recv
    closed : Recv

  -- The forwarding task, over what its receiver yields: the messages that it hands to the writer.
  unfoldable pub forward_live : (ℕ → Bool) → ℕ → String → List Recv → List ServerMessage
  forward_live accepts i session_id [] = []
  forward_live accepts i session_id (got c ∷ rest) =
      let more = forward_live accepts (suc i) session_id rest in
      if accepts i then chunk session_id c ∷ more else chunk session_id c ∷ []
  forward_live accepts i session_id (lagged n ∷ rest) =
      error (some session_id) "Subscriber lagged; re-subscribe to get full history"
        "SUBSCRIBER_LAGGED"
      ∷ []
  forward_live accepts i session_id (closed ∷ rest) = []
