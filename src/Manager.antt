-- ===== src/Manager.antt =====
-- manager.rs: the registry of connections (crates/sse-gateway/src/manager.rs).
-- An operation takes and returns the manager and the state of the event channels. It is modelled as
-- one step: what other tasks do while a send waits for a free slot is not interleaved.
pub mod Index
pub mod Senders
pub mod Delivery
pub mod Broadcast
pub mod Cleanup
pub mod Count
pub mod Heartbeats
use mathlib.Core.Option
use sse_gateway.Prelude.{
  ℕ, ◌+◌, Text, ◌==◌, Option, none, some, Bool, not, List, [], ◌∷◌, ◌++◌, length, retain,
  if◌then◌else◌,
}
use sse_gateway.Extern.Json.{Json}
use sse_gateway.Extern.DashMap.{DashMap}
use sse_gateway.Extern.Mpsc.{Mpsc}
use sse_gateway.Event.{SseEvent}
use sse_gateway.Connection
use sse_gateway.Connection.{SseConnection, is_active}

pub record ConnectionManager ⦃J : Json⦄ ⦃D : DashMap⦄ ⦃M : Mpsc SseEvent⦄ : Type 0 where
  pub connections : D.Map SseConnection
  pub channel_index : D.Map (List Text)
  pub instance_id : Text

module _ ⦃J : Json⦄ ⦃D : DashMap⦄ ⦃M : Mpsc SseEvent⦄ where
  unfoldable pub new : Text → ConnectionManager
  new instance_id = record {
    connections = D.empty;
    channel_index = D.empty;
    instance_id = instance_id;
  }

  unfoldable pub register :
      Text
      → ℕ
      → Text
      → Option Text
      → Option Text
      → ConnectionManager
      → M.State
      → SseConnection × M.Sender × ConnectionManager × M.State
  unfolding Connection.new
  register uuid now channel_id client_ip user_agent m w =
      let (connection, receiver, w') =
        Connection.new uuid now channel_id m.instance_id client_ip user_agent w in
      (
        connection,
        receiver,
        record m {
          connections = D.insert connection.id connection m.connections;
          channel_index =
              D.entry_or channel_id [] (λ ids. ids ++ connection.id ∷ []) m.channel_index;
        },
        w',
      )

  unfoldable pub unregister : Text → ConnectionManager → ConnectionManager
  unregister connection_id m = elim (D.get connection_id m.connections) [
    | none ↦ m
    | some connection ↦ record m {
      connections = D.remove connection_id m.connections;
      channel_index =
          D.alter connection.channel_id (retain (λ id. not (id == connection_id))) m.channel_index;
    }
  ]

  -- the ids of a channel, `unwrap_or_default`
  unfoldable pub channel_ids : Text → ConnectionManager → List Text
  channel_ids channel_id m = Option.get_or (D.get channel_id m.channel_index) []

  -- the loop of `send_to_channel`
  pub send_each : List Text → SseEvent → ConnectionManager → ℕ → M.State → ℕ × M.State
  send_each [] event m sent w = (sent, w)
  send_each (conn_id ∷ ids) event m sent w = elim (D.get conn_id m.connections) [
    | none ↦ send_each ids event m sent w
    | some conn ↦
        let (done, w') = Connection.send conn event w in
        send_each ids event m (if done then sent + 1 else sent) w'
  ]

  unfoldable pub send_to_channel : Text → SseEvent → ConnectionManager → M.State → ℕ × M.State
  unfolding send_each channel_ids
  send_to_channel channel_id event m w = send_each (channel_ids channel_id m) event m 0 w

  unfoldable pub send_to_connection : Text → SseEvent → ConnectionManager → M.State → Bool × M.State
  send_to_connection connection_id event m w = elim (D.get connection_id m.connections) [
    | none ↦ (Bool.false, w)
    | some conn ↦ Connection.send conn event w
  ]

  -- the loop of `broadcast`
  pub broadcast_each : List (Text × SseConnection) → SseEvent → ℕ → M.State → ℕ × M.State
  broadcast_each [] event sent w = (sent, w)
  broadcast_each ((_, conn) ∷ entries) event sent w =
      let (done, w') = Connection.send conn event w in
      broadcast_each entries event (if done then sent + 1 else sent) w'

  unfoldable pub broadcast : SseEvent → ConnectionManager → M.State → ℕ × M.State
  unfolding broadcast_each
  broadcast event m w = broadcast_each (D.iter m.connections) event 0 w

  unfoldable pub connection_count : ConnectionManager → ℕ
  connection_count m = D.len m.connections

  unfoldable pub channel_connection_count : Text → ConnectionManager → ℕ
  channel_connection_count channel_id m =
      Option.get_or (Option.map length (D.get channel_id m.channel_index)) 0

  -- the values of the iterator
  unfoldable pub values : List (Text × SseConnection) → List SseConnection
  values [] = []
  values ((_, c) ∷ entries) = c ∷ values entries

  unfoldable pub list_connections : ConnectionManager → List SseConnection
  unfolding values
  list_connections m = values (D.iter m.connections)

  -- the keys of the inactive entries
  pub dead_ids : List (Text × SseConnection) → M.State → List Text
  dead_ids [] w = []
  dead_ids ((id, c) ∷ entries) w =
      let rest = dead_ids entries w in if not (is_active c w) then id ∷ rest else rest

  pub unregister_all : List Text → ConnectionManager → ConnectionManager
  unregister_all [] m = m
  unregister_all (id ∷ ids) m = unregister_all ids (unregister id m)

  unfoldable pub cleanup_dead_connections : ConnectionManager → M.State → ConnectionManager
  unfolding dead_ids unregister_all
  cleanup_dead_connections m w = unregister_all (dead_ids (D.iter m.connections) w) m
