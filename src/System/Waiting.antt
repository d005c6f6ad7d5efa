-- ===== src/System/Waiting.antt =====
-- Deliveries that wait, and streams that are dropped meanwhile: `send_to_channel` of
-- crates/sse-gateway/src/manager.rs and `CleanupStream` of crates/sse-gateway/src/handler.rs, await by
-- await. In the table each entry stands in a shard. `get` gives a guard that keeps the shard locked
-- for reading; `unregister` removes the entry, for which the shard must not be locked, and it blocks
-- its thread until then. `shard` is the table's choice of a shard for a key.
pub mod Stuck
pub mod Endless
pub mod Deadlock
use mathlib.Core.Option
use sse_gateway.Prelude.{
  ℕ, ◌+◌, ◌≡◌, ◌≢◌, ◌⊎◌, Text, Option, none, some, Bool, true, List, [], ◌∷◌, ◌++◌, All,
  if◌then◌else◌,
}
use sse_gateway.Extern.Json.{Json}
use sse_gateway.Extern.DashMap.{DashMap}
use sse_gateway.Extern.Mpsc.{Mpsc}
use sse_gateway.Extern.Room.{Room}
use sse_gateway.Event.{SseEvent}
use sse_gateway.Connection
use sse_gateway.Connection.{SseConnection}
use sse_gateway.Manager.{
  ConnectionManager, register, unregister, channel_ids, dead_ids, cleanup_dead_connections,
}

-- Who awaits a call of `send_to_channel`: the handler of a request, whose future is dropped when its
-- client goes away, or a task of the dispatcher, which nothing drops.
pub data Caller : Type 0 where
  in_request in_task : Caller

-- A call of `send_to_channel`: the ids that are left, the guard that it holds, if it awaits the send
-- to that connection, and the count.
pub record Sending ⦃J : Json⦄ ⦃M : Mpsc SseEvent⦄ : Type 0 where
  pub caller : Caller
  pub todo : List Text
  pub held : Option (Text × SseConnection)
  pub event : SseEvent
  pub count : ℕ

-- A stream is polled by its response, once that has begun; or it is being dropped, its cleanup first and its receiver,
-- which is among its fields, after that.
pub data Phase : Type 0 where
  starting polled dropping cleaned_up : Phase

pub record Stream ⦃J : Json⦄ ⦃M : Mpsc SseEvent⦄ : Type 0 where
  pub id : Text
  pub receiver : M.Sender
  pub phase : Phase

pub record Tables ⦃J : Json⦄ ⦃D : DashMap⦄ ⦃M : Mpsc SseEvent⦄ : Type 0 where
  pub manager : ConnectionManager
  pub wires : M.State
  pub sends : List Sending
  pub streams : List Stream

module _ ⦃J : Json⦄ ⦃D : DashMap⦄ ⦃M : Mpsc SseEvent⦄ where
  -- `self.channel_index.get(channel_id).map(|ids| ids.clone()).unwrap_or_default()`
  unfoldable pub start_sending : Caller → Text → SseEvent → ConnectionManager → Sending
  start_sending caller channel_id event m = record {
    caller = caller;
    todo = channel_ids channel_id m;
    held = none;
    event = event;
    count = 0;
  }

  -- `if let Some(conn) = self.connections.get(&conn_id)`
  unfoldable pub look_up : Text → List Text → ConnectionManager → Sending → Sending
  look_up conn_id ids m x = elim (D.get conn_id m.connections) [
    | none ↦ record x { todo = ids }
    | some conn ↦ record x { todo = ids; held = some (conn_id, conn) }
  ]

  -- The send has returned: the guard is given back.
  unfoldable pub count_sent : Bool → Sending → Sending
  count_sent is_ok x = record x { held = none; count = if is_ok then x.count + 1 else x.count }

  -- The send has a slot, or the channel is closed.
  unfoldable pub finish_send :
      List Sending → Sending → List Sending → SseConnection → Tables → Tables
  unfolding count_sent
  finish_send before x after conn s =
      let (is_ok, w) = Connection.send conn x.event s.wires in
      record s { wires = w; sends = before ++ count_sent is_ok x ∷ after }

  unfoldable pub open_stream : Text → ℕ → Text → Option Text → Option Text → Tables → Tables
  open_stream uuid now channel_id client_ip user_agent s =
      let (conn, receiver, manager, wires) =
        register uuid now channel_id client_ip user_agent s.manager s.wires in
      let y : Stream = record { id = uuid; receiver = receiver; phase = starting } in
      record s { manager = manager; wires = wires; streams = s.streams ++ y ∷ [] }

module _ (shard : Text → ℕ) ⦃J : Json⦄ ⦃M : Mpsc SseEvent⦄ where
  -- the guard is not on the shard of the id
  abbrev pub Spares : Text → Option (Text × SseConnection) → Type 0
  Spares id none = Unit
  Spares id (some (key, _)) = shard id ≢ shard key

  -- no send holds a guard on the shard of the id
  abbrev pub IsFree : Text → List Sending → Type 0
  IsFree id sends = All (λ (x : Sending). Spares id x.held) sends

module _ (shard : Text → ℕ) ⦃J : Json⦄ ⦃D : DashMap⦄ ⦃M : Mpsc SseEvent⦄ ⦃R : Room SseEvent⦄ where
  pub data Move (s : Tables) : Tables → Type 0 where
    opened :
        (uuid : Text) (now : ℕ) (channel_id : Text) (client_ip user_agent : Option Text)
        → IsFree shard uuid s.sends
        → Move s (open_stream uuid now channel_id client_ip user_agent s)
    started :
        (caller : Caller) (channel_id : Text) (event : SseEvent)
        → Move s
            (record s { sends = s.sends ++ start_sending caller channel_id event s.manager ∷ [] })
    looked_up :
        (before : List Sending) (x : Sending) (after : List Sending) (conn_id : Text)
        (ids : List Text)
        → s.sends ≡ before ++ x ∷ after
        → x.held ≡ none
        → x.todo ≡ conn_id ∷ ids
        → Move s (record s { sends = before ++ look_up conn_id ids s.manager x ∷ after })
    sent :
        (before : List Sending) (x : Sending) (after : List Sending) (key : Text)
        (conn : SseConnection)
        → s.sends ≡ before ++ x ∷ after
        → x.held ≡ some (key, conn)
        → (R.has_room conn.sender s.wires ≡ true) ⊎ (M.is_closed conn.sender s.wires ≡ true)
        → Move s (finish_send before x after conn s)
    returned :
        (before : List Sending) (x : Sending) (after : List Sending)
        → s.sends ≡ before ++ x ∷ after
        → x.held ≡ none
        → x.todo ≡ []
        → Move s (record s { sends = before ++ after })
    -- The future of the request is dropped, and the guard with it.
    given_up :
        (before : List Sending) (x : Sending) (after : List Sending)
        → s.sends ≡ before ++ x ∷ after
        → x.caller ≡ in_request
        → Move s (record s { sends = before ++ after })
    responded :
        (before : List Stream) (y : Stream) (after : List Stream)
        → s.streams ≡ before ++ y ∷ after
        → y.phase ≡ starting
        → Move s (record s { streams = before ++ record y { phase = polled } ∷ after })
    -- The client goes away before its response: the receiver is dropped, and there is no cleanup yet.
    aborted :
        (before : List Stream) (y : Stream) (after : List Stream)
        → s.streams ≡ before ++ y ∷ after
        → y.phase ≡ starting
        → Move s (record s { wires = M.close y.receiver s.wires; streams = before ++ after })
    read :
        (before : List Stream) (y : Stream) (after : List Stream)
        → s.streams ≡ before ++ y ∷ after
        → y.phase ≡ polled
        → Move s (record s { wires = R.recv y.receiver s.wires })
    left :
        (before : List Stream) (y : Stream) (after : List Stream)
        → s.streams ≡ before ++ y ∷ after
        → y.phase ≡ polled
        → Move s (record s { streams = before ++ record y { phase = dropping } ∷ after })
    unregistered :
        (before : List Stream) (y : Stream) (after : List Stream)
        → s.streams ≡ before ++ y ∷ after
        → y.phase ≡ dropping
        → IsFree shard y.id s.sends
        → Move s (record s {
          manager = unregister y.id s.manager;
          streams = before ++ record y { phase = cleaned_up } ∷ after;
        })
    closed :
        (before : List Stream) (y : Stream) (after : List Stream)
        → s.streams ≡ before ++ y ∷ after
        → y.phase ≡ cleaned_up
        → Move s (record s { wires = M.close y.receiver s.wires; streams = before ++ after })
    cleaned :
        All (λ id. IsFree shard id s.sends) (dead_ids (D.iter s.manager.connections) s.wires)
        → Move s (record s { manager = cleanup_dead_connections s.manager s.wires })

  pub data Moves (s : Tables) : Tables → Type 0 where
    here : Moves s s
    next : {t u : Tables} → Moves s t → Move t u → Moves s u
