-- ===== src/Session.antt =====
-- handler.rs: one client's session, from `sse_connect` to the drop of its `CleanupStream`
-- (crates/sse-gateway/src/handler.rs). The keep-alive comments in the stream are not modelled.
pub mod Lifecycle
pub mod Stream
pub mod Output
use mathlib.Core.Option
use sse_gateway.Prelude.{
  ℕ, Text, codes, Option, none, some, Bool, true, false, List, [], ◌∷◌, ◌++◌, if◌then◌else◌, map,
}
use sse_gateway.Extern.Json.{Json}
use sse_gateway.Extern.DashMap.{DashMap}
use sse_gateway.Extern.Mpsc.{Mpsc}
use sse_gateway.Extern.SseFrame.{SseFrame}
use sse_gateway.Std.Affix.{trim}
use sse_gateway.Std.Split.{split}
use sse_gateway.Event.{SseEvent}
use sse_gateway.Connection.{SseConnection}
use sse_gateway.Manager.{ConnectionManager, register, unregister}
use sse_gateway.Storage.Trait.{MessageStorage}
use sse_gateway.Source.{ConnectionInfo}
use sse_gateway.Auth.{AuthRequest}
use sse_gateway.Handler.{World, Callbacks, sse_event_to_axum}

-- What `sse_connect` extracts from the request. `headers` is as in `AuthRequest`.
pub record ConnectRequest : Type 0 where
  pub method : Text
  pub uri_path : Text
  pub uri_query : Option Text
  pub headers : Text → Option Text
  pub channel_id : Text

-- `s.split(',').next().unwrap_or(s).trim()`
unfoldable pub first_address : Text → Text
first_address s = elim (split b',' s) [ [] ↦ trim s | part ∷ _ ↦ trim part ]

unfoldable pub client_ip : ConnectRequest → Option Text
client_ip r = Option.map first_address (r.headers (codes "x-forwarded-for"))

unfoldable pub auth_request : ConnectRequest → AuthRequest
auth_request r = record {
  method = r.method;
  uri_path = r.uri_path;
  uri_query = r.uri_query;
  headers = r.headers;
  channel_id = r.channel_id;
  client_ip = client_ip r;
}

-- `CleanupStream`: `cleanup` says that the closure was not taken yet.
pub record SseStream ⦃J : Json⦄ ⦃M : Mpsc SseEvent⦄ ⦃F : SseFrame⦄ : Type 0 where
  pub replay : List F.Event
  pub receiver : M.Sender
  pub info : ConnectionInfo
  pub cleanup : Bool

pub data ConnectResult ⦃J : Json⦄ ⦃M : Mpsc SseEvent⦄ ⦃F : SseFrame⦄ (Response : Type 0)
    : Type 0 where
  denied : Response → ConnectResult Response
  streaming : SseStream → ConnectResult Response

abbrev pub call_back : {E : Type 0} → Option (ConnectionInfo → E → E) → ConnectionInfo → E → E
call_back none info env = env
call_back (some f) info env = f info env

module _ ⦃J : Json⦄ ⦃D : DashMap⦄ ⦃M : Mpsc SseEvent⦄ ⦃F : SseFrame⦄ {S : MessageStorage}
    {E : Type 0} where
  -- the stream: the missed messages first, the receiver behind them
  unfoldable pub start_stream : ConnectRequest → ConnectionInfo → M.Sender → World S E → SseStream
  start_stream r info receiver world = record {
    replay =
        map sse_event_to_axum
          (S.get_messages_after r.channel_id (r.headers (codes "last-event-id")) world.storage);
    receiver = receiver;
    info = info;
    cleanup = true;
  }

module _ ⦃J : Json⦄ ⦃D : DashMap⦄ ⦃M : Mpsc SseEvent⦄ ⦃F : SseFrame⦄ {S : MessageStorage}
    {Response E : Type 0} where
  -- registration and `on_connect`
  unfoldable pub open_session :
      Text
      → ℕ
      → ConnectRequest
      → Callbacks Response E
      → World S E
      → ConnectionInfo × M.Sender × World S E
  open_session uuid now r k world =
      let (connection, receiver, manager, wires) =
        register uuid now r.channel_id (client_ip r) (r.headers (codes "user-agent")) world.manager
          world.wires in
      let info : ConnectionInfo = record {
        channel_id = r.channel_id;
        connection_id = connection.id;
        instance_id = world.manager.instance_id;
      } in
      (
        info,
        receiver,
        record world {
          manager = manager;
          wires = wires;
          env = call_back k.on_connect info world.env;
        },
      )

  accept :
      Text
      → ℕ
      → ConnectRequest
      → Callbacks Response E
      → World S E
      → ConnectResult Response × World S E
  accept uuid now r k world =
      let (info, receiver, world') = open_session uuid now r k world in
      (streaming (start_stream r info receiver world'), world')

  unfoldable pub sse_connect :
      Text
      → ℕ
      → ConnectRequest
      → Callbacks Response E
      → World S E
      → ConnectResult Response × World S E
  unfolding accept
  sse_connect uuid now r k world = elim (Option.bind k.auth (λ auth_fn. auth_fn (auth_request r))) [
    | some response ↦ (denied response, world)
    | none ↦ accept uuid now r k world
  ]

  -- `Drop`: the closure runs once; then the receiver goes with the stream.
  unfoldable pub drop_stream : Callbacks Response E → SseStream → World S E → SseStream × World S E
  drop_stream k stream world =
      if stream.cleanup
      then (
        record stream { cleanup = false },
        record world {
          manager = unregister stream.info.connection_id world.manager;
          wires = M.close stream.receiver world.wires;
          env = call_back k.on_disconnect stream.info world.env;
        },
      )
      else (stream, record world { wires = M.close stream.receiver world.wires })
