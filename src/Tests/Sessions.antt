-- ===== src/Tests/Sessions.antt =====
-- The gateway's theorems at the gateway of the fixtures, with the memory storage.
use Prim.Native.String.{String}
use sse_gateway.Prelude.{
  ℕ, ◌≡◌, refl, Text, codes, text_dec, Option, none, some, [], ◌∷◌, ◌++◌, List, arith,
}
use sse_gateway.Extern.Samples.{text_json, assoc_map, queues, without, fields_frame}
use sse_gateway.Std.Decimal.{pos}
use sse_gateway.Connection.{SseConnection}
use sse_gateway.Manager
use sse_gateway.Manager.{register, channel_ids}
use sse_gateway.Storage.Memory.{memory_storage, MemoryStorage, new, store, Entry, trim_old}
use sse_gateway.Storage.Memory.Window.{stream}
use sse_gateway.Handler.{World, Callbacks, deliver, run_task, sse_event_to_axum}
use sse_gateway.Event
use sse_gateway.Event.{SseEvent, message}
use sse_gateway.Storage.Trait.{StoreCall}
use sse_gateway.Handler.Deliver.{deliver_replays, missed}
use sse_gateway.Handler.Frame.{view-sse_event_to_axum}
use sse_gateway.Session.{ConnectRequest}
use sse_gateway.Session.Lifecycle.{session_roundtrip, ended}
use sse_gateway.Gateway.{Arrival}
use sse_gateway.Gateway.Routing.{IsLive}
use sse_gateway.Gateway.Builder.{
  Setting, source, storage, build, parts, set_all, default, parts-build, ok,
}
use sse_gateway.Tests.Fixtures.{first, busy, wires, hello, busy-IsIndexed, busy-IsWired, a_is_there}

-- Two messages were stored for "room"; `env` logs the callbacks.
abbrev pub stored : MemoryStorage
stored =
    store (codes "room") (codes "1-1") hello (store (codes "room") (codes "1-0") hello (new 10))

abbrev pub world : World memory_storage (List Text)
world = record { manager = busy; wires = wires; storage = stored; tasks = []; env = [] }

abbrev pub arrival : Option Text → String → Arrival
arrival channel body = record {
  uuid = codes "u";
  ts = pos 9;
  msg = record {
    channel_id = channel;
    event_type = codes "message";
    payload = codes body;
    id = none;
  };
}

abbrev arrivals : List Arrival
arrivals =
    arrival (some (codes "room")) "x" ∷ arrival (some (codes "hall")) "y" ∷ arrival none "z" ∷ []

pub a_IsLive : IsLive (codes "a") first.0 world
unfolding register Manager.new without text_dec
a_IsLive = record {
  indexed = busy-IsIndexed;
  wired = busy-IsWired;
  there = a_is_there;
  live = refl;
}

abbrev pub entry : String → Entry
entry id = (codes id, record hello { stream_id = some (codes id) })

deliver_replays_example :
    let w = (deliver (pos 9) (codes "room") hello world).1 in
    (call : StoreCall) × (seen : SseEvent) × (w.tasks ≡ call ∷ [])
    × (w.wires.queue 0 ≡ seen ∷ [])
    × (missed (codes "room") (codes "1-0") (run_task call w) ≡ (entry "1-1").1 ∷ seen ∷ [])
unfolding stream store new register Manager.new text_dec without trim_old
deliver_replays_example =
    deliver_replays (pos 9) (codes "room") hello world (codes "a") first.0 (codes "1-0")
      (entry "1-0").1 [] (entry "1-1" ∷ []) busy-IsIndexed busy-IsWired a_is_there refl refl refl
      refl (omega arith)

abbrev pub visitor : ConnectRequest
visitor = record {
  method = codes "GET";
  uri_path = codes "/sse/connect";
  uri_query = some (codes "channel_id=room");
  headers = λ name. none;
  channel_id = codes "room";
}

abbrev pub logging : Callbacks Text (List Text)
logging = record {
  auth = none;
  on_connect = some (λ info env. env ++ info.connection_id ∷ []);
  on_disconnect = some (λ info env. env ++ info.channel_id ∷ []);
}

d_is_fresh : assoc_map.get {V = SseConnection} (codes "d") busy.connections ≡ none
unfolding register Manager.new without text_dec
d_is_fresh = refl

session_roundtrip_example :
    let after = ended (codes "d") 1000 visitor logging world in
    ((j : Text)
      → assoc_map.get j after.manager.connections
        ≡ assoc_map.get {V = SseConnection} j busy.connections)
    × ((c : Text) → channel_ids c after.manager ≡ channel_ids c busy)
    × (after.env ≡ codes "d" ∷ codes "room" ∷ [])
session_roundtrip_example =
    session_roundtrip (codes "d") 1000 visitor logging world busy-IsIndexed d_is_fresh

abbrev settings : List (Setting ℕ Text Text)
settings = source 1 ∷ storage (codes "memory") ∷ source 2 ∷ []

parts-build_example : parts (build (codes "u") (set_all settings default)) ≡ ok (2, codes "memory")
parts-build_example = parts-build (codes "u") settings

view-sse_event_to_axum_example : fields_frame.view (sse_event_to_axum (entry "1-0").1) ≡ record {
  event = some (codes "message");
  payload = some (codes "hello");
  id = some (codes "1-0");
  retry = none;
}
unfolding message Event.to_string
view-sse_event_to_axum_example = view-sse_event_to_axum (entry "1-0").1 refl refl refl
