-- ===== src/Tests/Managers.antt =====
-- The manager's theorems at the gateway of the fixtures, and a run of it.
use sse_gateway.Prelude.{◌≡◌, refl, codes, text_dec, [], ◌∷◌}
use sse_gateway.Extern.Samples.{text_json, assoc_map, queues, without}
use sse_gateway.Event.{message}
use sse_gateway.Connection.{SseConnection}
use sse_gateway.Manager
use sse_gateway.Manager.{
  ConnectionManager, register, unregister, send_to_channel, broadcast, cleanup_dead_connections,
  connection_count, channel_connection_count, channel_ids,
}
use sse_gateway.Manager.Index.{IsIndexed, unregister-IsIndexed}
use sse_gateway.Manager.Delivery.{accepted-send_to_channel}
use sse_gateway.Manager.Broadcast.{accepted-broadcast}
use sse_gateway.Manager.Cleanup.{get-cleanup, if_active}
use sse_gateway.Tests.Fixtures.{
  first, third, busy, wires, hello, busy-IsIndexed, busy-IsWired, a_is_there, c_is_there,
}

sent_to_room : (send_to_channel (codes "room") hello busy wires).0 ≡ 2
unfolding send_to_channel register Manager.new without text_dec message
sent_to_room = refl

sent_to_all : (broadcast hello busy wires).0 ≡ 2
unfolding broadcast register Manager.new without text_dec message
sent_to_all = refl

cleaned : connection_count (cleanup_dead_connections busy wires) ≡ 2
unfolding connection_count cleanup_dead_connections unregister register Manager.new without text_dec
cleaned = refl

unregister-IsIndexed_example : IsIndexed (unregister (codes "a") busy)
unregister-IsIndexed_example = unregister-IsIndexed (codes "a") busy busy-IsIndexed

accepted-send_to_channel_example :
    (send_to_channel (codes "room") hello busy wires).1.queue 0 ≡ hello ∷ []
unfolding register Manager.new without text_dec
accepted-send_to_channel_example =
    accepted-send_to_channel (codes "room") hello busy wires (codes "a") first.0 busy-IsIndexed
      busy-IsWired a_is_there

accepted-broadcast_example : (broadcast hello busy wires).1.queue 2 ≡ []
unfolding register Manager.new without text_dec
accepted-broadcast_example =
    accepted-broadcast hello busy wires (codes "c") third.0 busy-IsWired c_is_there

get-cleanup_example :
    assoc_map.get {V = SseConnection} (codes "c") (cleanup_dead_connections busy wires).connections
    ≡ if_active wires (assoc_map.get {V = SseConnection} (codes "c") busy.connections)
get-cleanup_example = get-cleanup busy wires (codes "c")
