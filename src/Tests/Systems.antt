-- ===== src/Tests/Systems.antt =====
-- Runs of the gateway as a system: a client that stays, a second one that leaves before its response,
-- and a message that is stored later.
use mathlib.Core.Option
use mathlib.Core.List.{Perm}
use sse_gateway.Prelude.{
  length, keys, ℕ, ◌≡◌, refl, Text, codes, text_dec, none, some, List, [], ◌∷◌, ◌++◌, arith,
  contains, Distinct,
}
use sse_gateway.Extern.Samples.{text_json, assoc_map, queues, without, fields_frame}
use sse_gateway.Event.{raw}
use sse_gateway.Std.Decimal.{pos}
use sse_gateway.Connection.{SseConnection}
use sse_gateway.Manager
use sse_gateway.Manager.{register, connection_count, cleanup_dead_connections}
use sse_gateway.Storage.Trait.{StoreCall}
use sse_gateway.Storage.Memory
use sse_gateway.Storage.Memory.{stream_id_text, memory_storage, Entry, new, store, trim_old}
use sse_gateway.Storage.Memory.Window.{stream, newest, log}
use sse_gateway.Handler.{deliver, run_task}
use sse_gateway.Handler.Deliver.{sent_event, missed}
use sse_gateway.Session.{open_session, client_ip}
use sse_gateway.Session.Output.{output}
use sse_gateway.Gateway.{Arrival, handle, dispatch, message_event}
use sse_gateway.Gateway.Routing.{read_so_far}
use sse_gateway.System.{
  System, Session, Steps, entered, responded, aborted, dispatched, stored, here, next, enter,
  respond, abort, run_stored,
}
use sse_gateway.System.Sound.{ids}
use sse_gateway.System.Safety.{initial, is_live, sessions_are_live}
use sse_gateway.Std.Decimal.{show, show_i64}
use sse_gateway.Handler.Stats.{get_stats}
use sse_gateway.System.Shown.{active_ids, stats_show_sessions}
use sse_gateway.System.Tasks.{tasks_conserved}
use sse_gateway.System.Filled.{stream_refines_run}
use sse_gateway.System.Reading.{read_in_any_order}
use sse_gateway.System.Reorder.{reordered, replay_out_of_order}
use sse_gateway.System.Race.{late_stream, settled, message_missed}
use sse_gateway.Tests.Fixtures.{no_channels, hello}
use sse_gateway.Tests.Sessions.{world, visitor, logging, entry, arrival}

abbrev start : System memory_storage (List Text)
start = initial (codes "gw-1") no_channels (Memory.new 10) []

abbrev waiting : Text → ℕ → Session
waiting uuid receiver = record {
  request = visitor;
  info = record { channel_id = codes "room"; connection_id = uuid; instance_id = codes "gw-1" };
  receiver = receiver;
  replay = none;
}

abbrev one : System memory_storage (List Text)
one = enter (codes "a") 1000 visitor logging start

abbrev two : System memory_storage (List Text)
two = enter (codes "b") 1001 visitor logging one

abbrev answered : System memory_storage (List Text)
answered = record two {
  sessions = respond two.world (waiting (codes "a") 0) ∷ waiting (codes "b") 1 ∷ [];
}

abbrev left_alone : System memory_storage (List Text)
left_alone = abort (waiting (codes "b") 1) (respond two.world (waiting (codes "a") 0) ∷ []) answered

abbrev news : Arrival
news = arrival (some (codes "room")) "x"

abbrev told : System memory_storage (List Text)
told = record left_alone { world = (handle news.uuid news.ts news.msg left_alone.world).1 }

abbrev task : StoreCall
task = record {
  channel_id = codes "room";
  stream_id = (memory_storage.generate_id (pos 9) (Memory.new 10)).0;
  event = sent_event (pos 9) (codes "room") (message_event (codes "u") news.msg) left_alone.world;
}

abbrev kept : System memory_storage (List Text)
kept = record told { world = run_stored task [] told.world }

abbrev entering : Steps logging start two
unfolding enter open_session register Manager.new Option.bind without text_dec
entering =
    next (next here (entered (codes "a") 1000 visitor refl refl))
      (entered (codes "b") 1001 visitor refl refl)

serve : {s : System memory_storage (List Text)} → Steps logging s two → Steps logging s kept
unfolding enter open_session register Manager.new without text_dec handle dispatch deliver abort
serve r =
    next
      (next
        (next (next r (responded [] (waiting (codes "a") 0) (waiting (codes "b") 1 ∷ []) refl refl))
          (aborted (respond two.world (waiting (codes "a") 0) ∷ []) (waiting (codes "b") 1) [] refl
            refl))
        (dispatched news.uuid news.ts news.msg))
      (stored [] task [] refl)

-- the connection of "a"
abbrev conn : SseConnection
conn =
    (register (codes "a") 1000 (codes "room") none none (Manager.new (codes "gw-1")) no_channels).0

sessions_are_live_example :
    Distinct (ids kept.sessions)
    × ((id : Text) → contains id (ids kept.sessions) ≡ is_live kept.world id)
sessions_are_live_example =
    sessions_are_live logging (codes "gw-1") no_channels (Memory.new 10) [] (serve entering)

stats_show_sessions_example :
    let active = active_ids (get_stats show kept.world).connections in
    Distinct active
    × ((id : Text) → contains id active ≡ contains id (ids kept.sessions))
    × (length active ≡ length kept.sessions)
stats_show_sessions_example =
    stats_show_sessions logging show (codes "gw-1") no_channels (Memory.new 10) [] (serve entering)

tasks_conserved_example : Perm (task ∷ kept.world.tasks) (two.world.tasks ++ task ∷ [])
unfolding serve handle dispatch deliver
tasks_conserved_example = tasks_conserved (serve here)

stream_refines_run_example :
    stream (codes "room") kept.world.storage ≡ newest 10 (log (codes "room") (task ∷ []))
unfolding serve newest entering
stream_refines_run_example =
    stream_refines_run (codes "gw-1") no_channels 10 [] (serve entering) (codes "room")

read_in_any_order_example :
    read_so_far (codes "a") conn kept.world ≡ (codes "message", raw (codes "x")) ∷ []
unfolding enter open_session register Manager.new without text_dec handle dispatch deliver abort
    serve client_ip run_stored run_task Manager.send_to_channel
read_in_any_order_example =
    read_in_any_order (codes "a") conn (codes "gw-1") no_channels (Memory.new 10) [] entering
      (serve here) refl refl refl

message_missed_example :
    let given = record visitor { headers = λ name. some (codes "1-1") } in
    let after = settled (pos 9) hello (codes "d") 1000 given logging world in
    (output (late_stream (pos 9) hello (codes "d") 1000 given logging world) after.wires ≡ [])
    × (missed (codes "room") (codes "1-1") after
        ≡ sent_event (pos 9) (codes "room") hello world ∷ [])
unfolding stream store new text_dec without trim_old
message_missed_example =
    let given = record visitor { headers = λ name. some (codes "1-1") } in
    message_missed (pos 9) hello (codes "d") 1000 given logging world (codes "1-1") (entry "1-1").1
      (entry "1-0" ∷ []) refl refl refl (omega arith)

-- two messages to the channel of the window
abbrev at_work : System memory_storage (List Text)
at_work = record { world = world; sessions = [] }

replay_out_of_order_example :
    let after = reordered logging (codes "room") news news at_work in
    Steps logging at_work after
    × (keys (stream (codes "room") after.world.storage)
        ≡ codes "1-0" ∷ codes "1-1" ∷ codes "9-1" ∷ codes "9-0" ∷ [])
    × (missed (codes "room") (codes "9-0") after.world ≡ [])
unfolding stream store new text_dec without trim_old stream_id_text show_i64 show Memory.generate_id
    deliver handle dispatch
replay_out_of_order_example =
    replay_out_of_order logging (codes "room") news news at_work (omega arith) (omega arith) refl
