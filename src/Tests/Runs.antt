-- ===== src/Tests/Runs.antt =====
-- Runs of `Gateway::run`: a client that connects, messages of the source.
use mathlib.Core.Option
use mathlib.Core.List.{Perm}
use sse_gateway.Prelude.{◌≡◌, refl, Text, codes, inl, text_dec, none, some, true, List, [], ◌∷◌}
use sse_gateway.Extern.Samples.{text_json, assoc_map, queues, without, fields_frame}
use sse_gateway.Event.{raw}
use sse_gateway.Connection.{SseConnection}
use sse_gateway.Manager
use sse_gateway.Manager.{register}
use sse_gateway.Storage.Memory
use sse_gateway.Storage.Memory.{memory_storage}
use sse_gateway.Handler.{deliver}
use sse_gateway.Session.{open_session, client_ip}
use sse_gateway.Gateway.{Arrival, handle, dispatch}
use sse_gateway.Gateway.Routing.{IsLive, read_so_far}
use sse_gateway.System.{System, Session, Steps, entered, aborted, enter, abort}
use sse_gateway.System
use sse_gateway.System.Sound.{IsSound}
use sse_gateway.System.Safety.{initial, initial-IsSound, Steps-IsSound}
use sse_gateway.System.Run.{
  Running, Acts, launch, connect, serving, routed, bound, accepted, connected, received, handled,
  here, next,
}
use sse_gateway.System.Run.Messages.{said_by, all_given, run_delivers}
use sse_gateway.System.Run.Overtake.{overtaken, source_order_lost}
use sse_gateway.Tests.Fixtures.{no_channels}
use sse_gateway.Tests.Sessions.{visitor, logging, arrival}

abbrev start : System memory_storage (List Text)
start = initial (codes "gw-1") no_channels (Memory.new 10) []

abbrev visit : Session
visit = record {
  request = visitor;
  info = record {
    channel_id = codes "room";
    connection_id = codes "a";
    instance_id = codes "gw-1";
  };
  receiver = 0;
  replay = none;
}

abbrev news : Arrival
news = arrival (some (codes "room")) "x"

abbrev later : Arrival
later = arrival none "y"

abbrev joined : Running memory_storage (List Text)
joined = record {
  system = enter (codes "a") 1000 visitor logging start;
  stage = serving;
  source_runs = true;
  cleanup_runs = true;
  in_flight = [];
  spawned = [];
}

abbrev entering : Acts logging true (launch start) joined
unfolding launch routed enter open_session register Manager.new Option.bind without text_dec
entering =
    next (next (next here (bound refl)) (accepted (connect visitor) (inl refl) refl))
      (connected [] visitor [] (codes "a") 1000 refl refl refl)

-- Two messages are received, and the first is handled.
abbrev told : Running memory_storage (List Text)
told = record joined {
  system = record joined.system {
    world = (handle news.uuid news.ts news.msg joined.system.world).1;
  };
  spawned = later.msg ∷ [];
}

abbrev telling : Acts logging true joined told
telling =
    next (next (next here (received news.msg refl)) (received later.msg refl))
      (handled [] news.msg (later.msg ∷ []) news.uuid news.ts refl)

-- the connection of "a"
abbrev conn : SseConnection
conn =
    (register (codes "a") 1000 (codes "room") none none (Manager.new (codes "gw-1")) no_channels).0

run_delivers_example :
    (read_so_far (codes "a") conn told.system.world ≡ (codes "message", raw (codes "x")) ∷ [])
    × Perm (said_by news.msg ∷ said_by later.msg ∷ []) (said_by news.msg ∷ said_by later.msg ∷ [])
unfolding enter open_session register Manager.new without text_dec handle dispatch client_ip
    Manager.send_to_channel deliver
run_delivers_example =
    run_delivers (codes "a") conn (codes "gw-1") no_channels (Memory.new 10) [] entering telling
      refl refl refl

joined-IsLive : IsLive (codes "a") conn joined.system.world
unfolding enter open_session register Manager.new without text_dec client_ip Option.bind
joined-IsLive =
    let h : IsSound joined.system =
      Steps-IsSound {k = logging}
        (System.next System.here (entered (codes "a") 1000 visitor refl refl))
        (initial-IsSound (codes "gw-1") no_channels (Memory.new 10) []) in
    record { indexed = h.indexed; wired = h.wired; there = refl; live = refl }

source_order_lost_example :
    (p : Acts logging true joined (overtaken logging true joined news later)) × (all_given p
      ≡ said_by news.msg ∷ said_by later.msg ∷ [])
    × (read_so_far (codes "a") conn (overtaken logging true joined news later).system.world
        ≡ (codes "message", raw (codes "y")) ∷ (codes "message", raw (codes "x")) ∷ [])
unfolding enter open_session register Manager.new without text_dec client_ip
source_order_lost_example =
    source_order_lost logging true joined news later (codes "a") conn refl joined-IsLive
