-- ===== src/Tests/Fixtures.antt =====
-- A gateway with two connections to the channel "room" and one, whose client left, to "hall".
use sse_gateway.Prelude.{ℕ, ◌≡◌, refl, Text, codes, text_dec, none, some, false, []}
use sse_gateway.Extern.Samples.{text_json, assoc_map, queues, Queues, without, queue_close}
use sse_gateway.Event.{SseEvent, message}
use sse_gateway.Connection.{SseConnection}
use sse_gateway.Manager
use sse_gateway.Manager.{ConnectionManager, register}
use sse_gateway.Manager.Index.{IsIndexed, new-IsIndexed, register-IsIndexed}
use sse_gateway.Manager.Senders.{IsWired, new-IsWired, register-IsWired}

abbrev pub no_channels : Queues SseEvent
no_channels = record { next = 0; closed = λ s. false; queue = λ s. [] }

abbrev pub enter :
    Text
    → Text
    → ConnectionManager
    → Queues SseEvent
    → SseConnection × ℕ × ConnectionManager × Queues SseEvent
enter uuid channel m w = register uuid 1000 channel none none m w

-- no connections yet
abbrev pub fresh : ConnectionManager
fresh = Manager.new (codes "gw-1")

abbrev pub first : SseConnection × ℕ × ConnectionManager × Queues SseEvent
first = enter (codes "a") (codes "room") fresh no_channels

abbrev pub second : SseConnection × ℕ × ConnectionManager × Queues SseEvent
second = enter (codes "b") (codes "room") first.2 first.3

abbrev pub third : SseConnection × ℕ × ConnectionManager × Queues SseEvent
third = enter (codes "c") (codes "hall") second.2 second.3

abbrev pub busy : ConnectionManager
busy = third.2

-- the client of "c" is gone
abbrev pub wires : Queues SseEvent
wires = queue_close third.1 third.3

abbrev pub hello : SseEvent
hello = message (codes "u") (codes "hello")

b_is_fresh : assoc_map.get {V = SseConnection} (codes "b") first.2.connections ≡ none
unfolding register Manager.new without text_dec
b_is_fresh = refl

pub c_is_fresh : assoc_map.get {V = SseConnection} (codes "c") second.2.connections ≡ none
unfolding register Manager.new without text_dec
c_is_fresh = refl

pub second-IsIndexed : IsIndexed second.2
unfolding Manager.new
second-IsIndexed =
    register-IsIndexed (codes "b") 1000 (codes "room") none none first.2 first.3
      (register-IsIndexed (codes "a") 1000 (codes "room") none none fresh no_channels
        (new-IsIndexed (codes "gw-1")) (assoc_map.get-empty {V = SseConnection} (codes "a")))
      b_is_fresh

pub busy-IsIndexed : IsIndexed busy
busy-IsIndexed =
    register-IsIndexed (codes "c") 1000 (codes "hall") none none second.2 second.3 second-IsIndexed
      c_is_fresh

pub third-IsWired : IsWired third.2 third.3
third-IsWired = register-IsWired (codes "c") 1000 (codes "hall") none none second.2 second.3 (
    register-IsWired (codes "b") 1000 (codes "room") none none first.2 first.3 (
      register-IsWired (codes "a") 1000 (codes "room") none none fresh no_channels
        (new-IsWired (codes "gw-1") no_channels)))

pub busy-IsWired : IsWired busy wires
busy-IsWired = record {
  named = third-IsWired.named;
  made = third-IsWired.made;
  apart = third-IsWired.apart;
}

pub a_is_there : assoc_map.get {V = SseConnection} (codes "a") busy.connections ≡ some first.0
unfolding register Manager.new without text_dec
a_is_there = refl

pub c_is_there : assoc_map.get {V = SseConnection} (codes "c") busy.connections ≡ some third.0
unfolding register Manager.new without text_dec
c_is_there = refl
