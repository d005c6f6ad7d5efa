-- ===== src/Manager/Count.antt =====
-- The counts that the manager reports.
use sse_gateway.Prelude.{
  ◌≡◌, refl, ◌∙◌, Text, Bool, ◌&&◌, List, [], ◌∷◌, contains, Distinct, retain, length,
  length_of_same, arith,
}
use sse_gateway.Extern.Json.{Json}
use sse_gateway.Extern.DashMap.{DashMap}
use sse_gateway.Extern.Mpsc.{Mpsc}
use sse_gateway.Event.{SseEvent}
use sse_gateway.Manager.{ConnectionManager, channel_ids, channel_connection_count}
use sse_gateway.Manager.Index.{IsIndexed, in_channel}
use sse_gateway.Manager.Broadcast.{table_ids, table_ids-Distinct, contains-table_ids}

contains-retain :
    (p : Text → Bool) (a : Text) (xs : List Text)
    → contains a (retain p xs) ≡ (contains a xs && p a)
contains-retain p a [] = refl
contains-retain p a (x ∷ xs) = ground (arith, contains-retain p a xs)

retain-Distinct : (p : Text → Bool) (xs : List Text) → Distinct xs → Distinct (retain p xs)
retain-Distinct p [] d = tt
retain-Distinct p (x ∷ xs) d = ground (arith, retain-Distinct p xs d.1, contains-retain p x xs)

module _ ⦃J : Json⦄ ⦃D : DashMap⦄ ⦃M : Mpsc SseEvent⦄ where
  -- the registered connections of a channel, counted in the table
  abbrev pub registered_in : Text → ConnectionManager → List Text
  registered_in c m = retain (λ id. in_channel c (D.get id m.connections)) (table_ids m)

  length-channel_ids :
      (c : Text) (m : ConnectionManager) → channel_connection_count c m ≡ length (channel_ids c m)
  unfolding channel_connection_count channel_ids
  length-channel_ids c m = ground arith

  -- If the index agrees with the table, `channel_connection_count` is the number of connections
  -- that the table registers for the channel.
  channel_connection_count_lem :
      (c : Text) (m : ConnectionManager)
      → IsIndexed m
      → channel_connection_count c m ≡ length (registered_in c m)
  channel_connection_count_lem c m h =
      length-channel_ids c m
      ∙ length_of_same (channel_ids c m) (registered_in c m) (h.distinct c)
          (retain-Distinct _ (table_ids m) (table_ids-Distinct m))
          λ id. ground (
            arith,
            h.agrees c id,
            contains-retain (λ j. in_channel c (D.get j m.connections)) id (table_ids m),
            contains-table_ids m id,
          )
