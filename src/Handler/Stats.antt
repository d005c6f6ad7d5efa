-- ===== src/Handler/Stats.antt =====
-- `get_stats` of crates/sse-gateway/src/handler.rs. `to_rfc3339` prints a time.
use sse_gateway.Prelude.{ℕ, Text, Bool, List, map, length}
use sse_gateway.Extern.Json.{Json}
use sse_gateway.Extern.DashMap.{DashMap}
use sse_gateway.Extern.Mpsc.{Mpsc}
use sse_gateway.Event.{SseEvent}
use sse_gateway.Connection.{SseConnection, is_active}
use sse_gateway.Manager.{list_connections}
use sse_gateway.Storage.Trait.{MessageStorage}
use sse_gateway.Handler.{World}

pub record ConnectionStats : Type 0 where
  pub id : Text
  pub channel_id : Text
  pub connected_at : Text
  pub active : Bool

pub record StatsResponse : Type 0 where
  pub total_connections : ℕ
  pub connections : List ConnectionStats

module _ ⦃J : Json⦄ ⦃M : Mpsc SseEvent⦄ where
  unfoldable pub connection_stats : (ℕ → Text) → M.State → SseConnection → ConnectionStats
  connection_stats to_rfc3339 w c = record {
    id = c.id;
    channel_id = c.channel_id;
    connected_at = to_rfc3339 c.metadata.connected_at;
    active = is_active c w;
  }

module _ ⦃J : Json⦄ ⦃D : DashMap⦄ ⦃M : Mpsc SseEvent⦄ {S : MessageStorage} {E : Type 0} where
  unfoldable pub get_stats : (ℕ → Text) → World S E → StatsResponse
  get_stats to_rfc3339 world =
      let connections =
        map (connection_stats to_rfc3339 world.wires) (list_connections world.manager) in
      record { total_connections = length connections; connections = connections }
