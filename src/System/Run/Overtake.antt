-- ===== src/System/Run/Overtake.antt =====
-- Two messages of the source whose tasks run in the other order.
use sse_gateway.Prelude.{◌≡◌, refl, Text, Bool, true, [], ◌∷◌, ◌++◌, append-nil}
use sse_gateway.Extern.Json.{Json}
use sse_gateway.Extern.DashMap.{DashMap}
use sse_gateway.Extern.Mpsc.{Mpsc}
use sse_gateway.Extern.SseFrame.{SseFrame}
use sse_gateway.Event.{SseEvent}
use sse_gateway.Connection.{SseConnection}
use sse_gateway.Storage.Trait.{MessageStorage}
use sse_gateway.Handler.{Callbacks}
use sse_gateway.Gateway.{Arrival, handle_all}
use sse_gateway.Gateway.Routing.{IsLive, read_so_far, read-handle_all}
use sse_gateway.System.Reading.{heard}
use sse_gateway.System.Run.{Running, Acts, received, handled, here, next}
use sse_gateway.System.Run.Messages.{said_by, all_given}

module _ ⦃J : Json⦄ ⦃D : DashMap⦄ ⦃M : Mpsc SseEvent⦄ ⦃F : SseFrame⦄ {S : MessageStorage}
    {Response E : Type 0} (k : Callbacks Response E) (enable_dashboard : Bool) (r : Running S E)
    (a b : Arrival) where
  -- `b` was handled, and then `a`.
  abbrev pub overtaken : Running S E
  overtaken = record r {
    system = record r.system { world = handle_all (b ∷ a ∷ []) r.system.world };
    spawned = r.spawned ++ [];
  }

  overtaking : r.source_runs ≡ true → Acts k enable_dashboard r overtaken
  unfolding handle_all
  overtaking runs =
      next
        (next (next (next here (received a.msg runs)) (received b.msg runs))
          (handled (r.spawned ++ a.msg ∷ []) b.msg [] b.uuid b.ts refl))
        (handled r.spawned a.msg [] a.uuid a.ts (append-nil _))

  -- Let the source run, and let a registered connection of a gateway with consistent index and
  -- channels have a live client. Then there is a run in which the source hands over two messages,
  -- one and then the other, and at its end the connection was sent, behind what it had before,
  -- those of the two that are for its channel or for all, the second before the first.
  pub source_order_lost :
      (id : Text) (conn : SseConnection)
      → r.source_runs ≡ true
      → IsLive id conn r.system.world
      → (p : Acts k enable_dashboard r overtaken) × (all_given p
          ≡ said_by a.msg ∷ said_by b.msg ∷ [])
        × (read_so_far id conn overtaken.system.world
            ≡ read_so_far id conn r.system.world
              ++ heard conn.channel_id (said_by b.msg ∷ said_by a.msg ∷ []))
  unfolding overtaking
  source_order_lost id conn runs live =
      (overtaking runs, refl, read-handle_all id conn (b ∷ a ∷ []) r.system.world live)
